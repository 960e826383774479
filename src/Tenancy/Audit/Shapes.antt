-- ===== src/Tenancy/Audit/Shapes.antt =====
-- What the contract of an entry asks of the catalog in src/tenancy/audit.rs, written out as one
-- condition, and that the verification decides it.

use aeon_iq_temp.Common.{
  Bool, true, false, not, ◌&&◌, ◌||◌, List, [], ◌∷◌, Option, none, some, Text, text_eq,
  text_eq_refl, texts_eq, all, length, ◌==◌, ◌≡◌, refl, arith,
}
use aeon_iq_temp.Tenancy.Audit.Registry.{
  contype, IndexPredicate, total, exactly, ConstraintContract, IndexContract, SchemaObjectContract,
  constraint, unique_index, TableEntry,
}
use aeon_iq_temp.Tenancy.Audit.Codes.{schema_relationship_drift}
use aeon_iq_temp.Tenancy.Audit.Findings.{contract_finding}
use aeon_iq_temp.Tenancy.Audit.Readiness.{is_held}
use aeon_iq_temp.Tenancy.Audit.Contracts.{
  LiveConstraint, LiveIndex, LiveCatalog, lookup, is_text, application_schema, no_reference,
  verify_reference, verify_constraint, verify_predicate, verify_index, verify_object,
  verify_objects, verify_schema_contract,
}
use aeon_iq_temp.Tenancy.Audit.Checks.{Tells, both-Tells, check_that-Tells}

held_alone :
    (e : TableEntry)
    → all (is_held e) (contract_finding schema_relationship_drift e.table [] ∷ []) ≡ true
held_alone e = ground (arith, text_eq_refl e.table)

abbrev pub reference_holds : Option Text → List Text → LiveConstraint → Bool
reference_holds none columns live = no_reference live.referenced_table
reference_holds (some expected) columns live =
    is_text live.referenced_schema application_schema
    && (is_text live.referenced_table expected && texts_eq live.referenced_columns columns)

abbrev pub constraint_holds : ConstraintContract → Option LiveConstraint → Bool
constraint_holds o none = false
constraint_holds o (some live) =
    text_eq live.contype (contype o.kind)
    && (texts_eq live.local_columns o.local_columns
        && (reference_holds o.referenced_table o.referenced_columns live
            && (not o.require_validated || live.validated)))

abbrev pub predicate_holds : IndexPredicate → Option Text → Bool
predicate_holds total none = true
predicate_holds total (some p) = false
predicate_holds (exactly normalized) none = false
predicate_holds (exactly normalized) (some p) = text_eq p normalized

abbrev pub index_holds : IndexContract → Option LiveIndex → Bool
index_holds o none = false
index_holds o (some live) =
    texts_eq live.key_columns o.columns
    && (live.key_column_count == length o.columns
        && ((not o.require_unique || live.is_unique)
            && ((not o.require_valid || live.is_valid)
                && ((not o.require_ready || live.is_ready)
                    && (predicate_holds o.predicate live.predicate
                        && (not o.require_no_expressions || not live.has_expressions))))))

-- An object of the contract is in the catalog, in the shape that is declared.
abbrev pub object_holds : Text → LiveCatalog → SchemaObjectContract → Bool
object_holds t catalog (constraint o) = constraint_holds o (lookup t o.name catalog.constraints)
object_holds t catalog (unique_index o) = index_holds o (lookup t o.name catalog.indexes)

reference-Tells :
    (e : TableEntry) (n : Text) (o : Option Text) (columns : List Text) (live : LiveConstraint)
    → Tells e (verify_reference e.table n o columns live) (reference_holds o columns live)
unfolding verify_reference
reference-Tells e n none columns live = check_that-Tells e (no_reference live.referenced_table) _
reference-Tells e n (some expected) columns live =
    both-Tells e _ _ (is_text live.referenced_schema application_schema) _
      (check_that-Tells e (is_text live.referenced_schema application_schema) _)
      (both-Tells e _ _ (is_text live.referenced_table expected)
        (texts_eq live.referenced_columns columns)
        (check_that-Tells e (is_text live.referenced_table expected) _)
        (check_that-Tells e (texts_eq live.referenced_columns columns) _))

constraint-Tells :
    (e : TableEntry) (o : ConstraintContract) (found : Option LiveConstraint)
    → Tells e (verify_constraint e.table o found) (constraint_holds o found)
unfolding verify_constraint
constraint-Tells e o none = (refl, refl, held_alone e)
constraint-Tells e o (some live) =
    both-Tells e _ _ _ _ (check_that-Tells e (text_eq live.contype (contype o.kind)) _) (
      both-Tells e _ _ _ _ (check_that-Tells e (texts_eq live.local_columns o.local_columns) _) (
        both-Tells e _ _ _ _ (reference-Tells e o.name o.referenced_table o.referenced_columns live)
          (check_that-Tells e (not o.require_validated || live.validated) _)))

predicate-Tells :
    (e : TableEntry) (n : Text) (p : IndexPredicate) (live : Option Text)
    → Tells e (verify_predicate e.table n p live) (predicate_holds p live)
unfolding verify_predicate
predicate-Tells e n total none = (refl, refl, refl)
predicate-Tells e n total (some p) = (refl, refl, held_alone e)
predicate-Tells e n (exactly normalized) none = (refl, refl, held_alone e)
predicate-Tells e n (exactly normalized) (some p) = check_that-Tells e (text_eq p normalized) _

index-Tells :
    (e : TableEntry) (o : IndexContract) (found : Option LiveIndex)
    → Tells e (verify_index e.table o found) (index_holds o found)
unfolding verify_index
index-Tells e o none = (refl, refl, held_alone e)
index-Tells e o (some live) =
    both-Tells e _ _ _ _ (check_that-Tells e (texts_eq live.key_columns o.columns) _) (
      both-Tells e _ _ _ _ (check_that-Tells e (live.key_column_count == length o.columns) _) (
        both-Tells e _ _ _ _ (check_that-Tells e (not o.require_unique || live.is_unique) _) (
          both-Tells e _ _ _ _ (check_that-Tells e (not o.require_valid || live.is_valid) _) (
            both-Tells e _ _ _ _ (check_that-Tells e (not o.require_ready || live.is_ready) _) (
              both-Tells e _ _ _ _ (predicate-Tells e o.name o.predicate live.predicate) (
                check_that-Tells e (not o.require_no_expressions || not live.has_expressions)
                  _))))))

object-Tells :
    (e : TableEntry) (catalog : LiveCatalog) (o : SchemaObjectContract)
    → Tells e (verify_object e.table catalog o) (object_holds e.table catalog o)
unfolding verify_object
object-Tells e catalog (constraint o) =
    constraint-Tells e o (lookup e.table o.name catalog.constraints)
object-Tells e catalog (unique_index o) = index-Tells e o (lookup e.table o.name catalog.indexes)

objects-Tells :
    (e : TableEntry) (catalog : LiveCatalog) (objects : List SchemaObjectContract)
    → Tells e (verify_objects e.table catalog objects) (all (object_holds e.table catalog) objects)
unfolding verify_objects
objects-Tells e catalog [] = (refl, refl, refl)
objects-Tells e catalog (o ∷ objects) =
    both-Tells e (verify_object e.table catalog o) (verify_objects e.table catalog objects)
      (object_holds e.table catalog o) (all (object_holds e.table catalog) objects)
      (object-Tells e catalog o) (objects-Tells e catalog objects)

-- The verification of an entry's contract passes exactly when every object that it declares is in
-- the catalog in the declared shape; it pushes no finding exactly when it passes, and what it
-- pushes is held against the entry.
pub verify_schema_contract_lem :
    (e : TableEntry) (catalog : LiveCatalog)
    → Tells e
        (verify_schema_contract e catalog)
        (all (object_holds e.table catalog) e.schema_contract)
unfolding verify_schema_contract
verify_schema_contract_lem e catalog = objects-Tells e catalog e.schema_contract
