-- ===== src/Tenancy/Audit/Contracts.antt =====
-- src/tenancy/audit.rs: an entry of the registry against the live keys, constraints and indexes.
-- How a text is printed for debugging is an argument.
use aeon_iq_temp.Common.{
  ℕ, Bool, true, false, not, ◌&&◌, ◌||◌, List, [], ◌∷◌, ◌++◌, Option, none, some, Text, codes,
  text_eq, texts_eq, length, ◌==◌, if◌then◌else◌,
}
use aeon_iq_temp.Tenancy.Plan.Objects.{join}
use aeon_iq_temp.Tenancy.Audit.Codes.{schema_relationship_drift}
use aeon_iq_temp.Tenancy.Audit.Registry.{
  contype, constraint_str, IndexPredicate, total, exactly, ConstraintContract, IndexContract,
  SchemaObjectContract, constraint, unique_index, TableEntry,
}
use aeon_iq_temp.Tenancy.Audit.Identifiers.{decimal}
use aeon_iq_temp.Tenancy.Audit.Findings.{contract_finding}
use aeon_iq_temp.Tenancy.Audit.Relationships.{Checked, passed, both, check_that}

pub record LiveConstraint : Type 0 where
  pub contype : Text
  pub local_columns : List Text
  pub referenced_schema : Option Text
  pub referenced_table : Option Text
  pub referenced_columns : List Text
  pub validated : Bool

pub record LiveIndex : Type 0 where
  pub key_columns : List Text
  pub is_unique : Bool
  pub is_valid : Bool
  pub is_ready : Bool
  pub predicate : Option Text
  pub has_expressions : Bool
  pub key_column_count : ℕ

-- The maps of the catalog, by the table and the name.
pub record LiveCatalog : Type 0 where
  pub constraints : List ((Text × Text) × LiveConstraint)
  pub indexes : List ((Text × Text) × LiveIndex)

abbrev pub lookup {ℓ} : {A : Type ℓ} → Text → Text → List ((Text × Text) × A) → Option A
lookup t n [] = none
lookup t n (((t', n'), a) ∷ rest) = if text_eq t t' && text_eq n n' then some a else lookup t n rest

abbrev pub fails : Text → Text → Checked
fails t diagnostic = (false, contract_finding schema_relationship_drift t diagnostic ∷ [])

-- an optional text against the one that is required
abbrev pub is_text : Option Text → Text → Bool
is_text none expected = false
is_text (some s) expected = text_eq s expected

abbrev pub or_else : Option Text → Text
or_else none = codes "no table at all"
or_else (some s) = s

abbrev pub application_schema : Text
application_schema = codes "public"

abbrev ticked : Text → Text
ticked n = codes "`" ++ n ++ codes "`"

-- `referenced_table.is_none()`
abbrev pub no_reference : Option Text → Bool
no_reference none = true
no_reference (some s) = false

-- `match referenced_table`
unfoldable pub verify_reference : Text → Text → Option Text → List Text → LiveConstraint → Checked
verify_reference t n none columns live = check_that t (no_reference live.referenced_table) (
    ticked n ++ codes " is required to reference nothing, but the live constraint is a foreign key")
verify_reference t n (some expected) columns live =
    both
      (check_that t (is_text live.referenced_schema application_schema) (
        ticked n
        ++ codes " is required to reference schema "
        ++ ticked application_schema
        ++ codes ", but the live constraint references "
        ++ or_else live.referenced_schema))
      (both
        (check_that t (is_text live.referenced_table expected) (
          ticked n
          ++ codes " is required to reference "
          ++ ticked expected
          ++ codes ", but the live constraint references "
          ++ or_else live.referenced_table))
        (check_that t (texts_eq live.referenced_columns columns) (
          ticked n
          ++ codes " is required to reference ("
          ++ join (codes ", ") columns
          ++ codes ") in that order, but the live constraint references ("
          ++ join (codes ", ") live.referenced_columns
          ++ codes ")")))

unfoldable pub verify_constraint : Text → ConstraintContract → Option LiveConstraint → Checked
unfolding verify_reference
verify_constraint t o none = fails t (
    codes "required "
    ++ constraint_str o.kind
    ++ codes " constraint "
    ++ ticked o.name
    ++ codes " ("
    ++ join (codes ", ") o.local_columns
    ++ codes ") does not exist")
verify_constraint t o (some live) =
    both
      (check_that t (text_eq live.contype (contype o.kind)) (
        ticked o.name
        ++ codes " is required to be "
        ++ constraint_str o.kind
        ++ codes " (contype "
        ++ ticked (contype o.kind)
        ++ codes ") but the live constraint has contype "
        ++ ticked live.contype))
      (both
        (check_that t (texts_eq live.local_columns o.local_columns) (
          ticked o.name
          ++ codes " is required over ("
          ++ join (codes ", ") o.local_columns
          ++ codes ") in that order, but the live constraint covers ("
          ++ join (codes ", ") live.local_columns
          ++ codes ")"))
        (both (verify_reference t o.name o.referenced_table o.referenced_columns live) (
          check_that t (not o.require_validated || live.validated) (
            ticked o.name
            ++ codes " is required to be validated, but the live constraint is NOT VALID"))))

-- `match predicate`
unfoldable pub verify_predicate : Text → Text → IndexPredicate → Option Text → Checked
verify_predicate t n total none = passed
verify_predicate t n total (some p) = fails t (
    codes "index "
    ++ ticked n
    ++ codes
        " is required to be non-partial, but the live index has a WHERE predicate and so constrains only the rows matching it")
verify_predicate t n (exactly normalized) none = fails t (
    codes "index "
    ++ ticked n
    ++ codes " is required to be partial on "
    ++ ticked normalized
    ++ codes ", but the live index has no WHERE predicate and so covers every row")
verify_predicate t n (exactly normalized) (some p) = check_that t (text_eq p normalized) (
    codes "index "
    ++ ticked n
    ++ codes " is required to be partial on "
    ++ ticked normalized
    ++ codes ", but the live index is partial on "
    ++ ticked p)

unfoldable pub verify_index : Text → IndexContract → Option LiveIndex → Checked
unfolding verify_predicate
verify_index t o none = fails t (
    codes "required index "
    ++ ticked o.name
    ++ codes " ("
    ++ join (codes ", ") o.columns
    ++ codes ") does not exist")
verify_index t o (some live) =
    let index = codes "index " ++ ticked o.name in
    both
      (check_that t (texts_eq live.key_columns o.columns) (
        index
        ++ codes " is required over ("
        ++ join (codes ", ") o.columns
        ++ codes ") in that order, but the live index keys on ("
        ++ join (codes ", ") live.key_columns
        ++ codes ")"))
      (both
        (check_that t (live.key_column_count == length o.columns) (
          index
          ++ codes " is required to have "
          ++ decimal (length o.columns)
          ++ codes " key column(s), but the live index has "
          ++ decimal live.key_column_count))
        (both
          (check_that t (not o.require_unique || live.is_unique)
            (index ++ codes " is required to be UNIQUE, but the live index is not"))
          (both
            (check_that t (not o.require_valid || live.is_valid)
              (index ++ codes " is required to be valid, but the live index is INVALID"))
            (both
              (check_that t (not o.require_ready || live.is_ready)
                (index ++ codes " is required to be ready, but the live index is not ready"))
              (both (verify_predicate t o.name o.predicate live.predicate) (
                check_that t (not o.require_no_expressions || not live.has_expressions) (
                  index
                  ++ codes
                      " is required to key on bare columns, but the live index is an expression index and so does not constrain the columns themselves")))))))

unfoldable pub verify_object : Text → LiveCatalog → SchemaObjectContract → Checked
unfolding verify_constraint verify_index
verify_object t catalog (constraint o) = verify_constraint t o (lookup t o.name catalog.constraints)
verify_object t catalog (unique_index o) = verify_index t o (lookup t o.name catalog.indexes)

unfoldable pub verify_objects : Text → LiveCatalog → List SchemaObjectContract → Checked
unfolding verify_object
verify_objects t catalog [] = passed
verify_objects t catalog (o ∷ objects) =
    both (verify_object t catalog o) (verify_objects t catalog objects)

unfoldable pub verify_schema_contract : TableEntry → LiveCatalog → Checked
unfolding verify_objects
verify_schema_contract e catalog = verify_objects e.table catalog e.schema_contract
