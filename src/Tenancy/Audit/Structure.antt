-- ===== src/Tenancy/Audit/Structure.antt =====
-- What the structural checks of an entry in src/tenancy/audit.rs ask of its live table: its paths,
-- its row identity and its identifiers.

use aeon_iq_temp.Common.{
  Bool, true, false, ◌&&◌, List, [], ◌∷◌, map, Option, none, some, Text, text_eq, text_eq_refl,
  texts_eq, any, all, Result, ok, err, refl, arith,
}
use aeon_iq_temp.Tenancy.Audit.Registry.{
  IdentityColumn, allowed_types, TableEntry, DiscoveredColumn, DiscoveredTable, column_named,
}
use aeon_iq_temp.Tenancy.Audit.Paths.{Rejected, precheck_identifiers}
use aeon_iq_temp.Tenancy.Audit.Checks.{Tells, both-Tells, check_that-Tells}
use aeon_iq_temp.Tenancy.Audit.Columns.{paths_fit, check_schema_relationships_lem}
use aeon_iq_temp.Tenancy.Audit.Snapshot.{
  Database, identity_name, key_name, key_of, verify_identity_column, verify_identity_columns,
  verify_row_identity, precheck_result, structure_checked,
}

-- The column is there and of a type that its kind allows.
abbrev pub identity_fits : IdentityColumn → Option DiscoveredColumn → Bool
identity_fits c none = false
identity_fits c (some live) = any (text_eq live.data_type) (allowed_types c.kind)

abbrev pub identities_fit : DiscoveredTable → List IdentityColumn → Bool
identities_fit live = all (λ (c : IdentityColumn). identity_fits c (column_named c.name live))

abbrev pub is_ok : Result Rejected (Unit {0}) → Bool
is_ok (ok _) = true
is_ok (err _) = false

identity-Tells :
    (e : TableEntry) (c : IdentityColumn) (o : Option DiscoveredColumn)
    → Tells e (verify_identity_column e.table c o) (identity_fits c o)
unfolding verify_identity_column
identity-Tells e c none = (refl, refl, ground (arith, text_eq_refl e.table))
identity-Tells e c (some live) = check_that-Tells e (identity_fits c (some live)) _

identities-Tells :
    (e : TableEntry) (live : DiscoveredTable) (columns : List IdentityColumn)
    → Tells e (verify_identity_columns e.table live columns) (identities_fit live columns)
unfolding verify_identity_columns
identities-Tells e live [] = (refl, refl, refl)
identities-Tells e live (c ∷ columns) =
    both-Tells e (verify_identity_column e.table c (column_named c.name live))
      (verify_identity_columns e.table live columns) (identity_fits c (column_named c.name live))
      (identities_fit live columns) (identity-Tells e c (column_named c.name live))
      (identities-Tells e live columns)

module _ (debug : Text → Text) where
  precheck-Tells :
      (e : TableEntry) (o : Result Rejected (Unit {0}))
      → Tells e (precheck_result debug e.table o) (is_ok o)
  precheck-Tells e (ok _) = (refl, refl, refl)
  precheck-Tells e (err _) = (refl, refl, ground (arith, text_eq_refl e.table))

  -- The structural checks pass exactly when the paths and the row identity fit the live table and
  -- every identifier of the entry is safe to quote.
  pub structure-Tells :
      (db : Database) (e : TableEntry) (live : DiscoveredTable)
      → Tells e (structure_checked debug db e live) (
          paths_fit e live
          && ((identities_fit live e.row_identity
                && texts_eq
                    (map identity_name e.row_identity)
                    (map key_name (key_of e.table db.primary_keys)))
              && is_ok (precheck_identifiers e)))
  unfolding structure_checked verify_row_identity
  structure-Tells db e live = both-Tells e _ _ _ _ (check_schema_relationships_lem e live) (
      both-Tells e _ _ _ _
        (both-Tells e _ _ _ _ (identities-Tells e live e.row_identity) (check_that-Tells e _ _))
        (precheck-Tells e (precheck_identifiers e)))
