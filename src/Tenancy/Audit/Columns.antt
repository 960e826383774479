-- ===== src/Tenancy/Audit/Columns.antt =====
-- What the check of an entry's ownership paths in src/tenancy/audit.rs establishes.

use aeon_iq_temp.Common.{
  Bool, true, false, not, ◌&&◌, List, [], ◌∷◌, ◌++◌, Option, none, some, Text, codes, text_eq_refl,
  all, is_empty, ◌≡◌, inl, inr, refl, arith, Bool-cases, IsIn,
}
use aeon_iq_temp.Tenancy.Audit.Registry.{
  OwnershipPath, TableEntry, DiscoveredColumn, DiscoveredTable, column_named,
}
use aeon_iq_temp.Tenancy.Audit.Findings.{Finding}
use aeon_iq_temp.Tenancy.Audit.Relationships.{
  bool_eq, check_column, path_columns, check_columns, check, check_canonical, check_secondaries,
  check_schema_relationships,
}
use aeon_iq_temp.Tenancy.Audit.Readiness.{is_held, TrancheReadiness, assess_tranches}
use aeon_iq_temp.Tenancy.Audit.Verdicts.{ready_quiet}
use aeon_iq_temp.Tenancy.Audit.Checks.{Tells, both-Tells, ready-Tells}

-- A column is there, and is nullable as its path declares where that is the path's to say.
abbrev pub column_fits : OwnershipPath → Bool → Option DiscoveredColumn → Bool
column_fits path nullability none = false
column_fits path nullability (some live) = not (nullability && bool_eq live.not_null path.nullable)

abbrev pub columns_fit : DiscoveredTable → OwnershipPath → List (Text × Bool) → Bool
columns_fit live path [] = true
columns_fit live path ((c, nullability) ∷ columns) =
    column_fits path nullability (column_named c live) && columns_fit live path columns

abbrev pub path_fits : DiscoveredTable → OwnershipPath → Bool
path_fits live path = columns_fit live path (path_columns path.kind)

abbrev pub canonical_fits : DiscoveredTable → Option OwnershipPath → Bool
canonical_fits live none = true
canonical_fits live (some path) = path_fits live path

check_column-Tells :
    (e : TableEntry) (role c : Text) (path : OwnershipPath) (nullability : Bool)
    (o : Option DiscoveredColumn)
    → Tells e (check_column e.table role path c nullability o) (column_fits path nullability o)
unfolding check_column
check_column-Tells e role c path nullability none =
    (refl, refl, ground (arith, text_eq_refl e.table))
check_column-Tells e role c path nullability (some live) =
    elim (Bool-cases (nullability && bool_eq live.not_null path.nullable)) [
      | inl bad ↦ rw bad (refl, refl, ground (arith, text_eq_refl e.table))
      | inr fine ↦ rw fine (refl, refl, refl)
    ]

check_columns-Tells :
    (e : TableEntry) (role : Text) (path : OwnershipPath) (live : DiscoveredTable)
    (columns : List (Text × Bool))
    → Tells e (check_columns e.table role path live columns) (columns_fit live path columns)
unfolding check_columns
check_columns-Tells e role path live [] = (refl, refl, refl)
check_columns-Tells e role path live ((c, nullability) ∷ columns) =
    both-Tells e (check_column e.table role path c nullability (column_named c live))
      (check_columns e.table role path live columns)
      (column_fits path nullability (column_named c live)) (columns_fit live path columns)
      (check_column-Tells e role c path nullability (column_named c live))
      (check_columns-Tells e role path live columns)

check-Tells :
    (e : TableEntry) (live : DiscoveredTable) (path : OwnershipPath) (role : Text)
    → Tells e (check e.table live path role) (path_fits live path)
unfolding check
check-Tells e live path role = check_columns-Tells e role path live (path_columns path.kind)

check_canonical-Tells :
    (e : TableEntry) (live : DiscoveredTable) (o : Option OwnershipPath)
    → Tells e (check_canonical e.table live o) (canonical_fits live o)
unfolding check_canonical
check_canonical-Tells e live none = (refl, refl, refl)
check_canonical-Tells e live (some path) = check-Tells e live path (codes "canonical")

check_secondaries-Tells :
    (e : TableEntry) (live : DiscoveredTable) (paths : List OwnershipPath)
    → Tells e (check_secondaries e.table live paths) (all (path_fits live) paths)
unfolding check_secondaries
check_secondaries-Tells e live [] = (refl, refl, refl)
check_secondaries-Tells e live (path ∷ paths) =
    both-Tells e (check e.table live path (codes "secondary"))
      (check_secondaries e.table live paths) (path_fits live path) (all (path_fits live) paths)
      (check-Tells e live path (codes "secondary")) (check_secondaries-Tells e live paths)

-- The ownership paths of an entry fit its live table.
abbrev pub paths_fit : TableEntry → DiscoveredTable → Bool
paths_fit e live = canonical_fits live e.canonical_path && all (path_fits live) e.secondary_paths

-- The check of an entry's ownership paths passes exactly when every column that they name is there
-- and, where it starts a path, is nullable as the path declares; it pushes no finding exactly when
-- it passes; and whatever it pushes is held against the entry.
pub check_schema_relationships_lem :
    (e : TableEntry) (live : DiscoveredTable)
    → ((check_schema_relationships e live).0 ≡ paths_fit e live)
      × (is_empty (check_schema_relationships e live).1 ≡ (check_schema_relationships e live).0)
      × (all (is_held e) (check_schema_relationships e live).1 ≡ true)
unfolding check_schema_relationships
check_schema_relationships_lem e live =
    both-Tells e (check_canonical e.table live e.canonical_path)
      (check_secondaries e.table live e.secondary_paths) (canonical_fits live e.canonical_path)
      (all (path_fits live) e.secondary_paths) (check_canonical-Tells e live e.canonical_path)
      (check_secondaries-Tells e live e.secondary_paths)

-- Whatever else the audit finds, a ready tranche means that the ownership paths of each of its
-- entries fit the entry's live table.
pub ready_paths_fit :
    (registry : List TableEntry) (e : TableEntry) (live : DiscoveredTable)
    (before after : List Finding) (r : TrancheReadiness)
    → IsIn e registry
    → r.tranche ≡ e.tranche
    → IsIn r (assess_tranches registry (before ++ ((check_schema_relationships e live).1 ++ after)))
    → r.ready ≡ true
    → paths_fit e live ≡ true
ready_paths_fit registry e live before after r here same m ready =
    let found = (check_schema_relationships e live).1 in
    ready-Tells registry e (check_schema_relationships e live) (paths_fit e live) before after r
      (check_schema_relationships_lem e live) here same
      (ready_quiet registry (before ++ (found ++ after)) r m ready)
