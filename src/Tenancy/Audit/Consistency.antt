-- ===== src/Tenancy/Audit/Consistency.antt =====
-- What the contract checks of src/tenancy/audit.rs establish, and what a failure of theirs stops.
use mathlib.Core.Path.{ap₂}
use aeon_iq_temp.Common.{
  all_append, is_empty_append, ℕ, Bool, true, false, not, ◌&&◌, ◌||◌, List, [], ◌∷◌, ◌++◌, Option,
  none, some, Text, any, all, is_empty, ◌==◌, ◌≡◌, inl, inr, refl, sym, ap, ◌∙◌, arith, Bool-cases,
  IsIn, if_true, if_false,
}
use aeon_iq_temp.Tenancy.Audit.Registry.{
  is_system_global, TableEntry, entry_count, DiscoveredTable, table_named,
}
use aeon_iq_temp.Tenancy.Audit.Findings.{
  Finding, is_none, count_findings, missing_findings, path_findings, tables_checked,
  entries_checked, check_inventory_contract,
}
use aeon_iq_temp.Tenancy.Audit.Readiness.{is_global, TrancheReadiness, assess_tranches}
use aeon_iq_temp.Tenancy.Audit.Verdicts.{holds_back, ready_quiet}

-- The registry and the live tables fit: every table has one entry, and every entry a table and,
-- unless it is of the system, a canonical path.
abbrev pub entry_fits : List DiscoveredTable → TableEntry → Bool
entry_fits tables e =
    not (is_none (table_named e.table tables))
    && (is_system_global e.class || not (is_none e.canonical_path))

abbrev pub registry_fits : List TableEntry → List DiscoveredTable → Bool
registry_fits registry tables =
    all (λ (t : DiscoveredTable). entry_count registry t.name == 1) tables
    && all (entry_fits tables) registry

count_empty : (n : ℕ) (t : Text) → is_empty (count_findings n t) ≡ (n == 1)
count_empty n t = ground arith

count_global : (n : ℕ) (t : Text) → all is_global (count_findings n t) ≡ true
count_global n t = elim (Bool-cases (n == 0)) [
  | inl zero_entries ↦ ap (all is_global) (if_true _ _ zero_entries)
  | inr some_entries ↦ ap (all is_global) (if_false _ _ some_entries) ∙ elim (Bool-cases (n == 1)) [
    | inl one ↦ ap (all is_global) (if_true _ _ one)
    | inr more ↦ ap (all is_global) (if_false _ _ more)
  ]
]

tables_empty :
    (registry : List TableEntry) (tables : List DiscoveredTable)
    → is_empty (tables_checked registry tables)
      ≡ all (λ (t : DiscoveredTable). entry_count registry t.name == 1) tables
unfolding tables_checked
tables_empty registry [] = refl
tables_empty registry (t ∷ tables) =
    is_empty_append (count_findings (entry_count registry t.name) t.name)
      (tables_checked registry tables)
    ∙ ap₂ (◌&&◌) (count_empty (entry_count registry t.name) t.name) (tables_empty registry tables)

tables_global :
    (registry : List TableEntry) (tables : List DiscoveredTable)
    → all is_global (tables_checked registry tables) ≡ true
unfolding tables_checked
tables_global registry [] = refl
tables_global registry (t ∷ tables) =
    all_append is_global (count_findings (entry_count registry t.name) t.name)
      (tables_checked registry tables)
    ∙ ap₂ (◌&&◌) (count_global (entry_count registry t.name) t.name) (tables_global registry tables)

missing_empty :
    (o : Option DiscoveredTable) (e : TableEntry)
    → is_empty (missing_findings o e) ≡ not (is_none o)
missing_empty none e = refl
missing_empty (some t) e = refl

missing_global :
    (o : Option DiscoveredTable) (e : TableEntry) → all is_global (missing_findings o e) ≡ true
missing_global none e = refl
missing_global (some t) e = refl

path_empty :
    (e : TableEntry)
    → is_empty (path_findings e) ≡ (is_system_global e.class || not (is_none e.canonical_path))
unfolding path_findings
path_empty e = elim (Bool-cases (is_system_global e.class)) [
  | inl shared ↦ rw shared refl
  | inr owned ↦ rw owned (elim (Bool-cases (is_none e.canonical_path)) [
    | inl pathless ↦ rw pathless refl
    | inr pathed ↦ rw pathed refl
  ])
]

path_global : (e : TableEntry) → all is_global (path_findings e) ≡ true
unfolding path_findings
path_global e = elim (Bool-cases (not (is_system_global e.class) && is_none e.canonical_path)) [
  | inl bad ↦ ap (all is_global) (if_true _ _ bad)
  | inr fine ↦ ap (all is_global) (if_false _ _ fine)
]

entries_empty :
    (tables : List DiscoveredTable) (entries : List TableEntry)
    → is_empty (entries_checked tables entries) ≡ all (entry_fits tables) entries
unfolding entries_checked
entries_empty tables [] = refl
entries_empty tables (e ∷ entries) =
    is_empty_append (missing_findings (table_named e.table tables) e ++ path_findings e)
      (entries_checked tables entries)
    ∙ ap₂ (◌&&◌)
        (is_empty_append (missing_findings (table_named e.table tables) e) (path_findings e)
          ∙ ap₂ (◌&&◌) (missing_empty (table_named e.table tables) e) (path_empty e))
        (entries_empty tables entries)

entries_global :
    (tables : List DiscoveredTable) (entries : List TableEntry)
    → all is_global (entries_checked tables entries) ≡ true
unfolding entries_checked
entries_global tables [] = refl
entries_global tables (e ∷ entries) =
    all_append is_global (missing_findings (table_named e.table tables) e ++ path_findings e)
      (entries_checked tables entries)
    ∙ ap₂ (◌&&◌)
        (all_append is_global (missing_findings (table_named e.table tables) e) (path_findings e)
          ∙ ap₂ (◌&&◌) (missing_global (table_named e.table tables) e) (path_global e))
        (entries_global tables entries)

-- The check of the registry against the live tables finds nothing exactly when they fit.
pub check_inventory_contract_lem :
    (registry : List TableEntry) (tables : List DiscoveredTable)
    → is_empty (check_inventory_contract registry tables) ≡ registry_fits registry tables
unfolding check_inventory_contract
check_inventory_contract_lem registry tables =
    is_empty_append (tables_checked registry tables) (entries_checked tables registry)
    ∙ ap₂ (◌&&◌) (tables_empty registry tables) (entries_empty tables registry)

contract_global :
    (registry : List TableEntry) (tables : List DiscoveredTable)
    → all is_global (check_inventory_contract registry tables) ≡ true
unfolding check_inventory_contract
contract_global registry tables =
    all_append is_global (tables_checked registry tables) (entries_checked tables registry)
    ∙ ap₂ (◌&&◌) (tables_global registry tables) (entries_global tables registry)

quiet_empty :
    (registry : List TableEntry) (r : TrancheReadiness) (xs ys : List Finding)
    → all is_global xs ≡ true
    → any (holds_back registry r.tranche) (xs ++ ys) ≡ false
    → is_empty xs ≡ true
quiet_empty registry r [] ys g h = refl
quiet_empty registry r (x ∷ xs) ys g h = absurd (loud (is_global x) _ _ _ g h)
  where
    loud : (a b c d : Bool) → (a && b) ≡ true → ((a || c) || d) ≡ false → ⊥
    loud a b c d g h = ground arith

-- With nothing held against a tranche the registry and the live tables fit.
pub quiet_registry_fits :
    (registry : List TableEntry) (tables : List DiscoveredTable) (others : List Finding)
    (r : TrancheReadiness)
    → any (holds_back registry r.tranche) (check_inventory_contract registry tables ++ others)
      ≡ false
    → registry_fits registry tables ≡ true
quiet_registry_fits registry tables others r quiet =
    sym (check_inventory_contract_lem registry tables)
    ∙ quiet_empty registry r (check_inventory_contract registry tables) others
        (contract_global registry tables) quiet

-- Whatever else the audit finds, one ready tranche means that the registry and the live tables fit:
-- every table has exactly one entry, and every entry a table and, unless it is of the system, a
-- canonical path.
pub ready_registry_fits :
    (registry : List TableEntry) (tables : List DiscoveredTable) (others : List Finding)
    (r : TrancheReadiness)
    → IsIn r (assess_tranches registry (check_inventory_contract registry tables ++ others))
    → r.ready ≡ true
    → registry_fits registry tables ≡ true
ready_registry_fits registry tables others r m ready =
    quiet_registry_fits registry tables others r
      (ready_quiet registry (check_inventory_contract registry tables ++ others) r m ready)
