-- ===== src/Tenancy/Audit/Evaluated.antt =====
-- What a ready tranche says of the database in src/tenancy/audit.rs, whatever the scans of rows find.
use mathlib.Core.Path.{subst}
use aeon_iq_temp.Common.{
  any_append, Bool, true, false, not, ◌&&◌, ◌||◌, List, [], ◌∷◌, ◌++◌, map, Option, none, some,
  Text, texts_eq, any, all, ◌≡◌, if◌then◌else◌, inl, inr, refl, sym, ap, ◌∙◌, arith, IsIn,
}
use aeon_iq_temp.Tenancy.Audit.Registry.{TableEntry, DiscoveredTable, table_named}
use aeon_iq_temp.Tenancy.Audit.Findings.{Finding, is_none, check_inventory_contract}
use aeon_iq_temp.Tenancy.Audit.Relationships.{Checked}
use aeon_iq_temp.Tenancy.Audit.Contracts.{verify_schema_contract}
use aeon_iq_temp.Tenancy.Audit.Readiness.{TrancheReadiness}
use aeon_iq_temp.Tenancy.Audit.Verdicts.{holds_back, ready_quiet}
use aeon_iq_temp.Tenancy.Audit.Consistency.{entry_fits, registry_fits, quiet_registry_fits}
use aeon_iq_temp.Tenancy.Audit.Checks.{Tells, ready-Tells}
use aeon_iq_temp.Tenancy.Audit.Columns.{paths_fit}
use aeon_iq_temp.Tenancy.Audit.Shapes.{object_holds, verify_schema_contract_lem}
use aeon_iq_temp.Tenancy.Audit.Structure.{identities_fit, structure-Tells}
use aeon_iq_temp.Tenancy.Audit.Snapshot.{
  ContractStatus, satisfied, drifted, not_evaluated, Database, identity_name, key_name, key_of,
  insert_finding, sort_findings, structure_checked, scanned, evaluate, audit_entry, audit_entries,
  audit_within_snapshot,
}

any_insert :
    (p : Finding → Bool) (f : Finding) (gs : List Finding)
    → any p (insert_finding f gs) ≡ (p f || any p gs)
unfolding insert_finding
any_insert p f [] = refl
any_insert p f (g ∷ gs) = let rest = any_insert p f gs in ground arith

any_sort :
    (p : Finding → Bool) (findings : List Finding) → any p (sort_findings findings) ≡ any p findings
unfolding sort_findings
any_sort p [] = refl
any_sort p (f ∷ findings) =
    any_insert p f (sort_findings findings) ∙ ap (λ b. p f || b) (any_sort p findings)

quiet-Tells :
    (registry : List TableEntry) (e : TableEntry) (c : Checked) (b : Bool) (r : TrancheReadiness)
    → Tells e c b
    → IsIn e registry
    → r.tranche ≡ e.tranche
    → any (holds_back registry r.tranche) c.1 ≡ false
    → b ≡ true
quiet-Tells registry e c b r tells here same quiet =
    ready-Tells registry e c b [] [] r tells here same
      (any_append (holds_back registry r.tranche) c.1 [] ∙ ap (λ b. b || false) quiet)

quiet_append :
    (p : Finding → Bool) (xs ys : List Finding)
    → any p (xs ++ ys) ≡ false
    → (any p xs ≡ false) × (any p ys ≡ false)
quiet_append p xs ys quiet = let split = any_append p xs ys in (ground arith, ground arith)

-- The live table of an entry is the one that its paths, its row identity and its contract declare.
abbrev pub live_fits : Database → TableEntry → DiscoveredTable → Bool
live_fits db e live =
    paths_fit e live
    && ((identities_fit live e.row_identity
          && texts_eq (map identity_name e.row_identity)
              (map key_name (key_of e.table db.primary_keys)))
        && all (object_holds e.table db.catalog) e.schema_contract)

-- the turn of an entry with a live table, from what its two checks tell
abbrev turn : Checked → Checked → List Finding → ContractStatus × List Finding
turn s k rest =
    if s.0 then (if k.0 then satisfied else drifted, s.1 ++ (k.1 ++ rest)) else (not_evaluated, s.1)

turned :
    (p : Finding → Bool) (s k : Checked) (rest : List Finding)
    → any p (turn s k rest).1 ≡ false
    → (any p s.1 ≡ false) × (s.0 ≡ true → any p k.1 ≡ false)
turned p (true, xs) (b, ys) rest quiet =
    let (one, two) = quiet_append p xs (ys ++ rest) quiet in
    (one, λ stands. (quiet_append p ys rest two).0)
turned p (false, xs) (b, ys) rest quiet = (quiet, λ stands. absurd (clash stands))
  where
    clash : false ≡ true → ⊥
    clash h = ground arith

settles :
    (s k : Checked) (rest : List Finding) → s.0 ≡ true → k.0 ≡ true → (turn s k rest).0 ≡ satisfied
settles s k rest stands holds = rw stands (rw holds refl)

module _ (debug : Text → Text) where
  Evaluated : Database → TableEntry → Option DiscoveredTable → Type 0
  Evaluated db e o =
      (live : DiscoveredTable) × (o ≡ some live)
      × (live_fits db e live ≡ true)
      × ((evaluate debug db e o).0 ≡ satisfied)

  evaluate_lem :
      (db : Database) (registry : List TableEntry) (e : TableEntry) (o : Option DiscoveredTable)
      (r : TrancheReadiness)
      → IsIn e registry
      → r.tranche ≡ e.tranche
      → is_none o ≡ false
      → any (holds_back registry r.tranche) (evaluate debug db e o).1 ≡ false
      → Evaluated db e o
  unfolding evaluate Evaluated
  evaluate_lem db registry e none r here same found quiet = absurd (clash found)
    where
      clash : true ≡ false → ⊥
      clash h = ground arith
  evaluate_lem db registry e (some live) r here same found quiet =
      let structure = structure_checked debug db e live in
      let contract = verify_schema_contract e db.catalog in
      let told = structure-Tells debug db e live in
      let shapes = verify_schema_contract_lem e db.catalog in
      let (calm, calm_contract) =
        turned (holds_back registry r.tranche) structure contract
          (scanned debug db e live contract.0) quiet in
      let sound = quiet-Tells registry e structure _ r told here same calm in
      let stands : structure.0 ≡ true = told.0 ∙ sound in
      let declared = quiet-Tells registry e contract _ r shapes here same (calm_contract stands) in
      (
        live,
        refl,
        joined (paths_fit e live) _ _ _ sound declared,
        settles structure contract (scanned debug db e live contract.0) stands
            (shapes.0 ∙ declared),
      )
    where
      joined : (a b c d : Bool) → (a && (b && c)) ≡ true → d ≡ true → (a && (b && d)) ≡ true
      joined a b c d h k = ground arith

  evaluate_entry :
      (db : Database) (registry entries : List TableEntry) (e : TableEntry) (r : TrancheReadiness)
      → IsIn e registry
      → r.tranche ≡ e.tranche
      → is_none (table_named e.table db.application_tables) ≡ false
      → IsIn e entries
      → any (holds_back registry r.tranche) (audit_entries debug db entries) ≡ false
      → Evaluated db e (table_named e.table db.application_tables)
  unfolding audit_entries audit_entry
  evaluate_entry db registry [] e r here same found m quiet = absurd m
  evaluate_entry db registry (x ∷ entries) e r here same found (inl this) quiet =
      evaluate_lem db registry e (table_named e.table db.application_tables) r here same found (
        subst (λ y. any (holds_back registry r.tranche) (audit_entry debug db y).1 ≡ false) this
          (quiet_append (holds_back registry r.tranche) (audit_entry debug db x).1
            (audit_entries debug db entries) quiet).0)
  evaluate_entry db registry (x ∷ entries) e r here same found (inr later) quiet =
      evaluate_entry db registry entries e r here same found later
        (quiet_append (holds_back registry r.tranche) (audit_entry debug db x).1
          (audit_entries debug db entries) quiet).1

found_in :
    (tables : List DiscoveredTable) (registry : List TableEntry) (e : TableEntry)
    → IsIn e registry
    → all (entry_fits tables) registry ≡ true
    → is_none (table_named e.table tables) ≡ false
found_in tables [] e m h = absurd m
found_in tables (x ∷ registry) e (inl here) h =
    subst (λ y. is_none (table_named y.table tables) ≡ false) here
      (named (is_none (table_named x.table tables)) _ _ h)
  where
    named : (a b c : Bool) → ((not a && b) && c) ≡ true → a ≡ false
    named a b c h = ground arith
found_in tables (x ∷ registry) e (inr later) h = found_in tables registry e later (ground arith)

-- When the audit of a snapshot says that a tranche is ready, then, whatever the scans of rows
-- pushed and in whatever order the findings are reported, the registry and the live tables fit, and
-- each registry entry of that tranche has a live table whose columns fit the entry's ownership
-- paths, whose identity columns have an allowed type and are the primary key in its order, and
-- whose constraints and unique indexes are in the catalog in the shape that the entry declares; and
-- the audit reports the entry as SATISFIED.
pub audit_within_snapshot_lem :
    (debug : Text → Text) (db : Database) (registry : List TableEntry) (e : TableEntry)
    (r : TrancheReadiness)
    → IsIn e registry
    → r.tranche ≡ e.tranche
    → IsIn r (audit_within_snapshot debug db registry).1
    → r.ready ≡ true
    → (registry_fits registry db.application_tables ≡ true)
      × ((live : DiscoveredTable) × (table_named e.table db.application_tables ≡ some live)
          × (live_fits db e live ≡ true)
          × ((audit_entry debug db e).0 ≡ satisfied))
unfolding audit_within_snapshot audit_entry Evaluated
audit_within_snapshot_lem debug db registry e r here same m ready =
    let contract = check_inventory_contract registry db.application_tables in
    let pushed = audit_entries debug db registry in
    let p = holds_back registry r.tranche in
    let quiet : any p (contract ++ pushed) ≡ false =
      sym (any_sort p (contract ++ pushed))
      ∙ ready_quiet registry (sort_findings (contract ++ pushed)) r m ready in
    let fits = quiet_registry_fits registry db.application_tables pushed r quiet in
    (
      fits,
      evaluate_entry debug db registry registry e r here same
          (found_in db.application_tables registry e here (ground arith)) here
          (quiet_append p contract pushed quiet).1,
    )
