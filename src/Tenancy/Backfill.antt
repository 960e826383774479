-- ===== src/Tenancy/Backfill.antt =====
-- What `run_legacy_backfill` of src/tenancy/mod.rs does to agents that have a tenant, and what a
-- second run does.
use mathlib.Core.Path.{ap₂}
use aeon_iq_temp.Common.{
  ℕ, Bool, true, false, not, List, [], ◌∷◌, map, Option, none, some, text_eq_refl, any, find,
  filter, length, ltb, ◌==◌, ==_refl, if_true, if_false, Bool-cases, Result, ok, ◌≡◌, refl, sym, ap,
  ◌∙◌, inl, inr, arith,
}
use aeon_iq_temp.Common.TextMap
use aeon_iq_temp.Tenancy.{
  LegacyTenancyPlan, to_tenant, by_map, AgentRow, Migration, Db, BackfillReport, TenancyError,
  same_tenant, is_of_plan, newest, is_unmapped, target, fill, assign, fills, is_assigned, differs,
  is_conflict, prior_agrees, is_some, record_run, apply_plan, run_legacy_backfill, as_str, mode,
  legacy_tenant_id,
}

abbrev pub agent_of : ℕ → List AgentRow → Option AgentRow
agent_of id rows = find (λ a. a.id == id) rows

agent_of-assign :
    (plan : LegacyTenancyPlan) (id t : ℕ) (rows : List AgentRow) (a : AgentRow)
    → agent_of id rows ≡ some a
    → a.tenant_id ≡ some t
    → agent_of id (map (assign plan) rows) ≡ some a
unfolding assign
agent_of-assign plan id t [] a h e = absurd (cc)
agent_of-assign plan id t (b ∷ rows) a h e = elim (Bool-cases (b.id == id)) [
  | inr other ↦
      if_false _ _ other ∙ agent_of-assign plan id t rows a (sym (if_false _ _ other) ∙ h) e
  | inl same ↦
      let this : b ≡ a = ground arith in
      let owned : b.tenant_id ≡ some t = ap (λ (x : AgentRow). x.tenant_id) this ∙ e in
      if_true _ _ same
      ∙ ap (λ (x : Option ℕ). some (record b { tenant_id = x }))
          (ap (λ x. fill x (target plan b)) owned ∙ sym owned)
      ∙ ap some this
]

-- An agent that has a tenant keeps it, and the rest of its row, whatever the plan and whatever
-- the outcome of the backfill.
pub backfill_never_moves :
    (reachable : Bool) (plan : LegacyTenancyPlan) (db : Db) (id t : ℕ) (a : AgentRow)
    → agent_of id db.agents ≡ some a
    → a.tenant_id ≡ some t
    → agent_of id (run_legacy_backfill reachable plan db).0.agents ≡ some a
unfolding run_legacy_backfill apply_plan
backfill_never_moves false plan db id t a h e = h
backfill_never_moves true plan db id t a h e =
    elim (Bool-cases (prior_agrees plan (newest db.ledger))) [
      | inr other ↦ rw other h
      | inl agrees ↦ elim (Bool-cases (any (is_conflict plan) db.agents)) [
        | inl conflict ↦ rw (agrees, conflict) h
        | inr clear ↦ rw (agrees, clear) (agent_of-assign plan id t db.agents a h e)
      ]
    ]

fill_again : (x t : Option ℕ) → fill (fill x t) t ≡ fill x t
fill_again none none = refl
fill_again none (some t) = refl
fill_again (some u) t = refl

fills_again : (x t : Option ℕ) → fills (fill x t) t ≡ false
fills_again none none = refl
fills_again none (some t) = refl
fills_again (some u) t = refl

differs_again : (x t : Option ℕ) → differs x t ≡ false → differs (fill x t) t ≡ false
differs_again none none h = refl
differs_again none (some t) h = ap not (==_refl t)
differs_again (some u) t h = h

target-assign :
    (plan : LegacyTenancyPlan) (a : AgentRow) → target plan (assign plan a) ≡ target plan a
unfolding target assign
target-assign (to_tenant t) a = refl
target-assign (by_map m) a = refl

assign_again :
    (plan : LegacyTenancyPlan) (a : AgentRow) → assign plan (assign plan a) ≡ assign plan a
unfolding assign
assign_again plan a =
    ap (λ (x : Option ℕ). record a { tenant_id = x })
      (ap (fill (fill a.tenant_id (target plan a))) (target-assign plan a)
        ∙ fill_again a.tenant_id (target plan a))

assigned_again :
    (plan : LegacyTenancyPlan) (a : AgentRow) → is_assigned plan (assign plan a) ≡ false
unfolding is_assigned assign
assigned_again plan a =
    ap (fills (fill a.tenant_id (target plan a))) (target-assign plan a)
    ∙ fills_again a.tenant_id (target plan a)

conflict_again :
    (plan : LegacyTenancyPlan) (a : AgentRow)
    → is_conflict plan a ≡ false
    → is_conflict plan (assign plan a) ≡ false
unfolding is_conflict assign target
conflict_again (to_tenant t) a h = refl
conflict_again (by_map m) a h = differs_again a.tenant_id (TextMap.lookup a.external_agent_id m) h

map-assign_again :
    (plan : LegacyTenancyPlan) (rows : List AgentRow)
    → map (assign plan) (map (assign plan) rows) ≡ map (assign plan) rows
map-assign_again plan [] = refl
map-assign_again plan (a ∷ rows) = ap₂ ◌∷◌ (assign_again plan a) (map-assign_again plan rows)

none_assigned :
    (plan : LegacyTenancyPlan) (rows : List AgentRow)
    → length (filter (is_assigned plan) (map (assign plan) rows)) ≡ 0
none_assigned plan [] = refl
none_assigned plan (a ∷ rows) = rw (assigned_again plan a) (none_assigned plan rows)

none_conflict :
    (plan : LegacyTenancyPlan) (rows : List AgentRow)
    → any (is_conflict plan) rows ≡ false
    → any (is_conflict plan) (map (assign plan) rows) ≡ false
none_conflict plan [] h = refl
none_conflict plan (a ∷ rows) h = ground (arith, conflict_again plan a, none_conflict plan rows)

same_tenant_refl : (t : Option ℕ) → same_tenant t t ≡ true
same_tenant_refl none = refl
same_tenant_refl (some t) = ==_refl t

-- The ledger after a run ends with a row of the plan.
ledger_agrees :
    (plan : LegacyTenancyPlan) (agents : List AgentRow) (assigned : ℕ) (ledger : List Migration)
    → prior_agrees plan (newest ledger) ≡ true
    → (prior_agrees plan (newest (record_run plan agents assigned ledger)) ≡ true)
      × (is_some (newest (record_run plan agents assigned ledger)) ≡ true)
unfolding prior_agrees record_run is_of_plan
ledger_agrees plan agents assigned [] h = (
  ground (arith, text_eq_refl (as_str (mode plan)), same_tenant_refl (legacy_tenant_id plan)),
  refl,
)
ledger_agrees plan agents assigned (row ∷ rows) h = elim (Bool-cases (ltb 0 assigned)) [
  | inl some_ ↦ rw some_ (
    ground (arith, text_eq_refl (as_str (mode plan)), same_tenant_refl (legacy_tenant_id plan)),
    refl,
  )
  | inr none_ ↦ rw none_ (h, refl)
]

record_nothing :
    (plan : LegacyTenancyPlan) (agents : List AgentRow) (ledger : List Migration)
    → is_some (newest ledger) ≡ true
    → record_run plan agents 0 ledger ≡ ledger
unfolding record_run
record_nothing plan agents [] h = absurd (cc)
record_nothing plan agents (row ∷ rows) h = refl

-- The state that a successful run leaves.
abbrev pub applied : LegacyTenancyPlan → Db → Db
applied plan db = (apply_plan plan db).0

run-applied :
    (plan : LegacyTenancyPlan) (db : Db)
    → prior_agrees plan (newest db.ledger) ≡ true
    → any (is_conflict plan) db.agents ≡ false
    → run_legacy_backfill true plan db ≡ apply_plan plan db
unfolding run_legacy_backfill
run-applied plan db agrees clear = if_false _ _ (ap not agrees) ∙ if_false _ _ clear

run-ok :
    (reachable : Bool) (plan : LegacyTenancyPlan) (db : Db) (report : BackfillReport)
    → (run_legacy_backfill reachable plan db).1 ≡ ok report
    → (prior_agrees plan (newest db.ledger) ≡ true)
      × (any (is_conflict plan) db.agents ≡ false)
      × (run_legacy_backfill reachable plan db ≡ apply_plan plan db)
unfolding run_legacy_backfill
run-ok false plan db report h = absurd (cc)
run-ok true plan db report h = elim (Bool-cases (prior_agrees plan (newest db.ledger))) [
  | inr other ↦ absurd (ground arith)
  | inl agrees ↦ elim (Bool-cases (any (is_conflict plan) db.agents)) [
    | inl conflict ↦ absurd (ground arith)
    | inr clear ↦ (agrees, clear, run-applied plan db agrees clear)
  ]
]

apply_again :
    (plan : LegacyTenancyPlan) (db : Db)
    → prior_agrees plan (newest db.ledger) ≡ true
    → (report : BackfillReport) × (apply_plan plan (applied plan db) ≡ (applied plan db, ok report))
      × (report.agents_assigned ≡ 0)
      × (report.already_applied ≡ true)
unfolding apply_plan
apply_again plan db agrees =
    let rows = map (assign plan) db.agents in
    let ledger = record_run plan rows (length (filter (is_assigned plan) db.agents)) db.ledger in
    let (agrees', recorded) =
      ledger_agrees plan rows (length (filter (is_assigned plan) db.agents)) db.ledger agrees in
    let none_ = none_assigned plan db.agents in
    (
      record {
        mode = mode plan;
        legacy_tenant_id = legacy_tenant_id plan;
        agents_total = length rows;
        agents_assigned = 0;
        agents_unmapped = length (filter is_unmapped rows);
        already_applied = true;
      },
      rw
          (
            map-assign_again plan db.agents,
            none_,
            record_nothing plan rows ledger recorded,
            recorded,
          )
          refl,
      refl,
      refl,
    )

applied_agrees :
    (plan : LegacyTenancyPlan) (db : Db)
    → prior_agrees plan (newest db.ledger) ≡ true
    → prior_agrees plan (newest (applied plan db).ledger) ≡ true
unfolding apply_plan
applied_agrees plan db agrees =
    (ledger_agrees plan (map (assign plan) db.agents) (length (filter (is_assigned plan) db.agents))
      db.ledger agrees).0

applied_clear :
    (plan : LegacyTenancyPlan) (db : Db)
    → any (is_conflict plan) db.agents ≡ false
    → any (is_conflict plan) (applied plan db).agents ≡ false
unfolding apply_plan
applied_clear plan db clear = none_conflict plan db.agents clear

-- A backfill that succeeded may be run again: the same plan then succeeds, changes neither the
-- agents nor the ledger, and reports that it was applied and assigned nothing.
pub backfill_again :
    (reachable : Bool) (plan : LegacyTenancyPlan) (db : Db) (report : BackfillReport)
    → (run_legacy_backfill reachable plan db).1 ≡ ok report
    → (again : BackfillReport) × (run_legacy_backfill true plan
          (run_legacy_backfill reachable plan db).0
        ≡ ((run_legacy_backfill reachable plan db).0, ok again))
      × (again.agents_assigned ≡ 0)
      × (again.already_applied ≡ true)
backfill_again reachable plan db report h =
    let (agrees, clear, ran) = run-ok reachable plan db report h in
    let state : (run_legacy_backfill reachable plan db).0 ≡ applied plan db =
      ap (λ (x : Db × Result TenancyError BackfillReport). x.0) ran in
    let (again, same, nothing, before) = apply_again plan db agrees in
    let rerun =
      run-applied plan (applied plan db) (applied_agrees plan db agrees)
        (applied_clear plan db clear) in
    (again, rw (state) (rerun ∙ same), nothing, before)
