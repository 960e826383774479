-- ===== src/Tenancy.antt =====
-- src/tenancy/mod.rs: the migration of agents to tenants, and the gate of multi-tenant mode. The
-- backfill is one transaction under an advisory lock, so it runs from end to end, and a failure
-- leaves the tables as they were. The ledger lists its rows newest first.
use aeon_iq_temp.Common.{
  ℕ, suc, Bool, true, false, not, ◌&&◌, ◌||◌, List, [], ◌∷◌, map, Option, none, some, Text, codes,
  text_eq, any, filter, length, ltb, ◌==◌, if◌then◌else◌, Result, ok, err, ◌>>=◌, ◌>>◌, guard,
  ok_or,
}
use aeon_iq_temp.Common.TextMap
pub mod Backfill
pub mod Gate
pub mod Plan
pub mod Audit

pub data LegacyMigrationMode : Type 0 where
  single_tenant mapped : LegacyMigrationMode

unfoldable pub as_str : LegacyMigrationMode → Text
as_str single_tenant = codes "single_tenant"
as_str mapped = codes "mapped"

pub data LegacyTenancyPlan : Type 0 where
  to_tenant : ℕ → LegacyTenancyPlan
  by_map : List (Text × ℕ) → LegacyTenancyPlan

unfoldable pub mode : LegacyTenancyPlan → LegacyMigrationMode
mode (to_tenant t) = single_tenant
mode (by_map m) = mapped

unfoldable pub legacy_tenant_id : LegacyTenancyPlan → Option ℕ
legacy_tenant_id (to_tenant t) = some t
legacy_tenant_id (by_map m) = none

-- The columns of `agents` that the statements read.
pub record AgentRow : Type 0 where
  pub id : ℕ
  pub tenant_id : Option ℕ
  pub external_agent_id : Text

-- A row of `agent_tenancy_migrations`.
pub record Migration : Type 0 where
  pub mode : Text
  pub legacy_tenant_id : Option ℕ
  pub agents_total : ℕ
  pub agents_assigned : ℕ
  pub agents_unmapped : ℕ

pub record Db : Type 0 where
  pub agents : List AgentRow
  pub ledger : List Migration

pub record BackfillReport : Type 0 where
  pub mode : LegacyMigrationMode
  pub legacy_tenant_id : Option ℕ
  pub agents_total : ℕ
  pub agents_assigned : ℕ
  pub agents_unmapped : ℕ
  pub already_applied : Bool

pub data TenancyError : Type 0 where
  backend other_migration contradicts_agents no_plan no_migration : TenancyError
  unmapped_agents unauthenticated_routes legacy_key_accepted : TenancyError

abbrev pub same_tenant : Option ℕ → Option ℕ → Bool
same_tenant none none = true
same_tenant (some t) (some u) = t == u
same_tenant _ _ = false

-- The newest row of the ledger is of the plan's mode and tenant.
unfoldable pub is_of_plan : LegacyTenancyPlan → Migration → Bool
unfolding as_str mode legacy_tenant_id
is_of_plan plan row =
    text_eq row.mode (as_str (mode plan))
    && same_tenant row.legacy_tenant_id (legacy_tenant_id plan)

abbrev pub newest : List Migration → Option Migration
newest [] = none
newest (row ∷ rows) = some row

abbrev pub is_unmapped : AgentRow → Bool
is_unmapped a = elim a.tenant_id [ none ↦ true | some t ↦ false ]

-- The tenant that the plan has for an agent.
unfoldable pub target : LegacyTenancyPlan → AgentRow → Option ℕ
target (to_tenant t) a = some t
target (by_map m) a = TextMap.lookup a.external_agent_id m

-- the two `UPDATE`s: only where `tenant_id IS NULL`
abbrev pub fill : Option ℕ → Option ℕ → Option ℕ
fill none t = t
fill (some u) t = some u

unfoldable pub assign : LegacyTenancyPlan → AgentRow → AgentRow
unfolding target
assign plan a = record a { tenant_id = fill a.tenant_id (target plan a) }

-- whether the `UPDATE` counts the row
abbrev pub fills : Option ℕ → Option ℕ → Bool
fills none (some t) = true
fills _ _ = false

unfoldable pub is_assigned : LegacyTenancyPlan → AgentRow → Bool
unfolding target
is_assigned plan a = fills a.tenant_id (target plan a)

-- `a.tenant_id IS NOT NULL AND a.tenant_id <> m.tenant_id`
abbrev pub differs : Option ℕ → Option ℕ → Bool
differs (some u) (some t) = not (u == t)
differs _ _ = false

-- the conflicts of a tenant map; the single-tenant mode looks for none
unfoldable pub is_conflict : LegacyTenancyPlan → AgentRow → Bool
is_conflict (to_tenant t) a = false
is_conflict (by_map m) a = differs a.tenant_id (TextMap.lookup a.external_agent_id m)

unfoldable pub prior_agrees : LegacyTenancyPlan → Option Migration → Bool
unfolding is_of_plan
prior_agrees plan none = true
prior_agrees plan (some row) = is_of_plan plan row

abbrev pub is_some {ℓ} : {A : Type ℓ} → Option A → Bool
is_some none = false
is_some (some a) = true

unfoldable pub record_run : LegacyTenancyPlan → List AgentRow → ℕ → List Migration → List Migration
record_run plan agents assigned ledger =
    if not (is_some (newest ledger)) || ltb 0 assigned
    then record {
      mode = as_str (mode plan);
      legacy_tenant_id = legacy_tenant_id plan;
      agents_total = length agents;
      agents_assigned = assigned;
      agents_unmapped = length (filter is_unmapped agents);
    }
      ∷ ledger
    else ledger

-- `run_legacy_backfill` once the tables have been read and found in order
unfoldable pub apply_plan : LegacyTenancyPlan → Db → Db × Result TenancyError BackfillReport
unfolding assign is_assigned record_run
apply_plan plan db =
    let agents = map (assign plan) db.agents in
    let assigned = length (filter (is_assigned plan) db.agents) in
    (
      record { agents = agents; ledger = record_run plan agents assigned db.ledger },
      ok (record {
        mode = mode plan;
        legacy_tenant_id = legacy_tenant_id plan;
        agents_total = length agents;
        agents_assigned = assigned;
        agents_unmapped = length (filter is_unmapped agents);
        already_applied = is_some (newest db.ledger);
      }),
    )

unfoldable pub run_legacy_backfill :
    Bool → LegacyTenancyPlan → Db → Db × Result TenancyError BackfillReport
unfolding prior_agrees is_conflict apply_plan
run_legacy_backfill reachable plan db =
    if not reachable
    then (db, err backend)
    else if not (prior_agrees plan (newest db.ledger))
    then (db, err other_migration)
    else if any (is_conflict plan) db.agents
    then (db, err contradicts_agents)
    else apply_plan plan db

pub record TenancySettings : Type 0 where
  pub legacy_plan : Option LegacyTenancyPlan
  pub multi_tenant_enabled : Bool

pub record ManagementAuth : Type 0 where
  pub legacy_key_accepted : Bool
  pub unauthenticated : Bool

unfoldable pub count_unmapped_agents : Db → ℕ
count_unmapped_agents db = length (filter is_unmapped db.agents)

unfoldable pub check_preconditions :
    Bool → LegacyTenancyPlan → Db → ManagementAuth → Result TenancyError (Unit {0})
unfolding is_of_plan count_unmapped_agents
check_preconditions count_ok plan db auth = do
  row ← ok_or (newest db.ledger) no_migration
  guard (is_of_plan plan row) other_migration
  guard count_ok backend
  guard (not (ltb 0 (count_unmapped_agents db))) unmapped_agents
  guard (not auth.unauthenticated) unauthenticated_routes
  guard (not auth.legacy_key_accepted) TenancyError.legacy_key_accepted

-- Each of the two queries may fail.
unfoldable pub assert_multi_tenant_preconditions :
    Bool → Bool → Db → TenancySettings → ManagementAuth → Result TenancyError (Unit {0})
unfolding check_preconditions
assert_multi_tenant_preconditions read_ok count_ok db settings auth =
    if not settings.multi_tenant_enabled then ok tt else do
      plan ← ok_or settings.legacy_plan no_plan
      guard read_ok backend
      check_preconditions count_ok plan db auth

-- `SELECT id FROM agents WHERE tenant_id = $1 AND external_agent_id = $2`
unfoldable pub resolve_agent_uuid : ℕ → Text → List AgentRow → Option ℕ
resolve_agent_uuid tenant external [] = none
resolve_agent_uuid tenant external (a ∷ rows) =
    let rest = resolve_agent_uuid tenant external rows in
    if same_tenant a.tenant_id (some tenant) && text_eq a.external_agent_id external
    then some a.id
    else rest
