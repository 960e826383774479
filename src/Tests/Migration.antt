-- ===== src/Tests/Migration.antt =====
-- The migration of three agents.
use aeon_iq_temp.Common.{true, false, [], ◌∷◌, some, none, codes, ok, ◌≡◌, refl}
use aeon_iq_temp.Tenancy.{
  LegacyTenancyPlan, by_map, to_tenant, AgentRow, Db, BackfillReport, TenancySettings,
  ManagementAuth, run_legacy_backfill, assert_multi_tenant_preconditions,
}
use aeon_iq_temp.Tenancy
use aeon_iq_temp.Tenancy.Backfill.{agent_of, backfill_never_moves, backfill_again}
use aeon_iq_temp.Tenancy.Gate.{IsReady, preconditions_hold}

abbrev placed : AgentRow
placed = record { id = 1; tenant_id = some 5; external_agent_id = codes "a" }

abbrev db : Db
db = record {
  agents =
      placed
      ∷ record { id = 2; tenant_id = none; external_agent_id = codes "b" }
      ∷ record { id = 3; tenant_id = none; external_agent_id = codes "c" }
      ∷ [];
  ledger = [];
}

abbrev plan : LegacyTenancyPlan
plan = by_map ((codes "b", 6) ∷ (codes "c", 7) ∷ [])

abbrev report : BackfillReport
report = record {
  mode = Tenancy.mapped;
  legacy_tenant_id = none;
  agents_total = 3;
  agents_assigned = 2;
  agents_unmapped = 0;
  already_applied = false;
}

first_run : (run_legacy_backfill true plan db).1 ≡ ok report
unfolding run_legacy_backfill
first_run = refl

backfill_never_moves_example :
    agent_of 1 (run_legacy_backfill true (to_tenant 9) db).0.agents ≡ some placed
backfill_never_moves_example = backfill_never_moves true (to_tenant 9) db 1 5 placed refl refl

backfill_again_example :
    (again : BackfillReport) × (run_legacy_backfill true plan (run_legacy_backfill true plan db).0
      ≡ ((run_legacy_backfill true plan db).0, ok again))
    × (again.agents_assigned ≡ 0)
    × (again.already_applied ≡ true)
backfill_again_example = backfill_again true plan db report first_run

abbrev settings : TenancySettings
settings = record { legacy_plan = some plan; multi_tenant_enabled = true }

abbrev auth : ManagementAuth
auth = record { legacy_key_accepted = false; unauthenticated = false }

gate_open :
    assert_multi_tenant_preconditions true true (run_legacy_backfill true plan db).0 settings auth
    ≡ ok tt
unfolding assert_multi_tenant_preconditions run_legacy_backfill
gate_open = refl

preconditions_hold_example :
    (p : LegacyTenancyPlan) × (settings.legacy_plan ≡ some p)
    × IsReady p (run_legacy_backfill true plan db).0 auth
preconditions_hold_example =
    preconditions_hold true true (run_legacy_backfill true plan db).0 settings auth refl gate_open
