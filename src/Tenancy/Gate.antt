-- ===== src/Tenancy/Gate.antt =====
-- What the gate of src/tenancy/mod.rs has seen once it lets multi-tenant mode start.
use aeon_iq_temp.Common.{
  Bool, true, false, not, List, [], ◌∷◌, some, All, filter, length, ltb, if_false, Bool-cases, ok,
  guard, ok_or, bind-ok, ok_or-ok, guard-ok, ◌≡◌, sym, ap, ◌∙◌, inl, inr, arith,
}
use aeon_iq_temp.Tenancy.{
  LegacyTenancyPlan, AgentRow, Migration, Db, TenancyError, TenancySettings, ManagementAuth,
  is_of_plan, newest, is_unmapped, count_unmapped_agents, check_preconditions,
  assert_multi_tenant_preconditions,
}

-- The migration of the plan is the newest on record, every agent has a tenant, and the
-- management routes take neither the legacy key nor no key at all.
pub record IsReady (plan : LegacyTenancyPlan) (db : Db) (auth : ManagementAuth) : Type 0 where
  pub migration : Migration
  pub recorded : newest db.ledger ≡ some migration
  pub of_plan : is_of_plan plan migration ≡ true
  pub mapped : All (λ a. is_unmapped a ≡ false) db.agents
  pub authenticated : auth.unauthenticated ≡ false
  pub retired : auth.legacy_key_accepted ≡ false

none_unmapped :
    (rows : List AgentRow)
    → length (filter is_unmapped rows) ≡ 0
    → All (λ a. is_unmapped a ≡ false) rows
none_unmapped [] h = tt
none_unmapped (a ∷ rows) h = elim (Bool-cases (is_unmapped a)) [
  | inl loose ↦ absurd (ground arith)
  | inr placed ↦ (placed, none_unmapped rows (ground arith))
]

not-false : (b : Bool) → not b ≡ true → b ≡ false
not-false b h = ground arith

preconditions-IsReady :
    (count_ok : Bool) (plan : LegacyTenancyPlan) (db : Db) (auth : ManagementAuth)
    → check_preconditions count_ok plan db auth ≡ ok tt
    → IsReady plan db auth
unfolding check_preconditions count_unmapped_agents
preconditions-IsReady count_ok plan db auth h =
    let (row, found, h₁) = bind-ok (ok_or (newest db.ledger) TenancyError.no_migration) _ tt h in
    let (a, of_plan, h₂) =
      bind-ok (guard (is_of_plan plan row) TenancyError.other_migration) _ tt h₁ in
    let (b, counted, h₃) = bind-ok (guard count_ok TenancyError.backend) _ tt h₂ in
    let (c, mapped, h₄) =
      bind-ok
        (guard (not (ltb 0 (length (filter is_unmapped db.agents)))) TenancyError.unmapped_agents) _
        tt h₃ in
    let (d, closed, h₅) =
      bind-ok (guard (not auth.unauthenticated) TenancyError.unauthenticated_routes) _ tt h₄ in
    let empty : length (filter is_unmapped db.agents) ≡ 0 = ground (
      arith,
      guard-ok (not (ltb 0 (length (filter is_unmapped db.agents)))) TenancyError.unmapped_agents c
          mapped,
    ) in
    record {
      migration = row;
      recorded = ok_or-ok (newest db.ledger) _ row found;
      of_plan = guard-ok (is_of_plan plan row) _ a of_plan;
      mapped = none_unmapped db.agents empty;
      authenticated = not-false _ (guard-ok (not auth.unauthenticated) _ d closed);
      retired =
          not-false _
            (guard-ok (not auth.legacy_key_accepted) TenancyError.legacy_key_accepted tt h₅);
    }

-- Multi-tenant mode starts only with a plan whose migration is the newest on record, with a tenant
-- for every agent, and with management routes that are authenticated and no longer take the
-- legacy key.
pub preconditions_hold :
    (read_ok count_ok : Bool) (db : Db) (settings : TenancySettings) (auth : ManagementAuth)
    → settings.multi_tenant_enabled ≡ true
    → assert_multi_tenant_preconditions read_ok count_ok db settings auth ≡ ok tt
    → (plan : LegacyTenancyPlan) × (settings.legacy_plan ≡ some plan) × IsReady plan db auth
unfolding assert_multi_tenant_preconditions
preconditions_hold read_ok count_ok db settings auth on h =
    let h₀ = sym (if_false _ _ (ap not on)) ∙ h in
    let (plan, chosen, h₁) = bind-ok (ok_or settings.legacy_plan TenancyError.no_plan) _ tt h₀ in
    let (a, read, h₂) = bind-ok (guard read_ok TenancyError.backend) _ tt h₁ in
    (
      plan,
      ok_or-ok settings.legacy_plan _ plan chosen,
      preconditions-IsReady count_ok plan db auth h₂,
    )
