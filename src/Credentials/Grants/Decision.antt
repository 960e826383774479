-- ===== src/Credentials/Grants/Decision.antt =====
-- What a decision of `authorize_agent` in src/credentials/grants.rs rests on.
use aeon_iq_temp.Common.{ℕ, Bool, true, false, Option, none, some, ok, ◌≡◌, ◌⊎◌, refl, arith}
use aeon_iq_temp.Credentials.Context.{AeonAuthContext}
use aeon_iq_temp.Credentials.Store.{CredentialRow}
use aeon_iq_temp.Credentials.Grants.{
  GrantBasis, explicit_grant, tenant_wide, granted, Tables, credential_of, has_any_grant,
  grants_agent, agent_in_tenant, decide, decide_row, authorize_agent,
}

decide-granted :
    (wide any_grant names in_tenant : Bool) (b : GrantBasis)
    → decide wide any_grant names in_tenant ≡ granted b
    → (in_tenant ≡ true)
      × (((b ≡ explicit_grant) × (wide ≡ false) × (names ≡ true))
          ⊎ ((b ≡ tenant_wide) × (wide ≡ true) × (any_grant ≡ false)))
unfolding decide
decide-granted wide any_grant names in_tenant b h = ground arith

decide_row-granted :
    (id tenant agent : ℕ) (db : Tables) (found : Option CredentialRow) (b : GrantBasis)
    → decide_row id tenant agent db found ≡ granted b
    → (c : CredentialRow) × (found ≡ some c)
      × (agent_in_tenant tenant agent db.agents ≡ true)
      × (((b ≡ explicit_grant)
            × (c.tenant_wide ≡ false)
            × (grants_agent id tenant agent db.grants ≡ true))
          ⊎ ((b ≡ tenant_wide) × (c.tenant_wide ≡ true) × (has_any_grant id db.grants ≡ false)))
unfolding decide_row
decide_row-granted id tenant agent db none b h = absurd (cc)
decide_row-granted id tenant agent db (some c) b h =
    let (inside, basis) = decide-granted c.tenant_wide _ _ _ b h in (c, refl, inside, basis)

-- A permission comes from the database and rests on all of these: the credential's row is in the
-- tenant of the context, the agent is in that tenant, and either the credential is not
-- tenant-wide and a grant in that tenant names the agent, or it is tenant-wide and holds no grant.
pub authorize_agent-granted :
    (reachable : Bool) (context : AeonAuthContext) (agent : ℕ) (db : Tables) (b : GrantBasis)
    → authorize_agent reachable context agent db ≡ ok (granted b)
    → (c : CredentialRow) × (credential_of context.credential_id context.tenant_id db.credentials
        ≡ some c)
      × (agent_in_tenant context.tenant_id agent db.agents ≡ true)
      × (((b ≡ explicit_grant)
            × (c.tenant_wide ≡ false)
            × (grants_agent context.credential_id context.tenant_id agent db.grants ≡ true))
          ⊎ ((b ≡ tenant_wide)
              × (c.tenant_wide ≡ true)
              × (has_any_grant context.credential_id db.grants ≡ false)))
unfolding authorize_agent
authorize_agent-granted false context agent db b h = absurd (cc)
authorize_agent-granted true context agent db b h =
    decide_row-granted context.credential_id context.tenant_id agent db
      (credential_of context.credential_id context.tenant_id db.credentials) b (cc)
