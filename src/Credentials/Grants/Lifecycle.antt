-- ===== src/Credentials/Grants/Lifecycle.antt =====
-- What a grant of src/credentials/grants.rs is worth while it stands, and after it is withdrawn.
use aeon_iq_temp.Common.{
  ℕ, Bool, true, false, not, ◌&&◌, List, [], ◌∷◌, Option, none, some, any, filter, any-find,
  ==_refl, Bool-cases, Result, ok, ◌≡◌, inl, inr, refl, ap, arith,
}
use aeon_iq_temp.Credentials.Context.{AeonAuthContext}
use aeon_iq_temp.Credentials.Store.{CredentialRow, StoreError}
use aeon_iq_temp.Credentials.Grants.{
  explicit_grant, DenialReason, AgentDecision, granted, denied, is_granted, AgentGrant, Tables,
  credential_of, has_any_grant, grants_agent, agent_in_tenant, decide, decide_row, authorize_agent,
  grant_allowed, grant, to_withdraw, revoke_grant,
}
use aeon_iq_temp.Credentials.Grants.Consistent.{
  IsConsistent, allowed-parts, any_grant-restricted, found-restricted,
}

decide_row-named :
    (id tenant agent : ℕ) (db : Tables) (found : Option CredentialRow) (c : CredentialRow)
    → found ≡ some c
    → c.tenant_wide ≡ false
    → agent_in_tenant tenant agent db.agents ≡ true
    → grants_agent id tenant agent db.grants ≡ true
    → decide_row id tenant agent db found ≡ granted explicit_grant
unfolding decide_row decide
decide_row-named id tenant agent db none c e narrow inside named = absurd (cc)
decide_row-named id tenant agent db (some d) c e narrow inside named =
    let this : d ≡ c = ground arith in
    let narrow' : d.tenant_wide ≡ false = rw this narrow in ground arith

-- A grant that the database accepted lets its credential act for the agent, by that grant, from
-- then on: the next decision for a context of the credential and the tenant says so.
pub grant_then_authorize :
    (reachable : Bool) (now agent : ℕ) (context : AeonAuthContext) (db : Tables)
    → (grant reachable now context.credential_id context.tenant_id agent db).1 ≡ ok tt
    → authorize_agent true context agent
        (grant reachable now context.credential_id context.tenant_id agent db).0
      ≡ ok (granted explicit_grant)
unfolding grant authorize_agent
grant_then_authorize reachable now agent context db h =
    let id = context.credential_id in
    let tenant = context.tenant_id in
    elim (Bool-cases (reachable && grant_allowed id tenant agent db)) [
      | inr refused ↦ absurd (ground arith)
      | inl allowed ↦
          let (fresh, credential, inside, restricted) =
            allowed-parts reachable id tenant agent db allowed in
          let (c, found) = any-find _ db.credentials credential in
          let new : AgentGrant = record {
            credential_id = id;
            tenant_id = tenant;
            agent_uuid = agent;
            created_at = now;
          } in
          let named : grants_agent id tenant agent (new ∷ db.grants) ≡ true =
            ground (arith, ==_refl id, ==_refl tenant, ==_refl agent) in
          rw allowed (
            ap ok (
              decide_row-named id tenant agent (record db { grants = new ∷ db.grants })
                (credential_of id tenant db.credentials) c found
                (found-restricted id tenant db.credentials c found restricted) inside named))
    ]

filter-grants_agent :
    (id tenant agent : ℕ) (gs : List AgentGrant)
    → grants_agent id tenant agent (filter (λ g. not (to_withdraw id agent g)) gs) ≡ false
filter-grants_agent id tenant agent [] = refl
filter-grants_agent id tenant agent (g ∷ gs) =
    ground (arith, filter-grants_agent id tenant agent gs)

withdrawn-held :
    (id agent : ℕ) (gs : List AgentGrant)
    → any (to_withdraw id agent) gs ≡ true
    → has_any_grant id gs ≡ true
withdrawn-held id agent [] h = h
withdrawn-held id agent (g ∷ gs) h = ground (arith, withdrawn-held id agent gs)

decide_row-unnamed :
    (id tenant agent : ℕ) (db : Tables) (found : Option CredentialRow)
    → ((c : CredentialRow) → found ≡ some c → c.tenant_wide ≡ false)
    → grants_agent id tenant agent db.grants ≡ false
    → is_granted (decide_row id tenant agent db found) ≡ false
unfolding decide_row decide is_granted
decide_row-unnamed id tenant agent db none narrow unnamed = refl
decide_row-unnamed id tenant agent db (some c) narrow unnamed =
    let this = narrow c refl in ground arith

denial :
    (d : AgentDecision)
    → is_granted d ≡ false
    → (r : DenialReason) × (◌≡◌ {A = Result StoreError AgentDecision} (ok d) (ok (denied r)))
unfolding is_granted
denial (granted b) h = absurd (cc)
denial (denied r) h = (r, refl)

-- After a grant is withdrawn, from tables whose constraints held, every decision of the database
-- for that credential and agent is a denial, whatever the tenant of the context.
pub withdrawn_denies :
    (reachable : Bool) (agent : ℕ) (context : AeonAuthContext) (db : Tables)
    → IsConsistent db
    → (revoke_grant reachable context.credential_id agent db).1 ≡ ok true
    → (r : DenialReason) × (authorize_agent true context agent
          (revoke_grant reachable context.credential_id agent db).0
        ≡ ok (denied r))
unfolding revoke_grant authorize_agent
withdrawn_denies false agent context db h e = absurd (cc)
withdrawn_denies true agent context db h e =
    let id = context.credential_id in
    let tenant = context.tenant_id in
    let left = filter (λ g. not (to_withdraw id agent g)) db.grants in
    let held = withdrawn-held id agent db.grants (cc) in
    let restricted = any_grant-restricted db id db.grants h.anchored held in
    let verdict =
      decide_row id tenant agent (record db { grants = left })
        (credential_of id tenant db.credentials) in
    let refused =
      decide_row-unnamed id tenant agent (record db { grants = left })
        (credential_of id tenant db.credentials)
        (λ c found. found-restricted id tenant db.credentials c found restricted)
        (filter-grants_agent id tenant agent db.grants) in
    denial verdict refused
