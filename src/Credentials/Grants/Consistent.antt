-- ===== src/Credentials/Grants/Consistent.antt =====
-- What the constraints of the grants table keep true, and what src/credentials/grants.rs may then
-- rely on.
use aeon_iq_temp.Common.{
  ℕ, Bool, true, false, not, ◌&&◌, List, [], ◌∷◌, some, any, filter, find-test, find-any, ◌==◌,
  ==_iff, All, Bool-cases, ◌≡◌, inl, inr, refl, sym, arith,
}
use aeon_iq_temp.Credentials.Store.{CredentialRow}
use aeon_iq_temp.Credentials.Grants.{
  AgentGrant, Agent, Tables, credential_of, has_any_grant, agent_in_tenant, grant_allowed, grant,
  to_withdraw, revoke_grant,
}

-- The credential of a grant is in the grant's tenant and not tenant-wide, and so is its agent.
pub record IsAnchored (db : Tables) (g : AgentGrant) : Type 0 where
  pub credential :
      any (λ c. c.id == g.credential_id && c.tenant_id == g.tenant_id) db.credentials ≡ true
  pub agent : agent_in_tenant g.tenant_id g.agent_uuid db.agents ≡ true
  pub restricted : any (λ c. c.id == g.credential_id && c.tenant_wide) db.credentials ≡ false

-- No two grants give the same credential the same agent.
abbrev pub IsUnique : List AgentGrant → Type 0
IsUnique [] = Unit
IsUnique (g ∷ gs) =
    (any (λ h. h.credential_id == g.credential_id && h.agent_uuid == g.agent_uuid) gs ≡ false)
    × IsUnique gs

pub record IsConsistent (db : Tables) : Type 0 where
  pub anchored : All (IsAnchored db) db.grants
  pub unique : IsUnique db.grants

All-same :
    (credentials : List CredentialRow) (agents : List Agent) (old new : List AgentGrant)
    (gs : List AgentGrant)
    → All (IsAnchored (record { credentials = credentials; grants = old; agents = agents })) gs
    → All (IsAnchored (record { credentials = credentials; grants = new; agents = agents })) gs
All-same c a old new [] h = tt
All-same c a old new (g ∷ gs) h = (
  record { credential = h.0.credential; agent = h.0.agent; restricted = h.0.restricted },
  All-same c a old new gs h.1,
)

filter-All :
    (P : AgentGrant → Type 0) (p : AgentGrant → Bool) (gs : List AgentGrant)
    → All P gs
    → All P (filter p gs)
filter-All P p [] h = tt
filter-All P p (g ∷ gs) h = ground (arith, filter-All P p gs)

any-filter :
    (q p : AgentGrant → Bool) (gs : List AgentGrant)
    → any q gs ≡ false
    → any q (filter p gs) ≡ false
any-filter q p [] h = refl
any-filter q p (g ∷ gs) h = ground (arith, any-filter q p gs)

filter-IsUnique :
    (p : AgentGrant → Bool) (gs : List AgentGrant) → IsUnique gs → IsUnique (filter p gs)
filter-IsUnique p [] u = tt
filter-IsUnique p (g ∷ gs) u = ground (
  arith,
  filter-IsUnique p gs,
  any-filter (λ h. h.credential_id == g.credential_id && h.agent_uuid == g.agent_uuid) p gs,
)

pub allowed-parts :
    (reachable : Bool) (id tenant agent : ℕ) (db : Tables)
    → (reachable && grant_allowed id tenant agent db) ≡ true
    → (any (λ g. g.credential_id == id && g.agent_uuid == agent) db.grants ≡ false)
      × (any (λ c. c.id == id && c.tenant_id == tenant) db.credentials ≡ true)
      × (agent_in_tenant tenant agent db.agents ≡ true)
      × (any (λ c. c.id == id && c.tenant_wide) db.credentials ≡ false)
unfolding grant_allowed
allowed-parts reachable id tenant agent db h = ground arith

-- `grant` keeps every grant inside one tenant, unique, and off tenant-wide credentials.
pub grant-IsConsistent :
    (reachable : Bool) (now id tenant agent : ℕ) (db : Tables)
    → IsConsistent db
    → IsConsistent (grant reachable now id tenant agent db).0
unfolding grant
grant-IsConsistent reachable now id tenant agent db h =
    elim (Bool-cases (reachable && grant_allowed id tenant agent db)) [
      | inr refused ↦ rw refused h
      | inl allowed ↦
          let (fresh, credential, inside, restricted) =
            allowed-parts reachable id tenant agent db allowed in
          rw allowed (record {
            anchored = (
              record { credential = credential; agent = inside; restricted = restricted },
              All-same db.credentials db.agents db.grants _ db.grants h.anchored,
            );
            unique = (fresh, h.unique);
          })
    ]

-- `revoke_grant` keeps every grant inside one tenant, unique, and off tenant-wide credentials.
pub revoke_grant-IsConsistent :
    (reachable : Bool) (id agent : ℕ) (db : Tables)
    → IsConsistent db
    → IsConsistent (revoke_grant reachable id agent db).0
unfolding revoke_grant
revoke_grant-IsConsistent true id agent db h = record {
  anchored =
      All-same db.credentials db.agents db.grants _ _
        (filter-All _ (λ g. not (to_withdraw id agent g)) db.grants h.anchored);
  unique = filter-IsUnique (λ g. not (to_withdraw id agent g)) db.grants h.unique;
}
revoke_grant-IsConsistent false id agent db h = h

-- A credential that holds a grant is not tenant-wide.
pub any_grant-restricted :
    (db : Tables) (id : ℕ) (gs : List AgentGrant)
    → All (IsAnchored db) gs
    → has_any_grant id gs ≡ true
    → any (λ c. c.id == id && c.tenant_wide) db.credentials ≡ false
any_grant-restricted db id [] h n = absurd (cc)
any_grant-restricted db id (g ∷ gs) h n = elim (Bool-cases (g.credential_id == id)) [
  | inl own ↦ rw (sym ((==_iff g.credential_id id).0 own)) h.0.restricted
  | inr other ↦ any_grant-restricted db id gs h.1 (ground arith)
]

pub found-restricted :
    (id tenant : ℕ) (rows : List CredentialRow) (c : CredentialRow)
    → credential_of id tenant rows ≡ some c
    → any (λ r. r.id == id && r.tenant_wide) rows ≡ false
    → c.tenant_wide ≡ false
found-restricted id tenant rows c found none_ = ground (
  arith,
  find-test (λ r. r.id == id && r.tenant_id == tenant) rows c found,
  find-any _ (λ r. r.id == id && r.tenant_wide) rows c found none_,
)
