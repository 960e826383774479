-- ===== src/Credentials/Grants.antt =====
-- src/credentials/grants.rs: which agents a credential may act for. The tables stand in one state,
-- each as the list of its rows; the constraints and triggers on the grants are those of
-- migrations/0030_credential_agent_grants.sql and its rename in 0031.
use aeon_iq_temp.Common.{
  ℕ, Bool, true, false, not, ◌&&◌, ◌||◌, List, [], ◌∷◌, Option, none, some, Text, codes, any, find,
  filter, ltb, ◌==◌, if◌then◌else◌, Result, ok, err,
}
use aeon_iq_temp.Credentials.Context.{AeonAuthContext}
use aeon_iq_temp.Credentials.Store.{CredentialRow, StoreError, backend}
pub mod Decision
pub mod Consistent
pub mod Lifecycle

pub data GrantBasis : Type 0 where
  explicit_grant tenant_wide : GrantBasis

pub data DenialReason : Type 0 where
  no_grant agent_outside_tenant contradictory_mode credential_not_found : DenialReason

pub data AgentDecision : Type 0 where
  granted : GrantBasis → AgentDecision
  denied : DenialReason → AgentDecision

unfoldable pub is_granted : AgentDecision → Bool
is_granted (granted b) = true
is_granted (denied r) = false

unfoldable pub as_str : AgentDecision → Text
as_str (granted explicit_grant) = codes "granted:explicit"
as_str (granted tenant_wide) = codes "granted:tenant_wide"
as_str (denied no_grant) = codes "denied:no_grant"
as_str (denied agent_outside_tenant) = codes "denied:agent_outside_tenant"
as_str (denied contradictory_mode) = codes "denied:contradictory_mode"
as_str (denied credential_not_found) = codes "denied:credential_not_found"

pub record AgentGrant : Type 0 where
  pub credential_id : ℕ
  pub tenant_id : ℕ
  pub agent_uuid : ℕ
  pub created_at : ℕ

-- The columns of `agents` that the statements read.
pub record Agent : Type 0 where
  pub id : ℕ
  pub tenant_id : Option ℕ

pub record Tables : Type 0 where
  pub credentials : List CredentialRow
  pub grants : List AgentGrant
  pub agents : List Agent

-- `tenant_id = $2` on a nullable column
abbrev pub is_in : ℕ → Option ℕ → Bool
is_in t none = false
is_in t (some u) = u == t

-- `FROM credentials c WHERE c.id = $1 AND c.tenant_id = $2`
abbrev pub credential_of : ℕ → ℕ → List CredentialRow → Option CredentialRow
credential_of id tenant rows = find (λ c. c.id == id && c.tenant_id == tenant) rows

abbrev pub has_any_grant : ℕ → List AgentGrant → Bool
has_any_grant id grants = any (λ g. g.credential_id == id) grants

abbrev pub grants_agent : ℕ → ℕ → ℕ → List AgentGrant → Bool
grants_agent id tenant agent grants =
    any (λ g. g.credential_id == id && g.tenant_id == tenant && g.agent_uuid == agent) grants

abbrev pub agent_in_tenant : ℕ → ℕ → List Agent → Bool
agent_in_tenant tenant agent agents = any (λ a. a.id == agent && is_in tenant a.tenant_id) agents

-- What follows from the four columns of the row.
unfoldable pub decide : Bool → Bool → Bool → Bool → AgentDecision
decide wide any_grant names in_tenant =
    if wide && any_grant
    then denied contradictory_mode
    else if not in_tenant
    then denied agent_outside_tenant
    else if wide
    then granted tenant_wide
    else if names
    then granted explicit_grant
    else denied no_grant

pub decide_row : ℕ → ℕ → ℕ → Tables → Option CredentialRow → AgentDecision
unfolding decide
decide_row id tenant agent db none = denied credential_not_found
decide_row id tenant agent db (some c) =
    decide c.tenant_wide (has_any_grant id db.grants) (grants_agent id tenant agent db.grants)
      (agent_in_tenant tenant agent db.agents)

unfoldable pub authorize_agent :
    Bool → AeonAuthContext → ℕ → Tables → Result StoreError AgentDecision
unfolding decide_row
authorize_agent reachable context agent db =
    if reachable
    then ok (
        decide_row context.credential_id context.tenant_id agent db
          (credential_of context.credential_id context.tenant_id db.credentials))
    else err backend

-- The primary key, the two foreign keys and the trigger that a new grant must pass.
unfoldable pub grant_allowed : ℕ → ℕ → ℕ → Tables → Bool
grant_allowed id tenant agent db =
    not (any (λ g. g.credential_id == id && g.agent_uuid == agent) db.grants)
    && any (λ c. c.id == id && c.tenant_id == tenant) db.credentials
    && agent_in_tenant tenant agent db.agents
    && not (any (λ c. c.id == id && c.tenant_wide) db.credentials)

-- `now` is what `DEFAULT NOW()` gives the new row.
unfoldable pub grant : Bool → ℕ → ℕ → ℕ → ℕ → Tables → Tables × Result StoreError (Unit {0})
unfolding grant_allowed
grant reachable now id tenant agent db =
    if reachable && grant_allowed id tenant agent db
    then (
      record db {
        grants =
            record { credential_id = id; tenant_id = tenant; agent_uuid = agent; created_at = now }
            ∷ db.grants;
      },
      ok tt,
    )
    else (db, err backend)

-- `DELETE … WHERE credential_id = $1 AND agent_uuid = $2`
abbrev pub to_withdraw : ℕ → ℕ → AgentGrant → Bool
to_withdraw id agent g = g.credential_id == id && g.agent_uuid == agent

unfoldable pub revoke_grant : Bool → ℕ → ℕ → Tables → Tables × Result StoreError Bool
revoke_grant reachable id agent db =
    if reachable
    then (
      record db { grants = filter (λ g. not (to_withdraw id agent g)) db.grants },
      ok (any (to_withdraw id agent) db.grants),
    )
    else (db, err backend)

-- `ORDER BY created_at, agent_uuid`
abbrev pub is_before : AgentGrant → AgentGrant → Bool
is_before g h =
    ltb g.created_at h.created_at || (g.created_at == h.created_at && ltb g.agent_uuid h.agent_uuid)

unfoldable pub insert_sorted : AgentGrant → List AgentGrant → List AgentGrant
insert_sorted g [] = g ∷ []
insert_sorted g (h ∷ hs) =
    let rest = insert_sorted g hs in if is_before h g then h ∷ rest else g ∷ h ∷ hs

unfoldable pub sorted : List AgentGrant → List AgentGrant
unfolding insert_sorted
sorted [] = []
sorted (g ∷ gs) = insert_sorted g (sorted gs)

unfoldable pub list_grants : Bool → ℕ → Tables → Result StoreError (List AgentGrant)
unfolding sorted
list_grants reachable id db =
    if reachable then ok (sorted (filter (λ g. g.credential_id == id) db.grants)) else err backend
