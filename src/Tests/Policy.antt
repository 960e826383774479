-- ===== src/Tests/Policy.antt =====
-- Grants and settings.
use aeon_iq_temp.Common.{
  trim, is_whitespace, true, false, List, [], ◌∷◌, ok, some, none, codes, ◌≡◌, ◌⊎◌, refl,
}
use aeon_iq_temp.Credentials.Context.{AeonAuthContext}
use aeon_iq_temp.Credentials.Mode
use aeon_iq_temp.Credentials.Secret
use aeon_iq_temp.Credentials.Store
use aeon_iq_temp.Credentials.Store.{CredentialRow}
use aeon_iq_temp.Credentials.Grants
use aeon_iq_temp.Credentials.Grants.{
  AgentGrant, Agent, Tables, DenialReason, GrantBasis, credential_of, agent_in_tenant, grants_agent,
  has_any_grant,
}
use aeon_iq_temp.Credentials.Grants.Decision.{authorize_agent-granted}
use aeon_iq_temp.Credentials.Grants.Consistent.{IsConsistent}
use aeon_iq_temp.Credentials.Grants.Lifecycle.{withdrawn_denies}
use aeon_iq_temp.Credentials.Settings
use aeon_iq_temp.Credentials.Settings.{CredentialAuthEnv, CredentialAuthSettings}
use aeon_iq_temp.Credentials.Settings.Values.{IsSound, from_values-IsSound}
use aeon_iq_temp.Tests.Fixtures.{toy, toy_encode, secret_of, reader}

abbrev row : CredentialRow
row = record {
  id = 1;
  tenant_id = 5;
  principal_id = codes "svc";
  secret_mac = secret_of;
  mode = codes "v2_required";
  scopes = codes "memory:read" ∷ [];
  tenant_wide = false;
  status = codes "active";
  created_at = 0;
  last_used_at = none;
  revoked_at = none;
  expires_at = none;
}

abbrev context : AeonAuthContext
context = record {
  credential_id = 1;
  tenant_id = 5;
  principal_id = codes "svc";
  scopes = reader;
  mode = Mode.v2_required;
}

abbrev held : AgentGrant
held = record { credential_id = 1; tenant_id = 5; agent_uuid = 70; created_at = 3 }

abbrev agents : List Agent
agents =
    record { id = 70; tenant_id = some 5 }
    ∷ record { id = 71; tenant_id = some 5 }
    ∷ record { id = 72; tenant_id = none }
    ∷ []

abbrev tables : Tables
tables = record { credentials = row ∷ []; grants = held ∷ []; agents = agents }

tables-IsConsistent : IsConsistent tables
tables-IsConsistent = record {
  anchored = (record { credential = refl; agent = refl; restricted = refl }, tt);
  unique = (refl, tt);
}

permitted :
    Grants.authorize_agent true context 70 tables ≡ ok (Grants.granted Grants.explicit_grant)
unfolding Grants.authorize_agent Grants.decide
permitted = refl

authorize_agent-granted_example :
    (c : CredentialRow) × (credential_of 1 5 tables.credentials ≡ some c)
    × (agent_in_tenant 5 70 tables.agents ≡ true)
    × (((Grants.explicit_grant ≡ Grants.explicit_grant)
          × (c.tenant_wide ≡ false)
          × (grants_agent 1 5 70 tables.grants ≡ true))
        ⊎ ((Grants.explicit_grant ≡ Grants.tenant_wide)
            × (c.tenant_wide ≡ true)
            × (has_any_grant 1 tables.grants ≡ false)))
authorize_agent-granted_example =
    authorize_agent-granted true context 70 tables Grants.explicit_grant permitted

accepted : (Grants.grant true 4 1 5 71 tables).1 ≡ ok tt
unfolding Grants.grant Grants.grant_allowed
accepted = refl

withdrawn : (Grants.revoke_grant true 1 70 tables).1 ≡ ok true
unfolding Grants.revoke_grant
withdrawn = refl

withdrawn_denies_example :
    (r : DenialReason) × (Grants.authorize_agent true context 70
        (Grants.revoke_grant true 1 70 tables).0
      ≡ ok (Grants.denied r))
withdrawn_denies_example = withdrawn_denies true 70 context tables tables-IsConsistent withdrawn

abbrev env : CredentialAuthEnv
env = record {
  enabled = some (codes " True ");
  pepper = some (toy_encode secret_of);
  cache_capacity = some (codes "12");
}

abbrev settings : CredentialAuthSettings
settings = record { enabled = true; pepper = some secret_of; cache_capacity = 12 }

settings_accepted : Settings.from_values toy env ≡ ok settings
unfolding Settings.from_values trim is_whitespace Secret.from_hex
settings_accepted = refl

from_values-IsSound_example : IsSound env settings
from_values-IsSound_example = from_values-IsSound toy env settings settings_accepted

gate_open : Settings.assert_registry_ready_for_multi_tenant true 9 (row ∷ []) true ≡ ok tt
unfolding Settings.assert_registry_ready_for_multi_tenant Store.active_count
gate_open = refl
