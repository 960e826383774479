-- ===== src/Credentials/Context.antt =====
-- src/credentials/context.rs: the authenticated principal.
use aeon_iq_temp.Common.{ℕ, Bool, Text}
use aeon_iq_temp.Credentials.Mode.{CredentialMode}
use aeon_iq_temp.Credentials.Scope
use aeon_iq_temp.Credentials.Scope.{Scope, ScopeSet}

pub record AeonAuthContext : Type 0 where
  pub credential_id : ℕ
  pub tenant_id : ℕ
  pub principal_id : Text
  pub scopes : ScopeSet
  pub mode : CredentialMode

unfoldable pub allows : AeonAuthContext → Scope → Bool
allows c scope = Scope.allows c.scopes scope
