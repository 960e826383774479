-- ===== src/Credentials/Auth/Calls.antt =====
-- The calls that the authenticator of src/credentials/mod.rs may see, and a run of them.

use aeon_iq_temp.Common.{ℕ, Bool, List, [], ◌∷◌}
use aeon_iq_temp.Credentials.Secret.{Crypto}
use aeon_iq_temp.Credentials.Store
use aeon_iq_temp.Credentials.Store.{CredentialRecord, CredentialRow}
use aeon_iq_temp.Credentials.Auth
use aeon_iq_temp.Credentials.Auth.{
  Authenticator, Visit, IssueSpec, Minting, Loaded, load, authenticate_parsed, authenticate_result,
  issue_stored, revoke_stored,
}

-- What can happen between two requests: a call of this process, or a revocation that another
-- replica or an operator's SQL makes in the database behind its back.
pub data Call : Type 0 where
  authenticate : List ℕ → Visit → Call
  revoke : Bool → ℕ → ℕ → Call
  issue : IssueSpec → Minting → Call
  revoke_elsewhere : ℕ → ℕ → Call

module _ (crypto : Crypto) where
  unfoldable pub step : Call → Authenticator → Authenticator
  step (authenticate presented v) a = (Auth.authenticate crypto presented v a).0
  step (revoke reachable id at) a = (Auth.revoke reachable id at a).0
  step (issue spec m) a = (Auth.issue crypto spec m a).0
  step (revoke_elsewhere id at) a = record a { rows = Store.revoke_rows id at a.rows }

  -- Newest call first.
  unfoldable pub run : List Call → Authenticator → Authenticator
  run [] a = a
  run (c ∷ calls) a = step c (run calls a)

-- The tick of the entry that a call may make.
abbrev pub writes_at : Call → ℕ
writes_at (authenticate presented v) = v.stored.tick
writes_at _ = 0
