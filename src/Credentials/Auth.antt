-- ===== src/Credentials/Auth.antt =====
-- src/credentials/mod.rs: the authenticator. A method takes the state and gives it back with its
-- result; a request runs from end to end before the next. What the environment decides during a
-- request is its `Visit`: the clock's readings and whether each statement reached the database.
-- The log lines are left out; the audit record is a result.
use aeon_iq_temp.Common.{
  ℕ, ◌+◌, ◌%◌, ◌^◌, Bool, true, false, List, [], ◌∷◌, Option, none, some, Text, codes,
  if◌then◌else◌, Result, ok, err,
}
use aeon_iq_temp.Credentials.Cache
use aeon_iq_temp.Credentials.Cache.{Reading, BoundedTtlCache, CacheError, max_ttl}
use aeon_iq_temp.Credentials.Context.{AeonAuthContext}
use aeon_iq_temp.Credentials.Mode.{CredentialMode}
use aeon_iq_temp.Credentials.Scope.{ScopeSet}
use aeon_iq_temp.Credentials.Secret
use aeon_iq_temp.Credentials.Secret.{Crypto, FormatError, PresentedCredential, IssuedCredential}
use aeon_iq_temp.Credentials.Store
use aeon_iq_temp.Credentials.Store.{CredentialRecord, CredentialRow, CredentialStatus, StoreError}
pub mod Steps
pub mod Sound
pub mod Parity
pub mod Calls
pub mod Early
pub mod Revocation

pub data FailureReason : Type 0 where
  malformed unknown_credential bad_secret revoked expired inactive corrupt backend : FailureReason

unfoldable pub as_str : FailureReason → Text
as_str malformed = codes "malformed"
as_str unknown_credential = codes "unknown_credential"
as_str bad_secret = codes "bad_secret"
as_str revoked = codes "revoked"
as_str expired = codes "expired"
as_str inactive = codes "inactive"
as_str corrupt = codes "corrupt"
as_str backend = codes "backend"

abbrev pub uniform_rejection : Text
uniform_rejection = codes "invalid credential"

pub record AuthError : Type 0 where
  pub reason : FailureReason

unfoldable pub is_backend : AuthError → Bool
is_backend e = elim e.reason [ backend ↦ true | corrupt ↦ true | _ ↦ false ]

-- `Display` for `AuthError`
unfoldable pub display : AuthError → Text
display e = uniform_rejection

pub data AuthOutcome : Type 0 where
  authenticated : AuthOutcome
  rejected : FailureReason → AuthOutcome

pub record AuthAudit : Type 0 where
  pub at : ℕ
  pub outcome : AuthOutcome
  pub credential_id : Option ℕ
  pub tenant_id : Option ℕ
  pub principal_id : Option Text

pub record Authentication : Type 0 where
  pub result : Result AuthError AeonAuthContext
  pub audit : AuthAudit

pub record Loaded : Type 0 where
  pub record_ : CredentialRecord
  pub from_cache : Bool

-- The rows of the database stand in the state beside the authenticator's own fields.
pub record Authenticator : Type 0 where
  pub rows : List CredentialRow
  pub pepper : List ℕ
  pub cache : BoundedTtlCache CredentialRecord
  pub dummy_macs : ℕ

pub record Visit : Type 0 where
  -- `self.clock.now()` at the start
  pub at : ℕ
  -- the readings that `cache.get` and `cache.insert` take
  pub looked : Reading
  pub stored : Reading
  -- whether the lookup, and the bookkeeping update, reached the database
  pub fetch_ok : Bool
  pub touch_ok : Bool

unfoldable pub new : List CredentialRow → List ℕ → ℕ → Authenticator
new rows pepper capacity = record {
  rows = rows;
  pepper = pepper;
  cache = Cache.new capacity max_ttl;
  dummy_macs = 0;
}

-- `decoy`: one more discarded MAC, counted in a `u64`
unfoldable pub decoy : Authenticator → Authenticator
decoy a = record a { dummy_macs = (a.dummy_macs + 1) % 2 ^ 64 }

unfoldable pub reject : ℕ → Option ℕ → FailureReason → Authentication
reject at credential_id reason = record {
  result = err (record { reason = reason });
  audit = record {
    at = at;
    outcome = rejected reason;
    credential_id = credential_id;
    tenant_id = none;
    principal_id = none;
  };
}

-- What `load` makes of the answer of the database.
load_fetched :
    Authenticator
    → Result StoreError (Option CredentialRecord)
    → Authenticator × Result FailureReason (Option Loaded)
unfolding decoy
load_fetched a (err (Store.corrupt id e)) = (a, err corrupt)
load_fetched a (err Store.backend) = (a, err backend)
load_fetched a (ok none) = (decoy a, ok none)
load_fetched a (ok (some r)) = (decoy a, ok (some (record { record_ = r; from_cache = false })))

-- What `load` makes of the answer of the cache.
load_cached :
    ℕ
    → List ℕ
    → Visit
    → Authenticator
    → Result CacheError (Option CredentialRecord)
    → Authenticator × Result FailureReason (Option Loaded)
unfolding load_fetched
load_cached id mac v a (err e) = (a, err backend)
load_cached id mac v a (ok none) = load_fetched a (Store.fetch v.fetch_ok a.rows id)
load_cached id mac v a (ok (some r)) =
    if Secret.mac_matches mac r.secret_mac
    then (a, ok (some (record { record_ = r; from_cache = true })))
    else load_fetched a (Store.fetch v.fetch_ok a.rows id)

unfoldable pub load :
    ℕ → List ℕ → Visit → Authenticator → Authenticator × Result FailureReason (Option Loaded)
unfolding load_cached
load id mac v a =
    let (cache', got) = Cache.get id v.looked a.cache in
    load_cached id mac v (record a { cache = cache' }) got

-- The reason for a record that is not usable.
unfoldable pub unusable_reason : CredentialStatus → FailureReason
unusable_reason Store.revoked = revoked
unusable_reason Store.disabled = inactive
unusable_reason Store.active = expired

unfoldable pub context_of : CredentialRecord → AeonAuthContext
context_of r = record {
  credential_id = r.id;
  tenant_id = r.tenant_id;
  principal_id = r.principal_id;
  scopes = r.scopes;
  mode = r.mode;
}

unfoldable pub accept : ℕ → CredentialRecord → Authentication
unfolding context_of
accept at r = record {
  result = ok (context_of r);
  audit = record {
    at = at;
    outcome = authenticated;
    credential_id = some r.id;
    tenant_id = some r.tenant_id;
    principal_id = some r.principal_id;
  };
}

-- The writes of a success that came from the database.
store_success :
    ℕ
    → CredentialRecord
    → Visit
    → Authenticator
    → BoundedTtlCache CredentialRecord × Result CacheError (Unit {0})
    → Authenticator × Authentication
unfolding reject accept
store_success id r v a (cache', err e) =
    (record a { cache = cache' }, reject v.at (some id) backend)
store_success id r v a (cache', ok _) = (
  record a { cache = cache'; rows = (Store.touch_last_used v.touch_ok id v.at a.rows).0 },
  accept v.at r,
)

-- The checks on the loaded record.
unfoldable pub admit : ℕ → List ℕ → Visit → Authenticator → Loaded → Authenticator × Authentication
unfolding store_success reject accept unusable_reason
admit id mac v a loaded =
    if Secret.mac_matches mac loaded.record_.secret_mac
    then (if Store.is_usable_at loaded.record_ v.at
        then (if loaded.from_cache
            then (a, accept v.at loaded.record_)
            else store_success id loaded.record_ v a (
                Cache.insert id loaded.record_ (Store.cache_bound loaded.record_) v.stored a.cache))
        else (a, reject v.at (some id) (unusable_reason loaded.record_.status)))
    else (a, reject v.at (some id) bad_secret)

unfoldable pub after_load :
    ℕ
    → List ℕ
    → Visit
    → Authenticator × Result FailureReason (Option Loaded)
    → Authenticator × Authentication
unfolding admit reject
after_load id mac v (a, err reason) = (a, reject v.at (some id) reason)
after_load id mac v (a, ok none) = (a, reject v.at (some id) unknown_credential)
after_load id mac v (a, ok (some loaded)) = admit id mac v a loaded

module _ (crypto : Crypto) where
  -- `authenticate` once the string is parsed
  unfoldable pub authenticate_parsed :
      PresentedCredential → Visit → Authenticator → Authenticator × Authentication
  unfolding after_load load
  authenticate_parsed p v a =
      let mac = Secret.presented_mac crypto a.pepper p in
      after_load p.credential_id mac v (load p.credential_id mac v a)

  unfoldable pub authenticate_result :
      Result FormatError PresentedCredential
      → Visit
      → Authenticator
      → Authenticator × Authentication
  unfolding authenticate_parsed reject
  authenticate_result (err e) v a = (a, reject v.at none malformed)
  authenticate_result (ok p) v a = authenticate_parsed p v a

  unfoldable pub authenticate : List ℕ → Visit → Authenticator → Authenticator × Authentication
  unfolding authenticate_result
  authenticate presented v a = authenticate_result (Secret.parse_presented crypto presented) v a

revoke_stored :
    ℕ
    → Authenticator
    → List CredentialRow × Result StoreError Bool
    → Authenticator × Result StoreError Bool
revoke_stored id a (rows', err e) = (record a { rows = rows' }, err e)
revoke_stored id a (rows', ok changed) =
    (record a { rows = rows'; cache = (Cache.invalidate id a.cache).0 }, ok changed)

-- `Authenticator::revoke`: the cached entry goes whether or not a row changed
unfoldable pub revoke : Bool → ℕ → ℕ → Authenticator → Authenticator × Result StoreError Bool
unfolding revoke_stored
revoke reachable id at a = revoke_stored id a (Store.revoke reachable id at a.rows)

pub record IssueSpec : Type 0 where
  pub tenant_id : ℕ
  pub principal_id : Text
  pub mode : CredentialMode
  pub scopes : ScopeSet
  pub tenant_wide : Bool
  pub expires_at : Option ℕ

-- What the environment decides while a credential is issued: the fresh UUID, the random bytes,
-- whether the statement reached the database, and the database's own clock.
pub record Minting : Type 0 where
  pub fresh_id : ℕ
  pub random : List ℕ
  pub reachable : Bool
  pub now : ℕ

issue_stored :
    IssuedCredential
    → Authenticator
    → List CredentialRow × Result StoreError (Unit {0})
    → Authenticator × Result StoreError IssuedCredential
issue_stored issued a (rows', err e) = (record a { rows = rows' }, err e)
issue_stored issued a (rows', ok _) = (record a { rows = rows' }, ok issued)

unfoldable pub new_credential : IssuedCredential → IssueSpec → Store.NewCredential
new_credential issued spec = record {
  id = issued.credential_id;
  tenant_id = spec.tenant_id;
  principal_id = spec.principal_id;
  secret_mac = issued.secret_mac;
  mode = spec.mode;
  scopes = spec.scopes;
  tenant_wide = spec.tenant_wide;
  expires_at = spec.expires_at;
}

-- `Authenticator::issue`
unfoldable pub issue :
    Crypto
    → IssueSpec
    → Minting
    → Authenticator
    → Authenticator × Result StoreError IssuedCredential
unfolding issue_stored new_credential
issue crypto spec m a =
    let issued = Secret.issue crypto a.pepper m.fresh_id m.random in
    issue_stored issued a (Store.insert m.reachable m.now (new_credential issued spec) a.rows)
