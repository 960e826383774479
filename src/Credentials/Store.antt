-- ===== src/Credentials/Store.antt =====
-- src/credentials/store.rs: the credential registry. A table is the list of its rows, and each SQL
-- statement of the source is a function on it; `reachable` says whether the statement reached the
-- database, since any `sqlx` error takes the same branch. The constraints are those of
-- migrations/0029_credentials.sql.
use aeon_iq_temp.Common.{
  ℕ, suc, ◌+◌, Bool, true, false, not, ◌&&◌, ◌||◌, List, [], ◌∷◌, map, Option, none, some, Text,
  codes, text_eq, any, all, find, filter, length, ltb, leb, ◌==◌, if◌then◌else◌, Result, ok, err,
  ◌>>=◌, ◌>>◌, map_err,
}
use aeon_iq_temp.Credentials.Mode
use aeon_iq_temp.Credentials.Mode.{CredentialMode, ModeError}
use aeon_iq_temp.Credentials.Scope
use aeon_iq_temp.Credentials.Scope.{ScopeSet, ScopeError}
pub mod Rows
pub mod Revoked
pub mod Lifecycle

pub data CredentialStatus : Type 0 where
  active revoked disabled : CredentialStatus

pub data RecordError : Type 0 where
  status : Text → RecordError
  mode : ModeError → RecordError
  scopes : ScopeError → RecordError

pub data StoreError : Type 0 where
  backend : StoreError
  corrupt : ℕ → RecordError → StoreError

unfoldable pub as_str : CredentialStatus → Text
as_str active = codes "active"
as_str revoked = codes "revoked"
as_str disabled = codes "disabled"

unfoldable pub parse : Text → Result RecordError CredentialStatus
parse raw =
    if text_eq raw (codes "active")
    then ok active
    else if text_eq raw (codes "revoked")
    then ok revoked
    else if text_eq raw (codes "disabled")
    then ok disabled
    else err (status raw)

pub record CredentialRecord : Type 0 where
  pub id : ℕ
  pub tenant_id : ℕ
  pub principal_id : Text
  pub secret_mac : List ℕ
  pub mode : CredentialMode
  pub scopes : ScopeSet
  pub tenant_wide : Bool
  pub status : CredentialStatus
  pub created_at : ℕ
  pub last_used_at : Option ℕ
  pub revoked_at : Option ℕ
  pub expires_at : Option ℕ

pub record CredentialRow : Type 0 where
  pub id : ℕ
  pub tenant_id : ℕ
  pub principal_id : Text
  pub secret_mac : List ℕ
  pub mode : Text
  pub scopes : List Text
  pub tenant_wide : Bool
  pub status : Text
  pub created_at : ℕ
  pub last_used_at : Option ℕ
  pub revoked_at : Option ℕ
  pub expires_at : Option ℕ

pub record NewCredential : Type 0 where
  pub id : ℕ
  pub tenant_id : ℕ
  pub principal_id : Text
  pub secret_mac : List ℕ
  pub mode : CredentialMode
  pub scopes : ScopeSet
  pub tenant_wide : Bool
  pub expires_at : Option ℕ

abbrev pub is_none {ℓ} : {A : Type ℓ} → Option A → Bool
is_none none = true
is_none (some a) = false

-- `expires_at.map(|expiry| now < expiry).unwrap_or(true)`
abbrev pub before_expiry : ℕ → Option ℕ → Bool
before_expiry now none = true
before_expiry now (some expiry) = ltb now expiry

abbrev pub is_active : CredentialStatus → Bool
is_active active = true
is_active _ = false

unfoldable pub is_usable_at : CredentialRecord → ℕ → Bool
is_usable_at r now = is_active r.status && is_none r.revoked_at && before_expiry now r.expires_at

unfoldable pub cache_bound : CredentialRecord → Option ℕ
cache_bound r = r.expires_at

-- the closure `convert` of `CredentialRow::validate`
unfoldable pub convert : CredentialRow → Result RecordError CredentialRecord
convert row = do
  m ← map_err RecordError.mode (Mode.parse row.mode)
  set ← map_err RecordError.scopes (Scope.parse_list row.scopes)
  s ← parse row.status
  ok (record {
    id = row.id;
    tenant_id = row.tenant_id;
    principal_id = row.principal_id;
    secret_mac = row.secret_mac;
    mode = m;
    scopes = set;
    tenant_wide = row.tenant_wide;
    status = s;
    created_at = row.created_at;
    last_used_at = row.last_used_at;
    revoked_at = row.revoked_at;
    expires_at = row.expires_at;
  })

unfoldable pub validate : CredentialRow → Result StoreError CredentialRecord
unfolding convert
validate row = map_err (corrupt row.id) (convert row)

-- `row.map(CredentialRow::validate).transpose()`
transpose_validate : Option CredentialRow → Result StoreError (Option CredentialRecord)
transpose_validate none = ok none
transpose_validate (some row) = do r ← validate row; ok (some r)

-- `SELECT … FROM credentials WHERE id = $1`
abbrev pub row_of : ℕ → List CredentialRow → Option CredentialRow
row_of id rows = find (λ row. row.id == id) rows

unfoldable pub fetch : Bool → List CredentialRow → ℕ → Result StoreError (Option CredentialRecord)
unfolding transpose_validate
fetch reachable rows id = if reachable then transpose_validate (row_of id rows) else err backend

-- The CHECK constraints that the statement of `insert` can violate, and the primary key.
abbrev pub expires_after : ℕ → Option ℕ → Bool
expires_after created none = true
expires_after created (some expiry) = ltb created expiry

unfoldable pub row_allowed : List CredentialRow → CredentialRow → Bool
row_allowed rows row =
    not (any (λ other. other.id == row.id) rows)
    && length row.secret_mac == 32
    && leb 1 (length row.principal_id)
    && leb (length row.principal_id) 255
    && expires_after row.created_at row.expires_at

-- `now` is what `DEFAULT NOW()` gives the new row.
unfoldable pub new_row : ℕ → NewCredential → CredentialRow
new_row now new = record {
  id = new.id;
  tenant_id = new.tenant_id;
  principal_id = new.principal_id;
  secret_mac = new.secret_mac;
  mode = Mode.as_str new.mode;
  scopes = Scope.to_wire new.scopes;
  tenant_wide = new.tenant_wide;
  status = codes "active";
  created_at = now;
  last_used_at = none;
  revoked_at = none;
  expires_at = new.expires_at;
}

unfoldable pub insert :
    Bool
    → ℕ
    → NewCredential
    → List CredentialRow
    → List CredentialRow × Result StoreError (Unit {0})
unfolding new_row row_allowed
insert reachable now new rows =
    if reachable && row_allowed rows (new_row now new)
    then (new_row now new ∷ rows, ok tt)
    else (rows, err backend)

-- `WHERE id = $1 AND status <> 'revoked'`
abbrev pub to_revoke : ℕ → CredentialRow → Bool
to_revoke id row = row.id == id && not (text_eq row.status (codes "revoked"))

unfoldable pub revoke_rows : ℕ → ℕ → List CredentialRow → List CredentialRow
revoke_rows id at = map (λ row.
    if to_revoke id row then record row { status = codes "revoked"; revoked_at = some at } else row)

unfoldable pub revoke :
    Bool → ℕ → ℕ → List CredentialRow → List CredentialRow × Result StoreError Bool
unfolding revoke_rows
revoke reachable id at rows =
    if reachable
    then (revoke_rows id at rows, ok (any (to_revoke id) rows))
    else (rows, err backend)

unfoldable pub touch_rows : ℕ → ℕ → List CredentialRow → List CredentialRow
touch_rows id at = map (λ row. if row.id == id then record row { last_used_at = some at } else row)

unfoldable pub touch_last_used :
    Bool → ℕ → ℕ → List CredentialRow → List CredentialRow × Result StoreError (Unit {0})
unfolding touch_rows
touch_last_used reachable id at rows =
    if reachable then (touch_rows id at rows, ok tt) else (rows, err backend)

-- `SELECT COUNT(*) … WHERE status = 'active' AND (expires_at IS NULL OR expires_at > NOW())`
unfoldable pub active_count : Bool → ℕ → List CredentialRow → Result StoreError ℕ
active_count reachable now rows =
    if reachable
    then ok (
        length (
          filter (λ row. text_eq row.status (codes "active") && before_expiry now row.expires_at)
            rows))
    else err backend
