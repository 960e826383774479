-- ===== src/Credentials/Settings.antt =====
-- src/credentials/mod.rs: the settings of the credential subsystem, and its gate at startup. An
-- environment variable is the text it is set to, if any.
use aeon_iq_temp.Common.{
  ℕ, ◌+◌, ◌-◌, ◌*◌, ◌^◌, Bool, true, false, not, ◌&&◌, List, [], ◌∷◌, Option, none, some, Text,
  codes, text_eq, trim, eq_ignore_ascii_case, is_empty, is_ascii_digit, ltb, ◌==◌, if◌then◌else◌,
  Result, ok, err, ◌>>=◌, ◌>>◌, guard, map_err,
}
use aeon_iq_temp.Credentials.Cache
use aeon_iq_temp.Credentials.Secret
use aeon_iq_temp.Credentials.Secret.{Crypto, PepperError}
use aeon_iq_temp.Credentials.Store
use aeon_iq_temp.Credentials.Store.{CredentialRow, StoreError}
use aeon_iq_temp.Credentials.Auth
use aeon_iq_temp.Credentials.Auth.{Authenticator}
pub mod Values

pub record CredentialAuthEnv : Type 0 where
  pub enabled : Option Text
  pub pepper : Option Text
  pub cache_capacity : Option Text

pub record CredentialAuthSettings : Type 0 where
  pub enabled : Bool
  pub pepper : Option (List ℕ)
  pub cache_capacity : ℕ

-- The messages that startup can end with.
pub data SettingsError : Type 0 where
  both_peppers unreadable_pepper missing_pepper zero_capacity pepper_not_loaded : SettingsError
  not_a_flag not_a_number : Text → SettingsError
  malformed_pepper : PepperError → SettingsError

-- The variables that `from_env` reads, and what reading the named file gives.
pub record Variables : Type 0 where
  pub inline : Option Text
  pub path : Option Text
  pub file : Option Text
  pub enabled : Option Text
  pub cache_capacity : Option Text

-- `value.filter(|v| !v.trim().is_empty())`
unfoldable pub non_empty : Option Text → Option Text
non_empty none = none
non_empty (some v) = if is_empty (trim v) then none else some v

-- the `match` on `enabled.as_deref().map(str::trim)`
unfoldable pub parse_enabled : Option Text → Result SettingsError Bool
parse_enabled none = ok false
parse_enabled (some raw) =
    let value = trim raw in
    if is_empty value
    then ok false
    else if eq_ignore_ascii_case value (codes "true")
    then ok true
    else if eq_ignore_ascii_case value (codes "false")
    then ok false
    else err (not_a_flag value)

-- `str::parse::<usize>` on a 64-bit target: digits after an optional plus sign
digits_from : ℕ → Text → Option ℕ
digits_from acc [] = some acc
digits_from acc (c ∷ s) =
    let next = acc * 10 + (c - b'0') in
    let rest = digits_from next s in if is_ascii_digit c && ltb next (2 ^ 64) then rest else none

some_digits : Text → Option ℕ
unfolding digits_from
some_digits [] = none
some_digits (c ∷ s) = digits_from 0 (c ∷ s)

unfoldable pub parse_usize : Text → Option ℕ
unfolding some_digits
parse_usize [] = none
parse_usize (c ∷ s) = if c == b'+' then some_digits s else some_digits (c ∷ s)

nonzero : Text → Option ℕ → Result SettingsError ℕ
nonzero raw none = err (not_a_number raw)
nonzero raw (some parsed) = if parsed == 0 then err zero_capacity else ok parsed

unfoldable pub parse_capacity : Option Text → Result SettingsError ℕ
unfolding parse_usize nonzero
parse_capacity none = ok Cache.default_capacity
parse_capacity (some raw) = nonzero raw (parse_usize raw)

unfoldable pub parse_pepper : Crypto → Option Text → Result SettingsError (Option (List ℕ))
parse_pepper crypto none = ok none
parse_pepper crypto (some raw) = do
  pepper ← map_err malformed_pepper (Secret.from_hex crypto raw)
  ok (some pepper)

abbrev pub is_some {ℓ} : {A : Type ℓ} → Option A → Bool
is_some none = false
is_some (some a) = true

unfoldable pub from_values :
    Crypto → CredentialAuthEnv → Result SettingsError CredentialAuthSettings
unfolding parse_enabled parse_pepper parse_capacity
from_values crypto env = do
  enabled ← parse_enabled env.enabled
  pepper ← parse_pepper crypto env.pepper
  guard (not (enabled && not (is_some pepper))) missing_pepper
  capacity ← parse_capacity env.cache_capacity
  ok (record { enabled = enabled; pepper = pepper; cache_capacity = capacity })

read_file : Option Text → Result SettingsError (Option Text)
read_file none = err unreadable_pepper
read_file (some contents) = ok (some contents)

-- the `match` on `(inline, path)`
unfoldable pub choose_pepper :
    Option Text → Option Text → Option Text → Result SettingsError (Option Text)
unfolding read_file
choose_pepper (some v) (some p) file = err both_peppers
choose_pepper (some v) none file = ok (some v)
choose_pepper none (some p) file = read_file file
choose_pepper none none file = ok none

unfoldable pub from_env : Crypto → Variables → Result SettingsError CredentialAuthSettings
unfolding non_empty choose_pepper from_values
from_env crypto vars = do
  pepper ← choose_pepper (non_empty vars.inline) (non_empty vars.path) vars.file
  from_values crypto (record {
    enabled = non_empty vars.enabled;
    pepper = pepper;
    cache_capacity = non_empty vars.cache_capacity;
  })

build_with : List CredentialRow → ℕ → Option (List ℕ) → Result SettingsError (Option Authenticator)
build_with rows capacity none = err pepper_not_loaded
build_with rows capacity (some pepper) = ok (some (Auth.new rows pepper capacity))

unfoldable pub build :
    List CredentialRow → CredentialAuthSettings → Result SettingsError (Option Authenticator)
unfolding build_with
build rows s = if not s.enabled then ok none else build_with rows s.cache_capacity s.pepper

-- The ways in which the gate refuses to start.
pub data GateError : Type 0 where
  uncounted : StoreError → GateError
  empty_registry : GateError

unfoldable pub assert_registry_ready_for_multi_tenant :
    Bool → ℕ → List CredentialRow → Bool → Result GateError (Unit {0})
assert_registry_ready_for_multi_tenant reachable now rows multi_tenant_enabled =
    if not multi_tenant_enabled then ok tt else do
      active ← map_err uncounted (Store.active_count reachable now rows)
      guard (not (active == 0)) empty_registry
