-- ===== src/Credentials/Settings/Values.antt =====
-- What the settings of src/credentials/mod.rs guarantee once they are accepted.
use mathlib.Core.Path.{subst}
use aeon_iq_temp.Common.{
  ℕ, ◌≤◌, Bool, true, false, not, ◌&&◌, List, Option, none, some, Text, codes, trim,
  eq_ignore_ascii_case, is_empty, length, ltb, ◌==◌, if_true, if_false, Bool-cases, Result, ok, err,
  ◌>>=◌, guard, ok_or, map_err, bind-ok, guard-ok, ◌≡◌, ◌⊎◌, refl, sym, ap, ◌∙◌, inl, inr, arith,
}
use aeon_iq_temp.Credentials.Secret
use aeon_iq_temp.Credentials.Secret.{Crypto, PepperError}
use aeon_iq_temp.Credentials.Store
use aeon_iq_temp.Credentials.Store.{CredentialRow, StoreError}
use aeon_iq_temp.Credentials.Auth
use aeon_iq_temp.Credentials.Auth.{Authenticator}
use aeon_iq_temp.Credentials.Settings.{
  CredentialAuthEnv, CredentialAuthSettings, SettingsError, parse_enabled, nonzero, parse_capacity,
  parse_usize, parse_pepper, from_values, is_some, build, build_with, GateError,
  assert_registry_ready_for_multi_tenant,
}

-- What a value of the switch spells.
abbrev pub Spells : Bool → Option Text → Type 0
Spells true value =
    (raw : Text) × (value ≡ some raw) × (eq_ignore_ascii_case (trim raw) (codes "true") ≡ true)
Spells false none = Unit
Spells false (some raw) =
    (is_empty (trim raw) ≡ true) ⊎ (eq_ignore_ascii_case (trim raw) (codes "false") ≡ true)

enabled-Spells : (value : Option Text) (b : Bool) → parse_enabled value ≡ ok b → Spells b value
unfolding parse_enabled
enabled-Spells none true h = absurd (cc)
enabled-Spells none false h = tt
enabled-Spells (some raw) true h = (raw, refl, ground arith)
enabled-Spells (some raw) false h = ground arith

-- A pepper that is long enough to be the key of the MAC.
abbrev pub IsPepper : List ℕ → Type 0
IsPepper p = Secret.min_pepper_bytes ≤ length p

from_hex-length :
    (crypto : Crypto) (raw : Text) (p : List ℕ) → Secret.from_hex crypto raw ≡ ok p → IsPepper p
unfolding Secret.from_hex
from_hex-length crypto raw p h =
    let (_, full, h₁) = bind-ok (guard (not (is_empty (trim raw))) PepperError.empty) _ p h in
    let (bytes, decoded, h₂) =
      bind-ok (ok_or (Crypto.hex_decode crypto (trim raw)) PepperError.not_hex) _ p h₁ in
    let (t, long, h₃) =
      bind-ok (guard (not (ltb (length bytes) 32)) (PepperError.too_short (length bytes) 32)) _ p
        h₂ in
    let this : bytes ≡ p = cc in
    rw (sym this) (
      ground (
        arith,
        guard-ok (not (ltb (length bytes) 32)) (PepperError.too_short (length bytes) 32) t long,
      ))

parse_pepper-IsPepper :
    (crypto : Crypto) (value : Option Text) (p : List ℕ)
    → parse_pepper crypto value ≡ ok (some p)
    → IsPepper p
unfolding parse_pepper
parse_pepper-IsPepper crypto none p h = absurd (cc)
parse_pepper-IsPepper crypto (some raw) p h =
    hex_pepper (Secret.from_hex crypto raw) h (from_hex-length crypto raw)
  where
    hex_pepper :
        (got : Result PepperError (List ℕ))
        → (map_err SettingsError.malformed_pepper got >>= λ x. ok (some x)) ≡ ok (some p)
        → ((q : List ℕ) → got ≡ ok q → IsPepper q)
        → IsPepper p
    hex_pepper (ok q) e long = long p (cc)
    hex_pepper (err x) e long = absurd (cc)

capacity-positive : (value : Option Text) (n : ℕ) → parse_capacity value ≡ ok n → 1 ≤ n
unfolding parse_capacity
capacity-positive none n h = ground arith
capacity-positive (some raw) n h = parsed_positive (parse_usize raw) h
  where
    parsed_positive : (got : Option ℕ) → nonzero raw got ≡ ok n → 1 ≤ n
    parsed_positive none e = absurd (unfold nonzero in cc)
    parsed_positive (some m) e = unfold nonzero in ground arith

-- Accepted settings: the switch says what its value spells, an enabled subsystem has a pepper,
-- any pepper is long enough, and the cache can hold an entry.
pub record IsSound (env : CredentialAuthEnv) (s : CredentialAuthSettings) : Type 0 where
  pub switch : Spells s.enabled env.enabled
  pub keyed : s.enabled ≡ true → is_some s.pepper ≡ true
  pub long : (p : List ℕ) → s.pepper ≡ some p → IsPepper p
  pub room : 1 ≤ s.cache_capacity

-- Settings are accepted only if the switch is absent, blank, or spells true or false, and are then
-- enabled exactly as it spells; if an enabled subsystem has a pepper; if any pepper is at least 32
-- bytes; and if the capacity is at least 1.
pub from_values-IsSound :
    (crypto : Crypto) (env : CredentialAuthEnv) (s : CredentialAuthSettings)
    → from_values crypto env ≡ ok s
    → IsSound env s
unfolding from_values
from_values-IsSound crypto env s h =
    let (enabled, switch, h₁) = bind-ok (parse_enabled env.enabled) _ s h in
    let (pepper, key, h₂) = bind-ok (parse_pepper crypto env.pepper) _ s h₁ in
    let (t, keyed, h₃) =
      bind-ok (guard (not (enabled && not (is_some pepper))) SettingsError.missing_pepper) _ s h₂ in
    let (capacity, room, h₄) = bind-ok (parse_capacity env.cache_capacity) _ s h₃ in
    let made : CredentialAuthSettings = record {
      enabled = enabled;
      pepper = pepper;
      cache_capacity = capacity;
    } in
    let this : made ≡ s = cc in
    subst (IsSound env) this (record {
      switch = enabled-Spells env.enabled enabled switch;
      keyed = λ on. ground (
        arith,
        guard-ok (not (enabled && not (is_some pepper))) SettingsError.missing_pepper t keyed,
      );
      long = λ p is. parse_pepper-IsPepper crypto env.pepper p (key ∙ ap ok is);
      room = capacity-positive env.cache_capacity capacity room;
    })

build_with-some :
    (rows : List CredentialRow) (capacity : ℕ) (pepper : Option (List ℕ))
    → is_some pepper ≡ true
    → (p : List ℕ) × (pepper ≡ some p)
      × (build_with rows capacity pepper ≡ ok (some (Auth.new rows p capacity)))
unfolding build_with
build_with-some rows capacity none h = absurd (cc)
build_with-some rows capacity (some p) h = (p, refl, refl)

-- Accepted settings never fail to build: a disabled subsystem has no authenticator, and an enabled
-- one has a fresh authenticator with a pepper of at least 32 bytes.
pub accepted_builds :
    (crypto : Crypto) (env : CredentialAuthEnv) (s : CredentialAuthSettings)
    (rows : List CredentialRow)
    → from_values crypto env ≡ ok s
    → ((s.enabled ≡ false) × (build rows s ≡ ok none))
      ⊎ ((s.enabled ≡ true)
          × ((p : List ℕ) × IsPepper p
              × (build rows s ≡ ok (some (Auth.new rows p s.cache_capacity)))))
unfolding build
accepted_builds crypto env s rows h =
    let sound = from_values-IsSound crypto env s h in
    elim (Bool-cases s.enabled) [
      | inr off ↦ inl (off, if_true _ _ (ap not off))
      | inl on ↦
          let (p, is, built) = build_with-some rows s.cache_capacity s.pepper (sound.keyed on) in
          inr (on, (p, sound.long p is, if_false _ _ (ap not on) ∙ built))
    ]

gate_lem :
    (got : Result StoreError ℕ)
    → (map_err GateError.uncounted got >>= λ n. guard (not (n == 0)) GateError.empty_registry)
      ≡ ok tt
    → (n : ℕ) × (got ≡ ok n) × (1 ≤ n)
gate_lem (err e) h = absurd (cc)
gate_lem (ok n) h = (n, refl, ground (arith, guard-ok (not (n == 0)) GateError.empty_registry tt h))

-- Multi-tenant mode starts only on a registry whose count of active, unexpired credentials was
-- read and is not 0.
pub gate-counted :
    (reachable : Bool) (now : ℕ) (rows : List CredentialRow)
    → assert_registry_ready_for_multi_tenant reachable now rows true ≡ ok tt
    → (n : ℕ) × (Store.active_count reachable now rows ≡ ok n) × (1 ≤ n)
unfolding assert_registry_ready_for_multi_tenant
gate-counted reachable now rows h = gate_lem (Store.active_count reachable now rows) h
