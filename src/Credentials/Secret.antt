-- ===== src/Credentials/Secret.antt =====
-- src/credentials/secret.rs: the presented form `<credential_id>.<secret>`, the pepper and the MAC.
-- A presented string is its UTF-8 bytes. The crates `uuid`, `hex`, `hmac` and `sha2` are the
-- fields of `Crypto`; a constant-time comparison is an equality of byte strings.
use aeon_iq_temp.Common.{
  ℕ, suc, Bool, true, false, not, ◌&&◌, ◌||◌, List, [], ◌∷◌, ◌++◌, Option, none, some, Text,
  text_eq, trim, is_empty, is_ascii_digit, all, length, ltb, leb, ◌==◌, if◌then◌else◌, Result, ok,
  err, ◌>>=◌, ◌>>◌, ok_or, guard,
}
pub mod Format

abbrev pub secret_bytes : ℕ
secret_bytes = 32

abbrev pub secret_hex_len : ℕ
secret_hex_len = 64

abbrev pub mac_bytes : ℕ
mac_bytes = 32

abbrev pub uuid_hyphenated_len : ℕ
uuid_hyphenated_len = 36

abbrev pub min_pepper_bytes : ℕ
min_pepper_bytes = 32

pub record Crypto : Type 0 where
  -- `Uuid::parse_str`, and the `Display` of a `Uuid`
  pub uuid_parse : List ℕ → Option ℕ
  pub uuid_format : ℕ → List ℕ
  -- `hex::decode`, `hex::encode`
  pub hex_decode : List ℕ → Option (List ℕ)
  pub hex_encode : List ℕ → List ℕ
  -- HMAC-SHA-256 of a key and a message
  pub hmac_sha256 : List ℕ → List ℕ → List ℕ

pub data PepperError : Type 0 where
  empty not_hex : PepperError
  too_short : (got min : ℕ) → PepperError

pub data FormatError : Type 0 where
  shape credential_id secret : FormatError

pub record PresentedCredential : Type 0 where
  pub credential_id : ℕ
  pub secret : List ℕ

pub record IssuedCredential : Type 0 where
  pub credential_id : ℕ
  pub secret_mac : List ℕ
  pub presented : List ℕ

-- `raw.matches('.').count()`
abbrev pub count : ℕ → List ℕ → ℕ
count sep [] = 0
count sep (c ∷ s) = let rest = count sep s in if c == sep then suc rest else rest

-- `str::split_once`
cons_first : ℕ → Option (List ℕ × List ℕ) → Option (List ℕ × List ℕ)
cons_first c none = none
cons_first c (some (a, b)) = some (c ∷ a, b)

unfoldable pub split_once : ℕ → List ℕ → Option (List ℕ × List ℕ)
unfolding cons_first
split_once sep [] = none
split_once sep (c ∷ s) =
    let rest = split_once sep s in if c == sep then some ([], s) else cons_first c rest

abbrev pub is_lower_hex : ℕ → Bool
is_lower_hex b = is_ascii_digit b || (leb b'a' b && leb b b'f')

unfoldable pub mac_matches : (computed stored : List ℕ) → Bool
mac_matches computed stored = text_eq computed stored

module _ (crypto : Crypto) where
  open crypto use {uuid_parse, uuid_format, hex_decode, hex_encode, hmac_sha256}

  -- `Pepper::from_hex`; a pepper is its bytes
  unfoldable pub from_hex : Text → Result PepperError (List ℕ)
  from_hex raw = do
    let trimmed = trim raw
    guard (not (is_empty trimmed)) empty
    bytes ← ok_or (hex_decode trimmed) not_hex
    guard (not (ltb (length bytes) min_pepper_bytes)) (too_short (length bytes) min_pepper_bytes)
    ok bytes

  unfoldable pub parse_presented : List ℕ → Result FormatError PresentedCredential
  parse_presented raw = do
    guard (count b'.' raw == 1) shape
    (id_part, secret_part) ← ok_or (split_once b'.' raw) shape
    guard (length id_part == uuid_hyphenated_len) credential_id
    id ← ok_or (uuid_parse id_part) credential_id
    guard (length secret_part == secret_hex_len) secret
    guard (all is_lower_hex secret_part) secret
    decoded ← ok_or (hex_decode secret_part) secret
    guard (length decoded == secret_bytes) secret
    ok (record { credential_id = id; secret = decoded })

  unfoldable pub compute_mac : (pepper message : List ℕ) → List ℕ
  compute_mac pepper message = hmac_sha256 pepper message

  unfoldable pub presented_mac : List ℕ → PresentedCredential → List ℕ
  unfolding compute_mac
  presented_mac pepper presented = compute_mac pepper presented.secret

  unfoldable pub verify : List ℕ → PresentedCredential → List ℕ → Bool
  unfolding presented_mac mac_matches
  verify pepper presented stored = mac_matches (presented_mac pepper presented) stored

  -- `issue`, with the fresh UUID and the bytes of the operating system's generator as arguments
  unfoldable pub issue : (pepper : List ℕ) (fresh_id : ℕ) (random : List ℕ) → IssuedCredential
  unfolding compute_mac
  issue pepper fresh_id random = record {
    credential_id = fresh_id;
    secret_mac = compute_mac pepper random;
    presented = uuid_format fresh_id ++ (b'.' ∷ hex_encode random);
  }
