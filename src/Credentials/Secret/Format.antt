-- ===== src/Credentials/Secret/Format.antt =====
-- The format `<credential_id>.<secret>` of src/credentials/secret.rs: what `parse_presented`
-- accepts, and that an issued credential is accepted back.

use aeon_iq_temp.Common.{
  ℕ, suc, ◌+◌, ◌*◌, ◌^◌, ◌<◌, All, true, List, [], ◌∷◌, ◌++◌, Option, some, text_eq_refl, all,
  length, ◌==◌, ok, Bool-cases, Option-cases, inl, inr, ◌≡◌, ◌↔◌, refl, sym, ap, ◌∙◌, arith,
  ==_refl,
}
use aeon_iq_temp.Credentials.Secret.{
  Crypto, PresentedCredential, count, split_once, is_lower_hex, parse_presented, compute_mac,
  verify, issue,
}

-- A text with one separator is its two parts around it.
split_once-join : (sep : ℕ) (s a b : List ℕ) → split_once sep s ≡ some (a, b) → s ≡ a ++ (sep ∷ b)
unfolding split_once
split_once-join sep [] a b h = absurd (ground arith)
split_once-join sep (c ∷ s) a b h = elim (Bool-cases (c == sep)) [
  | inl same ↦ ground arith
  | inr other ↦ elim (Option-cases (split_once sep s)) [
    | inl miss ↦ absurd (ground arith)
    | inr ((x, y), hit) ↦ let rest = split_once-join sep s x y hit in ground arith
  ]
]

count-append : (sep : ℕ) (a b : List ℕ) → count sep (a ++ b) ≡ count sep a + count sep b
count-append sep [] b = omega arith
count-append sep (c ∷ a) b = ground (arith, count-append sep a b)

split_once-append :
    (sep : ℕ) (a b : List ℕ) → count sep a ≡ 0 → split_once sep (a ++ (sep ∷ b)) ≡ some (a, b)
unfolding split_once
split_once-append sep [] b h = rw (==_refl sep)
split_once-append sep (c ∷ a) b h = ground (arith, split_once-append sep a b)

count-lower_hex : (s : List ℕ) → all is_lower_hex s ≡ true → count b'.' s ≡ 0
count-lower_hex [] h = refl
count-lower_hex (c ∷ s) h = ground (arith, count-lower_hex s)

module _ (crypto : Crypto) where
  open crypto use {uuid_parse, uuid_format, hex_decode, hex_encode}

  -- The shape that the format asks for, part by part.
  pub record Spells (raw : List ℕ) (p : PresentedCredential) : Type 0 where
    pub id_part : List ℕ
    pub secret_part : List ℕ
    pub parts : raw ≡ id_part ++ (b'.' ∷ secret_part)
    pub id_plain : count b'.' id_part ≡ 0
    pub id_len : length id_part ≡ 36
    pub id_value : uuid_parse id_part ≡ some p.credential_id
    pub secret_len : length secret_part ≡ 64
    pub secret_lower : all is_lower_hex secret_part ≡ true
    pub secret_value : hex_decode secret_part ≡ some p.secret
    pub secret_width : length p.secret ≡ 32

  -- The successive conditions of an accepted string.
  parse-ok :
      (raw : List ℕ) (p : PresentedCredential)
      → parse_presented crypto raw ≡ ok p
      → (a : List ℕ) × (b : List ℕ) × (count b'.' raw ≡ 1)
        × (split_once b'.' raw ≡ some (a, b))
        × (length a ≡ 36)
        × (uuid_parse a ≡ some p.credential_id)
        × (length b ≡ 64)
        × (all is_lower_hex b ≡ true)
        × (hex_decode b ≡ some p.secret)
        × (length p.secret ≡ 32)
  unfolding parse_presented
  parse-ok raw p h = elim (Option-cases (split_once b'.' raw)) [
    | inl miss ↦ absurd (ground arith)
    | inr ((a, b), hit) ↦ elim (Option-cases (uuid_parse a)) [
      | inl miss ↦ absurd (ground arith)
      | inr (id, known) ↦ elim (Option-cases (hex_decode b)) [
        | inl miss ↦ absurd (ground arith)
        | inr (bytes, decoded) ↦ (
          a,
          b,
          ground arith,
          hit,
          ground arith,
          ground arith,
          ground arith,
          ground arith,
          ground arith,
          ground arith,
        )
      ]
    ]
  ]

  parse-Spells :
      (raw : List ℕ) (p : PresentedCredential) → parse_presented crypto raw ≡ ok p → Spells raw p
  parse-Spells raw p h =
      let (a, b, one, parts, id_len, id, secret_len, lower, bytes, width) = parse-ok raw p h in
      let joined = split_once-join b'.' raw a b parts in
      let counted : count b'.' raw ≡ count b'.' a + suc (count b'.' b) =
        ap (count b'.') joined ∙ count-append b'.' a (b'.' ∷ b) in
      record {
        id_part = a;
        secret_part = b;
        parts = joined;
        id_plain = omega arith;
        id_len = id_len;
        id_value = id;
        secret_len = secret_len;
        secret_lower = lower;
        secret_value = bytes;
        secret_width = width;
      }

  Spells-parse :
      (raw : List ℕ) (p : PresentedCredential) → Spells raw p → parse_presented crypto raw ≡ ok p
  unfolding parse_presented
  Spells-parse raw p s =
      let counted : count b'.' raw ≡ 1 =
        rw (s.parts, count-append) (omega (arith, count-lower_hex s.secret_part s.secret_lower)) in
      let cut : split_once b'.' raw ≡ some (s.id_part, s.secret_part) =
        rw (s.parts) (split_once-append b'.' s.id_part s.secret_part s.id_plain) in
      ground (arith, counted, cut)

  -- `parse_presented` accepts exactly the strings of one dot between a 36-byte text that the
  -- `uuid` crate reads and 64 lower-case hexadecimal digits that stand for 32 bytes.
  pub parse_presented_iff :
      (raw : List ℕ) (p : PresentedCredential) → (parse_presented crypto raw ≡ ok p) ↔ Spells raw p
  parse_presented_iff raw p = (parse-Spells raw p, Spells-parse raw p)

  -- What the issuing side relies on of the crates: a UUID is displayed in 36 characters with no
  -- dot and read back; hexadecimal encoding takes two lower-case digits for a byte and is read
  -- back.
  pub record Encodes : Type 0 where
    pub format_len : (id : ℕ) → id < 2 ^ 128 → length (uuid_format id) ≡ 36
    pub format_plain : (id : ℕ) → id < 2 ^ 128 → count b'.' (uuid_format id) ≡ 0
    pub format_parse : (id : ℕ) → id < 2 ^ 128 → uuid_parse (uuid_format id) ≡ some id
    pub encode_len :
        (bytes : List ℕ) → All (λ b. b < 256) bytes → length (hex_encode bytes) ≡ 2 * length bytes
    pub encode_lower :
        (bytes : List ℕ) → All (λ b. b < 256) bytes → all is_lower_hex (hex_encode bytes) ≡ true
    pub encode_decode :
        (bytes : List ℕ) → All (λ b. b < 256) bytes → hex_decode (hex_encode bytes) ≡ some bytes

  -- When the crates encode and decode as documented, the id fits 128 bits and the secret is 32
  -- bytes, an issued credential, presented as it was shown to the operator, parses to its id and
  -- verifies against the MAC that was stored.
  pub issue_verifies :
      Encodes
      → (pepper : List ℕ) (fresh_id : ℕ) (random : List ℕ) → fresh_id < 2 ^ 128
      → All (λ b. b < 256) random
      → length random ≡ 32
      → (p : PresentedCredential) × (parse_presented crypto
            (issue crypto pepper fresh_id random).presented
          ≡ ok p)
        × (p.credential_id ≡ (issue crypto pepper fresh_id random).credential_id)
        × (verify crypto pepper p (issue crypto pepper fresh_id random).secret_mac ≡ true)
  unfolding issue verify compute_mac
  issue_verifies e pepper fresh_id random small octets width =
      let p : PresentedCredential = record { credential_id = fresh_id; secret = random } in
      (
        p,
        Spells-parse _ p (record {
          id_part = uuid_format fresh_id;
          secret_part = hex_encode random;
          parts = refl;
          id_plain = e.format_plain fresh_id small;
          id_len = e.format_len fresh_id small;
          id_value = e.format_parse fresh_id small;
          secret_len = e.encode_len random octets ∙ ap (λ n. 2 * n) width;
          secret_lower = e.encode_lower random octets;
          secret_value = e.encode_decode random octets;
          secret_width = width;
        }),
        refl,
        text_eq_refl (crypto.hmac_sha256 pepper random),
      )

  -- Two texts that the `uuid` crate reads as one id give two spellings of one credential: the
  -- format is not unique where the crate is not, as between upper and lower case digits of the id.
  pub parse_presented_spellings :
      (u v secret_part : List ℕ) (p : PresentedCredential)
      → uuid_parse u ≡ uuid_parse v
      → (length u ≡ 36) × (length v ≡ 36)
      → (count b'.' u ≡ 0) × (count b'.' v ≡ 0)
      → parse_presented crypto (u ++ (b'.' ∷ secret_part)) ≡ ok p
      → parse_presented crypto (v ++ (b'.' ∷ secret_part)) ≡ ok p
  unfolding parse_presented
  parse_presented_spellings u v x p same (len_u, len_v) (plain_u, plain_v) h =
      let (a, b, one, parts, id_len, id, secret_len, lower, bytes, width) = parse-ok _ p h in
      let cut = split_once-append b'.' u x plain_u in
      let pair : ◌≡◌ {A = Option (List ℕ × List ℕ)} (some (u, x)) (some (a, b)) = sym cut ∙ parts in
      let u_is : u ≡ a = ground arith in
      let x_is : x ≡ b = ground arith in
      Spells-parse _ p (record {
        id_part = v;
        secret_part = x;
        parts = refl;
        id_plain = plain_v;
        id_len = len_v;
        id_value = sym same ∙ ap uuid_parse u_is ∙ id;
        secret_len = ap length x_is ∙ secret_len;
        secret_lower = ap (all is_lower_hex) x_is ∙ lower;
        secret_value = ap hex_decode x_is ∙ bytes;
        secret_width = width;
      })
