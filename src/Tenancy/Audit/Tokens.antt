-- ===== src/Tenancy/Audit/Tokens.antt =====
-- What the identifiers and literals of src/tenancy/audit.rs are to the reader of a query.
use mathlib.Core.Path.{ap₂}
use aeon_iq_temp.Common.{
  ℕ, ◌≤◌, Bool, true, false, ◌&&◌, [], ◌∷◌, ◌++◌, Option, none, some, Text, ok, guard, all, leb,
  leb→le, ◌==◌, if◌then◌else◌, ◌≡◌, inl, inr, sym, ap, ◌∙◌, arith, Bool-cases, bind-ok, guard-ok,
  if_true, if_false, ==_refl, ==_iff,
}
use aeon_iq_temp.LogUtils.{byte_len}
use aeon_iq_temp.Tenancy.Audit.Identifiers.{
  UnsafeIdentifier, is_first_char, is_later_char, quote, apostrophe, new_identifier, escape,
  sql_literal,
}

abbrev pub with_head : ℕ → Option (Text × Text) → Option (Text × Text)
with_head c none = none
with_head c (some (s, rest)) = some (c ∷ s, rest)

-- A quoted token as SQL reads it, past its opening delimiter: a delimiter that is doubled stands
-- for one, and one that is not ends the token.
unfoldable pub read_body : ℕ → Text → Option (Text × Text)
read_body d [] = none
read_body d (c ∷ []) = if c == d then some ([], []) else none
read_body d (c ∷ c' ∷ s) =
    let doubled = with_head c (read_body d s) in
    let plain = with_head c (read_body d (c' ∷ s)) in
    if c == d then (if c' == d then doubled else some ([], c' ∷ s)) else plain

unfoldable pub read_token : ℕ → Text → Option (Text × Text)
unfolding read_body
read_token d [] = none
read_token d (c ∷ s) = if c == d then read_body d s else none

abbrev pub starts_with : ℕ → Text → Bool
starts_with d [] = false
starts_with d (c ∷ s) = c == d

read_end :
    (d : ℕ) (rest : Text) → starts_with d rest ≡ false → read_body d (d ∷ rest) ≡ some ([], rest)
unfolding read_body
read_end d [] h = if_true _ _ (==_refl d)
read_end d (c ∷ rest) h = if_true _ _ (==_refl d) ∙ if_false _ _ h

read_plain :
    (d c : ℕ) (s : Text) → (c == d) ≡ false → read_body d (c ∷ s) ≡ with_head c (read_body d s)
unfolding read_body
read_plain d c [] h = if_false _ _ h
read_plain d c (x ∷ s) h = if_false _ _ h

read_doubled : (d : ℕ) (s : Text) → read_body d (d ∷ d ∷ s) ≡ with_head d (read_body d s)
unfolding read_body
read_doubled d s = if_true _ _ (==_refl d) ∙ if_true _ _ (==_refl d)

read_escaped :
    (value rest : Text)
    → starts_with apostrophe rest ≡ false
    → read_body apostrophe ((escape value ++ apostrophe ∷ []) ++ rest) ≡ some (value, rest)
read_escaped [] rest h = read_end apostrophe rest h
read_escaped (c ∷ value) rest h =
    let tail = (escape value ++ apostrophe ∷ []) ++ rest in
    let below = read_escaped value rest h in
    elim (Bool-cases (c == apostrophe)) [
      | inl special ↦
          let key = (==_iff c apostrophe).0 special in
          ap (λ w. read_body apostrophe (((w ++ escape value) ++ apostrophe ∷ []) ++ rest))
            (if_true (c ∷ c ∷ []) (c ∷ []) special)
          ∙ ap (λ x. read_body apostrophe (x ∷ x ∷ tail)) key
          ∙ read_doubled apostrophe tail
          ∙ ap (with_head apostrophe) below
          ∙ ap (λ x. some (x ∷ value, rest)) (sym key)
      | inr ordinary ↦
          ap (λ w. read_body apostrophe (((w ++ escape value) ++ apostrophe ∷ []) ++ rest))
            (if_false (c ∷ c ∷ []) (c ∷ []) ordinary)
          ∙ read_plain apostrophe c tail ordinary
          ∙ ap (with_head c) below
    ]

-- A literal stands in a query as one token, and reads back as its value, whatever the value is, as
-- long as no apostrophe follows it.
pub sql_literal_reads :
    (value rest : Text)
    → starts_with apostrophe rest ≡ false
    → read_token apostrophe (sql_literal value ++ rest) ≡ some (value, rest)
unfolding read_token sql_literal
sql_literal_reads value rest h = if_true _ none (==_refl apostrophe) ∙ read_escaped value rest h

read_unescaped :
    (raw rest : Text)
    → all is_later_char raw ≡ true
    → starts_with quote rest ≡ false
    → read_body quote ((raw ++ quote ∷ []) ++ rest) ≡ some (raw, rest)
read_unescaped [] rest plain h = read_end quote rest h
read_unescaped (c ∷ raw) rest plain h =
    read_plain quote c ((raw ++ quote ∷ []) ++ rest) (ground arith)
    ∙ ap (with_head c) (read_unescaped raw rest (ground arith) h)

later_of_first : (c : ℕ) → is_first_char c ≡ true → is_later_char c ≡ true
later_of_first c h = ground arith

-- A text that is accepted as an identifier is all of lowercase letters, digits and underscores, is
-- of at most 63 bytes, and stands in a query as one quoted token that reads back as the text.
pub new_identifier_reads :
    (raw identifier : Text)
    → new_identifier raw ≡ ok identifier
    → (all is_later_char raw ≡ true)
      × (byte_len raw ≤ 63)
      × ((rest : Text)
          → starts_with quote rest ≡ false
          → read_token quote (identifier ++ rest) ≡ some (raw, rest))
unfolding new_identifier read_token
new_identifier_reads [] identifier h = absurd (cc)
new_identifier_reads (first ∷ later) identifier h =
    let (_, g1, h1) =
      bind-ok (guard (is_first_char first) UnsafeIdentifier.bad_first) _ identifier h in
    let (_, g2, h2) =
      bind-ok (guard (all is_later_char later) UnsafeIdentifier.bad_char) _ identifier h1 in
    let (_, g3, h3) =
      bind-ok (guard (leb (byte_len (first ∷ later)) 63) UnsafeIdentifier.too_long) _ identifier
        h2 in
    let head = guard-ok (is_first_char first) UnsafeIdentifier.bad_first tt g1 in
    let tail = guard-ok (all is_later_char later) UnsafeIdentifier.bad_char tt g2 in
    let short = guard-ok (leb (byte_len (first ∷ later)) 63) UnsafeIdentifier.too_long tt g3 in
    let plain : all is_later_char (first ∷ later) ≡ true =
      ap₂ (◌&&◌) (later_of_first first head) tail in
    let shape : identifier ≡ quote ∷ ((first ∷ later) ++ quote ∷ []) = cc in
    (
      plain,
      leb→le (byte_len (first ∷ later)) 63 short,
      λ rest quiet.
          ap (λ t. read_token quote (t ++ rest)) shape
          ∙ if_true _ none (==_refl quote)
          ∙ read_unescaped (first ∷ later) rest plain quiet,
    )
