-- ===== src/Credentials/Scope/Tokens.antt =====
-- The tokens that `parse` of src/credentials/scope.rs accepts, and how it classifies the others.
use mathlib.Core.List.{reverse, reverse-reverse, reverse-append}
use mathlib.Core.Path.{subst}
use aeon_iq_temp.Common.{
  ℕ, Bool, true, false, ◌∙◌, ap, none, Option-cases, is_empty, trim_start, List, [], ◌∷◌, ◌++◌,
  some, Text, text_eq, text_eq_refl, text_eq→eq, trim, any, All, find, is_ascii_uppercase,
  is_whitespace, ok, err, ok_or, Bool-cases, inl, inr, ◌≡◌, ◌≢◌, ◌↔◌, refl, sym, arith,
}
use aeon_iq_temp.Credentials.Scope.Grammar.{IsTokenChar, IsToken, is_well_formed-IsToken}
use aeon_iq_temp.Credentials.Scope.{
  Scope, recall_v2, memory_read, memory_write, memory_export, memory_history, admin, proxy_chat,
  canonical_scopes, as_str, unknown, split, is_segment, is_well_formed, parse,
}

-- Every canonical token parses to its scope.
pub parse-as_str : (s : Scope) → parse (as_str s) ≡ ok s
unfolding parse as_str is_well_formed split is_segment is_whitespace trim
parse-as_str recall_v2 = refl
parse-as_str memory_read = refl
parse-as_str memory_write = refl
parse-as_str memory_export = refl
parse-as_str memory_history = refl
parse-as_str admin = refl
parse-as_str proxy_chat = refl

find_sound {ℓ} : {A : Type ℓ} (p : A → Bool) (xs : List A) {x : A} → find p xs ≡ some x → p x ≡ true
find_sound p [] h = ground arith
find_sound p (y ∷ ys) h = elim (Bool-cases (p y)) [
  | inl e ↦ ground arith
  | inr e ↦ find_sound p ys (ground arith)
]

canonical_lookup :
    (raw : Text) (s : Scope)
    → find (λ s. text_eq (as_str s) raw) canonical_scopes ≡ some s
    → raw ≡ as_str s
canonical_lookup raw s h =
    sym (text_eq→eq (as_str s) raw (find_sound (λ s. text_eq (as_str s) raw) canonical_scopes h))

parse_sound : (raw : Text) (s : Scope) → parse raw ≡ ok s → raw ≡ as_str s
unfolding parse
parse_sound raw s h = canonical_lookup raw s (ground arith)

-- A token holds neither white space nor a capital.
token_char_lem :
    (c : ℕ) → IsTokenChar c → (is_whitespace c ≡ false) × (is_ascii_uppercase c ≡ false)
unfolding is_whitespace
token_char_lem c (inl h) = ground arith
token_char_lem c (inr h) = ground arith

abbrev IsPlain : ℕ → Type 0
IsPlain c = (is_whitespace c ≡ false) × (is_ascii_uppercase c ≡ false)

All-IsPlain : (s : Text) → All IsTokenChar s → All IsPlain s
All-IsPlain [] h = tt
All-IsPlain (c ∷ s) h = (token_char_lem c h.0, All-IsPlain s h.1)

All-append : (P : ℕ → Type 0) (a b : Text) → All P a → All P b → All P (a ++ b)
All-append P [] b h k = k
All-append P (c ∷ a) b h k = (h.0, All-append P a b h.1 k)

All-reverse : (P : ℕ → Type 0) (s : Text) → All P s → All P (reverse s)
All-reverse P [] h = tt
All-reverse P (c ∷ s) h =
    subst (All P) (sym (reverse-append (c ∷ []) s))
      (All-append P (reverse s) (c ∷ []) (All-reverse P s h.1) (h.0, tt))

trim_start_plain : (s : Text) → All IsPlain s → trim_start s ≡ s
trim_start_plain [] h = refl
trim_start_plain (c ∷ s) h = ground arith

trim_plain : (s : Text) → All IsPlain s → trim s ≡ s
unfolding trim
trim_plain s h =
    rw (trim_start_plain s h, trim_start_plain (reverse s) (All-reverse IsPlain s h))
      (reverse-reverse s)

no_uppercase : (s : Text) → All IsPlain s → any is_ascii_uppercase s ≡ false
no_uppercase [] h = refl
no_uppercase (c ∷ s) h = ground (arith, no_uppercase s h.1)

IsToken-IsPlain : (raw : Text) → IsToken raw → All IsPlain raw
unfolding is_whitespace
IsToken-IsPlain raw (inl h) = All-IsPlain raw h.1
IsToken-IsPlain raw (inr (a, b, e, ha, hb)) =
    subst (All IsPlain) (sym e)
      (All-append IsPlain a (b':' ∷ b) (All-IsPlain a ha.1) ((refl, refl), All-IsPlain b hb.1))

IsToken-ne-nil : (raw : Text) → IsToken raw → is_empty raw ≡ false
IsToken-ne-nil [] (inl h) = absurd (h.0 refl)
IsToken-ne-nil [] (inr ([], b, e, ha, hb)) = cc
IsToken-ne-nil [] (inr (c ∷ a, b, e, ha, hb)) = cc
IsToken-ne-nil (c ∷ s) h = refl

-- On a text of the grammar only the table decides.
parse_token :
    (raw : Text)
    → IsToken raw
    → parse raw ≡ ok_or (find (λ s. text_eq (as_str s) raw) canonical_scopes) (unknown raw)
unfolding parse
parse_token raw h =
    let plain = IsToken-IsPlain raw h in
    rw (
      IsToken-ne-nil raw h,
      trim_plain raw plain,
      text_eq_refl raw,
      no_uppercase raw plain,
      (is_well_formed-IsToken raw).1 h,
    )

find-none {ℓ} :
    {A : Type ℓ} (p : A → Bool) (xs : List A) → find p xs ≡ none → All (λ x. p x ≡ false) xs
find-none p [] h = tt
find-none p (y ∷ ys) h = (ground arith, find-none p ys (ground arith))

unknown-IsToken :
    (raw r : Text)
    → parse raw ≡ err (unknown r)
    → (r ≡ raw) × IsToken raw × (find (λ s. text_eq (as_str s) raw) canonical_scopes ≡ none)
unfolding parse
unknown-IsToken raw r h =
    (ground arith, (is_well_formed-IsToken raw).0 (ground arith), ground arith)

-- `parse` accepts exactly the seven canonical spellings, and it answers `Unknown` exactly for the
-- texts of the grammar `<resource>` or `<resource>:<action>` that are none of the seven.
pub parse_classifies :
    (raw : Text)
    → ((s : Scope) → (parse raw ≡ ok s) ↔ (raw ≡ as_str s))
      × ((parse raw ≡ err (unknown raw)) ↔ (IsToken raw × ((s : Scope) → raw ≢ as_str s)))
parse_classifies raw = (λ s. (parse_sound raw s, λ e. rw e (parse-as_str s)), (forth, back))
  where
    forth : parse raw ≡ err (unknown raw) → IsToken raw × ((s : Scope) → raw ≢ as_str s)
    forth h = (
      (unknown-IsToken raw raw h).1,
      λ s e. let found : parse raw ≡ ok s = rw e (parse-as_str s) in cc,
    )

    back : IsToken raw × ((s : Scope) → raw ≢ as_str s) → parse raw ≡ err (unknown raw)
    back (t, ne) = elim (Option-cases (find (λ s. text_eq (as_str s) raw) canonical_scopes)) [
      | inl miss ↦ parse_token raw t ∙ ap (λ o. ok_or o (unknown raw)) miss
      | inr (s, hit) ↦ absurd (ne s (canonical_lookup raw s hit))
    ]
