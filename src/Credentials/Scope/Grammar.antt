-- ===== src/Credentials/Scope/Grammar.antt =====
-- The grammar `<resource>` or `<resource>:<action>` of src/credentials/scope.rs, and that
-- `is_well_formed` decides it.

use aeon_iq_temp.Common.{
  ℕ, ◌≤◌, Bool, true, ◌||◌, List, [], ◌∷◌, ◌++◌, Text, all, All, is_ascii_lowercase, is_ascii_digit,
  ◌==◌, Bool-cases, inl, inr, ◌⊎◌, ◌≡◌, ◌≢◌, ◌↔◌, refl, sym, arith,
}
use aeon_iq_temp.Credentials.Scope.{
  cons_head, split, is_segment, well_formed_segments, is_well_formed,
}

-- A letter a to z, or a digit.
abbrev pub IsTokenChar : ℕ → Type 0
IsTokenChar c = ((b'a' ≤ c) × (c ≤ b'z')) ⊎ ((b'0' ≤ c) × (c ≤ b'9'))

abbrev pub IsSegment : Text → Type 0
IsSegment s = (s ≢ []) × All IsTokenChar s

-- `<resource>` or `<resource>:<action>`.
abbrev pub IsToken : Text → Type 0
IsToken raw =
    IsSegment raw ⊎ ((a : Text) × (b : Text) × (raw ≡ a ++ (b':' ∷ b)) × IsSegment a × IsSegment b)

abbrev is_token_char : ℕ → Bool
is_token_char c = is_ascii_lowercase c || is_ascii_digit c

all_token_chars : (s : Text) → (all is_token_char s ≡ true) ↔ All IsTokenChar s
all_token_chars [] = (λ h. tt, λ h. refl)
all_token_chars (c ∷ s) =
    let (forth, back) = all_token_chars s in
    (λ h. (ground arith, forth (ground arith)), λ h. ground (arith, back h.1))

is_segment_iff : (s : Text) → (is_segment s ≡ true) ↔ IsSegment s
unfolding is_segment
is_segment_iff [] = (λ h. absurd (cc), λ h. absurd (h.0 refl))
is_segment_iff (c ∷ s) =
    let (forth, back) = all_token_chars (c ∷ s) in
    (λ h. (λ e. cc, forth (ground arith)), λ h. ground (arith, back h.1))

-- Splitting and joining.
join : List Text → Text
join [] = []
join (a ∷ []) = a
join (a ∷ b ∷ r) = a ++ (b':' ∷ join (b ∷ r))

join-cons_head : (c : ℕ) (l : List Text) → l ≢ [] → join (cons_head c l) ≡ c ∷ join l
unfolding join cons_head
join-cons_head c [] h = absurd (h refl)
join-cons_head c (a ∷ []) h = refl
join-cons_head c (a ∷ b ∷ r) h = refl

join-nil_cons : (l : List Text) → l ≢ [] → join ([] ∷ l) ≡ b':' ∷ join l
unfolding join
join-nil_cons [] h = absurd (h refl)
join-nil_cons (a ∷ r) h = refl

split-ne-nil : (s : Text) → split b':' s ≢ []
unfolding split
split-ne-nil [] e = cc
split-ne-nil (c ∷ s) e = elim (Bool-cases (c == b':')) [
  | inl same ↦ ground arith
  | inr other ↦ go (split b':' s) (ground arith)
]
  where
    go : (l : List Text) → cons_head c l ≡ [] → ⊥
    go [] e = cc
    go (x ∷ xs) e = cc

join-split : (s : Text) → join (split b':' s) ≡ s
unfolding split
join-split [] = unfold join in refl
join-split (c ∷ s) = elim (Bool-cases (c == b':')) [
  | inl same ↦ rw same (rw (join-nil_cons _ (split-ne-nil s), join-split s) (ground arith))
  | inr other ↦ rw other (rw (join-cons_head c _ (split-ne-nil s), join-split s))
]

-- A segment holds no separator.
split-segment : (s : Text) → All IsTokenChar s → split b':' s ≡ s ∷ []
unfolding split
split-segment [] h = refl
split-segment (c ∷ s) h = ground (arith, split-segment s h.1)

split-append : (a b : Text) → All IsTokenChar a → split b':' (a ++ (b':' ∷ b)) ≡ a ∷ split b':' b
unfolding split
split-append [] b h = refl
split-append (c ∷ a) b h = ground (arith, split-append a b h.1)

IsToken-of_segments :
    (l : List Text) (raw : Text) → join l ≡ raw → well_formed_segments l ≡ true → IsToken raw
unfolding join well_formed_segments
IsToken-of_segments [] raw e h = absurd (cc)
IsToken-of_segments (a ∷ []) raw e h = inl (rw (← e) ((is_segment_iff a).0 h))
IsToken-of_segments (a ∷ b ∷ []) raw e h =
    inr (a, b, sym e, (is_segment_iff a).0 (ground arith), (is_segment_iff b).0 (ground arith))
IsToken-of_segments (a ∷ b ∷ c ∷ r) raw e h = absurd (cc)

-- The hand-written scanner decides exactly the grammar.
pub is_well_formed-IsToken : (raw : Text) → (is_well_formed raw ≡ true) ↔ IsToken raw
unfolding is_well_formed
is_well_formed-IsToken raw = (IsToken-of_segments (split b':' raw) raw (join-split raw), back)
  where
    back : IsToken raw → well_formed_segments (split b':' raw) ≡ true
    back (inl h) = rw (split-segment raw h.1) ((is_segment_iff raw).1 h)
    back (inr (a, b, e, ha, hb)) =
        rw (e, split-append a b ha.1, split-segment b hb.1)
          (ground (arith, (is_segment_iff a).1 ha, (is_segment_iff b).1 hb))
