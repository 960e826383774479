-- ===== src/LogUtils/Slices.antt =====
-- When `truncate_for_log` of src/log_utils.rs returns, and what it lets through.
use aeon_iq_temp.Common.{
  ℕ, ◌+◌, ◌-◌, ◌<◌, ◌≤◌, true, false, [], ◌∷◌, ◌++◌, Option, none, some, Text, leb, ◌==◌, if_true,
  if_false, leb→le, Bool-cases, Option-cases, ◌≡◌, ◌⊎◌, refl, sym, ap, ◌∙◌, inl, inr, arith,
}
use aeon_iq_temp.LogUtils.{
  len_utf8, byte_len, cons_some, slice_to, whole, truncated, marked, truncate_for_log,
}

-- The text ends a character after `n` bytes, and this is the part up to there.
abbrev pub Cuts : ℕ → Text → Text → Type 0
Cuts n s kept = (byte_len kept ≡ n) × ((rest : Text) × (s ≡ kept ++ rest))

pub len_utf8-pos : (c : ℕ) → 1 ≤ len_utf8 c
len_utf8-pos c = ground arith

cons_some-some :
    (c : ℕ) (o : Option Text) (kept : Text)
    → cons_some c o ≡ some kept
    → (t : Text) × (o ≡ some t) × (c ∷ t ≡ kept)
cons_some-some c none kept h = absurd (cc)
cons_some-some c (some t) kept h = (t, refl, cc)

Cuts-nothing :
    (n : ℕ) (s kept : Text) → n ≡ 0 → ◌≡◌ {A = Option Text} (some []) (some kept) → Cuts n s kept
Cuts-nothing n s kept zero_ h = let this : [] ≡ kept = cc in rw (sym this) (sym zero_, (s, refl))

slice-Cuts : (n : ℕ) (s kept : Text) → slice_to n s ≡ some kept → Cuts n s kept
unfolding slice_to
slice-Cuts n [] kept h = elim (Bool-cases (n == 0)) [
  | inl at ↦ Cuts-nothing n [] kept (ground arith) (sym (if_true _ _ at) ∙ h)
  | inr before ↦ absurd (ground arith)
]
slice-Cuts n (c ∷ s) kept h = elim (Bool-cases (n == 0)) [
  | inl at ↦ Cuts-nothing n (c ∷ s) kept (ground arith) (sym (if_true _ _ at) ∙ h)
  | inr before ↦ elim (Bool-cases (leb (len_utf8 c) n)) [
    | inr over ↦ absurd (ground arith)
    | inl fits ↦
        let (t, sliced, this) =
          cons_some-some c (slice_to (n - len_utf8 c) s) kept
            (sym (if_false _ _ before ∙ if_true _ _ fits) ∙ h) in
        let (size, (rest, split)) = slice-Cuts (n - len_utf8 c) s t sliced in
        rw (sym this)
          (omega (arith, size, leb→le (len_utf8 c) n fits), (rest, ap (λ x. c ∷ x) split))
  ]
]

Cuts-slice : (n : ℕ) (s kept : Text) → Cuts n s kept → slice_to n s ≡ some kept
unfolding slice_to
Cuts-slice n [] [] (size, rest) = rw (sym size) refl
Cuts-slice n (c ∷ s) [] (size, rest) = rw (sym size) refl
Cuts-slice n [] (k ∷ kept) (size, (rest, split)) = absurd (cc)
Cuts-slice n (c ∷ s) (k ∷ kept) (size, (rest, split)) =
    let head : c ≡ k = cc in
    let tail : s ≡ kept ++ rest = cc in
    let pos = len_utf8-pos c in
    let size' : len_utf8 c + byte_len kept ≡ n = rw head size in
    let before : (n == 0) ≡ false = ground arith in
    let fits : leb (len_utf8 c) n ≡ true = ground arith in
    if_false _ _ before
    ∙ if_true _ _ fits
    ∙ ap (cons_some c) (Cuts-slice (n - len_utf8 c) s kept (omega arith, (rest, tail)))
    ∙ ap (λ x. some (x ∷ kept)) head

-- A body is logged whole if it has at most 200 bytes; a longer one is cut to its first 200 bytes,
-- with its full length; and the function panics exactly when a longer body has no character that
-- ends at byte 200.
pub truncate_for_log_lem :
    (body : Text)
    → ((byte_len body ≤ 200) × (truncate_for_log body ≡ some (whole body)))
      ⊎ ((200 < byte_len body)
          × (((kept : Text) × Cuts 200 body kept
                × (truncate_for_log body ≡ some (truncated kept (byte_len body))))
              ⊎ (((kept : Text) → ¬ Cuts 200 body kept) × (truncate_for_log body ≡ none))))
unfolding truncate_for_log
truncate_for_log_lem body = elim (Bool-cases (leb (byte_len body) 200)) [
  | inl short ↦ inl (leb→le _ _ short, if_true _ _ short)
  | inr long ↦ inr (
    ground arith,
    elim (Option-cases (slice_to 200 body)) [
      | inl panics ↦ inr (
        λ kept cuts. absurd (let cut = Cuts-slice 200 body kept cuts in cc),
        if_false _ _ long ∙ ap (marked (byte_len body)) panics,
      )
      | inr (kept, sliced) ↦ inl (
        kept,
        slice-Cuts 200 body kept sliced,
        if_false _ _ long ∙ ap (marked (byte_len body)) sliced,
      )
    ],
  )
]
