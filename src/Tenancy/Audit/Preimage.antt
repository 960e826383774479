-- ===== src/Tenancy/Audit/Preimage.antt =====
-- The framing of row pseudonyms in src/tenancy/audit.rs.
use mathlib.Core.Path.{ap₂}
use mathlib.Core.List.{append_assoc, append-nil}
use aeon_iq_temp.Common.{
  ◌&&◌, all_append, ℕ, zero, suc, ◌+◌, ◌-◌, ◌*◌, ◌/◌, ◌%◌, ◌<◌, Bool, true, not, [], ◌∷◌, ◌++◌,
  Text, all, ltb, ◌==◌, ◌≡◌, inl, inr, refl, sym, ap, ◌∙◌, arith, Bool-cases,
}
use aeon_iq_temp.LogUtils.{len_utf8, byte_len}
use aeon_iq_temp.LogUtils.Slices.{len_utf8-pos}
use aeon_iq_temp.Tenancy.Audit.Identifiers.{
  decimal_fuel, decimal, colon, frame, row_id_domain, row_id_preimage,
}

-- The number that digits stand for.
value_from : ℕ → Text → ℕ
value_from acc [] = acc
value_from acc (c ∷ s) = value_from (acc * 10 + (c - 48)) s

value_last :
    (acc c : ℕ) (s : Text) → value_from acc (s ++ c ∷ []) ≡ value_from acc s * 10 + (c - 48)
unfolding value_from
value_last acc c [] = refl
value_last acc c (x ∷ s) = value_last (acc * 10 + (x - 48)) c s

value_decimal_fuel : (fuel n : ℕ) → n < fuel → value_from 0 (decimal_fuel fuel n) ≡ n
unfolding value_from
value_decimal_fuel zero n h = absurd (omega arith)
value_decimal_fuel (suc fuel) n h = elim (Bool-cases (ltb n 10)) [
  | inl small ↦ rw small (ground arith)
  | inr large ↦
      let below = value_decimal_fuel fuel (n / 10) (ground arith) in
      rw large (value_last 0 (n % 10 + 48) (decimal_fuel fuel (n / 10)) ∙ ground arith)
]

value_decimal : (n : ℕ) → value_from 0 (decimal n) ≡ n
value_decimal n = value_decimal_fuel (suc n) n (omega arith)

abbrev is_plain : ℕ → Bool
is_plain c = not (c == colon)

decimal_fuel_plain : (fuel n : ℕ) → all is_plain (decimal_fuel fuel n) ≡ true
decimal_fuel_plain zero n = refl
decimal_fuel_plain (suc fuel) n =
    let below = decimal_fuel_plain fuel (n / 10) in
    elim (Bool-cases (ltb n 10)) [
      | inl small ↦ rw small (ground arith)
      | inr large ↦ rw large (
          all_append is_plain (decimal_fuel fuel (n / 10)) ((n % 10 + 48) ∷ [])
          ∙ ap₂ (◌&&◌) below (ground arith))
    ]

-- Texts without a colon, each ended by one, split their joins alike.
split_at_colon :
    (s t a b : Text)
    → all is_plain s ≡ true
    → all is_plain t ≡ true
    → s ++ colon ∷ a ≡ t ++ colon ∷ b
    → (s ≡ t) × (a ≡ b)
split_at_colon [] [] a b hs ht e = (refl, cc)
split_at_colon [] (d ∷ t) a b hs ht e = absurd (let e' : colon ≡ d = cc in ground arith)
split_at_colon (c ∷ s) [] a b hs ht e = absurd (let e' : c ≡ colon = cc in ground arith)
split_at_colon (c ∷ s) (d ∷ t) a b hs ht e =
    let head : c ≡ d = cc in
    let tail : s ++ colon ∷ a ≡ t ++ colon ∷ b = cc in
    let (same, rest) = split_at_colon s t a b (ground arith) (ground arith) tail in
    (ap₂ (◌∷◌) head same, rest)

-- Texts of one length in bytes split their joins alike.
split_by_length : (s t a b : Text) → byte_len s ≡ byte_len t → s ++ a ≡ t ++ b → (s ≡ t) × (a ≡ b)
split_by_length [] [] a b n e = (refl, e)
split_by_length [] (d ∷ t) a b n e = absurd (let pos = len_utf8-pos d in omega arith)
split_by_length (c ∷ s) [] a b n e = absurd (let pos = len_utf8-pos c in omega arith)
split_by_length (c ∷ s) (d ∷ t) a b n e =
    let head : c ≡ d = cc in
    let tail : s ++ a ≡ t ++ b = cc in
    let width = ap len_utf8 head in
    let (same, rest) = split_by_length s t a b (omega arith) tail in (ap₂ (◌∷◌) head same, rest)

frame_split : (s t a b : Text) → frame s ++ a ≡ frame t ++ b → (s ≡ t) × (a ≡ b)
unfolding frame
frame_split s t a b e =
    let regrouped =
      sym (append_assoc (decimal (byte_len s)) (colon ∷ s) a)
      ∙ e
      ∙ append_assoc (decimal (byte_len t)) (colon ∷ t) b in
    let (sizes, rest) =
      split_at_colon (decimal (byte_len s)) (decimal (byte_len t)) (s ++ a) (t ++ b)
        (decimal_fuel_plain (suc (byte_len s)) (byte_len s))
        (decimal_fuel_plain (suc (byte_len t)) (byte_len t)) regrouped in
    let size =
      sym (value_decimal (byte_len s)) ∙ ap (value_from 0) sizes ∙ value_decimal (byte_len t) in
    split_by_length s t a b size rest

-- Two rows of whatever tables have one preimage only when the tables and the keys are the same.
pub row_id_preimage_injective :
    (table raw table' raw' : Text)
    → row_id_preimage table raw ≡ row_id_preimage table' raw'
    → (table ≡ table') × (raw ≡ raw')
unfolding row_id_preimage
row_id_preimage_injective table raw table' raw' e =
    let (_, rest) =
      frame_split row_id_domain row_id_domain (frame table ++ frame raw)
        (frame table' ++ frame raw')
        (sym (append_assoc (frame row_id_domain) (frame table) (frame raw))
          ∙ e
          ∙ append_assoc (frame row_id_domain) (frame table') (frame raw')) in
    let (same, last) = frame_split table table' (frame raw) (frame raw') rest in
    let (keys, _) =
      frame_split raw raw' [] [] (append-nil (frame raw) ∙ last ∙ sym (append-nil (frame raw'))) in
    (same, keys)
