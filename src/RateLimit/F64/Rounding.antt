-- ===== src/RateLimit/F64/Rounding.antt =====
-- How far rounding to `f64` in src/rate_limit.rs may exceed the exact value.
use native.Mathlib.Nat.{div-add-mod, div-add-mod', add-mul, mul-le-mul_left, mul-le-mul_right}
use aeon_iq_temp.Common.{
  ℕ, zero, suc, ◌+◌, ◌*◌, ◌/◌, ◌%◌, ◌^◌, ◌≤◌, ◌<◌, Bool, true, false, ltb, Bool-cases, inl, inr,
  ◌⊎◌, ◌≡◌, refl, ap, ◌∙◌, arith,
}
use aeon_iq_temp.RateLimit.F64.{spacing, nearest, round}

-- The spacing is 1, or at most the 2^52nd part of the value.
spacing_small : (fuel q : ℕ) → (spacing fuel q ≡ 1) ⊎ (spacing fuel q * 2 ^ 52 ≤ q)
unfolding spacing
spacing_small zero q = inl refl
spacing_small (suc fuel) q = doubled (spacing_small fuel (q / 2)) (ltb q (2 ^ 53)) refl
  where
    doubled :
        (spacing fuel (q / 2) ≡ 1) ⊎ (spacing fuel (q / 2) * 2 ^ 52 ≤ q / 2)
        → (b : Bool) → ltb q (2 ^ 53) ≡ b
        → let s = elim b as (λ _. ℕ) [ true ↦ 1 | false ↦ 2 * spacing fuel (q / 2) ] in
          (s ≡ 1) ⊎ (s * 2 ^ 52 ≤ q)
    doubled below true low = inl refl
    doubled below false high =
        let large : 2 ^ 53 ≤ q = ground arith in
        elim below [ inl unit ↦ inr (omega arith) | inr half ↦ inr (omega arith) ]

nearest_over : (m left w : ℕ) → 2 * (nearest m left w * w) ≤ 2 * (m * w + left) + w
nearest_over m left w = elim (Bool-cases (ltb (2 * left) w)) [
  | inl below ↦ rw below (omega arith)
  | inr least ↦ elim (Bool-cases (ltb w (2 * left))) [
    | inl above ↦
        rw (least, above) (let more : w < 2 * left = ground arith in omega (arith, add-mul m 1 w))
    | inr tie ↦
        rw (least, tie)
          (let half : w ≤ 2 * left = ground arith in
            let bit : m % 2 ≤ 1 = omega arith in
            omega (arith, add-mul m (m % 2) w, mul-le-mul_right w bit))
  ]
]

-- A rounded quotient exceeds it by at most half a spacing.
round_over :
    (n d : ℕ) → (s : ℕ) × (2 * (round n d * d) ≤ 2 * n + d * s) × ((s ≡ 1) ⊎ (s * 2 ^ 52 ≤ n / d))
unfolding round
round_over n d =
    let s = spacing 4096 (n / d) in
    let w = d * s in
    let k = nearest (n / w) (n % w) w in
    (
      s,
      combined (n / w * w) (n % w) n (k * w) (k * s * d) w (div-add-mod' n w)
          (nearest_over (n / w) (n % w) w) (regrouped k s d),
      spacing_small 4096 (n / d),
    )
  where
    combined :
        (a left n over x w : ℕ)
        → a + left ≡ n
        → 2 * over ≤ 2 * (a + left) + w
        → x ≡ over
        → 2 * x ≤ 2 * n + w
    combined a left n over x w whole bound same = omega arith

    regrouped : (k s d : ℕ) → k * s * d ≡ k * (d * s)
    regrouped k s d = grind arith

-- Nowhere by more than a 2^53rd part and one step.
pub round_near : (n d : ℕ) → 2 ^ 53 * (round n d * d) ≤ (2 ^ 53 + 1) * n + 2 ^ 52 * d
round_near n d =
    let (s, over, small) = round_over n d in
    elim small [
      | inl unit ↦ let e : d * s ≡ d = ap (λ x. d * x) unit ∙ (omega arith) in omega arith
      | inr wide ↦
          let scaled : d * (s * 2 ^ 52) ≤ d * (n / d) = mul-le-mul_left d wide in
          let fits : d * (n / d) ≤ n = omega (arith, div-add-mod n d) in
          let e : d * (s * 2 ^ 52) ≡ 2 ^ 52 * (d * s) = grind arith in omega arith
    ]

-- Above the least spacing by no more than a 2^53rd part.
pub round_normal : (n d : ℕ) → d * 2 ^ 52 ≤ n → 2 ^ 53 * (round n d * d) ≤ (2 ^ 53 + 1) * n
round_normal n d large =
    let (s, over, small) = round_over n d in
    elim small [
      | inl unit ↦ let e : d * s ≡ d = ap (λ x. d * x) unit ∙ (omega arith) in omega arith
      | inr wide ↦
          let scaled : d * (s * 2 ^ 52) ≤ d * (n / d) = mul-le-mul_left d wide in
          let fits : d * (n / d) ≤ n = omega (arith, div-add-mod n d) in
          let e : d * (s * 2 ^ 52) ≡ 2 ^ 52 * (d * s) = grind arith in omega arith
    ]

-- A sum or a difference exceeds the exact one by no more than a 2^53rd part.
pub round_whole : (n : ℕ) → 2 ^ 53 * round n 1 ≤ (2 ^ 53 + 1) * n
round_whole n =
    let (s, over, small) = round_over n 1 in
    let whole : n / 1 ≤ n = omega (arith, div-add-mod n 1) in
    elim small [ inl unit ↦ omega arith | inr wide ↦ omega arith ]

pub zero_or_more : (n : ℕ) → (n ≡ 0) ⊎ (1 ≤ n)
zero_or_more zero = inl refl
zero_or_more (suc n) = inr (omega arith)

pub round_zero : (d : ℕ) → 0 < d → round 0 d ≡ 0
round_zero d proper =
    let (s, over, small) = round_over 0 d in
    elim (zero_or_more (round 0 d)) [
      | inl none_ ↦ none_
      | inr some_ ↦
          let least : 1 * d ≤ round 0 d * d = mul-le-mul_right d some_ in
          let narrow : d * s ≤ d * 1 = mul-le-mul_left d (elim small [
            | inl unit ↦ omega arith
            | inr wide ↦
                let z : d * (0 / d) ≤ 0 = omega (arith, div-add-mod 0 d) in
                let least' : 1 * (0 / d) ≤ d * (0 / d) = mul-le-mul_right (0 / d) (omega arith) in
                omega arith
          ]) in
          absurd (omega arith)
    ]
