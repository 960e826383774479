-- ===== src/RateLimit/F64/Exact.antt =====
-- Where `f64` in src/rate_limit.rs does not round: whole numbers, and a time of nothing.
use mathlib.Core.Path.{ap₂, subst}
use native.Mathlib.Nat.{
  two-pow-succ, div-le_self, add-mul, mul-mod_left, mul-div_cancel, mul-le-mul_right,
}
use aeon_iq_temp.Common.{
  ℕ, zero, suc, ◌+◌, ◌*◌, ◌/◌, ◌%◌, ◌^◌, ◌≤◌, ◌<◌, Bool, true, false, ltb, inl, inr, ◌≡◌, refl, sym,
  ap, ◌∙◌, arith,
}
use aeon_iq_temp.RateLimit.F64.{
  one, spacing, nearest, round, of_u32, of_u64, add, mul, div, as_secs_f64,
}
use aeon_iq_temp.RateLimit.F64.Rounding.{round_zero, zero_or_more}
use aeon_iq_temp.RateLimit.F64.Gains.{one_large}

-- The spacing of a value below 2^53 units of 2^e divides that unit.
spacing_divides : (fuel e q : ℕ) → q < 2 ^ 53 * 2 ^ e → (c : ℕ) × (c * spacing fuel q ≡ 2 ^ e)
unfolding spacing
spacing_divides zero e q h = (2 ^ e, omega arith)
spacing_divides (suc fuel) zero q h =
    let low : ltb q (2 ^ 53) ≡ true = ground arith in (1, rw (low, spacing) refl)
spacing_divides (suc fuel) (suc e) q h =
    let unit = two-pow-succ e in
    let (c, whole) = spacing_divides fuel e (q / 2) (omega arith) in halved c (ltb q (2 ^ 53)) whole
  where
    halved :
        (c : ℕ) (b : Bool)
        → c * spacing fuel (q / 2) ≡ 2 ^ e
        → (d : ℕ) × (d * elim b as (λ _. ℕ) [ true ↦ 1 | false ↦ 2 * spacing fuel (q / 2) ]
            ≡ 2 ^ suc e)
    halved c true whole = (2 ^ suc e, omega arith)
    halved c false whole =
        let regroup : c * (2 * spacing fuel (q / 2)) ≡ 2 * (c * spacing fuel (q / 2)) =
          grind arith in
        let unit = two-pow-succ e in (c, omega arith)

nearest_exact : (m w : ℕ) → 0 < w → nearest m 0 w ≡ m
nearest_exact m w proper = let below : ltb (2 * 0) w ≡ true = ground arith in rw below refl

round_at : (n s a : ℕ) → n ≡ a * s → 0 < s → nearest (n / (1 * s)) (n % (1 * s)) (1 * s) * s ≡ n
round_at n s a parts proper =
    let unit : 1 * s ≡ s = omega arith in
    let quotient : n / (1 * s) ≡ a = ap₂ (◌/◌) parts unit ∙ mul-div_cancel a proper in
    let rest : n % (1 * s) ≡ 0 = ap₂ (◌%◌) parts unit ∙ mul-mod_left a s in
    rw (quotient, rest, unit, nearest_exact a s proper) (sym parts)

one_is : one ≡ 2 ^ 1074
unfolding one
one_is = refl

within : (m q : ℕ) → m < 2 ^ 53 → q ≤ m * one → q < 2 ^ 53 * 2 ^ 1074
within m q small h =
    let step : (m + 1) * one ≤ 2 ^ 53 * one = mul-le-mul_right one (omega arith) in
    let split = add-mul m 1 one in
    let strict : q < 2 ^ 53 * one = omega (arith, one_large) in
    subst (λ u. q < 2 ^ 53 * u) one_is strict

-- A whole number of fewer than 54 bits is a value.
pub round_exact : (m : ℕ) → m < 2 ^ 53 → round (m * one) 1 ≡ m * one
unfolding round
round_exact m small =
    let n = m * one in
    let s = spacing 4096 (n / 1) in
    let (c, whole) = spacing_divides 4096 1074 (n / 1) (within m (n / 1) small (div-le_self n 1)) in
    round_at n s (m * c) (regrouped m c s (whole ∙ sym one_is)) (proper c s (whole ∙ sym one_is))
  where
    regrouped : (m c s : ℕ) → c * s ≡ one → m * one ≡ m * c * s
    regrouped m c s whole = ap (λ x. m * x) (sym whole) ∙ (grind arith)

    proper : (c s : ℕ) → c * s ≡ one → 0 < s
    proper c s whole = elim (zero_or_more s) [
      | inr some_ ↦ omega arith
      | inl none_ ↦
          let nothing : c * s ≡ 0 = ap (λ x. c * x) none_ ∙ omega arith in
          absurd (omega (arith, one_large))
    ]

none_left : (n d : ℕ) → n ≡ 0 → 0 < d → round n d ≡ 0
none_left n d empty proper = ap (λ n. round n d) empty ∙ round_zero d proper

pub no_time : as_secs_f64 0 ≡ 0
unfolding as_secs_f64 of_u64 of_u32 div add
no_time = refl

pub no_gain : (rate : ℕ) → mul (as_secs_f64 0) rate ≡ 0
unfolding mul
no_gain rate =
    none_left (as_secs_f64 0 * rate) one (ap (λ x. x * rate) no_time ∙ omega arith)
      (omega (arith, one_large))
