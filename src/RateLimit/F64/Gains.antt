-- ===== src/RateLimit/F64/Gains.antt =====
-- How much the time since the last call adds to a bucket in src/rate_limit.rs, at most.
use native.Mathlib.Nat.{mul-le-mul, le_of_mul-le-mul_right, mul-le-mul_right}
use aeon_iq_temp.Common.{ℕ, ◌+◌, ◌*◌, ◌/◌, ◌%◌, ◌^◌, ◌≤◌, ◌<◌, inl, inr, ◌≡◌, ap, ◌∙◌, arith}
use aeon_iq_temp.RateLimit.F64.{one, round, of_u32, of_u64, add, mul, div, as_secs_f64}
use aeon_iq_temp.RateLimit.F64.Rounding.{
  round_whole, round_near, round_normal, round_zero, zero_or_more,
}

pub one_large : 2 ^ 1000 ≤ one
unfolding one
one_large = omega arith

-- the quotient of two values, over their common unit
quotient_scaled :
    (b x y r : ℕ)
    → 0 < b
    → 2 ^ 53 * (r * (y * b)) ≤ (2 ^ 53 + 1) * (x * b * b)
    → 2 ^ 53 * (r * y) ≤ (2 ^ 53 + 1) * (x * b)
quotient_scaled b x y r proper h =
    let left : 2 ^ 53 * (r * (y * b)) ≡ 2 ^ 53 * (r * y) * b = grind arith in
    let right : (2 ^ 53 + 1) * (x * b * b) ≡ (2 ^ 53 + 1) * (x * b) * b = grind arith in
    le_of_mul-le-mul_right (omega arith) proper

quotient_large : (b x y : ℕ) → 1 ≤ x → y * 2 ^ 52 ≤ b → y * b * 2 ^ 52 ≤ x * b * b
quotient_large b x y some_ small =
    let one_more : y * 2 ^ 52 * b ≤ b * b = mul-le-mul_right b small in
    let more : 1 * (b * b) ≤ x * (b * b) = mul-le-mul_right (b * b) some_ in
    let regroup : y * b * 2 ^ 52 ≡ y * 2 ^ 52 * b = grind arith in
    let regroup' : x * b * b ≡ x * (b * b) = grind arith in omega arith

none_over : (r d bound : ℕ) → r ≡ 0 → 2 ^ 53 * (r * d) ≤ bound
none_over r d bound none_ = let e : r * d ≡ 0 = ap (λ i. i * d) none_ ∙ omega arith in omega arith

pub div_over :
    (x y : ℕ)
    → 0 < y
    → y * 2 ^ 52 ≤ 2 ^ 1000
    → 2 ^ 53 * (div (of_u32 x) (of_u32 y) * y) ≤ (2 ^ 53 + 1) * (x * one)
unfolding div of_u32
div_over x y proper small =
    let unit : 0 < one = omega (arith, one_large) in
    quotient_scaled one x y (round (x * one * one) (y * one)) unit (elim (zero_or_more x) [
      | inr some_ ↦
          round_normal (x * one * one) (y * one)
            (quotient_large one x y some_ (omega (arith, one_large)))
      | inl none_ ↦
          let vanishes : x * one * one ≡ 0 = ap (λ i. i * one * one) none_ ∙ omega arith in
          let size : 1 * one ≤ y * one = mul-le-mul_right one proper in
          let nothing = ap (λ n. round n (y * one)) vanishes ∙ round_zero (y * one) (omega arith) in
          none_over (round (x * one * one) (y * one)) (y * one) _ nothing
    ])

time_over :
    (s n a x y : ℕ)
    → 2 ^ 53 * s ≤ (2 ^ 53 + 1) * x
    → 2 ^ 53 * (n * 1000000000) ≤ (2 ^ 53 + 1) * y
    → 2 ^ 53 * a ≤ (2 ^ 53 + 1) * (s + n)
    → 1000000000 * 2 ^ 106 * a ≤ (2 ^ 53 + 1) ^ 2 * (x * 1000000000 + y)
time_over s n a x y hs hn ha = omega arith

-- The seconds of a duration in nanoseconds.
pub as_secs_over :
    (nanos : ℕ) → 1000000000 * 2 ^ 106 * as_secs_f64 nanos ≤ (2 ^ 53 + 1) ^ 2 * (nanos * one)
unfolding as_secs_f64 add of_u64
as_secs_over nanos =
    let secs = nanos / 1000000000 in
    let rest = nanos % 1000000000 in
    let s = of_u64 secs in
    let n = div (of_u32 rest) (of_u32 1000000000) in
    let whole : secs * 1000000000 + rest ≡ nanos = omega arith in
    let parts : secs * one * 1000000000 + rest * one ≡ nanos * one =
      spread secs rest nanos one whole in
    let bound =
      time_over s n (round (s + n) 1) (secs * one) (rest * one) (round_whole (secs * one))
        (div_over rest 1000000000 (omega arith) (omega arith)) (round_whole (s + n)) in
    scaled (as_secs_f64 nanos) _ _ parts bound
  where
    scaled :
        (a x y : ℕ)
        → x ≡ y
        → 1000000000 * 2 ^ 106 * a ≤ (2 ^ 53 + 1) ^ 2 * x
        → 1000000000 * 2 ^ 106 * a ≤ (2 ^ 53 + 1) ^ 2 * y
    scaled a x y same h = omega arith

    spread :
        (secs rest nanos b : ℕ)
        → secs * 1000000000 + rest ≡ nanos
        → secs * b * 1000000000 + rest * b ≡ nanos * b
    spread secs rest nanos b whole = (grind arith) ∙ ap (λ z. z * b) whole

-- The product of the two bounds, over the common unit `b`.
gain_lem :
    (a r p b time rate : ℕ)
    → 0 < b
    → 1000000000 * 2 ^ 106 * a ≤ (2 ^ 53 + 1) ^ 2 * (time * b)
    → 2 ^ 53 * (r * 60) ≤ (2 ^ 53 + 1) * (rate * b)
    → 2 ^ 53 * (p * b) ≤ (2 ^ 53 + 1) * (a * r) + 2 ^ 52 * b
    → p * (60000000000 * 2 ^ 50) ≤ (2 ^ 50 + 1) * (time * (rate * b)) + 60000000000 * 2 ^ 50
gain_lem a r p b time rate proper ha hr hp =
    let both = mul-le-mul ha hr in
    let left : 1000000000 * 2 ^ 106 * a * (2 ^ 53 * (r * 60)) ≡ 60000000000 * 2 ^ 159 * (a * r) =
      grind arith in
    let right : (2 ^ 53 + 1) ^ 2 * (time * b) * ((2 ^ 53 + 1) * (rate * b))
        ≡ (2 ^ 53 + 1) ^ 3 * (time * (rate * b) * b) =
      grind arith in
    let scaled : (60000000000 * 2 ^ 212 * p) * b
        ≤ ((2 ^ 53 + 1) ^ 4 * (time * (rate * b)) + 60000000000 * 2 ^ 212) * b =
      gathered (a * r) (p * b) (time * (rate * b) * b) b _ _ (omega arith) hp (grind arith)
        (grind arith) in
    let over = le_of_mul-le-mul_right scaled proper in omega arith
  where
    gathered :
        (ar pb xb b l r : ℕ)
        → 60000000000 * 2 ^ 159 * ar ≤ (2 ^ 53 + 1) ^ 3 * xb
        → 2 ^ 53 * pb ≤ (2 ^ 53 + 1) * ar + 2 ^ 52 * b
        → l ≡ 60000000000 * 2 ^ 212 * pb
        → r ≡ (2 ^ 53 + 1) ^ 4 * xb + 60000000000 * 2 ^ 212 * b
        → l ≤ r
    gathered ar pb xb b l r h hp el er = omega arith

-- What a bucket gains over a time, as the source computes it.
pub gain_over :
    (nanos rpm : ℕ)
    → mul (as_secs_f64 nanos) (div (of_u32 rpm) (of_u32 60)) * (60000000000 * 2 ^ 50)
      ≤ (2 ^ 50 + 1) * (nanos * (rpm * one)) + 60000000000 * 2 ^ 50
unfolding mul
gain_over nanos rpm =
    let a = as_secs_f64 nanos in
    let r = div (of_u32 rpm) (of_u32 60) in
    gain_lem a r (round (a * r) one) one nanos rpm (omega (arith, one_large)) (as_secs_over nanos)
      (div_over rpm 60 (omega arith) (omega arith)) (round_near (a * r) one)
