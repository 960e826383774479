-- ===== src/RateLimit/F64.antt =====
-- The `f64` of src/rate_limit.rs: a value that is neither negative, infinite nor NaN, as a multiple of
-- 2^-1074, and its operations, which round to the nearest such value with 53 bits, ties to even.
use aeon_iq_temp.Common.{
  ℕ, zero, suc, ◌+◌, ◌-◌, ◌*◌, ◌/◌, ◌%◌, ◌^◌, Bool, true, false, ltb, if◌then◌else◌,
}
pub mod Rounding
pub mod Gains
pub mod Exact

-- 1.0
unfoldable pub one : ℕ
one = 2 ^ 1074

-- The distance of the values next to a whole part `q`; the fuel is enough below 2^4149.
unfoldable pub spacing : ℕ → ℕ → ℕ
spacing zero q = 1
spacing (suc fuel) q = elim (ltb q (2 ^ 53)) [ true ↦ 1 | false ↦ 2 * spacing fuel (q / 2) ]

-- how many spacings, from those below and what is left of `w`
abbrev pub nearest : ℕ → ℕ → ℕ → ℕ
nearest m left w = if ltb (2 * left) w then m else if ltb w (2 * left) then m + 1 else m + m % 2

-- The value nearest to `n / d`.
unfoldable pub round : ℕ → ℕ → ℕ
unfolding spacing
round n d = let s = spacing 4096 (n / d) in nearest (n / (d * s)) (n % (d * s)) (d * s) * s

-- `x as f64` of a `u32`, and of a `u64`
unfoldable pub of_u32 : ℕ → ℕ
unfolding one
of_u32 n = n * one

unfoldable pub of_u64 : ℕ → ℕ
unfolding one round
of_u64 n = round (n * one) 1

unfoldable pub add : ℕ → ℕ → ℕ
unfolding round
add x y = round (x + y) 1

-- of a value and one that is not larger
unfoldable pub sub : ℕ → ℕ → ℕ
unfolding round
sub x y = round (x - y) 1

unfoldable pub mul : ℕ → ℕ → ℕ
unfolding round one
mul x y = round (x * y) one

unfoldable pub div : ℕ → ℕ → ℕ
unfolding round one
div x y = round (x * one) y

-- `Duration::as_secs_f64`, of nanoseconds
unfoldable pub as_secs_f64 : ℕ → ℕ
unfolding of_u64 of_u32 add div
as_secs_f64 nanos =
    add (of_u64 (nanos / 1000000000)) (div (of_u32 (nanos % 1000000000)) (of_u32 1000000000))
