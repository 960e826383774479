-- ===== src/RateLimit/Level.antt =====
-- What an agent of src/rate_limit.rs may still spend: a bound on its bucket as the next refill leaves
-- it, in units of a `fine`th part of the least step of `f64`.
use native.Mathlib.Nat.{mul-le-mul_right}
use aeon_iq_temp.Common.{
  ℕ, ◌+◌, ◌-◌, ◌*◌, ◌^◌, ◌≤◌, min, true, List, [], ◌∷◌, Option, none, some, Text, text_eq,
  text_eq_iff, ltb, leb→le, is_empty, if_true, if_false, Bool-cases, ◌≡◌, refl, sym, ap, ◌∙◌, inl,
  inr, arith,
}
use aeon_iq_temp.Common.TextMap
use aeon_iq_temp.RateLimit.F64.{one, of_u32, div, mul, add, round, as_secs_f64}
use aeon_iq_temp.RateLimit.F64.Gains.{gain_over}
use aeon_iq_temp.RateLimit.F64.Rounding.{round_whole}
use aeon_iq_temp.RateLimit.{
  Bucket, RateLimiter, Pass, is_stale, remove_found, remove_if_stale, stale_keys, remove_stale,
  evict_stale_buckets, entry_or_full, refilled,
}

abbrev pub fine : ℕ
fine = 60000000000 * 2 ^ 50

-- What a nanosecond may add at `rpm` requests a minute, with a 2^50th part for rounding.
unfoldable pub gain : ℕ → ℕ
gain rpm = (2 ^ 50 + 1) * (rpm * one)

abbrev pub level_of : ℕ → ℕ → ℕ → Option Bucket → ℕ
level_of rate cap t none = cap
level_of rate cap t (some b) = min (b.tokens * fine + (t - b.last_refill) * rate) cap

abbrev pub level : ℕ → Text → ℕ → RateLimiter → ℕ
level rate k t r = level_of rate (r.burst * fine) t (TextMap.lookup k r.buckets)

-- The limiter is enabled and has the rate and the burst that `with_ttl` gives it, and an idle bucket
-- is full again by the time it may be evicted.
pub record IsMade (rpm burst : ℕ) (r : RateLimiter) : Type 0 where
  pub enabled : r.enabled ≡ true
  pub rate : r.refill_rate ≡ div (of_u32 rpm) (of_u32 60)
  pub capacity : r.burst ≡ of_u32 burst
  pub in_time : burst * 60000000000 ≤ r.idle_ttl * rpm

-- What rounding may add in one call.
unfoldable pub slack : ℕ → ℕ
slack burst = 60000000000 * ((burst + 1) * one)

full_scaled :
    (burst ttl rpm b : ℕ)
    → burst * 60000000000 ≤ ttl * rpm
    → burst * b * fine ≤ ttl * ((2 ^ 50 + 1) * (rpm * b))
full_scaled burst ttl rpm b h =
    let scaled = mul-le-mul_right b h in
    let left : burst * 60000000000 * b ≡ 60000000000 * (burst * b) = grind arith in
    let right : ttl * ((2 ^ 50 + 1) * (rpm * b)) ≡ (2 ^ 50 + 1) * (ttl * rpm * b) = grind arith in
    omega arith

pub refills_in_time :
    (rpm burst : ℕ) (r : RateLimiter) → IsMade rpm burst r → r.burst * fine ≤ r.idle_ttl * gain rpm
unfolding of_u32 gain
refills_in_time rpm burst r made =
    rw made.capacity (full_scaled burst r.idle_ttl rpm one made.in_time)

module _ (rate cap ttl : ℕ) (full : cap ≤ ttl * rate) where
  stale-full :
      (now : ℕ) (b : Bucket) → is_stale now ttl b ≡ true → level_of rate cap now (some b) ≡ cap
  stale-full now b h = omega (arith, mul-le-mul_right rate (leb→le ttl (now - b.last_refill) h))

  level-remove_found :
      (now : ℕ) (j k : Text) (m : List (Text × Bucket)) (found : Option Bucket)
      → TextMap.lookup j m ≡ found
      → level_of rate cap now (TextMap.lookup k (remove_found now ttl j m found))
        ≡ level_of rate cap now (TextMap.lookup k m)
  unfolding remove_found
  level-remove_found now j k m none e = refl
  level-remove_found now j k m (some b) e = elim (Bool-cases (is_stale now ttl b)) [
    | inr fresh ↦ rw fresh refl
    | inl stale ↦ elim (Bool-cases (text_eq j k)) [
      | inl same ↦
          rw (stale, sym ((text_eq_iff j k).0 same), TextMap.lookup-remove_self j m, e)
            (sym (stale-full now b stale))
      | inr other ↦ rw (stale, TextMap.lookup-remove_other j k m other) refl
    ]
  ]

  level-remove_stale :
      (now : ℕ) (k : Text) (ks : List Text) (m : List (Text × Bucket))
      → level_of rate cap now (TextMap.lookup k (remove_stale now ttl ks m))
        ≡ level_of rate cap now (TextMap.lookup k m)
  unfolding remove_stale remove_if_stale
  level-remove_stale now k [] m = refl
  level-remove_stale now k (j ∷ ks) m =
      level-remove_stale now k ks (remove_found now ttl j m (TextMap.lookup j m))
      ∙ level-remove_found now j k m (TextMap.lookup j m) refl

-- A sweep takes nothing from an agent and gives it nothing.
pub level-evict :
    (rate : ℕ) (k : Text) (p : Pass) (r : RateLimiter)
    → r.burst * fine ≤ r.idle_ttl * rate
    → level rate k p.now (evict_stale_buckets p r) ≡ level rate k p.now r
unfolding evict_stale_buckets
level-evict rate k p r full = elim (Bool-cases (is_empty r.buckets)) [
  | inl empty ↦ ap (level rate k p.now) (if_true _ _ empty)
  | inr some_ ↦ elim (Bool-cases p.unlocked) [
    | inr locked ↦ ap (level rate k p.now) (if_false _ _ some_ ∙ if_false _ _ locked)
    | inl unlocked ↦ elim (Bool-cases (ltb (p.now - r.last_sweep) r.sweep_interval)) [
      | inl early ↦
          ap (level rate k p.now) (if_false _ _ some_ ∙ if_true _ _ unlocked ∙ if_true _ _ early)
      | inr due ↦
          ap (level rate k p.now) (if_false _ _ some_ ∙ if_true _ _ unlocked ∙ if_false _ _ due)
          ∙ level-remove_stale rate (r.burst * fine) r.idle_ttl full p.now k
              (stale_keys p.now r.idle_ttl p.order r.buckets) r.buckets
    ]
  ]
]

-- The configuration of the limiter, which no call changes.
pub record SameLimits (r r' : RateLimiter) : Type 0 where
  pub refill_rate : r'.refill_rate ≡ r.refill_rate
  pub burst : r'.burst ≡ r.burst
  pub enabled : r'.enabled ≡ r.enabled
  pub idle_ttl : r'.idle_ttl ≡ r.idle_ttl

abbrev pub same : {r : RateLimiter} → SameLimits r r
same = record { refill_rate = refl; burst = refl; enabled = refl; idle_ttl = refl }

pub evict-SameLimits : (p : Pass) (r : RateLimiter) → SameLimits r (evict_stale_buckets p r)
unfolding evict_stale_buckets
evict-SameLimits p r = elim (Bool-cases (is_empty r.buckets)) [
  | inl empty ↦ rw empty same
  | inr some_ ↦ elim (Bool-cases p.unlocked) [
    | inr locked ↦ rw (some_, locked) same
    | inl unlocked ↦ elim (Bool-cases (ltb (p.now - r.last_sweep) r.sweep_interval)) [
      | inl early ↦ rw (some_, unlocked, early) same
      | inr due ↦
          rw (some_, unlocked, due)
            (record { refill_rate = refl; burst = refl; enabled = refl; idle_ttl = refl })
    ]
  ]
]

refill_lem :
    (a tok p cap x : ℕ)
    → 2 ^ 53 * a ≤ (2 ^ 53 + 1) * (tok + p)
    → p * fine ≤ x + fine
    → min a cap * fine ≤ min (tok * fine + x) (cap * fine) + (fine + 7500000000 * cap)
refill_lem a tok p cap x ha hp = omega arith

capped : (a cap more : ℕ) → min a cap * fine ≤ cap * fine + more
capped a cap more = omega arith

capped_le : (a cap : ℕ) → min a cap ≤ cap
capped_le a cap = omega arith

-- A refilled bucket holds no more than the agent's level, but for rounding.
pub refilled_over :
    (rpm burst now : ℕ) (r : RateLimiter) (found : Option Bucket)
    → IsMade rpm burst r
    → (refilled now r (entry_or_full now r.burst found)).tokens * fine
      ≤ level_of (gain rpm) (r.burst * fine) now found + (fine + 7500000000 * r.burst)
unfolding refilled add gain
refilled_over rpm burst now r none made = capped _ r.burst (fine + 7500000000 * r.burst)
refilled_over rpm burst now r (some b) made =
    let since = now - b.last_refill in
    let p = mul (as_secs_f64 since) r.refill_rate in
    let gained : p * fine ≤ since * ((2 ^ 50 + 1) * (rpm * one)) + fine =
      rw made.rate (regrouped _ since one (gain_over since rpm)) in
    refill_lem (round (b.tokens + p) 1) b.tokens p r.burst (since * ((2 ^ 50 + 1) * (rpm * one)))
      (round_whole (b.tokens + p)) gained
  where
    regrouped :
        (p since b : ℕ)
        → p ≤ (2 ^ 50 + 1) * (since * (rpm * b)) + fine
        → p ≤ since * ((2 ^ 50 + 1) * (rpm * b)) + fine
    regrouped p since b h =
        let e : since * ((2 ^ 50 + 1) * (rpm * b)) ≡ (2 ^ 50 + 1) * (since * (rpm * b)) =
          grind arith in
        omega arith

pub refilled_bounded :
    (now : ℕ) (r : RateLimiter) (b : Bucket) → (refilled now r b).tokens ≤ r.burst
unfolding refilled
refilled_bounded now r b = capped_le _ r.burst

pub refilled_now : (now : ℕ) (r : RateLimiter) (b : Bucket) → (refilled now r b).last_refill ≡ now
unfolding refilled
refilled_now now r b = refl
