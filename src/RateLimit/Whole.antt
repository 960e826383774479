-- ===== src/RateLimit/Whole.antt =====
-- A bucket of whole tokens in src/rate_limit.rs: what a sweep, a refill at once and a call make of it.
use mathlib.Core.Path.{ap₂}
use native.Mathlib.Nat.{mul-le-mul_right, add-mul}
use aeon_iq_temp.Common.{
  ℕ, zero, suc, ◌+◌, ◌-◌, ◌*◌, ◌^◌, ◌≤◌, ◌<◌, min, true, false, List, [], ◌∷◌, Option, none, some,
  Text, text_eq, text_eq_iff, leb, ltb, is_empty, Bool-cases, ◌≡◌, ◌⊎◌, refl, sym, ap, ◌∙◌, inl,
  inr, arith,
}
use aeon_iq_temp.Common.TextMap
use aeon_iq_temp.RateLimit.F64.{one, of_u32, add, mul, sub, round, as_secs_f64}
use aeon_iq_temp.RateLimit.F64.Exact.{round_exact, no_gain}
use aeon_iq_temp.RateLimit.F64.Gains.{one_large}
use aeon_iq_temp.RateLimit.{
  Bucket, RateLimiter, Pass, is_stale, found_stale, remove_found, remove_if_stale, stale_keys,
  remove_stale, evict_stale_buckets, entry_or_full, refilled, consume,
}

kept_found :
    (now ttl : ℕ) (j k : Text) (m : List (Text × Bucket)) (found : Option Bucket)
    → TextMap.lookup j m ≡ found
    → found_stale now ttl (TextMap.lookup k m) ≡ false
    → TextMap.lookup k (remove_found now ttl j m found) ≡ TextMap.lookup k m
unfolding remove_found found_stale
kept_found now ttl j k m none e young = refl
kept_found now ttl j k m (some b) e young = elim (Bool-cases (is_stale now ttl b)) [
  | inr fresh ↦ rw fresh refl
  | inl stale ↦ elim (Bool-cases (text_eq j k)) [
    | inr other ↦ rw (stale, TextMap.lookup-remove_other j k m other) refl
    | inl same ↦
        let here : TextMap.lookup k m ≡ some b =
          ap (λ i. TextMap.lookup i m) (sym ((text_eq_iff j k).0 same)) ∙ e in
        absurd (let clash = sym (ap (found_stale now ttl) here) ∙ young in cc)
  ]
]

kept_all :
    (now ttl : ℕ) (k : Text) (ks : List Text) (m : List (Text × Bucket))
    → found_stale now ttl (TextMap.lookup k m) ≡ false
    → TextMap.lookup k (remove_stale now ttl ks m) ≡ TextMap.lookup k m
unfolding remove_stale remove_if_stale
kept_all now ttl k [] m young = refl
kept_all now ttl k (j ∷ ks) m young =
    let step = kept_found now ttl j k m (TextMap.lookup j m) refl young in
    kept_all now ttl k ks (remove_found now ttl j m (TextMap.lookup j m))
      (ap (found_stale now ttl) step ∙ young)
    ∙ step

-- A bucket that is not stale survives the sweep.
pub kept :
    (k : Text) (p : Pass) (r : RateLimiter)
    → found_stale p.now r.idle_ttl (TextMap.lookup k r.buckets) ≡ false
    → TextMap.lookup k (evict_stale_buckets p r).buckets ≡ TextMap.lookup k r.buckets
unfolding evict_stale_buckets
kept k p r young = elim (Bool-cases (is_empty r.buckets)) [
  | inl empty ↦ rw empty refl
  | inr some_ ↦ elim (Bool-cases p.unlocked) [
    | inr locked ↦ rw (some_, locked) refl
    | inl unlocked ↦ elim (Bool-cases (ltb (p.now - r.last_sweep) r.sweep_interval)) [
      | inl early ↦ rw (some_, unlocked, early) refl
      | inr due ↦
          rw (some_, unlocked, due)
            (kept_all p.now r.idle_ttl k (stale_keys p.now r.idle_ttl p.order r.buckets) r.buckets
              young)
    ]
  ]
]

-- a bucket of `m` whole tokens, refilled at `now`
abbrev pub holding : ℕ → ℕ → Bucket
holding now m = record { tokens = m * one; last_refill = now }

-- An agent may spend `m` tokens at `now`: its bucket holds them, or it has none and `m` is the burst.
abbrev pub Holds : ℕ → ℕ → ℕ → Option Bucket → Type 0
Holds now burst m o = (o ≡ some (holding now m)) ⊎ ((o ≡ none) × (m ≡ burst))

pub young :
    (now ttl burst m : ℕ) (o : Option Bucket)
    → 0 < ttl
    → Holds now burst m o
    → found_stale now ttl o ≡ false
unfolding found_stale
young now ttl burst m o proper (inl here) = rw here (ground arith)
young now ttl burst m o proper (inr (none_, _)) = rw none_ refl

entry-holding :
    (now m burst : ℕ) (r : RateLimiter) (o : Option Bucket)
    → r.burst ≡ burst * one
    → Holds now burst m o
    → entry_or_full now r.burst o ≡ holding now m
entry-holding now m burst r o full (inl here) = ap (entry_or_full now r.burst) here
entry-holding now m burst r o full (inr (none_, all_of_it)) =
    ap (entry_or_full now r.burst) none_
    ∙ ap (λ (t : ℕ). full_bucket now t) (full ∙ ap (λ i. i * one) (sym all_of_it))
  where
    full_bucket : ℕ → ℕ → Bucket
    full_bucket now t = record { tokens = t; last_refill = now }

refilled-holding :
    (now m burst : ℕ) (r : RateLimiter)
    → r.burst ≡ burst * one
    → m ≤ burst
    → m < 2 ^ 53
    → refilled now r (holding now m) ≡ holding now m
unfolding refilled add
refilled-holding now m burst r full within small =
    let rate = r.refill_rate in
    let instant : now - now ≡ 0 = omega arith in
    let idle = ap (λ t. mul (as_secs_f64 t) rate) instant ∙ no_gain rate in
    let sum =
      ap (λ g. round (m * one + g) 1) idle
      ∙ ap (λ z. round z 1) (plus_none (m * one))
      ∙ round_exact m small in
    let room : m * one ≤ burst * one = mul-le-mul_right one within in
    ap (λ (t : ℕ). full_bucket now t) (ap₂ min sum full ∙ lower (m * one) (burst * one) room)
  where
    full_bucket : ℕ → ℕ → Bucket
    full_bucket now t = record { tokens = t; last_refill = now }

    plus_none : (x : ℕ) → x + 0 ≡ x
    plus_none x = omega arith

    lower : (x y : ℕ) → x ≤ y → min x y ≡ x
    lower x y h = omega arith

pub refilled_same :
    (now m burst : ℕ) (r : RateLimiter) (o : Option Bucket)
    → r.burst ≡ of_u32 burst
    → m ≤ burst
    → burst < 2 ^ 53
    → Holds now burst m o
    → refilled now r (entry_or_full now r.burst o) ≡ holding now m
unfolding of_u32
refilled_same now m burst r o full within small held =
    ap (refilled now r) (entry-holding now m burst r o full held)
    ∙ refilled-holding now m burst r full within (omega arith)

pub consume_whole :
    (k : Text) (now m : ℕ) (r : RateLimiter)
    → m < 2 ^ 53
    → consume k r (holding now m)
      ≡ (record r { buckets = TextMap.insert k (holding now (m - 1)) r.buckets }, ltb 0 m)
unfolding consume sub
consume_whole k now zero r small = let short : leb one (0 * one) ≡ false = too_few in rw short refl
  where
    too_few : leb one (0 * one) ≡ false
    too_few = let none_ : 0 * one ≡ 0 = omega arith in ground (arith, one_large)
consume_whole k now (suc m) r small =
    let split = add-mul m 1 one in
    let pays : leb one (suc m * one) ≡ true = paid_in_full in
    let rest : suc m * one - one ≡ m * one = omega arith in
    let less : suc m - 1 ≡ m = omega arith in
    let some_ : ltb 0 (suc m) ≡ true = ground arith in
    rw (pays, rest, round_exact m (omega arith), less, some_) refl
  where
    paid_in_full : leb one (suc m * one) ≡ true
    paid_in_full = let split = add-mul m 1 one in ground arith
