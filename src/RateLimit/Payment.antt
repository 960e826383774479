-- ===== src/RateLimit/Payment.antt =====
-- What one call of src/rate_limit.rs costs its agent and everybody else, rounding included.

use aeon_iq_temp.Common.{
  ℕ, ◌+◌, ◌-◌, ◌*◌, ◌^◌, ◌≤◌, min, Bool, true, false, Text, text_eq, text_eq_iff, leb, leb→le,
  if◌then◌else◌, if_true, if_false, Bool-cases, ◌≡◌, refl, ap, ◌∙◌, inl, inr, arith,
}
use aeon_iq_temp.Common.TextMap
use aeon_iq_temp.RateLimit.F64.{one, of_u32, sub, round}
use aeon_iq_temp.RateLimit.F64.Gains.{one_large}
use aeon_iq_temp.RateLimit.F64.Rounding.{round_whole}
use aeon_iq_temp.RateLimit.{
  Bucket, RateLimiter, Pass, evict_stale_buckets, entry_or_full, refilled, consume,
  check_and_consume,
}
use aeon_iq_temp.RateLimit.Level.{
  fine, gain, slack, level_of, level, IsMade, refills_in_time, level-evict, SameLimits,
  evict-SameLimits, refilled_over, refilled_bounded, refilled_now,
}

-- The units that an answer costs.
abbrev pub spent : Bool → ℕ
spent true = one * fine
spent false = 0

level-inserted :
    (rate : ℕ) (k : Text) (now : ℕ) (r : RateLimiter) (b : Bucket)
    → b.last_refill ≡ now
    → level rate k now (record r { buckets = TextMap.insert k b r.buckets }) ≤ b.tokens * fine
level-inserted rate k now r b fresh =
    rw (TextMap.lookup-insert_self k)
      (idle b.tokens (now - b.last_refill) rate r.burst (omega arith))
  where
    idle :
        (tokens since rate cap : ℕ)
        → since ≡ 0
        → min (tokens * fine + since * rate) (cap * fine) ≤ tokens * fine
    idle tokens since rate cap h =
        let e : since * rate ≡ 0 = ap (λ x. x * rate) h ∙ omega arith in omega arith

taken_lem :
    (left tokens unit cap : ℕ)
    → 2 ^ 53 * left ≤ (2 ^ 53 + 1) * (tokens - unit)
    → unit ≤ tokens
    → tokens ≤ cap
    → unit * fine + left * fine ≤ tokens * fine + 7500000000 * cap
taken_lem left tokens unit cap h enough bounded = omega arith

-- The caller pays for what it is let through, but for rounding.
level-consume_self :
    (rate : ℕ) (k : Text) (now : ℕ) (r : RateLimiter) (b : Bucket)
    → b.last_refill ≡ now
    → b.tokens ≤ r.burst
    → spent (consume k r b).1 + level rate k now (consume k r b).0
      ≤ b.tokens * fine + 7500000000 * r.burst
unfolding consume sub
level-consume_self rate k now r b fresh bounded = elim (Bool-cases (leb one b.tokens)) [
  | inl pays ↦
      let left = round (b.tokens - one) 1 in
      rw pays (
        chained (one * fine) _ (left * fine) _
          (level-inserted rate k now r (record b { tokens = left }) fresh)
          (taken_lem left b.tokens one r.burst (round_whole (b.tokens - one))
            (leb→le one b.tokens pays) bounded))
  | inr short ↦ rw short (weaker _ _ _ (level-inserted rate k now r b fresh))
]
  where
    chained :
        (cost level left bound : ℕ) → level ≤ left → cost + left ≤ bound → cost + level ≤ bound
    chained cost level left bound h k = omega arith

    weaker : (level bound more : ℕ) → level ≤ bound → 0 + level ≤ bound + more
    weaker level bound more h = omega arith

level-consume_other :
    (rate : ℕ) (j k : Text) (now : ℕ) (r : RateLimiter) (b : Bucket)
    → text_eq j k ≡ false
    → level rate k now (consume j r b).0 ≡ level rate k now r
unfolding consume
level-consume_other rate j k now r b other = elim (Bool-cases (leb one b.tokens)) [
  | inl pays ↦
      ap (λ (x : RateLimiter × Bool). level rate k now x.0) (if_true _ _ pays)
      ∙ ap (level_of rate (r.burst * fine) now) (TextMap.lookup-insert_other j k _ r.buckets other)
  | inr short ↦
      ap (λ (x : RateLimiter × Bool). level rate k now x.0) (if_false _ _ short)
      ∙ ap (level_of rate (r.burst * fine) now) (TextMap.lookup-insert_other j k _ r.buckets other)
]

consume-SameLimits : (k : Text) (r : RateLimiter) (b : Bucket) → SameLimits r (consume k r b).0
unfolding consume
consume-SameLimits k r b = elim (Bool-cases (leb one b.tokens)) [
  | inl pays ↦
      rw pays (record { refill_rate = refl; burst = refl; enabled = refl; idle_ttl = refl })
  | inr short ↦
      rw short (record { refill_rate = refl; burst = refl; enabled = refl; idle_ttl = refl })
]

-- the bucket of a call, refilled
abbrev pub ready : Text → Pass → RateLimiter → Bucket
ready k p r =
    let swept = evict_stale_buckets p r in
    refilled p.now swept (entry_or_full p.now swept.burst (TextMap.lookup k swept.buckets))

pub check-consume :
    (k : Text) (p : Pass) (r : RateLimiter)
    → r.enabled ≡ true
    → check_and_consume k p r ≡ consume k (evict_stale_buckets p r) (ready k p r)
unfolding check_and_consume
check-consume k p r on = if_true _ _ on

pub IsMade-same :
    (rpm burst : ℕ) (r r' : RateLimiter)
    → SameLimits r r'
    → IsMade rpm burst r
    → IsMade rpm burst r'
IsMade-same rpm burst r r' same made = record {
  enabled = same.enabled ∙ made.enabled;
  rate = same.refill_rate ∙ made.rate;
  capacity = same.burst ∙ made.capacity;
  in_time = rw same.idle_ttl made.in_time;
}

pub check-SameLimits :
    (k : Text) (p : Pass) (r : RateLimiter)
    → r.enabled ≡ true
    → SameLimits r (check_and_consume k p r).0
check-SameLimits k p r on =
    let e = evict-SameLimits p r in
    let c = consume-SameLimits k (evict_stale_buckets p r) (ready k p r) in
    let path = check-consume k p r on in
    record {
      refill_rate =
          ap (λ (x : RateLimiter × Bool). x.0.refill_rate) path ∙ c.refill_rate ∙ e.refill_rate;
      burst = ap (λ (x : RateLimiter × Bool). x.0.burst) path ∙ c.burst ∙ e.burst;
      enabled = ap (λ (x : RateLimiter × Bool). x.0.enabled) path ∙ c.enabled ∙ e.enabled;
      idle_ttl = ap (λ (x : RateLimiter × Bool). x.0.idle_ttl) path ∙ c.idle_ttl ∙ e.idle_ttl;
    }

slack_lem :
    (cap burst unit : ℕ)
    → cap ≡ burst * unit
    → 2 ^ 1000 ≤ unit
    → fine + 15000000000 * cap ≤ 60000000000 * ((burst + 1) * unit)
slack_lem cap burst unit h large =
    let e : (burst + 1) * unit ≡ burst * unit + unit = grind arith in omega arith

slack_enough :
    (rpm burst : ℕ) (r : RateLimiter)
    → IsMade rpm burst r
    → fine + 15000000000 * r.burst ≤ slack burst
unfolding slack of_u32
slack_enough rpm burst r made = slack_lem r.burst burst one made.capacity one_large

-- A call costs its agent a token where it is let through, but for the slack; others nothing.
pub paid :
    (rpm burst : ℕ) (j k : Text) (p : Pass) (r : RateLimiter)
    → IsMade rpm burst r
    → (if text_eq j k then spent (check_and_consume j p r).1 else 0)
        + level (gain rpm) k p.now (check_and_consume j p r).0
      ≤ level (gain rpm) k p.now r + (if text_eq j k then slack burst else 0)
paid rpm burst j k p r made =
    let swept = evict_stale_buckets p r in
    let made' = IsMade-same rpm burst r swept (evict-SameLimits p r) made in
    let kept = level-evict (gain rpm) k p r (refills_in_time rpm burst r made) in
    let path = check-consume j p r made.enabled in
    elim (Bool-cases (text_eq j k)) [
      | inl own ↦
          let b = ready k p r in
          let found = TextMap.lookup k swept.buckets in
          rw (path, own, (text_eq_iff j k).0 own)
            (summed (spent (consume k swept b).1) _ _ _ (b.tokens * fine) swept.burst (slack burst)
              (level-consume_self (gain rpm) k p.now swept b (refilled_now p.now swept _)
                (refilled_bounded p.now swept _))
              (refilled_over rpm burst p.now swept found made') (slack_enough rpm burst swept made')
              kept)
      | inr other ↦
          rw (path, other)
            (unpaid _ _ _ (level-consume_other (gain rpm) j k p.now swept (ready j p r) other) kept)
    ]
  where
    summed :
        (cost after before start tokens cap slack : ℕ)
        → cost + after ≤ tokens + 7500000000 * cap
        → tokens ≤ before + (fine + 7500000000 * cap)
        → fine + 15000000000 * cap ≤ slack
        → before ≡ start
        → cost + after ≤ start + slack
    summed cost after before start tokens cap slack h h' e kept = omega arith

    unpaid : (after before start : ℕ) → after ≡ before → before ≡ start → 0 + after ≤ start + 0
    unpaid after before start h e = omega arith
