-- ===== src/RateLimit/Window.antt =====
-- What the limiter of src/rate_limit.rs lets through over a stretch of time, rounding included.
use native.Mathlib.Nat.{mul-le-mul_right, add-mul, le_of_mul-le-mul_right}
use aeon_iq_temp.Common.{
  ℕ, ◌+◌, ◌-◌, ◌*◌, ◌^◌, ◌≤◌, ◌<◌, Bool, true, false, List, [], ◌∷◌, Option, none, some, Text,
  text_eq, if◌then◌else◌, ◌≡◌, refl, ap, ◌∙◌, arith,
}
use aeon_iq_temp.Common.TextMap
use aeon_iq_temp.RateLimit.F64.{one, of_u32}
use aeon_iq_temp.RateLimit.F64.Gains.{one_large}
use aeon_iq_temp.RateLimit.{Bucket, RateLimiter, Pass, check_and_consume, new, with_ttl}
use aeon_iq_temp.RateLimit.Level.{fine, gain, slack, level_of, level, IsMade}
use aeon_iq_temp.RateLimit.Payment.{spent, IsMade-same, check-SameLimits, paid}

pub record Call : Type 0 where
  pub agent : Text
  pub pass : Pass

pub run : List Call → RateLimiter → RateLimiter
run [] r = r
run (c ∷ cs) r = run cs (check_and_consume c.agent c.pass r).0

abbrev pub one_if : Bool → ℕ
one_if true = 1
one_if false = 0

-- How many requests of an agent are let through.
unfoldable pub admitted : Text → List Call → RateLimiter → ℕ
admitted k [] r = 0
admitted k (c ∷ cs) r =
    (if text_eq c.agent k then one_if (check_and_consume c.agent c.pass r).1 else 0)
    + admitted k cs (check_and_consume c.agent c.pass r).0

-- The calls come in the order of the clock, from a time on; and when they end.
abbrev pub InOrder : ℕ → List Call → Type 0
InOrder t [] = Unit
InOrder t (c ∷ cs) = (t ≤ c.pass.now) × InOrder c.pass.now cs

abbrev pub end : ℕ → List Call → ℕ
end t [] = t
end t (c ∷ cs) = end c.pass.now cs

end-le : (t : ℕ) (cs : List Call) → InOrder t cs → t ≤ end t cs
end-le t [] h = omega arith
end-le t (c ∷ cs) h = omega (arith, h.0, end-le c.pass.now cs h.1)

-- How many of the calls are of an agent.
unfoldable pub asked : Text → List Call → ℕ
asked k [] = 0
asked k (c ∷ cs) = (if text_eq c.agent k then 1 else 0) + asked k cs

-- As time passes an agent gains at most the rate.
level_grows :
    (rate cap t t' : ℕ) (found : Option Bucket)
    → t ≤ t'
    → level_of rate cap t' found ≤ level_of rate cap t found + (t' - t) * rate
level_grows rate cap t t' none h = omega arith
level_grows rate cap t t' (some b) h =
    let split : t' - b.last_refill ≤ t - b.last_refill + (t' - t) = omega arith in
    let since = mul-le-mul_right rate split in
    let sum = add-mul (t - b.last_refill) (t' - t) rate in omega arith

charged :
    (mine answer : Bool)
    → (if mine then spent answer else 0) ≡ one * fine * (if mine then one_if answer else 0)
charged true true = omega arith
charged true false = omega arith
charged false answer = omega arith

allowed : (mine : Bool) (slack : ℕ) → (if mine then slack else 0) ≡ (if mine then 1 else 0) * slack
allowed true slack = omega arith
allowed false slack = omega arith

elapsed :
    (t now stop rate : ℕ)
    → t ≤ now
    → now ≤ stop
    → (stop - t) * rate ≡ (stop - now) * rate + (now - t) * rate
elapsed t now stop rate h h' =
    let split : stop - t ≡ stop - now + (now - t) = omega arith in
    ap (λ x. x * rate) split ∙ add-mul (stop - now) (now - t) rate

step_lem :
    (a m u later held after level now_level before since whole slack own cost more : ℕ)
    → cost ≡ u * a
    → more ≡ m * slack
    → whole ≡ since + before
    → cost + after ≤ now_level + more
    → now_level ≤ level + before
    → u * later + held ≤ after + since + own * slack
    → u * (a + later) + held ≤ level + whole + (m + own) * slack
step_lem a m u later held after level now_level before since whole slack own cost more ec em ew paid
      grows rest =
    let left : u * (a + later) ≡ u * a + u * later = grind arith in
    let right : (m + own) * slack ≡ m * slack + own * slack = grind arith in omega arith

nothing_asked : (level more slack : ℕ) → one * fine * 0 + level ≤ level + more + 0 * slack
nothing_asked level more slack = omega arith

level-le-burst : (rate : ℕ) (k : Text) (t : ℕ) (r : RateLimiter) → level rate k t r ≤ r.burst * fine
level-le-burst rate k t r = below (TextMap.lookup k r.buckets)
  where
    below : (found : Option Bucket) → level_of rate (r.burst * fine) t found ≤ r.burst * fine
    below none = omega arith
    below (some b) = omega arith

window_lem :
    (n unit burst time rpm own level held cap : ℕ)
    → 0 < unit
    → unit * fine * n + held
      ≤ level + time * ((2 ^ 50 + 1) * (rpm * unit)) + own * (60000000000 * ((burst + 1) * unit))
    → level ≤ cap * fine
    → cap ≡ burst * unit
    → fine * n ≤ fine * burst + (2 ^ 50 + 1) * (time * rpm) + 60000000000 * (own * (burst + 1))
window_lem n unit burst time rpm own level held cap proper h bounded full =
    let left : unit * fine * n ≡ fine * n * unit = grind arith in
    let refill : time * ((2 ^ 50 + 1) * (rpm * unit)) ≡ (2 ^ 50 + 1) * (time * rpm) * unit =
      grind arith in
    let rounding : own * (60000000000 * ((burst + 1) * unit))
        ≡ 60000000000 * (own * (burst + 1)) * unit =
      grind arith in
    let right : (fine * burst + (2 ^ 50 + 1) * (time * rpm) + 60000000000 * (own * (burst + 1)))
          * unit
        ≡ fine * (burst * unit)
          + (2 ^ 50 + 1) * (time * rpm) * unit
          + 60000000000 * (own * (burst + 1)) * unit =
      grind arith in
    le_of_mul-le-mul_right (omega arith) proper

-- Over calls in the order of the clock, whoever makes them, an agent spends what it held at the
-- start, what was refilled since, and what its own calls may add by rounding.
pub spent_and_held :
    (rpm burst : ℕ) (k : Text) (t : ℕ) (cs : List Call) (r : RateLimiter)
    → IsMade rpm burst r
    → InOrder t cs
    → one * fine * admitted k cs r + level (gain rpm) k (end t cs) (run cs r)
      ≤ level (gain rpm) k t r + (end t cs - t) * gain rpm + asked k cs * slack burst
unfolding admitted run asked
spent_and_held rpm burst k t [] r made order =
    nothing_asked (level (gain rpm) k t r) ((t - t) * gain rpm) (slack burst)
spent_and_held rpm burst k t (c ∷ cs) r made (later, order) =
    let mine = text_eq c.agent k in
    let answer = (check_and_consume c.agent c.pass r).1 in
    let r' = (check_and_consume c.agent c.pass r).0 in
    let now = c.pass.now in
    let made' = IsMade-same rpm burst r r' (check-SameLimits c.agent c.pass r made.enabled) made in
    let stop = end now cs in
    step_lem (if mine then one_if answer else 0) (if mine then 1 else 0) (one * fine)
      (admitted k cs r') _ _ (level (gain rpm) k t r) _ _ _ _ (slack burst) (asked k cs) _ _
      (charged mine answer) (allowed mine (slack burst))
      (elapsed t now stop (gain rpm) later (end-le now cs order))
      (paid rpm burst c.agent k c.pass r made)
      (level_grows (gain rpm) (r.burst * fine) t now (TextMap.lookup k r.buckets) later)
      (spent_and_held rpm burst k now cs r' made' order)

-- The calls of `cs` come in the order of the clock from `t` on, to a limiter of `rpm` requests a
-- minute and a burst of `burst` whose idle buckets refill in time. Then it lets through no more
-- requests of an agent than its burst and the refill of the whole stretch pay for, but for
-- rounding: a 2^50th part of the refill, and for each call of the agent a 2^50th part of `burst` and
-- one token. Calls of others, sweeps and evictions may fall in between.
pub window_bound :
    (rpm burst : ℕ) (k : Text) (t : ℕ) (cs : List Call) (r : RateLimiter)
    → IsMade rpm burst r
    → InOrder t cs
    → 60000000000 * 2 ^ 50 * admitted k cs r
      ≤ 60000000000 * 2 ^ 50 * burst
        + (2 ^ 50 + 1) * ((end t cs - t) * rpm)
        + 60000000000 * (asked k cs * (burst + 1))
unfolding gain slack of_u32
window_bound rpm burst k t cs r made order =
    window_lem (admitted k cs r) one burst (end t cs - t) rpm (asked k cs) (level (gain rpm) k t r)
      _ r.burst (omega (arith, one_large)) (spent_and_held rpm burst k t cs r made order)
      (level-le-burst (gain rpm) k t r) made.capacity

-- A limiter made with a rate of 0 lets every request through and keeps no bucket.
pub disabled_admits :
    (burst start : ℕ) (k : Text) (p : Pass)
    → check_and_consume k p (new 0 burst start) ≡ (new 0 burst start, true)
unfolding new with_ttl check_and_consume
disabled_admits burst start k p = refl
