-- ===== src/RateLimit/Instant.antt =====
-- What the limiter of src/rate_limit.rs lets through at one instant: here `f64` does not round.
use mathlib.Core.Path.{subst}
use aeon_iq_temp.Common.{
  ℕ, ◌+◌, ◌-◌, ◌^◌, ◌≤◌, ◌<◌, min, Bool, true, false, List, [], ◌∷◌, none, Text, text_eq,
  text_eq_iff, leb, ltb, if_true, if_false, Bool-cases, ◌≡◌, refl, sym, ap, ◌∙◌, inl, inr, arith,
}
use aeon_iq_temp.Common.TextMap
use aeon_iq_temp.RateLimit.F64.{one, of_u32}
use aeon_iq_temp.RateLimit.{RateLimiter, Pass, evict_stale_buckets, consume, check_and_consume}
use aeon_iq_temp.RateLimit.Level.{evict-SameLimits}
use aeon_iq_temp.RateLimit.Payment.{ready, check-consume, check-SameLimits}
use aeon_iq_temp.RateLimit.Window.{Call, admitted, asked, one_if}
use aeon_iq_temp.RateLimit.Whole.{kept, Holds, young, holding, refilled_same, consume_whole}

-- All calls come at one instant.
abbrev pub AllAt : ℕ → List Call → Type 0
AllAt now [] = Unit
AllAt now (c ∷ cs) = (c.pass.now ≡ now) × AllAt now cs

-- A limiter that is on, with a burst that fits into a `u32`, and does not evict at once.
pub record IsOn (burst : ℕ) (r : RateLimiter) : Type 0 where
  pub enabled : r.enabled ≡ true
  pub capacity : r.burst ≡ of_u32 burst
  pub small : burst < 2 ^ 32
  pub patient : 0 < r.idle_ttl

own_call :
    (burst m : ℕ) (k : Text) (p : Pass) (r : RateLimiter)
    → IsOn burst r
    → m ≤ burst
    → Holds p.now burst m (TextMap.lookup k r.buckets)
    → ((check_and_consume k p r).1 ≡ ltb 0 m)
      × Holds p.now burst (m - 1) (TextMap.lookup k (check_and_consume k p r).0.buckets)
own_call burst m k p r on within held =
    let swept = evict_stale_buckets p r in
    let found =
      kept k p r (young p.now r.idle_ttl burst m (TextMap.lookup k r.buckets) on.patient held) in
    let same = evict-SameLimits p r in
    let narrow = on.small in
    let bucket : ready k p r ≡ holding p.now m =
      refilled_same p.now m burst swept (TextMap.lookup k swept.buckets) (same.burst ∙ on.capacity)
        within (omega arith) (subst (Holds p.now burst m) (sym found) held) in
    let call =
      check-consume k p r on.enabled
      ∙ ap (consume k swept) bucket
      ∙ consume_whole k p.now m swept (omega arith) in
    (
      ap (λ (x : RateLimiter × Bool). x.1) call,
      inl (
          ap (λ (x : RateLimiter × Bool). TextMap.lookup k x.0.buckets) call
          ∙ TextMap.lookup-insert_self k _ swept.buckets),
    )

other_call :
    (burst m : ℕ) (j k : Text) (p : Pass) (r : RateLimiter)
    → IsOn burst r
    → text_eq j k ≡ false
    → Holds p.now burst m (TextMap.lookup k r.buckets)
    → TextMap.lookup k (check_and_consume j p r).0.buckets ≡ TextMap.lookup k r.buckets
unfolding consume
other_call burst m j k p r on other held =
    let swept = evict_stale_buckets p r in
    let b = ready j p r in
    ap (λ (x : RateLimiter × Bool). TextMap.lookup k x.0.buckets) (check-consume j p r on.enabled)
    ∙ elim (Bool-cases (leb one b.tokens)) [
      | inl pays ↦
          ap (λ (x : RateLimiter × Bool). TextMap.lookup k x.0.buckets) (if_true _ _ pays)
          ∙ TextMap.lookup-insert_other j k _ swept.buckets other
      | inr short ↦
          ap (λ (x : RateLimiter × Bool). TextMap.lookup k x.0.buckets) (if_false _ _ short)
          ∙ TextMap.lookup-insert_other j k _ swept.buckets other
    ]
    ∙ kept k p r (young p.now r.idle_ttl burst m (TextMap.lookup k r.buckets) on.patient held)

IsOn-call :
    (burst : ℕ) (k : Text) (p : Pass) (r : RateLimiter)
    → IsOn burst r
    → IsOn burst (check_and_consume k p r).0
IsOn-call burst k p r on =
    let same = check-SameLimits k p r on.enabled in
    record {
      enabled = same.enabled ∙ on.enabled;
      capacity = same.burst ∙ on.capacity;
      small = on.small;
      patient = rw same.idle_ttl on.patient;
    }

counted :
    (b : Bool) (m asked admitted : ℕ)
    → b ≡ ltb 0 m
    → admitted ≡ min asked (m - 1)
    → one_if b + admitted ≡ min (1 + asked) m
counted true m asked admitted h rest = let some_ : 0 < m = ground arith in omega arith
counted false m asked admitted h rest = let none_ : m ≤ 0 = ground arith in omega arith

uncounted : (m asked admitted : ℕ) → admitted ≡ min asked m → 0 + admitted ≡ min (0 + asked) m
uncounted m asked admitted h = omega arith

held_admits :
    (burst m now : ℕ) (k : Text) (cs : List Call) (r : RateLimiter)
    → IsOn burst r
    → m ≤ burst
    → AllAt now cs
    → Holds now burst m (TextMap.lookup k r.buckets)
    → admitted k cs r ≡ min (asked k cs) m
unfolding admitted asked
held_admits burst m now k [] r on within at held = omega arith
held_admits burst m now k (c ∷ cs) r on within (here, at) held =
    let held' = subst (λ t. Holds t burst m (TextMap.lookup k r.buckets)) (sym here) held in
    let r' = (check_and_consume c.agent c.pass r).0 in
    let on' = IsOn-call burst c.agent c.pass r on in
    elim (Bool-cases (text_eq c.agent k)) [
      | inr other ↦
          let same = other_call burst m c.agent k c.pass r on other held' in
          rw other (
            uncounted m (asked k cs) (admitted k cs r') (
              held_admits burst m now k cs r' on' within at
                (subst (Holds now burst m) (sym same) held)))
      | inl own ↦
          let key = sym ((text_eq_iff c.agent k).0 own) in
          let (answer, left) =
            subst
              (λ a.
                ((check_and_consume a c.pass r).1 ≡ ltb 0 m)
                × Holds c.pass.now burst (m - 1)
                    (TextMap.lookup k (check_and_consume a c.pass r).0.buckets))
              key (own_call burst m k c.pass r on within held') in
          let left' = subst (λ t. Holds t burst (m - 1) (TextMap.lookup k r'.buckets)) here left in
          rw own (
            counted (check_and_consume c.agent c.pass r).1 m (asked k cs) (admitted k cs r') answer
              (held_admits burst (m - 1) now k cs r' on' (omega arith) at left'))
    ]

-- At one instant an agent without a bucket is let through exactly as often as it asks, up to the
-- burst, when the limiter is on, the burst fits into a `u32`, and the limiter does not evict at
-- once. The calls come in any order among those of other agents, and sweeps may fall in between.
pub instant_burst :
    (burst now : ℕ) (k : Text) (cs : List Call) (r : RateLimiter)
    → IsOn burst r
    → AllAt now cs
    → TextMap.lookup k r.buckets ≡ none
    → admitted k cs r ≡ min (asked k cs) burst
instant_burst burst now k cs r on at fresh =
    held_admits burst burst now k cs r on (omega arith) at (inr (fresh, refl))
