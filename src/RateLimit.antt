-- ===== src/RateLimit.antt =====
-- src/rate_limit.rs: the token bucket of each agent. Time is in nanoseconds. Tokens and their rate
-- are values of `f64` (RateLimit/F64.antt), in which sums and products round as they do there.
use aeon_iq_temp.Common.{
  ℕ, ◌+◌, ◌-◌, ◌*◌, min, Bool, true, false, List, [], ◌∷◌, Option, none, some, Text, ltb, leb,
  is_empty, filter, if◌then◌else◌,
}
use aeon_iq_temp.Common.TextMap
use aeon_iq_temp.RateLimit.F64
pub mod F64
pub mod Level
pub mod Payment
pub mod Window
pub mod Whole
pub mod Instant

abbrev pub default_idle_ttl : ℕ
default_idle_ttl = 3600000000000

abbrev pub default_sweep_interval : ℕ
default_sweep_interval = 60000000000

abbrev pub max_sweep_scan : ℕ
max_sweep_scan = 1024

pub record Bucket : Type 0 where
  pub tokens : ℕ
  pub last_refill : ℕ

pub record RateLimiter : Type 0 where
  pub buckets : List (Text × Bucket)
  pub refill_rate : ℕ
  pub burst : ℕ
  pub enabled : Bool
  pub idle_ttl : ℕ
  pub sweep_interval : ℕ
  pub last_sweep : ℕ

-- What the environment decides during a call: the clock, whether `last_sweep.try_lock()` is
-- granted, and in what order the map gives its keys when it is iterated over.
pub record Pass : Type 0 where
  pub now : ℕ
  pub unlocked : Bool
  pub order : List Text

unfoldable pub sweep_interval_for : ℕ → ℕ
sweep_interval_for idle_ttl = min idle_ttl default_sweep_interval

unfoldable pub with_ttl : ℕ → ℕ → ℕ → ℕ → RateLimiter
unfolding sweep_interval_for F64.of_u32 F64.div
with_ttl rpm burst idle_ttl now = record {
  buckets = [];
  refill_rate = F64.div (F64.of_u32 rpm) (F64.of_u32 60);
  burst = F64.of_u32 burst;
  enabled = ltb 0 rpm;
  idle_ttl = idle_ttl;
  sweep_interval = sweep_interval_for idle_ttl;
  last_sweep = now;
}

unfoldable pub new : ℕ → ℕ → ℕ → RateLimiter
unfolding with_ttl
new rpm burst now = with_ttl rpm burst default_idle_ttl now

-- `now.saturating_duration_since(bucket.last_refill) >= self.idle_ttl`
abbrev pub is_stale : ℕ → ℕ → Bucket → Bool
is_stale now idle_ttl b = leb idle_ttl (now - b.last_refill)

-- `Iterator::take`
abbrev pub take {ℓ} : {A : Type ℓ} → ℕ → List A → List A
take n [] = []
take n (x ∷ xs) = let rest = take (n - 1) xs in if leb n 0 then [] else x ∷ rest

unfoldable pub remove_found :
    ℕ → ℕ → Text → List (Text × Bucket) → Option Bucket → List (Text × Bucket)
remove_found now idle_ttl k m none = m
remove_found now idle_ttl k m (some b) = if is_stale now idle_ttl b then TextMap.remove k m else m

-- `self.buckets.remove_if(&key, …)`
unfoldable pub remove_if_stale : ℕ → ℕ → Text → List (Text × Bucket) → List (Text × Bucket)
unfolding remove_found
remove_if_stale now idle_ttl k m = remove_found now idle_ttl k m (TextMap.lookup k m)

unfoldable pub found_stale : ℕ → ℕ → Option Bucket → Bool
found_stale now idle_ttl none = false
found_stale now idle_ttl (some b) = is_stale now idle_ttl b

-- the keys that the scan collects
unfoldable pub stale_keys : ℕ → ℕ → List Text → List (Text × Bucket) → List Text
unfolding found_stale
stale_keys now idle_ttl order m =
    filter (λ k. found_stale now idle_ttl (TextMap.lookup k m)) (take max_sweep_scan order)

-- the loop over the stale keys
unfoldable pub remove_stale : ℕ → ℕ → List Text → List (Text × Bucket) → List (Text × Bucket)
unfolding remove_if_stale
remove_stale now idle_ttl [] m = m
remove_stale now idle_ttl (k ∷ ks) m =
    remove_stale now idle_ttl ks (remove_if_stale now idle_ttl k m)

unfoldable pub evict_stale_buckets : Pass → RateLimiter → RateLimiter
unfolding remove_stale stale_keys
evict_stale_buckets p r =
    if is_empty r.buckets
    then r
    else (if p.unlocked
        then (if ltb (p.now - r.last_sweep) r.sweep_interval then r else record r {
          last_sweep = p.now;
          buckets =
              remove_stale p.now r.idle_ttl (stale_keys p.now r.idle_ttl p.order r.buckets)
                r.buckets;
        })
        else r)

-- the bucket of an agent, a full one if there is none yet
abbrev pub entry_or_full : ℕ → ℕ → Option Bucket → Bucket
entry_or_full now burst none = record { tokens = burst; last_refill = now }
entry_or_full now burst (some b) = b

unfoldable pub refilled : ℕ → RateLimiter → Bucket → Bucket
unfolding F64.add F64.mul F64.as_secs_f64
refilled now r b =
    let elapsed = F64.as_secs_f64 (now - b.last_refill) in
    record {
      tokens = min (F64.add b.tokens (F64.mul elapsed r.refill_rate)) r.burst;
      last_refill = now;
    }

unfoldable pub consume : Text → RateLimiter → Bucket → RateLimiter × Bool
unfolding F64.one F64.sub
consume agent_id r b =
    if leb F64.one b.tokens
    then (
      record r {
        buckets =
            TextMap.insert agent_id (record b { tokens = F64.sub b.tokens F64.one }) r.buckets;
      },
      true,
    )
    else (record r { buckets = TextMap.insert agent_id b r.buckets }, false)

unfoldable pub check_and_consume : Text → Pass → RateLimiter → RateLimiter × Bool
unfolding evict_stale_buckets refilled consume
check_and_consume agent_id p r =
    if r.enabled
    then (let swept = evict_stale_buckets p r in
        consume agent_id swept (
          refilled p.now swept
            (entry_or_full p.now swept.burst (TextMap.lookup agent_id swept.buckets))))
    else (r, true)
