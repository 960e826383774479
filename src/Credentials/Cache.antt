-- ===== src/Credentials/Cache.antt =====
-- src/credentials/cache.rs: the bounded cache with an absolute deadline for each entry.
-- `Uuid` keys are numbers below 2 ^ 128 of which only equality is used. `Duration` and
-- `DateTime<Utc>` count nanoseconds from an origin before every instant that the program meets.
-- The `HashMap` is an association list; what is proved does not rest on its order. A poisoned
-- mutex is a field of the state, and each operation runs under the lock from end to end.
use aeon_iq_temp.Common.Assoc
use aeon_iq_temp.Common.{
  ℕ, ◌+◌, min, max, Bool, true, false, not, ◌&&◌, List, [], ◌∷◌, Option, none, some, length, filter,
  ltb, leb, if◌then◌else◌, Result, ok, err,
}
pub mod Laws
pub mod Room
pub mod Entries
pub mod History

-- What the two methods of `Clock` return.
pub record Reading : Type 0 where
  pub tick : ℕ
  pub now : ℕ

abbrev pub max_ttl : ℕ
max_ttl = 30_000_000_000

abbrev pub default_capacity : ℕ
default_capacity = 1024

pub data CacheError : Type 0 where
  poisoned_lock : CacheError

pub record Entry {ℓ} (V : Type ℓ) : Type ℓ where
  pub value : V
  pub expires_tick : ℕ
  pub expires_wall : ℕ

pub record BoundedTtlCache {ℓ} (V : Type ℓ) : Type ℓ where
  pub entries : List (ℕ × Entry V)
  pub capacity : ℕ
  pub ttl : ℕ
  pub poisoned : Bool

wall_deadline : ℕ → Option ℕ → Reading → ℕ
wall_deadline ttl none r = r.now + ttl
wall_deadline ttl (some bound) r = min (r.now + ttl) bound

module _ {ℓ} {V : Type ℓ} where
  unfoldable pub new : ℕ → ℕ → BoundedTtlCache V
  new capacity ttl = record {
    entries = [];
    capacity = max capacity 1;
    ttl = min ttl max_ttl;
    poisoned = false;
  }

  unfoldable pub is_live_at : Entry V → Reading → Bool
  is_live_at entry r = ltb r.tick entry.expires_tick && ltb r.now entry.expires_wall

  -- `get` behind the lock: what the map holds under the key decides.
  unfoldable pub get_entry :
      ℕ
      → Reading
      → BoundedTtlCache V
      → Option (Entry V)
      → BoundedTtlCache V × Result CacheError (Option V)
  get_entry key r c none = (c, ok none)
  get_entry key r c (some entry) =
      if is_live_at entry r
      then (c, ok (some entry.value))
      else (record c { entries = Assoc.remove key c.entries }, ok none)

  unfoldable pub get :
      ℕ → Reading → BoundedTtlCache V → BoundedTtlCache V × Result CacheError (Option V)
  unfolding get_entry
  get key r c =
      if c.poisoned then (c, err poisoned_lock) else get_entry key r c (Assoc.lookup key c.entries)

  -- `entries.iter().min_by_key(|(_, e)| e.expires_tick).map(|(k, _)| *k)`: the first minimum
  soonest : List (ℕ × Entry V) → Option (ℕ × Entry V)
  soonest [] = none
  soonest (e ∷ m) = elim (soonest m) [
    | none ↦ some e
    | some f ↦ if leb e.1.expires_tick f.1.expires_tick then some e else some f
  ]

  drop_soonest : List (ℕ × Entry V) → List (ℕ × Entry V)
  unfolding soonest
  drop_soonest m = elim (soonest m) [ none ↦ m | some e ↦ Assoc.remove e.0 m ]

  -- the outer `if` of `insert`: expired entries go first, then the one nearest its deadline
  unfoldable pub make_room : ℕ → Reading → ℕ → List (ℕ × Entry V) → List (ℕ × Entry V)
  unfolding drop_soonest
  make_room key r capacity m =
      if leb capacity (length m) && not (Assoc.contains_key key m)
      then (let kept = filter (λ e. is_live_at e.1 r) m in
          if leb capacity (length kept) then drop_soonest kept else kept)
      else m

  unfoldable pub new_entry : ℕ → V → Option ℕ → Reading → Entry V
  unfolding wall_deadline
  new_entry ttl value hard_bound r = record {
    value = value;
    expires_tick = r.tick + ttl;
    expires_wall = wall_deadline ttl hard_bound r;
  }

  unfoldable pub insert :
      ℕ
      → V
      → Option ℕ
      → Reading
      → BoundedTtlCache V
      → BoundedTtlCache V × Result CacheError (Unit {0})
  insert key value hard_bound r c = if c.poisoned then (c, err poisoned_lock) else (
    record c {
      entries =
          Assoc.insert key (new_entry c.ttl value hard_bound r)
            (make_room key r c.capacity c.entries);
    },
    ok tt,
  )

  unfoldable pub invalidate :
      ℕ → BoundedTtlCache V → BoundedTtlCache V × Result CacheError (Unit {0})
  invalidate key c =
      if c.poisoned
      then (c, err poisoned_lock)
      else (record c { entries = Assoc.remove key c.entries }, ok tt)

  unfoldable pub len : BoundedTtlCache V → Result CacheError ℕ
  len c = if c.poisoned then err poisoned_lock else ok (length c.entries)
