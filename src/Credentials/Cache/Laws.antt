-- ===== src/Credentials/Cache/Laws.antt =====
-- The operations of src/credentials/cache.rs one at a time: the invariant, reads after writes, and
-- the closed failure mode.
use mathlib.Core.Bool.{false≢true}
use aeon_iq_temp.Common.Assoc
use aeon_iq_temp.Common.Assoc.{IsDistinct, lookup, remove}
use aeon_iq_temp.Common.{
  ℕ, ◌+◌, ◌≤◌, ◌<◌, true, false, Option, none, some, length, All, filter, ◌==◌, if◌then◌else◌,
  Bool-cases, inl, inr, ◌≡◌, ◌≢◌, ◌⊎◌, ◌↔◌, arith, sym, ap, ◌∙◌, ok, err, if_true, if_false,
  ==_refl,
}
use aeon_iq_temp.Credentials.Cache.{
  Reading, Entry, BoundedTtlCache, poisoned_lock, max_ttl, new, is_live_at, get_entry, get,
  make_room, new_entry, insert, invalidate,
}
use aeon_iq_temp.Credentials.Cache.Room.{length-make_room, make_room-IsDistinct, make_room_keeps}

pub record IsValid {ℓ} {V : Type ℓ} (c : BoundedTtlCache V) : Type 0 where
  pub positive : 0 < c.capacity
  pub bounded : length c.entries ≤ c.capacity
  pub distinct : IsDistinct c.entries
  pub frozen : c.ttl ≤ max_ttl

module _ {ℓ} {V : Type ℓ} where
  pub new-IsValid : (capacity ttl : ℕ) → IsValid (new {V = V} capacity ttl)
  unfolding new
  new-IsValid capacity ttl = record {
    positive = omega arith;
    bounded = omega arith;
    distinct = tt;
    frozen = omega arith;
  }

  remove_key-IsValid :
      (key : ℕ) (c : BoundedTtlCache V)
      → IsValid c
      → IsValid (record c { entries = remove key c.entries })
  remove_key-IsValid key c h = record {
    positive = h.positive;
    bounded = omega (arith, h.bounded, Assoc.length-remove-le key c.entries);
    distinct = Assoc.remove-IsDistinct key c.entries h.distinct;
    frozen = h.frozen;
  }

  -- Behind a lock that is not poisoned, the operations are these.
  pub get_open :
      (key : ℕ) (r : Reading) (c : BoundedTtlCache V)
      → c.poisoned ≡ false
      → get key r c ≡ get_entry key r c (lookup key c.entries)
  unfolding get
  get_open key r c p = if_false _ _ p

  pub insert_open :
      (key : ℕ) (value : V) (bound : Option ℕ) (r : Reading) (c : BoundedTtlCache V)
      → c.poisoned ≡ false
      → insert key value bound r c ≡ (
        record c {
          entries =
              Assoc.insert key
                (new_entry c.ttl value bound r)
                (make_room key r c.capacity c.entries);
        },
        ok tt,
      )
  unfolding insert
  insert_open key value bound r c p = if_false _ _ p

  pub invalidate_open :
      (key : ℕ) (c : BoundedTtlCache V)
      → c.poisoned ≡ false
      → invalidate key c ≡ (record c { entries = remove key c.entries }, ok tt)
  unfolding invalidate
  invalidate_open key c p = if_false _ _ p

  pub get_poisoned :
      (key : ℕ) (r : Reading) (c : BoundedTtlCache V)
      → c.poisoned ≡ true
      → get key r c ≡ (c, err poisoned_lock)
  unfolding get
  get_poisoned key r c p = if_true _ _ p

  pub insert_poisoned :
      (key : ℕ) (value : V) (bound : Option ℕ) (r : Reading) (c : BoundedTtlCache V)
      → c.poisoned ≡ true
      → insert key value bound r c ≡ (c, err poisoned_lock)
  unfolding insert
  insert_poisoned key value bound r c p = if_true _ _ p

  pub invalidate_poisoned :
      (key : ℕ) (c : BoundedTtlCache V)
      → c.poisoned ≡ true
      → invalidate key c ≡ (c, err poisoned_lock)
  unfolding invalidate
  invalidate_poisoned key c p = if_true _ _ p

  pub get_entry-IsValid :
      (key : ℕ) (r : Reading) (c : BoundedTtlCache V) (found : Option (Entry V))
      → IsValid c
      → IsValid (get_entry key r c found).0
  unfolding get_entry
  get_entry-IsValid key r c none h = h
  get_entry-IsValid key r c (some e) h = elim (Bool-cases (is_live_at e r)) [
    | inl live ↦ rw live h
    | inr dead ↦ rw dead (remove_key-IsValid key c h)
  ]

  pub get-IsValid :
      (key : ℕ) (r : Reading) (c : BoundedTtlCache V) → IsValid c → IsValid (get key r c).0
  get-IsValid key r c h = elim (Bool-cases c.poisoned) [
    | inl p ↦ rw ((get_poisoned key r c p)) h
    | inr p ↦ rw ((get_open key r c p)) (get_entry-IsValid key r c (lookup key c.entries) h)
  ]

  -- No operation stores more than the capacity, a key twice, or a TTL above the frozen bound.
  pub insert-IsValid :
      (key : ℕ) (value : V) (bound : Option ℕ) (r : Reading) (c : BoundedTtlCache V)
      → IsValid c
      → IsValid (insert key value bound r c).0
  insert-IsValid key value bound r c h = elim (Bool-cases c.poisoned) [
    | inl p ↦ rw (insert_poisoned key value bound r c p) h
    | inr p ↦ rw ((insert_open key value bound r c p)) (record {
      positive = h.positive;
      bounded = length-make_room key r c.capacity c.entries h.positive h.bounded;
      distinct =
          Assoc.insert-IsDistinct key (new_entry c.ttl value bound r)
            (make_room key r c.capacity c.entries)
            (make_room-IsDistinct key r c.capacity c.entries h.distinct);
      frozen = h.frozen;
    })
  ]

  pub invalidate-IsValid :
      (key : ℕ) (c : BoundedTtlCache V) → IsValid c → IsValid (invalidate key c).0
  invalidate-IsValid key c h = elim (Bool-cases c.poisoned) [
    | inl p ↦ rw ((invalidate_poisoned key c p)) h
    | inr p ↦ rw ((invalidate_open key c p)) (remove_key-IsValid key c h)
  ]

-- The instants at which an entry made at one reading still answers at another.
abbrev pub IsWithin : ℕ → Option ℕ → Reading → Reading → Type 0
IsWithin ttl none r r' = (r'.tick < r.tick + ttl) × (r'.now < r.now + ttl)
IsWithin ttl (some b) r r' = (r'.tick < r.tick + ttl) × (r'.now < r.now + ttl) × (r'.now < b)

pub IsWithin-le :
    (a b : ℕ) (bound : Option ℕ) (r r' : Reading)
    → a ≤ b
    → IsWithin a bound r r'
    → IsWithin b bound r r'
IsWithin-le a b none r r' l h = omega arith
IsWithin-le a b (some x) r r' l h = omega arith

module _ {ℓ} {V : Type ℓ} where
  pub new_entry-live :
      (ttl : ℕ) (value : V) (bound : Option ℕ) (r r' : Reading)
      → (is_live_at (new_entry ttl value bound r) r' ≡ true) ↔ IsWithin ttl bound r r'
  unfolding is_live_at new_entry
  new_entry-live ttl value none r r' = (λ h. ground arith, λ h. ground arith)
  new_entry-live ttl value (some b) r r' = (λ h. ground arith, λ h. ground arith)

  get_hit :
      (key : ℕ) (r : Reading) (c : BoundedTtlCache V) (e : Entry V)
      → c.poisoned ≡ false
      → lookup key c.entries ≡ some e
      → (get key r c).1 ≡ ok (if is_live_at e r then some e.value else none)
  unfolding get_entry
  get_hit key r c e p hit =
      rw ((get_open key r c p), hit, get_entry)
        (elim (Bool-cases (is_live_at e r)) [ inl live ↦ rw live | inr dead ↦ rw dead ])

  -- Behind a lock that is not poisoned, an inserted value is read back exactly until its deadlines:
  -- those of the TTL on both clocks, and of the credential's expiry if it has one.
  pub get-insert :
      (key : ℕ) (value : V) (bound : Option ℕ) (r r' : Reading) (c : BoundedTtlCache V)
      → c.poisoned ≡ false
      → (((get key r' (insert key value bound r c).0).1 ≡ ok (some value))
          × IsWithin c.ttl bound r r')
        ⊎ (((get key r' (insert key value bound r c).0).1 ≡ ok none) × ¬ IsWithin c.ttl bound r r')
  unfolding new_entry
  get-insert key value bound r r' c p =
      let e = new_entry c.ttl value bound r in
      let m = Assoc.insert key e (make_room key r c.capacity c.entries) in
      let read = get_hit key r' (record c { entries = m }) e p (rw (==_refl key)) in
      rw ((insert_open key value bound r c p)) (elim (Bool-cases (is_live_at e r')) [
        | inl live ↦
            inl (read ∙ ap ok (if_true _ _ live), (new_entry-live c.ttl value bound r r').0 live)
        | inr dead ↦ inr (
          read ∙ ap ok (if_false _ _ dead),
          λ w. false≢true (sym dead ∙ (new_entry-live c.ttl value bound r r').1 w),
        )
      ])

  -- In a valid cache whose lock is not poisoned, `insert` never drops a live entry of another key but
  -- one with the earliest deadline, and that only where the live entries alone fill the cache.
  pub insert_evicts_soonest :
      (key : ℕ) (value : V) (bound : Option ℕ) (r : Reading) (c : BoundedTtlCache V) (q : ℕ)
      (e : Entry V)
      → IsValid c
      → c.poisoned ≡ false
      → key ≢ q
      → lookup q c.entries ≡ some e
      → is_live_at e r ≡ true
      → (lookup q (insert key value bound r c).0.entries ≡ some e)
        ⊎ (All (λ f. e.expires_tick ≤ f.1.expires_tick) (filter (λ f. is_live_at f.1 r) c.entries)
            × (c.capacity ≤ length (filter (λ f. is_live_at f.1 r) c.entries)))
  insert_evicts_soonest key value bound r c q e h p ne found live =
      let made = make_room key r c.capacity c.entries in
      let apart : (key == q) ≡ false = ground arith in
      rw ((insert_open key value bound r c p))
        (elim (make_room_keeps key r c.capacity c.entries q e h.distinct found live) [
          | inl kept ↦ inl (rw apart (Assoc.lookup-remove key q made ∙ if_false _ _ apart ∙ kept))
          | inr full ↦ inr full
        ])
