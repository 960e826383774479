-- ===== src/Credentials/Cache/Entries.antt =====
-- Which entries src/credentials/cache.rs holds after a call, poisoned or not: `get` and
-- `invalidate` only drop entries, and `insert` adds one.
use aeon_iq_temp.Common.Assoc
use aeon_iq_temp.Common.Assoc.{IsDistinct, lookup, remove}
use aeon_iq_temp.Common.{
  ℕ, true, Option, none, some, ◌==◌, Bool-cases, inl, inr, ◌≡◌, ◌⊎◌, refl, arith, Result, ok, err,
  ap, ==_iff,
}
use aeon_iq_temp.Credentials.Cache.{
  Reading, Entry, BoundedTtlCache, CacheError, poisoned_lock, is_live_at, get_entry, get, make_room,
  new_entry, insert, invalidate,
}
use aeon_iq_temp.Credentials.Cache.Room.{lookup-make_room}
use aeon_iq_temp.Credentials.Cache.Laws.{
  get_open, insert_open, invalidate_open, get_poisoned, insert_poisoned, invalidate_poisoned,
}

module _ {ℓ} {V : Type ℓ} where
  pub get_entry-entries :
      (key : ℕ) (r : Reading) (c : BoundedTtlCache V) (found : Option (Entry V)) (q : ℕ)
      (e : Entry V)
      → lookup q (get_entry key r c found).0.entries ≡ some e
      → lookup q c.entries ≡ some e
  unfolding get_entry
  get_entry-entries key r c none q e h = h
  get_entry-entries key r c (some f) q e h = elim (Bool-cases (is_live_at f r)) [
    | inl live ↦ rw live at h
    | inr dead ↦
        let h' : lookup q (remove key c.entries) ≡ some e = rw dead at h in
        ground (arith, Assoc.lookup-remove key q c.entries)
  ]

  pub get_entry-some :
      (key : ℕ) (r : Reading) (c : BoundedTtlCache V) (found : Option (Entry V)) (value : V)
      → (get_entry key r c found).1 ≡ ok (some value)
      → (e : Entry V) × (found ≡ some e) × (is_live_at e r ≡ true) × (e.value ≡ value)
  unfolding get_entry
  get_entry-some key r c none value h = absurd (ground arith)
  get_entry-some key r c (some e) value h = elim (Bool-cases (is_live_at e r)) [
    | inl live ↦ (e, refl, live, ground arith)
    | inr dead ↦ absurd (ground arith)
  ]

  pub get-entries :
      (key : ℕ) (r : Reading) (c : BoundedTtlCache V) (q : ℕ) (e : Entry V)
      → lookup q (get key r c).0.entries ≡ some e
      → lookup q c.entries ≡ some e
  get-entries key r c q e h = elim (Bool-cases c.poisoned) [
    | inl p ↦ rw ((get_poisoned key r c p)) at h
    | inr p ↦ get_entry-entries key r c (lookup key c.entries) q e (rw ((get_open key r c p)) at h)
  ]

  -- A value comes from a live entry.
  pub get-some :
      (key : ℕ) (r : Reading) (c : BoundedTtlCache V) (value : V)
      → (get key r c).1 ≡ ok (some value)
      → (e : Entry V) × (lookup key c.entries ≡ some e)
        × (is_live_at e r ≡ true)
        × (e.value ≡ value)
  get-some key r c value h = elim (Bool-cases c.poisoned) [
    | inl p ↦
        let h' : ◌≡◌ {A = Result CacheError (Option V)} (err poisoned_lock) (ok (some value)) =
          rw ((get_poisoned key r c p)) at h in
        absurd (cc)
    | inr p ↦ get_entry-some key r c (lookup key c.entries) value (rw ((get_open key r c p)) at h)
  ]

  pub insert-entries :
      (key : ℕ) (value : V) (bound : Option ℕ) (r : Reading) (c : BoundedTtlCache V) (q : ℕ)
      (e : Entry V)
      → IsDistinct c.entries
      → lookup q (insert key value bound r c).0.entries ≡ some e
      → (lookup q c.entries ≡ some e) ⊎ ((key ≡ q) × (e ≡ new_entry c.ttl value bound r))
  insert-entries key value bound r c q e d h = elim (Bool-cases c.poisoned) [
    | inl p ↦ inl (rw ((insert_poisoned key value bound r c p)) at h)
    | inr p ↦
        let made = make_room key r c.capacity c.entries in
        let fresh = new_entry c.ttl value bound r in
        let h' : lookup q (Assoc.insert key fresh made) ≡ some e =
          rw ((insert_open key value bound r c p)) at h in
        elim (Bool-cases (key == q)) [
          | inl same ↦
              inr ((==_iff key q).0 same, ground (arith, Assoc.lookup-insert key q fresh made))
          | inr other ↦ inl (
              lookup-make_room key r c.capacity c.entries q e d
                (ground (arith, Assoc.lookup-insert key q fresh made)))
        ]
  ]

  pub invalidate-entries :
      (key : ℕ) (c : BoundedTtlCache V) (q : ℕ) (e : Entry V)
      → lookup q (invalidate key c).0.entries ≡ some e
      → lookup q c.entries ≡ some e
  invalidate-entries key c q e h = elim (Bool-cases c.poisoned) [
    | inl p ↦ rw ((invalidate_poisoned key c p)) at h
    | inr p ↦
        let h' : lookup q (remove key c.entries) ≡ some e = rw ((invalidate_open key c p)) at h in
        ground (arith, Assoc.lookup-remove key q c.entries)
  ]

  -- No call changes the TTL.
  pub calls-ttl :
      (key : ℕ) (value : V) (bound : Option ℕ) (r : Reading) (c : BoundedTtlCache V)
      → ((get key r c).0.ttl ≡ c.ttl)
        × ((insert key value bound r c).0.ttl ≡ c.ttl)
        × ((invalidate key c).0.ttl ≡ c.ttl)
  unfolding get get_entry insert invalidate
  calls-ttl key value bound r c = (ground arith, ground arith, ground arith)

  -- An insertion that fails changes nothing.
  pub insert-err :
      (key : ℕ) (value : V) (bound : Option ℕ) (r : Reading) (c : BoundedTtlCache V)
      (x : CacheError)
      → (insert key value bound r c).1 ≡ err x
      → (insert key value bound r c).0 ≡ c
  insert-err key value bound r c x h = elim (Bool-cases c.poisoned) [
    | inl p ↦
        ap (λ (y : BoundedTtlCache V × Result CacheError (Unit {0})). y.0)
          (insert_poisoned key value bound r c p)
    | inr p ↦
        let h' : ◌≡◌ {A = Result CacheError (Unit {0})} (ok tt) (err x) =
          rw ((insert_open key value bound r c p)) at h in
        absurd (cc)
  ]
