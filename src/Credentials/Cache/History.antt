-- ===== src/Credentials/Cache/History.antt =====
-- The cache of src/credentials/cache.rs over its whole life, against a map that forgets nothing:
-- each key's latest insertion, unless an invalidation came after it.
use mathlib.Core.Path.{subst}
use aeon_iq_temp.Common.Assoc
use aeon_iq_temp.Common.Assoc.{lookup, remove}
use aeon_iq_temp.Common.{
  ℕ, min, true, false, List, [], ◌∷◌, Option, none, some, ◌==◌, if◌then◌else◌, Bool-cases, inl, inr,
  ◌≡◌, refl, arith, sym, ap, ◌∙◌, ok, if_true, if_false,
}
use aeon_iq_temp.Credentials.Cache
use aeon_iq_temp.Credentials.Cache.{
  Reading, Entry, BoundedTtlCache, max_ttl, new, is_live_at, get_entry, make_room, new_entry,
}
use aeon_iq_temp.Credentials.Cache.Room.{lookup-make_room}
use aeon_iq_temp.Credentials.Cache.Entries.{get_entry-entries, get_entry-some}
use aeon_iq_temp.Credentials.Cache.Laws.{
  IsValid, IsWithin, IsWithin-le, new-IsValid, get-IsValid, insert-IsValid, invalidate-IsValid,
  get_open, insert_open, invalidate_open, new_entry-live,
}

-- A call of one of the operations that change the state.
pub data Op {ℓ} (V : Type ℓ) : Type ℓ where
  get : ℕ → Reading → Op V
  insert : ℕ → V → Option ℕ → Reading → Op V
  invalidate : ℕ → Op V

-- What an insertion was given.
pub record Deposit {ℓ} (V : Type ℓ) : Type ℓ where
  pub value : V
  pub bound : Option ℕ
  pub at : Reading

module _ {ℓ} {V : Type ℓ} where
  unfoldable pub step : Op V → BoundedTtlCache V → BoundedTtlCache V
  step (get key r) c = (Cache.get key r c).0
  step (insert key value bound r) c = (Cache.insert key value bound r c).0
  step (invalidate key) c = (Cache.invalidate key c).0

  -- A history is listed newest call first.
  unfoldable pub run : List (Op V) → BoundedTtlCache V → BoundedTtlCache V
  run [] c = c
  run (op ∷ ops) c = step op (run ops c)

  unfoldable pub latest : List (Op V) → ℕ → Option (Deposit V)
  latest [] key = none
  latest (get k r ∷ ops) key = latest ops key
  latest (insert k value bound r ∷ ops) key =
      let older = latest ops key in
      if k == key then some (record { value = value; bound = bound; at = r }) else older
  latest (invalidate k ∷ ops) key = let older = latest ops key in if k == key then none else older

  -- Every entry of the cache is the latest insertion under its key.
  pub record Tracks (ttl : ℕ) (c : BoundedTtlCache V) (ops : List (Op V)) : Type ℓ where
    pub valid : IsValid c
    pub usable : c.poisoned ≡ false
    pub same_ttl : c.ttl ≡ ttl
    pub entries :
        (key : ℕ) (e : Entry V)
        → lookup key c.entries ≡ some e
        → (d : Deposit V) × (latest ops key ≡ some d) × (e ≡ new_entry ttl d.value d.bound d.at)

  get_entry-same :
      (key : ℕ) (r : Reading) (c : BoundedTtlCache V) (found : Option (Entry V))
      → ((get_entry key r c found).0.poisoned ≡ c.poisoned)
        × ((get_entry key r c found).0.ttl ≡ c.ttl)
  unfolding get_entry
  get_entry-same key r c none = (refl, refl)
  get_entry-same key r c (some f) = elim (Bool-cases (is_live_at f r)) [
    | inl live ↦ rw live (refl, refl)
    | inr dead ↦ rw dead (refl, refl)
  ]

  Tracks-get :
      (ttl key : ℕ) (r : Reading) (c : BoundedTtlCache V) (ops : List (Op V))
      → Tracks ttl c ops
      → Tracks ttl (Cache.get key r c).0 (get key r ∷ ops)
  unfolding latest
  Tracks-get ttl key r c ops t =
      let found = lookup key c.entries in
      let (still, kept) = get_entry-same key r c found in
      let valid = get-IsValid key r c t.valid in
      rw ((get_open key r c t.usable)) (record {
        valid = rw ((get_open key r c t.usable)) at valid;
        usable = still ∙ t.usable;
        same_ttl = kept ∙ t.same_ttl;
        entries = λ q e h. t.entries q e (get_entry-entries key r c found q e h);
      })

  Tracks-insert :
      (ttl key : ℕ) (value : V) (bound : Option ℕ) (r : Reading) (c : BoundedTtlCache V)
      (ops : List (Op V))
      → Tracks ttl c ops
      → Tracks ttl (Cache.insert key value bound r c).0 (insert key value bound r ∷ ops)
  unfolding latest
  Tracks-insert ttl key value bound r c ops t =
      let valid = insert-IsValid key value bound r c t.valid in
      let made = make_room key r c.capacity c.entries in
      let fresh = new_entry c.ttl value bound r in
      rw ((insert_open key value bound r c t.usable)) (record {
        valid = rw ((insert_open key value bound r c t.usable)) at valid;
        usable = t.usable;
        same_ttl = t.same_ttl;
        entries = λ q e h. elim (Bool-cases (key == q)) [
          | inl same ↦
              let e_is : fresh ≡ e = ground (arith, Assoc.lookup-insert key q fresh made) in
              (
                record { value = value; bound = bound; at = r },
                if_true _ _ same,
                sym e_is ∙ ap (λ t. new_entry t value bound r) t.same_ttl,
              )
          | inr other ↦
              let h' : lookup q made ≡ some e =
                ground (arith, Assoc.lookup-insert key q fresh made) in
              let (d, old, e_is) =
                t.entries q e
                  (lookup-make_room key r c.capacity c.entries q e t.valid.distinct h') in
              (d, if_false _ _ other ∙ old, e_is)
        ];
      })

  Tracks-invalidate :
      (ttl key : ℕ) (c : BoundedTtlCache V) (ops : List (Op V))
      → Tracks ttl c ops
      → Tracks ttl (Cache.invalidate key c).0 (invalidate key ∷ ops)
  unfolding latest
  Tracks-invalidate ttl key c ops t =
      let valid = invalidate-IsValid key c t.valid in
      rw ((invalidate_open key c t.usable)) (record {
        valid = rw ((invalidate_open key c t.usable)) at valid;
        usable = t.usable;
        same_ttl = t.same_ttl;
        entries = λ q e h. elim (Bool-cases (key == q)) [
          | inl same ↦ absurd (ground (arith, Assoc.lookup-remove key q c.entries))
          | inr other ↦
              let (d, old, e_is) =
                t.entries q e (ground (arith, Assoc.lookup-remove key q c.entries)) in
              (d, if_false _ _ other ∙ old, e_is)
        ];
      })

  -- After any history a cache is valid and its lock is not poisoned, it keeps its TTL, and each of
  -- its entries is the latest insertion under its key, with the deadlines of that insertion.
  pub run-Tracks :
      (capacity ttl : ℕ) (ops : List (Op V))
      → Tracks (min ttl max_ttl) (run ops (new capacity ttl)) ops
  unfolding run step
  run-Tracks capacity ttl [] = record {
    valid = new-IsValid capacity ttl;
    usable = unfold new in refl;
    same_ttl = unfold new in refl;
    entries = λ q e h. absurd (unfold new in ground arith);
  }
  run-Tracks capacity ttl (get key r ∷ ops) =
      Tracks-get _ key r (run ops (new capacity ttl)) ops (run-Tracks capacity ttl ops)
  run-Tracks capacity ttl (insert key value bound r ∷ ops) =
      Tracks-insert _ key value bound r (run ops (new capacity ttl)) ops
        (run-Tracks capacity ttl ops)
  run-Tracks capacity ttl (invalidate key ∷ ops) =
      Tracks-invalidate _ key (run ops (new capacity ttl)) ops (run-Tracks capacity ttl ops)

  new_entry-value :
      (ttl : ℕ) (value : V) (bound : Option ℕ) (r : Reading)
      → (new_entry ttl value bound r).value ≡ value
  unfolding new_entry
  new_entry-value ttl value bound r = refl

  -- Whatever the history of a cache and however often a key was read, a value that `get` returns
  -- is that of the key's latest insertion, with no invalidation since, and was inserted less than
  -- 30 seconds before, on the monotonic and on the wall clock, and before the credential's expiry.
  pub get_revocation_bound :
      (capacity ttl : ℕ) (ops : List (Op V)) (key : ℕ) (r : Reading) (value : V)
      → (Cache.get key r (run ops (new capacity ttl))).1 ≡ ok (some value)
      → (d : Deposit V) × (latest ops key ≡ some d)
        × (d.value ≡ value)
        × IsWithin max_ttl d.bound d.at r
  get_revocation_bound capacity ttl ops key r value h =
      let c = run ops (new capacity ttl) in
      let t = run-Tracks capacity ttl ops in
      let h' : (get_entry key r c (lookup key c.entries)).1 ≡ ok (some value) =
        rw ((get_open key r c t.usable)) at h in
      let (e, found, live, value_is) = get_entry-some key r c (lookup key c.entries) value h' in
      let (d, newest, e_is) = t.entries key e found in
      let live' : is_live_at (new_entry (min ttl max_ttl) d.value d.bound d.at) r ≡ true =
        subst (λ x. is_live_at x r ≡ true) e_is live in
      (
        d,
        newest,
        sym (new_entry-value _ d.value d.bound d.at) ∙ sym (ap (λ x. x.value) e_is) ∙ value_is,
        IsWithin-le (min ttl max_ttl) max_ttl d.bound d.at r (omega arith)
            ((new_entry-live (min ttl max_ttl) d.value d.bound d.at r).0 live'),
      )
