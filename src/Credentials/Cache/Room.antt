-- ===== src/Credentials/Cache/Room.antt =====
-- How src/credentials/cache.rs makes room: what `make_room` drops, and what it keeps.
use mathlib.Core.Path.{subst}
use aeon_iq_temp.Common.Assoc
use aeon_iq_temp.Common.Assoc.{IsDistinct, lookup, remove, contains_key}
use aeon_iq_temp.Common.{
  ℕ, zero, suc, ◌≤◌, ◌<◌, true, false, not, ◌&&◌, List, [], ◌∷◌, none, some, length, filter,
  length-filter-le, All, leb, ◌==◌, Bool-cases, Option-cases, inl, inr, ◌≡◌, ◌⊎◌, refl, arith,
  ==_iff, ==_refl,
}
use aeon_iq_temp.Credentials.Cache.{Reading, Entry, is_live_at, soonest, drop_soonest, make_room}

module _ {ℓ} {V : Type ℓ} where
  soonest-none : (m : List (ℕ × Entry V)) → soonest m ≡ none → m ≡ []
  unfolding soonest
  soonest-none [] h = refl
  soonest-none (e ∷ m) h = absurd (ground arith)

  All-later :
      (a b : ℕ) (m : List (ℕ × Entry V))
      → a ≤ b
      → All (λ e. b ≤ e.1.expires_tick) m
      → All (λ e. a ≤ e.1.expires_tick) m
  All-later a b [] l h = tt
  All-later a b (e ∷ m) l h = (omega arith, All-later a b m l h.1)

  -- The victim is an entry of the map with the earliest deadline.
  soonest-least :
      (m : List (ℕ × Entry V)) (v : ℕ × Entry V)
      → soonest m ≡ some v
      → All (λ e. v.1.expires_tick ≤ e.1.expires_tick) m × (contains_key v.0 m ≡ true)
  unfolding soonest
  soonest-least [] v h = absurd (ground arith)
  soonest-least (e ∷ m) v h = elim (Option-cases (soonest m)) [
    | inl last ↦
        let e_is : e ≡ v = ground arith in
        subst
          (λ w.
            All (λ e'. w.1.expires_tick ≤ e'.1.expires_tick) (e ∷ m)
            × (contains_key w.0 (e ∷ m) ≡ true))
          e_is (rw (soonest-none m last) ((omega arith, tt), ground arith))
    | inr (f, more) ↦
        let (least, there) = soonest-least m f more in
        elim (Bool-cases (leb e.1.expires_tick f.1.expires_tick)) [
          | inl before ↦
              let e_is : e ≡ v = ground arith in
              subst
                (λ w.
                  All (λ e'. w.1.expires_tick ≤ e'.1.expires_tick) (e ∷ m)
                  × (contains_key w.0 (e ∷ m) ≡ true))
                e_is
                (
                  (omega arith, All-later e.1.expires_tick f.1.expires_tick m (ground arith) least),
                  ground arith,
                )
          | inr after ↦
              let f_is : f ≡ v = ground arith in
              subst
                (λ w.
                  All (λ e'. w.1.expires_tick ≤ e'.1.expires_tick) (e ∷ m)
                  × (contains_key w.0 (e ∷ m) ≡ true))
                f_is ((ground arith, least), ground arith)
        ]
  ]

  soonest-lookup :
      (m : List (ℕ × Entry V)) (v : ℕ × Entry V)
      → IsDistinct m
      → soonest m ≡ some v
      → lookup v.0 m ≡ some v.1
  unfolding soonest
  soonest-lookup [] v d h = absurd (ground arith)
  soonest-lookup (e ∷ m) v d h = elim (Option-cases (soonest m)) [
    | inl last ↦ head (ground arith)
    | inr (f, more) ↦ elim (Bool-cases (leb e.1.expires_tick f.1.expires_tick)) [
      | inl before ↦ head (ground arith)
      | inr after ↦
          let there = (soonest-least m f more).1 in
          let found = soonest-lookup m f d.1 more in
          let f_is : f ≡ v = ground arith in
          subst (λ w. lookup w.0 (e ∷ m) ≡ some w.1) f_is
            (elim (Bool-cases (e.0 == f.0)) [
              | inl same ↦ absurd (clash f.0 ((==_iff e.0 f.0).0 same) there)
              | inr apart ↦ rw apart found
            ])
    ]
  ]
    where
      head : e ≡ v → lookup v.0 (e ∷ m) ≡ some v.1
      head e_is = subst (λ w. lookup w.0 (e ∷ m) ≡ some w.1) e_is (rw (==_refl e.0))

      clash : (k : ℕ) → e.0 ≡ k → contains_key k m ≡ true → ⊥
      clash k same there =
          let here : contains_key k m ≡ false = subst (λ j. contains_key j m ≡ false) same d.0 in cc

  length-drop_soonest :
      (m : List (ℕ × Entry V)) (n : ℕ) → length m ≤ suc n → length (drop_soonest m) ≤ n
  unfolding drop_soonest
  length-drop_soonest m n h = elim (Option-cases (soonest m)) [
    | inl e ↦ rw (e, drop_soonest, soonest-none m e) (omega arith)
    | inr (v, e) ↦
        rw (e, drop_soonest) (omega (arith, Assoc.length-remove-lt v.0 m (soonest-least m v e).1))
  ]

  drop_soonest-IsDistinct : (m : List (ℕ × Entry V)) → IsDistinct m → IsDistinct (drop_soonest m)
  unfolding drop_soonest
  drop_soonest-IsDistinct m d = elim (Option-cases (soonest m)) [
    | inl e ↦ rw (e, drop_soonest) d
    | inr (v, e) ↦ rw (e, drop_soonest) (Assoc.remove-IsDistinct v.0 m d)
  ]

  lookup-drop_soonest :
      (m : List (ℕ × Entry V)) (q : ℕ) (e : Entry V)
      → lookup q (drop_soonest m) ≡ some e
      → lookup q m ≡ some e
  unfolding drop_soonest
  lookup-drop_soonest m q e h = elim (Option-cases (soonest m)) [
    | inl miss ↦ rw (miss, drop_soonest) at h
    | inr (v, hit) ↦
        let k : lookup q (remove v.0 m) ≡ some e = rw (hit, drop_soonest) at h in
        ground (arith, Assoc.lookup-remove v.0 q m)
  ]

  module _ (key : ℕ) (r : Reading) where
    -- Below the capacity there is room for one more entry, or the key has its place already.
    pub length-make_room :
        (capacity : ℕ) (m : List (ℕ × Entry V))
        → 0 < capacity
        → length m ≤ capacity
        → length (remove key (make_room key r capacity m)) < capacity
    unfolding make_room
    length-make_room zero m pos h = absurd (omega arith)
    length-make_room (suc n) m pos h =
        let kept = filter (λ e. is_live_at e.1 r) m in
        elim (Bool-cases (leb (suc n) (length m) && not (contains_key key m))) [
          | inl full ↦ elim (Bool-cases (leb (suc n) (length kept))) [
            | inl still ↦
                rw (full, still)
                  (omega (
                    arith,
                    Assoc.length-remove-le key (drop_soonest kept),
                    length-drop_soonest kept n
                        (omega (arith, length-filter-le (λ e. is_live_at e.1 r) m)),
                  ))
            | inr less ↦ rw (full, less) (ground (arith, Assoc.length-remove-le key kept))
          ]
          | inr room ↦
              rw room (ground (arith, Assoc.length-remove-le key m, Assoc.length-remove-lt key m))
        ]

    pub make_room-IsDistinct :
        (capacity : ℕ) (m : List (ℕ × Entry V))
        → IsDistinct m
        → IsDistinct (make_room key r capacity m)
    unfolding make_room
    make_room-IsDistinct capacity m d =
        let live = Assoc.filter-IsDistinct (λ e. is_live_at e.1 r) m d in
        let kept = filter (λ e. is_live_at e.1 r) m in ground (arith, drop_soonest-IsDistinct kept)

    -- Making room only drops entries.
    pub lookup-make_room :
        (capacity : ℕ) (m : List (ℕ × Entry V)) (q : ℕ) (e : Entry V)
        → IsDistinct m
        → lookup q (make_room key r capacity m) ≡ some e
        → lookup q m ≡ some e
    unfolding make_room
    lookup-make_room capacity m q e d h =
        let kept = filter (λ e. is_live_at e.1 r) m in
        ground (
          arith,
          lookup-drop_soonest kept q e,
          Assoc.lookup-of-filter (λ e. is_live_at e.1 r) q m e d,
        )

    -- A live entry that is dropped had the earliest deadline of all the live entries, and these
    -- alone filled the cache.
    pub make_room_keeps :
        (capacity : ℕ) (m : List (ℕ × Entry V)) (q : ℕ) (e : Entry V)
        → IsDistinct m
        → lookup q m ≡ some e
        → is_live_at e r ≡ true
        → (lookup q (make_room key r capacity m) ≡ some e)
          ⊎ (All (λ f. e.expires_tick ≤ f.1.expires_tick) (filter (λ f. is_live_at f.1 r) m)
              × (capacity ≤ length (filter (λ f. is_live_at f.1 r) m)))
    unfolding make_room
    make_room_keeps capacity m q e d h live =
        let kept = filter (λ f. is_live_at f.1 r) m in
        let here : lookup q kept ≡ some e =
          Assoc.lookup-filter (λ f. is_live_at f.1 r) q m e h live in
        elim (Bool-cases (leb capacity (length m) && not (contains_key key m))) [
          | inr room ↦ inl (rw room h)
          | inl full ↦ elim (Bool-cases (leb capacity (length kept))) [
            | inr less ↦ inl (rw (full, less) here)
            | inl still ↦ elim (Option-cases (soonest kept)) [
              | inl miss ↦ inl (rw (full, still, miss, drop_soonest) here)
              | inr (v, hit) ↦ elim (Bool-cases (v.0 == q)) [
                | inr other ↦ inl (
                    rw (full, still, hit, drop_soonest)
                      (ground (arith, Assoc.lookup-remove v.0 q kept)))
                | inl same ↦
                    let found =
                      soonest-lookup kept v (Assoc.filter-IsDistinct (λ f. is_live_at f.1 r) m d)
                        hit in
                    let found' : lookup q kept ≡ some v.1 = rw (← (==_iff v.0 q).0 same) found in
                    let v_is : v.1 ≡ e = ground arith in
                    inr (
                      subst (λ w. All (λ f. w.expires_tick ≤ f.1.expires_tick) kept) v_is
                          (soonest-least kept v hit).0,
                      ground arith,
                    )
              ]
            ]
          ]
        ]
