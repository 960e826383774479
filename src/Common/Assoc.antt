-- ===== src/Common/Assoc.antt =====
-- Maps with number keys as association lists in which each key stands once.
use Prim.Native.Nat.{ℕ, ◌≤◌, ◌<◌}
use mathlib.Core.Path.{◌≡◌, refl, subst₂}
use mathlib.Core.Bool.{Bool, true, false}
use mathlib.Core.Logic.{inl, inr}
use mathlib.Core.List.{List, [], ◌∷◌}
use mathlib.Core.Option.{Option, none, some}
use native.Mathlib.Omega.{arith}
use aeon_iq_temp.Common.Tests.{◌==◌, if◌then◌else◌, ==_iff, Bool-cases}
use aeon_iq_temp.Common.Lists.{length, filter, All}

module _ {ℓ} {V : Type ℓ} where
  abbrev pub lookup : ℕ → List (ℕ × V) → Option V
  lookup k [] = none
  lookup k ((j, v) ∷ m) = if j == k then some v else lookup k m

  abbrev pub contains_key : ℕ → List (ℕ × V) → Bool
  contains_key k [] = false
  contains_key k ((j, v) ∷ m) = if j == k then true else contains_key k m

  -- `HashMap::remove`
  abbrev pub remove : ℕ → List (ℕ × V) → List (ℕ × V)
  remove k [] = []
  remove k ((j, v) ∷ m) = let rest = remove k m in if j == k then rest else (j, v) ∷ rest

  -- `HashMap::insert`
  abbrev pub insert : ℕ → V → List (ℕ × V) → List (ℕ × V)
  insert k v m = (k, v) ∷ remove k m

  -- No key stands twice.
  abbrev pub IsDistinct : List (ℕ × V) → Type 0
  IsDistinct [] = Unit
  IsDistinct ((j, v) ∷ m) = (contains_key j m ≡ false) × IsDistinct m

  pub lookup-remove_self : (k : ℕ) (m : List (ℕ × V)) → lookup k (remove k m) ≡ none
  lookup-remove_self k [] = refl
  lookup-remove_self k ((j, v) ∷ m) = ground (arith, lookup-remove_self k m)

  pub lookup-remove :
      (k q : ℕ) (m : List (ℕ × V)) → lookup q (remove k m) ≡ (if k == q then none else lookup q m)
  lookup-remove k q [] = ground arith
  lookup-remove k q ((j, v) ∷ m) = ground (arith, lookup-remove k q m)

  pub lookup-insert :
      (k q : ℕ) (v : V) (m : List (ℕ × V))
      → lookup q (insert k v m) ≡ (if k == q then some v else lookup q m)
  lookup-insert k q v m = ground (arith, lookup-remove k q m)

  pub contains_key-remove :
      (k q : ℕ) (m : List (ℕ × V))
      → contains_key q (remove k m) ≡ (if k == q then false else contains_key q m)
  contains_key-remove k q [] = ground arith
  contains_key-remove k q ((j, v) ∷ m) = ground (arith, contains_key-remove k q m)

  pub remove-IsDistinct : (k : ℕ) (m : List (ℕ × V)) → IsDistinct m → IsDistinct (remove k m)
  remove-IsDistinct k [] d = tt
  remove-IsDistinct k ((j, v) ∷ m) d =
      ground (arith, remove-IsDistinct k m, contains_key-remove k j m)

  pub insert-IsDistinct :
      (k : ℕ) (v : V) (m : List (ℕ × V)) → IsDistinct m → IsDistinct (insert k v m)
  insert-IsDistinct k v m d = (ground (arith, contains_key-remove k k m), remove-IsDistinct k m d)

  pub length-remove-le : (k : ℕ) (m : List (ℕ × V)) → length (remove k m) ≤ length m
  length-remove-le k [] = omega arith
  length-remove-le k ((j, v) ∷ m) = ground (arith, length-remove-le k m)

  -- Dropping a key that is there makes the map shorter.
  pub length-remove-lt :
      (k : ℕ) (m : List (ℕ × V)) → contains_key k m ≡ true → length (remove k m) < length m
  length-remove-lt k [] h = ground arith
  length-remove-lt k ((j, v) ∷ m) h = ground (arith, length-remove-lt k m, length-remove-le k m)

  pub contains_key-lookup :
      (k : ℕ) (m : List (ℕ × V)) → contains_key k m ≡ false → lookup k m ≡ none
  contains_key-lookup k [] h = refl
  contains_key-lookup k ((j, v) ∷ m) h = ground (arith, contains_key-lookup k m)

  pub All-remove : (P : ℕ × V → Type 0) (k : ℕ) (m : List (ℕ × V)) → All P m → All P (remove k m)
  All-remove P k [] h = tt
  All-remove P k ((j, v) ∷ m) h = ground (arith, All-remove P k m)

  -- What `lookup` finds stands in the list.
  pub All-lookup :
      (P : ℕ × V → Type 0) (k : ℕ) (m : List (ℕ × V)) (v : V)
      → All P m
      → lookup k m ≡ some v
      → P (k, v)
  All-lookup P k [] v h e = cc
  All-lookup P k ((j, w) ∷ m) v h e = elim (Bool-cases (j == k)) [
    | inl same ↦ subst₂ (λ a b. P (a, b)) ((==_iff j k).0 same) (ground arith) h.0
    | inr other ↦ All-lookup P k m v h.1 (ground arith)
  ]

  pub All-filter :
      (P : ℕ × V → Type 0) (p : ℕ × V → Bool) (m : List (ℕ × V)) → All P m → All P (filter p m)
  All-filter P p [] h = tt
  All-filter P p (e ∷ m) h = ground (arith, All-filter P p m)

  contains_key-filter :
      (p : ℕ × V → Bool) (q : ℕ) (m : List (ℕ × V))
      → contains_key q m ≡ false
      → contains_key q (filter p m) ≡ false
  contains_key-filter p q [] h = refl
  contains_key-filter p q ((j, v) ∷ m) h = ground (arith, contains_key-filter p q m)

  pub filter-IsDistinct :
      (p : ℕ × V → Bool) (m : List (ℕ × V)) → IsDistinct m → IsDistinct (filter p m)
  filter-IsDistinct p [] d = tt
  filter-IsDistinct p ((j, v) ∷ m) d =
      ground (arith, filter-IsDistinct p m, contains_key-filter p j m)

  -- In a map whose keys are distinct, a filter keeps an entry exactly when it passes.
  pub lookup-filter :
      (p : ℕ × V → Bool) (q : ℕ) (m : List (ℕ × V)) (v : V)
      → lookup q m ≡ some v
      → p (q, v) ≡ true
      → lookup q (filter p m) ≡ some v
  lookup-filter p q [] v h e = h
  lookup-filter p q ((j, w) ∷ m) v h e = elim (Bool-cases (j == q)) [
    | inl same ↦
        let key = (==_iff j q).0 same in
        let value : w ≡ v = ground arith in
        let keep : p (j, w) ≡ true = rw (key, value) e in ground arith
    | inr other ↦ ground (arith, lookup-filter p q m v)
  ]

  pub lookup-of-filter :
      (p : ℕ × V → Bool) (q : ℕ) (m : List (ℕ × V)) (v : V)
      → IsDistinct m
      → lookup q (filter p m) ≡ some v
      → lookup q m ≡ some v
  lookup-of-filter p q [] v d h = h
  lookup-of-filter p q ((j, w) ∷ m) v d h = ground (
    arith,
    lookup-of-filter p q m v,
    ==_iff j q,
    contains_key-lookup q (filter p m),
    contains_key-filter p q m,
  )
