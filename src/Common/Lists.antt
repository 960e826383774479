-- ===== src/Common/Lists.antt =====
-- Lists measured by native numbers, and searched by Boolean tests.
use Prim.Native.Nat.{ℕ, suc, ◌+◌, ◌≤◌}
use mathlib.Core.Path.{◌≡◌, refl, sym, ap, ◌∙◌}
use mathlib.Core.Bool.{Bool, true, false, ◌&&◌, ◌||◌}
use mathlib.Core.List.{List, [], ◌∷◌, ◌++◌}
use mathlib.Core.Logic.{◌⊎◌, ◌↔◌, inl, inr}
use mathlib.Core.Option.{Option, none, some}
use native.Mathlib.Omega.{arith}
use aeon_iq_temp.Common.Tests.{if◌then◌else◌, Bool-cases}

module _ {ℓ} {A : Type ℓ} where
  abbrev pub length : List A → ℕ
  length [] = 0
  length (x ∷ xs) = suc (length xs)

  -- `Iterator::any`, `Iterator::all`, `Iterator::find`
  abbrev pub any : (A → Bool) → List A → Bool
  any p [] = false
  any p (x ∷ xs) = p x || any p xs

  abbrev pub all : (A → Bool) → List A → Bool
  all p [] = true
  all p (x ∷ xs) = p x && all p xs

  abbrev pub find : (A → Bool) → List A → Option A
  find p [] = none
  find p (x ∷ xs) = if p x then some x else find p xs

  -- `Vec::retain`, `Iterator::filter`
  abbrev pub filter : (A → Bool) → List A → List A
  filter p [] = []
  filter p (x ∷ xs) = let rest = filter p xs in if p x then x ∷ rest else rest

  abbrev pub is_empty : List A → Bool
  is_empty [] = true
  is_empty (x ∷ xs) = false

  -- Every element satisfies the predicate; some element does.
  abbrev pub All : (A → Type 0) → List A → Type 0
  All P [] = Unit
  All P (x ∷ xs) = P x × All P xs

  abbrev pub Any : (A → Type 0) → List A → Type 0
  Any P [] = ⊥
  Any P (x ∷ xs) = P x ⊎ Any P xs

  pub length-append : (xs ys : List A) → length (xs ++ ys) ≡ length xs + length ys
  length-append [] ys = omega arith
  length-append (x ∷ xs) ys = omega (arith, length-append xs ys)

  pub length-filter-le : (p : A → Bool) (xs : List A) → length (filter p xs) ≤ length xs
  length-filter-le p [] = omega arith
  length-filter-le p (x ∷ xs) = ground (arith, length-filter-le p xs)

  pub find-test : (p : A → Bool) (xs : List A) (x : A) → find p xs ≡ some x → p x ≡ true
  find-test p [] x h = absurd (cc)
  find-test p (y ∷ xs) x h = elim (Bool-cases (p y)) [
    | inl hit ↦ let this : y ≡ x = ground arith in ap p (sym this) ∙ hit
    | inr miss ↦ find-test p xs x (ground arith)
  ]

  pub find-any :
      (p q : A → Bool) (xs : List A) (x : A) → find p xs ≡ some x → any q xs ≡ false → q x ≡ false
  find-any p q [] x h n = absurd (cc)
  find-any p q (y ∷ xs) x h n = elim (Bool-cases (p y)) [
    | inl hit ↦ let this : y ≡ x = ground arith in ap q (sym this) ∙ ground arith
    | inr miss ↦ find-any p q xs x (ground arith) (ground arith)
  ]

  pub any-find : (p : A → Bool) (xs : List A) → any p xs ≡ true → (x : A) × (find p xs ≡ some x)
  any-find p [] h = absurd (cc)
  any-find p (y ∷ xs) h = elim (Bool-cases (p y)) [
    | inl hit ↦ (y, ground arith)
    | inr miss ↦ let (x, found) = any-find p xs (ground arith) in (x, ground arith)
  ]

module _ {A : Type 0} where
  abbrev pub IsIn : A → List A → Type 0
  IsIn x [] = ⊥
  IsIn x (y ∷ ys) = (y ≡ x) ⊎ IsIn x ys

  -- A test on every element, and on some, read as statements.
  pub all-IsIn : (p : A → Bool) (xs : List A) (x : A) → all p xs ≡ true → IsIn x xs → p x ≡ true
  all-IsIn p [] x h m = absurd m
  all-IsIn p (y ∷ xs) x h (inl here) = ap p (sym here) ∙ ground arith
  all-IsIn p (y ∷ xs) x h (inr later) = all-IsIn p xs x (ground arith) later

  pub any-IsIn : (p : A → Bool) (xs : List A) → any p xs ≡ true → (x : A) × IsIn x xs × (p x ≡ true)
  any-IsIn p [] h = absurd (cc)
  any-IsIn p (y ∷ xs) h = elim (Bool-cases (p y)) [
    | inl hit ↦ (y, inl refl, hit)
    | inr miss ↦ let (x, m, hit) = any-IsIn p xs (ground arith) in (x, inr m, hit)
  ]

  pub filter-IsIn :
      (p : A → Bool) (xs : List A) (x : A) → IsIn x (filter p xs) ↔ (IsIn x xs × (p x ≡ true))
  filter-IsIn p [] x = (λ m. absurd m, λ (m, _). absurd m)
  filter-IsIn p (y ∷ xs) x =
      let (below, above) = filter-IsIn p xs x in
      elim (Bool-cases (p y)) [
        | inl hit ↦ rw hit (
          λ m. elim m [
            | inl here ↦ (inl here, ap p (sym here) ∙ hit)
            | inr later ↦ let (m', h) = below later in (inr m', h)
          ],
          λ (m, h). elim m [ inl here ↦ inl here | inr later ↦ inr (above (later, h)) ],
        )
        | inr miss ↦ rw miss (
          λ m. let (m', h) = below m in (inr m', h),
          λ (m, h). elim m [
            | inl here ↦ absurd (let e = sym (ap p here ∙ h) ∙ miss in cc)
            | inr later ↦ above (later, h)
          ],
        )
      ]

  pub all_append : (p : A → Bool) (xs ys : List A) → all p (xs ++ ys) ≡ (all p xs && all p ys)
  all_append p [] ys = refl
  all_append p (x ∷ xs) ys = let rest = all_append p xs ys in ground arith

  pub any_append : (p : A → Bool) (xs ys : List A) → any p (xs ++ ys) ≡ (any p xs || any p ys)
  any_append p [] ys = refl
  any_append p (x ∷ xs) ys = let rest = any_append p xs ys in ground arith

  pub is_empty_append : (xs ys : List A) → is_empty (xs ++ ys) ≡ (is_empty xs && is_empty ys)
  is_empty_append [] ys = refl
  is_empty_append (x ∷ xs) ys = refl
