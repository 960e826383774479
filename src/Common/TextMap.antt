-- ===== src/Common/TextMap.antt =====
-- Maps with text keys as association lists.

use mathlib.Core.Path.{◌≡◌, refl, subst₂}
use mathlib.Core.Bool.{false}
use mathlib.Core.Logic.{inl, inr}
use mathlib.Core.List.{List, [], ◌∷◌}
use mathlib.Core.Option.{Option, none, some}
use native.Mathlib.Omega.{arith}
use aeon_iq_temp.Common.Tests.{if◌then◌else◌, Bool-cases}
use aeon_iq_temp.Common.Lists.{All}
use aeon_iq_temp.Common.Strings.{Text, text_eq, text_eq_iff, text_eq_refl}

module _ {ℓ} {V : Type ℓ} where
  abbrev pub lookup : Text → List (Text × V) → Option V
  lookup k [] = none
  lookup k ((j, v) ∷ m) = if text_eq j k then some v else lookup k m

  abbrev pub remove : Text → List (Text × V) → List (Text × V)
  remove k [] = []
  remove k ((j, v) ∷ m) = let rest = remove k m in if text_eq j k then rest else (j, v) ∷ rest

  abbrev pub insert : Text → V → List (Text × V) → List (Text × V)
  insert k v m = (k, v) ∷ remove k m

  pub lookup-remove_self : (k : Text) (m : List (Text × V)) → lookup k (remove k m) ≡ none
  lookup-remove_self k [] = refl
  lookup-remove_self k ((j, v) ∷ m) = ground (arith, lookup-remove_self k m)

  pub lookup-remove_other :
      (k q : Text) (m : List (Text × V)) → text_eq k q ≡ false → lookup q (remove k m) ≡ lookup q m
  lookup-remove_other k q [] h = refl
  lookup-remove_other k q ((j, v) ∷ m) h =
      ground (arith, lookup-remove_other k q m, text_eq_iff j k)

  pub lookup-insert_self :
      (k : Text) (v : V) (m : List (Text × V)) → lookup k (insert k v m) ≡ some v
  lookup-insert_self k v m = ground (arith, text_eq_refl k)

  pub lookup-insert_other :
      (k q : Text) (v : V) (m : List (Text × V))
      → text_eq k q ≡ false
      → lookup q (insert k v m) ≡ lookup q m
  lookup-insert_other k q v m h = ground (arith, lookup-remove_other k q m)

  pub All-remove :
      (P : Text × V → Type 0) (k : Text) (m : List (Text × V)) → All P m → All P (remove k m)
  All-remove P k [] h = tt
  All-remove P k ((j, v) ∷ m) h = ground (arith, All-remove P k m)

  pub All-lookup :
      (P : Text × V → Type 0) (k : Text) (m : List (Text × V)) (v : V)
      → All P m
      → lookup k m ≡ some v
      → P (k, v)
  All-lookup P k [] v h e = cc
  All-lookup P k ((j, w) ∷ m) v h e = elim (Bool-cases (text_eq j k)) [
    | inl same ↦ subst₂ (λ a b. P (a, b)) ((text_eq_iff j k).0 same) (ground arith) h.0
    | inr other ↦ All-lookup P k m v h.1 (ground arith)
  ]
