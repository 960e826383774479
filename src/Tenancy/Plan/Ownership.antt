-- ===== src/Tenancy/Plan/Ownership.antt =====
-- How the parts of src/tenancy/plan.rs fit together: the bridges with the planned columns and the
-- backfill authorities, the blockers with the worklists, and the names with the objects.
use mathlib.Core.Path.{subst}
use aeon_iq_temp.Common.{
  Bool, true, false, not, ◌&&◌, ◌||◌, List, [], ◌∷◌, Option, none, some, text_eq, text_eq→eq,
  text_eq_refl, any, all, filter, ◌≡◌, ◌≢◌, ◌⊎◌, ◌↔◌, inl, inr, refl, sym, ap, ◌∙◌, arith,
  Option-cases, IsIn, all-IsIn,
}
use aeon_iq_temp.Tenancy.Plan.Kinds.{Tranche}
use aeon_iq_temp.Tenancy.Plan.Objects.{PlannedObject, table, name, creating_tranche}
use aeon_iq_temp.Tenancy.Plan.Schema.{planned_objects}
use aeon_iq_temp.Tenancy.Plan.Lookup.{is_built_in, prepare_worklist}
use aeon_iq_temp.Tenancy.Plan.Bridges.{TransitionalWrite, resolves_through_a_parent, transition_for}
use aeon_iq_temp.Tenancy.Plan.Authorities.{
  CompatibilityPrerequisite, compatibility_prerequisite_for, prepare_blockers, with_prerequisite,
  prepend, BackfillAuthority, backfill_authority_for,
}
use aeon_iq_temp.Tenancy.Plan.Foreign.{is_column}

-- The bridge and the authority of a table agree: one that resolves ownership through a parent has
-- an authority with an agreement predicate, and any other has no authority.
abbrev pub AreMatched : Option TransitionalWrite → Option BackfillAuthority → Type 0
AreMatched none authority = ⊥
AreMatched (some strategy) none = resolves_through_a_parent strategy ≡ false
AreMatched (some strategy) (some authority) =
    (resolves_through_a_parent strategy ≡ true) × (authority.agreement ≢ none)

abbrev is_some {ℓ} : {A : Type ℓ} → Option A → Bool
is_some none = false
is_some (some a) = true

abbrev are_matched : Option TransitionalWrite → Option BackfillAuthority → Bool
are_matched none authority = false
are_matched (some strategy) none = not (resolves_through_a_parent strategy)
are_matched (some strategy) (some authority) =
    resolves_through_a_parent strategy && is_some authority.agreement

are_matched-AreMatched :
    (s : Option TransitionalWrite) (a : Option BackfillAuthority)
    → are_matched s a ≡ true
    → AreMatched s a
are_matched-AreMatched none a h = absurd (cc)
are_matched-AreMatched (some s) none h = ground arith
are_matched-AreMatched (some s) (some a) h = (ground arith, λ e. absurd (ground arith))

all_matched :
    all
      (λ o.
        not (is_column o)
        || are_matched (transition_for (table o)) (backfill_authority_for (table o)))
      planned_objects
    ≡ true
unfolding planned_objects transition_for backfill_authority_for
all_matched = refl

-- Every table for which a column is planned has a transitional bridge; and where the bridge
-- resolves ownership through a parent, and only there, the table has a backfill authority, which
-- then has an agreement predicate.
pub bridges_matched :
    (o : PlannedObject)
    → IsIn o planned_objects
    → is_column o ≡ true
    → AreMatched (transition_for (table o)) (backfill_authority_for (table o))
bridges_matched o m kind =
    let checked =
      all-IsIn
        (λ o.
          not (is_column o)
          || are_matched (transition_for (table o)) (backfill_authority_for (table o)))
        planned_objects o all_matched m in
    are_matched-AreMatched (transition_for (table o)) (backfill_authority_for (table o)) (
      past (is_column o) (are_matched (transition_for (table o)) (backfill_authority_for (table o)))
        checked kind)
  where
    past : (a b : Bool) → (not a || b) ≡ true → a ≡ true → b ≡ true
    past a b h e = ground arith

with_prerequisite_iff :
    (objects : List PlannedObject) (p : CompatibilityPrerequisite)
    → IsIn p (with_prerequisite objects)
      ↔ ((o : PlannedObject) × IsIn o objects × (compatibility_prerequisite_for (name o) ≡ some p))
unfolding with_prerequisite
with_prerequisite_iff [] p = (λ m. absurd m, λ (o, m, _). absurd m)
with_prerequisite_iff (o ∷ objects) p =
    let (below, above) = with_prerequisite_iff objects p in
    elim (Option-cases (compatibility_prerequisite_for (name o))) [
      | inl free ↦ rw free (
        λ m. let (x, mx, h) = below m in (x, inr mx, h),
        λ (x, mx, h). elim mx [
          | inl here ↦ absurd (
              let e = sym (ap (λ y. compatibility_prerequisite_for (name y)) here ∙ h) ∙ free in cc)
          | inr later ↦ above (x, later, h)
        ],
      )
      | inr (r, bound) ↦
          subst
            (λ t. IsIn p (prepend t (with_prerequisite objects)) ↔ (
              (x : PlannedObject) × ((o ≡ x) ⊎ IsIn x objects)
              × (compatibility_prerequisite_for (name x) ≡ some p)))
            (sym bound)
            (
              λ m. elim m [
                | inl here ↦ (o, inl refl, bound ∙ ap some here)
                | inr later ↦ let (x, mx, h) = below later in (x, inr mx, h)
              ],
              λ (x, mx, h). elim mx [
                | inl here ↦ inl (
                    let e =
                      sym bound ∙ ap (λ y. compatibility_prerequisite_for (name y)) here ∙ h in
                    cc)
                | inr later ↦ inr (above (x, later, h))
              ],
            )
    ]

-- What blocks the PREPARE of a tranche is exactly the prerequisites of the objects on its worklist.
pub prepare_blockers_lem :
    (t : Tranche) (p : CompatibilityPrerequisite)
    → IsIn p (prepare_blockers t) ↔ (
        (o : PlannedObject) × IsIn o (prepare_worklist t)
        × (compatibility_prerequisite_for (name o) ≡ some p))
unfolding prepare_blockers prepare_worklist
prepare_blockers_lem t p =
    with_prerequisite_iff (filter (λ o. is_built_in t (creating_tranche o)) planned_objects) p

same_name : PlannedObject → PlannedObject → Bool
same_name o p = text_eq (table o) (table p) && text_eq (name o) (name p)

no_repeats : List PlannedObject → Bool
unfolding same_name
no_repeats [] = true
no_repeats (o ∷ objects) = not (any (same_name o) objects) && no_repeats objects

planned_no_repeats : no_repeats planned_objects ≡ true
unfolding planned_objects no_repeats same_name
planned_no_repeats = refl

repeated :
    (objects : List PlannedObject) (x p : PlannedObject)
    → IsIn p objects
    → same_name x p ≡ true
    → any (same_name x) objects ≡ true
repeated [] x p m h = absurd m
repeated (y ∷ objects) x p (inl here) h = let e = ap (same_name x) here ∙ h in ground arith
repeated (y ∷ objects) x p (inr later) h = let e = repeated objects x p later h in ground arith

same_name_sym : (o p : PlannedObject) → same_name o p ≡ true → same_name p o ≡ true
unfolding same_name
same_name_sym o p h =
    let et = text_eq→eq (table o) (table p) (ground arith) in
    let en = text_eq→eq (name o) (name p) (ground arith) in
    rw (et, en) (ground (arith, text_eq_refl (table p), text_eq_refl (name p)))

unrepeated :
    (objects : List PlannedObject) (o p : PlannedObject)
    → no_repeats objects ≡ true
    → IsIn o objects
    → IsIn p objects
    → same_name o p ≡ true
    → o ≡ p
unfolding no_repeats
unrepeated [] o p h mo mp e = absurd mo
unrepeated (x ∷ objects) o p h (inl eo) (inl ep) e = sym eo ∙ ep
unrepeated (x ∷ objects) o p h (inl eo) (inr mp) h' =
    absurd (let e = repeated objects x p mp (ap (λ y. same_name y p) eo ∙ h') in ground arith)
unrepeated (x ∷ objects) o p h (inr mo) (inl ep) h' = absurd (
    let e = repeated objects x o mo (ap (λ y. same_name y o) ep ∙ same_name_sym o p h') in
    ground arith)
unrepeated (x ∷ objects) o p h (inr mo) (inr mp) e = unrepeated objects o p (ground arith) mo mp e

-- No two planned objects of one table have one name.
pub planned_names_distinct :
    (o p : PlannedObject)
    → IsIn o planned_objects
    → IsIn p planned_objects
    → table o ≡ table p
    → name o ≡ name p
    → o ≡ p
unfolding same_name
planned_names_distinct o p mo mp et en =
    unrepeated planned_objects o p planned_no_repeats mo mp
      (ground (arith, text_eq_refl (table p), text_eq_refl (name p)))
