-- ===== src/Tenancy/Plan/Foreign.antt =====
-- The foreign keys of src/tenancy/plan.rs: what they reference is planned in time, and what the plan
-- says of their null keys is so.

use aeon_iq_temp.Common.{
  texts_eq, texts_eq→eq, ◌≤◌, Bool, true, false, not, ◌&&◌, List, [], ◌∷◌, Option, none, some, Text,
  text_eq, text_eq→eq, any, all, is_empty, leb, leb→le, ◌≡◌, refl, sym, ap, ◌∙◌, arith, IsIn,
  all-IsIn, any-IsIn, if_false,
}
use aeon_iq_temp.Tenancy.Plan.Kinds.{Tranche, rank, null_key_rows_unchecked}
use aeon_iq_temp.Tenancy.Plan.Objects.{
  PlannedObject, column, unique_target, table, local_columns, referenced, declared_in,
  creating_tranche, unenforced_when_null,
}
use aeon_iq_temp.Tenancy.Plan.Schema.{planned_objects}
use aeon_iq_temp.Tenancy.Plan.Lookup.{
  nullable_local_columns, nullable_local_columns_in, is_nullable_column,
  transition_nullable_local_columns, transition_match_semantics, transition_semantics,
}

abbrev pub is_target : PlannedObject → Bool
is_target (unique_target t n cols st c) = true
is_target _ = false

abbrev pub is_column : PlannedObject → Bool
is_column (column t n ty nu c) = true
is_column _ = false

-- Something made in the first tranche, or there already, is ready for the second.
abbrev pub IsReady : Option Tranche → Tranche → Type 0
IsReady none used = Unit
IsReady (some made) used = rank made ≤ rank used

abbrev is_ready : Option Tranche → Tranche → Bool
is_ready none used = true
is_ready (some made) used = leb (rank made) (rank used)

is_ready-IsReady : (o : Option Tranche) (used : Tranche) → is_ready o used ≡ true → IsReady o used
is_ready-IsReady none used h = tt
is_ready-IsReady (some made) used h = leb→le (rank made) (rank used) h

abbrev covers : Text → List Text → Tranche → PlannedObject → Bool
covers parent columns used p =
    is_target p
    && text_eq (table p) parent
    && texts_eq (local_columns p) columns
    && is_ready (creating_tranche p) used

abbrev is_covered : Tranche → Option (Text × List Text) → List PlannedObject → Bool
is_covered used none objects = true
is_covered used (some (parent, columns)) objects = any (covers parent columns used) objects

all_covered :
    all (λ o. is_covered (declared_in o) (referenced o) planned_objects) planned_objects ≡ true
unfolding planned_objects
all_covered = refl

covers_parts :
    (parent : Text) (columns : List Text) (used : Tranche) (p : PlannedObject)
    → covers parent columns used p ≡ true
    → (is_target p ≡ true)
      × (table p ≡ parent)
      × (local_columns p ≡ columns)
      × IsReady (creating_tranche p) used
covers_parts parent columns used p h = (
  ground arith,
  text_eq→eq (table p) parent (ground arith),
  texts_eq→eq (local_columns p) columns (ground arith),
  is_ready-IsReady (creating_tranche p) used (ground arith),
)

-- Every planned foreign key references, in this order, the columns of a planned unique target of
-- the parent table that the live schema has already or that is created in no later tranche.
pub references_covered :
    (o : PlannedObject) (parent : Text) (columns : List Text)
    → IsIn o planned_objects
    → referenced o ≡ some (parent, columns)
    → (p : PlannedObject) × IsIn p planned_objects
      × (is_target p ≡ true)
      × (table p ≡ parent)
      × (local_columns p ≡ columns)
      × IsReady (creating_tranche p) (declared_in o)
references_covered o parent columns m h =
    let checked =
      all-IsIn (λ o. is_covered (declared_in o) (referenced o) planned_objects) planned_objects o
        all_covered m in
    let here : any (covers parent columns (declared_in o)) planned_objects ≡ true =
      ap (λ r. is_covered (declared_in o) r planned_objects) (sym h) ∙ checked in
    let (p, there, hit) = any-IsIn (covers parent columns (declared_in o)) planned_objects here in
    let (kind, on_parent, on_columns, ready) = covers_parts parent columns (declared_in o) p hit in
    (p, there, kind, on_parent, on_columns, ready)

abbrev flag_agrees : Option Bool → List Text → List Text → Bool
flag_agrees none after during = true
flag_agrees (some true) after during = not (is_empty after) && not (is_empty during)
flag_agrees (some false) after during = is_empty after && not (is_empty during)

all_flags :
    all
      (λ o.
        flag_agrees
          (unenforced_when_null o)
          (nullable_local_columns o)
          (transition_nullable_local_columns o))
      planned_objects
    ≡ true
unfolding planned_objects nullable_local_columns nullable_local_columns_in is_nullable_column
    transition_nullable_local_columns
all_flags = refl

-- A planned foreign key is marked as not enforced for null keys exactly when one of its local
-- columns may be NULL in the end; and until the ownership columns are tightened none of the
-- planned keys checks every row.
pub null_keys_marked :
    (o : PlannedObject) (marked : Bool)
    → IsIn o planned_objects
    → unenforced_when_null o ≡ some marked
    → (marked ≡ not (is_empty (nullable_local_columns o)))
      × (transition_match_semantics o ≡ some null_key_rows_unchecked)
unfolding transition_match_semantics
null_keys_marked o marked m h =
    let checked =
      all-IsIn
        (λ o.
          flag_agrees (unenforced_when_null o) (nullable_local_columns o)
            (transition_nullable_local_columns o))
        planned_objects o all_flags m in
    let here =
      ap (λ b. flag_agrees b (nullable_local_columns o) (transition_nullable_local_columns o))
        (sym h)
      ∙ checked in
    let (honest, open_now) =
      read_flags marked (nullable_local_columns o) (transition_nullable_local_columns o) here in
    (
      honest,
      ap (λ b. transition_semantics b (transition_nullable_local_columns o)) h
          ∙ ap some (if_false _ _ open_now),
    )
  where
    read_flags :
        (b : Bool) (xs ys : List Text)
        → flag_agrees (some b) xs ys ≡ true
        → (b ≡ not (is_empty xs)) × (is_empty ys ≡ false)
    read_flags true [] ys e = absurd (cc)
    read_flags true (x ∷ xs) [] e = absurd (cc)
    read_flags true (x ∷ xs) (y ∷ ys) e = (refl, refl)
    read_flags false (x ∷ xs) ys e = absurd (cc)
    read_flags false [] [] e = absurd (cc)
    read_flags false [] (y ∷ ys) e = (refl, refl)
