-- ===== src/Tenancy/Plan/Lookup.antt =====
-- src/tenancy/plan.rs: the questions asked of the whole plan.
use aeon_iq_temp.Common.{
  Bool, true, false, ◌&&◌, ◌||◌, List, [], ◌∷◌, Option, none, some, Text, codes, text_eq, any,
  filter, is_empty, if◌then◌else◌,
}
use aeon_iq_temp.Tenancy.Plan.Kinds.{
  Tranche, tranche_eq, Nullability, nullable_then_tightened, remains_nullable, MatchSemantics,
  all_rows_checked, null_key_rows_unchecked, EnforcementWindow, during_transition, after_tightening,
}
use aeon_iq_temp.Tenancy.Plan.Objects.{
  PlannedObject, table, name, local_columns, nullability, declared_in, creating_tranche,
  unenforced_when_null,
}
use aeon_iq_temp.Tenancy.Plan.Schema.{planned_objects}

-- Columns that the live schema already lets be NULL, as pairs of a table and a column.
abbrev pub pre_existing_nullable : List (Text × Text)
pre_existing_nullable =
    (codes "memories", codes "archival_batch_id")
    ∷ (codes "memory_conflicts", codes "memory_a")
    ∷ (codes "memory_conflicts", codes "memory_b")
    ∷ (codes "retrieval_feedback", codes "memory_id")
    ∷ (codes "rmk_episodes", codes "policy_id")
    ∷ []

abbrev is_transition : EnforcementWindow → Bool
is_transition during_transition = true
is_transition after_tightening = false

abbrev pub nullable_in : EnforcementWindow → Option Nullability → Bool
nullable_in window (some remains_nullable) = true
nullable_in window (some nullable_then_tightened) = is_transition window
nullable_in window none = false

unfoldable pub is_nullable_column : EnforcementWindow → Text → Text → Bool
unfolding planned_objects
is_nullable_column window t c =
    any (λ (pair : Text × Text). text_eq pair.0 t && text_eq pair.1 c) pre_existing_nullable
    || any (λ p. text_eq (table p) t && text_eq (name p) c && nullable_in window (nullability p))
        planned_objects

unfoldable pub nullable_local_columns_in : EnforcementWindow → PlannedObject → List Text
unfolding is_nullable_column
nullable_local_columns_in window o =
    filter (λ c. is_nullable_column window (table o) c) (local_columns o)

unfoldable pub nullable_local_columns : PlannedObject → List Text
unfolding nullable_local_columns_in
nullable_local_columns o = nullable_local_columns_in after_tightening o

unfoldable pub transition_nullable_local_columns : PlannedObject → List Text
unfolding nullable_local_columns_in
transition_nullable_local_columns o = nullable_local_columns_in during_transition o

abbrev pub transition_semantics : Option Bool → List Text → Option MatchSemantics
transition_semantics none columns = none
transition_semantics (some b) columns =
    some (if is_empty columns then all_rows_checked else null_key_rows_unchecked)

unfoldable pub transition_match_semantics : PlannedObject → Option MatchSemantics
unfolding transition_nullable_local_columns
transition_match_semantics o =
    transition_semantics (unenforced_when_null o) (transition_nullable_local_columns o)

unfoldable pub planned_for : Text → List PlannedObject
unfolding planned_objects
planned_for t = filter (λ o. text_eq (table o) t) planned_objects

unfoldable pub planned_in : Tranche → List PlannedObject
unfolding planned_objects
planned_in tranche = filter (λ o. tranche_eq (declared_in o) tranche) planned_objects

abbrev pub is_built_in : Tranche → Option Tranche → Bool
is_built_in tranche none = false
is_built_in tranche (some t) = tranche_eq t tranche

unfoldable pub prepare_worklist : Tranche → List PlannedObject
unfolding planned_objects
prepare_worklist tranche = filter (λ o. is_built_in tranche (creating_tranche o)) planned_objects
