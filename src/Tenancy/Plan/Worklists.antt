-- ===== src/Tenancy/Plan/Worklists.antt =====
-- The worklists, locks and columns of src/tenancy/plan.rs: what a tranche builds, and in which order.

use aeon_iq_temp.Common.{
  ◌≤◌, Bool, true, false, not, ◌&&◌, ◌||◌, List, Option, none, some, Text, codes, text_eq,
  text_eq→eq, any, all, leb, ◌≡◌, ◌≢◌, ◌⊎◌, ◌↔◌, inl, inr, refl, sym, ap, ◌∙◌, arith, Bool-cases,
  IsIn, all-IsIn, any-IsIn, filter-IsIn, ==_refl,
}
use aeon_iq_temp.Tenancy.Plan.Kinds.{
  Tranche, rank, tranche_eq, create_index_concurrently, already_current, created_by_step4b,
}
use aeon_iq_temp.Tenancy.Plan.Objects.{
  PlannedObject, column, index, unique_target, foreign_key, constraint, table, name, local_columns,
  requires_creation, declared_in, creating_tranche, validating_tranche, not_valid_permitted,
  concurrent_build_required, creation_lock, creation_lock_kind, attachment_lock, validation_lock,
}
use aeon_iq_temp.Tenancy.Plan.Schema.{planned_objects, agent_uuid, tenant_id}
use aeon_iq_temp.Tenancy.Plan.Lookup.{is_built_in, prepare_worklist}
use aeon_iq_temp.Tenancy.Plan.Foreign.{is_column}

tranche_eq→eq : (s t : Tranche) → tranche_eq s t ≡ true → s ≡ t
tranche_eq→eq s t h = ground arith

built_in_iff :
    (t : Tranche) (o : PlannedObject)
    → (is_built_in t (creating_tranche o) ≡ true)
      ↔ ((requires_creation o ≡ true) × (declared_in o ≡ t))
built_in_iff t o = elim (Bool-cases (requires_creation o)) [
  | inl built ↦
      rw built (λ h. (refl, tranche_eq→eq (declared_in o) t h), λ (_, e). rw e (==_refl (rank t)))
  | inr kept ↦ rw kept (λ h. absurd (cc), λ (h, _). absurd (cc))
]

-- The PREPARE worklist of a tranche holds exactly the planned objects that are declared under it
-- and that the live schema does not have already; so each of those is on the list of one tranche.
pub prepare_worklist_lem :
    (t : Tranche) (o : PlannedObject)
    → IsIn o (prepare_worklist t)
      ↔ (IsIn o planned_objects × (requires_creation o ≡ true) × (declared_in o ≡ t))
unfolding prepare_worklist
prepare_worklist_lem t o =
    let (below, above) = filter-IsIn (λ p. is_built_in t (creating_tranche p)) planned_objects o in
    let (reads, gives) = built_in_iff t o in
    (
      λ m. let (there, h) = below m in let (built, declared) = reads h in (there, built, declared),
      λ (there, built, declared). above (there, gives (built, declared)),
    )

-- An object that nothing creates takes no lock, belongs to no tranche and asks for no concurrent
-- build; any other is created in the tranche it is declared under. It is built outside a
-- transaction exactly when its creation is a concurrent index build, which is so whenever an index
-- is attached; and it has a lock for its validation exactly when it may be added `NOT VALID`.
pub locks_agree :
    (o : PlannedObject)
    → (requires_creation o ≡ false
        → (creating_tranche o ≡ none)
          × (creation_lock o ≡ none)
          × (attachment_lock o ≡ none)
          × (validating_tranche o ≡ none)
          × (concurrent_build_required o ≡ false))
      × (requires_creation o ≡ true → creating_tranche o ≡ some (declared_in o))
      × ((concurrent_build_required o ≡ true) ↔ (creation_lock o ≡ some create_index_concurrently))
      × (attachment_lock o ≢ none → concurrent_build_required o ≡ true)
      × ((not_valid_permitted o ≡ true) ↔ (validation_lock o ≢ none))
unfolding creation_lock creation_lock_kind attachment_lock validation_lock concurrent_build_required
    not_valid_permitted
locks_agree (column t n ty nu c) = ground arith
locks_agree (index t n cols u c) = ground arith
locks_agree (unique_target t n cols already_current c) = ground arith
locks_agree (unique_target t n cols created_by_step4b c) = ground arith
locks_agree (foreign_key t n loc rt rcols c v un) = ground arith
locks_agree (constraint t n k cols c v) = ground arith

abbrev is_ownership_column : Text → Bool
is_ownership_column c = text_eq c agent_uuid || text_eq c tenant_id

abbrev makes_column : Text → Text → Tranche → PlannedObject → Bool
makes_column t c used p =
    is_column p
    && text_eq (table p) t
    && text_eq (name p) c
    && leb (rank (declared_in p)) (rank used)

abbrev column_ready : List PlannedObject → PlannedObject → Option Tranche → Text → Bool
column_ready objects o none c = true
column_ready objects o (some used) c =
    not (is_ownership_column c)
    || text_eq (table o) (codes "agents")
    || any (makes_column (table o) c used) objects

abbrev columns_ready : List PlannedObject → PlannedObject → Bool
columns_ready objects o =
    is_column o || all (column_ready objects o (creating_tranche o)) (local_columns o)

all_ready : all (columns_ready planned_objects) planned_objects ≡ true
unfolding planned_objects
all_ready = refl

is_ownership : (c : Text) → ((c ≡ agent_uuid) ⊎ (c ≡ tenant_id)) → is_ownership_column c ≡ true
is_ownership c (inl e) = rw e refl
is_ownership c (inr e) = rw e refl

column_made :
    (objects : List PlannedObject) (o : PlannedObject) (used : Tranche) (c : Text)
    → column_ready objects o (some used) c ≡ true
    → is_ownership_column c ≡ true
    → table o ≢ codes "agents"
    → any (makes_column (table o) c used) objects ≡ true
column_made objects o used c h owner elsewhere =
    elim (Bool-cases (text_eq (table o) (codes "agents"))) [
      | inl same ↦ absurd (elsewhere (text_eq→eq (table o) (codes "agents") same))
      | inr other ↦
          three (is_ownership_column c) (text_eq (table o) (codes "agents"))
            (any (makes_column (table o) c used) objects) h owner other
    ]
  where
    three : (a b c : Bool) → (not a || b || c) ≡ true → a ≡ true → b ≡ false → c ≡ true
    three a b c h ha hb = ground arith

makes_column_parts :
    (t c : Text) (used : Tranche) (p : PlannedObject)
    → makes_column t c used p ≡ true
    → (is_column p ≡ true) × (table p ≡ t) × (name p ≡ c) × (rank (declared_in p) ≤ rank used)
makes_column_parts t c used p h = (
  ground arith,
  text_eq→eq (table p) t (ground arith),
  text_eq→eq (name p) c (ground arith),
  ground arith,
)

-- An ownership column, `agent_uuid` or `tenant_id`, that a planned object on a table other than
-- `agents` is built over is itself planned for that table, in no later tranche.
pub ownership_columns_ready :
    (o : PlannedObject) (used : Tranche) (c : Text)
    → IsIn o planned_objects
    → creating_tranche o ≡ some used
    → IsIn c (local_columns o)
    → ((c ≡ agent_uuid) ⊎ (c ≡ tenant_id))
    → table o ≢ codes "agents"
    → (p : PlannedObject) × IsIn p planned_objects
      × (is_column p ≡ true)
      × (table p ≡ table o)
      × (name p ≡ c)
      × (rank (declared_in p) ≤ rank used)
ownership_columns_ready o used c m made mc owner elsewhere =
    let checked = all-IsIn (columns_ready planned_objects) planned_objects o all_ready m in
    let all_of_them =
      past_columns (is_column o)
        (all (column_ready planned_objects o (creating_tranche o)) (local_columns o)) checked
        (no_columns o c mc) in
    let ready =
      all-IsIn (column_ready planned_objects o (creating_tranche o)) (local_columns o) c all_of_them
        mc in
    let ready' = ap (λ t. column_ready planned_objects o t c) (sym made) ∙ ready in
    let (p, there, hit) =
      any-IsIn (makes_column (table o) c used) planned_objects
        (column_made planned_objects o used c ready' (is_ownership c owner) elsewhere) in
    let (is_col, on_table, named, early) = makes_column_parts (table o) c used p hit in
    (p, there, is_col, on_table, named, early)
  where
    past_columns : (a b : Bool) → (a || b) ≡ true → a ≡ false → b ≡ true
    past_columns a b h n = ground arith

    no_columns : (o : PlannedObject) (c : Text) → IsIn c (local_columns o) → is_column o ≡ false
    no_columns (column t n ty nu d) c mc = absurd mc
    no_columns (index t n cols u d) c mc = refl
    no_columns (unique_target t n cols st d) c mc = refl
    no_columns (foreign_key t n loc rt rcols d v un) c mc = refl
    no_columns (constraint t n k cols d v) c mc = refl
