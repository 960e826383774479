-- ===== src/Tenancy/Plan/Objects.antt =====
-- src/tenancy/plan.rs: one planned schema object, and what it says of itself.
use aeon_iq_temp.Common.{
  Bool, true, false, List, [], ◌∷◌, ◌++◌, Option, none, some, Text, codes, if◌then◌else◌,
}
use aeon_iq_temp.Tenancy.Plan.Kinds.{
  Tranche, LockProfile, add_column_nullable, create_index_concurrently, add_unique_using_index,
  add_foreign_key_not_valid, add_check_not_valid, validate_constraint, validate_check_constraint,
  Nullability, nullability_str, MatchSemantics, all_rows_checked, null_key_rows_unchecked,
  TargetStatus, already_current, created_by_step4b, status_requires_creation, PlannedConstraintKind,
}

-- The arguments are the fields, in the order of the source.
pub data PlannedObject : Type 0 where
  column : Text → Text → Text → Nullability → Tranche → PlannedObject
  index : Text → Text → List Text → Bool → Tranche → PlannedObject
  unique_target : Text → Text → List Text → TargetStatus → Tranche → PlannedObject
  foreign_key :
      Text → Text → List Text → Text → List Text → Tranche → Tranche → Bool → PlannedObject
  constraint : Text → Text → PlannedConstraintKind → List Text → Tranche → Tranche → PlannedObject

abbrev pub table : PlannedObject → Text
table (column t n ty nu c) = t
table (index t n cols u c) = t
table (unique_target t n cols st c) = t
table (foreign_key t n loc rt rcols c v un) = t
table (constraint t n k cols c v) = t

abbrev pub name : PlannedObject → Text
name (column t n ty nu c) = n
name (index t n cols u c) = n
name (unique_target t n cols st c) = n
name (foreign_key t n loc rt rcols c v un) = n
name (constraint t n k cols c v) = n

abbrev pub local_columns : PlannedObject → List Text
local_columns (column t n ty nu c) = []
local_columns (index t n cols u c) = cols
local_columns (unique_target t n cols st c) = cols
local_columns (foreign_key t n loc rt rcols c v un) = loc
local_columns (constraint t n k cols c v) = cols

abbrev pub referenced : PlannedObject → Option (Text × List Text)
referenced (foreign_key t n loc rt rcols c v un) = some (rt, rcols)
referenced _ = none

abbrev pub is_unique : PlannedObject → Bool
is_unique (index t n cols u c) = u
is_unique (unique_target t n cols st c) = true
is_unique _ = false

abbrev pub nullability : PlannedObject → Option Nullability
nullability (column t n ty nu c) = some nu
nullability _ = none

abbrev pub requires_creation : PlannedObject → Bool
requires_creation (unique_target t n cols st c) = status_requires_creation st
requires_creation _ = true

abbrev pub declared_in : PlannedObject → Tranche
declared_in (column t n ty nu c) = c
declared_in (index t n cols u c) = c
declared_in (unique_target t n cols st c) = c
declared_in (foreign_key t n loc rt rcols c v un) = c
declared_in (constraint t n k cols c v) = c

abbrev pub creating_tranche : PlannedObject → Option Tranche
creating_tranche o = if requires_creation o then some (declared_in o) else none

abbrev pub validating_tranche : PlannedObject → Option Tranche
validating_tranche (foreign_key t n loc rt rcols c v un) = some v
validating_tranche (constraint t n k cols c v) = some v
validating_tranche o = creating_tranche o

abbrev pub unenforced_when_null : PlannedObject → Option Bool
unenforced_when_null (foreign_key t n loc rt rcols c v un) = some un
unenforced_when_null _ = none

abbrev pub semantics_of : Option Bool → Option MatchSemantics
semantics_of (some true) = some null_key_rows_unchecked
semantics_of (some false) = some all_rows_checked
semantics_of none = none

unfoldable pub match_semantics : PlannedObject → Option MatchSemantics
match_semantics o = semantics_of (unenforced_when_null o)

unfoldable pub not_valid_permitted : PlannedObject → Bool
not_valid_permitted (foreign_key t n loc rt rcols c v un) = true
not_valid_permitted (constraint t n k cols c v) = true
not_valid_permitted _ = false

abbrev pub is_indexed : PlannedObject → Bool
is_indexed (index t n cols u c) = true
is_indexed (unique_target t n cols st c) = true
is_indexed _ = false

unfoldable pub concurrent_build_required : PlannedObject → Bool
concurrent_build_required o = if requires_creation o then is_indexed o else false

unfoldable pub creation_lock_kind : PlannedObject → LockProfile
creation_lock_kind (column t n ty nu c) = add_column_nullable
creation_lock_kind (index t n cols u c) = create_index_concurrently
creation_lock_kind (unique_target t n cols st c) = create_index_concurrently
creation_lock_kind (foreign_key t n loc rt rcols c v un) = add_foreign_key_not_valid
creation_lock_kind (constraint t n k cols c v) = add_check_not_valid

unfoldable pub creation_lock : PlannedObject → Option LockProfile
unfolding creation_lock_kind
creation_lock o = if requires_creation o then some (creation_lock_kind o) else none

abbrev pub attachment_lock_kind : PlannedObject → Option LockProfile
attachment_lock_kind (unique_target t n cols st c) = some add_unique_using_index
attachment_lock_kind _ = none

unfoldable pub attachment_lock : PlannedObject → Option LockProfile
attachment_lock o = if requires_creation o then attachment_lock_kind o else none

unfoldable pub validation_lock : PlannedObject → Option LockProfile
validation_lock (foreign_key t n loc rt rcols c v un) = some validate_constraint
validation_lock (constraint t n k cols c v) = some validate_check_constraint
validation_lock _ = none

-- `[&str]::join`
abbrev pub join : Text → List Text → Text
join sep [] = []
join sep (x ∷ []) = x
join sep (x ∷ y ∷ xs) = x ++ sep ++ join sep (y ∷ xs)

abbrev target_note : TargetStatus → Text
target_note already_current = codes "already current"
target_note created_by_step4b = codes "created by Step 4B as an FK target"

unfoldable pub describe : PlannedObject → Text
unfolding nullability_str
describe (column t n ty nu c) =
    codes "ALTER TABLE "
    ++ t
    ++ codes " ADD COLUMN "
    ++ n
    ++ codes " "
    ++ ty
    ++ codes " NULL — "
    ++ nullability_str nu
describe (index t n cols u c) =
    codes "CREATE "
    ++ (if u then codes "UNIQUE " else [])
    ++ codes "INDEX CONCURRENTLY "
    ++ n
    ++ codes " ON "
    ++ t
    ++ codes " ("
    ++ join (codes ", ") cols
    ++ codes ")"
describe (unique_target t n cols st c) =
    t
    ++ codes " UNIQUE ("
    ++ join (codes ", ") cols
    ++ codes ") AS `"
    ++ n
    ++ codes "` — "
    ++ target_note st
describe (foreign_key t n loc rt rcols c v un) =
    codes "ALTER TABLE "
    ++ t
    ++ codes " ADD CONSTRAINT "
    ++ n
    ++ codes " FOREIGN KEY ("
    ++ join (codes ", ") loc
    ++ codes ") REFERENCES "
    ++ rt
    ++ codes " ("
    ++ join (codes ", ") rcols
    ++ codes ") NOT VALID"
    ++ (if un then codes " — MATCH SIMPLE: rows with a NULL key component are not checked" else [])
describe (constraint t n k cols c v) =
    codes "ALTER TABLE "
    ++ t
    ++ codes " ADD CONSTRAINT "
    ++ n
    ++ codes " CHECK ("
    ++ join (codes " IS NOT NULL AND ") cols
    ++ codes " IS NOT NULL) NOT VALID"
