-- ===== src/Tenancy/Plan/Kinds.antt =====
-- src/tenancy/plan.rs, and `Tranche` of src/tenancy/inventory.rs: the words of the migration plan.
use aeon_iq_temp.Common.{ℕ, Bool, true, false, List, [], ◌∷◌, Text, codes, ◌==◌}

pub data Tranche : Type 0 where
  roots_and_direct_agent_children sessions memories : Tranche
  lineage_and_archival operations final_constraint_tightening : Tranche

-- the derived `Ord`, by the order of declaration
abbrev pub rank : Tranche → ℕ
rank roots_and_direct_agent_children = 0
rank sessions = 1
rank memories = 2
rank lineage_and_archival = 3
rank operations = 4
rank final_constraint_tightening = 5

unfoldable pub tranche_str : Tranche → Text
tranche_str roots_and_direct_agent_children = codes "TRANCHE_1_ROOTS_AND_DIRECT_AGENT_CHILDREN"
tranche_str sessions = codes "TRANCHE_2_SESSIONS"
tranche_str memories = codes "TRANCHE_3_MEMORIES"
tranche_str lineage_and_archival = codes "TRANCHE_4_LINEAGE_AND_ARCHIVAL"
tranche_str operations = codes "TRANCHE_5_OPERATIONS"
tranche_str final_constraint_tightening = codes "FINAL_CONSTRAINT_TIGHTENING"

abbrev pub all_tranches : List Tranche
all_tranches =
    roots_and_direct_agent_children ∷ sessions ∷ memories ∷ lineage_and_archival ∷ operations
    ∷ final_constraint_tightening ∷ []

abbrev pub tranche_eq : Tranche → Tranche → Bool
tranche_eq s t = rank s == rank t

pub data Stage : Type 0 where
  prepare backfill finalize : Stage

unfoldable pub stage_str : Stage → Text
stage_str prepare = codes "PREPARE"
stage_str backfill = codes "BACKFILL"
stage_str finalize = codes "FINALIZE"

pub data LockProfile : Type 0 where
  add_column_nullable create_index_concurrently add_unique_using_index : LockProfile
  add_foreign_key_not_valid add_check_not_valid validate_constraint : LockProfile
  validate_check_constraint set_not_null table_rewrite drop_column : LockProfile

unfoldable pub lock_str : LockProfile → Text
lock_str add_column_nullable = codes "ADD COLUMN NULL"
lock_str create_index_concurrently = codes "CREATE INDEX CONCURRENTLY"
lock_str add_unique_using_index = codes "ADD CONSTRAINT ... USING INDEX"
lock_str add_foreign_key_not_valid = codes "ADD CONSTRAINT ... FOREIGN KEY ... NOT VALID"
lock_str add_check_not_valid = codes "ADD CONSTRAINT ... CHECK ... NOT VALID"
lock_str validate_constraint = codes "VALIDATE CONSTRAINT (foreign key)"
lock_str validate_check_constraint = codes "VALIDATE CONSTRAINT (CHECK)"
lock_str set_not_null = codes "SET NOT NULL"
lock_str table_rewrite = codes "table rewrite"
lock_str drop_column = codes "DROP COLUMN"

-- The locks that an operation takes, on its table and on any referenced one.
unfoldable pub locks : LockProfile → Text
locks add_column_nullable = codes "ACCESS EXCLUSIVE, catalog-only — no rewrite, no scan"
locks create_index_concurrently =
    codes "SHARE UPDATE EXCLUSIVE; must run outside a transaction block"
locks add_unique_using_index =
    codes
      "ACCESS EXCLUSIVE on the table alone, brief — adopts an already-built index, so no rows are scanned and no parent is locked alongside it"
locks add_foreign_key_not_valid =
    codes "SHARE ROW EXCLUSIVE on the child AND on the referenced table"
locks add_check_not_valid =
    codes
      "ACCESS EXCLUSIVE on the table alone, brief — no row scan, and no parent is locked alongside it"
locks validate_constraint =
    codes "SHARE UPDATE EXCLUSIVE on the child, ROW SHARE on the referenced table"
locks validate_check_constraint =
    codes "SHARE UPDATE EXCLUSIVE on the table alone — a CHECK has no parent to lock"
locks set_not_null = codes "ACCESS EXCLUSIVE; full scan unless a validated CHECK permits skip"
locks table_rewrite = codes "ACCESS EXCLUSIVE for the whole rewrite"
locks drop_column = codes "ACCESS EXCLUSIVE, brief — catalog update only"

pub data Nullability : Type 0 where
  nullable_then_tightened remains_nullable : Nullability

unfoldable pub nullability_str : Nullability → Text
nullability_str nullable_then_tightened = codes "NULL-able now; NOT NULL in FUTURE STEP 7"
nullability_str remains_nullable = codes "NULL-able, and stays NULL-able"

pub data MatchSemantics : Type 0 where
  all_rows_checked null_key_rows_unchecked : MatchSemantics

pub data EnforcementWindow : Type 0 where
  during_transition after_tightening : EnforcementWindow

pub data TargetStatus : Type 0 where
  already_current created_by_step4b : TargetStatus

abbrev pub status_requires_creation : TargetStatus → Bool
status_requires_creation already_current = false
status_requires_creation created_by_step4b = true

pub data PlannedConstraintKind : Type 0 where
  not_null_precheck : PlannedConstraintKind
