-- ===== src/Tenancy/Audit/Codes.antt =====
-- src/tenancy/audit.rs: the severities and the reason codes of the audit.
use aeon_iq_temp.Common.{ℕ, Bool, true, false, List, [], ◌∷◌, Text, codes, ◌==◌}

pub data Severity : Type 0 where
  blocking advisory : Severity

unfoldable pub severity_str : Severity → Text
severity_str blocking = codes "BLOCKING"
severity_str advisory = codes "ADVISORY"

abbrev pub is_blocking : Severity → Bool
is_blocking blocking = true
is_blocking advisory = false

pub data ReasonCode : Type 0 where
  unclassified_table inventory_table_missing : ReasonCode
  multiple_classifications missing_canonical_ownership_path : ReasonCode
  schema_relationship_drift legacy_unmapped : ReasonCode
  orphaned_agent_reference unmapped_agent : ReasonCode
  orphaned_session_reference orphaned_memory_reference : ReasonCode
  orphaned_version_reference unresolvable_owner : ReasonCode
  null_ownership_link ownership_path_disagreement : ReasonCode
  cross_tenant_parent_child malformed_legacy_identifier : ReasonCode
  ambiguous_legacy_identifier future_tenant_uniqueness_collision : ReasonCode
  future_composite_fk_mismatch global_scope_unverified : ReasonCode

unfoldable pub reason_str : ReasonCode → Text
reason_str unclassified_table = codes "UNCLASSIFIED_TABLE"
reason_str inventory_table_missing = codes "INVENTORY_TABLE_MISSING"
reason_str multiple_classifications = codes "MULTIPLE_CLASSIFICATIONS"
reason_str missing_canonical_ownership_path = codes "MISSING_CANONICAL_OWNERSHIP_PATH"
reason_str schema_relationship_drift = codes "SCHEMA_RELATIONSHIP_DRIFT"
reason_str legacy_unmapped = codes "LEGACY_UNMAPPED"
reason_str orphaned_agent_reference = codes "ORPHANED_AGENT_REFERENCE"
reason_str unmapped_agent = codes "UNMAPPED_AGENT"
reason_str orphaned_session_reference = codes "ORPHANED_SESSION_REFERENCE"
reason_str orphaned_memory_reference = codes "ORPHANED_MEMORY_REFERENCE"
reason_str orphaned_version_reference = codes "ORPHANED_VERSION_REFERENCE"
reason_str unresolvable_owner = codes "UNRESOLVABLE_OWNER"
reason_str null_ownership_link = codes "NULL_OWNERSHIP_LINK"
reason_str ownership_path_disagreement = codes "OWNERSHIP_PATH_DISAGREEMENT"
reason_str cross_tenant_parent_child = codes "CROSS_TENANT_PARENT_CHILD"
reason_str malformed_legacy_identifier = codes "MALFORMED_LEGACY_IDENTIFIER"
reason_str ambiguous_legacy_identifier = codes "AMBIGUOUS_LEGACY_IDENTIFIER"
reason_str future_tenant_uniqueness_collision = codes "FUTURE_TENANT_UNIQUENESS_COLLISION"
reason_str future_composite_fk_mismatch = codes "FUTURE_COMPOSITE_FK_MISMATCH"
reason_str global_scope_unverified = codes "GLOBAL_SCOPE_UNVERIFIED"

-- the derived `PartialEq`, by the order of declaration
abbrev pub reason_rank : ReasonCode → ℕ
reason_rank unclassified_table = 0
reason_rank inventory_table_missing = 1
reason_rank multiple_classifications = 2
reason_rank missing_canonical_ownership_path = 3
reason_rank schema_relationship_drift = 4
reason_rank legacy_unmapped = 5
reason_rank orphaned_agent_reference = 6
reason_rank unmapped_agent = 7
reason_rank orphaned_session_reference = 8
reason_rank orphaned_memory_reference = 9
reason_rank orphaned_version_reference = 10
reason_rank unresolvable_owner = 11
reason_rank null_ownership_link = 12
reason_rank ownership_path_disagreement = 13
reason_rank cross_tenant_parent_child = 14
reason_rank malformed_legacy_identifier = 15
reason_rank ambiguous_legacy_identifier = 16
reason_rank future_tenant_uniqueness_collision = 17
reason_rank future_composite_fk_mismatch = 18
reason_rank global_scope_unverified = 19

abbrev pub reason_eq : ReasonCode → ReasonCode → Bool
reason_eq c d = reason_rank c == reason_rank d

abbrev pub all_codes : List ReasonCode
all_codes =
    unclassified_table ∷ inventory_table_missing ∷ multiple_classifications
    ∷ missing_canonical_ownership_path ∷ schema_relationship_drift ∷ legacy_unmapped
    ∷ orphaned_agent_reference ∷ unmapped_agent ∷ orphaned_session_reference
    ∷ orphaned_memory_reference ∷ orphaned_version_reference ∷ unresolvable_owner
    ∷ null_ownership_link ∷ ownership_path_disagreement ∷ cross_tenant_parent_child
    ∷ malformed_legacy_identifier ∷ ambiguous_legacy_identifier ∷ future_tenant_uniqueness_collision
    ∷ future_composite_fk_mismatch ∷ global_scope_unverified ∷ []

abbrev pub severity : ReasonCode → Severity
severity malformed_legacy_identifier = advisory
severity _ = blocking

unfoldable pub description : ReasonCode → Text
description unclassified_table =
    codes
      "a discovered application table has no registry entry, so no tenancy decision has been made for it"
description inventory_table_missing = codes "the registry names a table absent from the live schema"
description multiple_classifications = codes "a table has more than one semantic inventory entry"
description missing_canonical_ownership_path =
    codes "a non-SYSTEM_GLOBAL table lacks exactly one canonical tenant path"
description schema_relationship_drift =
    codes
      "a required column, foreign key, uniqueness rule or relationship no longer matches the ownership definition"
description legacy_unmapped =
    codes "the row cannot be assigned to a tenant safely from authoritative data"
description orphaned_agent_reference = codes "an agent reference resolves to no agent"
description unmapped_agent = codes "the owning agent exists but agents.tenant_id is NULL"
description orphaned_session_reference = codes "a required session reference resolves to no session"
description orphaned_memory_reference = codes "a required memory reference resolves to no memory"
description orphaned_version_reference =
    codes
      "a required memory-version reference resolves to no version (reserved: no table in the current schema references memory_versions.id, so it cannot be emitted today)"
description unresolvable_owner =
    codes "the canonical ownership chain terminates without an authoritative owner"
description null_ownership_link = codes "a required link in the canonical ownership chain is NULL"
description ownership_path_disagreement =
    codes "canonical and secondary ownership paths resolve to different owners within one tenant"
description cross_tenant_parent_child =
    codes "two ownership paths for the same row resolve to different tenants"
description malformed_legacy_identifier =
    codes "a legacy identifier cannot be interpreted according to its schema contract"
description ambiguous_legacy_identifier =
    codes "one legacy identifier maps to more than one possible owner"
description future_tenant_uniqueness_collision =
    codes "existing rows would violate a planned UNIQUE (tenant_id, ...) rule"
description future_composite_fk_mismatch =
    codes "existing rows would violate a planned composite tenant/owner foreign key"
description global_scope_unverified =
    codes "a table is classified SYSTEM_GLOBAL without evidence that global scope is safe"
