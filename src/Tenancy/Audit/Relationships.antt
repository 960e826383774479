-- ===== src/Tenancy/Audit/Relationships.antt =====
-- src/tenancy/audit.rs: an entry of the registry against its live table. A check gives whether it
-- passed, and the findings it pushes.
use aeon_iq_temp.Common.{
  Bool, true, false, not, ◌&&◌, ◌||◌, List, [], ◌∷◌, ◌++◌, map, Option, none, some, Text, codes,
  text_eq, filter, ◌==◌, is_empty, if◌then◌else◌,
}
use aeon_iq_temp.Tenancy.Plan.Objects.{join}
use aeon_iq_temp.Tenancy.Audit.Codes.{
  advisory, ReasonCode, schema_relationship_drift, global_scope_unverified,
  orphaned_agent_reference, orphaned_session_reference, orphaned_memory_reference,
  unresolvable_owner,
}
use aeon_iq_temp.Tenancy.Audit.Registry.{
  PathKind, tenant_column, agent_text, agent_uuid, session, memory, entity, archival_batch, policy,
  root_column, OwnershipPath, TableEntry, DiscoveredColumn, DiscoveredTable, column_named,
}
use aeon_iq_temp.Tenancy.Audit.Findings.{Finding, contract_finding}

abbrev pub Checked : Type 0
Checked = Bool × List Finding

abbrev pub passed : Checked
passed = (true, [])

-- one check and then another
abbrev pub both : Checked → Checked → Checked
both (a, xs) (b, ys) = (a && b, xs ++ ys)

-- `if !good { drift(…); ok = false; }`
abbrev pub check_that : Text → Bool → Text → Checked
check_that t good diagnostic =
    if good then passed else (false, contract_finding schema_relationship_drift t diagnostic ∷ [])

abbrev null_word : Bool → Text
null_word true = codes "NULL-able"
null_word false = codes "NOT NULL"

abbrev pub bool_eq : Bool → Bool → Bool
bool_eq true b = b
bool_eq false b = not b

unfoldable pub check_column :
    Text → Text → OwnershipPath → Text → Bool → Option DiscoveredColumn → Checked
check_column t role path c check_nullability none = (
  false,
  contract_finding schema_relationship_drift t
        (role ++ codes " ownership path names column `" ++ c ++ codes "`, which does not exist")
      ∷ [],
)
check_column t role path c check_nullability (some live) =
    if check_nullability && bool_eq live.not_null path.nullable
    then (
      false,
      contract_finding schema_relationship_drift t (
            role
            ++ codes " ownership path declares `"
            ++ c
            ++ codes "` "
            ++ null_word path.nullable
            ++ codes ", but the live column is "
            ++ null_word (not live.not_null))
          ∷ [],
    )
    else passed

-- The columns that a path names, and whether its nullability is theirs.
unfoldable pub path_columns : PathKind → List (Text × Bool)
unfolding root_column
path_columns (session agent_column session_column) =
    (session_column, true) ∷ (agent_column, false) ∷ []
path_columns (tenant_column c) = (c, true) ∷ []
path_columns (agent_text c) = (c, true) ∷ []
path_columns (agent_uuid c) = (c, true) ∷ []
path_columns (memory c) = (c, true) ∷ []
path_columns (entity c) = (c, true) ∷ []
path_columns (archival_batch c) = (c, true) ∷ []
path_columns (policy c) = (c, true) ∷ []

unfoldable pub check_columns :
    Text → Text → OwnershipPath → DiscoveredTable → List (Text × Bool) → Checked
unfolding check_column
check_columns t role path live [] = passed
check_columns t role path live ((c, check_nullability) ∷ columns) =
    both (check_column t role path c check_nullability (column_named c live))
      (check_columns t role path live columns)

-- the closure `check`
unfoldable pub check : Text → DiscoveredTable → OwnershipPath → Text → Checked
unfolding check_columns path_columns
check t live path role = check_columns t role path live (path_columns path.kind)

unfoldable pub check_canonical : Text → DiscoveredTable → Option OwnershipPath → Checked
unfolding check
check_canonical t live none = passed
check_canonical t live (some path) = check t live path (codes "canonical")

unfoldable pub check_secondaries : Text → DiscoveredTable → List OwnershipPath → Checked
unfolding check
check_secondaries t live [] = passed
check_secondaries t live (path ∷ paths) =
    both (check t live path (codes "secondary")) (check_secondaries t live paths)

unfoldable pub check_schema_relationships : TableEntry → DiscoveredTable → Checked
unfolding check_canonical check_secondaries
check_schema_relationships e live =
    both (check_canonical e.table live e.canonical_path)
      (check_secondaries e.table live e.secondary_paths)

abbrev is_prefix : Text → Text → Bool
is_prefix [] s = true
is_prefix (c ∷ p) [] = false
is_prefix (c ∷ p) (d ∷ s) = c == d && is_prefix p s

-- `str::contains`
abbrev pub contains : Text → Text → Bool
contains p [] = is_empty p
contains p (c ∷ s) = is_prefix p (c ∷ s) || contains p s

abbrev pub is_suspicious : Text → Bool
is_suspicious n =
    contains (codes "tenant") n || text_eq n (codes "agent_id") || text_eq n (codes "agent_uuid")

abbrev column_name : DiscoveredColumn → Text
column_name c = c.name

abbrev pub suspicious : DiscoveredTable → List Text
suspicious live = filter is_suspicious (map column_name live.columns)

abbrev pub explained_findings : Text → List Text → List Finding
explained_findings t names =
    if is_empty names
    then []
    else record {
      severity = advisory;
      reason_code = global_scope_unverified;
      table_name = t;
      row_identifier = none;
      count = 1;
      diagnostic =
          codes "SYSTEM_GLOBAL but carries ownership-shaped column(s) "
          ++ join (codes ", ") names
          ++ codes
              "; accepted on the stated evidence, which must be re-read if those columns change meaning";
      ownership_path = none;
    }
      ∷ []

abbrev pub scope_findings : Text → List Text → Option Text → List Finding
scope_findings t names none =
    contract_finding global_scope_unverified t (
      codes
        "classified SYSTEM_GLOBAL without stated evidence that global scope is safe; a table is not global because nobody has written down who owns it")
    ∷ []
scope_findings t names (some evidence) = explained_findings t names

unfoldable pub check_global_scope : TableEntry → DiscoveredTable → List Finding
check_global_scope e live = scope_findings e.table (suspicious live) e.global_scope_evidence

unfoldable pub orphan_reason : PathKind → ReasonCode
orphan_reason (agent_text c) = orphaned_agent_reference
orphan_reason (agent_uuid c) = orphaned_agent_reference
orphan_reason (session a s) = orphaned_session_reference
orphan_reason (memory c) = orphaned_memory_reference
orphan_reason _ = unresolvable_owner
