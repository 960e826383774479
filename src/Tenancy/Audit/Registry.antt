-- ===== src/Tenancy/Audit/Registry.antt =====
-- src/tenancy/inventory.rs: the types of the registry of tables, and the schema that is discovered.
-- The registry is an argument of what reads it, so what is proved holds of `REGISTRY` as of any.
use aeon_iq_temp.Common.{
  ℕ, Bool, true, false, List, [], ◌∷◌, Option, Text, codes, text_eq, any, find, filter, length,
}
use aeon_iq_temp.Tenancy.Plan.Kinds.{Tranche}
use aeon_iq_temp.Tenancy.Audit.Codes.{ReasonCode}

pub data TableClass : Type 0 where
  tenant_root direct_agent_child session_child : TableClass
  memory_lineage_child tenant_global system_global : TableClass

unfoldable pub class_str : TableClass → Text
class_str tenant_root = codes "TENANT_ROOT"
class_str direct_agent_child = codes "DIRECT_AGENT_CHILD"
class_str session_child = codes "SESSION_CHILD"
class_str memory_lineage_child = codes "MEMORY_LINEAGE_CHILD"
class_str tenant_global = codes "TENANT_GLOBAL"
class_str system_global = codes "SYSTEM_GLOBAL"

abbrev pub is_system_global : TableClass → Bool
is_system_global system_global = true
is_system_global _ = false

-- The arguments are the columns; of `session`, the agent's and then the session's.
pub data PathKind : Type 0 where
  tenant_column agent_text agent_uuid : Text → PathKind
  session : Text → Text → PathKind
  memory entity archival_batch policy : Text → PathKind

unfoldable pub root_column : PathKind → Text
root_column (tenant_column c) = c
root_column (agent_text c) = c
root_column (agent_uuid c) = c
root_column (memory c) = c
root_column (entity c) = c
root_column (archival_batch c) = c
root_column (policy c) = c
root_column (session agent_column session_column) = session_column

unfoldable pub root_is_caller_text : PathKind → Bool
root_is_caller_text (agent_text c) = true
root_is_caller_text (session a s) = true
root_is_caller_text _ = false

pub record OwnershipPath : Type 0 where
  pub label : Text
  pub kind : PathKind
  pub nullable : Bool

pub data IdentityKind : Type 0 where
  surrogate caller_text : IdentityKind

abbrev pub is_caller_text : IdentityKind → Bool
is_caller_text surrogate = false
is_caller_text caller_text = true

pub record IdentityColumn : Type 0 where
  pub name : Text
  pub kind : IdentityKind

abbrev pub has_caller_text : List IdentityColumn → Bool
has_caller_text columns = any (λ (c : IdentityColumn). is_caller_text c.kind) columns

-- `IdentityKind::allowed_types`
abbrev pub allowed_types : IdentityKind → List Text
allowed_types surrogate = codes "uuid" ∷ []
allowed_types caller_text = codes "text" ∷ []

abbrev pub kind_str : IdentityKind → Text
kind_str surrogate = codes "surrogate, emitted as-is"
kind_str caller_text = codes "caller text, pseudonymised"

pub data ConstraintKind : Type 0 where
  primary_key unique foreign_key : ConstraintKind

abbrev pub contype : ConstraintKind → Text
contype primary_key = codes "p"
contype unique = codes "u"
contype foreign_key = codes "f"

abbrev pub constraint_str : ConstraintKind → Text
constraint_str primary_key = codes "PRIMARY KEY"
constraint_str unique = codes "UNIQUE"
constraint_str foreign_key = codes "FOREIGN KEY"

pub data IndexPredicate : Type 0 where
  total : IndexPredicate
  exactly : Text → IndexPredicate

pub record ConstraintContract : Type 0 where
  pub name : Text
  pub kind : ConstraintKind
  pub local_columns : List Text
  pub referenced_table : Option Text
  pub referenced_columns : List Text
  pub require_validated : Bool

pub record IndexContract : Type 0 where
  pub name : Text
  pub columns : List Text
  pub require_unique : Bool
  pub require_valid : Bool
  pub require_ready : Bool
  pub predicate : IndexPredicate
  pub require_no_expressions : Bool

pub data SchemaObjectContract : Type 0 where
  constraint : ConstraintContract → SchemaObjectContract
  unique_index : IndexContract → SchemaObjectContract

-- The fields of `TableEntry` that the audit reads; the two of its plan stand among them.
pub record TableEntry : Type 0 where
  pub table : Text
  pub schema_contract : List SchemaObjectContract
  pub row_identity : List IdentityColumn
  pub class : TableClass
  pub canonical_path : Option OwnershipPath
  pub secondary_paths : List OwnershipPath
  pub tranche : Tranche
  pub required_zero_codes : List ReasonCode
  pub future_unique_columns : Option (List Text)
  pub global_scope_evidence : Option Text

abbrev pub entry_count : List TableEntry → Text → ℕ
entry_count registry t = length (filter (λ (e : TableEntry). text_eq e.table t) registry)

pub record DiscoveredColumn : Type 0 where
  pub name : Text
  pub data_type : Text
  pub not_null : Bool

pub record DiscoveredTable : Type 0 where
  pub name : Text
  pub columns : List DiscoveredColumn

abbrev pub table_named : Text → List DiscoveredTable → Option DiscoveredTable
table_named n tables = find (λ (t : DiscoveredTable). text_eq t.name n) tables

abbrev pub column_named : Text → DiscoveredTable → Option DiscoveredColumn
column_named n t = find (λ (c : DiscoveredColumn). text_eq c.name n) t.columns
