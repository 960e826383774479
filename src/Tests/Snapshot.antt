-- ===== src/Tests/Snapshot.antt =====
-- The audit of one snapshot, src/tenancy/audit.rs, at a concrete database.
use aeon_iq_temp.Common.{
  ℕ, all, true, false, List, [], ◌∷◌, ◌++◌, none, some, Text, codes, ◌≡◌, refl, inl, IsIn,
}
use aeon_iq_temp.Tenancy.Plan.Kinds.{roots_and_direct_agent_children}
use aeon_iq_temp.Tenancy.Plan.Schema.{tenant_id}
use aeon_iq_temp.Tenancy.Audit.Codes.{unmapped_agent}
use aeon_iq_temp.Tenancy.Audit.Registry.{
  OwnershipPath, TableEntry, DiscoveredTable, tenant_root, tenant_column, surrogate, primary_key,
  total, constraint, unique_index, table_named,
}
use aeon_iq_temp.Tenancy.Audit.Findings.{check_inventory_contract}
use aeon_iq_temp.Tenancy.Audit.Relationships.{path_columns, check_schema_relationships}
use aeon_iq_temp.Tenancy.Audit.Contracts.{verify_schema_contract}
use aeon_iq_temp.Tenancy.Audit.Paths.{path_sql, precheck_identifiers}
use aeon_iq_temp.Tenancy.Audit.Readiness.{TrancheReadiness, assess_tranches}
use aeon_iq_temp.Tenancy.Audit.Consistency.{registry_fits}
use aeon_iq_temp.Tenancy.Audit.Prechecks.{
  is_accepted, is_name, path_names, interpolated, precheck_identifiers_lem,
}
use aeon_iq_temp.Tenancy.Audit.Snapshot.{Database, satisfied, audit_entry, audit_within_snapshot}
use aeon_iq_temp.Tenancy.Audit.Evaluated.{live_fits, audit_within_snapshot_lem}

abbrev agents : Text
agents = codes "agents"

abbrev ids : List Text
ids = codes "id" ∷ []

abbrev pkey_name : Text
pkey_name = codes "agents_pkey"

abbrev index_name : Text
index_name = codes "agents_tenant_id_key"

abbrev agents_entry : TableEntry
agents_entry = record {
  table = agents;
  schema_contract =
      constraint (record {
        name = pkey_name;
        kind = primary_key;
        local_columns = ids;
        referenced_table = none;
        referenced_columns = [];
        require_validated = true;
      })
      ∷ unique_index (record {
        name = index_name;
        columns = tenant_id ∷ codes "id" ∷ [];
        predicate = total;
        require_unique = true;
        require_valid = true;
        require_ready = true;
        require_no_expressions = true;
      })
      ∷ [];
  row_identity = record { name = codes "id"; kind = surrogate } ∷ [];
  class = tenant_root;
  canonical_path =
      some
        (record { label = codes "row.tenant_id"; kind = tenant_column tenant_id; nullable = true });
  secondary_paths = [];
  tranche = roots_and_direct_agent_children;
  required_zero_codes = unmapped_agent ∷ [];
  future_unique_columns = none;
  global_scope_evidence = none;
}

abbrev agents_table : DiscoveredTable
agents_table = record {
  name = agents;
  columns =
      record { name = codes "id"; data_type = codes "uuid"; not_null = true }
      ∷ record { name = tenant_id; data_type = codes "uuid"; not_null = false }
      ∷ [];
}

abbrev database : Database
database = record {
  application_tables = agents_table ∷ [];
  primary_keys = (agents, (codes "id", codes "uuid") ∷ []) ∷ [];
  catalog = record {
    constraints =
        (
          (agents, pkey_name),
          record {
            contype = codes "p";
            local_columns = ids;
            referenced_schema = none;
            referenced_table = none;
            referenced_columns = [];
            validated = true;
          },
        )
        ∷ [];
    indexes =
        (
          (agents, index_name),
          record {
            key_columns = tenant_id ∷ codes "id" ∷ [];
            is_unique = true;
            is_valid = true;
            is_ready = true;
            predicate = none;
            has_expressions = false;
            key_column_count = 2;
          },
        )
        ∷ [];
  };
  row_findings = λ e. [];
  ambiguity_findings = λ e. [];
}

abbrev quoted : Text → Text
quoted t = codes "\"" ++ t ++ codes "\""

abbrev registry : List TableEntry
registry = agents_entry ∷ []

abbrev ready_tranche : TrancheReadiness
ready_tranche = record {
  tranche = roots_and_direct_agent_children;
  tables = agents ∷ [];
  ready = true;
  blocking_reasons = [];
}

assessed_ready : IsIn ready_tranche (audit_within_snapshot quoted database registry).1
unfolding audit_within_snapshot assess_tranches check_inventory_contract check_schema_relationships
    precheck_identifiers verify_schema_contract
assessed_ready = inl refl

audit_within_snapshot_lem_example :
    (registry_fits registry database.application_tables ≡ true)
    × ((live : DiscoveredTable) × (table_named agents database.application_tables ≡ some live)
        × (live_fits database agents_entry live ≡ true)
        × ((audit_entry quoted database agents_entry).0 ≡ satisfied))
audit_within_snapshot_lem_example =
    audit_within_snapshot_lem quoted database registry agents_entry ready_tranche (inl refl) refl
      assessed_ready refl

precheck_identifiers_lem_example :
    (is_accepted (precheck_identifiers agents_entry) ≡ all is_name (interpolated agents_entry))
    × ((path : OwnershipPath) (idx : ℕ)
        → is_accepted (path_sql path idx) ≡ all is_name (path_names path))
precheck_identifiers_lem_example = precheck_identifiers_lem agents_entry

interpolated_names : interpolated agents_entry ≡ agents ∷ codes "id" ∷ tenant_id ∷ []
unfolding path_columns
interpolated_names = refl
