-- ===== src/Tests/Plan.antt =====
-- The plan and the audit, src/tenancy/plan.rs and src/tenancy/audit.rs, at concrete inputs.
use aeon_iq_temp.Common.{
  true, false, not, List, [], ◌∷◌, ◌++◌, none, some, Text, codes, any, all, is_empty, ok, ◌≤◌, ◌≡◌,
  refl, inl, inr, IsIn,
}
use aeon_iq_temp.LogUtils.{byte_len}
use aeon_iq_temp.Tenancy.Plan.Kinds.{roots_and_direct_agent_children, null_key_rows_unchecked}
use aeon_iq_temp.Tenancy.Plan.Objects.{
  PlannedObject, foreign_key, table, local_columns, creating_tranche, declared_in,
}
use aeon_iq_temp.Tenancy.Plan.Schema.{planned_objects, agent_uuid, tenant_id}
use aeon_iq_temp.Tenancy.Plan.Lookup.{nullable_local_columns, transition_match_semantics}
use aeon_iq_temp.Tenancy.Plan.Foreign.{is_target, IsReady, references_covered, null_keys_marked}
use aeon_iq_temp.Tenancy.Audit.Codes.{unmapped_agent}
use aeon_iq_temp.Tenancy.Audit.Registry.{
  TableEntry, DiscoveredTable, tenant_root, tenant_column, surrogate,
}
use aeon_iq_temp.Tenancy.Audit.Identifiers.{
  is_later_char, quote, apostrophe, new_identifier, sql_literal,
}
use aeon_iq_temp.Tenancy.Audit.Tokens.{
  starts_with, read_token, sql_literal_reads, new_identifier_reads,
}
use aeon_iq_temp.Tenancy.Audit.Preimage.{row_id_preimage_injective}
use aeon_iq_temp.Tenancy.Audit.Findings.{Finding, contract_finding}
use aeon_iq_temp.Tenancy.Audit.Readiness.{TrancheReadiness, assess_tranches, is_blocked}
use aeon_iq_temp.Tenancy.Audit.Verdicts.{holds_back, assess_tranches_lem}

abbrev to_agents : List Text
to_agents = tenant_id ∷ codes "id" ∷ []

abbrev batches_key : PlannedObject
batches_key =
    foreign_key (codes "archival_batches") (codes "archival_batches_tenant_agent_fkey")
      (tenant_id ∷ agent_uuid ∷ []) (codes "agents") to_agents roots_and_direct_agent_children
      roots_and_direct_agent_children false

batches_key-IsIn : IsIn batches_key planned_objects
unfolding planned_objects
batches_key-IsIn = inr (inr (inr (inr (inr (inl refl)))))

references_covered_example :
    (p : PlannedObject) × IsIn p planned_objects
    × (is_target p ≡ true)
    × (table p ≡ codes "agents")
    × (local_columns p ≡ to_agents)
    × IsReady (creating_tranche p) (declared_in batches_key)
references_covered_example =
    references_covered batches_key (codes "agents") to_agents batches_key-IsIn refl

null_keys_marked_example :
    (false ≡ not (is_empty (nullable_local_columns batches_key)))
    × (transition_match_semantics batches_key ≡ some null_key_rows_unchecked)
null_keys_marked_example = null_keys_marked batches_key false batches_key-IsIn refl

sql_literal_reads_example :
    read_token apostrophe (sql_literal (codes "it's") ++ codes " || x")
    ≡ some (codes "it's", codes " || x")
sql_literal_reads_example = sql_literal_reads (codes "it's") (codes " || x") refl

abbrev quoted : Text
quoted = quote ∷ codes "tenant_id" ++ quote ∷ []

quoted_made : new_identifier tenant_id ≡ ok quoted
unfolding new_identifier
quoted_made = refl

new_identifier_reads_example :
    (all is_later_char tenant_id ≡ true)
    × (byte_len tenant_id ≤ 63)
    × ((rest : Text)
        → starts_with quote rest ≡ false
        → read_token quote (quoted ++ rest) ≡ some (tenant_id, rest))
new_identifier_reads_example = new_identifier_reads tenant_id quoted quoted_made

row_id_preimage_injective_example : (codes "ab" ≡ codes "ab") × (codes "c" ≡ codes "c")
row_id_preimage_injective_example =
    row_id_preimage_injective (codes "ab") (codes "c") (codes "ab") (codes "c") refl

abbrev agents_entry : TableEntry
agents_entry = record {
  table = codes "agents";
  schema_contract = [];
  row_identity = record { name = codes "id"; kind = surrogate } ∷ [];
  class = tenant_root;
  canonical_path =
      some
        (record { label = codes "row.tenant_id"; kind = tenant_column tenant_id; nullable = true });
  secondary_paths = [];
  tranche = roots_and_direct_agent_children;
  required_zero_codes = unmapped_agent ∷ [];
  future_unique_columns = none;
  global_scope_evidence = none;
}

abbrev registry : List TableEntry
registry = agents_entry ∷ []

abbrev agents_table : DiscoveredTable
agents_table = record {
  name = codes "agents";
  columns = record { name = tenant_id; data_type = codes "uuid"; not_null = false } ∷ [];
}

abbrev blocked_tranche : TrancheReadiness
blocked_tranche = record {
  tranche = roots_and_direct_agent_children;
  tables = codes "agents" ∷ [];
  ready = false;
  blocking_reasons = codes "agents: UNMAPPED_AGENT" ∷ [];
}

abbrev unmapped : List Finding
unmapped = contract_finding unmapped_agent (codes "agents") (codes "no tenant") ∷ []

blocked_tranche-IsIn : IsIn blocked_tranche (assess_tranches registry unmapped)
unfolding assess_tranches aeon_iq_temp.Tenancy.Audit.Readiness.reason_line
blocked_tranche-IsIn = inl refl

assess_tranches_lem_example :
    (false ≡ not (any (holds_back registry roots_and_direct_agent_children) unmapped))
    × (false ≡ is_empty blocked_tranche.blocking_reasons)
    × (is_blocked unmapped ≡ false → false ≡ true)
assess_tranches_lem_example =
    assess_tranches_lem registry unmapped blocked_tranche blocked_tranche-IsIn
