-- ===== src/Tenancy/Plan/Schema.antt =====
-- src/tenancy/plan.rs: `PLANNED_OBJECTS`, tranche by tranche.
use aeon_iq_temp.Common.{true, false, List, [], ◌∷◌, ◌++◌, Text, codes}
use aeon_iq_temp.Tenancy.Plan.Kinds.{
  Tranche, roots_and_direct_agent_children, sessions, memories, lineage_and_archival, operations,
  final_constraint_tightening, nullable_then_tightened, remains_nullable, already_current,
  created_by_step4b, not_null_precheck,
}
use aeon_iq_temp.Tenancy.Plan.Objects.{
  PlannedObject, column, index, unique_target, foreign_key, constraint,
}

abbrev pub agent_uuid : Text
agent_uuid = codes "agent_uuid"

abbrev pub tenant_id : Text
tenant_id = codes "tenant_id"

abbrev col : Text → Text → Tranche → PlannedObject
col table name tranche = column table name (codes "UUID") nullable_then_tightened tranche

abbrev col_permanent : Text → Text → Tranche → PlannedObject
col_permanent table name tranche = column table name (codes "UUID") remains_nullable tranche

abbrev idx : Text → Text → List Text → Tranche → PlannedObject
idx table name columns tranche = index table name columns false tranche

abbrev target : Text → Text → List Text → Tranche → PlannedObject
target table name columns tranche = unique_target table name columns created_by_step4b tranche

abbrev fk : Text → Text → List Text → Text → List Text → Tranche → PlannedObject
fk table name local_columns referenced_table referenced_columns tranche =
    foreign_key table name local_columns referenced_table referenced_columns tranche tranche false

abbrev fk_nullable : Text → Text → List Text → Text → List Text → Tranche → PlannedObject
fk_nullable table name local_columns referenced_table referenced_columns tranche =
    foreign_key table name local_columns referenced_table referenced_columns tranche tranche true

abbrev agent_key : List Text
agent_key = tenant_id ∷ agent_uuid ∷ []

abbrev agents_target : List Text
agents_target = tenant_id ∷ codes "id" ∷ []

abbrev tenant_agent_idx : List Text
tenant_agent_idx = tenant_id ∷ agent_uuid ∷ []

abbrev tenant_only_idx : List Text
tenant_only_idx = tenant_id ∷ []

abbrev id_tenant : List Text
id_tenant = codes "id" ∷ tenant_id ∷ []

abbrev pub session_identity : List Text
session_identity = tenant_id ∷ agent_uuid ∷ codes "session_id" ∷ []

abbrev t1 : Tranche
t1 = roots_and_direct_agent_children

abbrev t2 : Tranche
t2 = sessions

abbrev t3 : Tranche
t3 = memories

abbrev t4 : Tranche
t4 = lineage_and_archival

abbrev t5 : Tranche
t5 = operations

abbrev t7 : Tranche
t7 = final_constraint_tightening

abbrev pub tranche_1_objects : List PlannedObject
tranche_1_objects =
    unique_target (codes "agents") (codes "agents_tenant_id_id_key") agents_target already_current
      t1
    ∷ col (codes "archival_batches") agent_uuid t1
    ∷ col (codes "archival_batches") tenant_id t1
    ∷ idx (codes "archival_batches") (codes "idx_archival_batches_tenant") tenant_agent_idx t1
    ∷ target (codes "archival_batches") (codes "archival_batches_id_tenant_id_key") id_tenant t1
    ∷ fk (codes "archival_batches") (codes "archival_batches_tenant_agent_fkey") agent_key
        (codes "agents") agents_target t1
    ∷ col_permanent (codes "audit_logs") agent_uuid t1
    ∷ col_permanent (codes "audit_logs") tenant_id t1
    ∷ idx (codes "audit_logs") (codes "idx_audit_logs_tenant") tenant_agent_idx t1
    ∷ fk_nullable (codes "audit_logs") (codes "audit_logs_tenant_agent_fkey") agent_key
        (codes "agents") agents_target t1
    ∷ col (codes "entities") agent_uuid t1
    ∷ col (codes "entities") tenant_id t1
    ∷ idx (codes "entities") (codes "idx_entities_tenant") tenant_agent_idx t1
    ∷ target (codes "entities") (codes "entities_id_tenant_id_key") id_tenant t1
    ∷ fk (codes "entities") (codes "entities_tenant_agent_fkey") agent_key (codes "agents")
        agents_target t1
    ∷ col (codes "memory_graph") agent_uuid t1
    ∷ col (codes "memory_graph") tenant_id t1
    ∷ idx (codes "memory_graph") (codes "idx_memory_graph_tenant") tenant_agent_idx t1
    ∷ fk (codes "memory_graph") (codes "memory_graph_tenant_agent_fkey") agent_key (codes "agents")
        agents_target t1
    ∷ col (codes "rmk_policies") agent_uuid t1
    ∷ col (codes "rmk_policies") tenant_id t1
    ∷ idx (codes "rmk_policies") (codes "idx_rmk_policies_tenant") tenant_agent_idx t1
    ∷ target (codes "rmk_policies") (codes "rmk_policies_id_tenant_id_key") id_tenant t1
    ∷ fk (codes "rmk_policies") (codes "rmk_policies_tenant_agent_fkey") agent_key (codes "agents")
        agents_target t1
    ∷ []

abbrev pub tranche_2_objects : List PlannedObject
tranche_2_objects =
    col (codes "sessions") agent_uuid t2
    ∷ col (codes "sessions") tenant_id t2
    ∷ idx (codes "sessions") (codes "idx_sessions_tenant") tenant_agent_idx t2
    ∷ target (codes "sessions") (codes "sessions_tenant_agent_session_key") session_identity t2
    ∷ fk (codes "sessions") (codes "sessions_tenant_agent_fkey") agent_key (codes "agents")
        agents_target t2
    ∷ col (codes "working_memory") agent_uuid t2
    ∷ col (codes "working_memory") tenant_id t2
    ∷ idx (codes "working_memory") (codes "idx_working_memory_tenant") tenant_agent_idx t2
    ∷ fk (codes "working_memory") (codes "working_memory_tenant_agent_fkey") agent_key
        (codes "agents") agents_target t2
    ∷ fk (codes "working_memory") (codes "working_memory_session_fkey") session_identity
        (codes "sessions") session_identity t2
    ∷ []

abbrev pub tranche_3_objects : List PlannedObject
tranche_3_objects =
    col (codes "memories") agent_uuid t3
    ∷ col (codes "memories") tenant_id t3
    ∷ idx (codes "memories") (codes "idx_memories_tenant") tenant_agent_idx t3
    ∷ target (codes "memories") (codes "memories_id_tenant_id_key") id_tenant t3
    ∷ fk (codes "memories") (codes "memories_tenant_agent_fkey") agent_key (codes "agents")
        agents_target t3
    ∷ fk_nullable (codes "memories") (codes "memories_archival_batch_tenant_fkey")
        ((codes "archival_batch_id") ∷ tenant_id ∷ []) (codes "archival_batches") id_tenant t3
    ∷ col (codes "extraction_jobs") agent_uuid t3
    ∷ col (codes "extraction_jobs") tenant_id t3
    ∷ idx (codes "extraction_jobs") (codes "idx_extraction_jobs_tenant") tenant_agent_idx t3
    ∷ fk (codes "extraction_jobs") (codes "extraction_jobs_tenant_agent_fkey") agent_key
        (codes "agents") agents_target t3
    ∷ col (codes "memory_retrieval_logs") agent_uuid t3
    ∷ col (codes "memory_retrieval_logs") tenant_id t3
    ∷ idx (codes "memory_retrieval_logs") (codes "idx_memory_retrieval_logs_tenant")
        tenant_agent_idx t3
    ∷ fk (codes "memory_retrieval_logs") (codes "memory_retrieval_logs_tenant_agent_fkey") agent_key
        (codes "agents") agents_target t3
    ∷ col (codes "cognitive_hypervisor_timeline") agent_uuid t3
    ∷ col (codes "cognitive_hypervisor_timeline") tenant_id t3
    ∷ idx (codes "cognitive_hypervisor_timeline") (codes "idx_cht_tenant") tenant_agent_idx t3
    ∷ fk (codes "cognitive_hypervisor_timeline") (codes "cht_tenant_agent_fkey") agent_key
        (codes "agents") agents_target t3
    ∷ []

abbrev pub tranche_4_objects : List PlannedObject
tranche_4_objects =
    col (codes "memory_versions") tenant_id t4
    ∷ idx (codes "memory_versions") (codes "idx_memory_versions_tenant") tenant_only_idx t4
    ∷ fk (codes "memory_versions") (codes "memory_versions_memory_tenant_fkey")
        ((codes "memory_id") ∷ tenant_id ∷ []) (codes "memories") id_tenant t4
    ∷ col (codes "memory_entity_links") tenant_id t4
    ∷ idx (codes "memory_entity_links") (codes "idx_memory_entity_links_tenant") tenant_only_idx t4
    ∷ fk (codes "memory_entity_links") (codes "memory_entity_links_memory_tenant_fkey")
        ((codes "memory_id") ∷ tenant_id ∷ []) (codes "memories") id_tenant t4
    ∷ fk (codes "memory_entity_links") (codes "memory_entity_links_entity_tenant_fkey")
        ((codes "entity_id") ∷ tenant_id ∷ []) (codes "entities") id_tenant t4
    ∷ col (codes "co_access_edges") tenant_id t4
    ∷ idx (codes "co_access_edges") (codes "idx_co_access_edges_tenant") tenant_only_idx t4
    ∷ fk (codes "co_access_edges") (codes "co_access_edges_memory_a_tenant_fkey")
        ((codes "memory_a") ∷ tenant_id ∷ []) (codes "memories") id_tenant t4
    ∷ fk (codes "co_access_edges") (codes "co_access_edges_memory_b_tenant_fkey")
        ((codes "memory_b") ∷ tenant_id ∷ []) (codes "memories") id_tenant t4
    ∷ col (codes "memory_conflicts") agent_uuid t4
    ∷ col (codes "memory_conflicts") tenant_id t4
    ∷ idx (codes "memory_conflicts") (codes "idx_memory_conflicts_tenant") tenant_agent_idx t4
    ∷ fk (codes "memory_conflicts") (codes "memory_conflicts_tenant_agent_fkey") agent_key
        (codes "agents") agents_target t4
    ∷ fk_nullable (codes "memory_conflicts") (codes "memory_conflicts_memory_a_tenant_fkey")
        ((codes "memory_a") ∷ tenant_id ∷ []) (codes "memories") id_tenant t4
    ∷ fk_nullable (codes "memory_conflicts") (codes "memory_conflicts_memory_b_tenant_fkey")
        ((codes "memory_b") ∷ tenant_id ∷ []) (codes "memories") id_tenant t4
    ∷ col (codes "retrieval_feedback") agent_uuid t4
    ∷ col (codes "retrieval_feedback") tenant_id t4
    ∷ idx (codes "retrieval_feedback") (codes "idx_retrieval_feedback_tenant") tenant_agent_idx t4
    ∷ fk (codes "retrieval_feedback") (codes "retrieval_feedback_tenant_agent_fkey") agent_key
        (codes "agents") agents_target t4
    ∷ fk_nullable (codes "retrieval_feedback") (codes "retrieval_feedback_memory_tenant_fkey")
        ((codes "memory_id") ∷ tenant_id ∷ []) (codes "memories") id_tenant t4
    ∷ []

abbrev pub tranche_5_objects : List PlannedObject
tranche_5_objects =
    col (codes "amp_controller_state") agent_uuid t5
    ∷ col (codes "amp_controller_state") tenant_id t5
    ∷ idx (codes "amp_controller_state") (codes "idx_amp_controller_state_tenant") tenant_agent_idx
        t5
    ∷ fk (codes "amp_controller_state") (codes "amp_controller_state_tenant_agent_fkey") agent_key
        (codes "agents") agents_target t5
    ∷ col (codes "rmk_episodes") agent_uuid t5
    ∷ col (codes "rmk_episodes") tenant_id t5
    ∷ idx (codes "rmk_episodes") (codes "idx_rmk_episodes_tenant") tenant_agent_idx t5
    ∷ fk (codes "rmk_episodes") (codes "rmk_episodes_tenant_agent_fkey") agent_key (codes "agents")
        agents_target t5
    ∷ fk_nullable (codes "rmk_episodes") (codes "rmk_episodes_policy_tenant_fkey")
        ((codes "policy_id") ∷ tenant_id ∷ []) (codes "rmk_policies") id_tenant t5
    ∷ []

abbrev pub step_7_objects : List PlannedObject
step_7_objects =
    constraint (codes "agents") (codes "agents_tenant_id_not_null_chk") not_null_precheck
      (tenant_id ∷ []) t7 t7
    ∷ []

-- `PLANNED_OBJECTS`
unfoldable pub planned_objects : List PlannedObject
planned_objects =
    tranche_1_objects ++ tranche_2_objects ++ tranche_3_objects ++ tranche_4_objects
    ++ tranche_5_objects ++ step_7_objects
