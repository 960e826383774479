-- ===== src/Tenancy/Plan/Bridges.antt =====
-- src/tenancy/plan.rs: how the ownership columns of a table stay populated during the transition.
use aeon_iq_temp.Common.{
  Bool, true, false, List, [], ◌∷◌, Option, none, some, Text, codes, text_eq, if◌then◌else◌,
}

pub data ConditionalOwnership : Type 0 where
  agentless_allowed resolved_and_verified : ConditionalOwnership
  preserved_unresolved contradiction_rejected : ConditionalOwnership

unfoldable pub ownership_str : ConditionalOwnership → Text
ownership_str agentless_allowed = codes "AGENTLESS_ALLOWED"
ownership_str resolved_and_verified = codes "RESOLVED_AND_VERIFIED"
ownership_str preserved_unresolved = codes "PRESERVED_UNRESOLVED"
ownership_str contradiction_rejected = codes "CONTRADICTION_REJECTED"

-- The trigger and the function; then a reason, or the parents.
pub data TransitionalWrite : Type 0 where
  agent_bridge : Text → Text → TransitionalWrite
  conditional_agent_bridge : Text → Text → Text → TransitionalWrite
  session_bridge : Text → Text → TransitionalWrite
  memory_bridge : Text → Text → TransitionalWrite
  multi_path_bridge : Text → Text → List Text → TransitionalWrite

unfoldable pub strategy_str : TransitionalWrite → Text
strategy_str (agent_bridge t f) = codes "AGENT_BRIDGE_TRIGGER"
strategy_str (conditional_agent_bridge t f r) = codes "CONDITIONAL_AGENT_BRIDGE_TRIGGER"
strategy_str (session_bridge t f) = codes "SESSION_BRIDGE_TRIGGER"
strategy_str (memory_bridge t f) = codes "MEMORY_BRIDGE_TRIGGER"
strategy_str (multi_path_bridge t f ps) = codes "MULTI_PATH_BRIDGE_TRIGGER"

abbrev pub trigger : TransitionalWrite → Text
trigger (agent_bridge t f) = t
trigger (conditional_agent_bridge t f r) = t
trigger (session_bridge t f) = t
trigger (memory_bridge t f) = t
trigger (multi_path_bridge t f ps) = t

abbrev pub function : TransitionalWrite → Text
function (agent_bridge t f) = f
function (conditional_agent_bridge t f r) = f
function (session_bridge t f) = f
function (memory_bridge t f) = f
function (multi_path_bridge t f ps) = f

abbrev pub resolves_through_a_parent : TransitionalWrite → Bool
resolves_through_a_parent (agent_bridge t f) = false
resolves_through_a_parent (conditional_agent_bridge t f r) = false
resolves_through_a_parent _ = true

abbrev pub transition : List (Text × TransitionalWrite)
transition =
    (
      codes "archival_batches",
      agent_bridge (codes "trg_archival_batches_tenancy_bridge")
          (codes "fn_archival_batches_tenancy_bridge"),
    )
    ∷ (
      codes "audit_logs",
      conditional_agent_bridge (codes "trg_audit_logs_tenancy_bridge")
          (codes "fn_audit_logs_tenancy_bridge")
          (codes
            "audit_logs records agentless events — startup, configuration change, administrative action — which are valid rows with no owning agent, so its ownership columns stay NULL-able permanently and LEGACY_UNMAPPED is deliberately absent from its required-zero set. That is not a reason to install no bridge. Declining to resolve ownership at all also declines it for the rows that *do* name a resolvable agent, which then stay NULL for no reason and are indistinguishable from genuinely agentless ones. The bridge is therefore conditional rather than absent: it owns what it can resolve, leaves what it cannot so the audit reports it, and refuses a row that contradicts agents outright."),
    )
    ∷ (
      codes "entities",
      agent_bridge (codes "trg_entities_tenancy_bridge") (codes "fn_entities_tenancy_bridge"),
    )
    ∷ (
      codes "memory_graph",
      agent_bridge (codes "trg_memory_graph_tenancy_bridge")
          (codes "fn_memory_graph_tenancy_bridge"),
    )
    ∷ (
      codes "rmk_policies",
      agent_bridge (codes "trg_rmk_policies_tenancy_bridge")
          (codes "fn_rmk_policies_tenancy_bridge"),
    )
    ∷ (
      codes "sessions",
      agent_bridge (codes "trg_sessions_tenancy_bridge") (codes "fn_sessions_tenancy_bridge"),
    )
    ∷ (
      codes "working_memory",
      session_bridge (codes "trg_working_memory_tenancy_bridge")
          (codes "fn_working_memory_tenancy_bridge"),
    )
    ∷ (
      codes "memories",
      multi_path_bridge (codes "trg_memories_tenancy_bridge") (codes "fn_memories_tenancy_bridge")
          (codes "agents" ∷ codes "archival_batches" ∷ []),
    )
    ∷ (
      codes "extraction_jobs",
      agent_bridge (codes "trg_extraction_jobs_tenancy_bridge")
          (codes "fn_extraction_jobs_tenancy_bridge"),
    )
    ∷ (
      codes "memory_retrieval_logs",
      agent_bridge (codes "trg_memory_retrieval_logs_tenancy_bridge")
          (codes "fn_memory_retrieval_logs_tenancy_bridge"),
    )
    ∷ (
      codes "cognitive_hypervisor_timeline",
      agent_bridge (codes "trg_cht_tenancy_bridge") (codes "fn_cht_tenancy_bridge"),
    )
    ∷ (
      codes "memory_versions",
      memory_bridge (codes "trg_memory_versions_tenancy_bridge")
          (codes "fn_memory_versions_tenancy_bridge"),
    )
    ∷ (
      codes "memory_entity_links",
      multi_path_bridge (codes "trg_memory_entity_links_tenancy_bridge")
          (codes "fn_memory_entity_links_tenancy_bridge")
          (codes "memories" ∷ codes "entities" ∷ codes "agents" ∷ []),
    )
    ∷ (
      codes "co_access_edges",
      memory_bridge (codes "trg_co_access_edges_tenancy_bridge")
          (codes "fn_co_access_edges_tenancy_bridge"),
    )
    ∷ (
      codes "memory_conflicts",
      multi_path_bridge (codes "trg_memory_conflicts_tenancy_bridge")
          (codes "fn_memory_conflicts_tenancy_bridge") (codes "agents" ∷ codes "memories" ∷ []),
    )
    ∷ (
      codes "retrieval_feedback",
      multi_path_bridge (codes "trg_retrieval_feedback_tenancy_bridge")
          (codes "fn_retrieval_feedback_tenancy_bridge") (codes "agents" ∷ codes "memories" ∷ []),
    )
    ∷ (
      codes "amp_controller_state",
      agent_bridge (codes "trg_amp_controller_state_tenancy_bridge")
          (codes "fn_amp_controller_state_tenancy_bridge"),
    )
    ∷ (
      codes "rmk_episodes",
      multi_path_bridge (codes "trg_rmk_episodes_tenancy_bridge")
          (codes "fn_rmk_episodes_tenancy_bridge") (codes "agents" ∷ codes "rmk_policies" ∷ []),
    )
    ∷ []

abbrev find_transition : Text → List (Text × TransitionalWrite) → Option TransitionalWrite
find_transition t [] = none
find_transition t ((n, strategy) ∷ rest) =
    if text_eq n t then some strategy else find_transition t rest

unfoldable pub transition_for : Text → Option TransitionalWrite
transition_for t = find_transition t transition
