-- ===== src/Tenancy/Plan/Authorities.antt =====
-- src/tenancy/plan.rs: the side tables of the plan, which its lookups read by the first match.
use aeon_iq_temp.Common.{
  Bool, true, false, List, [], ◌∷◌, Option, none, some, Text, codes, text_eq, find, filter,
}
use aeon_iq_temp.Tenancy.Plan.Kinds.{Tranche, Stage, prepare}
use aeon_iq_temp.Tenancy.Plan.Objects.{PlannedObject, name, creating_tranche}
use aeon_iq_temp.Tenancy.Plan.Schema.{planned_objects, tenant_id, session_identity}
use aeon_iq_temp.Tenancy.Plan.Lookup.{is_built_in}

pub record CompatibilityPrerequisite : Type 0 where
  pub planned_object : Text
  pub blocker : Text
  pub required_write_order : List Text
  pub single_transaction : Bool
  pub writers_deployed_before : Stage
  pub drain_incompatible_binaries : Bool
  pub rollback : Text

abbrev pub compatibility_prerequisites : List CompatibilityPrerequisite
compatibility_prerequisites =
    record {
      planned_object = codes "working_memory_session_fkey";
      blocker =
          codes
            "upsert_working_memory inserts into working_memory first and mirrors into sessions second, as two separate autocommit statements on the pool. Once working_memory_session_fkey exists the first statement references a sessions row the second has not written yet, so the first turn of every new session fails. NOT VALID does not defer this: it exempts historical rows, never new ones.";
      required_write_order = codes "sessions" ∷ codes "working_memory" ∷ [];
      single_transaction = true;
      writers_deployed_before = prepare;
      drain_incompatible_binaries = true;
      rollback =
          codes
            "Once the foreign key exists, rolling the application back to a release with the old write order reintroduces the failure. A rollback therefore requires either dropping working_memory_session_fkey or keeping a bridge that materialises the parent session row before the child write. Rolling back the binary alone is not a recovery path.";
    }
    ∷ []

unfoldable pub compatibility_prerequisite_for : Text → Option CompatibilityPrerequisite
compatibility_prerequisite_for object =
    find (λ (p : CompatibilityPrerequisite). text_eq p.planned_object object)
      compatibility_prerequisites

-- `filter_map`
abbrev pub prepend {ℓ} : {A : Type ℓ} → Option A → List A → List A
prepend none rest = rest
prepend (some p) rest = p ∷ rest

unfoldable pub with_prerequisite : List PlannedObject → List CompatibilityPrerequisite
with_prerequisite [] = []
with_prerequisite (o ∷ objects) =
    prepend (compatibility_prerequisite_for (name o)) (with_prerequisite objects)

unfoldable pub prepare_blockers : Tranche → List CompatibilityPrerequisite
unfolding planned_objects with_prerequisite
prepare_blockers tranche =
    with_prerequisite (filter (λ o. is_built_in tranche (creating_tranche o)) planned_objects)

pub record BackfillAuthority : Type 0 where
  pub table : Text
  pub source : Text
  pub agreement : Option Text
  pub on_disagreement : Text

abbrev leave_and_report : Text
leave_and_report =
    codes
      "left NULL and reported; the audit's blocking finding is the output, and no side is picked"

abbrev pub backfill_authority : List BackfillAuthority
backfill_authority =
    record {
      table = codes "memory_entity_links";
      source =
          codes
            "memories m ON m.id = l.memory_id, entities e ON e.id = l.entity_id, agents a ON a.agent_id = l.agent_id";
      agreement = some (
          codes
            "m.tenant_id IS NOT NULL AND m.tenant_id = e.tenant_id AND m.tenant_id = a.tenant_id");
      on_disagreement = leave_and_report;
    }
    ∷ record {
      table = codes "co_access_edges";
      source = codes "memories ma ON ma.id = e.memory_a, memories mb ON mb.id = e.memory_b";
      agreement = some (codes "ma.tenant_id IS NOT NULL AND ma.tenant_id = mb.tenant_id");
      on_disagreement = leave_and_report;
    }
    ∷ record {
      table = codes "memory_versions";
      source = codes "memories m ON m.id = v.memory_id";
      agreement = some (codes "m.tenant_id IS NOT NULL");
      on_disagreement = leave_and_report;
    }
    ∷ record {
      table = codes "memory_conflicts";
      source = codes "agents a ON a.agent_id = c.agent_id";
      agreement = some (
          codes
            "a.tenant_id IS NOT NULL AND (c.memory_a IS NULL OR EXISTS (SELECT 1 FROM memories m WHERE m.id = c.memory_a AND m.tenant_id = a.tenant_id)) AND (c.memory_b IS NULL OR EXISTS (SELECT 1 FROM memories m WHERE m.id = c.memory_b AND m.tenant_id = a.tenant_id))");
      on_disagreement = leave_and_report;
    }
    ∷ record {
      table = codes "retrieval_feedback";
      source = codes "agents a ON a.agent_id = f.agent_id";
      agreement = some (
          codes
            "a.tenant_id IS NOT NULL AND (f.memory_id IS NULL OR EXISTS (SELECT 1 FROM memories m WHERE m.id = f.memory_id AND m.tenant_id = a.tenant_id))");
      on_disagreement = leave_and_report;
    }
    ∷ record {
      table = codes "memories";
      source = codes "agents a ON a.agent_id = m.agent_id";
      agreement = some (
          codes
            "a.tenant_id IS NOT NULL AND (m.archival_batch_id IS NULL OR EXISTS (SELECT 1 FROM archival_batches b WHERE b.id = m.archival_batch_id AND b.tenant_id = a.tenant_id))");
      on_disagreement = leave_and_report;
    }
    ∷ record {
      table = codes "rmk_episodes";
      source = codes "agents a ON a.agent_id = e.agent_id";
      agreement = some (
          codes
            "a.tenant_id IS NOT NULL AND (e.policy_id IS NULL OR EXISTS (SELECT 1 FROM rmk_policies p WHERE p.id = e.policy_id AND p.tenant_id = a.tenant_id))");
      on_disagreement = leave_and_report;
    }
    ∷ record {
      table = codes "working_memory";
      source = codes "sessions s ON s.agent_id = w.agent_id AND s.session_id = w.session_id";
      agreement = some (codes "s.tenant_id IS NOT NULL AND s.agent_uuid IS NOT NULL");
      on_disagreement =
          codes
            "left NULL and reported; sessions must be fully backfilled first, so a NULL here means either the session row does not exist yet or its own backfill has not run";
    }
    ∷ []

unfoldable pub backfill_authority_for : Text → Option BackfillAuthority
backfill_authority_for t = find (λ (b : BackfillAuthority). text_eq b.table t) backfill_authority

pub data UniquenessTransition : Type 0 where
  already_implied_shape relaxation_shape narrowing_shape : UniquenessTransition

unfoldable pub shape_str : UniquenessTransition → Text
shape_str already_implied_shape = codes "ALREADY_IMPLIED"
shape_str relaxation_shape = codes "RELAXATION"
shape_str narrowing_shape = codes "NARROWING"

abbrev pub can_collide : UniquenessTransition → Bool
can_collide narrowing_shape = true
can_collide _ = false

pub data UniquenessChange : Type 0 where
  already_implied relaxation : UniquenessChange
  narrowing : Text → UniquenessChange

abbrev pub change_shape : UniquenessChange → UniquenessTransition
change_shape already_implied = already_implied_shape
change_shape relaxation = relaxation_shape
change_shape (narrowing probe) = narrowing_shape

abbrev pub change_collision_probe : UniquenessChange → Option Text
change_collision_probe (narrowing probe) = some probe
change_collision_probe _ = none

pub record PlannedUniquenessTransition : Type 0 where
  pub table : Text
  pub from : List Text
  pub to : List Text
  pub change : UniquenessChange
  pub reason : Text

abbrev pub shape : PlannedUniquenessTransition → UniquenessTransition
shape t = change_shape t.change

abbrev pub collision_probe : PlannedUniquenessTransition → Option Text
collision_probe t = change_collision_probe t.change

abbrev pub uniqueness_transitions : List PlannedUniquenessTransition
uniqueness_transitions =
    record {
      table = codes "sessions";
      from = codes "agent_id" ∷ codes "session_id" ∷ [];
      to = session_identity;
      change = relaxation;
      reason =
          codes
            "agent_uuid is a one-for-one re-identification of the legacy agent_id, and tenant_id is added rather than substituted for anything. Two rows distinguished by (agent_id, session_id) remain distinguished by (tenant_id, agent_uuid, session_id), so nothing legal today can collide under the new tuple.";
    }
    ∷ record {
      table = codes "agents";
      from = tenant_id ∷ codes "external_agent_id" ∷ [];
      to = tenant_id ∷ codes "external_agent_id" ∷ [];
      change = already_implied;
      reason =
          codes
            "UNIQUE (tenant_id, external_agent_id) already exists. Step 4B adds no uniqueness to agents, so the tuple is unchanged.";
    }
    ∷ []

unfoldable pub uniqueness_transition_for : Text → Option PlannedUniquenessTransition
uniqueness_transition_for t =
    find (λ (u : PlannedUniquenessTransition). text_eq u.table t) uniqueness_transitions
