-- ===== src/Tenancy/Audit/Paths.antt =====
-- src/tenancy/audit.rs: ownership paths as SQL, and the identifiers of an entry before any query.
use aeon_iq_temp.Common.{
  ℕ, ◌+◌, List, [], ◌∷◌, ◌++◌, Option, none, some, Text, codes, Result, ok, err, ◌>>=◌, ◌>>◌,
}
use aeon_iq_temp.Tenancy.Audit.Registry.{
  IdentityColumn, PathKind, tenant_column, agent_text, agent_uuid, session, memory, entity,
  archival_batch, policy, OwnershipPath, TableEntry,
}
use aeon_iq_temp.Tenancy.Audit.Identifiers.{UnsafeIdentifier, new_identifier, on, decimal}

-- A rejection, with the text that was rejected.
pub record Rejected : Type 0 where
  pub raw : Text
  pub reason : UnsafeIdentifier

abbrev pub named : Text → Result UnsafeIdentifier Text → Result Rejected Text
named raw (ok identifier) = ok identifier
named raw (err reason) = err (record { raw = raw; reason = reason })

unfoldable pub identifier_of : Text → Result Rejected Text
unfolding new_identifier
identifier_of raw = named raw (new_identifier raw)

unfoldable pub parent_of : Text → Result Rejected Text
unfolding identifier_of
parent_of t = do identifier ← identifier_of t; ok (codes "public." ++ identifier)

pub record PathSql : Type 0 where
  pub joins : Text
  pub root_null : Text
  pub orphaned : Text
  pub agent_uuid : Text
  pub tenant : Text

abbrev pub dq : Text → Text
dq s = codes "\"" ++ s ++ codes "\""

abbrev field : Text → Text → Text
field alias column = alias ++ codes "." ++ dq column

-- `c.on("t")`
abbrev on_t : Text → Text
unfolding on
on_t c = on c (codes "t")

abbrev is_null : Text → Text
unfolding on_t
is_null c = on_t c ++ codes " IS NULL"

abbrev is_orphaned : Text → Text → Text
unfolding on_t
is_orphaned c alias =
    on_t c ++ codes " IS NOT NULL AND " ++ field alias (codes "id") ++ codes " IS NULL"

abbrev left_join : Text → Text → Text → Text → Text
left_join t alias column value =
    codes " LEFT JOIN "
    ++ t
    ++ codes " "
    ++ alias
    ++ codes " ON "
    ++ field alias column
    ++ codes " = "
    ++ value

abbrev through_agent : Text → Text → Text → Text → PathSql
through_agent a joins root_null orphaned = record {
  joins = joins;
  root_null = root_null;
  orphaned = orphaned;
  agent_uuid = field a (codes "id");
  tenant = field a (codes "tenant_id");
}

unfoldable pub derived_path : Text → Text → Text → ℕ → Text → Result Rejected PathSql
unfolding identifier_of parent_of on_t is_null is_orphaned
derived_path column parent_table alias_prefix idx agents = do
  c ← identifier_of column
  p_table ← parent_of parent_table
  let p = alias_prefix ++ decimal idx
  let a = codes "pa" ++ decimal idx
  ok (
      through_agent a
        (left_join p_table p (codes "id") (on_t c)
          ++ left_join agents a (codes "agent_id") (field p (codes "agent_id")))
        (is_null c) (is_orphaned c p))

unfoldable pub agent_path : Text → Text → ℕ → Text → Result Rejected PathSql
unfolding identifier_of on_t is_null is_orphaned
agent_path column key idx agents = do
  c ← identifier_of column
  let a = codes "pa" ++ decimal idx
  ok (through_agent a (left_join agents a key (on_t c)) (is_null c) (is_orphaned c a))

unfoldable pub kind_sql : PathKind → ℕ → Text → Result Rejected PathSql
unfolding identifier_of parent_of on_t is_null agent_path derived_path
kind_sql (tenant_column column) idx agents = do
  c ← identifier_of column
  ok (record {
    joins = [];
    root_null = is_null c;
    orphaned = codes "FALSE";
    agent_uuid = codes "NULL::uuid";
    tenant = on_t c;
  })
kind_sql (agent_text column) idx agents = agent_path column (codes "agent_id") idx agents
kind_sql (agent_uuid column) idx agents = agent_path column (codes "id") idx agents
kind_sql (session agent_column session_column) idx agents = do
  ac ← identifier_of agent_column
  sc ← identifier_of session_column
  sessions ← parent_of (codes "sessions")
  let s = codes "ps" ++ decimal idx
  let a = codes "pa" ++ decimal idx
  ok (
      through_agent a
        (left_join sessions s (codes "agent_id") (on_t ac)
          ++ codes " AND "
          ++ field s (codes "session_id")
          ++ codes " = "
          ++ on_t sc
          ++ left_join agents a (codes "agent_id") (field s (codes "agent_id")))
        (is_null sc)
        (on_t sc
          ++ codes " IS NOT NULL AND "
          ++ on_t ac
          ++ codes " IS NOT NULL AND "
          ++ field s (codes "id")
          ++ codes " IS NULL"))
kind_sql (memory column) idx agents = derived_path column (codes "memories") (codes "pm") idx agents
kind_sql (entity column) idx agents = derived_path column (codes "entities") (codes "pe") idx agents
kind_sql (archival_batch column) idx agents =
    derived_path column (codes "archival_batches") (codes "pb") idx agents
kind_sql (policy column) idx agents =
    derived_path column (codes "rmk_policies") (codes "pp") idx agents

unfoldable pub path_sql : OwnershipPath → ℕ → Result Rejected PathSql
unfolding parent_of kind_sql
path_sql path idx = do agents ← parent_of (codes "agents"); kind_sql path.kind idx agents

unfoldable pub precheck_columns : List IdentityColumn → Result Rejected (Unit {0})
unfolding identifier_of
precheck_columns [] = ok tt
precheck_columns (c ∷ columns) = identifier_of c.name >>= λ _. precheck_columns columns

unfoldable pub precheck_names : List Text → Result Rejected (Unit {0})
unfolding identifier_of
precheck_names [] = ok tt
precheck_names (c ∷ columns) = identifier_of c >>= λ _. precheck_names columns

unfoldable pub precheck_canonical : Option OwnershipPath → Result Rejected (Unit {0})
unfolding path_sql
precheck_canonical none = ok tt
precheck_canonical (some path) = path_sql path 0 >>= λ _. ok tt

unfoldable pub precheck_paths : ℕ → List OwnershipPath → Result Rejected (Unit {0})
unfolding path_sql
precheck_paths i [] = ok tt
precheck_paths i (path ∷ paths) = path_sql path (i + 1) >>= λ _. precheck_paths (i + 1) paths

abbrev pub columns_or_none : Option (List Text) → List Text
columns_or_none none = []
columns_or_none (some columns) = columns

unfoldable pub precheck_identifiers : TableEntry → Result Rejected (Unit {0})
unfolding identifier_of precheck_columns precheck_canonical precheck_paths precheck_names
precheck_identifiers e = do
  table ← identifier_of e.table
  precheck_columns e.row_identity
  precheck_canonical e.canonical_path
  precheck_paths 0 e.secondary_paths
  precheck_names (columns_or_none e.future_unique_columns)
