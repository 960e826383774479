-- ===== src/Tenancy/Audit/Prechecks.antt =====
-- Which names the queries on an entry interpolate, in src/tenancy/audit.rs, and what it takes for
-- the precheck of them to pass.

use aeon_iq_temp.Common.{
  all_append, ℕ, ◌+◌, Bool, true, false, ◌&&◌, List, [], ◌∷◌, ◌++◌, map, Option, none, some, Text,
  codes, all, Result, ok, err, ◌>>=◌, ◌>>◌, ◌≡◌, refl, sym, ap, ◌∙◌, arith,
}
use aeon_iq_temp.Tenancy.Audit.Registry.{
  IdentityColumn, PathKind, tenant_column, agent_text, agent_uuid, session, memory, entity,
  archival_batch, policy, OwnershipPath, TableEntry,
}
use aeon_iq_temp.Tenancy.Audit.Identifiers.{UnsafeIdentifier, new_identifier}
use aeon_iq_temp.Tenancy.Audit.Relationships.{path_columns}
use aeon_iq_temp.Tenancy.Audit.Paths.{
  PathSql, Rejected, named, identifier_of, derived_path, path_sql, kind_sql, agent_path,
  precheck_columns, precheck_names, precheck_canonical, precheck_paths, columns_or_none,
  precheck_identifiers,
}
use aeon_iq_temp.Tenancy.Audit.Snapshot.{identity_name}

abbrev pub is_accepted : {E A : Type 0} → Result E A → Bool
is_accepted (ok _) = true
is_accepted (err _) = false

abbrev pub is_name : Text → Bool
is_name n = is_accepted (new_identifier n)

-- the columns that a path starts from
abbrev pub path_names : OwnershipPath → List Text
path_names path = map (λ (c : Text × Bool). c.0) (path_columns path.kind)

abbrev pub canonical_names : Option OwnershipPath → List Text
canonical_names none = []
canonical_names (some path) = path_names path

abbrev pub secondary_names : List OwnershipPath → List Text
secondary_names [] = []
secondary_names (path ∷ paths) = path_names path ++ secondary_names paths

abbrev pub interpolated : TableEntry → List Text
interpolated e =
    e.table
    ∷ (map identity_name e.row_identity
        ++ (canonical_names e.canonical_path
            ++ (secondary_names e.secondary_paths ++ columns_or_none e.future_unique_columns)))

accepted_bind :
    {A B : Type 0} (m : Result Rejected A) (f : A → Result Rejected B) (a b : Bool)
    → is_accepted m ≡ a
    → ((x : A) → is_accepted (f x) ≡ b)
    → is_accepted (m >>= f) ≡ (a && b)
accepted_bind (ok x) f a b h k = k x ∙ ap (λ c. c && b) h
accepted_bind (err e) f a b h k = ap (λ c. c && b) h

accepted_then :
    {B : Type 0} (m : Result Rejected (Unit {0})) (n : Result Rejected B) (a b : Bool)
    → is_accepted m ≡ a
    → is_accepted n ≡ b
    → is_accepted (m >> n) ≡ (a && b)
accepted_then (ok x) n a b h k = k ∙ ap (λ c. c && b) h
accepted_then (err e) n a b h k = ap (λ c. c && b) h

identifier_accepted : (n : Text) → is_accepted (identifier_of n) ≡ is_name n
unfolding identifier_of
identifier_accepted n = of_named (new_identifier n)
  where
    of_named : (o : Result UnsafeIdentifier Text) → is_accepted (named n o) ≡ is_accepted o
    of_named (ok _) = refl
    of_named (err _) = refl

of_name :
    (n : Text) (f : Text → Result Rejected PathSql)
    → ((x : Text) → is_accepted (f x) ≡ true)
    → is_accepted (identifier_of n >>= f) ≡ (is_name n && true)
of_name n f h = accepted_bind (identifier_of n) f (is_name n) true (identifier_accepted n) h

-- A path has a query exactly when each column that it starts from is an identifier, under any index.
path_sql_lem :
    (path : OwnershipPath) (idx : ℕ)
    → is_accepted (path_sql path idx) ≡ all is_name (path_names path)
unfolding path_sql kind_sql agent_path path_columns derived_path
path_sql_lem path idx = of_kind path.kind
  where
    swap : (a s : Bool) → (a && (s && true)) ≡ (s && (a && true))
    swap a s = ground arith

    of_kind :
        (k : PathKind)
        → is_accepted (kind_sql k idx (codes "public.\"agents\""))
          ≡ all is_name (map (λ (c : Text × Bool). c.0) (path_columns k))
    of_kind (tenant_column c) = of_name c _ (λ x. refl)
    of_kind (agent_text c) = of_name c _ (λ x. refl)
    of_kind (agent_uuid c) = of_name c _ (λ x. refl)
    of_kind (session a s) =
        accepted_bind (identifier_of a) _ _ (is_name s && true) (identifier_accepted a)
          (λ x. of_name s _ (λ y. refl))
        ∙ swap (is_name a) (is_name s)
    of_kind (memory c) = of_name c _ (λ x. refl)
    of_kind (entity c) = of_name c _ (λ x. refl)
    of_kind (archival_batch c) = of_name c _ (λ x. refl)
    of_kind (policy c) = of_name c _ (λ x. refl)

columns_accepted :
    (columns : List IdentityColumn)
    → is_accepted (precheck_columns columns) ≡ all is_name (map identity_name columns)
unfolding precheck_columns
columns_accepted [] = refl
columns_accepted (c ∷ columns) =
    accepted_bind (identifier_of c.name) _ _ _ (identifier_accepted c.name)
      (λ x. columns_accepted columns)

names_accepted : (names : List Text) → is_accepted (precheck_names names) ≡ all is_name names
unfolding precheck_names
names_accepted [] = refl
names_accepted (n ∷ names) =
    accepted_bind (identifier_of n) _ _ _ (identifier_accepted n) (λ x. names_accepted names)

path_accepted :
    (path : OwnershipPath) (idx : ℕ) (rest : Result Rejected (Unit {0})) (b : Bool)
    → is_accepted rest ≡ b
    → is_accepted (path_sql path idx >>= λ _. rest) ≡ (all is_name (path_names path) && b)
path_accepted path idx rest b h =
    accepted_bind (path_sql path idx) _ _ b (path_sql_lem path idx) (λ x. h)

canonical_accepted :
    (o : Option OwnershipPath)
    → is_accepted (precheck_canonical o) ≡ all is_name (canonical_names o)
unfolding precheck_canonical
canonical_accepted none = refl
canonical_accepted (some path) =
    path_accepted path 0 (ok tt) true refl ∙ unit (all is_name (path_names path))
  where
    unit : (a : Bool) → (a && true) ≡ a
    unit a = ground arith

secondaries_accepted :
    (i : ℕ) (paths : List OwnershipPath)
    → is_accepted (precheck_paths i paths) ≡ all is_name (secondary_names paths)
unfolding precheck_paths
secondaries_accepted i [] = refl
secondaries_accepted i (path ∷ paths) =
    path_accepted path (i + 1) (precheck_paths (i + 1) paths) _ (secondaries_accepted (i + 1) paths)
    ∙ sym (all_append is_name (path_names path) (secondary_names paths))

-- The precheck of an entry passes exactly when the entry's table, its identity columns, the columns
-- that its ownership paths start from, and the columns of its future uniqueness are all accepted as
-- identifiers; and a path can be rendered, under any index, exactly when the columns that it starts
-- from are.
pub precheck_identifiers_lem :
    (e : TableEntry)
    → (is_accepted (precheck_identifiers e) ≡ all is_name (interpolated e))
      × ((path : OwnershipPath) (idx : ℕ)
          → is_accepted (path_sql path idx) ≡ all is_name (path_names path))
unfolding precheck_identifiers
precheck_identifiers_lem e =
    let ids = map identity_name e.row_identity in
    let canonical = canonical_names e.canonical_path in
    let secondary = secondary_names e.secondary_paths in
    let future = columns_or_none e.future_unique_columns in
    let split : all is_name (ids ++ (canonical ++ (secondary ++ future))) ≡ (
        all is_name ids
        && (all is_name canonical && (all is_name secondary && all is_name future))) =
      all_append is_name ids (canonical ++ (secondary ++ future))
      ∙ ap (λ b. all is_name ids && b)
          (all_append is_name canonical (secondary ++ future)
            ∙ ap (λ b. all is_name canonical && b) (all_append is_name secondary future)) in
    (
      accepted_bind (identifier_of e.table) _ _ _ (identifier_accepted e.table) (λ x.
            accepted_then (precheck_columns e.row_identity) _ _ _ (columns_accepted e.row_identity)
              (accepted_then (precheck_canonical e.canonical_path) _ _ _
                (canonical_accepted e.canonical_path)
                (accepted_then (precheck_paths 0 e.secondary_paths) _ _ _
                  (secondaries_accepted 0 e.secondary_paths) (names_accepted future))))
          ∙ ap (λ b. is_name e.table && b) (sym split),
      path_sql_lem,
    )
