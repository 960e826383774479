-- ===== src/Tenancy/Audit/Snapshot.antt =====
-- src/tenancy/audit.rs: the audit of one snapshot of the database. What the catalog says, and what
-- the scans of rows find, are arguments; no statement fails.
use aeon_iq_temp.Common.{
  Bool, true, false, ◌&&◌, ◌||◌, List, [], ◌∷◌, ◌++◌, map, Option, none, some, Text, codes, text_eq,
  texts_eq, any, Result, ok, err, if◌then◌else◌,
}
use aeon_iq_temp.Tenancy.Plan.Objects.{join}
use aeon_iq_temp.Tenancy.Audit.Codes.{severity_str, reason_str}
use aeon_iq_temp.Tenancy.Audit.Registry.{
  is_system_global, IdentityColumn, allowed_types, kind_str, TableEntry, DiscoveredColumn,
  DiscoveredTable, table_named, column_named,
}
use aeon_iq_temp.Tenancy.Audit.Identifiers.{
  UnsafeIdentifier, is_empty, bad_first, bad_char, too_long,
}
use aeon_iq_temp.Tenancy.Audit.Findings.{Finding, check_inventory_contract}
use aeon_iq_temp.Tenancy.Audit.Relationships.{
  Checked, passed, both, check_that, check_schema_relationships, check_global_scope,
}
use aeon_iq_temp.Tenancy.Audit.Contracts.{LiveCatalog, fails, verify_schema_contract}
use aeon_iq_temp.Tenancy.Audit.Paths.{Rejected, precheck_identifiers}
use aeon_iq_temp.Tenancy.Audit.Readiness.{text_ltb, TrancheReadiness, assess_tranches}

pub data ContractStatus : Type 0 where
  satisfied drifted not_evaluated : ContractStatus

unfoldable pub status_str : ContractStatus → Text
status_str satisfied = codes "SATISFIED"
status_str drifted = codes "DRIFTED"
status_str not_evaluated = codes "NOT_EVALUATED"

-- The columns of each primary key with their types, the rest of the catalog, and what the scans of an entry's rows
-- and of its ambiguous references push.
pub record Database : Type 0 where
  pub application_tables : List DiscoveredTable
  pub primary_keys : List (Text × List (Text × Text))
  pub catalog : LiveCatalog
  pub row_findings : TableEntry → List Finding
  pub ambiguity_findings : TableEntry → List Finding

abbrev pub key_of : Text → List (Text × List (Text × Text)) → List (Text × Text)
key_of t [] = []
key_of t ((t', columns) ∷ keys) = if text_eq t' t then columns else key_of t keys

abbrev pub key_name : Text × Text → Text
key_name c = c.0

abbrev pub identity_name : IdentityColumn → Text
identity_name c = c.name

unfoldable pub verify_identity_column : Text → IdentityColumn → Option DiscoveredColumn → Checked
verify_identity_column t c none =
    fails t (codes "row identity names column `" ++ c.name ++ codes "`, which does not exist")
verify_identity_column t c (some live) =
    check_that t (any (text_eq live.data_type) (allowed_types c.kind)) (
      codes "row identity declares `"
      ++ c.name
      ++ codes "` as exactly "
      ++ join (codes " or ") (allowed_types c.kind)
      ++ codes " ("
      ++ kind_str c.kind
      ++ codes "), but the live column is `"
      ++ live.data_type
      ++ codes "`")

unfoldable pub verify_identity_columns : Text → DiscoveredTable → List IdentityColumn → Checked
unfolding verify_identity_column
verify_identity_columns t live [] = passed
verify_identity_columns t live (c ∷ columns) =
    both (verify_identity_column t c (column_named c.name live))
      (verify_identity_columns t live columns)

abbrev reason_text : UnsafeIdentifier → Text
reason_text is_empty = codes "identifier is empty"
reason_text bad_first = codes "must begin with a lowercase ASCII letter or underscore"
reason_text bad_char = codes "may contain only lowercase ASCII letters, digits and underscores"
reason_text too_long = codes "exceeds PostgreSQL's 63-byte identifier limit"

abbrev option_ltb : Option Text → Option Text → Bool
option_ltb none none = false
option_ltb none (some t) = true
option_ltb (some s) none = false
option_ltb (some s) (some t) = text_ltb s t

-- the order of `Finding::sort_key`
unfoldable pub key_ltb : Finding → Finding → Bool
unfolding severity_str reason_str
key_ltb f g =
    text_ltb f.table_name g.table_name
    || (text_eq f.table_name g.table_name
        && (text_ltb (severity_str f.severity) (severity_str g.severity)
            || (text_eq (severity_str f.severity) (severity_str g.severity)
                && (text_ltb (reason_str f.reason_code) (reason_str g.reason_code)
                    || (text_eq (reason_str f.reason_code) (reason_str g.reason_code)
                        && option_ltb f.row_identifier g.row_identifier)))))

unfoldable pub insert_finding : Finding → List Finding → List Finding
unfolding key_ltb
insert_finding f [] = f ∷ []
insert_finding f (g ∷ gs) =
    let rest = insert_finding f gs in if key_ltb g f then g ∷ rest else f ∷ g ∷ gs

-- `findings.sort_by(…)`
unfoldable pub sort_findings : List Finding → List Finding
unfolding insert_finding
sort_findings [] = []
sort_findings (f ∷ fs) = insert_finding f (sort_findings fs)

-- `debug` prints a text as `{:?}` does.
module _ (debug : Text → Text) where
  debug_list : List Text → Text
  debug_list xs = codes "[" ++ join (codes ", ") (map debug xs) ++ codes "]"

  unfoldable pub verify_row_identity : TableEntry → DiscoveredTable → List (Text × Text) → Checked
  unfolding verify_identity_columns debug_list
  verify_row_identity e live catalog_key =
      both (verify_identity_columns e.table live e.row_identity) (
        check_that e.table (texts_eq (map identity_name e.row_identity) (map key_name catalog_key))
          (codes "row identity declares "
            ++ debug_list (map identity_name e.row_identity)
            ++ codes " but the live primary key is "
            ++ debug_list (map key_name catalog_key)))

  -- `match precheck_identifiers(entry)`
  abbrev pub precheck_result : Text → Result Rejected (Unit {0}) → Checked
  precheck_result t (ok _) = passed
  precheck_result t (err e) = fails t (
      codes "identifier "
      ++ debug e.raw
      ++ codes " is not a safe SQL identifier: "
      ++ reason_text e.reason
      ++ codes "; no query was constructed for this table")

  -- gate 1: structural drift
  unfoldable pub structure_checked : Database → TableEntry → DiscoveredTable → Checked
  unfolding verify_row_identity
  structure_checked db e live = both (check_schema_relationships e live) (
      both (verify_row_identity e live (key_of e.table db.primary_keys))
        (precheck_result e.table (precheck_identifiers e)))

  unfoldable pub scanned : Database → TableEntry → DiscoveredTable → Bool → List Finding
  scanned db e live contract_holds =
      if is_system_global e.class
      then check_global_scope e live
      else if contract_holds
      then db.row_findings e ++ db.ambiguity_findings e
      else db.ambiguity_findings e

  -- one turn of the loop over the registry: the status of the entry, and what it pushes
  unfoldable pub evaluate :
      Database → TableEntry → Option DiscoveredTable → ContractStatus × List Finding
  unfolding structure_checked scanned
  evaluate db e none = (not_evaluated, [])
  evaluate db e (some live) =
      let structure = structure_checked db e live in
      let contract = verify_schema_contract e db.catalog in
      if structure.0
      then (
        if contract.0 then satisfied else drifted,
        structure.1 ++ (contract.1 ++ scanned db e live contract.0),
      )
      else (not_evaluated, structure.1)

  unfoldable pub audit_entry : Database → TableEntry → ContractStatus × List Finding
  unfolding evaluate
  audit_entry db e = evaluate db e (table_named e.table db.application_tables)

  unfoldable pub audit_entries : Database → List TableEntry → List Finding
  unfolding audit_entry
  audit_entries db [] = []
  audit_entries db (e ∷ entries) = (audit_entry db e).1 ++ audit_entries db entries

  unfoldable pub audit_within_snapshot :
      Database → List TableEntry → List Finding × List TrancheReadiness
  unfolding audit_entries sort_findings
  audit_within_snapshot db registry =
      let findings =
        sort_findings
          (check_inventory_contract registry db.application_tables ++ audit_entries db registry) in
      (findings, assess_tranches registry findings)
