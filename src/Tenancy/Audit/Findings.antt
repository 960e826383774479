-- ===== src/Tenancy/Audit/Findings.antt =====
-- src/tenancy/audit.rs: the findings, and the checks of the registry against the live schema. Each
-- check gives the findings it pushes, in order.
use aeon_iq_temp.Common.{
  ℕ, Bool, true, false, not, ◌&&◌, List, [], ◌∷◌, ◌++◌, Option, none, some, Text, codes, ◌==◌,
  if◌then◌else◌,
}
use aeon_iq_temp.Tenancy.Audit.Codes.{
  Severity, ReasonCode, severity, unclassified_table, inventory_table_missing,
  multiple_classifications, missing_canonical_ownership_path,
}
use aeon_iq_temp.Tenancy.Audit.Registry.{
  class_str, is_system_global, TableEntry, entry_count, DiscoveredTable, table_named,
}
use aeon_iq_temp.Tenancy.Audit.Identifiers.{decimal}

pub record Finding : Type 0 where
  pub severity : Severity
  pub reason_code : ReasonCode
  pub table_name : Text
  pub row_identifier : Option Text
  pub count : ℕ
  pub diagnostic : Text
  pub ownership_path : Option Text

abbrev pub contract_finding : ReasonCode → Text → Text → Finding
contract_finding reason_code t diagnostic = record {
  severity = severity reason_code;
  reason_code = reason_code;
  table_name = t;
  row_identifier = none;
  count = 1;
  diagnostic = diagnostic;
  ownership_path = none;
}

-- `match inventory::entry_count(&table.name)`
abbrev pub count_findings : ℕ → Text → List Finding
count_findings n t =
    if n == 0
    then contract_finding unclassified_table t (
        codes
          "table exists in the live schema but has no entry in the tenancy registry; add one with an explicit classification and canonical ownership path")
      ∷ []
    else if n == 1
    then []
    else contract_finding multiple_classifications t
        (decimal n ++ codes " registry entries name this table; exactly one is required")
      ∷ []

abbrev pub missing_findings : Option DiscoveredTable → TableEntry → List Finding
missing_findings (some live) e = []
missing_findings none e =
    contract_finding inventory_table_missing e.table
      (codes "registry names a table that does not exist in the live schema")
    ∷ []

abbrev pub is_none {ℓ} : {A : Type ℓ} → Option A → Bool
is_none none = true
is_none (some a) = false

unfoldable pub path_findings : TableEntry → List Finding
unfolding class_str
path_findings e =
    if not (is_system_global e.class) && is_none e.canonical_path
    then contract_finding missing_canonical_ownership_path e.table (
        codes "classified "
        ++ class_str e.class
        ++ codes " but declares no canonical ownership path")
      ∷ []
    else []

unfoldable pub tables_checked : List TableEntry → List DiscoveredTable → List Finding
tables_checked registry [] = []
tables_checked registry (t ∷ tables) =
    count_findings (entry_count registry t.name) t.name ++ tables_checked registry tables

unfoldable pub entries_checked : List DiscoveredTable → List TableEntry → List Finding
unfolding path_findings
entries_checked tables [] = []
entries_checked tables (e ∷ entries) =
    (missing_findings (table_named e.table tables) e ++ path_findings e)
    ++ entries_checked tables entries

unfoldable pub check_inventory_contract : List TableEntry → List DiscoveredTable → List Finding
unfolding tables_checked entries_checked
check_inventory_contract registry tables =
    tables_checked registry tables ++ entries_checked tables registry
