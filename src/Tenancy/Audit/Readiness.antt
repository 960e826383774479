-- ===== src/Tenancy/Audit/Readiness.antt =====
-- src/tenancy/audit.rs, and the verdict of src/tenancy/report.rs: which tranches may proceed.
use aeon_iq_temp.Common.{
  ℕ, Bool, true, false, ◌&&◌, ◌||◌, List, [], ◌∷◌, ◌++◌, map, Text, codes, text_eq, any, filter,
  is_empty, length, ltb, ◌==◌, if◌then◌else◌,
}
use aeon_iq_temp.Tenancy.Plan.Kinds.{Tranche, tranche_eq, all_tranches}
use aeon_iq_temp.Tenancy.Audit.Codes.{
  is_blocking, ReasonCode, reason_str, reason_eq, unclassified_table, inventory_table_missing,
  multiple_classifications, missing_canonical_ownership_path, schema_relationship_drift,
}
use aeon_iq_temp.Tenancy.Audit.Registry.{TableEntry}
use aeon_iq_temp.Tenancy.Audit.Findings.{Finding}

abbrev pub is_inventory_code : ReasonCode → Bool
is_inventory_code unclassified_table = true
is_inventory_code inventory_table_missing = true
is_inventory_code multiple_classifications = true
is_inventory_code missing_canonical_ownership_path = true
is_inventory_code _ = false

abbrev pub is_contract_code : ReasonCode → Bool
is_contract_code schema_relationship_drift = true
is_contract_code c = is_inventory_code c

abbrev pub text_ltb : Text → Text → Bool
text_ltb [] [] = false
text_ltb [] (d ∷ t) = true
text_ltb (c ∷ s) [] = false
text_ltb (c ∷ s) (d ∷ t) = ltb c d || (c == d && text_ltb s t)

abbrev pub insert_sorted : Text → List Text → List Text
insert_sorted x [] = x ∷ []
insert_sorted x (y ∷ ys) =
    let rest = insert_sorted x ys in if text_ltb y x then y ∷ rest else x ∷ y ∷ ys

-- `Vec::sort` of strings
abbrev pub sort : List Text → List Text
sort [] = []
sort (x ∷ xs) = insert_sorted x (sort xs)

abbrev pub drop_repeat : Text → List Text → List Text
drop_repeat x [] = x ∷ []
drop_repeat x (y ∷ ys) = if text_eq x y then y ∷ ys else x ∷ y ∷ ys

-- `Vec::dedup`
abbrev pub dedup : List Text → List Text
dedup [] = []
dedup (x ∷ xs) = drop_repeat x (dedup xs)

-- `format!("{}: {}", table, reason_code)`
unfoldable pub reason_line : Text → ReasonCode → Text
unfolding reason_str
reason_line t c = t ++ codes ": " ++ reason_str c

abbrev pub is_global : Finding → Bool
is_global f = is_inventory_code f.reason_code && is_blocking f.severity

abbrev pub global_line : Finding → Text
global_line f = reason_line f.table_name f.reason_code

unfoldable pub global_reasons : List Finding → List Text
global_reasons findings = dedup (sort (map global_line (filter is_global findings)))

-- A finding that blocks the tranche of an entry.
abbrev pub is_held : TableEntry → Finding → Bool
is_held e f =
    (text_eq f.table_name e.table && is_blocking f.severity)
    && (is_contract_code f.reason_code
        || any (λ c. reason_eq c f.reason_code) e.required_zero_codes)

abbrev pub entry_reasons : List Finding → TableEntry → List Text
entry_reasons findings e =
    map (λ (f : Finding). reason_line e.table f.reason_code) (filter (is_held e) findings)

abbrev pub entries_reasons : List Finding → List TableEntry → List Text
entries_reasons findings [] = []
entries_reasons findings (e ∷ entries) =
    entry_reasons findings e ++ entries_reasons findings entries

pub record TrancheReadiness : Type 0 where
  pub tranche : Tranche
  pub tables : List Text
  pub ready : Bool
  pub blocking_reasons : List Text

abbrev pub tables_in : Tranche → List TableEntry → List TableEntry
tables_in t registry = filter (λ (e : TableEntry). tranche_eq e.tranche t) registry

abbrev table_name : TableEntry → Text
table_name e = e.table

unfoldable pub assess_tranche : List TableEntry → List Finding → Tranche → TrancheReadiness
unfolding global_reasons
assess_tranche registry findings t =
    let tables = tables_in t registry in
    let blocking = dedup (sort (global_reasons findings ++ entries_reasons findings tables)) in
    record {
      tranche = t;
      tables = map table_name tables;
      ready = is_empty blocking;
      blocking_reasons = blocking;
    }

unfoldable pub assess_tranches : List TableEntry → List Finding → List TrancheReadiness
unfolding assess_tranche
assess_tranches registry findings = map (assess_tranche registry findings) all_tranches

abbrev pub is_blocking_finding : Finding → Bool
is_blocking_finding f = is_blocking f.severity

abbrev pub blocking_count : List Finding → ℕ
blocking_count findings = length (filter is_blocking_finding findings)

-- `is_blocked`, of a report whose count is that of its findings
abbrev pub is_blocked : List Finding → Bool
is_blocked findings = ltb 0 (blocking_count findings)

unfoldable pub verdict : List Finding → Text
verdict findings = if is_blocked findings then codes "BLOCKED" else codes "READY"
