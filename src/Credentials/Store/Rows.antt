-- ===== src/Credentials/Store/Rows.antt =====
-- What the statements of src/credentials/store.rs promise of the rows.

use aeon_iq_temp.Common.{
  ℕ, Bool, List, some, Text, codes, text_eq_iff, ok, Option-cases, Result-cases, inl, inr, ◌≡◌, ◌↔◌,
  refl, arith,
}
use aeon_iq_temp.Credentials.Mode
use aeon_iq_temp.Credentials.Scope
use aeon_iq_temp.Credentials.Store.{
  CredentialStatus, active, revoked, disabled, as_str, parse, CredentialRecord, CredentialRow,
  convert, validate, row_of, fetch,
}

-- The status column, both ways.
pub parse-eq-ok : (raw : Text) (s : CredentialStatus) → (parse raw ≡ ok s) ↔ (raw ≡ as_str s)
unfolding parse as_str
parse-eq-ok raw s = (forth s, back s)
  where
    forth : (s : CredentialStatus) → parse raw ≡ ok s → raw ≡ as_str s
    forth active h = ground (arith, text_eq_iff raw (codes "active"))
    forth revoked h = ground (arith, text_eq_iff raw (codes "revoked"))
    forth disabled h = ground (arith, text_eq_iff raw (codes "disabled"))

    back : (s : CredentialStatus) → raw ≡ as_str s → parse raw ≡ ok s
    back active e = rw e refl
    back revoked e = rw e refl
    back disabled e = rw e refl

-- A record comes from its row: the columns that authentication reads are the row's.
pub record Reads (row : CredentialRow) (r : CredentialRecord) : Type 0 where
  pub id : r.id ≡ row.id
  pub tenant_id : r.tenant_id ≡ row.tenant_id
  pub secret_mac : r.secret_mac ≡ row.secret_mac
  pub tenant_wide : r.tenant_wide ≡ row.tenant_wide
  pub status : row.status ≡ as_str r.status
  pub mode : row.mode ≡ Mode.as_str r.mode
  pub scopes : Scope.parse_list row.scopes ≡ ok r.scopes
  pub revoked_at : r.revoked_at ≡ row.revoked_at
  pub expires_at : r.expires_at ≡ row.expires_at

pub convert-Reads : (row : CredentialRow) (r : CredentialRecord) → convert row ≡ ok r → Reads row r
unfolding convert
convert-Reads row r h = elim (Result-cases (Mode.parse row.mode)) [
  | inr (e, bad) ↦ absurd (ground arith)
  | inl (m, read_m) ↦ elim (Result-cases (Scope.parse_list row.scopes)) [
    | inr (e, bad) ↦ absurd (ground arith)
    | inl (set, read_set) ↦ elim (Result-cases (parse row.status)) [
      | inr (e, bad) ↦ absurd (ground arith)
      | inl (s, read_s) ↦ record {
        id = ground arith;
        tenant_id = ground arith;
        secret_mac = ground arith;
        tenant_wide = ground arith;
        status = ground (arith, (parse-eq-ok row.status s).0 read_s);
        mode = ground (arith, (Mode.parse-eq-ok row.mode m).0 read_m);
        scopes = ground arith;
        revoked_at = ground arith;
        expires_at = ground arith;
      }
    ]
  ]
]

-- What `fetch` returns is the row of that id, whole and understood.
pub fetch-some :
    (reachable : Bool) (rows : List CredentialRow) (id : ℕ) (r : CredentialRecord)
    → fetch reachable rows id ≡ ok (some r)
    → (row : CredentialRow) × (row_of id rows ≡ some row) × Reads row r
unfolding fetch validate
fetch-some reachable rows id r h = elim (Option-cases (row_of id rows)) [
  | inl miss ↦ absurd (ground arith)
  | inr (row, hit) ↦ elim (Result-cases (convert row)) [
    | inl (r', read) ↦ (row, hit, convert-Reads row r (ground arith))
    | inr (e, bad) ↦ absurd (ground arith)
  ]
]
