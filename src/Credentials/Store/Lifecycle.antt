-- ===== src/Credentials/Store/Lifecycle.antt =====
-- A row of src/credentials/store.rs is read back as it was inserted, and counted by the startup gate
-- if it is usable.
use mathlib.Core.Path.{ap₂}
use aeon_iq_temp.Common.{
  ℕ, ◌<◌, Bool, true, false, ◌&&◌, List, [], ◌∷◌, none, some, codes, text_eq, any, filter, length,
  ◌==◌, ok, err, Bool-cases, inl, inr, ◌≡◌, ◌≢◌, ◌⊎◌, refl, sym, ap, ◌∙◌, arith, ==_refl, if_true,
  if_false,
}
use aeon_iq_temp.Credentials.Mode
use aeon_iq_temp.Credentials.Scope.Sets.{IsSorted}
use aeon_iq_temp.Credentials.Scope.Lists.{parse_list-to_wire}
use aeon_iq_temp.Credentials.Store.Rows.{fetch-some}
use aeon_iq_temp.Credentials.Store.{
  CredentialStatus, active, revoked, disabled, backend, as_str, parse, CredentialRecord,
  CredentialRow, NewCredential, before_expiry, is_active, is_usable_at, convert, validate,
  transpose_validate, row_of, fetch, row_allowed, new_row, insert, active_count,
}

-- What `insert` wrote is what `fetch` reads.
abbrev pub record_of : ℕ → NewCredential → CredentialRecord
record_of now new = record {
  id = new.id;
  tenant_id = new.tenant_id;
  principal_id = new.principal_id;
  secret_mac = new.secret_mac;
  mode = new.mode;
  scopes = new.scopes;
  tenant_wide = new.tenant_wide;
  status = active;
  created_at = now;
  last_used_at = none;
  revoked_at = none;
  expires_at = new.expires_at;
}

validate-new_row :
    (now : ℕ) (new : NewCredential)
    → IsSorted new.scopes
    → validate (new_row now new) ≡ ok (record_of now new)
unfolding validate convert new_row parse
validate-new_row now new sorted =
    rw (Mode.parse-as_str new.mode, parse_list-to_wire new.scopes sorted) refl

none_of_any :
    (rows : List CredentialRow) (q : ℕ)
    → any (λ other. other.id == q) rows ≡ false
    → row_of q rows ≡ none
none_of_any [] q h = refl
none_of_any (x ∷ rows) q h = ground (arith, none_of_any rows q)

-- A credential that was inserted is fetched back field by field, active and unrevoked; a refused
-- insertion changes nothing, and an insertion never replaces a row.
pub fetch-insert :
    (now : ℕ) (new : NewCredential) (rows : List CredentialRow)
    → IsSorted new.scopes
    → (((insert true now new rows).1 ≡ ok tt)
        × (row_of new.id rows ≡ none)
        × (fetch true (insert true now new rows).0 new.id ≡ ok (some (record_of now new)))
        × ((q : ℕ) → new.id ≢ q → fetch true (insert true now new rows).0 q ≡ fetch true rows q))
      ⊎ (insert true now new rows ≡ (rows, err backend))
unfolding insert fetch
fetch-insert now new rows sorted =
    let row = new_row now new in
    elim (Bool-cases (row_allowed rows row)) [
      | inr refused ↦ inr (if_false _ _ refused)
      | inl allowed ↦ rw allowed (
          inl (
            refl,
            none_of_any rows new.id (ground arith),
            ap transpose_validate (if_true _ _ (==_refl new.id))
                ∙ rw (validate-new_row now new sorted) refl,
            λ q ne.
                let apart : (new.id == q) ≡ false = ground arith in
                ap transpose_validate (if_false _ _ apart),
          ))
    ]

abbrev counted : ℕ → CredentialRow → Bool
counted now row = text_eq row.status (codes "active") && before_expiry now row.expires_at

count_pos :
    (now : ℕ) (rows : List CredentialRow) (q : ℕ) (row : CredentialRow)
    → row_of q rows ≡ some row
    → counted now row ≡ true
    → 0 < length (filter (counted now) rows)
count_pos now [] q row h k = absurd (cc)
count_pos now (x ∷ rows) q row h k = elim (Bool-cases (counted now x)) [
  | inl yes_x ↦ rw yes_x (omega arith)
  | inr no_x ↦ rw no_x (elim (Bool-cases (x.id == q)) [
    | inl same ↦ let x_is : x ≡ row = ground arith in absurd (cc (ap (counted now) x_is))
    | inr other ↦ count_pos now rows q row (ground arith) k
  ])
]

-- A registry in which some credential could authenticate never counts as empty: the startup gate
-- refuses only where no fetched record is usable.
pub active_count-zero :
    (now : ℕ) (rows : List CredentialRow)
    → active_count true now rows ≡ ok 0
    → (id : ℕ) (r : CredentialRecord) → fetch true rows id ≡ ok (some r)
    → is_usable_at r now ≡ false
unfolding active_count
active_count-zero now rows h id r f = elim (Bool-cases (is_usable_at r now)) [
  | inr off ↦ off
  | inl on ↦
      let (row, here, reads) = fetch-some true rows id r f in
      let (is_on, unexpired) = usable_parts on in
      let status : row.status ≡ codes "active" = reads.status ∙ active_str r.status is_on in
      let tested : counted now row ≡ true =
        ap₂ (λ s e. text_eq s (codes "active") && before_expiry now e) status (sym reads.expires_at)
        ∙ unexpired in
      let some_count = count_pos now rows id row here tested in
      let zero_count : length (filter (counted now) rows) ≡ 0 = cc in absurd (omega arith)
]
  where
    usable_parts :
        is_usable_at r now ≡ true
        → (is_active r.status ≡ true) × (before_expiry now r.expires_at ≡ true)
    usable_parts on = unfold is_usable_at in (ground arith, ground arith)

    active_str : (s : CredentialStatus) → is_active s ≡ true → as_str s ≡ codes "active"
    active_str active h = unfold as_str in refl
    active_str revoked h = absurd (cc)
    active_str disabled h = absurd (cc)
