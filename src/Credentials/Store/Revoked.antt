-- ===== src/Credentials/Store/Revoked.antt =====
-- What a revocation in src/credentials/store.rs leaves: a row that is revoked, and stays so whatever
-- the registry does next.
use mathlib.Core.Path.{subst, ap₂}
use aeon_iq_temp.Common.{
  ℕ, Bool, true, false, not, ◌&&◌, ◌||◌, List, [], ◌∷◌, map, Option, none, some, codes, text_eq,
  text_eq_refl, text_eq_iff, any, ◌==◌, if◌then◌else◌, ok, Bool-cases, Option-cases, inl, inr, ◌≡◌,
  ◌≢◌, refl, sym, ap, ◌∙◌, arith, ==_iff, if_true, if_false,
}
use aeon_iq_temp.Credentials.Store.Rows.{fetch-some}
use aeon_iq_temp.Credentials.Store.{
  CredentialStatus, active, revoked, disabled, as_str, CredentialRecord, CredentialRow,
  NewCredential, is_none, before_expiry, is_active, is_usable_at, transpose_validate, row_of, fetch,
  row_allowed, new_row, insert, to_revoke, revoke_rows, revoke, touch_rows,
}

abbrev pub on_row : (CredentialRow → CredentialRow) → Option CredentialRow → Option CredentialRow
on_row f none = none
on_row f (some row) = some (f row)

-- An update that keeps the id acts on the row that a lookup finds.
pub row_of-map :
    (f : CredentialRow → CredentialRow) (rows : List CredentialRow) (q : ℕ)
    → ((row : CredentialRow) → (f row).id ≡ row.id)
    → row_of q (map f rows) ≡ on_row f (row_of q rows)
row_of-map f [] q keeps = refl
row_of-map f (row ∷ rows) q keeps =
    let rest = row_of-map f rows q keeps in
    elim (Bool-cases (row.id == q)) [
      | inl same ↦
          if_true _ _ (ap (λ n. n == q) (keeps row) ∙ same)
          ∙ ap (on_row f) (sym (if_true (some row) (row_of q rows) same))
      | inr other ↦
          if_false _ _ (ap (λ n. n == q) (keeps row) ∙ other)
          ∙ rest
          ∙ ap (on_row f) (sym (if_false (some row) (row_of q rows) other))
    ]

abbrev pub mark_revoked : ℕ → ℕ → CredentialRow → CredentialRow
mark_revoked id at row =
    if to_revoke id row then record row { status = codes "revoked"; revoked_at = some at } else row

pub mark_revoked-id : (id at : ℕ) (row : CredentialRow) → (mark_revoked id at row).id ≡ row.id
mark_revoked-id id at row = ground arith

pub row_of-revoke_rows :
    (id at : ℕ) (rows : List CredentialRow) (q : ℕ)
    → row_of q (revoke_rows id at rows) ≡ on_row (mark_revoked id at) (row_of q rows)
unfolding revoke_rows
row_of-revoke_rows id at rows q = row_of-map (mark_revoked id at) rows q (mark_revoked-id id at)

abbrev pub mark_used : ℕ → ℕ → CredentialRow → CredentialRow
mark_used id at row = if row.id == id then record row { last_used_at = some at } else row

pub row_of-touch_rows :
    (id at : ℕ) (rows : List CredentialRow) (q : ℕ)
    → row_of q (touch_rows id at rows) ≡ on_row (mark_used id at) (row_of q rows)
unfolding touch_rows
row_of-touch_rows id at rows q = row_of-map (mark_used id at) rows q (λ row. ground arith)

pub row_of-id :
    (rows : List CredentialRow) (q : ℕ) (row : CredentialRow)
    → row_of q rows ≡ some row
    → row.id ≡ q
row_of-id [] q row h = absurd (cc)
row_of-id (x ∷ rows) q row h = elim (Bool-cases (x.id == q)) [
  | inl same ↦
      let x_is : x ≡ row = ground arith in subst (λ y. y.id ≡ q) x_is ((==_iff x.id q).0 same)
  | inr other ↦ row_of-id rows q row (ground arith)
]

-- The row of an id bears the status `revoked`.
abbrev pub IsRevoked : ℕ → List CredentialRow → Type 0
IsRevoked id rows =
    (row : CredentialRow) × (row_of id rows ≡ some row) × (row.status ≡ codes "revoked")

-- A revoked row never gives a usable record.
pub IsRevoked-unusable :
    (reachable : Bool) (rows : List CredentialRow) (id now : ℕ) (r : CredentialRecord)
    → IsRevoked id rows
    → fetch reachable rows id ≡ ok (some r)
    → is_usable_at r now ≡ false
unfolding is_usable_at
IsRevoked-unusable reachable rows id now r (row, here, gone) h =
    let (row', here', reads) = fetch-some reachable rows id r h in
    let same : row' ≡ row = ground arith in
    let status : codes "revoked" ≡ as_str r.status =
      sym gone ∙ sym (ap (λ x. x.status) same) ∙ reads.status in
    not_active r.status status
  where
    not_active :
        (s : CredentialStatus)
        → codes "revoked" ≡ as_str s
        → (is_active s && is_none r.revoked_at && before_expiry now r.expires_at) ≡ false
    not_active active e = absurd (unfold as_str in cc)
    not_active revoked e = refl
    not_active disabled e = refl

-- Nothing that the registry does takes the status back.
pub revoke_rows-IsRevoked :
    (id at q : ℕ) (rows : List CredentialRow)
    → IsRevoked q rows
    → IsRevoked q (revoke_rows id at rows)
revoke_rows-IsRevoked id at q rows (row, here, gone) = (
  mark_revoked id at row,
  row_of-revoke_rows id at rows q ∙ ap (on_row (mark_revoked id at)) here,
  ground arith,
)

pub touch_rows-IsRevoked :
    (id at q : ℕ) (rows : List CredentialRow)
    → IsRevoked q rows
    → IsRevoked q (touch_rows id at rows)
touch_rows-IsRevoked id at q rows (row, here, gone) = (
  mark_used id at row,
  row_of-touch_rows id at rows q ∙ ap (on_row (mark_used id at)) here,
  ground arith,
)

pub row_of-any :
    (rows : List CredentialRow) (q : ℕ) (row : CredentialRow)
    → row_of q rows ≡ some row
    → any (λ other. other.id == q) rows ≡ true
row_of-any [] q row h = absurd (cc)
row_of-any (x ∷ rows) q row h = ground (arith, row_of-any rows q row)

pub insert-IsRevoked :
    (reachable : Bool) (now : ℕ) (new : NewCredential) (q : ℕ) (rows : List CredentialRow)
    → IsRevoked q rows
    → IsRevoked q (insert reachable now new rows).0
unfolding insert
insert-IsRevoked reachable now new q rows (row, here, gone) =
    elim (Bool-cases (reachable && row_allowed rows (new_row now new))) [
      | inr refused ↦ rw refused (row, here, gone)
      | inl allowed ↦ rw allowed (elim (Bool-cases (new.id == q)) [
        | inr other ↦ (row, if_false _ _ other ∙ here, gone)
        | inl same ↦
            let key = (==_iff new.id q).0 same in
            let taken : any (λ other. other.id == new.id) rows ≡ true =
              rw key (row_of-any rows q row here) in
            absurd (ground arith)
      ])
    ]

not_to_revoke : (id at : ℕ) (row : CredentialRow) → to_revoke id (mark_revoked id at row) ≡ false
not_to_revoke id at row = ground (arith, text_eq_refl (codes "revoked"))

revoke_rows_unchanged :
    (id at : ℕ) (rows : List CredentialRow)
    → any (to_revoke id) rows ≡ false
    → revoke_rows id at rows ≡ rows
unfolding revoke_rows
revoke_rows_unchanged id at [] h = refl
revoke_rows_unchanged id at (row ∷ rows) h =
    let first : to_revoke id row ≡ false = ground arith in
    ap₂ (◌∷◌) (if_false _ _ first) (revoke_rows_unchanged id at rows (ground arith))

none_to_revoke :
    (id at : ℕ) (rows : List CredentialRow) → any (to_revoke id) (revoke_rows id at rows) ≡ false
unfolding revoke_rows
none_to_revoke id at [] = refl
none_to_revoke id at (row ∷ rows) = ap₂ (◌||◌) (not_to_revoke id at row) (none_to_revoke id at rows)

mark_revoked-status :
    (id at : ℕ) (row : CredentialRow)
    → row.id ≡ id
    → (mark_revoked id at row).status ≡ codes "revoked"
mark_revoked-status id at row e = ground (arith, text_eq_iff row.status (codes "revoked"))

-- The row of a revoked id, if there is one, is revoked.
pub revoke_rows-IsRevoked' :
    (id at : ℕ) (rows : List CredentialRow) (row : CredentialRow)
    → row_of id rows ≡ some row
    → IsRevoked id (revoke_rows id at rows)
revoke_rows-IsRevoked' id at rows row hit = (
  mark_revoked id at row,
  row_of-revoke_rows id at rows id ∙ ap (on_row (mark_revoked id at)) hit,
  mark_revoked-status id at row (row_of-id rows id row hit),
)

revoked_unusable :
    (id at now : ℕ) (rows : List CredentialRow) (r : CredentialRecord)
    → fetch true (revoke_rows id at rows) id ≡ ok (some r)
    → is_usable_at r now ≡ false
revoked_unusable id at now rows r h = elim (Option-cases (row_of id rows)) [
  | inl miss ↦
      let (row', here', reads) = fetch-some true (revoke_rows id at rows) id r h in
      let none_there = row_of-revoke_rows id at rows id ∙ ap (on_row (mark_revoked id at)) miss in
      absurd (cc)
  | inr (row, hit) ↦
      IsRevoked-unusable true (revoke_rows id at rows) id now r
        (revoke_rows-IsRevoked' id at rows row hit) h
]

mark_revoked_other :
    (id at q : ℕ) (o : Option CredentialRow)
    → id ≢ q
    → ((row : CredentialRow) → o ≡ some row → row.id ≡ q)
    → on_row (mark_revoked id at) o ≡ o
mark_revoked_other id at q none ne h = refl
mark_revoked_other id at q (some row) ne h =
    let key = h row refl in
    let apart : (row.id == id) ≡ false = ground arith in
    let kept : to_revoke id row ≡ false =
      ap (λ b. b && not (text_eq row.status (codes "revoked"))) apart in
    ap some (if_false _ _ kept)

revoke_others :
    (id at q : ℕ) (rows : List CredentialRow)
    → id ≢ q
    → fetch true (revoke_rows id at rows) q ≡ fetch true rows q
unfolding fetch
revoke_others id at q rows ne = ap transpose_validate (
    row_of-revoke_rows id at rows q
    ∙ mark_revoked_other id at q (row_of q rows) ne (row_of-id rows q))

-- A revocation that reaches the database leaves the credential unusable at every instant, whatever
-- its expiry, and every other credential as it was. Reporting no change, it made none; and a
-- second one changes nothing and says so.
pub revoke_lem :
    (id at : ℕ) (rows : List CredentialRow)
    → let rows' = (revoke true id at rows).0 in
      ((now : ℕ) (r : CredentialRecord)
        → fetch true rows' id ≡ ok (some r)
        → is_usable_at r now ≡ false)
      × ((q : ℕ) → id ≢ q → fetch true rows' q ≡ fetch true rows q)
      × ((revoke true id at rows).1 ≡ ok false → rows' ≡ rows)
      × ((at' : ℕ) → revoke true id at' rows' ≡ (rows', ok false))
unfolding revoke
revoke_lem id at rows = (
  λ now r. revoked_unusable id at now rows r,
  λ q. revoke_others id at q rows,
  λ h. revoke_rows_unchanged id at rows (cc),
  λ at'.
      let rows' = revoke_rows id at rows in
      rw
        (revoke_rows_unchanged id at' rows' (none_to_revoke id at rows), none_to_revoke id at rows),
)
