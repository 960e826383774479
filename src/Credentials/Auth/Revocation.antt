-- ===== src/Credentials/Auth/Revocation.antt =====
-- The bound on revocation of src/credentials/mod.rs: whatever is called in between, a revoked
-- credential stops authenticating within the cache's TTL.
use mathlib.Core.Path.{subst}
use aeon_iq_temp.Common.Assoc.{lookup}
use aeon_iq_temp.Common.{
  ℕ, ◌+◌, ◌≤◌, ◌<◌, Bool, true, false, List, [], ◌∷◌, All, some, Result, ok, err, inl, inr, ◌≡◌,
  ◌≢◌, refl, sym, ap, ◌∙◌, arith,
}
use aeon_iq_temp.Credentials.Cache
use aeon_iq_temp.Credentials.Cache.{
  BoundedTtlCache, CacheError, Entry, is_live_at, max_ttl, new_entry,
}
use aeon_iq_temp.Credentials.Cache.Laws.{new-IsValid}
use aeon_iq_temp.Credentials.Cache.Entries.{get-some}
use aeon_iq_temp.Credentials.Context.{AeonAuthContext}
use aeon_iq_temp.Credentials.Secret
use aeon_iq_temp.Credentials.Secret.{Crypto, PresentedCredential, FormatError}
use aeon_iq_temp.Credentials.Store
use aeon_iq_temp.Credentials.Store.{CredentialRecord, CredentialRow}
use aeon_iq_temp.Credentials.Store.Revoked.{
  IsRevoked, IsRevoked-unusable, revoke_rows-IsRevoked, touch_rows-IsRevoked, insert-IsRevoked,
}
use aeon_iq_temp.Credentials.Auth
use aeon_iq_temp.Credentials.Auth.{
  Authenticator, Visit, IssueSpec, Minting, Loaded, load, authenticate_parsed, authenticate_result,
  issue_stored, revoke_stored,
}
use aeon_iq_temp.Credentials.Auth.Steps.{load-Kept, after_load-state}
use aeon_iq_temp.Credentials.Auth.Sound.{authenticate_sound}
use aeon_iq_temp.Credentials.Auth.Calls.{
  Call, authenticate, revoke, issue, revoke_elsewhere, step, run, writes_at,
}
use aeon_iq_temp.Credentials.Auth.Early.{IsEarly, step-IsEarly}

-- A revocation is for ever, whatever is called.
module _ (id : ℕ) where
  touched :
      (reachable : Bool) (q at : ℕ) (rows : List CredentialRow)
      → IsRevoked id rows
      → IsRevoked id (Store.touch_last_used reachable q at rows).0
  unfolding Store.touch_last_used
  touched true q at rows h = touch_rows-IsRevoked q at id rows h
  touched false q at rows h = h

  parsed-IsRevoked :
      (crypto : Crypto) (p : PresentedCredential) (v : Visit) (a : Authenticator)
      → IsRevoked id a.rows
      → IsRevoked id (authenticate_parsed crypto p v a).0.rows
  unfolding authenticate_parsed
  parsed-IsRevoked crypto p v a h =
      let q = p.credential_id in
      let mac = Secret.presented_mac crypto a.pepper p in
      let k = load-Kept q mac v a in
      let after : IsRevoked id (load q mac v a).0.rows = subst (IsRevoked id) (sym k.rows) h in
      elim (after_load-state q mac v (load q mac v a)) [
        | inl same ↦ subst (λ (x : Authenticator). IsRevoked id x.rows) (sym same) after
        | inr (l, loaded, read, usable, put) ↦
            subst (λ (x : Authenticator). IsRevoked id x.rows) (sym put)
              (touched v.touch_ok q v.at (load q mac v a).0.rows after)
      ]

  result-IsRevoked :
      (crypto : Crypto) (parsed : Result FormatError PresentedCredential) (v : Visit)
      (a : Authenticator)
      → IsRevoked id a.rows
      → IsRevoked id (authenticate_result crypto parsed v a).0.rows
  unfolding authenticate_result
  result-IsRevoked crypto (err e) v a h = h
  result-IsRevoked crypto (ok p) v a h = parsed-IsRevoked crypto p v a h

  revoke_stored-rows :
      (q : ℕ) (a : Authenticator) (got : List CredentialRow × Result Store.StoreError Bool)
      → (revoke_stored q a got).0.rows ≡ got.0
  unfolding revoke_stored
  revoke_stored-rows q a (rows', err e) = refl
  revoke_stored-rows q a (rows', ok changed) = refl

  issue_stored-rows :
      (issued : Secret.IssuedCredential) (a : Authenticator)
      (got : List CredentialRow × Result Store.StoreError (Unit {0}))
      → (issue_stored issued a got).0.rows ≡ got.0
  unfolding issue_stored
  issue_stored-rows issued a (rows', err e) = refl
  issue_stored-rows issued a (rows', ok u) = refl

  revoke-IsRevoked :
      (reachable : Bool) (q at : ℕ) (rows : List CredentialRow)
      → IsRevoked id rows
      → IsRevoked id (Store.revoke reachable q at rows).0
  unfolding Store.revoke
  revoke-IsRevoked true q at rows h = revoke_rows-IsRevoked q at id rows h
  revoke-IsRevoked false q at rows h = h

  pub step-IsRevoked :
      (crypto : Crypto) (c : Call) (a : Authenticator)
      → IsRevoked id a.rows
      → IsRevoked id (step crypto c a).rows
  unfolding step Auth.authenticate Auth.revoke Auth.issue
  step-IsRevoked crypto (authenticate presented v) a h =
      result-IsRevoked crypto (Secret.parse_presented crypto presented) v a h
  step-IsRevoked crypto (revoke reachable q at) a h =
      subst (IsRevoked id) (sym (revoke_stored-rows q a (Store.revoke reachable q at a.rows)))
        (revoke-IsRevoked reachable q at a.rows h)
  step-IsRevoked crypto (issue spec m) a h =
      subst (IsRevoked id)
        (sym (
          issue_stored-rows (Secret.issue crypto a.pepper m.fresh_id m.random) a (
            Store.insert m.reachable m.now
              (Auth.new_credential (Secret.issue crypto a.pepper m.fresh_id m.random) spec)
              a.rows)))
        (insert-IsRevoked m.reachable m.now
          (Auth.new_credential (Secret.issue crypto a.pepper m.fresh_id m.random) spec) id a.rows h)
  step-IsRevoked crypto (revoke_elsewhere q at) a h = revoke_rows-IsRevoked q at id a.rows h

module _ (crypto : Crypto) (t id : ℕ) where
  run-IsEarly :
      (calls : List Call) (a : Authenticator)
      → All (λ c. writes_at c ≤ t) calls
      → IsEarly t id a
      → IsEarly t id (run crypto calls a)
  unfolding run
  run-IsEarly [] a early h = h
  run-IsEarly (c ∷ calls) a early h =
      step-IsEarly t id crypto c (run crypto calls a) (inl early.0) (run-IsEarly calls a early.1 h)

  run-after :
      (calls : List Call) (a : Authenticator)
      → IsRevoked id a.rows
      → IsEarly t id a
      → IsEarly t id (run crypto calls a) × IsRevoked id (run crypto calls a).rows
  unfolding run
  run-after [] a gone h = (h, gone)
  run-after (c ∷ calls) a gone h =
      let (early, still) = run-after calls a gone h in
      (
        step-IsEarly t id crypto c (run crypto calls a) (inr still) early,
        step-IsRevoked id crypto c (run crypto calls a) still,
      )

new-IsEarly :
    (t id : ℕ) (rows : List CredentialRow) (pepper : List ℕ) (capacity : ℕ)
    → IsEarly t id (Auth.new rows pepper capacity)
unfolding Auth.new
new-IsEarly t id rows pepper capacity = record {
  valid = new-IsValid capacity max_ttl;
  entries = λ e found. absurd (unfold Cache.new in cc);
}

-- The bound on revocation. Take any history of an authenticator in which every request had stored
-- its entry by the tick `t`, and after which the credential is revoked in the database, by
-- whatever means. Then whatever is called afterwards, a request that presents the credential and
-- looks into the cache 30 seconds after `t` or later is refused.
pub revoked_within_ttl :
    (crypto : Crypto) (rows : List CredentialRow) (pepper : List ℕ) (capacity : ℕ)
    (before after : List Call) (t id : ℕ) (presented : List ℕ) (p : PresentedCredential) (v : Visit)
    (c : AeonAuthContext)
    → All (λ call. writes_at call ≤ t) before
    → IsRevoked id (run crypto before (Auth.new rows pepper capacity)).rows
    → Secret.parse_presented crypto presented ≡ ok p
    → p.credential_id ≡ id
    → t + max_ttl ≤ v.looked.tick
    → (Auth.authenticate crypto presented v
        (run crypto after (run crypto before (Auth.new rows pepper capacity)))).1.result
      ≢ ok c
revoked_within_ttl crypto rows pepper capacity before after t id presented p v c early gone parsed
      same late h =
    let a0 = run crypto before (Auth.new rows pepper capacity) in
    let a = run crypto after a0 in
    let (bounded, still) = run-after crypto t id after a0 gone (
      run-IsEarly crypto t id before (Auth.new rows pepper capacity) early
        (new-IsEarly t id rows pepper capacity)) in
    let (p', r, parsed', held, match, usable, context) =
      authenticate_sound crypto presented v a c h in
    let p_is : p' ≡ p = ground arith in
    let key : p'.credential_id ≡ id =
      ap (λ (x : PresentedCredential). x.credential_id) p_is ∙ same in
    elim held [
      | inl got ↦
          let (e, found, live, value) = get-some p'.credential_id v.looked a.cache r got in
          let ends = bounded.entries e (subst (λ k. lookup k a.cache.entries ≡ some e) key found) in
          let alive : v.looked.tick < e.expires_tick = unfold is_live_at in ground arith in
          omega arith
      | inr fetched ↦
          let off =
            IsRevoked-unusable v.fetch_ok a.rows id v.at r still
              (subst (λ k. Store.fetch v.fetch_ok a.rows k ≡ ok (some r)) key fetched) in
          absurd (cc)
    ]
