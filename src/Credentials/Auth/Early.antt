-- ===== src/Credentials/Auth/Early.antt =====
-- How long an entry of the cache of src/credentials/mod.rs can live after its credential was last
-- stored.
use mathlib.Core.Path.{subst}
use aeon_iq_temp.Common.Assoc.{lookup}
use aeon_iq_temp.Common.{
  ℕ, ◌+◌, ◌≤◌, Bool, List, some, Result, ok, err, inl, inr, ◌≡◌, ◌⊎◌, refl, sym, ap, ◌∙◌, arith,
}
use aeon_iq_temp.Credentials.Cache.{BoundedTtlCache, Entry, max_ttl, new_entry}
use aeon_iq_temp.Credentials.Cache.Laws.{IsValid, get-IsValid, insert-IsValid, invalidate-IsValid}
use aeon_iq_temp.Credentials.Cache.Entries.{get-entries, insert-entries, invalidate-entries}
use aeon_iq_temp.Credentials.Secret
use aeon_iq_temp.Credentials.Secret.{Crypto, PresentedCredential, FormatError}
use aeon_iq_temp.Credentials.Store
use aeon_iq_temp.Credentials.Store.{CredentialRecord, CredentialRow}
use aeon_iq_temp.Credentials.Store.Revoked.{IsRevoked, IsRevoked-unusable}
use aeon_iq_temp.Credentials.Auth
use aeon_iq_temp.Credentials.Auth.{
  Authenticator, Visit, IssueSpec, Minting, Loaded, load, authenticate_parsed, authenticate_result,
  issue_stored, revoke_stored,
}
use aeon_iq_temp.Credentials.Auth.Steps.{load-some, load-Kept, stored, after_load-state}
use aeon_iq_temp.Credentials.Auth.Calls.{
  Call, authenticate, revoke, issue, revoke_elsewhere, step, writes_at,
}

-- No entry of the id outlives the TTL counted from the tick `t`.
pub record IsEarly (t id : ℕ) (a : Authenticator) : Type 0 where
  pub valid : IsValid a.cache
  pub entries :
      (e : Entry CredentialRecord)
      → lookup id a.cache.entries ≡ some e
      → e.expires_tick ≤ t + max_ttl

module _ (t id : ℕ) where
  load-IsEarly :
      (q : ℕ) (mac : List ℕ) (v : Visit) (a : Authenticator)
      → IsEarly t id a
      → IsEarly t id (load q mac v a).0
  load-IsEarly q mac v a h =
      let k = load-Kept q mac v a in
      record {
        valid = subst IsValid (sym k.cache) (get-IsValid q v.looked a.cache h.valid);
        entries = λ e found. h.entries e (
            get-entries q v.looked a.cache id e (
              subst (λ (c : BoundedTtlCache CredentialRecord). lookup id c.entries ≡ some e) k.cache
                found));
      }

  stored-IsEarly :
      (q : ℕ) (r : CredentialRecord) (v : Visit) (a : Authenticator)
      → IsEarly t id a
      → (q ≡ id → v.stored.tick ≤ t)
      → IsEarly t id (stored q r v a)
  stored-IsEarly q r v a h early = record {
    valid = insert-IsValid q r (Store.cache_bound r) v.stored a.cache h.valid;
    entries = λ e found.
        elim (insert-entries q r (Store.cache_bound r) v.stored a.cache id e h.valid.distinct
          found) [
            | inl old ↦ h.entries e old
            | inr (same, e_is) ↦
                let tick : e.expires_tick ≡ v.stored.tick + a.cache.ttl =
                  ap (λ (x : Entry CredentialRecord). x.expires_tick) e_is
                  ∙ unfold new_entry in refl in
                let now = early same in let frozen = h.valid.frozen in omega arith
          ];
  }

  parsed-IsEarly :
      (crypto : Crypto) (p : PresentedCredential) (v : Visit) (a : Authenticator)
      → (v.stored.tick ≤ t) ⊎ IsRevoked id a.rows
      → IsEarly t id a
      → IsEarly t id (authenticate_parsed crypto p v a).0
  unfolding authenticate_parsed
  parsed-IsEarly crypto p v a why h =
      let q = p.credential_id in
      let mac = Secret.presented_mac crypto a.pepper p in
      let after = load-IsEarly q mac v a h in
      elim (after_load-state q mac v (load q mac v a)) [
        | inl same ↦ subst (IsEarly t id) (sym same) after
        | inr (l, loaded, read, usable, put) ↦ subst (IsEarly t id) (sym put) (
            stored-IsEarly q l.record_ v (load q mac v a).0 after (λ same. elim why [
              | inl early ↦ early
              | inr gone ↦ absurd (elim (load-some q mac v a l loaded) [
                | inl (cached, got, m) ↦ absurd (cc)
                | inr (from, fetched) ↦
                    let off = IsRevoked-unusable v.fetch_ok a.rows id v.at l.record_ gone (
                      subst (λ k. Store.fetch v.fetch_ok a.rows k ≡ ok (some l.record_)) same
                        fetched) in
                    absurd (cc)
              ])
            ]))
      ]

  result-IsEarly :
      (crypto : Crypto) (parsed : Result FormatError PresentedCredential) (v : Visit)
      (a : Authenticator)
      → (v.stored.tick ≤ t) ⊎ IsRevoked id a.rows
      → IsEarly t id a
      → IsEarly t id (authenticate_result crypto parsed v a).0
  unfolding authenticate_result
  result-IsEarly crypto (err e) v a why h = h
  result-IsEarly crypto (ok p) v a why h = parsed-IsEarly crypto p v a why h

  revoke_stored-IsEarly :
      (q : ℕ) (a : Authenticator) (got : List CredentialRow × Result Store.StoreError Bool)
      → IsEarly t id a
      → IsEarly t id (revoke_stored q a got).0
  unfolding revoke_stored
  revoke_stored-IsEarly q a (rows', err e) h = record { valid = h.valid; entries = h.entries }
  revoke_stored-IsEarly q a (rows', ok changed) h = record {
    valid = invalidate-IsValid q a.cache h.valid;
    entries = λ e found. h.entries e (invalidate-entries q a.cache id e found);
  }

  issue_stored-IsEarly :
      (issued : Secret.IssuedCredential) (a : Authenticator)
      (got : List CredentialRow × Result Store.StoreError (Unit {0}))
      → IsEarly t id a
      → IsEarly t id (issue_stored issued a got).0
  unfolding issue_stored
  issue_stored-IsEarly issued a (rows', err e) h = record { valid = h.valid; entries = h.entries }
  issue_stored-IsEarly issued a (rows', ok u) h = record { valid = h.valid; entries = h.entries }

  pub step-IsEarly :
      (crypto : Crypto) (c : Call) (a : Authenticator)
      → (writes_at c ≤ t) ⊎ IsRevoked id a.rows
      → IsEarly t id a
      → IsEarly t id (step crypto c a)
  unfolding step Auth.authenticate Auth.revoke Auth.issue
  step-IsEarly crypto (authenticate presented v) a why h =
      result-IsEarly crypto (Secret.parse_presented crypto presented) v a why h
  step-IsEarly crypto (revoke reachable q at) a why h =
      revoke_stored-IsEarly q a (Store.revoke reachable q at a.rows) h
  step-IsEarly crypto (issue spec m) a why h =
      issue_stored-IsEarly (Secret.issue crypto a.pepper m.fresh_id m.random) a
        (Store.insert m.reachable m.now
          (Auth.new_credential (Secret.issue crypto a.pepper m.fresh_id m.random) spec) a.rows)
        h
  step-IsEarly crypto (revoke_elsewhere q at) a why h = record {
    valid = h.valid;
    entries = h.entries;
  }
