-- ===== src/Credentials/Auth/Parity.antt =====
-- What a wrong secret costs in src/credentials/mod.rs: the same work and the same answer, whether
-- the id is unknown, known, or warm in the cache.
use aeon_iq_temp.Common.{
  ℕ, ◌+◌, ◌%◌, ◌^◌, false, List, Option, none, some, Result, ok, Bool-cases, inl, inr, ◌≡◌, ◌⊎◌,
  refl, ap, ◌∙◌, if_false,
}
use aeon_iq_temp.Common.Assoc
use aeon_iq_temp.Credentials.Cache
use aeon_iq_temp.Credentials.Cache.{BoundedTtlCache, CacheError, Entry, get_entry, is_live_at}
use aeon_iq_temp.Credentials.Cache.Laws.{get_open}
use aeon_iq_temp.Credentials.Secret
use aeon_iq_temp.Credentials.Secret.{Crypto, PresentedCredential, FormatError}
use aeon_iq_temp.Credentials.Store
use aeon_iq_temp.Credentials.Store.{CredentialRecord}
use aeon_iq_temp.Credentials.Auth.{
  unknown_credential, bad_secret, Authentication, Authenticator, Visit, decoy, reject, load,
  load_cached, load_fetched, admit, after_load, authenticate_parsed, authenticate_result,
  authenticate,
}
use aeon_iq_temp.Credentials.Auth.Sound.{IsHeld}

-- The outcome of a probe: one decoy MAC, and a refusal for want of the credential or its secret.
pub record IsProbe (at id : ℕ) (a : Authenticator) (got : Authenticator × Authentication)
    : Type 0 where
  pub one_decoy : got.0.dummy_macs ≡ (a.dummy_macs + 1) % 2 ^ 64
  pub rows : got.0.rows ≡ a.rows
  pub refused :
      (got.1 ≡ reject at (some id) unknown_credential) ⊎ (got.1 ≡ reject at (some id) bad_secret)

fetched-IsProbe :
    (id : ℕ) (mac : List ℕ) (v : Visit) (a : Authenticator) (found : Option CredentialRecord)
    → ((r : CredentialRecord) → found ≡ some r → Secret.mac_matches mac r.secret_mac ≡ false)
    → IsProbe v.at id a (after_load id mac v (load_fetched a (ok found)))
unfolding after_load load_fetched decoy
fetched-IsProbe id mac v a none differs = record {
  one_decoy = refl;
  rows = refl;
  refused = inl refl;
}
fetched-IsProbe id mac v a (some r) differs =
    let apart = differs r refl in
    let got = if_false _ _ apart in
    record {
      one_decoy = ap (λ (x : Authenticator × Authentication). x.0.dummy_macs) (unfold admit in got);
      rows = ap (λ (x : Authenticator × Authentication). x.0.rows) (unfold admit in got);
      refused = inr (ap (λ (x : Authenticator × Authentication). x.1) (unfold admit in got));
    }

cached-IsProbe :
    (id : ℕ) (mac : List ℕ) (v : Visit) (a : Authenticator) (got : Option CredentialRecord)
    (found : Option CredentialRecord)
    → ((r : CredentialRecord) → got ≡ some r → Secret.mac_matches mac r.secret_mac ≡ false)
    → ((r : CredentialRecord) → found ≡ some r → Secret.mac_matches mac r.secret_mac ≡ false)
    → Store.fetch v.fetch_ok a.rows id ≡ ok found
    → IsProbe v.at id a (after_load id mac v (load_cached id mac v a (ok got)))
unfolding load_cached
cached-IsProbe id mac v a none found d d' f = rw f (fetched-IsProbe id mac v a found d')
cached-IsProbe id mac v a (some r) found d d' f =
    rw (d r refl, f) (fetched-IsProbe id mac v a found d')

entry_answers :
    (id : ℕ) (v : Visit) (c : BoundedTtlCache CredentialRecord)
    (hit : Option (Entry CredentialRecord))
    → (got : Option CredentialRecord) × ((get_entry id v.looked c hit).1 ≡ ok got)
unfolding get_entry
entry_answers id v c none = (none, refl)
entry_answers id v c (some e) = elim (Bool-cases (is_live_at e v.looked)) [
  | inl live ↦ (some e.value, rw live refl)
  | inr dead ↦ (none, rw dead refl)
]

get_answers :
    (id : ℕ) (v : Visit) (a : Authenticator)
    → a.cache.poisoned ≡ false
    → (got : Option CredentialRecord) × ((Cache.get id v.looked a.cache).1 ≡ ok got)
get_answers id v a p =
    let (got, answers) = entry_answers id v a.cache (Assoc.lookup id a.cache.entries) in
    (
      got,
      ap
            (λ (x : BoundedTtlCache CredentialRecord × Result CacheError (Option CredentialRecord)).
              x.1)
            (get_open id v.looked a.cache p)
          ∙ answers,
    )

-- The answer to a presented secret that is not the one of any record held under its id, when the
-- cache lock is not poisoned and the database answers: an unknown id, a wrong secret, and a wrong
-- secret for a credential that a legitimate request has just warmed all cost one decoy MAC, change
-- no row, and are refused as an unknown credential or a bad secret.
pub wrong_secret_parity :
    (crypto : Crypto) (presented : List ℕ) (p : PresentedCredential) (v : Visit) (a : Authenticator)
    (found : Option CredentialRecord)
    → Secret.parse_presented crypto presented ≡ ok p
    → a.cache.poisoned ≡ false
    → Store.fetch v.fetch_ok a.rows p.credential_id ≡ ok found
    → ((r : CredentialRecord)
        → IsHeld crypto p v a r
        → Secret.mac_matches (Secret.presented_mac crypto a.pepper p) r.secret_mac ≡ false)
    → IsProbe v.at p.credential_id a (authenticate crypto presented v a)
unfolding authenticate authenticate_result authenticate_parsed load
wrong_secret_parity crypto presented p v a found parsed open_lock fetched differs =
    let (got, answers) = get_answers p.credential_id v a open_lock in
    let a' : Authenticator = record a { cache = (Cache.get p.credential_id v.looked a.cache).0 } in
    let mac = Secret.presented_mac crypto a.pepper p in
    let probe =
      cached-IsProbe p.credential_id mac v a' got found
        (λ r is. differs r (inl (answers ∙ ap ok is)))
        (λ r is. differs r (inr (fetched ∙ ap ok is))) fetched in
    rw (parsed, answers)
      (record { one_decoy = probe.one_decoy; rows = probe.rows; refused = probe.refused })
