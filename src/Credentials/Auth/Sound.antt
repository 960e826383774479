-- ===== src/Credentials/Auth/Sound.antt =====
-- Whom `authenticate` of src/credentials/mod.rs lets in, what a rejection may have written, and
-- what the audit record says.
use mathlib.Core.Path.{subst}
use aeon_iq_temp.Common.Assoc.{lookup}
use aeon_iq_temp.Common.{ℕ, true, List, some, Result, ok, err, inl, inr, ◌≡◌, ◌⊎◌, refl, sym}
use aeon_iq_temp.Credentials.Cache
use aeon_iq_temp.Credentials.Cache.{BoundedTtlCache, CacheError, Entry}
use aeon_iq_temp.Credentials.Cache.Entries.{get-entries}
use aeon_iq_temp.Credentials.Context.{AeonAuthContext}
use aeon_iq_temp.Credentials.Secret
use aeon_iq_temp.Credentials.Secret.{Crypto, PresentedCredential, FormatError}
use aeon_iq_temp.Credentials.Store
use aeon_iq_temp.Credentials.Store.{CredentialRecord}
use aeon_iq_temp.Credentials.Auth.{
  AuthError, Authenticator, Visit, reject, load, context_of, authenticate_parsed,
  authenticate_result, authenticate,
}
use aeon_iq_temp.Credentials.Auth.Steps.{
  load-some, load-Kept, admit-ok, after_load-ok, after_load-err,
}

module _ (crypto : Crypto) where
  -- The record behind a presented credential: a live cached entry of its id, or the row of its id.
  abbrev pub IsHeld : PresentedCredential → Visit → Authenticator → CredentialRecord → Type 0
  IsHeld p v a r =
      ((Cache.get p.credential_id v.looked a.cache).1 ≡ ok (some r))
      ⊎ (Store.fetch v.fetch_ok a.rows p.credential_id ≡ ok (some r))

  parsed_sound :
      (p : PresentedCredential) (v : Visit) (a : Authenticator) (c : AeonAuthContext)
      → (authenticate_parsed crypto p v a).1.result ≡ ok c
      → (r : CredentialRecord) × IsHeld p v a r
        × (Secret.mac_matches (Secret.presented_mac crypto a.pepper p) r.secret_mac ≡ true)
        × (Store.is_usable_at r v.at ≡ true)
        × (context_of r ≡ c)
  unfolding authenticate_parsed
  parsed_sound p v a c h =
      let mac = Secret.presented_mac crypto a.pepper p in
      let (l, loaded, admitted) =
        after_load-ok p.credential_id mac v (load p.credential_id mac v a) c h in
      let (match, usable, context) = admit-ok p.credential_id mac v _ l c admitted in
      (
        l.record_,
        elim (load-some p.credential_id mac v a l loaded) [
          | inl (from, got, corroborated) ↦ inl got
          | inr (from, got) ↦ inr got
        ],
        match,
        usable,
        context,
      )

  result_sound :
      (parsed : Result FormatError PresentedCredential) (v : Visit) (a : Authenticator)
      (c : AeonAuthContext)
      → (authenticate_result crypto parsed v a).1.result ≡ ok c
      → (p : PresentedCredential) × (parsed ≡ ok p)
        × ((authenticate_parsed crypto p v a).1.result ≡ ok c)
  unfolding authenticate_result
  result_sound (err e) v a c h = absurd (unfold reject in cc)
  result_sound (ok p) v a c h = (p, refl, h)

  -- A caller is authenticated only by a well-formed credential whose MAC under the pepper is that
  -- of the record held under its id, in the registry or live in the cache; and only while that
  -- record is active, unrevoked and unexpired. The context is then the record's: no tenant,
  -- principal, scope or mode comes from the request.
  pub authenticate_sound :
      (presented : List ℕ) (v : Visit) (a : Authenticator) (c : AeonAuthContext)
      → (authenticate crypto presented v a).1.result ≡ ok c
      → (p : PresentedCredential) × (r : CredentialRecord) × (Secret.parse_presented crypto
            presented
          ≡ ok p)
        × IsHeld p v a r
        × (Secret.mac_matches (Secret.presented_mac crypto a.pepper p) r.secret_mac ≡ true)
        × (Store.is_usable_at r v.at ≡ true)
        × (context_of r ≡ c)
  unfolding authenticate
  authenticate_sound presented v a c h =
      let (p, parsed, accepted) = result_sound (Secret.parse_presented crypto presented) v a c h in
      let (r, held, match, usable, context) = parsed_sound p v a c accepted in
      (p, r, parsed, held, match, usable, context)

  -- Nothing was written: the rows are the same, and the cache holds no entry that it did not hold.
  pub record WritesNothing (a a' : Authenticator) : Type 0 where
    pub rows : a'.rows ≡ a.rows
    pub entries :
        (q : ℕ) (e : Entry CredentialRecord)
        → lookup q a'.cache.entries ≡ some e
        → lookup q a.cache.entries ≡ some e

  parsed-WritesNothing :
      (p : PresentedCredential) (v : Visit) (a : Authenticator) (e : AuthError)
      → (authenticate_parsed crypto p v a).1.result ≡ err e
      → WritesNothing a (authenticate_parsed crypto p v a).0
  unfolding authenticate_parsed
  parsed-WritesNothing p v a e h =
      let mac = Secret.presented_mac crypto a.pepper p in
      let id = p.credential_id in
      let k = load-Kept id mac v a in
      let same = after_load-err id mac v (load id mac v a) e h in
      subst (WritesNothing a) (sym same) (record {
        rows = k.rows;
        entries = λ q x found. get-entries id v.looked a.cache q x (
            subst (λ (c : BoundedTtlCache CredentialRecord). lookup q c.entries ≡ some x) k.cache
              found);
      })

  result-WritesNothing :
      (parsed : Result FormatError PresentedCredential) (v : Visit) (a : Authenticator)
      (e : AuthError)
      → (authenticate_result crypto parsed v a).1.result ≡ err e
      → WritesNothing a (authenticate_result crypto parsed v a).0
  unfolding authenticate_result
  result-WritesNothing (err x) v a e h = record { rows = refl; entries = λ q y found. found }
  result-WritesNothing (ok p) v a e h = parsed-WritesNothing p v a e h

  -- A rejected attempt writes nothing: no row of the registry changes, and no entry gets into the
  -- cache, so that probing with a wrong secret can neither warm the cache nor stamp a credential.
  pub authenticate_rejected-WritesNothing :
      (presented : List ℕ) (v : Visit) (a : Authenticator) (e : AuthError)
      → (authenticate crypto presented v a).1.result ≡ err e
      → WritesNothing a (authenticate crypto presented v a).0
  unfolding authenticate
  authenticate_rejected-WritesNothing presented v a e h =
      result-WritesNothing (Secret.parse_presented crypto presented) v a e h
