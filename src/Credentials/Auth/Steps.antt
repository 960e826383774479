-- ===== src/Credentials/Auth/Steps.antt =====
-- The parts of `authenticate` and `load` of src/credentials/mod.rs, one at a time.
use mathlib.Core.Path.{subst}
use aeon_iq_temp.Common.{
  ℕ, true, false, List, Option, none, some, Result, ok, err, Bool-cases, inl, inr, ◌≡◌, ◌⊎◌, refl,
  ap, ◌∙◌, arith, if_true, if_false,
}
use aeon_iq_temp.Credentials.Cache
use aeon_iq_temp.Credentials.Cache.{BoundedTtlCache, CacheError}
use aeon_iq_temp.Credentials.Cache.Entries.{insert-err}
use aeon_iq_temp.Credentials.Context.{AeonAuthContext}
use aeon_iq_temp.Credentials.Secret
use aeon_iq_temp.Credentials.Store
use aeon_iq_temp.Credentials.Store.{CredentialRecord, StoreError}
use aeon_iq_temp.Credentials.Auth.{
  FailureReason, AuthError, Authentication, Loaded, Authenticator, Visit, reject, load_fetched,
  load_cached, load, context_of, accept, store_success, admit, after_load,
}

-- Where a loaded record came from.
abbrev pub FromCache : ℕ → List ℕ → Visit → Authenticator → Loaded → Type 0
FromCache id mac v a l =
    (l.from_cache ≡ true)
    × ((Cache.get id v.looked a.cache).1 ≡ ok (some l.record_))
    × (Secret.mac_matches mac l.record_.secret_mac ≡ true)

abbrev pub FromRows : ℕ → Visit → Authenticator → Loaded → Type 0
FromRows id v a l =
    (l.from_cache ≡ false) × (Store.fetch v.fetch_ok a.rows id ≡ ok (some l.record_))

load_fetched-some :
    (a : Authenticator) (got : Result StoreError (Option CredentialRecord)) (l : Loaded)
    → (load_fetched a got).1 ≡ ok (some l)
    → (l.from_cache ≡ false) × (got ≡ ok (some l.record_))
unfolding load_fetched
load_fetched-some a (err Store.backend) l h = absurd (cc)
load_fetched-some a (err (Store.corrupt id e)) l h = absurd (cc)
load_fetched-some a (ok none) l h = absurd (cc)
load_fetched-some a (ok (some r)) l h = (ground arith, ground arith)

load_cached-some :
    (id : ℕ) (mac : List ℕ) (v : Visit) (a : Authenticator)
    (got : Result CacheError (Option CredentialRecord)) (l : Loaded)
    → (load_cached id mac v a got).1 ≡ ok (some l)
    → ((l.from_cache ≡ true)
        × (got ≡ ok (some l.record_))
        × (Secret.mac_matches mac l.record_.secret_mac ≡ true))
      ⊎ FromRows id v a l
unfolding load_cached
load_cached-some id mac v a (err e) l h = absurd (cc)
load_cached-some id mac v a (ok none) l h = inr (load_fetched-some a _ l h)
load_cached-some id mac v a (ok (some r)) l h =
    elim (Bool-cases (Secret.mac_matches mac r.secret_mac)) [
      | inl match ↦
          let l_is : record { record_ = r; from_cache = true } ≡ l = ground arith in
          inl (
            subst
              (λ x.
                (x.from_cache ≡ true)
                × (◌≡◌ {A = Result CacheError (Option CredentialRecord)} (ok (some r))
                    (ok (some x.record_)))
                × (Secret.mac_matches mac x.record_.secret_mac ≡ true))
              l_is (refl, refl, match))
      | inr differ ↦ inr (load_fetched-some a _ l (rw differ at h))
    ]

-- A loaded record is a live cached one that the presented secret corroborates, or the row's.
pub load-some :
    (id : ℕ) (mac : List ℕ) (v : Visit) (a : Authenticator) (l : Loaded)
    → (load id mac v a).1 ≡ ok (some l)
    → FromCache id mac v a l ⊎ FromRows id v a l
unfolding load
load-some id mac v a l h =
    load_cached-some id mac v (record a { cache = (Cache.get id v.looked a.cache).0 })
      (Cache.get id v.looked a.cache).1 l h

-- Loading writes nothing but the counter of decoys, and drops at most an expired entry.
pub record Kept (a a' : Authenticator) (cache' : BoundedTtlCache CredentialRecord) : Type 0 where
  pub rows : a'.rows ≡ a.rows
  pub pepper : a'.pepper ≡ a.pepper
  pub cache : a'.cache ≡ cache'

load_fetched-Kept :
    (a : Authenticator) (got : Result StoreError (Option CredentialRecord))
    → Kept a (load_fetched a got).0 a.cache
unfolding load_fetched
load_fetched-Kept a (err Store.backend) = record { rows = refl; pepper = refl; cache = refl }
load_fetched-Kept a (err (Store.corrupt id e)) = record { rows = refl; pepper = refl; cache = refl }
load_fetched-Kept a (ok none) = record { rows = refl; pepper = refl; cache = refl }
load_fetched-Kept a (ok (some r)) = record { rows = refl; pepper = refl; cache = refl }

load_cached-Kept :
    (id : ℕ) (mac : List ℕ) (v : Visit) (a : Authenticator)
    (got : Result CacheError (Option CredentialRecord))
    → Kept a (load_cached id mac v a got).0 a.cache
unfolding load_cached
load_cached-Kept id mac v a (err e) = record { rows = refl; pepper = refl; cache = refl }
load_cached-Kept id mac v a (ok none) = load_fetched-Kept a _
load_cached-Kept id mac v a (ok (some r)) =
    elim (Bool-cases (Secret.mac_matches mac r.secret_mac)) [
      | inl match ↦ rw match (record { rows = refl; pepper = refl; cache = refl })
      | inr differ ↦ rw differ (load_fetched-Kept a _)
    ]

pub load-Kept :
    (id : ℕ) (mac : List ℕ) (v : Visit) (a : Authenticator)
    → Kept a (load id mac v a).0 (Cache.get id v.looked a.cache).0
unfolding load
load-Kept id mac v a =
    let a' : Authenticator = record a { cache = (Cache.get id v.looked a.cache).0 } in
    let k = load_cached-Kept id mac v a' (Cache.get id v.looked a.cache).1 in
    record { rows = k.rows; pepper = k.pepper; cache = k.cache }

-- What `admit` found when it let the caller in.
store_success-ok :
    (id : ℕ) (r : CredentialRecord) (v : Visit) (a : Authenticator)
    (put : BoundedTtlCache CredentialRecord × Result CacheError (Unit {0})) (c : AeonAuthContext)
    → (store_success id r v a put).1.result ≡ ok c
    → context_of r ≡ c
unfolding store_success reject accept
store_success-ok id r v a (cache', err e) c h = absurd (cc)
store_success-ok id r v a (cache', ok _) c h = cc

pub admit-ok :
    (id : ℕ) (mac : List ℕ) (v : Visit) (a : Authenticator) (l : Loaded) (c : AeonAuthContext)
    → (admit id mac v a l).1.result ≡ ok c
    → (Secret.mac_matches mac l.record_.secret_mac ≡ true)
      × (Store.is_usable_at l.record_ v.at ≡ true)
      × (context_of l.record_ ≡ c)
unfolding admit
admit-ok id mac v a l c h = elim (Bool-cases (Secret.mac_matches mac l.record_.secret_mac)) [
  | inr differ ↦ absurd (unfold reject in ground arith)
  | inl match ↦ elim (Bool-cases (Store.is_usable_at l.record_ v.at)) [
    | inr off ↦ absurd (unfold reject in ground arith)
    | inl on ↦ (
      match,
      on,
      elim (Bool-cases l.from_cache) [
        | inl cached ↦ unfold accept in ground arith
        | inr read ↦
            store_success-ok id l.record_ v a
              (Cache.insert id l.record_ (Store.cache_bound l.record_) v.stored a.cache) c
              (ground arith)
      ],
    )
  ]
]

-- What follows from `after_load` with a successful outcome.
pub after_load-ok :
    (id : ℕ) (mac : List ℕ) (v : Visit) (got : Authenticator × Result FailureReason (Option Loaded))
    (c : AeonAuthContext)
    → (after_load id mac v got).1.result ≡ ok c
    → (l : Loaded) × (got.1 ≡ ok (some l)) × ((admit id mac v got.0 l).1.result ≡ ok c)
unfolding after_load
after_load-ok id mac v (a, err e) c h = absurd (unfold reject in cc)
after_load-ok id mac v (a, ok none) c h = absurd (unfold reject in cc)
after_load-ok id mac v (a, ok (some l)) c h = (l, refl, h)

-- A refused caller leaves the state as `load` left it.
store_success-err :
    (id : ℕ) (r : CredentialRecord) (v : Visit) (a : Authenticator)
    (put : BoundedTtlCache CredentialRecord × Result CacheError (Unit {0})) (e : AuthError)
    → ((x : CacheError) → put.1 ≡ err x → put.0 ≡ a.cache)
    → (store_success id r v a put).1.result ≡ err e
    → (store_success id r v a put).0 ≡ a
unfolding store_success accept
store_success-err id r v a (cache', err x) e same h =
    ap (λ (k : BoundedTtlCache CredentialRecord). record a { cache = k }) (same x refl)
store_success-err id r v a (cache', ok _) e same h = absurd (cc)

pub admit-err :
    (id : ℕ) (mac : List ℕ) (v : Visit) (a : Authenticator) (l : Loaded) (e : AuthError)
    → (admit id mac v a l).1.result ≡ err e
    → (admit id mac v a l).0 ≡ a
unfolding admit
admit-err id mac v a l e h = elim (Bool-cases (Secret.mac_matches mac l.record_.secret_mac)) [
  | inr differ ↦ rw differ refl
  | inl match ↦ elim (Bool-cases (Store.is_usable_at l.record_ v.at)) [
    | inr off ↦ rw (match, off) refl
    | inl on ↦ elim (Bool-cases l.from_cache) [
      | inl cached ↦ absurd (unfold accept in ground arith)
      | inr read ↦
          ap (λ (x : Authenticator × Authentication). x.0)
            (if_true _ _ match ∙ if_true _ _ on ∙ if_false _ _ read)
          ∙ store_success-err id l.record_ v a
              (Cache.insert id l.record_ (Store.cache_bound l.record_) v.stored a.cache) e
              (insert-err id l.record_ (Store.cache_bound l.record_) v.stored a.cache)
              (ground arith)
    ]
  ]
]

pub after_load-err :
    (id : ℕ) (mac : List ℕ) (v : Visit) (got : Authenticator × Result FailureReason (Option Loaded))
    (e : AuthError)
    → (after_load id mac v got).1.result ≡ err e
    → (after_load id mac v got).0 ≡ got.0
unfolding after_load
after_load-err id mac v (a, err x) e h = refl
after_load-err id mac v (a, ok none) e h = refl
after_load-err id mac v (a, ok (some l)) e h = admit-err id mac v a l e h

-- The state after a success that came from the database.
abbrev pub stored : ℕ → CredentialRecord → Visit → Authenticator → Authenticator
stored id r v a = record a {
  cache = (Cache.insert id r (Store.cache_bound r) v.stored a.cache).0;
  rows = (Store.touch_last_used v.touch_ok id v.at a.rows).0;
}

store_success-state :
    (id : ℕ) (r : CredentialRecord) (v : Visit) (a : Authenticator)
    (put : BoundedTtlCache CredentialRecord × Result CacheError (Unit {0}))
    → ((x : CacheError) → put.1 ≡ err x → put.0 ≡ a.cache)
    → ((store_success id r v a put).0 ≡ a)
      ⊎ ((store_success id r v a put).0
          ≡ record a { cache = put.0; rows = (Store.touch_last_used v.touch_ok id v.at a.rows).0 })
unfolding store_success
store_success-state id r v a (cache', err x) same =
    inl (ap (λ (k : BoundedTtlCache CredentialRecord). record a { cache = k }) (same x refl))
store_success-state id r v a (cache', ok _) same = inr refl

-- Only a usable record that was read from its row is ever stored.
pub admit-state :
    (id : ℕ) (mac : List ℕ) (v : Visit) (a : Authenticator) (l : Loaded)
    → ((admit id mac v a l).0 ≡ a)
      ⊎ ((l.from_cache ≡ false)
          × (Store.is_usable_at l.record_ v.at ≡ true)
          × ((admit id mac v a l).0 ≡ stored id l.record_ v a))
unfolding admit
admit-state id mac v a l = elim (Bool-cases (Secret.mac_matches mac l.record_.secret_mac)) [
  | inr differ ↦ inl (rw differ refl)
  | inl match ↦ elim (Bool-cases (Store.is_usable_at l.record_ v.at)) [
    | inr off ↦ inl (rw (match, off) refl)
    | inl on ↦ elim (Bool-cases l.from_cache) [
      | inl cached ↦ inl (
          ap (λ (x : Authenticator × Authentication). x.0)
            (if_true _ _ match ∙ if_true _ _ on ∙ if_true _ _ cached))
      | inr read ↦
          let opened =
            ap (λ (x : Authenticator × Authentication). x.0)
              (if_true _ _ match ∙ if_true _ _ on ∙ if_false _ _ read) in
          elim (store_success-state id l.record_ v a
            (Cache.insert id l.record_ (Store.cache_bound l.record_) v.stored a.cache)
            (insert-err id l.record_ (Store.cache_bound l.record_) v.stored a.cache)) [
              | inl same ↦ inl (opened ∙ same)
              | inr put ↦ inr (read, on, opened ∙ put)
            ]
    ]
  ]
]

pub after_load-state :
    (id : ℕ) (mac : List ℕ) (v : Visit) (got : Authenticator × Result FailureReason (Option Loaded))
    → ((after_load id mac v got).0 ≡ got.0)
      ⊎ ((l : Loaded) × (got.1 ≡ ok (some l))
          × (l.from_cache ≡ false)
          × (Store.is_usable_at l.record_ v.at ≡ true)
          × ((after_load id mac v got).0 ≡ stored id l.record_ v got.0))
unfolding after_load
after_load-state id mac v (a, err x) = inl refl
after_load-state id mac v (a, ok none) = inl refl
after_load-state id mac v (a, ok (some l)) = elim (admit-state id mac v a l) [
  | inl same ↦ inl same
  | inr (read, on, put) ↦ inr (l, refl, read, on, put)
]
