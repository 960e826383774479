-- ===== src/Tests/Access.antt =====
-- Runs of the authenticator.
use aeon_iq_temp.Common.{
  sym, ap, ◌∙◌, Result, true, false, List, [], ◌∷◌, ok, err, some, none, trim, is_whitespace, codes,
  inl, inr, ◌≡◌, ◌≢◌, refl, arith,
}
use aeon_iq_temp.Credentials.Mode
use aeon_iq_temp.Credentials.Scope
use aeon_iq_temp.Credentials.Secret
use aeon_iq_temp.Credentials.Secret.{PresentedCredential}
use aeon_iq_temp.Credentials.Store
use aeon_iq_temp.Credentials.Store.{CredentialRecord}
use aeon_iq_temp.Credentials.Store.Revoked.{IsRevoked}
use aeon_iq_temp.Credentials.Auth
use aeon_iq_temp.Credentials.Auth.{Authenticator}
use aeon_iq_temp.Credentials.Cache
use aeon_iq_temp.Credentials.Context.{AeonAuthContext}
use aeon_iq_temp.Credentials.Auth.Sound.{
  IsHeld, WritesNothing, authenticate_sound, authenticate_rejected-WritesNothing,
}
use aeon_iq_temp.Credentials.Auth.Parity.{IsProbe, wrong_secret_parity}
use aeon_iq_temp.Credentials.Auth.Calls
use aeon_iq_temp.Credentials.Auth.Revocation.{revoked_within_ttl}
use aeon_iq_temp.Credentials.Auth.Calls.{run}
use aeon_iq_temp.Tests.Fixtures.{
  toy, presented, wrong, bare, issued, visit, spec, minting, secret_of, repeat, reader,
}

ok_some_injective :
    {E : Type 0} {x y : CredentialRecord} → ◌≡◌ {A = Result E _} (ok (some x)) (ok (some y)) → x ≡ y
ok_some_injective e = cc

abbrev caller : PresentedCredential
caller = record { credential_id = 1; secret = secret_of }

abbrev guess : PresentedCredential
guess = record { credential_id = 1; secret = repeat 32 8 }

abbrev context : AeonAuthContext
context = record {
  credential_id = 1;
  tenant_id = 5;
  principal_id = codes "svc";
  scopes = reader;
  mode = Mode.v2_required;
}

parses : Secret.parse_presented toy presented ≡ ok caller
unfolding Auth.authenticate Auth.authenticate_result Auth.authenticate_parsed Auth.after_load
    Auth.load Auth.admit Auth.accept Auth.reject Auth.context_of Auth.decoy Auth.issue Auth.new
    Auth.new_credential Auth.unusable_reason Cache.get Cache.get_entry Cache.insert Cache.is_live_at
    Cache.make_room Cache.new Cache.new_entry Secret.parse_presented Secret.split_once Secret.issue
    Secret.compute_mac Secret.mac_matches Secret.presented_mac Store.insert Store.fetch
    Store.validate Store.convert Store.cache_bound Store.is_usable_at Store.new_row Store.parse
    Store.row_allowed Store.touch_last_used Store.touch_rows Store.revoke_rows Mode.parse
    Mode.as_str Scope.parse_list Scope.parse_list_from Scope.to_wire Scope.parse Scope.as_str
    Scope.insert Scope.rank Scope.is_segment Scope.is_well_formed Scope.split trim is_whitespace
    bare issued
parses = refl

guess_parses : Secret.parse_presented toy wrong ≡ ok guess
unfolding Auth.authenticate Auth.authenticate_result Auth.authenticate_parsed Auth.after_load
    Auth.load Auth.admit Auth.accept Auth.reject Auth.context_of Auth.decoy Auth.issue Auth.new
    Auth.new_credential Auth.unusable_reason Cache.get Cache.get_entry Cache.insert Cache.is_live_at
    Cache.make_room Cache.new Cache.new_entry Secret.parse_presented Secret.split_once Secret.issue
    Secret.compute_mac Secret.mac_matches Secret.presented_mac Store.insert Store.fetch
    Store.validate Store.convert Store.cache_bound Store.is_usable_at Store.new_row Store.parse
    Store.row_allowed Store.touch_last_used Store.touch_rows Store.revoke_rows Mode.parse
    Mode.as_str Scope.parse_list Scope.parse_list_from Scope.to_wire Scope.parse Scope.as_str
    Scope.insert Scope.rank Scope.is_segment Scope.is_well_formed Scope.split trim is_whitespace
    bare issued
guess_parses = refl

let_in : (Auth.authenticate toy presented (visit 10) issued).1.result ≡ ok context
unfolding Auth.authenticate Auth.authenticate_result Auth.authenticate_parsed Auth.after_load
    Auth.load Auth.admit Auth.accept Auth.reject Auth.context_of Auth.decoy Auth.issue Auth.new
    Auth.new_credential Auth.unusable_reason Cache.get Cache.get_entry Cache.insert Cache.is_live_at
    Cache.make_room Cache.new Cache.new_entry Secret.parse_presented Secret.split_once Secret.issue
    Secret.compute_mac Secret.mac_matches Secret.presented_mac Store.insert Store.fetch
    Store.validate Store.convert Store.cache_bound Store.is_usable_at Store.new_row Store.parse
    Store.row_allowed Store.touch_last_used Store.touch_rows Store.revoke_rows Mode.parse
    Mode.as_str Scope.parse_list Scope.parse_list_from Scope.to_wire Scope.parse Scope.as_str
    Scope.insert Scope.rank Scope.is_segment Scope.is_well_formed Scope.split trim is_whitespace
    bare issued
let_in = refl

kept_out :
    (Auth.authenticate toy wrong (visit 10) issued).1.result
    ≡ err (record { reason = Auth.bad_secret })
unfolding Auth.authenticate Auth.authenticate_result Auth.authenticate_parsed Auth.after_load
    Auth.load Auth.admit Auth.accept Auth.reject Auth.context_of Auth.decoy Auth.issue Auth.new
    Auth.new_credential Auth.unusable_reason Cache.get Cache.get_entry Cache.insert Cache.is_live_at
    Cache.make_room Cache.new Cache.new_entry Secret.parse_presented Secret.split_once Secret.issue
    Secret.compute_mac Secret.mac_matches Secret.presented_mac Store.insert Store.fetch
    Store.validate Store.convert Store.cache_bound Store.is_usable_at Store.new_row Store.parse
    Store.row_allowed Store.touch_last_used Store.touch_rows Store.revoke_rows Mode.parse
    Mode.as_str Scope.parse_list Scope.parse_list_from Scope.to_wire Scope.parse Scope.as_str
    Scope.insert Scope.rank Scope.is_segment Scope.is_well_formed Scope.split trim is_whitespace
    bare issued
kept_out = refl

abbrev held : CredentialRecord
held = record {
  id = 1;
  tenant_id = 5;
  principal_id = codes "svc";
  secret_mac = secret_of;
  mode = Mode.v2_required;
  scopes = reader;
  tenant_wide = false;
  status = Store.active;
  created_at = 0;
  last_used_at = none;
  revoked_at = none;
  expires_at = none;
}

fetched : Store.fetch true issued.rows 1 ≡ ok (some held)
unfolding Auth.authenticate Auth.authenticate_result Auth.authenticate_parsed Auth.after_load
    Auth.load Auth.admit Auth.accept Auth.reject Auth.context_of Auth.decoy Auth.issue Auth.new
    Auth.new_credential Auth.unusable_reason Cache.get Cache.get_entry Cache.insert Cache.is_live_at
    Cache.make_room Cache.new Cache.new_entry Secret.parse_presented Secret.split_once Secret.issue
    Secret.compute_mac Secret.mac_matches Secret.presented_mac Store.insert Store.fetch
    Store.validate Store.convert Store.cache_bound Store.is_usable_at Store.new_row Store.parse
    Store.row_allowed Store.touch_last_used Store.touch_rows Store.revoke_rows Mode.parse
    Mode.as_str Scope.parse_list Scope.parse_list_from Scope.to_wire Scope.parse Scope.as_str
    Scope.insert Scope.rank Scope.is_segment Scope.is_well_formed Scope.split trim is_whitespace
    bare issued
fetched = refl

-- The state after a legitimate request, whose entry is in the cache.
unfoldable warm : Authenticator
warm = (Auth.authenticate toy presented (visit 10) issued).0

warm_cached : (Cache.get 1 (visit 20).looked warm.cache).1 ≡ ok (some held)
unfolding Auth.authenticate Auth.authenticate_result Auth.authenticate_parsed Auth.after_load
    Auth.load Auth.admit Auth.accept Auth.reject Auth.context_of Auth.decoy Auth.issue Auth.new
    Auth.new_credential Auth.unusable_reason Cache.get Cache.get_entry Cache.insert Cache.is_live_at
    Cache.make_room Cache.new Cache.new_entry Secret.parse_presented Secret.split_once Secret.issue
    Secret.compute_mac Secret.mac_matches Secret.presented_mac Store.insert Store.fetch
    Store.validate Store.convert Store.cache_bound Store.is_usable_at Store.new_row Store.parse
    Store.row_allowed Store.touch_last_used Store.touch_rows Store.revoke_rows Mode.parse
    Mode.as_str Scope.parse_list Scope.parse_list_from Scope.to_wire Scope.parse Scope.as_str
    Scope.insert Scope.rank Scope.is_segment Scope.is_well_formed Scope.split trim is_whitespace
    bare issued warm
warm_cached = refl

abbrev stamped : CredentialRecord
stamped = record held { last_used_at = some 10 }

warm_fetched : Store.fetch true warm.rows 1 ≡ ok (some stamped)
unfolding Auth.authenticate Auth.authenticate_result Auth.authenticate_parsed Auth.after_load
    Auth.load Auth.admit Auth.accept Auth.reject Auth.context_of Auth.decoy Auth.issue Auth.new
    Auth.new_credential Auth.unusable_reason Cache.get Cache.get_entry Cache.insert Cache.is_live_at
    Cache.make_room Cache.new Cache.new_entry Secret.parse_presented Secret.split_once Secret.issue
    Secret.compute_mac Secret.mac_matches Secret.presented_mac Store.insert Store.fetch
    Store.validate Store.convert Store.cache_bound Store.is_usable_at Store.new_row Store.parse
    Store.row_allowed Store.touch_last_used Store.touch_rows Store.revoke_rows Mode.parse
    Mode.as_str Scope.parse_list Scope.parse_list_from Scope.to_wire Scope.parse Scope.as_str
    Scope.insert Scope.rank Scope.is_segment Scope.is_well_formed Scope.split trim is_whitespace
    bare issued warm
warm_fetched = refl

warm_open : warm.cache.poisoned ≡ false
unfolding Auth.authenticate Auth.authenticate_result Auth.authenticate_parsed Auth.after_load
    Auth.load Auth.admit Auth.accept Auth.reject Auth.context_of Auth.decoy Auth.issue Auth.new
    Auth.new_credential Auth.unusable_reason Cache.get Cache.get_entry Cache.insert Cache.is_live_at
    Cache.make_room Cache.new Cache.new_entry Secret.parse_presented Secret.split_once Secret.issue
    Secret.compute_mac Secret.mac_matches Secret.presented_mac Store.insert Store.fetch
    Store.validate Store.convert Store.cache_bound Store.is_usable_at Store.new_row Store.parse
    Store.row_allowed Store.touch_last_used Store.touch_rows Store.revoke_rows Mode.parse
    Mode.as_str Scope.parse_list Scope.parse_list_from Scope.to_wire Scope.parse Scope.as_str
    Scope.insert Scope.rank Scope.is_segment Scope.is_well_formed Scope.split trim is_whitespace
    bare issued warm
warm_open = refl

differ :
    (r : CredentialRecord)
    → r.secret_mac ≡ secret_of
    → Secret.mac_matches (Secret.presented_mac toy warm.pepper guess) r.secret_mac ≡ false
unfolding Auth.authenticate Auth.authenticate_result Auth.authenticate_parsed Auth.after_load
    Auth.load Auth.admit Auth.accept Auth.reject Auth.context_of Auth.decoy Auth.issue Auth.new
    Auth.new_credential Auth.unusable_reason Cache.get Cache.get_entry Cache.insert Cache.is_live_at
    Cache.make_room Cache.new Cache.new_entry Secret.parse_presented Secret.split_once Secret.issue
    Secret.compute_mac Secret.mac_matches Secret.presented_mac Store.insert Store.fetch
    Store.validate Store.convert Store.cache_bound Store.is_usable_at Store.new_row Store.parse
    Store.row_allowed Store.touch_last_used Store.touch_rows Store.revoke_rows Mode.parse
    Mode.as_str Scope.parse_list Scope.parse_list_from Scope.to_wire Scope.parse Scope.as_str
    Scope.insert Scope.rank Scope.is_segment Scope.is_well_formed Scope.split trim is_whitespace
    bare issued warm
differ r same = rw same refl

authenticate_sound_example :
    (p : PresentedCredential) × (r : CredentialRecord) × (Secret.parse_presented toy presented
      ≡ ok p)
    × IsHeld toy p (visit 10) issued r
    × (Secret.mac_matches (Secret.presented_mac toy issued.pepper p) r.secret_mac ≡ true)
    × (Store.is_usable_at r 10 ≡ true)
    × (Auth.context_of r ≡ context)
authenticate_sound_example = authenticate_sound toy presented (visit 10) issued context let_in

authenticate_rejected-WritesNothing_example :
    WritesNothing toy issued (Auth.authenticate toy wrong (visit 10) issued).0
authenticate_rejected-WritesNothing_example =
    authenticate_rejected-WritesNothing toy wrong (visit 10) issued
      (record { reason = Auth.bad_secret }) kept_out

not_the_secret :
    (r : CredentialRecord)
    → IsHeld toy guess (visit 20) warm r
    → Secret.mac_matches (Secret.presented_mac toy warm.pepper guess) r.secret_mac ≡ false
not_the_secret r (inl cached) = differ r (
    let this : held ≡ r = ok_some_injective (sym warm_cached ∙ cached) in
    ap (λ (x : CredentialRecord). x.secret_mac) (sym this))
not_the_secret r (inr stored) = differ r (
    let this : stamped ≡ r = ok_some_injective (sym warm_fetched ∙ stored) in
    ap (λ (x : CredentialRecord). x.secret_mac) (sym this))

wrong_secret_parity_example : IsProbe 20 1 warm (Auth.authenticate toy wrong (visit 20) warm)
wrong_secret_parity_example =
    wrong_secret_parity toy wrong guess (visit 20) warm (some stamped) guess_parses warm_open
      warm_fetched not_the_secret

-- The latest call comes first.
abbrev before : List Calls.Call
before =
    Calls.revoke_elsewhere 1 15
    ∷ Calls.authenticate presented (visit 10)
    ∷ Calls.issue spec minting
    ∷ []

before-IsRevoked : IsRevoked 1 (run toy before (Auth.new [] (repeat 32 9) 4)).rows
unfolding Auth.authenticate Auth.authenticate_result Auth.authenticate_parsed Auth.after_load
    Auth.load Auth.admit Auth.accept Auth.reject Auth.context_of Auth.decoy Auth.issue Auth.new
    Auth.new_credential Auth.unusable_reason Cache.get Cache.get_entry Cache.insert Cache.is_live_at
    Cache.make_room Cache.new Cache.new_entry Secret.parse_presented Secret.split_once Secret.issue
    Secret.compute_mac Secret.mac_matches Secret.presented_mac Store.insert Store.fetch
    Store.validate Store.convert Store.cache_bound Store.is_usable_at Store.new_row Store.parse
    Store.row_allowed Store.touch_last_used Store.touch_rows Store.revoke_rows Mode.parse
    Mode.as_str Scope.parse_list Scope.parse_list_from Scope.to_wire Scope.parse Scope.as_str
    Scope.insert Scope.rank Scope.is_segment Scope.is_well_formed Scope.split trim is_whitespace
    bare issued run Calls.step
before-IsRevoked = (_, refl, refl)

revoked_within_ttl_example :
    (Auth.authenticate toy presented (visit 30000000010) (
      run toy
        (Calls.authenticate presented (visit 20) ∷ [])
        (run toy before (Auth.new [] (repeat 32 9) 4)))).1.result
    ≢ ok context
revoked_within_ttl_example =
    revoked_within_ttl toy [] (repeat 32 9) 4 before (Calls.authenticate presented (visit 20) ∷ [])
      10 1 presented caller (visit 30000000010) context
      (omega arith, (omega arith, (omega arith, tt))) before-IsRevoked parses refl (omega arith)
