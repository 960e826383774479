-- ===== src/UrlGuard/Accepts.antt =====
-- When src/url_guard.rs accepts a URL.
use aeon_iq_temp.Common.{
  ℕ, Bool, true, false, not, ◌&&◌, ◌||◌, List, [], ◌∷◌, Option, some, Text, codes, text_eq,
  text_eq_iff, All, is_empty, if◌then◌else◌, Option-cases, Result, ok, err, guard, ok_or, bind-ok,
  ok_or-ok, guard-ok, ◌≡◌, ◌↔◌, ◌⊎◌, refl, sym, ap, ◌∙◌, arith,
}
use aeon_iq_temp.UrlGuard.{
  IpAddr, Url, Net, UrlError, blocked_reason, is_dev_allowed, insecure_urls_allowed, check_scheme,
  port_of, addresses_of, refuse, check_addrs, validate_provider_url, check_local_addrs,
  validate_local_provider_url,
}
use aeon_iq_temp.UrlGuard.Ranges.{
  IsAddress, in_dev, in_forbidden, is_dev_allowed-blocks, blocked_reason-blocks, blocks_apart,
}

-- What a provider URL may resolve to.
abbrev pub IsAcceptable : Bool → IpAddr → Type 0
IsAcceptable flag x = (in_forbidden x ≡ false) × ((in_dev x ≡ false) ⊎ (flag ≡ true))

addr_lem :
    (flag : Bool) (x : IpAddr) (rest : Result UrlError (Unit {0}))
    → IsAddress x
    → ((if flag && is_dev_allowed x then rest else refuse x (blocked_reason x) rest) ≡ ok tt)
      ↔ (IsAcceptable flag x × (rest ≡ ok tt))
addr_lem flag x rest h =
    ground (arith, is_dev_allowed-blocks x h, blocked_reason-blocks x h, blocks_apart x h)

check_addrs-ok :
    (flag : Bool) (xs : List IpAddr)
    → All IsAddress xs
    → (check_addrs flag xs ≡ ok tt) ↔ All (IsAcceptable flag) xs
unfolding check_addrs
check_addrs-ok flag [] h = (λ e. tt, λ a. refl)
check_addrs-ok flag (x ∷ xs) h =
    let here = addr_lem flag x (check_addrs flag xs) h.0 in
    let rest = check_addrs-ok flag xs h.1 in
    (λ e. let (this, others) = here.0 e in (this, rest.0 others), λ a. here.1 (a.0, rest.1 a.1))

local_lem :
    (x : IpAddr) (rest : Result UrlError (Unit {0}))
    → IsAddress x
    → ((if is_dev_allowed x
          then rest
          else refuse x (blocked_reason x) (err (UrlError.public_address x)))
        ≡ ok tt)
      ↔ ((in_dev x ≡ true) × (rest ≡ ok tt))
local_lem x rest h = ground (arith, is_dev_allowed-blocks x h, Option-cases (blocked_reason x))

check_local_addrs-ok :
    (xs : List IpAddr)
    → All IsAddress xs
    → (check_local_addrs xs ≡ ok tt) ↔ All (λ x. in_dev x ≡ true) xs
unfolding check_local_addrs
check_local_addrs-ok [] h = (λ e. tt, λ a. refl)
check_local_addrs-ok (x ∷ xs) h =
    let here = local_lem x (check_local_addrs xs) h.0 in
    let rest = check_local_addrs-ok xs h.1 in
    (λ e. let (this, others) = here.0 e in (this, rest.0 others), λ a. here.1 (a.0, rest.1 a.1))

-- The resolver answers with addresses.
abbrev pub ResolvesToAddresses : Net → Type 0
ResolvesToAddresses net =
    (host : Text) (port : ℕ) (xs : List IpAddr) → net.resolve host port ≡ some xs → All IsAddress xs

-- A URL that parses and whose host resolves, to at least one address.
pub record Resolves (net : Net) (raw : Text) (url : Url) (host : Text) (addrs : List IpAddr)
    : Type 0 where
  pub parsed : net.parse raw ≡ some url
  pub hosted : url.host ≡ some host
  pub resolved : net.resolve host (port_of url) ≡ some addrs
  pub some_address : is_empty addrs ≡ false

addresses_of-ok :
    (net : Net) (url : Url) (addrs : List IpAddr)
    → addresses_of net url ≡ ok addrs
    → (host : Text) × (url.host ≡ some host)
      × (net.resolve host (port_of url) ≡ some addrs)
      × (is_empty addrs ≡ false)
unfolding addresses_of
addresses_of-ok net url addrs h =
    let (host, hosted, h₁) = bind-ok (ok_or url.host UrlError.no_host) _ addrs h in
    let (found, resolved, h₂) =
      bind-ok (ok_or (net.resolve host (port_of url)) UrlError.unresolved) _ addrs h₁ in
    let (u, full, h₃) = bind-ok (guard (not (is_empty found)) UrlError.zero_addresses) _ addrs h₂ in
    let this : found ≡ addrs = cc in
    (
      host,
      ok_or-ok url.host _ host hosted,
      ok_or-ok _ _ found resolved ∙ ap some this,
      ap is_empty (sym this)
          ∙ ground (arith, guard-ok (not (is_empty found)) UrlError.zero_addresses u full),
    )

addresses_of-Resolves :
    (net : Net) (raw : Text) (url : Url) (host : Text) (addrs : List IpAddr)
    → Resolves net raw url host addrs
    → addresses_of net url ≡ ok addrs
unfolding addresses_of
addresses_of-Resolves net raw url host addrs r = simp (r.hosted, r.resolved, r.some_address)

check_scheme-ok :
    (flag : Bool) (scheme : Text)
    → (check_scheme flag scheme ≡ ok tt)
      ↔ ((scheme ≡ codes "https") ⊎ ((scheme ≡ codes "http") × (flag ≡ true)))
unfolding check_scheme
check_scheme-ok flag scheme =
    ground (arith, text_eq_iff scheme (codes "https"), text_eq_iff scheme (codes "http"))

-- What a URL accepted as `u` was found to be.
pub record Found (net : Net) (raw u : Text) (Scheme : Text → Type 0) (Address : IpAddr → Type 0)
    : Type 0 where
  pub url : Url
  pub host : Text
  pub addrs : List IpAddr
  pub resolves : Resolves net raw url host addrs
  pub scheme : Scheme url.scheme
  pub addresses : All Address addrs
  pub text : url.text ≡ u

abbrev pub IsProviderScheme : Bool → Text → Type 0
IsProviderScheme flag scheme = (scheme ≡ codes "https") ⊎ ((scheme ≡ codes "http") × (flag ≡ true))

provider_found :
    (net : Net) (flag : Option Text) (raw u : Text)
    → ResolvesToAddresses net
    → validate_provider_url net flag raw ≡ ok u
    → Found net raw u
        (IsProviderScheme (insecure_urls_allowed flag))
        (IsAcceptable (insecure_urls_allowed flag))
unfolding validate_provider_url
provider_found net flag raw u known e =
    let allowed = insecure_urls_allowed flag in
    let (url, parsed, h₁) = bind-ok (ok_or (net.parse raw) UrlError.unparseable) _ u e in
    let (_, scheme, h₂) = bind-ok (check_scheme allowed url.scheme) _ u h₁ in
    let (addrs, got, h₃) = bind-ok (addresses_of net url) _ u h₂ in
    let (_, checked, h₄) = bind-ok (check_addrs allowed addrs) _ u h₃ in
    let (host, hosted, resolved, full) = addresses_of-ok net url addrs got in
    record {
      url = url;
      host = host;
      addrs = addrs;
      resolves = record {
        parsed = ok_or-ok (net.parse raw) _ url parsed;
        hosted = hosted;
        resolved = resolved;
        some_address = full;
      };
      scheme = (check_scheme-ok allowed url.scheme).0 scheme;
      addresses =
          (check_addrs-ok allowed addrs (known host (port_of url) addrs resolved)).0 checked;
      text = cc;
    }

found_provider :
    (net : Net) (flag : Option Text) (raw u : Text)
    → ResolvesToAddresses net
    → Found net raw u
        (IsProviderScheme (insecure_urls_allowed flag))
        (IsAcceptable (insecure_urls_allowed flag))
    → validate_provider_url net flag raw ≡ ok u
unfolding validate_provider_url
found_provider net flag raw u known f =
    let allowed = insecure_urls_allowed flag in
    let r = f.resolves in
    let scheme = (check_scheme-ok allowed f.url.scheme).1 f.scheme in
    let got = addresses_of-Resolves net raw f.url f.host f.addrs r in
    let checked =
      (check_addrs-ok allowed f.addrs (known f.host (port_of f.url) f.addrs r.resolved)).1
        f.addresses in
    simp (r.parsed, scheme, got, checked, f.text)

-- The resolver answers with addresses. A provider URL is accepted as `u`, its normal form, exactly
-- when it parses, its scheme is https (or http, with the flag), its host resolves to at least one
-- address, and every one lies outside the link-local, unspecified and multicast blocks and,
-- without the flag, outside the loopback, private and unique-local blocks too.
pub validate_provider_url_iff :
    (net : Net) (flag : Option Text) (raw u : Text)
    → ResolvesToAddresses net
    → (validate_provider_url net flag raw ≡ ok u)
      ↔ Found net raw u
          (IsProviderScheme (insecure_urls_allowed flag))
          (IsAcceptable (insecure_urls_allowed flag))
validate_provider_url_iff net flag raw u known =
    (provider_found net flag raw u known, found_provider net flag raw u known)

abbrev pub IsLocalScheme : Text → Type 0
IsLocalScheme scheme = (scheme ≡ codes "http") ⊎ (scheme ≡ codes "https")

IsLocalScheme-ok :
    (scheme : Text)
    → ((text_eq scheme (codes "http") || text_eq scheme (codes "https")) ≡ true)
      ↔ IsLocalScheme scheme
IsLocalScheme-ok scheme =
    ground (arith, text_eq_iff scheme (codes "https"), text_eq_iff scheme (codes "http"))

abbrev pub IsLocal : IpAddr → Type 0
IsLocal x = in_dev x ≡ true

IsLocal-found :
    (net : Net) (raw u : Text)
    → ResolvesToAddresses net
    → validate_local_provider_url net raw ≡ ok u
    → Found net raw u IsLocalScheme IsLocal
unfolding validate_local_provider_url
IsLocal-found net raw u known e =
    let (url, parsed, h₁) = bind-ok (ok_or (net.parse raw) UrlError.unparseable) _ u e in
    let (t, scheme, h₂) =
      bind-ok
        (guard (text_eq url.scheme (codes "http") || text_eq url.scheme (codes "https"))
          (UrlError.unsupported_scheme url.scheme))
        _ u h₁ in
    let (addrs, got, h₃) = bind-ok (addresses_of net url) _ u h₂ in
    let (_, checked, h₄) = bind-ok (check_local_addrs addrs) _ u h₃ in
    let (host, hosted, resolved, full) = addresses_of-ok net url addrs got in
    record {
      url = url;
      host = host;
      addrs = addrs;
      resolves = record {
        parsed = ok_or-ok (net.parse raw) _ url parsed;
        hosted = hosted;
        resolved = resolved;
        some_address = full;
      };
      scheme =
          (IsLocalScheme-ok url.scheme).0
            (guard-ok _ (UrlError.unsupported_scheme url.scheme) t scheme);
      addresses = (check_local_addrs-ok addrs (known host (port_of url) addrs resolved)).0 checked;
      text = cc;
    }

found_local :
    (net : Net) (raw u : Text)
    → ResolvesToAddresses net
    → Found net raw u IsLocalScheme IsLocal
    → validate_local_provider_url net raw ≡ ok u
unfolding validate_local_provider_url
found_local net raw u known f =
    let r = f.resolves in
    let scheme = (IsLocalScheme-ok f.url.scheme).1 f.scheme in
    let got = addresses_of-Resolves net raw f.url f.host f.addrs r in
    let checked =
      (check_local_addrs-ok f.addrs (known f.host (port_of f.url) f.addrs r.resolved)).1
        f.addresses in
    simp (r.parsed, scheme, got, checked, f.text)

-- The resolver answers with addresses. The URL of the local lane is accepted as `u`, its normal
-- form, exactly when it parses, its scheme is http or https, its host resolves to at least one
-- address, and every one is a loopback, private or unique-local address.
pub validate_local_provider_url_iff :
    (net : Net) (raw u : Text)
    → ResolvesToAddresses net
    → (validate_local_provider_url net raw ≡ ok u) ↔ Found net raw u IsLocalScheme IsLocal
validate_local_provider_url_iff net raw u known =
    (IsLocal-found net raw u known, found_local net raw u known)
