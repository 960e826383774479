-- ===== src/UrlGuard.antt =====
-- src/url_guard.rs: which URLs the process may call. The URL parser and the resolver are
-- parameters. The texts of the errors are left out but for the reason of a blocked address, and
-- so are the warnings.
use aeon_iq_temp.Common.{
  ℕ, ◌*◌, ◌%◌, ◌/◌, Bool, true, false, not, ◌&&◌, ◌||◌, List, [], ◌∷◌, Option, none, some, Text,
  codes, text_eq, eq_ignore_ascii_case, is_empty, leb, ◌==◌, if◌then◌else◌, Result, ok, err, ◌>>=◌,
  ◌>>◌, guard, ok_or,
}
pub mod Ranges
pub mod Accepts

-- `std::net::IpAddr`: the octets of an IPv4 address, the segments of an IPv6 address
pub data IpAddr : Type 0 where
  v4 : (a b c d : ℕ) → IpAddr
  v6 : (s₀ s₁ s₂ s₃ s₄ s₅ s₆ s₇ : ℕ) → IpAddr

-- The `Ipv4Addr` predicates of the standard library.
module _ (a b c d : ℕ) where
  abbrev pub v4_is_loopback : Bool
  v4_is_loopback = a == 127

  abbrev pub v4_is_link_local : Bool
  v4_is_link_local = a == 169 && b == 254

  abbrev pub v4_is_private : Bool
  v4_is_private = a == 10 || (a == 172 && leb 16 b && leb b 31) || (a == 192 && b == 168)

  abbrev pub v4_is_unspecified : Bool
  v4_is_unspecified = a == 0 && b == 0 && c == 0 && d == 0

  abbrev pub v4_is_multicast : Bool
  v4_is_multicast = leb 224 a && leb a 239

  -- the first arm of `blocked_reason`
  unfoldable pub v4_blocked_reason : Option Text
  v4_blocked_reason =
      if v4_is_loopback
      then some (codes "loopback address")
      else if v4_is_link_local
      then some (codes "link-local / instance-metadata address")
      else if v4_is_private
      then some (codes "private RFC-1918 address")
      else if v4_is_unspecified
      then some (codes "unspecified address (0.0.0.0)")
      else if v4_is_multicast
      then some (codes "multicast address")
      else none

  abbrev pub v4_is_dev_allowed : Bool
  v4_is_dev_allowed = v4_is_loopback || v4_is_private

-- `octets[0]` and `octets[1]` of an IPv6 address, from its first segment
abbrev pub octet₀ : ℕ → ℕ
octet₀ s₀ = s₀ / 256

abbrev pub octet₁ : ℕ → ℕ
octet₁ s₀ = s₀ % 256

-- `x & 0xc0` and `x & 0xfe` on an octet
abbrev pub and_c0 : ℕ → ℕ
and_c0 x = x / 64 % 4 * 64

abbrev pub and_fe : ℕ → ℕ
and_fe x = x / 2 % 128 * 2

abbrev pub is_unique_local : ℕ → Bool
is_unique_local s₀ = and_fe (octet₀ s₀) == 0xfc

-- The `Ipv6Addr` methods of the standard library.
module _ (s₀ s₁ s₂ s₃ s₄ s₅ s₆ s₇ : ℕ) where
  abbrev pub v6_is_loopback : Bool
  v6_is_loopback =
      s₀ == 0 && s₁ == 0 && s₂ == 0 && s₃ == 0 && s₄ == 0 && s₅ == 0 && s₆ == 0 && s₇ == 1

  abbrev pub v6_is_unspecified : Bool
  v6_is_unspecified =
      s₀ == 0 && s₁ == 0 && s₂ == 0 && s₃ == 0 && s₄ == 0 && s₅ == 0 && s₆ == 0 && s₇ == 0

  abbrev pub v6_is_multicast : Bool
  v6_is_multicast = octet₀ s₀ == 0xff

  -- `to_ipv4_mapped().is_some()`; the address is then that of the last two segments
  abbrev pub is_ipv4_mapped : Bool
  is_ipv4_mapped = s₀ == 0 && s₁ == 0 && s₂ == 0 && s₃ == 0 && s₄ == 0 && s₅ == 0xffff

-- the second arm of `blocked_reason`, and its recursive call
unfoldable pub blocked_reason : IpAddr → Option Text
unfolding v4_blocked_reason
blocked_reason (v4 a b c d) = v4_blocked_reason a b c d
blocked_reason (v6 s₀ s₁ s₂ s₃ s₄ s₅ s₆ s₇) =
    if v6_is_loopback s₀ s₁ s₂ s₃ s₄ s₅ s₆ s₇
    then some (codes "loopback address (::1)")
    else if v6_is_unspecified s₀ s₁ s₂ s₃ s₄ s₅ s₆ s₇
    then some (codes "unspecified address (::)")
    else if v6_is_multicast s₀ s₁ s₂ s₃ s₄ s₅ s₆ s₇
    then some (codes "multicast address")
    else if octet₀ s₀ == 0xfe && and_c0 (octet₁ s₀) == 0x80
    then some (codes "IPv6 link-local address (fe80::/10)")
    else if is_unique_local s₀
    then some (codes "IPv6 unique-local address (fc00::/7)")
    else if is_ipv4_mapped s₀ s₁ s₂ s₃ s₄ s₅ s₆ s₇
    then v4_blocked_reason (s₆ / 256) (s₆ % 256) (s₇ / 256) (s₇ % 256)
    else none

unfoldable pub is_dev_allowed : IpAddr → Bool
is_dev_allowed (v4 a b c d) = v4_is_dev_allowed a b c d
is_dev_allowed (v6 s₀ s₁ s₂ s₃ s₄ s₅ s₆ s₇) =
    if v6_is_loopback s₀ s₁ s₂ s₃ s₄ s₅ s₆ s₇
    then true
    else if is_ipv4_mapped s₀ s₁ s₂ s₃ s₄ s₅ s₆ s₇
    then v4_is_dev_allowed (s₆ / 256) (s₆ % 256) (s₇ / 256) (s₇ % 256)
    else is_unique_local s₀

-- What the code reads of a `reqwest::Url`; `text` is its `to_string()`.
pub record Url : Type 0 where
  pub scheme : Text
  pub host : Option Text
  pub port : Option ℕ
  pub text : Text

-- `Url::parse`, and `to_socket_addrs` of a host and a port, each of which may fail.
pub record Net : Type 0 where
  pub parse : Text → Option Url
  pub resolve : Text → ℕ → Option (List IpAddr)

pub data UrlError : Type 0 where
  unparseable http_scheme no_host unresolved zero_addresses : UrlError
  unsupported_scheme : Text → UrlError
  blocked : IpAddr → Text → UrlError
  public_address : IpAddr → UrlError

-- the value of `AEON_ALLOW_INSECURE_PROVIDER_URLS`, if it is set
unfoldable pub insecure_urls_allowed : Option Text → Bool
insecure_urls_allowed none = false
insecure_urls_allowed (some v) = eq_ignore_ascii_case v (codes "true")

unfoldable pub check_scheme : Bool → Text → Result UrlError (Unit {0})
check_scheme allow_insecure scheme =
    if text_eq scheme (codes "https")
    then ok tt
    else if text_eq scheme (codes "http")
    then guard allow_insecure http_scheme
    else err (unsupported_scheme scheme)

unfoldable pub port_of : Url → ℕ
port_of url = elim url.port [
  | some p ↦ p
  | none ↦ if text_eq url.scheme (codes "https") then 443 else 80
]

-- The host, its addresses, and the refusal of an empty answer: the same lines in both functions.
unfoldable pub addresses_of : Net → Url → Result UrlError (List IpAddr)
unfolding port_of
addresses_of net url = do
  host ← ok_or url.host no_host
  addrs ← ok_or (net.resolve host (port_of url)) unresolved
  guard (not (is_empty addrs)) zero_addresses
  ok addrs

abbrev pub refuse : IpAddr → Option Text → Result UrlError (Unit {0}) → Result UrlError (Unit {0})
refuse addr none rest = rest
refuse addr (some reason) rest = err (blocked addr reason)

-- the loop of `validate_provider_url`
unfoldable pub check_addrs : Bool → List IpAddr → Result UrlError (Unit {0})
unfolding is_dev_allowed blocked_reason
check_addrs allow_insecure [] = ok tt
check_addrs allow_insecure (addr ∷ addrs) =
    let rest = check_addrs allow_insecure addrs in
    if allow_insecure && is_dev_allowed addr then rest else refuse addr (blocked_reason addr) rest

unfoldable pub validate_provider_url : Net → Option Text → Text → Result UrlError Text
unfolding insecure_urls_allowed check_scheme addresses_of check_addrs
validate_provider_url net flag raw = do
  url ← ok_or (net.parse raw) unparseable
  check_scheme (insecure_urls_allowed flag) url.scheme
  addrs ← addresses_of net url
  check_addrs (insecure_urls_allowed flag) addrs
  ok url.text

-- the loop of `validate_local_provider_url`
unfoldable pub check_local_addrs : List IpAddr → Result UrlError (Unit {0})
unfolding is_dev_allowed blocked_reason
check_local_addrs [] = ok tt
check_local_addrs (addr ∷ addrs) =
    let rest = check_local_addrs addrs in
    if is_dev_allowed addr
    then rest
    else refuse addr (blocked_reason addr) (err (public_address addr))

unfoldable pub validate_local_provider_url : Net → Text → Result UrlError Text
unfolding addresses_of check_local_addrs
validate_local_provider_url net raw = do
  url ← ok_or (net.parse raw) unparseable
  guard (text_eq url.scheme (codes "http") || text_eq url.scheme (codes "https"))
      (unsupported_scheme url.scheme)
  addrs ← addresses_of net url
  check_local_addrs addrs
  ok url.text
