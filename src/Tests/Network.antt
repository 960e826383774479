-- ===== src/Tests/Network.antt =====
-- Requests that are limited, URLs that are resolved, and bodies that are logged.
use mathlib.Core.Path.{subst}
use aeon_iq_temp.Common.{
  min, ℕ, ◌+◌, ◌-◌, ◌*◌, ◌^◌, ◌≤◌, ◌<◌, true, false, ◌||◌, List, [], ◌∷◌, ◌++◌, All, Text, ok, some,
  none, codes, ◌≡◌, ◌↔◌, ◌⊎◌, refl, arith,
}
use aeon_iq_temp.RateLimit.{RateLimiter, Pass, new, with_ttl, check_and_consume}
use aeon_iq_temp.RateLimit.F64
use aeon_iq_temp.Common.TextMap
use aeon_iq_temp.RateLimit.Level.{IsMade}
use aeon_iq_temp.RateLimit.Instant.{IsOn, instant_burst}
use aeon_iq_temp.RateLimit.Window.{Call, admitted, asked, window_bound}
use aeon_iq_temp.UrlGuard.{
  IpAddr, v4, v6, Net, Url, blocked_reason, insecure_urls_allowed, validate_provider_url,
  validate_local_provider_url,
}
use aeon_iq_temp.UrlGuard.Ranges.{IsAddress, in_dev, in_forbidden, blocked_reason-blocks}
use aeon_iq_temp.UrlGuard.Accepts.{
  Found, IsProviderScheme, IsAcceptable, IsLocalScheme, IsLocal, validate_provider_url_iff,
  validate_local_provider_url_iff,
}
use aeon_iq_temp.LogUtils.{byte_len, whole, truncated, truncate_for_log}
use aeon_iq_temp.LogUtils.Slices.{Cuts, truncate_for_log_lem}
use aeon_iq_temp.Tests.Fixtures.{repeat}

-- Sixty requests a minute, two at once.
unfoldable limiter : RateLimiter
unfolding new with_ttl
limiter = new 60 2 0

abbrev alice : Text
alice = codes "alice"

abbrev bob : Text
bob = codes "bob"

abbrev pass : ℕ → Pass
pass t = record { now = t; unlocked = true; order = alice ∷ bob ∷ [] }

abbrev calls : List Call
calls =
    record { agent = alice; pass = pass 5 }
    ∷ record { agent = bob; pass = pass 6 }
    ∷ record { agent = alice; pass = pass 7 }
    ∷ record { agent = alice; pass = pass 8 }
    ∷ []

limiter-IsMade : IsMade 60 2 limiter
unfolding limiter
limiter-IsMade = record { enabled = refl; rate = refl; capacity = refl; in_time = omega arith }

window_bound_example :
    60000000000 * 2 ^ 50 * admitted alice calls limiter
    ≤ 60000000000 * 2 ^ 50 * 2
      + (2 ^ 50 + 1) * ((8 - 0) * 60)
      + 60000000000 * (asked alice calls * (2 + 1))
window_bound_example =
    window_bound 60 2 alice 0 calls limiter limiter-IsMade
      (omega arith, (omega arith, (omega arith, (omega arith, tt))))

abbrev at_once : List Call
at_once =
    record { agent = alice; pass = pass 5 }
    ∷ record { agent = bob; pass = pass 5 }
    ∷ record { agent = alice; pass = pass 5 }
    ∷ record { agent = alice; pass = pass 5 }
    ∷ []

limiter-IsOn : IsOn 2 limiter
unfolding limiter
limiter-IsOn = record {
  enabled = refl;
  capacity = refl;
  small = omega arith;
  patient = omega arith;
}

no_bucket : TextMap.lookup alice limiter.buckets ≡ none
unfolding limiter
no_bucket = refl

instant_burst_example : admitted alice at_once limiter ≡ min (asked alice at_once) 2
instant_burst_example =
    instant_burst 2 5 alice at_once limiter limiter-IsOn (refl, (refl, (refl, (refl, tt))))
      no_bucket

-- Ten requests a minute, one at once: of a call each second the eighth is refused, since six seconds
-- of refilling sum to less than 1.0.
abbrev each_second : ℕ → Call
each_second t = record { agent = alice; pass = pass (t * 1000000000) }

a_second_short :
    admitted alice
      (each_second 0
        ∷ each_second 1
        ∷ each_second 2
        ∷ each_second 3
        ∷ each_second 4
        ∷ each_second 5
        ∷ each_second 6
        ∷ [])
      (new 10 1 0)
    ≡ 1
unfolding admitted check_and_consume new
a_second_short = refl

-- The metadata service, mapped into an IPv6 address.
abbrev metadata : IpAddr
metadata = v6 0 0 0 0 0 65535 43518 43518

abbrev docker : IpAddr
docker = v4 172 17 0 2

blocked_reason-blocks_example :
    (blocked_reason docker ≡ none) ↔ ((in_dev docker || in_forbidden docker) ≡ false)
blocked_reason-blocks_example =
    blocked_reason-blocks docker (omega arith, omega arith, omega arith, omega arith)

abbrev local_url : Url
local_url = record {
  scheme = codes "http";
  host = some (codes "mock");
  port = none;
  text = codes "http://mock/";
}

-- Every text is the URL of one host on a private network.
abbrev net : Net
net = record { parse = λ raw. some local_url; resolve = λ host port. some (docker ∷ []) }

resolves_to_addresses :
    (host : Text) (port : ℕ) (xs : List IpAddr) → net.resolve host port ≡ some xs → All IsAddress xs
resolves_to_addresses host port xs e =
    let this : docker ∷ [] ≡ xs = cc in
    subst (All IsAddress) this ((omega arith, omega arith, omega arith, omega arith), tt)

validate_provider_url_iff_example :
    (validate_provider_url net (some (codes "TRUE")) (codes "http://mock")
      ≡ ok (codes "http://mock/"))
    ↔ Found net
        (codes "http://mock")
        (codes "http://mock/")
        (IsProviderScheme (insecure_urls_allowed (some (codes "TRUE"))))
        (IsAcceptable (insecure_urls_allowed (some (codes "TRUE"))))
validate_provider_url_iff_example =
    validate_provider_url_iff net (some (codes "TRUE")) (codes "http://mock") (codes "http://mock/")
      resolves_to_addresses

validate_local_provider_url_iff_example :
    (validate_local_provider_url net (codes "http://mock") ≡ ok (codes "http://mock/"))
    ↔ Found net (codes "http://mock") (codes "http://mock/") IsLocalScheme IsLocal
validate_local_provider_url_iff_example =
    validate_local_provider_url_iff net (codes "http://mock") (codes "http://mock/")
      resolves_to_addresses

-- 199 bytes, then a character of two.
abbrev accented : Text
accented = repeat 199 b'x' ++ (233 ∷ [])

truncate_for_log_lem_example :
    ((byte_len accented ≤ 200) × (truncate_for_log accented ≡ some (whole accented)))
    ⊎ ((200 < byte_len accented)
        × (((kept : Text) × Cuts 200 accented kept
              × (truncate_for_log accented ≡ some (truncated kept (byte_len accented))))
            ⊎ (((kept : Text) → ¬ Cuts 200 accented kept) × (truncate_for_log accented ≡ none))))
truncate_for_log_lem_example = truncate_for_log_lem accented

-- the double of 0.1, 0x3FB999999999999A
a_tenth : F64.div (F64.of_u32 1) (F64.of_u32 10) ≡ 0x1999999999999a * 2 ^ 1018
unfolding F64.div F64.of_u32
a_tenth = refl
