-- ===== src/UrlGuard/Ranges.antt =====
-- The addresses that src/url_guard.rs blocks, as address blocks: a prefix and its length.
use aeon_iq_temp.Common.{
  ℕ, ◌+◌, ◌*◌, ◌%◌, ◌/◌, ◌<◌, Bool, true, false, ◌&&◌, ◌||◌, Option, none, some, Text, ◌==◌,
  if◌then◌else◌, ◌≡◌, ◌↔◌, sym, arith,
}
use aeon_iq_temp.UrlGuard.{
  IpAddr, v4, v6, v4_is_link_local, v4_is_unspecified, v4_is_multicast, v4_blocked_reason,
  v4_is_dev_allowed, blocked_reason, is_dev_allowed, octet₀, octet₁, and_c0, is_unique_local,
  is_ipv4_mapped, v6_is_loopback, v6_is_unspecified, v6_is_multicast,
}

-- An IPv4 address as a number of 32 bits.
abbrev pub v4_bits : ℕ → ℕ → ℕ → ℕ → ℕ
v4_bits a b c d = a * 16777216 + b * 65536 + c * 256 + d

-- Its blocks: 127.0.0.0/8, 10.0.0.0/8, 172.16.0.0/12 and 192.168.0.0/16, which the development
-- flag opens, and 169.254.0.0/16, 0.0.0.0 and 224.0.0.0/4, which it does not.
abbrev pub in_dev_blocks : ℕ → Bool
in_dev_blocks n =
    n / 16777216 == 127 || n / 16777216 == 10 || n / 1048576 == 2753 || n / 65536 == 49320

abbrev pub in_forbidden_blocks : ℕ → Bool
in_forbidden_blocks n = n / 65536 == 43518 || n == 0 || n / 268435456 == 14

abbrev pub in_dev : IpAddr → Bool
in_dev (v4 a b c d) = in_dev_blocks (v4_bits a b c d)
in_dev (v6 s₀ s₁ s₂ s₃ s₄ s₅ s₆ s₇) =
    v6_is_loopback s₀ s₁ s₂ s₃ s₄ s₅ s₆ s₇
    || s₀ / 512 == 126
    || (is_ipv4_mapped s₀ s₁ s₂ s₃ s₄ s₅ s₆ s₇ && in_dev_blocks (s₆ * 65536 + s₇))

abbrev pub in_forbidden : IpAddr → Bool
in_forbidden (v4 a b c d) = in_forbidden_blocks (v4_bits a b c d)
in_forbidden (v6 s₀ s₁ s₂ s₃ s₄ s₅ s₆ s₇) =
    v6_is_unspecified s₀ s₁ s₂ s₃ s₄ s₅ s₆ s₇
    || s₀ / 256 == 255
    || s₀ / 64 == 1018
    || (is_ipv4_mapped s₀ s₁ s₂ s₃ s₄ s₅ s₆ s₇ && in_forbidden_blocks (s₆ * 65536 + s₇))

-- Octets are bytes, and segments are pairs of them.
abbrev pub IsAddress : IpAddr → Type 0
IsAddress (v4 a b c d) = (a < 256) × (b < 256) × (c < 256) × (d < 256)
IsAddress (v6 s₀ s₁ s₂ s₃ s₄ s₅ s₆ s₇) =
    (s₀ < 65536)
    × (s₁ < 65536)
    × (s₂ < 65536)
    × (s₃ < 65536)
    × (s₄ < 65536)
    × (s₅ < 65536)
    × (s₆ < 65536)
    × (s₇ < 65536)

module _ (a b c d : ℕ) (a_is : a < 256) (b_is : b < 256) (c_is : c < 256) (d_is : d < 256) where
  v4_dev_blocks : v4_is_dev_allowed a b c d ≡ in_dev_blocks (v4_bits a b c d)
  v4_dev_blocks = ground arith

  v4_forbidden_blocks :
      (v4_is_link_local a b c d || v4_is_unspecified a b c d || v4_is_multicast a b c d)
      ≡ in_forbidden_blocks (v4_bits a b c d)
  v4_forbidden_blocks = ground arith

  v4_blocked : (v4_blocked_reason a b c d ≡ none) ↔ (
      (v4_is_dev_allowed a b c d
        || (v4_is_link_local a b c d || v4_is_unspecified a b c d || v4_is_multicast a b c d))
      ≡ false)
  unfolding v4_blocked_reason
  v4_blocked = ground arith

  v4_blocks :
      (v4_blocked_reason a b c d ≡ none)
      ↔ ((in_dev_blocks (v4_bits a b c d) || in_forbidden_blocks (v4_bits a b c d)) ≡ false)
  v4_blocks = rw (sym v4_dev_blocks, sym v4_forbidden_blocks) v4_blocked

split_bits : (s t : ℕ) → v4_bits (s / 256) (s % 256) (t / 256) (t % 256) ≡ s * 65536 + t
split_bits s t = omega arith

link_local_segment :
    (s : ℕ) → s < 65536 → (octet₀ s == 0xfe && and_c0 (octet₁ s) == 0x80) ≡ (s / 64 == 1018)
link_local_segment s h = ground arith

unique_local_segment : (s : ℕ) → s < 65536 → is_unique_local s ≡ (s / 512 == 126)
unique_local_segment s h = ground arith

-- The development flag opens exactly the loopback, private and unique-local blocks, those of an
-- IPv4 address also where it stands mapped inside an IPv6 address.
pub is_dev_allowed-blocks : (x : IpAddr) → IsAddress x → is_dev_allowed x ≡ in_dev x
unfolding is_dev_allowed
is_dev_allowed-blocks (v4 a b c d) (ha, hb, hc, hd) = v4_dev_blocks a b c d ha hb hc hd
is_dev_allowed-blocks (v6 s₀ s₁ s₂ s₃ s₄ s₅ s₆ s₇) (h₀, h₁, h₂, h₃, h₄, h₅, h₆, h₇) =
    let bytes =
      v4_dev_blocks (s₆ / 256) (s₆ % 256) (s₇ / 256) (s₇ % 256) (omega arith) (omega arith)
        (omega arith) (omega arith) in
    rw (bytes, split_bits s₆ s₇, unique_local_segment s₀ h₀) (ground arith)

-- The tests of the IPv6 arm, in its order, against the blocks.
chain_lem :
    (l u m k n e dev bad : Bool) (tl tu tm tk tn : Text) (rest : Option Text)
    → (rest ≡ none) ↔ ((dev || bad) ≡ false)
    → ((if l
          then some tl
          else if u
          then some tu
          else if m
          then some tm
          else if k
          then some tk
          else if n
          then some tn
          else if e
          then rest
          else none)
        ≡ none)
      ↔ (((l || n || (e && dev)) || (u || m || k || (e && bad))) ≡ false)
chain_lem true u m k n e dev bad tl tu tm tk tn rest h = ground arith
chain_lem false true m k n e dev bad tl tu tm tk tn rest h = ground arith
chain_lem false false true k n e dev bad tl tu tm tk tn rest h = ground arith
chain_lem false false false true n e dev bad tl tu tm tk tn rest h = ground arith
chain_lem false false false false true e dev bad tl tu tm tk tn rest h = ground arith
chain_lem false false false false false true dev bad tl tu tm tk tn rest h = h
chain_lem false false false false false false dev bad tl tu tm tk tn rest h = ground arith

-- An address is let through without the flag exactly when it lies in none of the loopback,
-- link-local, private, unique-local, unspecified and multicast blocks, those of an IPv4 address
-- also where it stands mapped inside an IPv6 address.
pub blocked_reason-blocks :
    (x : IpAddr) → IsAddress x → (blocked_reason x ≡ none) ↔ ((in_dev x || in_forbidden x) ≡ false)
unfolding blocked_reason
blocked_reason-blocks (v4 a b c d) (ha, hb, hc, hd) = v4_blocks a b c d ha hb hc hd
blocked_reason-blocks (v6 s₀ s₁ s₂ s₃ s₄ s₅ s₆ s₇) (h₀, h₁, h₂, h₃, h₄, h₅, h₆, h₇) =
    let bytes =
      v4_blocks (s₆ / 256) (s₆ % 256) (s₇ / 256) (s₇ % 256) (omega arith) (omega arith)
        (omega arith) (omega arith) in
    let bytes' = rw (split_bits s₆ s₇) at bytes in
    rw (link_local_segment s₀ h₀, unique_local_segment s₀ h₀)
      (chain_lem (v6_is_loopback s₀ s₁ s₂ s₃ s₄ s₅ s₆ s₇)
        (v6_is_unspecified s₀ s₁ s₂ s₃ s₄ s₅ s₆ s₇) (v6_is_multicast s₀ s₁ s₂ s₃ s₄ s₅ s₆ s₇)
        (s₀ / 64 == 1018) (s₀ / 512 == 126) (is_ipv4_mapped s₀ s₁ s₂ s₃ s₄ s₅ s₆ s₇)
        (in_dev_blocks (s₆ * 65536 + s₇)) (in_forbidden_blocks (s₆ * 65536 + s₇)) _ _ _ _ _ _
        bytes')

-- No address lies both in a block that the flag opens and in one that it does not.
pub blocks_apart : (x : IpAddr) → IsAddress x → (in_dev x && in_forbidden x) ≡ false
blocks_apart (v4 a b c d) h = ground arith
blocks_apart (v6 s₀ s₁ s₂ s₃ s₄ s₅ s₆ s₇) h = ground arith
