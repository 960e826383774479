-- ===== src/LogUtils.antt =====
-- src/log_utils.rs: the part of an upstream body that may stand in a log line. A `&str` is its
-- code points; `none` is a panic. The decimal digits of the marker are left as the number.
use aeon_iq_temp.Common.{
  ℕ, ◌+◌, ◌-◌, Bool, true, false, List, [], ◌∷◌, Option, none, some, Text, ltb, leb, ◌==◌,
  if◌then◌else◌,
}
pub mod Slices

abbrev pub limit : ℕ
limit = 200

-- `char::len_utf8`, `str::len`
abbrev pub len_utf8 : ℕ → ℕ
len_utf8 c = if ltb c 0x80 then 1 else if ltb c 0x800 then 2 else if ltb c 0x10000 then 3 else 4

abbrev pub byte_len : Text → ℕ
byte_len [] = 0
byte_len (c ∷ s) = len_utf8 c + byte_len s

abbrev pub cons_some : ℕ → Option Text → Option Text
cons_some c none = none
cons_some c (some s) = some (c ∷ s)

-- `&body[..n]`, which panics unless the byte `n` is the end of a character
unfoldable pub slice_to : ℕ → Text → Option Text
slice_to n [] = if n == 0 then some [] else none
slice_to n (c ∷ s) =
    let rest = slice_to (n - len_utf8 c) s in
    if n == 0 then some [] else if leb (len_utf8 c) n then cons_some c rest else none

pub data LogText : Type 0 where
  whole : Text → LogText
  truncated : (kept : Text) (total : ℕ) → LogText

abbrev pub marked : ℕ → Option Text → Option LogText
marked total none = none
marked total (some kept) = some (truncated kept total)

unfoldable pub truncate_for_log : Text → Option LogText
unfolding slice_to
truncate_for_log body =
    if leb (byte_len body) limit
    then some (whole body)
    else marked (byte_len body) (slice_to limit body)
