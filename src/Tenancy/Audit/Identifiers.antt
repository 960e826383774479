-- ===== src/Tenancy/Audit/Identifiers.antt =====
-- The identifier boundary of src/tenancy/audit.rs: what may be written into a query, and how.
use aeon_iq_temp.Common.{
  ℕ, zero, suc, ◌+◌, ◌/◌, ◌%◌, Bool, ◌||◌, [], ◌∷◌, ◌++◌, Text, codes, Result, ok, err, ◌>>=◌, ◌>>◌,
  guard, all, ltb, leb, ◌==◌, if◌then◌else◌, is_ascii_lowercase, is_ascii_digit,
}
use aeon_iq_temp.LogUtils.{byte_len}

pub data UnsafeIdentifier : Type 0 where
  is_empty bad_first bad_char too_long : UnsafeIdentifier

abbrev pub is_first_char : ℕ → Bool
is_first_char c = is_ascii_lowercase c || c == b'_'

abbrev pub is_later_char : ℕ → Bool
is_later_char c = is_ascii_lowercase c || is_ascii_digit c || c == b'_'

abbrev pub quote : ℕ
quote = 34

abbrev pub apostrophe : ℕ
apostrophe = 39

-- `SqlIdentifier::new`: the quoted text is the identifier.
unfoldable pub new_identifier : Text → Result UnsafeIdentifier Text
new_identifier [] = err is_empty
new_identifier (first ∷ rest) = do
  guard (is_first_char first) bad_first
  guard (all is_later_char rest) bad_char
  guard (leb (byte_len (first ∷ rest)) 63) too_long
  ok (quote ∷ (first ∷ rest) ++ quote ∷ [])

-- `SqlIdentifier::on`
unfoldable pub on : Text → Text → Text
on identifier alias = alias ++ codes "." ++ identifier

-- `value.replace('\'', "''")`
abbrev pub escape : Text → Text
escape [] = []
escape (c ∷ s) = (if c == apostrophe then c ∷ c ∷ [] else c ∷ []) ++ escape s

unfoldable pub sql_literal : Text → Text
sql_literal value = apostrophe ∷ escape value ++ apostrophe ∷ []

unfoldable pub parent : Text → Result UnsafeIdentifier Text
unfolding new_identifier
parent table = do identifier ← new_identifier table; ok (codes "public." ++ identifier)

-- The digits of a number, as `{}` prints it: one more step of fuel than the number is enough.
abbrev pub decimal_fuel : ℕ → ℕ → Text
decimal_fuel zero n = []
decimal_fuel (suc fuel) n =
    let rest = decimal_fuel fuel (n / 10) in (if ltb n 10 then [] else rest) ++ (n % 10 + 48) ∷ []

abbrev pub decimal : ℕ → Text
decimal n = decimal_fuel (suc n) n

abbrev pub colon : ℕ
colon = 58

unfoldable pub frame : Text → Text
frame part = decimal (byte_len part) ++ colon ∷ part

abbrev pub row_id_domain : Text
row_id_domain = codes "aeon-tenancy-audit-row-id-v1"

unfoldable pub row_id_preimage : Text → Text → Text
unfolding frame
row_id_preimage table raw = frame row_id_domain ++ frame table ++ frame raw
