-- ===== src/Credentials/Mode.antt =====
-- src/credentials/context.rs: which recall endpoint a credential may use.
use aeon_iq_temp.Common.{
  Text, codes, text_eq, text_eq_iff, if◌then◌else◌, Result, ok, err, ◌≡◌, ◌↔◌, refl, arith,
}

pub data CredentialMode : Type 0 where
  legacy_only v2_required : CredentialMode

pub data ModeError : Type 0 where
  mode_error : Text → ModeError

unfoldable pub as_str : CredentialMode → Text
as_str legacy_only = codes "legacy_only"
as_str v2_required = codes "v2_required"

unfoldable pub parse : Text → Result ModeError CredentialMode
parse raw =
    if text_eq raw (codes "legacy_only")
    then ok legacy_only
    else if text_eq raw (codes "v2_required")
    then ok v2_required
    else err (mode_error raw)

pub parse-as_str : (m : CredentialMode) → parse (as_str m) ≡ ok m
unfolding parse as_str
parse-as_str legacy_only = refl
parse-as_str v2_required = refl

-- `parse` accepts exactly the two wire forms.
pub parse-eq-ok : (raw : Text) (m : CredentialMode) → (parse raw ≡ ok m) ↔ (raw ≡ as_str m)
unfolding parse as_str
parse-eq-ok raw m = (forth m, λ e. rw e (parse-as_str m))
  where
    forth : (m : CredentialMode) → parse raw ≡ ok m → raw ≡ as_str m
    forth legacy_only h = ground (arith, text_eq_iff raw (codes "legacy_only"))
    forth v2_required h = ground (arith, text_eq_iff raw (codes "v2_required"))
