-- ===== src/Tenancy/Audit/Checks.antt =====
-- Checks of an entry in src/tenancy/audit.rs: what one tells, how two join, and that a ready tranche
-- means that the checks of its entries passed.
use mathlib.Core.Path.{ap₂}
use aeon_iq_temp.Common.{
  all_append, is_empty_append, Bool, true, false, ◌&&◌, ◌||◌, List, [], ◌∷◌, ◌++◌, Text,
  text_eq_refl, any, all, is_empty, ◌≡◌, inl, inr, refl, sym, ap, ◌∙◌, arith, IsIn, filter-IsIn,
  ==_refl,
}
use aeon_iq_temp.Tenancy.Plan.Kinds.{tranche_eq, rank}
use aeon_iq_temp.Tenancy.Audit.Registry.{TableEntry}
use aeon_iq_temp.Tenancy.Audit.Findings.{Finding}
use aeon_iq_temp.Tenancy.Audit.Relationships.{check_that, Checked, both}
use aeon_iq_temp.Tenancy.Audit.Readiness.{is_global, is_held, tables_in, TrancheReadiness}
use aeon_iq_temp.Tenancy.Audit.Verdicts.{holds_back}

-- A check passes exactly when a condition holds, it finds nothing exactly when it passes, and all
-- it finds is held against an entry.
abbrev pub Tells : TableEntry → Checked → Bool → Type 0
Tells e c b = (c.0 ≡ b) × (is_empty c.1 ≡ c.0) × (all (is_held e) c.1 ≡ true)

pub both-Tells :
    (e : TableEntry) (c d : Checked) (a b : Bool)
    → Tells e c a
    → Tells e d b
    → Tells e (both c d) (a && b)
both-Tells e (x, xs) (y, ys) a b (p, q, r) (p', q', r') = (
  ap₂ (◌&&◌) p p',
  is_empty_append xs ys ∙ ap₂ (◌&&◌) q q',
  all_append (is_held e) xs ys ∙ ap₂ (◌&&◌) r r',
)

pub check_that-Tells :
    (e : TableEntry) (good : Bool) (diagnostic : Text)
    → Tells e (check_that e.table good diagnostic) good
check_that-Tells e true diagnostic = (refl, refl, refl)
check_that-Tells e false diagnostic = (refl, refl, ground (arith, text_eq_refl e.table))

held_in :
    (e : TableEntry) (entries : List TableEntry) (f : Finding)
    → IsIn e entries
    → is_held e f ≡ true
    → any (λ e. is_held e f) entries ≡ true
held_in e [] f m h = absurd m
held_in e (x ∷ entries) f (inl here) h =
    let this : is_held x f ≡ true = ap (λ y. is_held y f) here ∙ h in
    ap (λ b. b || any (λ e. is_held e f) entries) this
held_in e (x ∷ entries) f (inr later) h =
    or_true (is_held x f) (any (λ e. is_held e f) entries) (held_in e entries f later h)
  where
    or_true : (a b : Bool) → b ≡ true → (a || b) ≡ true
    or_true a b h = ground arith

quiet_empty :
    (registry : List TableEntry) (e : TableEntry) (r : TrancheReadiness)
    (before xs after : List Finding)
    → IsIn e (tables_in r.tranche registry)
    → all (is_held e) xs ≡ true
    → any (holds_back registry r.tranche) (before ++ (xs ++ after)) ≡ false
    → is_empty xs ≡ true
quiet_empty registry e r [] [] after m g h = refl
quiet_empty registry e r [] (x ∷ xs) after m g h =
    absurd
      (loud (is_held e x) (is_global x) _ _ _ g (held_in e (tables_in r.tranche registry) x m) h)
  where
    loud :
        (a i b c d : Bool) → (a && b) ≡ true → (a ≡ true → c ≡ true) → ((i || c) || d) ≡ false → ⊥
    loud a i b c d g k h = let c_true = k (ground arith) in ground arith
quiet_empty registry e r (f ∷ before) xs after m g h =
    quiet_empty registry e r before xs after m g (ground arith)

-- Among the findings of a tranche that is ready those of a check of one of its entries are none.
pub ready-Tells :
    (registry : List TableEntry) (e : TableEntry) (c : Checked) (b : Bool)
    (before after : List Finding) (r : TrancheReadiness)
    → Tells e c b
    → IsIn e registry
    → r.tranche ≡ e.tranche
    → any (holds_back registry r.tranche) (before ++ (c.1 ++ after)) ≡ false
    → b ≡ true
ready-Tells registry e c b before after r (passes, silent, held) here same quiet =
    let in_tranche : IsIn e (tables_in r.tranche registry) =
      (filter-IsIn (λ (x : TableEntry). tranche_eq x.tranche r.tranche) registry e).1
        (here, ap (λ t. tranche_eq e.tranche t) same ∙ ==_refl (rank e.tranche)) in
    sym passes ∙ sym silent ∙ quiet_empty registry e r before c.1 after in_tranche held quiet
