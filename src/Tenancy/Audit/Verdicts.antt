-- ===== src/Tenancy/Audit/Verdicts.antt =====
-- What readiness means in src/tenancy/audit.rs: the findings that hold a tranche back.
use mathlib.Core.Path.{ap₂, subst}
use aeon_iq_temp.Common.{
  is_empty_append, Bool, true, false, not, ◌&&◌, ◌||◌, List, [], ◌∷◌, ◌++◌, map, Text, any, filter,
  is_empty, ltb, ◌≡◌, inl, inr, refl, sym, ap, ◌∙◌, arith, Bool-cases, IsIn,
}
use aeon_iq_temp.Tenancy.Plan.Kinds.{Tranche, all_tranches}
use aeon_iq_temp.Tenancy.Audit.Codes.{is_blocking}
use aeon_iq_temp.Tenancy.Audit.Registry.{TableEntry}
use aeon_iq_temp.Tenancy.Audit.Findings.{Finding}
use aeon_iq_temp.Tenancy.Audit.Readiness.{
  insert_sorted, sort, drop_repeat, dedup, is_global, global_reasons, global_line, is_held,
  entry_reasons, entries_reasons, TrancheReadiness, reason_line, tables_in, assess_tranche,
  assess_tranches, is_blocking_finding, blocking_count, is_blocked,
}

insert_nonempty : (x : Text) (xs : List Text) → is_empty (insert_sorted x xs) ≡ false
insert_nonempty x [] = refl
insert_nonempty x (y ∷ ys) = ground arith

sort_empty : (xs : List Text) → is_empty (sort xs) ≡ is_empty xs
sort_empty [] = refl
sort_empty (x ∷ xs) = insert_nonempty x (sort xs)

drop_nonempty : (x : Text) (xs : List Text) → is_empty (drop_repeat x xs) ≡ false
drop_nonempty x [] = refl
drop_nonempty x (y ∷ ys) = ground arith

dedup_empty : (xs : List Text) → is_empty (dedup xs) ≡ is_empty xs
dedup_empty [] = refl
dedup_empty (x ∷ xs) = drop_nonempty x (dedup xs)

lines_empty :
    (line : Finding → Text) (p : Finding → Bool) (findings : List Finding)
    → is_empty (map line (filter p findings)) ≡ not (any p findings)
lines_empty line p [] = refl
lines_empty line p (f ∷ findings) = elim (Bool-cases (p f)) [
  | inl hit ↦ rw hit refl
  | inr miss ↦ rw miss (lines_empty line p findings)
]

any_or :
    (p q : Finding → Bool) (findings : List Finding)
    → any (λ f. p f || q f) findings ≡ (any p findings || any q findings)
any_or p q [] = refl
any_or p q (f ∷ findings) = let rest = any_or p q findings in ground arith

-- A finding that holds the tranche back: a blocking one that says that the inventory cannot be
-- trusted, or one that is held against a table of the tranche.
abbrev pub holds_back : List TableEntry → Tranche → Finding → Bool
holds_back registry t f = is_global f || any (λ e. is_held e f) (tables_in t registry)

no_findings : (findings : List Finding) → any (λ f. false) findings ≡ false
no_findings [] = refl
no_findings (f ∷ findings) = no_findings findings

not_or : (a b : Bool) → (not a && not b) ≡ not (a || b)
not_or true b = refl
not_or false b = refl

entries_empty :
    (findings : List Finding) (entries : List TableEntry)
    → is_empty (entries_reasons findings entries)
      ≡ not (any (λ f. any (λ e. is_held e f) entries) findings)
entries_empty findings [] = sym (ap not (no_findings findings))
entries_empty findings (e ∷ entries) =
    let rest = entries_empty findings entries in
    is_empty_append (entry_reasons findings e) (entries_reasons findings entries)
    ∙ ap₂ (◌&&◌) (lines_empty (λ f. reason_line e.table f.reason_code) (is_held e) findings) rest
    ∙ not_or (any (is_held e) findings) (any (λ f. any (λ e. is_held e f) entries) findings)
    ∙ ap not (sym (any_or (is_held e) (λ f. any (λ e. is_held e f) entries) findings))

ready_lem :
    (registry : List TableEntry) (findings : List Finding) (t : Tranche)
    → (assess_tranche registry findings t).ready ≡ not (any (holds_back registry t) findings)
unfolding assess_tranche global_reasons
ready_lem registry findings t =
    let global = map global_line (filter is_global findings) in
    let own = entries_reasons findings (tables_in t registry) in
    dedup_empty (sort (dedup (sort global) ++ own))
    ∙ sort_empty (dedup (sort global) ++ own)
    ∙ is_empty_append (dedup (sort global)) own
    ∙ ap₂ (◌&&◌)
        (dedup_empty (sort global) ∙ sort_empty global ∙ lines_empty global_line is_global findings)
        (entries_empty findings (tables_in t registry))
    ∙ not_or (any is_global findings)
        (any (λ f. any (λ e. is_held e f) (tables_in t registry)) findings)
    ∙ ap not (sym (any_or is_global (λ f. any (λ e. is_held e f) (tables_in t registry)) findings))

IsIn-map :
    (f : Tranche → TrancheReadiness) (ts : List Tranche) (r : TrancheReadiness)
    → IsIn r (map f ts)
    → (t : Tranche) × (f t ≡ r)
IsIn-map f [] r m = absurd m
IsIn-map f (t ∷ ts) r (inl here) = (t, here)
IsIn-map f (t ∷ ts) r (inr later) = IsIn-map f ts r later

held_blocks : (e : TableEntry) (f : Finding) → is_blocking f.severity ≡ false → is_held e f ≡ false
held_blocks e f calm = ground arith

none_held :
    (entries : List TableEntry) (f : Finding)
    → is_blocking f.severity ≡ false
    → any (λ e. is_held e f) entries ≡ false
none_held [] f calm = refl
none_held (e ∷ entries) f calm = ap₂ (◌||◌) (held_blocks e f calm) (none_held entries f calm)

unheld :
    (registry : List TableEntry) (t : Tranche) (findings : List Finding)
    → any is_blocking_finding findings ≡ false
    → any (holds_back registry t) findings ≡ false
unheld registry t [] h = refl
unheld registry t (f ∷ findings) h =
    let calm : is_blocking f.severity ≡ false = ground arith in
    let quiet : is_global f ≡ false = ground arith in
    ap₂ (◌||◌) (ap₂ (◌||◌) quiet (none_held (tables_in t registry) f calm))
      (unheld registry t findings (ground arith))

none_blocking :
    (findings : List Finding) → ltb 0 (blocking_count findings) ≡ any is_blocking_finding findings
none_blocking [] = refl
none_blocking (f ∷ findings) =
    let rest = none_blocking findings in
    elim (Bool-cases (is_blocking f.severity)) [
      | inl hit ↦ rw hit (ground arith)
      | inr miss ↦ rw miss rest
    ]

-- Whatever the registry and the findings, a tranche is assessed as ready exactly when no finding
-- holds it back, whichever order the findings came in, and exactly when no reason is listed. When
-- the report is not blocked every tranche is ready.
pub assess_tranches_lem :
    (registry : List TableEntry) (findings : List Finding) (r : TrancheReadiness)
    → IsIn r (assess_tranches registry findings)
    → (r.ready ≡ not (any (holds_back registry r.tranche) findings))
      × (r.ready ≡ is_empty r.blocking_reasons)
      × (is_blocked findings ≡ false → r.ready ≡ true)
unfolding assess_tranches assess_tranche
assess_tranches_lem registry findings r m =
    let (t, e) = IsIn-map (assess_tranche registry findings) all_tranches r m in
    let settled = ready_lem registry findings t in
    subst
      (λ (r : TrancheReadiness).
        (r.ready ≡ not (any (holds_back registry r.tranche) findings))
        × (r.ready ≡ is_empty r.blocking_reasons)
        × (is_blocked findings ≡ false → r.ready ≡ true))
      e
      (
        settled,
        refl,
        λ calm. settled ∙ ap not (unheld registry t findings (sym (none_blocking findings) ∙ calm)),
      )

-- Nothing holds back a tranche that is ready.
pub ready_quiet :
    (registry : List TableEntry) (findings : List Finding) (r : TrancheReadiness)
    → IsIn r (assess_tranches registry findings)
    → r.ready ≡ true
    → any (holds_back registry r.tranche) findings ≡ false
ready_quiet registry findings r m ready =
    let (settled, _, _) = assess_tranches_lem registry findings r m in
    not_true (any (holds_back registry r.tranche) findings) (sym settled ∙ ready)
  where
    not_true : (b : Bool) → not b ≡ true → b ≡ false
    not_true b h = ground arith
