-- ===== src/Credentials/Scope/Sets.antt =====
-- The ordered set behind `ScopeSet` of src/credentials/scope.rs: `BTreeSet` insertion and lookup
-- on the sorted list, and the loop of `parse_list`.
use mathlib.Core.Path.{subst}
use aeon_iq_temp.Common.{
  ℕ, ◌<◌, true, false, ◌||◌, not, List, [], ◌∷◌, Option, some, Text, text_eq, text_eq_refl,
  text_eq_iff, any, All, ◌==◌, if◌then◌else◌, Result, ok, Bool-cases, Result-cases, inl, inr, ◌≡◌,
  refl, sym, ap, ◌∙◌, arith, ==_refl, ==_iff,
}
use aeon_iq_temp.Credentials.Scope.Tokens.{parse-as_str, parse_classifies}
use aeon_iq_temp.Credentials.Scope.{
  Scope, recall_v2, memory_read, memory_write, memory_export, memory_history, admin, proxy_chat,
  as_str, ScopeError, parse, rank, ScopeSet, insert, contains, parse_list_from,
}

unrank : ℕ → Option Scope
unrank n =
    if n == 0
    then some recall_v2
    else if n == 1
    then some memory_read
    else if n == 2
    then some memory_write
    else if n == 3
    then some memory_export
    else if n == 4
    then some memory_history
    else if n == 5
    then some admin
    else some proxy_chat

unrank-rank : (s : Scope) → unrank (rank s) ≡ some s
unfolding unrank rank
unrank-rank recall_v2 = refl
unrank-rank _ = refl

pub rank-injective : (a b : Scope) → rank a ≡ rank b → a ≡ b
rank-injective a b h = cc (unrank-rank a, unrank-rank b)

-- Strictly ascending: what the iteration order of a `BTreeSet` is.
abbrev pub IsSorted : ScopeSet → Type 0
IsSorted [] = Unit
IsSorted (s ∷ set) = All (λ t. rank s < rank t) set × IsSorted set

All-insert :
    (P : Scope → Type 0) (s : Scope) (set : ScopeSet) → P s → All P set → All P (insert s set).0
unfolding insert
All-insert P s [] p h = (p, tt)
All-insert P s (t ∷ ts) p h = ground (arith, All-insert P s ts p h.1)

All-lt_trans :
    (a b : ℕ) (set : ScopeSet) → a < b → All (λ t. b < rank t) set → All (λ t. a < rank t) set
All-lt_trans a b [] l h = tt
All-lt_trans a b (t ∷ ts) l h = (omega arith, All-lt_trans a b ts l h.1)

pub insert-IsSorted : (s : Scope) (set : ScopeSet) → IsSorted set → IsSorted (insert s set).0
unfolding insert
insert-IsSorted s [] h = (tt, tt)
insert-IsSorted s (t ∷ ts) h = grind (
  arith,
  All-lt_trans (rank s) (rank t) ts,
  All-insert (λ u. rank t < rank u) s ts,
  insert-IsSorted s ts h.1,
)

pub contains-insert :
    (s q : Scope) (set : ScopeSet)
    → contains (insert s set).0 q ≡ (rank s == rank q || contains set q)
unfolding insert contains
contains-insert s q [] = refl
contains-insert s q (t ∷ ts) = ground (arith, contains-insert s q ts)

pub contains_above :
    (s : Scope) (set : ScopeSet) → All (λ t. rank s < rank t) set → contains set s ≡ false
unfolding contains
contains_above s [] h = refl
contains_above s (t ∷ ts) h = ground (arith, contains_above s ts h.1)

-- An element is new exactly when the set does not contain it.
pub insert-fresh :
    (s : Scope) (set : ScopeSet) → IsSorted set → (insert s set).1 ≡ not (contains set s)
unfolding insert contains
insert-fresh s [] h = refl
insert-fresh s (t ∷ ts) h =
    grind (arith, insert-fresh s ts h.1, contains_above s ts, All-lt_trans (rank s) (rank t) ts)

as_str-injective : (q s : Scope) → as_str q ≡ as_str s → q ≡ s
as_str-injective q s e =
    let same : ◌≡◌ {A = Result ScopeError Scope} (ok q) (ok s) =
      sym (parse-as_str q) ∙ ap parse e ∙ parse-as_str s in
    cc

pub as_str-rank : (q s : Scope) → text_eq (as_str q) (as_str s) ≡ (rank s == rank q)
as_str-rank q s = elim (Bool-cases (text_eq (as_str q) (as_str s))) [
  | inl same ↦
      let e = as_str-injective q s ((text_eq_iff (as_str q) (as_str s)).0 same) in
      rw same (rw e (sym (==_refl (rank s))))
  | inr other ↦ elim (Bool-cases (rank s == rank q)) [
    | inl same ↦
        let e = rank-injective s q ((==_iff (rank s) (rank q)).0 same) in
        let t : text_eq (as_str q) (as_str s) ≡ true = rw e (text_eq_refl (as_str q)) in cc
    | inr apart ↦ other ∙ sym apart
  ]
]

-- One round of the loop of `parse_list`.
pub parse_list_step :
    (acc : ScopeSet) (token : Text) (raw : List Text) (set : ScopeSet)
    → parse_list_from acc (token ∷ raw) ≡ ok set
    → (s : Scope) × (token ≡ as_str s)
      × ((insert s acc).1 ≡ true)
      × (parse_list_from (insert s acc).0 raw ≡ ok set)
unfolding parse_list_from
parse_list_step acc token raw set h = elim (Result-cases (parse token)) [
  | inl (s, e) ↦ (s, ((parse_classifies token).0 s).0 e, ground arith, ground arith)
  | inr (x, e) ↦ absurd (ground arith)
]

pub parse_list_from_sound :
    (raw : List Text) (acc set : ScopeSet)
    → IsSorted acc
    → parse_list_from acc raw ≡ ok set
    → IsSorted set
      × ((q : Scope) → contains set q ≡ (contains acc q || any (text_eq (as_str q)) raw))
parse_list_from_sound [] acc set h e =
    unfold parse_list_from in
    (let same : acc ≡ set = ground arith in (subst IsSorted same h, λ q. ground arith))
parse_list_from_sound (token ∷ raw) acc set h e =
    let (s, spelled, fresh, rest) = parse_list_step acc token raw set e in
    let (sorted, members) =
      parse_list_from_sound raw (insert s acc).0 set (insert-IsSorted s acc h) rest in
    (sorted, λ q. rw spelled (ground (arith, members q, contains-insert s q acc, as_str-rank q s)))

-- Two sets with the same elements are the same list.
pub sorted_unique :
    (a b : ScopeSet) → IsSorted a → IsSorted b → ((q : Scope) → contains a q ≡ contains b q) → a ≡ b
unfolding contains
sorted_unique [] [] ha hb h = refl
sorted_unique [] (t ∷ b) ha hb h = absurd (ground (arith, h t))
sorted_unique (s ∷ a) [] ha hb h = absurd (ground (arith, h s))
sorted_unique (s ∷ a) (t ∷ b) ha hb h =
    let heads : rank s ≡ rank t = grind (
      arith,
      h s,
      h t,
      contains_above s b,
      contains_above t a,
      All-lt_trans (rank s) (rank t) b,
      All-lt_trans (rank t) (rank s) a,
    ) in
    let e = rank-injective s t heads in
    let tails = sorted_unique a b ha.1 hb.1 (λ q. elim (Bool-cases (rank s == rank q)) [
      | inl same ↦
          let q_is = rank-injective s q ((==_iff (rank s) (rank q)).0 same) in
          subst (λ x. contains a x ≡ contains b x) q_is
            (contains_above s a ha.0 ∙ sym (contains_above s b (rw e hb.0)))
      | inr other ↦ ground (arith, h q)
    ]) in
    cc
