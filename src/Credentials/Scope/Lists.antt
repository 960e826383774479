-- ===== src/Credentials/Scope/Lists.antt =====
-- What `ScopeSet::parse_list`, `allows`, `holds_reserved` and `to_wire` of
-- src/credentials/scope.rs promise.
use mathlib.Core.List.{append-nil, append_assoc}
use aeon_iq_temp.Common.{
  ◌<◌, true, false, ◌&&◌, not, List, [], ◌∷◌, Text, text_eq, any, All, ok, ◌≡◌, ◌↔◌, refl, ap, ◌∙◌,
  ◌++◌, arith,
}
use aeon_iq_temp.Credentials.Scope.Tokens.{parse-as_str}
use aeon_iq_temp.Credentials.Scope.Sets.{
  IsSorted, insert-IsSorted, contains-insert, insert-fresh, as_str-rank, parse_list_step,
  parse_list_from_sound, sorted_unique,
}
use aeon_iq_temp.Credentials.Scope.{
  Scope, as_str, is_reserved, rank, ScopeSet, insert, contains, parse_list_from, parse_list, allows,
  holds_reserved, to_wire,
}

-- A list that parses gives the set of exactly its tokens: in ascending order, with a scope
-- allowed exactly when it is not reserved and its token stands in the list. So no scope, `admin`
-- among them, confers another.
pub parse_list_sound :
    (raw : List Text) {set : ScopeSet}
    → parse_list raw ≡ ok set
    → IsSorted set
      × ((q : Scope) → allows set q ≡ (not (is_reserved q) && any (text_eq (as_str q)) raw))
      × ((q : Scope) → holds_reserved set q ≡ (is_reserved q && any (text_eq (as_str q)) raw))
unfolding parse_list allows holds_reserved contains
parse_list_sound raw {set} e =
    let (sorted, members) = parse_list_from_sound raw [] set tt e in
    (sorted, λ q. rw (members q), λ q. rw (members q))

-- The order of the tokens does not matter: two lists with the same tokens give equal sets.
pub parse_list_order :
    (raw raw' : List Text) {set set' : ScopeSet}
    → parse_list raw ≡ ok set
    → parse_list raw' ≡ ok set'
    → ((q : Scope) → any (text_eq (as_str q)) raw ≡ any (text_eq (as_str q)) raw')
    → set ≡ set'
unfolding parse_list
parse_list_order raw raw' {set} {set'} e e' h =
    let (sorted, members) = parse_list_from_sound raw [] set tt e in
    let (sorted', members') = parse_list_from_sound raw' [] set' tt e' in
    sorted_unique set set' sorted sorted' (λ q. ground (arith, members q, members' q, h q))

-- `insert` puts an element above all others at the end.
insert_last :
    (s : Scope) (acc : ScopeSet)
    → All (λ t. rank t < rank s) acc
    → (insert s acc) ≡ (acc ++ (s ∷ []), true)
unfolding insert
insert_last s [] h = refl
insert_last s (t ∷ ts) h = ground (arith, insert_last s ts h.1)

All-snoc :
    (P : Scope → Type 0) (s : Scope) (acc : ScopeSet) → All P acc → P s → All P (acc ++ (s ∷ []))
All-snoc P s [] h p = (p, tt)
All-snoc P s (t ∷ ts) h p = (h.0, All-snoc P s ts h.1 p)

-- Every element of the first list stands below every element of the second.
abbrev Below : ScopeSet → ScopeSet → Type 0
Below acc [] = Unit
Below acc (s ∷ set) = All (λ t. rank t < rank s) acc × Below acc set

Below-snoc :
    (acc : ScopeSet) (s : Scope) (set : ScopeSet)
    → Below acc set
    → All (λ t. rank s < rank t) set
    → Below (acc ++ (s ∷ [])) set
Below-snoc acc s [] h k = tt
Below-snoc acc s (t ∷ set) h k =
    (All-snoc (λ u. rank u < rank t) s acc h.0 k.0, Below-snoc acc s set h.1 k.1)

to_wire_from :
    (acc set : ScopeSet)
    → IsSorted set
    → Below acc set
    → parse_list_from acc (to_wire set) ≡ ok (acc ++ set)
unfolding parse_list_from to_wire
to_wire_from acc [] h b = rw append-nil
to_wire_from acc (s ∷ set) h b =
    rw (parse-as_str s, insert_last s acc b.0)
      (to_wire_from (acc ++ (s ∷ [])) set h.1 (Below-snoc acc s set b.1 h.0)
        ∙ ap ok (append_assoc acc (s ∷ []) set))

Below-nil : (set : ScopeSet) → Below [] set
Below-nil [] = tt
Below-nil (s ∷ set) = (tt, Below-nil set)

-- The wire form of a set parses back to the set.
pub parse_list-to_wire : (set : ScopeSet) → IsSorted set → parse_list (to_wire set) ≡ ok set
unfolding parse_list
parse_list-to_wire set h = to_wire_from [] set h (Below-nil set)

-- No token stands twice in the list.
abbrev pub NoRepeat : List Text → Type 0
NoRepeat [] = Unit
NoRepeat (t ∷ raw) = (any (text_eq t) raw ≡ false) × NoRepeat raw

abbrev pub IsCanonical : Text → Type 0
IsCanonical token = (s : Scope) × (token ≡ as_str s)

-- Each token is canonical and is not yet in the set.
abbrev New : ScopeSet → Text → Type 0
New acc token = (s : Scope) × (token ≡ as_str s) × (contains acc s ≡ false)

New-insert :
    (acc : ScopeSet) (s : Scope) (raw : List Text)
    → any (text_eq (as_str s)) raw ≡ false
    → All (New acc) raw
    → All (New (insert s acc).0) raw
New-insert acc s [] h k = tt
New-insert acc s (t ∷ raw) h ((q, e, n), k) =
    let apart : text_eq (as_str s) (as_str q) ≡ false = rw (← e) (ground arith) in
    (
      (q, e, ground (arith, contains-insert s q acc, as_str-rank s q)),
      New-insert acc s raw (ground arith) k,
    )

New-of-insert :
    (acc : ScopeSet) (s : Scope) (raw : List Text)
    → All (New (insert s acc).0) raw
    → All (New acc) raw × (any (text_eq (as_str s)) raw ≡ false)
New-of-insert acc s [] k = (tt, refl)
New-of-insert acc s (t ∷ raw) ((q, e, n), k) =
    let (rest, none_later) = New-of-insert acc s raw k in
    (
      ((q, e, ground (arith, contains-insert s q acc)), rest),
      rw e (ground (arith, contains-insert s q acc, as_str-rank s q)),
    )

parse_list_from_complete :
    (raw : List Text) (acc : ScopeSet)
    → IsSorted acc
    → All (New acc) raw
    → NoRepeat raw
    → (set : ScopeSet) × (parse_list_from acc raw ≡ ok set)
unfolding parse_list_from
parse_list_from_complete [] acc h k d = (acc, refl)
parse_list_from_complete (t ∷ raw) acc h ((s, e, n), k) d =
    let fresh : (insert s acc).1 ≡ true = rw (insert-fresh s acc h, n) in
    let later : any (text_eq (as_str s)) raw ≡ false = rw (← e) d.0 in
    let (set, done) =
      parse_list_from_complete raw (insert s acc).0 (insert-IsSorted s acc h)
        (New-insert acc s raw later k) d.1 in
    (set, rw (e, parse-as_str s, fresh) done)

parse_list_from-accepts :
    (raw : List Text) (acc set : ScopeSet)
    → IsSorted acc
    → parse_list_from acc raw ≡ ok set
    → All (New acc) raw × NoRepeat raw
parse_list_from-accepts [] acc set h e = (tt, tt)
parse_list_from-accepts (t ∷ raw) acc set h e =
    let (s, spelled, fresh, rest) = parse_list_step acc t raw set e in
    let (news, distinct) =
      parse_list_from-accepts raw (insert s acc).0 set (insert-IsSorted s acc h) rest in
    let (old, later) = New-of-insert acc s raw news in
    (((s, spelled, ground (arith, insert-fresh s acc h)), old), (rw spelled later, distinct))

canonical-New : (raw : List Text) → All IsCanonical raw → All (New []) raw
unfolding contains
canonical-New [] h = tt
canonical-New (t ∷ raw) ((s, e), h) = ((s, e, refl), canonical-New raw h)

New-IsCanonical : (raw : List Text) → All (New []) raw → All IsCanonical raw
New-IsCanonical [] h = tt
New-IsCanonical (t ∷ raw) ((s, e, n), h) = ((s, e), New-IsCanonical raw h)

-- A list is accepted exactly when each of its tokens is canonical and none stands twice: one bad
-- token, or one repeated, refuses the whole list.
pub parse_list_accepts :
    (raw : List Text)
    → ((set : ScopeSet) × (parse_list raw ≡ ok set)) ↔ (All IsCanonical raw × NoRepeat raw)
unfolding parse_list
parse_list_accepts raw = (
  λ r.
      let (set, e) = r in
      let (news, distinct) = parse_list_from-accepts raw [] set tt e in
      (New-IsCanonical raw news, distinct),
  λ h. parse_list_from_complete raw [] tt (canonical-New raw h.0) h.1,
)
