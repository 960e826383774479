-- ===== src/Credentials/Scope.antt =====
-- src/credentials/scope.rs: the canonical capability tokens and the sets of them that a
-- credential holds. `BTreeSet<Scope>` is the list of its elements in `Ord` order, which for a
-- derived `Ord` is the order of the declaration.
use aeon_iq_temp.Common.{
  ℕ, Bool, true, false, not, ◌&&◌, ◌||◌, List, [], ◌∷◌, map, Option, none, some, Text, codes,
  text_eq, trim, any, all, find, is_empty, is_ascii_uppercase, is_ascii_lowercase, is_ascii_digit,
  ltb, ◌==◌, if◌then◌else◌, Result, ok, err, ◌>>=◌, ok_or,
}
pub mod Grammar
pub mod Tokens
pub mod Sets
pub mod Lists

pub data Scope : Type 0 where
  recall_v2 memory_read memory_write memory_export memory_history admin proxy_chat : Scope

abbrev pub canonical_scopes : List Scope
canonical_scopes =
    recall_v2 ∷ memory_read ∷ memory_write ∷ memory_export ∷ memory_history ∷ admin ∷ proxy_chat
    ∷ []

unfoldable pub as_str : Scope → Text
as_str recall_v2 = codes "recall:v2"
as_str memory_read = codes "memory:read"
as_str memory_write = codes "memory:write"
as_str memory_export = codes "memory:export"
as_str memory_history = codes "memory:history"
as_str admin = codes "admin"
as_str proxy_chat = codes "proxy:chat"

unfoldable pub is_reserved : Scope → Bool
is_reserved proxy_chat = true
is_reserved _ = false

pub data ScopeError : Type 0 where
  unknown : Text → ScopeError
  duplicate : Text → ScopeError
  malformed : (raw why : Text) → ScopeError

-- `str::split` on one character: always at least one segment
cons_head : ℕ → List Text → List Text
cons_head c [] = (c ∷ []) ∷ []
cons_head c (x ∷ xs) = (c ∷ x) ∷ xs

unfoldable pub split : ℕ → Text → List Text
unfolding cons_head
split sep [] = [] ∷ []
split sep (c ∷ s) = let rest = split sep s in if c == sep then [] ∷ rest else cons_head c rest

-- the closure `ok` of `is_well_formed`
unfoldable pub is_segment : Text → Bool
is_segment s = not (is_empty s) && all (λ c. is_ascii_lowercase c || is_ascii_digit c) s

well_formed_segments : List Text → Bool
well_formed_segments [] = false
well_formed_segments (first ∷ []) = is_segment first
well_formed_segments (first ∷ second ∷ []) = is_segment first && is_segment second
well_formed_segments (first ∷ second ∷ third ∷ rest) = false

unfoldable pub is_well_formed : Text → Bool
unfolding well_formed_segments
is_well_formed raw = well_formed_segments (split b':' raw)

unfoldable pub parse : Text → Result ScopeError Scope
parse raw =
    if is_empty raw
    then err (malformed raw (codes "empty"))
    else if not (text_eq (trim raw) raw)
    then err (malformed raw (codes "surrounding whitespace"))
    else if any is_ascii_uppercase raw
    then err (malformed raw (codes "scopes are lowercase"))
    else if not (is_well_formed raw)
    then err (malformed raw (codes "expected `<resource>` or `<resource>:<action>` of [a-z0-9]"))
    else ok_or (find (λ s. text_eq (as_str s) raw) canonical_scopes) (unknown raw)

-- The position in the derived order.
unfoldable pub rank : Scope → ℕ
rank recall_v2 = 0
rank memory_read = 1
rank memory_write = 2
rank memory_export = 3
rank memory_history = 4
rank admin = 5
rank proxy_chat = 6

abbrev pub ScopeSet : Type 0
ScopeSet = List Scope

-- `BTreeSet::insert`: the new set, and whether the element was new
unfoldable pub insert : Scope → ScopeSet → ScopeSet × Bool
insert s [] = (s ∷ [], true)
insert s (t ∷ ts) =
    let rest = insert s ts in
    if ltb (rank s) (rank t)
    then (s ∷ t ∷ ts, true)
    else if rank s == rank t
    then (t ∷ ts, false)
    else (t ∷ rest.0, rest.1)

-- `BTreeSet::contains`
unfoldable pub contains : ScopeSet → Scope → Bool
contains [] s = false
contains (t ∷ ts) s = rank t == rank s || contains ts s

-- the loop of `parse_list`
unfoldable pub parse_list_from : ScopeSet → List Text → Result ScopeError ScopeSet
parse_list_from set [] = ok set
parse_list_from set (token ∷ raw) = do
  scope ← parse token
  let (set', fresh) = insert scope set
  if fresh then parse_list_from set' raw else err (duplicate token)

unfoldable pub parse_list : List Text → Result ScopeError ScopeSet
parse_list raw = parse_list_from [] raw

unfoldable pub allows : ScopeSet → Scope → Bool
allows set scope = not (is_reserved scope) && contains set scope

unfoldable pub holds_reserved : ScopeSet → Scope → Bool
holds_reserved set scope = is_reserved scope && contains set scope

unfoldable pub to_wire : ScopeSet → List Text
to_wire set = map as_str set
