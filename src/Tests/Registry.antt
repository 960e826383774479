-- ===== src/Tests/Registry.antt =====
-- Scopes, secrets, rows and cache entries.
use aeon_iq_temp.Common.{
  zero, suc, trim, is_whitespace, ℕ, ◌+◌, ◌*◌, ◌/◌, ◌%◌, ◌≤◌, ◌<◌, true, not, ◌&&◌, List, [], ◌∷◌,
  ◌++◌, All, any, all, filter, length, min, Text, text_eq, ok, err, some, none, codes, ◌≡◌, ◌≢◌,
  ◌↔◌, ◌⊎◌, refl, arith,
}
use aeon_iq_temp.Common.Assoc
use aeon_iq_temp.Credentials.Cache
use aeon_iq_temp.Credentials.Cache.{Reading, BoundedTtlCache, Entry}
use aeon_iq_temp.Credentials.Cache.Laws.{
  IsValid, IsWithin, insert_evicts_soonest, insert-IsValid, new-IsValid,
}
use aeon_iq_temp.Credentials.Cache.History
use aeon_iq_temp.Credentials.Cache.History.{
  Op, Deposit, Tracks, run, latest, run-Tracks, get_revocation_bound,
}
use aeon_iq_temp.Credentials.Scope
use aeon_iq_temp.Credentials.Scope.{Scope, ScopeSet}
use aeon_iq_temp.Credentials.Scope.Sets.{IsSorted}
use aeon_iq_temp.Credentials.Scope.Grammar.{IsToken}
use aeon_iq_temp.Credentials.Scope.Tokens.{parse_classifies}
use aeon_iq_temp.Credentials.Scope.Lists.{parse_list_sound, parse_list-to_wire}
use aeon_iq_temp.Credentials.Secret
use aeon_iq_temp.Credentials.Secret.{Crypto, PresentedCredential, count, is_lower_hex}
use aeon_iq_temp.Credentials.Secret.Format.{
  Spells, Encodes, parse_presented_iff, issue_verifies, parse_presented_spellings,
}
use aeon_iq_temp.Tests.Fixtures.{
  toy, toy_encode, toy_decode, digit, value, presented, secret_of, repeat,
}

abbrev wire : List Text
wire = codes "memory:write" ∷ codes "memory:read" ∷ []

abbrev both : ScopeSet
both = Scope.memory_read ∷ Scope.memory_write ∷ []

wire_parses : Scope.parse_list wire ≡ ok both
unfolding Scope.parse_list Scope.parse_list_from Scope.parse Scope.as_str Scope.insert Scope.rank
    trim is_whitespace Scope.is_well_formed Scope.split Scope.is_segment
wire_parses = refl

parse_list_sound_example :
    IsSorted both
    × ((q : Scope)
        → Scope.allows both q ≡ (not (Scope.is_reserved q) && any (text_eq (Scope.as_str q)) wire))
    × ((q : Scope)
        → Scope.holds_reserved both q
          ≡ (Scope.is_reserved q && any (text_eq (Scope.as_str q)) wire))
parse_list_sound_example = parse_list_sound wire wire_parses

both-IsSorted : IsSorted both
unfolding Scope.rank
both-IsSorted = ((omega arith, tt), (tt, tt))

parse_list-to_wire_example : Scope.parse_list (Scope.to_wire both) ≡ ok both
parse_list-to_wire_example = parse_list-to_wire both both-IsSorted

parse_classifies_example :
    ((s : Scope)
      → (Scope.parse (codes "audit:read") ≡ ok s) ↔ (codes "audit:read" ≡ Scope.as_str s))
    × ((Scope.parse (codes "audit:read") ≡ err (Scope.unknown (codes "audit:read")))
        ↔ (IsToken (codes "audit:read") × ((s : Scope) → codes "audit:read" ≢ Scope.as_str s)))
parse_classifies_example = parse_classifies (codes "audit:read")

abbrev caller : PresentedCredential
caller = record { credential_id = 1; secret = secret_of }

parse_presented_iff_example :
    (Secret.parse_presented toy presented ≡ ok caller) ↔ Spells toy presented caller
parse_presented_iff_example = parse_presented_iff toy presented caller

encode_len :
    (bytes : List ℕ) → All (λ b. b < 256) bytes → length (toy_encode bytes) ≡ 2 * length bytes
encode_len [] h = omega arith
encode_len (b ∷ bs) h = omega (arith, encode_len bs h.1)

encode_lower :
    (bytes : List ℕ) → All (λ b. b < 256) bytes → all is_lower_hex (toy_encode bytes) ≡ true
encode_lower [] h = refl
encode_lower (b ∷ bs) h =
    let high : is_lower_hex (digit (b / 16)) ≡ true = ground arith in
    let low : is_lower_hex (digit (b % 16)) ≡ true = ground arith in
    rw (high, low) (encode_lower bs h.1)

encode_decode :
    (bytes : List ℕ) → All (λ b. b < 256) bytes → toy_decode (toy_encode bytes) ≡ some bytes
encode_decode [] h = refl
encode_decode (b ∷ bs) h =
    let byte : value (digit (b / 16)) * 16 + value (digit (b % 16)) ≡ b = ground arith in
    rw ((encode_decode bs h.1), byte) refl

toy-Encodes : Encodes toy
toy-Encodes = record {
  format_len = λ id small. refl;
  format_plain = λ id small. ground arith;
  format_parse = λ id small. ground arith;
  encode_len = encode_len;
  encode_lower = encode_lower;
  encode_decode = encode_decode;
}

repeat_octets : (n : ℕ) → All (λ b. b < 256) (repeat n 7)
repeat_octets zero = tt
repeat_octets (suc n) = (omega arith, repeat_octets n)

issue_verifies_example :
    (p : PresentedCredential) × (Secret.parse_presented toy
        (Secret.issue toy [] 1 secret_of).presented
      ≡ ok p)
    × (p.credential_id ≡ (Secret.issue toy [] 1 secret_of).credential_id)
    × (Secret.verify toy [] p (Secret.issue toy [] 1 secret_of).secret_mac ≡ true)
issue_verifies_example =
    issue_verifies toy toy-Encodes [] 1 secret_of (omega arith) (repeat_octets 32) refl

-- An id that the parser reads whatever its letters.
abbrev loose : Crypto
loose = record toy { uuid_parse = λ s. some 1 }

loose_parses :
    Secret.parse_presented loose (repeat 36 b'a' ++ (b'.' ∷ toy_encode secret_of)) ≡ ok caller
unfolding Secret.parse_presented Secret.split_once
loose_parses = refl

parse_presented_spellings_example :
    Secret.parse_presented loose (repeat 36 b'A' ++ (b'.' ∷ toy_encode secret_of)) ≡ ok caller
parse_presented_spellings_example =
    parse_presented_spellings loose (repeat 36 b'a') (repeat 36 b'A') (toy_encode secret_of) caller
      refl (refl, refl) (refl, refl) loose_parses

abbrev at : ℕ → Reading
at t = record { now = t; tick = t }

-- A cache with room for one entry, which holds one.
unfoldable full : BoundedTtlCache ℕ
unfolding Cache.new Cache.insert Cache.make_room Cache.new_entry
full = (Cache.insert 1 42 none (at 5) (Cache.new 1 100)).0

full-IsValid : IsValid full
unfolding full
full-IsValid = insert-IsValid 1 42 none (at 5) (Cache.new 1 100) (new-IsValid 1 100)

abbrev entry : Entry ℕ
entry = record { value = 42; expires_tick = 105; expires_wall = 105 }

insert_evicts_soonest_example :
    (Assoc.lookup 1 (Cache.insert 2 43 none (at 6) full).0.entries ≡ some entry)
    ⊎ (All
          (λ f. entry.expires_tick ≤ f.1.expires_tick)
          (filter (λ f. Cache.is_live_at f.1 (at 6)) full.entries)
        × (full.capacity ≤ length (filter (λ f. Cache.is_live_at f.1 (at 6)) full.entries)))
unfolding full Cache.insert Cache.new Cache.make_room Cache.new_entry Cache.is_live_at
insert_evicts_soonest_example =
    insert_evicts_soonest 2 43 none (at 6) full 1 entry full-IsValid refl (omega arith) refl refl

abbrev history : List (Op ℕ)
history = History.get 1 (at 8) ∷ History.insert 1 42 (some 60) (at 5) ∷ History.invalidate 2 ∷ []

run-Tracks_example : Tracks (min 100 Cache.max_ttl) (run history (Cache.new 1 100)) history
run-Tracks_example = run-Tracks 1 100 history

history_reads : (Cache.get 1 (at 9) (run history (Cache.new 1 100))).1 ≡ ok (some 42)
unfolding run History.step Cache.new Cache.get Cache.get_entry Cache.insert Cache.make_room
    Cache.new_entry Cache.is_live_at Cache.invalidate
history_reads = refl

get_revocation_bound_example :
    (d : Deposit ℕ) × (latest history 1 ≡ some d)
    × (d.value ≡ 42)
    × IsWithin Cache.max_ttl d.bound d.at (at 9)
get_revocation_bound_example = get_revocation_bound 1 100 history 1 (at 9) 42 history_reads
