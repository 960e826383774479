-- ===== src/Tests/Fixtures.antt =====
-- A small registry with one credential, and toy versions of the crates that the source calls:
-- an id is formatted as one mark and 35 letters, and the MAC of a message is the message.
use aeon_iq_temp.Common.{
  zero, suc, ℕ, ◌+◌, ◌-◌, ◌*◌, ◌/◌, ◌%◌, true, false, ◌&&◌, List, [], ◌∷◌, ◌++◌, Option, none, some,
  codes, text_eq, leb, if◌then◌else◌,
}
use aeon_iq_temp.Credentials.Mode.{v2_required}
use aeon_iq_temp.Credentials.Scope
use aeon_iq_temp.Credentials.Scope.{ScopeSet}
use aeon_iq_temp.Credentials.Secret.{Crypto}
use aeon_iq_temp.Credentials.Auth
use aeon_iq_temp.Credentials.Auth.{Authenticator, Visit, IssueSpec, Minting}

abbrev pub repeat : ℕ → ℕ → List ℕ
repeat zero c = []
repeat (suc n) c = c ∷ repeat n c

abbrev pub toy_format : ℕ → List ℕ
toy_format id = (1000 + id) ∷ repeat 35 b'a'

abbrev pub toy_parse : List ℕ → Option ℕ
toy_parse [] = none
toy_parse (c ∷ s) = if leb 1000 c && text_eq s (repeat 35 b'a') then some (c - 1000) else none

abbrev pub digit : ℕ → ℕ
digit n = if leb n 9 then b'0' + n else b'a' + n - 10

abbrev pub value : ℕ → ℕ
value c = if leb c b'9' then c - b'0' else c - b'a' + 10

abbrev pub toy_encode : List ℕ → List ℕ
toy_encode [] = []
toy_encode (b ∷ bs) = digit (b / 16) ∷ digit (b % 16) ∷ toy_encode bs

abbrev pub push_byte : ℕ → Option (List ℕ) → Option (List ℕ)
push_byte b none = none
push_byte b (some bs) = some (b ∷ bs)

abbrev pub toy_decode : List ℕ → Option (List ℕ)
toy_decode [] = some []
toy_decode (h ∷ []) = none
toy_decode (h ∷ l ∷ s) = push_byte (value h * 16 + value l) (toy_decode s)

abbrev pub toy : Crypto
toy = record {
  uuid_parse = toy_parse;
  uuid_format = toy_format;
  hex_decode = toy_decode;
  hex_encode = toy_encode;
  hmac_sha256 = λ key message. message;
}

abbrev pub secret_of : List ℕ
secret_of = repeat 32 7

abbrev pub presented : List ℕ
presented = toy_format 1 ++ (b'.' ∷ toy_encode secret_of)

abbrev pub wrong : List ℕ
wrong = toy_format 1 ++ (b'.' ∷ toy_encode (repeat 32 8))

abbrev pub reader : ScopeSet
reader = Scope.memory_read ∷ []

abbrev pub spec : IssueSpec
spec = record {
  tenant_id = 5;
  principal_id = codes "svc";
  mode = v2_required;
  scopes = reader;
  tenant_wide = false;
  expires_at = none;
}

abbrev pub minting : Minting
minting = record { fresh_id = 1; random = secret_of; reachable = true; now = 0 }

abbrev pub visit : ℕ → Visit
visit t = record {
  at = t;
  looked = record { now = t; tick = t };
  stored = record { now = t; tick = t };
  fetch_ok = true;
  touch_ok = true;
}

unfoldable pub bare : Authenticator
unfolding Auth.new
bare = Auth.new [] (repeat 32 9) 4

unfoldable pub issued : Authenticator
unfolding bare Auth.issue
issued = (Auth.issue toy spec minting bare).0
