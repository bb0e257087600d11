-- ===== src/Csrf.antt =====
-- The protection of the web interface in src/confighttp.cpp against requests from other sites: its tokens and
-- the test of a request. Strings are lists of bytes; time is in the clock's ticks.
pub mod Issued
pub mod Origins
mod Tests
use midnight_sun.Prelude.{
  ℕ, ◌+◌, Bool, true, false, not, ◌&&◌, ◌||◌, Option, none, some, List, [], ◌∷◌, ltb, ◌==◌,
  if◌then◌else◌,
}
use midnight_sun.Prelude.Maps.{Bytes, eq_bytes, find, erase}

-- `csrf_token_t`
pub record Token : Type 0 where
  pub token : Bytes
  pub expiration : ℕ

-- `csrf_tokens`
abbrev pub Tokens : Type 0
Tokens = List (Bytes × Token)

abbrev pub keep_fresh : (now : ℕ) → Tokens → Tokens
keep_fresh now [] = []
keep_fresh now ((client, t) ∷ tokens) =
    let rest = keep_fresh now tokens in if ltb t.expiration now then rest else (client, t) ∷ rest

abbrev pub assign : Bytes → Token → Tokens → Tokens
assign client t [] = (client, t) ∷ []
assign client t ((k, u) ∷ tokens) =
    let rest = assign client t tokens in
    if eq_bytes k client then (k, t) ∷ tokens else (k, u) ∷ rest

-- `token` is what `crypto::rand_alphabet` gives, and `lifetime` is CSRF_TOKEN_LIFETIME.
unfoldable pub generate_csrf_token : (lifetime now : ℕ) → (client token : Bytes) → Tokens → Tokens
generate_csrf_token lifetime now client token tokens =
    assign client (record { token = token; expiration = now + lifetime }) (keep_fresh now tokens)

pub data Verdict : Type 0 where
  allowed invalid_token expired_token missing_token : Verdict

unfoldable pub validate_stored_csrf_token :
    (now : ℕ) → (client provided : Bytes) → Tokens → Tokens × Verdict
validate_stored_csrf_token now client provided tokens = elim (find client tokens) [
  | none ↦ (tokens, invalid_token)
  | some t ↦
      if ltb t.expiration now
      then (erase client tokens, expired_token)
      else if not (eq_bytes t.token provided)
      then (tokens, invalid_token)
      else (tokens, allowed)
]

-- What follows a prefix, if the text has it.
abbrev pub strip : (prefix text : Bytes) → Option Bytes
strip [] text = some text
strip (p ∷ ps) [] = none
strip (p ∷ ps) (t ∷ ts) = let rest = strip ps ts in if t == p then rest else none

-- The URL is the origin, or goes on with ':' or '/' after it.
abbrev pub ends_origin : Bytes → Bool
ends_origin [] = true
ends_origin (ch ∷ rest) = ch == b':' || ch == b'/'

abbrev pub has_origin : (url origin : Bytes) → Bool
has_origin url origin = elim (strip origin url) [ none ↦ false | some rest ↦ ends_origin rest ]

unfoldable pub is_allowed_origin : List Bytes → (url : Bytes) → Bool
is_allowed_origin [] url = false
is_allowed_origin (origin ∷ origins) url = has_origin url origin || is_allowed_origin origins url

-- The headers and the parameter of the query that the test reads.
pub record Request : Type 0 where
  pub origin : Option Bytes
  pub referer : Option Bytes
  pub header_token : Option Bytes  -- X-CSRF-Token
  pub query_token : Option Bytes  -- csrf_token

abbrev pub is_allowed_header : List Bytes → Option Bytes → Bool
is_allowed_header origins none = false
is_allowed_header origins (some url) = is_allowed_origin origins url

abbrev pub is_absent : Option Bytes → Bool
is_absent none = true
is_absent (some url) = false

unfoldable pub validate_csrf_token :
    (origins : List Bytes) → (now : ℕ) → (client : Bytes) → Request → Tokens → Tokens × Verdict
unfolding validate_stored_csrf_token
validate_csrf_token origins now client r tokens =
    if is_allowed_header origins r.origin
    then (tokens, allowed)
    else if is_allowed_header origins r.referer
    then (tokens, allowed)
    else if is_absent r.origin && is_absent r.referer
    then (tokens, allowed)
    else elim r.header_token [
      | some token ↦ validate_stored_csrf_token now client token tokens
      | none ↦ elim r.query_token [
        | some token ↦ validate_stored_csrf_token now client token tokens
        | none ↦ (tokens, missing_token)
      ]
    ]
