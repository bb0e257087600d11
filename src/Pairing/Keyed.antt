-- ===== src/Pairing/Keyed.antt =====
-- The keys and secrets that the phases of src/nvhttp.cpp need.
use midnight_sun.Prelude.{
  Bool, true, false, not, ◌≡◌, subst, Option, none, some, arith, Bool-cases, Option-cases, inl, inr,
}
use midnight_sun.Pairing.{
  Bytes, Crypto, Session, Server, Message, no_cipher_key, no_key_or_secret, eq_bytes,
  get_server_cert, client_challenge, server_challenge_resp, client_pairing_secret, is_empty,
  fail_pair,
}
use midnight_sun.Pairing.Requests.{
  Query, Answer, sent, waiting, thrown, begin_pairing, continue_pairing, find_and_continue, pair,
  await_pin,
}
use midnight_sun.Prelude.Maps.{eq_bytes_sound}
use midnight_sun.Pairing.Order.{Moves, ready_at, pair-Moves}

-- No session is without what its next phase needs.
abbrev pub AllReady : Server → Type 0
AllReady s = (id : Bytes) → ready_at s id ≡ true

abbrev pub blames_key : Message → Bool
blames_key no_cipher_key = true
blames_key no_key_or_secret = true
blames_key _ = false

-- The answer is not that a key or a secret is missing.
abbrev pub keyed : Answer → Bool
keyed (sent r) = not (blames_key r.message)
keyed waiting = true
keyed thrown = true

get_server_cert-keyed :
    (c : Crypto) (s : Server) (id : Bytes) (sess : Session) (code : Bytes)
    → let (t, r) = get_server_cert c s id sess code in blames_key r.message ≡ false
unfolding get_server_cert fail_pair
get_server_cert-keyed c s id sess code = ground arith

begin_pairing-keyed :
    (c : Crypto) (s : Server) (id : Bytes) (q : Query) (stdin_pin : Option Bytes)
    → let (t, a) = begin_pairing c s id q stdin_pin in keyed a ≡ true
unfolding begin_pairing await_pin get_server_cert fail_pair
begin_pairing-keyed c s id q stdin_pin = ground arith

find_and_continue-keyed :
    (c : Crypto) (s : Server) (id : Bytes) (q : Query) (secret challenge : Bytes)
    → ready_at s id ≡ true
    → let (t, a) = find_and_continue c s id q secret challenge in keyed a ≡ true
unfolding continue_pairing client_challenge server_challenge_resp client_pairing_secret fail_pair
find_and_continue-keyed c s id q secret challenge r = ground arith

-- If no session is without what its next phase needs and the random secret is not empty, then `pair` never
-- answers that a key or a secret is missing, and no session is without what it needs afterwards.
pub pair-keyed :
    (c : Crypto) (s : Server) (q : Query) (stdin_pin : Option Bytes) (secret challenge : Bytes)
    → AllReady s
    → is_empty secret ≡ false
    → let (t, a) = pair c s q stdin_pin secret challenge in (keyed a ≡ true) × AllReady t
unfolding pair
pair-keyed c s q stdin_pin secret challenge all drawn = elim (Option-cases q.uniqueid) [
  | inl missing ↦ (no_id missing, λ id. rw (missing, pair) (all id))
  | inr (id, named) ↦
      (answer id named, after id (pair-Moves c s id q stdin_pin secret challenge named drawn))
]
  where
    no_id : q.uniqueid ≡ none → keyed (pair c s q stdin_pin secret challenge).1 ≡ true
    no_id missing = ground arith

    answer :
        (id : Bytes) → q.uniqueid ≡ some id → keyed (pair c s q stdin_pin secret challenge).1 ≡ true
    answer id named = ground (
      arith,
      begin_pairing-keyed c s id q stdin_pin,
      find_and_continue-keyed c s id q secret challenge (all id),
    )

    after :
        (id : Bytes)
        → Moves s id (pair c s q stdin_pin secret challenge).0
        → AllReady (pair c s q stdin_pin secret challenge).0
    after id m id' = elim (Bool-cases (eq_bytes id id')) [
      | inl same ↦
          subst (λ x. ready_at (pair c s q stdin_pin secret challenge).0 x ≡ true)
            (eq_bytes_sound id id' same) (m.keeps_ready (all id))
      | inr differ ↦ rw (m.others id' differ, ready_at) (all id')
    ]
