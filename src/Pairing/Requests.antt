-- ===== src/Pairing/Requests.antt =====
-- The requests of pairing in src/nvhttp.cpp: `pair`, with the parameters of its query, and `pin`.
use midnight_sun.Prelude.{
  ℕ, Bool, true, false, not, ◌&&◌, Option, none, some, [], ◌∷◌, ◌==◌, if◌then◌else◌, length,
}
use midnight_sun.Util.Hex.{from_hex_vec, is_digit}
use midnight_sun.Pairing.{
  Bytes, Crypto, Session, new_session, Server, find, emplace, update, Message, missing_uniqueid,
  invalid_uniqueid, invalid_request, Response, good, get_server_cert, client_challenge,
  server_challenge_resp, client_pairing_secret,
}

-- The value of "phrase", as far as `pair` tells values apart.
pub data Phrase : Type 0 where
  get_cert pair_challenge other_phrase : Phrase

-- The parameters of the query that `pair` reads, each of which may be missing.
pub record Query : Type 0 where
  pub uniqueid : Option Bytes
  pub phrase : Option Phrase
  pub clientcert : Option Bytes
  pub salt : Option Bytes
  pub clientchallenge : Option Bytes
  pub serverchallengeresp : Option Bytes
  pub clientpairingsecret : Option Bytes

-- What `pair` leaves to its caller: an answer that was sent, a response that waits for the PIN, or the
-- exception of `get_arg`.
pub data Answer : Type 0 where
  sent : Response → Answer
  waiting : Answer
  thrown : Answer

abbrev pub unknown : Message → (status_code : ℕ) → Response
unknown m status_code = record { paired = none; status_code = status_code; message = m; field = [] }

abbrev pub send : Server × Response → Server × Answer
send (s, r) = (s, sent r)

abbrev pub all_digits : Bytes → Bool
all_digits [] = true
all_digits (b ∷ bs) = is_digit b && all_digits bs

-- The rest of `pin` once `getservercert` has answered. The session it refers to may have been erased by then,
-- and writing the name to it is undefined: `none`. Else the answer goes to the response that waits, if there
-- is one.
abbrev pub finish_pin :
    Server × Response → Bytes → (name : Bytes) → Option (Server × Option Response)
finish_pin (s, r) id name = elim (find id s.sessions) [
  | none ↦ none
  | some sess ↦ some (
    record s {
      sessions = update id (λ sess. record sess { name = name; response = false }) s.sessions;
    },
    if sess.response then some r else none,
  )
]

module _ (c : Crypto) where
  -- The PIN is read at once if the flag PIN_STDIN is set, and `stdin_pin` is then the line, or the response is
  -- kept until `pin` is called. The session has just been put into the map, so that it is found.
  unfoldable pub await_pin : Server → Bytes → (stdin_pin : Option Bytes) → Server × Answer
  await_pin s id none = (
    record s { sessions = update id (λ sess. record sess { response = true }) s.sessions },
    waiting,
  )
  await_pin s id (some pin) = elim (find id s.sessions) [
    | none ↦ (s, thrown)
    | some sess ↦ send (get_server_cert c s id sess pin)
  ]

  -- The branch of "getservercert". `emplace` keeps a session that is there, and the salt is replaced in any
  -- case.
  unfoldable pub begin_pairing :
      Server → Bytes → Query → (stdin_pin : Option Bytes) → Server × Answer
  begin_pairing s id q stdin_pin = elim q.clientcert [
    | none ↦ (s, thrown)
    | some cert ↦
        let emplaced = record s {
          sessions = emplace id (new_session (from_hex_vec cert true)) s.sessions;
        } in
        elim q.salt [
          | none ↦ (emplaced, thrown)
          | some salt ↦
              let sessions = update id (λ sess. record sess { salt = salt }) emplaced.sessions in
              await_pin (record emplaced { sessions = sessions }) id stdin_pin
        ]
  ]

  -- The later phases, by the first of their parameters that is there.
  unfoldable pub continue_pairing :
      Server → Bytes → Session → Query → (secret challenge : Bytes) → Server × Response
  continue_pairing s id sess q secret challenge = elim q.clientchallenge [
    | some x ↦ client_challenge c s id sess (from_hex_vec x true) secret challenge
    | none ↦ elim q.serverchallengeresp [
      | some x ↦ server_challenge_resp c s id sess (from_hex_vec x true)
      | none ↦ elim q.clientpairingsecret [
        | some x ↦ client_pairing_secret c s id sess (from_hex_vec x true)
        | none ↦ (s, unknown invalid_request 404)
      ]
    ]
  ]

  abbrev pub find_and_continue :
      Server → Bytes → Query → (secret challenge : Bytes) → Server × Answer
  find_and_continue s id q secret challenge = elim (find id s.sessions) [
    | none ↦ (s, sent (unknown invalid_uniqueid 400))
    | some sess ↦ send (continue_pairing s id sess q secret challenge)
  ]

  -- `pair`. `secret` and `challenge` are what `crypto::rand(16)` gives, if it is called.
  unfoldable pub pair :
      Server → Query → (stdin_pin : Option Bytes) → (secret challenge : Bytes) → Server × Answer
  pair s q stdin_pin secret challenge = elim q.uniqueid [
    | none ↦ (s, sent (unknown missing_uniqueid 400))
    | some id ↦ elim q.phrase [
      | some get_cert ↦ begin_pairing s id q stdin_pin
      | some pair_challenge ↦ (s, sent (good []))
      | some other_phrase ↦ find_and_continue s id q secret challenge
      | none ↦ find_and_continue s id q secret challenge
    ]
  ]

  -- `pin`, which returns whether there is an answer. `first` is the key at `std::begin(map_id_sess)`, which is
  -- any one of the map's.
  unfoldable pub pin :
      Server → (first : Bytes) → (code name : Bytes) → Option (Server × Option Response)
  pin s first code name = elim (find first s.sessions) [
    | none ↦ some (s, none)
    | some sess ↦
        if not (length code == 4)
        then some (s, none)
        else if not (all_digits code)
        then some (s, none)
        else finish_pin (get_server_cert c s first sess code) first name
  ]
