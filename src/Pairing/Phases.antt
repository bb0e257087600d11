-- ===== src/Pairing/Phases.antt =====
-- The order of the phases in src/nvhttp.cpp, and what one request may change.
use midnight_sun.Prelude.{
  Bool, true, false, not, ◌&&◌, ◌||◌, take, ◌≡◌, refl, none, some, arith, Bool-cases, Option-cases,
  ◌⊎◌, inl, inr, ltb, length,
}
use midnight_sun.Pairing.{
  Bytes, Crypto, Phase, unpaired, getservercert, clientchallenge, serverchallengeresp,
  clientpairingsecret, eq_phase, Session, Server, fail_pair, update, erase, get_server_cert,
  client_challenge, server_challenge_resp, client_pairing_secret, is_empty,
}
use midnight_sun.Util.Hex.{from_hex}

abbrev pub next : Phase → Phase
next unpaired = getservercert
next getservercert = clientchallenge
next clientchallenge = serverchallengeresp
next serverchallengeresp = clientpairingsecret
next clientpairingsecret = clientpairingsecret

abbrev pub has_key : Session → Bool
has_key sess = elim sess.cipher_key [ none ↦ false | some key ↦ true ]

-- A session holds what its next phase needs: the key after the first phase, the server's secret after the
-- second. No session is kept after the last.
abbrev pub ready : Session → Bool
ready sess = elim sess.last_phase [
  | unpaired ↦ true
  | getservercert ↦ has_key sess
  | clientchallenge ↦ has_key sess && not (is_empty sess.serversecret)
  | serverchallengeresp ↦ has_key sess && not (is_empty sess.serversecret)
  | clientpairingsecret ↦ false
]

-- What a phase does to the map: it ends the session, or moves it on by one phase, ready for the one after.
abbrev pub Handled : Server → Bytes → Session → Server → Type 0
Handled s id sess t =
    (t.sessions ≡ erase id s.sessions)
    ⊎ ((new : Session) × (t.sessions ≡ update id (λ _. new) s.sessions)
        × (new.last_phase ≡ next sess.last_phase)
        × (ready sess ≡ true → ready new ≡ true))

pub get_server_cert-Handled :
    (c : Crypto) (s : Server) (id : Bytes) (sess : Session) (code : Bytes)
    → let (t, r) = get_server_cert c s id sess code in Handled s id sess t
unfolding get_server_cert fail_pair
get_server_cert-Handled c s id sess code =
    elim (Bool-cases (not (eq_phase sess.last_phase unpaired) || ltb (length sess.salt) 32)) [
      | inl stop ↦ inl (ground arith)
      | inr go ↦
          let key = c.gen_aes_key (from_hex 16 (take 32 sess.salt) true) code in
          inr (
            record sess { last_phase = getservercert; cipher_key = some key },
            ground arith,
            ground arith,
            λ _. refl,
          )
    ]

pub client_challenge-Handled :
    (c : Crypto) (s : Server) (id : Bytes) (sess : Session) (challenge secret challenge' : Bytes)
    → is_empty secret ≡ false
    → let (t, r) = client_challenge c s id sess challenge secret challenge' in Handled s id sess t
unfolding client_challenge fail_pair
client_challenge-Handled c s id sess challenge secret challenge' drawn =
    elim (Bool-cases (not (eq_phase sess.last_phase getservercert) || not (has_key sess))) [
      | inl stop ↦ inl (ground arith)
      | inr go ↦ inr (
        record sess {
          last_phase = clientchallenge;
          serversecret = secret;
          serverchallenge = challenge';
        },
        ground arith,
        ground arith,
        λ _. ground arith,
      )
    ]

pub server_challenge_resp-Handled :
    (c : Crypto) (s : Server) (id : Bytes) (sess : Session) (encrypted_response : Bytes)
    → let (t, r) = server_challenge_resp c s id sess encrypted_response in Handled s id sess t
unfolding server_challenge_resp fail_pair
server_challenge_resp-Handled c s id sess encrypted_response = elim (Option-cases sess.cipher_key) [
  | inl missing ↦ inl (ground arith)
  | inr (key, held) ↦
      elim (Bool-cases
        (not (eq_phase sess.last_phase clientchallenge) || is_empty sess.serversecret)) [
          | inl stop ↦ inl (ground arith)
          | inr go ↦ inr (
            record sess {
              last_phase = serverchallengeresp;
              clienthash = c.ecb_decrypt key encrypted_response;
            },
            ground arith,
            ground arith,
            λ _. ground arith,
          )
        ]
]

pub client_pairing_secret-Handled :
    (c : Crypto) (s : Server) (id : Bytes) (sess : Session) (secret : Bytes)
    → let (t, r) = client_pairing_secret c s id sess secret in Handled s id sess t
unfolding client_pairing_secret fail_pair
client_pairing_secret-Handled c s id sess secret = inl (ground arith)
