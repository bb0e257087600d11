-- ===== src/Pairing/Tests.antt =====
-- The pairing of src/nvhttp.cpp on concrete requests, with stand-ins for the functions of OpenSSL.
use midnight_sun.Prelude.{
  true, false, ◌≡◌, ◌↔◌, refl, none, some, [], ◌∷◌, ◌++◌, ◌⊎◌, replicate, take, drop, arith,
}
use midnight_sun.Util.Hex.{hex_vec, from_hex_vec}
use midnight_sun.Pairing.{
  Bytes, Crypto, Session, Server, Response, good, find, client_pairing_secret, serverchallengeresp,
  new_session, eq_bytes,
}
use midnight_sun.Pairing.Requests.{Query, sent, continue_pairing, pair, pin}
use midnight_sun.Pairing.Order.{Moves, pair-Moves}
use midnight_sun.Pairing.Keyed.{AllReady}
use midnight_sun.Pairing.Authorize.{Unchanged, Proven, pair-authorized}
use midnight_sun.Pairing.Honest.{
  Run, first_request, challenge_request, response_request, secret_request, honest_client-authorized,
}
use midnight_sun.Pairing.Pin.{well_formed, accepts, pin_faults}

-- Ciphering prefixes the key's first byte, and a signature repeats the first byte of what it signs.
abbrev stand_in : Crypto
stand_in = record {
  gen_aes_key = λ salt code. code;
  ecb_encrypt = λ key text. 1 ∷ text;
  ecb_decrypt = λ key text. drop 1 text;
  hash = λ text. text;
  is_x509 = λ cert. true;
  signature = λ cert. take 1 cert;
  sign256 = λ key message. take 1 message;
  verify256 = λ cert message sign. eq_bytes (take 1 message) sign;
}

abbrev digits : Bytes
digits = b'1' ∷ b'2' ∷ b'3' ∷ b'4' ∷ []

abbrev secret16 : Bytes
secret16 = replicate 16 171

abbrev one_run : Run
one_run = record {
  id = 5 ∷ [];
  clientcert = hex_vec (9 ∷ 8 ∷ []) true;
  challenge_text = hex_vec (1 ∷ 2 ∷ []) true;
  response_text = hex_vec (1 ∷ 6 ∷ 9 ∷ secret16) true;
  pairing_text = hex_vec (secret16 ++ 171 ∷ []) true;
  salt = replicate 32 b'0';
  code = digits;
  name = b'm' ∷ [];
  secret = 4 ∷ [];
  serverchallenge = 6 ∷ [];
}

abbrev server : Server
server = record {
  servercert = 77 ∷ [];
  pkey = 78 ∷ [];
  sessions = [];
  add_cert = [];
  authorized = [];
}

cert_text : from_hex_vec one_run.clientcert true ≡ 9 ∷ 8 ∷ []
unfolding hex_vec from_hex_vec
cert_text = refl

response_text : from_hex_vec one_run.response_text true ≡ 1 ∷ 6 ∷ 9 ∷ secret16
unfolding hex_vec from_hex_vec
response_text = refl

pairing_text : from_hex_vec one_run.pairing_text true ≡ secret16 ++ 171 ∷ []
unfolding hex_vec from_hex_vec
pairing_text = refl

honest_client-authorized_example :
    let request : Server → Query → Server =
      λ u q. (pair stand_in u q none one_run.secret one_run.serverchallenge).0 in
    (t : Server) × (r : Response) × (pin stand_in
        (request server (first_request stand_in one_run))
        one_run.id
        one_run.code
        one_run.name
      ≡ some (t, some r))
    × (let u =
          request
            (request t (challenge_request stand_in one_run))
            (response_request stand_in one_run) in
        let (v, a) =
          pair stand_in u
            (secret_request stand_in one_run)
            none
            one_run.secret
            one_run.serverchallenge in
        (a ≡ sent (good []))
        × (v.authorized ≡ (one_run.name, from_hex_vec one_run.clientcert true) ∷ server.authorized)
        × (find one_run.id v.sessions ≡ none))
unfolding hex_vec from_hex_vec
honest_client-authorized_example =
    honest_client-authorized stand_in one_run server secret16 (171 ∷ []) (λ key message. refl) refl
      refl refl refl refl refl (omega arith) refl refl refl refl

-- A session in its last phase, for a client that knows the server's challenge.
abbrev last_session : Session
last_session = record (new_session (9 ∷ 8 ∷ [])) {
  name = b'm' ∷ [];
  cipher_key = some digits;
  serversecret = 4 ∷ [];
  serverchallenge = 6 ∷ [];
  clienthash = 6 ∷ 9 ∷ secret16;
  salt = replicate 32 b'0';
  last_phase = serverchallengeresp;
}

abbrev pairing_server : Server
pairing_server = record server { sessions = (5 ∷ [], last_session) ∷ [] }

abbrev last_request : Query
last_request = secret_request stand_in one_run

pair-authorized_example :
    let (t, a) = pair stand_in pairing_server last_request none (4 ∷ []) (6 ∷ []) in
    Unchanged pairing_server t
    ⊎ ((id given : Bytes) × (last_request.uniqueid ≡ some id)
        × (last_request.clientpairingsecret ≡ some given)
        × Proven stand_in pairing_server id (from_hex_vec given true) t)
pair-authorized_example =
    pair-authorized stand_in pairing_server last_request none (4 ∷ []) (6 ∷ [])

-- That request authorizes the client.
last_request_authorizes :
    (pair stand_in pairing_server last_request none (4 ∷ []) (6 ∷ [])).0.authorized
    ≡ (b'm' ∷ [], 9 ∷ 8 ∷ []) ∷ []
unfolding pair continue_pairing client_pairing_secret hex_vec from_hex_vec
last_request_authorizes = refl

pair-Moves_example :
    let (t, a) = pair stand_in pairing_server last_request none (4 ∷ []) (6 ∷ []) in
    Moves pairing_server (5 ∷ []) t
pair-Moves_example =
    pair-Moves stand_in pairing_server (5 ∷ []) last_request none (4 ∷ []) (6 ∷ []) refl refl

pairing_server-AllReady : AllReady pairing_server
pairing_server-AllReady id = ground arith

pin_faults_example :
    (pin stand_in pairing_server (5 ∷ []) digits (b'n' ∷ []) ≡ none)
    ↔ ((well_formed digits ≡ true) × (accepts last_session ≡ false))
pin_faults_example =
    pin_faults stand_in pairing_server (5 ∷ []) digits (b'n' ∷ []) last_session refl
