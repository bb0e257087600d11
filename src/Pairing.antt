-- ===== src/Pairing.antt =====
-- The pairing of a client in src/nvhttp.cpp: the sessions of `map_id_sess`, the four phases, the requests that
-- drive them, and the entry of the PIN. Strings are lists of bytes.
pub mod Requests
pub mod Phases
pub mod Order
pub mod Keyed
pub mod Authorize
pub mod Honest
pub mod Pin
mod Tests
use midnight_sun.Prelude.{
  ℕ, zero, suc, ◌+◌, ◌-◌, Bool, true, false, not, ◌&&◌, ◌||◌, Option, none, some, List, [], ◌∷◌,
  ◌++◌, ltb, leb, ◌==◌, if◌then◌else◌, length, take, drop,
}
pub use midnight_sun.Prelude.Maps.{Bytes, eq_bytes, find, emplace, update, erase}
use midnight_sun.Util.Hex.{hex_vec, from_hex, from_hex_vec, is_digit}

abbrev pub is_empty : Bytes → Bool
is_empty [] = true
is_empty (b ∷ bs) = false

-- The functions of src/crypto.cpp that pairing calls, which wrap OpenSSL. A certificate is its PEM text and
-- `is_x509` says whether it parses; keys and signatures are bytes.
pub record Crypto : Type 0 where
  pub gen_aes_key : (salt pin : Bytes) → Bytes
  pub ecb_encrypt : (key plaintext : Bytes) → Bytes
  pub ecb_decrypt : (key cipher : Bytes) → Bytes
  pub hash : Bytes → Bytes
  pub is_x509 : Bytes → Bool
  pub signature : Bytes → Bytes
  pub sign256 : (pkey message : Bytes) → Bytes
  pub verify256 : (cert message sign : Bytes) → Bool

-- `PAIR_PHASE`; `unpaired` is its NONE.
pub data Phase : Type 0 where
  unpaired getservercert clientchallenge serverchallengeresp clientpairingsecret : Phase

abbrev pub eq_phase : Phase → Phase → Bool
eq_phase unpaired unpaired = true
eq_phase getservercert getservercert = true
eq_phase clientchallenge clientchallenge = true
eq_phase serverchallengeresp serverchallengeresp = true
eq_phase clientpairingsecret clientpairingsecret = true
eq_phase _ _ = false

-- `pair_session_t`; `response` is whether an HTTP or HTTPS response waits for the PIN.
pub record Session : Type 0 where
  pub cert : Bytes
  pub name : Bytes
  pub cipher_key : Option Bytes
  pub clienthash : Bytes
  pub serversecret : Bytes
  pub serverchallenge : Bytes
  pub response : Bool
  pub salt : Bytes
  pub last_phase : Phase

-- A session as `pair_session_t sess;` makes it, with the certificate of the request.
abbrev pub new_session : Bytes → Session
new_session cert = record {
  cert = cert;
  name = [];
  cipher_key = none;
  clienthash = [];
  serversecret = [];
  serverchallenge = [];
  response = false;
  salt = [];
  last_phase = unpaired;
}

pub record Server : Type 0 where
  pub servercert : Bytes  -- conf_intern
  pub pkey : Bytes
  pub sessions : List (Bytes × Session)  -- map_id_sess
  pub add_cert : List Bytes  -- certificates raised for the TLS verifier, newest first
  pub authorized : List (Bytes × Bytes)  -- name and certificate of the named devices, newest first

pub data Message : Type 0 where
  no_message out_of_order salt_too_short no_cipher_key no_key_or_secret secret_too_short : Message
  invalid_certificate missing_uniqueid invalid_uniqueid invalid_request : Message

-- The tree that is sent back: "root.paired", the status code and message, and the one hexadecimal field that
-- a phase adds.
pub record Response : Type 0 where
  pub paired : Option Bool
  pub status_code : ℕ
  pub message : Message
  pub field : Bytes

abbrev pub failed : Message → Response
failed m = record { paired = some false; status_code = 400; message = m; field = [] }

abbrev pub good : Bytes → Response
good f = record { paired = some true; status_code = 200; message = no_message; field = f }

abbrev pub put_session : Server → Bytes → Session → Server
put_session s id sess = record s { sessions = update id (λ _. sess) s.sessions }

-- `fail_pair` answers with an error and removes the session.
unfoldable pub fail_pair : Server → Bytes → Message → Server × Response
fail_pair s id m = (record s { sessions = erase id s.sessions }, failed m)

module _ (c : Crypto) where
  -- Phase 1, with the PIN that was entered.
  unfoldable pub get_server_cert : Server → Bytes → Session → (pin : Bytes) → Server × Response
  unfolding fail_pair
  get_server_cert s id sess pin =
      let key = c.gen_aes_key (from_hex 16 (take 32 sess.salt) true) pin in
      if not (eq_phase sess.last_phase unpaired)
      then fail_pair s id out_of_order
      else if ltb (length sess.salt) 32
      then fail_pair s id salt_too_short
      else (
        put_session s id (record sess { last_phase = getservercert; cipher_key = some key }),
        good (hex_vec s.servercert true),
      )

  -- Phase 2. `secret` and `challenge'` are the two calls of `crypto::rand(16)`.
  unfoldable pub client_challenge :
      Server → Bytes → Session → (challenge secret challenge' : Bytes) → Server × Response
  unfolding fail_pair
  client_challenge s id sess challenge secret challenge' =
      if not (eq_phase sess.last_phase getservercert)
      then fail_pair s id out_of_order
      else elim sess.cipher_key [
        | none ↦ fail_pair s id no_cipher_key
        | some key ↦
            let decrypted = c.ecb_decrypt key challenge ++ c.signature s.servercert ++ secret in
            let plaintext = c.hash decrypted ++ challenge' in
            (
              put_session s id (record sess {
                last_phase = clientchallenge;
                serversecret = secret;
                serverchallenge = challenge';
              }),
              good (hex_vec (c.ecb_encrypt key plaintext) true),
            )
      ]

  -- Phase 3.
  unfoldable pub server_challenge_resp :
      Server → Bytes → Session → (encrypted_response : Bytes) → Server × Response
  unfolding fail_pair
  server_challenge_resp s id sess encrypted_response =
      if not (eq_phase sess.last_phase clientchallenge)
      then fail_pair s id out_of_order
      else elim sess.cipher_key [
        | none ↦ fail_pair s id no_key_or_secret
        | some key ↦ if is_empty sess.serversecret then fail_pair s id no_key_or_secret else (
          put_session s id (record sess {
            last_phase = serverchallengeresp;
            clienthash = c.ecb_decrypt key encrypted_response;
          }),
          good (hex_vec (sess.serversecret ++ c.sign256 s.pkey sess.serversecret) true),
        )
      ]

  -- The two checks of phase 4: the client's hash, and the signature of its secret.
  abbrev pub same_hash : Session → (client_pairing_secret : Bytes) → Bool
  same_hash sess secret =
      eq_bytes (c.hash (sess.serverchallenge ++ c.signature sess.cert ++ take 16 secret))
        sess.clienthash

  abbrev pub verified : Session → (client_pairing_secret : Bytes) → Bool
  verified sess secret = c.verify256 sess.cert (take 16 secret) (drop 16 secret)

  -- Phase 4. The session ends here, whatever the answer.
  unfoldable pub client_pairing_secret :
      Server → Bytes → Session → (client_pairing_secret : Bytes) → Server × Response
  unfolding fail_pair
  client_pairing_secret s id sess secret =
      let ended = record s { sessions = erase id s.sessions } in
      if not (eq_phase sess.last_phase serverchallengeresp)
      then fail_pair s id out_of_order
      else if leb (length secret) 16
      then fail_pair s id secret_too_short
      else if not (c.is_x509 sess.cert)
      then fail_pair s id invalid_certificate
      else if same_hash sess secret && verified sess secret
      then (
        record ended {
          add_cert = sess.cert ∷ s.add_cert;
          authorized = (sess.name, sess.cert) ∷ s.authorized;
        },
        good [],
      )
      else (
        ended,
        record { paired = some false; status_code = 200; message = no_message; field = [] },
      )
