-- ===== src/Pairing/Honest.antt =====
-- The whole pairing of src/nvhttp.cpp with a client that keeps to the protocol.
use midnight_sun.Prelude.{
  true, false, ◌≡◌, refl, sym, ap, ◌∙◌, none, some, [], ◌∷◌, ◌++◌, arith, ltb, leb, length,
}
use midnight_sun.Util.Hex.{from_hex_vec}
use midnight_sun.Pairing.{
  Bytes, Crypto, Session, Server, new_session, Response, find, emplace, update, get_server_cert,
  client_challenge, server_challenge_resp, client_pairing_secret, is_empty, getservercert,
  clientchallenge, serverchallengeresp,
}
use midnight_sun.Pairing.Requests.{
  Query, sent, begin_pairing, continue_pairing, find_and_continue, pair, pin, get_cert, await_pin,
}
use midnight_sun.Prelude.{◌<◌, take, drop, length-append, take-append, drop-append}
use midnight_sun.Util.Hex.{from_hex, hex_vec}
use midnight_sun.Pairing.{same_hash, verified, good}
use midnight_sun.Pairing.Requests.{finish_pin, all_digits}
use midnight_sun.Prelude.Maps.{eq_bytes_refl, find-erase_self, find-update_self, find-emplace_new}

-- The map has this session, and the authorized devices are those of `base`.
record At (base : Server) (id : Bytes) (sess : Session) (s : Server) : Type 0 where
  found : find id s.sessions ≡ some sess
  same : s.authorized ≡ base.authorized

abbrev pub asked : Bytes → Query
asked id = record {
  uniqueid = some id;
  phrase = none;
  clientcert = none;
  salt = none;
  clientchallenge = none;
  serverchallengeresp = none;
  clientpairingsecret = none;
}

-- What the client and the two random draws contribute to one pairing.
pub record Run : Type 0 where
  pub id : Bytes
  pub clientcert : Bytes  -- as text, like the next three
  pub challenge_text : Bytes
  pub response_text : Bytes
  pub pairing_text : Bytes
  pub salt : Bytes
  pub code : Bytes
  pub name : Bytes
  pub secret : Bytes  -- the server's, drawn at random
  pub serverchallenge : Bytes  -- the same

module _ (c : Crypto) (x : Run) where
  abbrev pub waits : Session
  waits = record (new_session (from_hex_vec x.clientcert true)) { salt = x.salt; response = true }

  abbrev pub the_key : Bytes
  the_key = c.gen_aes_key (from_hex 16 (take 32 x.salt) true) x.code

  abbrev pub phase1 : Session
  phase1 = record waits {
    last_phase = getservercert;
    cipher_key = some the_key;
    name = x.name;
    response = false;
  }

  abbrev pub phase2 : Session
  phase2 = record phase1 {
    last_phase = clientchallenge;
    serversecret = x.secret;
    serverchallenge = x.serverchallenge;
  }

  abbrev pub phase3 : Session
  phase3 = record phase2 {
    last_phase = serverchallengeresp;
    clienthash = c.ecb_decrypt the_key (from_hex_vec x.response_text true);
  }

  abbrev pub first_request : Query
  first_request = record (asked x.id) {
    phrase = some get_cert;
    clientcert = some x.clientcert;
    salt = some x.salt;
  }

  abbrev pub challenge_request : Query
  challenge_request = record (asked x.id) { clientchallenge = some x.challenge_text }

  abbrev pub response_request : Query
  response_request = record (asked x.id) { serverchallengeresp = some x.response_text }

  abbrev pub secret_request : Query
  secret_request = record (asked x.id) { clientpairingsecret = some x.pairing_text }

  first_request-At :
      (s : Server)
      → find x.id s.sessions ≡ none
      → At s x.id waits (pair c s first_request none x.secret x.serverchallenge).0
  unfolding pair begin_pairing await_pin
  first_request-At s fresh = record {
    found =
        find-update_self x.id (λ sess. record sess { response = true })
          (update x.id (λ sess. record sess { salt = x.salt })
            (emplace x.id (new_session (from_hex_vec x.clientcert true)) s.sessions))
          (record (new_session (from_hex_vec x.clientcert true)) { salt = x.salt })
          (find-update_self x.id (λ sess. record sess { salt = x.salt })
            (emplace x.id (new_session (from_hex_vec x.clientcert true)) s.sessions)
            (new_session (from_hex_vec x.clientcert true))
            (find-emplace_new x.id (new_session (from_hex_vec x.clientcert true)) s.sessions
              fresh));
    same = refl;
  }

  challenge_request-At :
      (base s : Server)
      → At base x.id phase1 s
      → At base x.id phase2 (pair c s challenge_request none x.secret x.serverchallenge).0
  unfolding pair continue_pairing client_challenge
  challenge_request-At base s a = record {
    found =
        rw (a.found, pair, find_and_continue)
          (find-update_self x.id (λ _. phase2) s.sessions phase1 a.found);
    same = rw (a.found, pair, find_and_continue) a.same;
  }

  response_request-At :
      (base s : Server)
      → is_empty x.secret ≡ false
      → At base x.id phase2 s
      → At base x.id phase3 (pair c s response_request none x.secret x.serverchallenge).0
  unfolding pair continue_pairing server_challenge_resp
  response_request-At base s drawn a = record {
    found =
        rw (a.found, pair, find_and_continue, drawn)
          (find-update_self x.id (λ _. phase3) s.sessions phase2 a.found);
    same = rw (a.found, pair, find_and_continue, drawn) a.same;
  }

  abbrev pub keyed_session : Session
  keyed_session = record waits { last_phase = getservercert; cipher_key = some the_key }

  answered :
      (s : Server)
      → ltb (length x.salt) 32 ≡ false
      → get_server_cert c s x.id waits x.code ≡ (
        record s { sessions = update x.id (λ _. keyed_session) s.sessions },
        good (hex_vec s.servercert true),
      )
  unfolding get_server_cert
  answered s long = rw (get_server_cert, long) refl

  -- The PIN finds the session that waits, if it is the first of the map.
  pin-At :
      (base s : Server)
      → ltb (length x.salt) 32 ≡ false
      → length x.code ≡ 4
      → all_digits x.code ≡ true
      → At base x.id waits s
      → (t : Server) × (r : Response) × (pin c s x.id x.code x.name ≡ some (t, some r))
        × At base x.id phase1 t
  unfolding pin
  pin-At base s long four digits a =
      let u = update x.id (λ _. keyed_session) s.sessions in
      let found = find-update_self x.id (λ _. keyed_session) s.sessions waits a.found in
      let finish : Session → Session = λ sess. record sess { name = x.name; response = false } in
      (
        record s { sessions = update x.id finish u },
        good (hex_vec s.servercert true),
        reached
            ∙ ap (λ p. finish_pin p x.id x.name) (answered s long)
            ∙ rw (finish_pin, found) refl,
        record { found = find-update_self x.id finish u keyed_session found; same = a.same },
      )
    where
      reached :
          pin c s x.id x.code x.name
          ≡ finish_pin (get_server_cert c s x.id waits x.code) x.id x.name
      reached = rw (a.found, pin, four, digits) refl

  -- The secret that proves the client, against the hash that it sent before.
  secret_request-authorized :
      (base s : Server)
      → c.is_x509 (from_hex_vec x.clientcert true) ≡ true
      → leb (length (from_hex_vec x.pairing_text true)) 16 ≡ false
      → same_hash c phase3 (from_hex_vec x.pairing_text true) ≡ true
      → verified c phase3 (from_hex_vec x.pairing_text true) ≡ true
      → At base x.id phase3 s
      → let (t, a) = pair c s secret_request none x.secret x.serverchallenge in
        (a ≡ sent (good []))
        × (t.authorized ≡ (x.name, from_hex_vec x.clientcert true) ∷ base.authorized)
        × (find x.id t.sessions ≡ none)
  unfolding pair continue_pairing client_pairing_secret
  secret_request-authorized base s cert long hashed signed a = (
    rw (a.found, pair, find_and_continue, long, cert, hashed, signed) refl,
    rw (a.found, pair, find_and_continue, long, cert, hashed, signed)
        (ap (λ l. (x.name, from_hex_vec x.clientcert true) ∷ l) a.same),
    rw (a.found, pair, find_and_continue, long, cert, hashed, signed)
        (find-erase_self x.id s.sessions),
  )

-- A client whose certificate parses, that has no session, and that keeps to the protocol is paired: it asks with
-- a salt of at least 32 characters, the PIN of four digits is entered while its session is the first of the map,
-- it sends a challenge, it answers with the encrypted hash over the server's challenge, the signature of its
-- certificate and a secret of 16 bytes, and it sends that secret with a signature that verifies. The PIN is then
-- answered, the last answer is good, just this client is added to the authorized devices under the name that
-- was entered with the PIN, and its session is gone. The server's random secret must not be empty, and
-- deciphering must undo enciphering of a hash.
pub honest_client-authorized :
    (c : Crypto) (x : Run) (s : Server) (proof sign : Bytes)
    → ((key message : Bytes)
        → c.ecb_decrypt key (c.ecb_encrypt key (c.hash message)) ≡ c.hash message)
    → find x.id s.sessions ≡ none
    → ltb (length x.salt) 32 ≡ false
    → length x.code ≡ 4
    → all_digits x.code ≡ true
    → is_empty x.secret ≡ false
    → length proof ≡ 16
    → 0 < length sign
    → c.is_x509 (from_hex_vec x.clientcert true) ≡ true
    → c.verify256 (from_hex_vec x.clientcert true) proof sign ≡ true
    → from_hex_vec x.response_text true
      ≡ c.ecb_encrypt
          (the_key c x)
          (c.hash (x.serverchallenge ++ c.signature (from_hex_vec x.clientcert true) ++ proof))
    → from_hex_vec x.pairing_text true ≡ proof ++ sign
    → let request : Server → Query → Server =
        λ u q. (pair c u q none x.secret x.serverchallenge).0 in
      (t : Server) × (r : Response) × (pin c (request s (first_request c x)) x.id x.code x.name
        ≡ some (t, some r))
      × (let u = request (request t (challenge_request c x)) (response_request c x) in
          let (v, a) = pair c u (secret_request c x) none x.secret x.serverchallenge in
          (a ≡ sent (good []))
          × (v.authorized ≡ (x.name, from_hex_vec x.clientcert true) ∷ s.authorized)
          × (find x.id v.sessions ≡ none))
honest_client-authorized c x s proof sign undo fresh long four digits drawn sixteen some_sign cert
      signed response secret =
    let (t, r, e, a) = pin-At c x s s1 long four digits (first_request-At c x s fresh) in
    (
      t,
      r,
      e,
      secret_request-authorized c x s (u t) cert (rw (secret) enough)
          (rw (secret, response, undo (the_key c x) hashed_text, first_16)
            (eq_bytes_refl (c.hash hashed_text)))
          (rw (secret, verified, first_16, after_16) signed)
          (response_request-At c x s (u2 t) drawn (challenge_request-At c x s t a)),
    )
  where
    s1 : Server
    s1 = (pair c s (first_request c x) none x.secret x.serverchallenge).0

    u2 : Server → Server
    u2 t = (pair c t (challenge_request c x) none x.secret x.serverchallenge).0

    u : Server → Server
    u t = (pair c (u2 t) (response_request c x) none x.secret x.serverchallenge).0

    enough : leb (length (proof ++ sign)) 16 ≡ false
    enough = ground (arith, length-append proof sign)

    hashed_text : Bytes
    hashed_text = x.serverchallenge ++ c.signature (from_hex_vec x.clientcert true) ++ proof

    first_16 : take 16 (proof ++ sign) ≡ proof
    first_16 = ap (λ n. take n (proof ++ sign)) (sym sixteen) ∙ take-append proof sign

    after_16 : drop 16 (proof ++ sign) ≡ sign
    after_16 = ap (λ n. drop n (proof ++ sign)) (sym sixteen) ∙ drop-append proof sign
