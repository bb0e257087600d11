-- ===== src/Pairing/Authorize.antt =====
-- Who is authorized by the pairing of src/nvhttp.cpp.
use midnight_sun.Prelude.{
  true, not, ◌&&◌, ◌≡◌, refl, Option, none, some, ◌∷◌, arith, Bool-cases, Option-cases, ◌⊎◌, inl,
  inr, leb, length,
}
use midnight_sun.Util.Hex.{from_hex_vec}
use midnight_sun.Pairing.{
  Bytes, Crypto, Session, Server, find, get_server_cert, client_challenge, server_challenge_resp,
  client_pairing_secret, fail_pair, eq_phase, serverchallengeresp,
}
use midnight_sun.Pairing.Requests.{
  Query, begin_pairing, continue_pairing, find_and_continue, pair, get_cert, pair_challenge,
  other_phrase, await_pin, Phrase,
}
use midnight_sun.Pairing.{serverchallengeresp, same_hash, verified}
use midnight_sun.Prelude.Maps.{find-erase_self}

-- The session has got as far as its last phase, and the client has shown that it knows the server's challenge
-- and the key of its certificate. It is authorized under its name, and its session has ended.
pub record Proven (c : Crypto) (s : Server) (id : Bytes) (given : Bytes) (t : Server) : Type 0 where
  pub sess : Session
  pub found : find id s.sessions ≡ some sess
  pub in_last_phase : sess.last_phase ≡ serverchallengeresp
  pub certificate : c.is_x509 sess.cert ≡ true
  pub hashed : same_hash c sess given ≡ true
  pub signed : verified c sess given ≡ true
  pub added : t.authorized ≡ (sess.name, sess.cert) ∷ s.authorized
  pub raised : t.add_cert ≡ sess.cert ∷ s.add_cert
  pub ended : find id t.sessions ≡ none

abbrev pub Unchanged : Server → Server → Type 0
Unchanged s t = (t.authorized ≡ s.authorized) × (t.add_cert ≡ s.add_cert)

get_server_cert-Unchanged :
    (c : Crypto) (s : Server) (id : Bytes) (sess : Session) (code : Bytes)
    → Unchanged s (get_server_cert c s id sess code).0
unfolding get_server_cert fail_pair
get_server_cert-Unchanged c s id sess code = ground arith

begin_pairing-Unchanged :
    (c : Crypto) (s : Server) (id : Bytes) (q : Query) (stdin_pin : Option Bytes)
    → Unchanged s (begin_pairing c s id q stdin_pin).0
unfolding begin_pairing await_pin get_server_cert fail_pair
begin_pairing-Unchanged c s id q stdin_pin = ground arith

client_pairing_secret-authorized :
    (c : Crypto) (s : Server) (id : Bytes) (sess : Session) (given : Bytes)
    → find id s.sessions ≡ some sess
    → let (t, r) = client_pairing_secret c s id sess given in Unchanged s t ⊎ Proven c s id given t
unfolding client_pairing_secret fail_pair
client_pairing_secret-authorized c s id sess given here =
    elim (Bool-cases (
      eq_phase sess.last_phase serverchallengeresp
      && not (leb (length given) 16)
      && c.is_x509 sess.cert
      && same_hash c sess given
      && verified c sess given)) [
        | inl proven ↦ inr (record {
          sess = sess;
          found = here;
          in_last_phase = ground arith;
          certificate = ground arith;
          hashed = ground arith;
          signed = ground arith;
          added = ground arith;
          raised = ground arith;
          ended = ground (arith, find-erase_self id s.sessions);
        })
        | inr not_proven ↦ inl (ground arith)
      ]

find_and_continue-authorized :
    (c : Crypto) (s : Server) (id : Bytes) (q : Query) (secret challenge : Bytes)
    → let (t, a) = find_and_continue c s id q secret challenge in
      Unchanged s t
      ⊎ ((given : Bytes) × (q.clientpairingsecret ≡ some given)
          × Proven c s id (from_hex_vec given true) t)
unfolding continue_pairing client_challenge server_challenge_resp fail_pair
find_and_continue-authorized c s id q secret challenge = elim (Option-cases (find id s.sessions)) [
  | inl missing ↦ inl (ground arith)
  | inr (sess, here) ↦ elim (Option-cases q.clientchallenge) [
    | inr (x, given) ↦ inl (ground arith)
    | inl no_x ↦ elim (Option-cases q.serverchallengeresp) [
      | inr (y, given) ↦ inl (ground arith)
      | inl no_y ↦ elim (Option-cases q.clientpairingsecret) [
        | inl no_z ↦ inl (ground arith)
        | inr (z, given) ↦
            rw (here, no_x, no_y, given, find_and_continue, continue_pairing)
              (elim (client_pairing_secret-authorized c s id sess (from_hex_vec z true) here) [
                | inl same ↦ inl same
                | inr proven ↦ inr (z, refl, proven)
              ])
      ]
    ]
  ]
]

-- `pair` authorizes no one and hands no certificate to the TLS verifier, or the request was a client pairing
-- secret for a session in its last phase whose certificate parses, the hash and the signature were right, just
-- the certificate of that session is authorized under its name, and the session has ended.
pub pair-authorized :
    (c : Crypto) (s : Server) (q : Query) (stdin_pin : Option Bytes) (secret challenge : Bytes)
    → let (t, a) = pair c s q stdin_pin secret challenge in
      Unchanged s t
      ⊎ ((id given : Bytes) × (q.uniqueid ≡ some id)
          × (q.clientpairingsecret ≡ some given)
          × Proven c s id (from_hex_vec given true) t)
unfolding pair continue_pairing begin_pairing
pair-authorized c s q stdin_pin secret challenge = elim (Option-cases q.uniqueid) [
  | inl missing ↦ inl (ground arith)
  | inr (id, named) ↦ rw (named) (by_phrase id q.phrase)
]
  where
    continued :
        (id : Bytes)
        → let t = (find_and_continue c s id q secret challenge).0 in
          Unchanged s t
          ⊎ ((id' given : Bytes) × (some id ≡ some id')
              × (q.clientpairingsecret ≡ some given)
              × Proven c s id' (from_hex_vec given true) t)
    continued id = elim (find_and_continue-authorized c s id q secret challenge) [
      | inl same ↦ inl same
      | inr (given, e, proven) ↦ inr (id, given, refl, e, proven)
    ]

    by_phrase :
        (id : Bytes) (p : Option Phrase)
        → let t =
            (pair c s (record q { uniqueid = some id; phrase = p }) stdin_pin secret challenge).0 in
          Unchanged s t
          ⊎ ((id' given : Bytes) × (some id ≡ some id')
              × (q.clientpairingsecret ≡ some given)
              × Proven c s id' (from_hex_vec given true) t)
    by_phrase id none = continued id
    by_phrase id (some get_cert) = inl (begin_pairing-Unchanged c s id q stdin_pin)
    by_phrase id (some pair_challenge) = inl (refl, refl)
    by_phrase id (some other_phrase) = continued id
