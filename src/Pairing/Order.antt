-- ===== src/Pairing/Order.antt =====
-- What one pairing request of src/nvhttp.cpp changes in the map of sessions.
use midnight_sun.Prelude.{
  Bool, true, false, ◌≡◌, refl, ap, ◌∙◌, Option, none, some, arith, Option-cases, ◌⊎◌, inl, inr,
}
use midnight_sun.Util.Hex.{from_hex_vec}
use midnight_sun.Pairing.{
  Bytes, Crypto, Phase, unpaired, Session, Server, new_session, eq_bytes, find, emplace, update,
  get_server_cert, client_challenge, server_challenge_resp, client_pairing_secret, is_empty,
}
use midnight_sun.Pairing.Requests.{
  Query, Phrase, await_pin, begin_pairing, continue_pairing, find_and_continue, pair, get_cert,
  pair_challenge, other_phrase,
}
use midnight_sun.Prelude.Maps.{
  find-erase_self, find-erase_ne, find-update_self, find-update-none, find-update_ne,
  find-emplace_new, find-emplace_old, find-emplace_ne,
}
use midnight_sun.Pairing.Phases.{
  next, ready, Handled, get_server_cert-Handled, client_challenge-Handled,
  server_challenge_resp-Handled, client_pairing_secret-Handled,
}

-- The phase of a key. One that is not there has not begun.
abbrev pub phase_at : Server → Bytes → Phase
phase_at s id = elim (find id s.sessions) [ none ↦ unpaired | some sess ↦ sess.last_phase ]

abbrev pub ready_at : Server → Bytes → Bool
ready_at s id = elim (find id s.sessions) [ none ↦ true | some sess ↦ ready sess ]

-- The sessions of the other keys are as before, and the session of `id` is gone, or has kept its phase, or has
-- moved on by one.
pub record Moves (s : Server) (id : Bytes) (t : Server) : Type 0 where
  pub others : (id' : Bytes) → eq_bytes id id' ≡ false → find id' t.sessions ≡ find id' s.sessions
  pub phase :
      (find id t.sessions ≡ none)
      ⊎ ((phase_at t id ≡ phase_at s id) ⊎ (phase_at t id ≡ next (phase_at s id)))
  pub keeps_ready : ready_at s id ≡ true → ready_at t id ≡ true

Moves-refl : (s : Server) (id : Bytes) → Moves s id s
Moves-refl s id = record { others = λ id' ne. refl; phase = inr (inl refl); keeps_ready = λ r. r }

pub Handled-Moves :
    (s t : Server) (id : Bytes) (sess : Session)
    → find id s.sessions ≡ some sess
    → Handled s id sess t
    → Moves s id t
Handled-Moves s t id sess here (inl ended) =
    let gone : find id t.sessions ≡ none = ap (find id) ended ∙ find-erase_self id s.sessions in
    record {
      others = λ id' ne. ap (find id') ended ∙ find-erase_ne id id' s.sessions ne;
      phase = inl gone;
      keeps_ready = λ r. ground (arith, gone);
    }
Handled-Moves s t id sess here (inr (new, moved, phase, keeps)) =
    let now : find id t.sessions ≡ some new =
      ap (find id) moved ∙ find-update_self id (λ _. new) s.sessions sess here in
    record {
      others = λ id' ne. ap (find id') moved ∙ find-update_ne id id' (λ _. new) s.sessions ne;
      phase = inr (inr (rw (now, here, phase_at) phase));
      keeps_ready = λ r. rw (now, ready_at) (keeps (ground (arith, r, here)));
    }

-- The session that the first request leaves under its key.
abbrev pub begun : Server → Bytes → (cert : Bytes) → Session
begun s id cert = elim (find id s.sessions) [ none ↦ new_session cert | some sess ↦ sess ]

find-emplace :
    (s : Server) (id cert : Bytes)
    → find id (emplace id (new_session cert) s.sessions) ≡ some (begun s id cert)
find-emplace s id cert = elim (Option-cases (find id s.sessions)) [
  | inl e ↦ rw (e, begun) (find-emplace_new id (new_session cert) s.sessions e)
  | inr (old, e) ↦ rw (e, begun) (find-emplace_old id (new_session cert) old s.sessions e)
]

-- The phases and all but the salt and the response are as before.
record Kept (s : Server) (id : Bytes) (t : Server) : Type 0 where
  others : (id' : Bytes) → eq_bytes id id' ≡ false → find id' t.sessions ≡ find id' s.sessions
  same_phase : phase_at t id ≡ phase_at s id
  same_ready : ready_at t id ≡ ready_at s id

Kept-Moves : (s u t : Server) (id : Bytes) → Kept s id u → Moves u id t → Moves s id t
Kept-Moves s u t id k m = record {
  others = λ id' ne. m.others id' ne ∙ k.others id' ne;
  phase = elim m.phase [
    | inl gone ↦ inl gone
    | inr (inl same) ↦ inr (inl (same ∙ k.same_phase))
    | inr (inr moved) ↦ inr (inr (moved ∙ ap next k.same_phase))
  ];
  keeps_ready = λ r. m.keeps_ready (k.same_ready ∙ r);
}

Kept-Kept : (s u t : Server) (id : Bytes) → Kept s id u → Kept u id t → Kept s id t
Kept-Kept s u t id k l = record {
  others = λ id' ne. l.others id' ne ∙ k.others id' ne;
  same_phase = l.same_phase ∙ k.same_phase;
  same_ready = l.same_ready ∙ k.same_ready;
}

Kept-emplace :
    (s : Server) (id cert : Bytes)
    → Kept s id (record s { sessions = emplace id (new_session cert) s.sessions })
Kept-emplace s id cert = record {
  others = λ id' ne. find-emplace_ne id id' (new_session cert) s.sessions ne;
  same_phase = rw (find-emplace s id cert, phase_at) (ground arith);
  same_ready = rw (find-emplace s id cert, ready_at) (ground arith);
}

Kept-update :
    (s : Server) (id : Bytes) (f : Session → Session)
    → ((x : Session) → (f x).last_phase ≡ x.last_phase)
    → ((x : Session) → ready (f x) ≡ ready x)
    → Kept s id (record s { sessions = update id f s.sessions })
Kept-update s id f phases readies = elim (Option-cases (find id s.sessions)) [
  | inl missing ↦
      let now = find-update-none id f s.sessions missing in
      record {
        others = others;
        same_phase = rw (now, missing, phase_at) refl;
        same_ready = rw (now, missing, ready_at) refl;
      }
  | inr (sess, here) ↦
      let now = find-update_self id f s.sessions sess here in
      record {
        others = others;
        same_phase = rw (now, here, phase_at) (phases sess);
        same_ready = rw (now, here, ready_at) (readies sess);
      }
]
  where
    others :
        (id' : Bytes)
        → eq_bytes id id' ≡ false
        → find id' (update id f s.sessions) ≡ find id' s.sessions
    others id' ne = find-update_ne id id' f s.sessions ne

await_pin-Moves :
    (c : Crypto) (s : Server) (id : Bytes) (stdin_pin : Option Bytes)
    → let (t, a) = await_pin c s id stdin_pin in Moves s id t
unfolding await_pin
await_pin-Moves c s id none =
    let t = record s {
      sessions = update id (λ sess. record sess { response = true }) s.sessions;
    } in
    Kept-Moves s t t id
      (Kept-update s id (λ sess. record sess { response = true }) (λ x. refl) (λ x. refl))
      (Moves-refl t id)
await_pin-Moves c s id (some code) = elim (Option-cases (find id s.sessions)) [
  | inl missing ↦ rw (missing, await_pin) (Moves-refl s id)
  | inr (sess, here) ↦
      rw (here, await_pin)
        (Handled-Moves s (get_server_cert c s id sess code).0 id sess here
          (get_server_cert-Handled c s id sess code))
]

begin_pairing-Moves :
    (c : Crypto) (s : Server) (id : Bytes) (q : Query) (stdin_pin : Option Bytes)
    → let (t, a) = begin_pairing c s id q stdin_pin in Moves s id t
unfolding begin_pairing
begin_pairing-Moves c s id q stdin_pin = elim (Option-cases q.clientcert) [
  | inl missing ↦ rw (missing) (Moves-refl s id)
  | inr (cert, given) ↦
      let u = record s {
        sessions = emplace id (new_session (from_hex_vec cert true)) s.sessions;
      } in
      elim (Option-cases q.salt) [
        | inl missing ↦
            rw (given, missing)
              (Kept-Moves s u u id (Kept-emplace s id (from_hex_vec cert true)) (Moves-refl u id))
        | inr (salt, salted) ↦
            let v = record u {
              sessions = update id (λ sess. record sess { salt = salt }) u.sessions;
            } in
            rw (given, salted)
              (Kept-Moves s v (await_pin c v id stdin_pin).0 id
                (Kept-Kept s u v id (Kept-emplace s id (from_hex_vec cert true))
                  (Kept-update u id (λ sess. record sess { salt = salt }) (λ x. refl) (λ x. refl)))
                (await_pin-Moves c v id stdin_pin))
      ]
]

find_and_continue-Moves :
    (c : Crypto) (s : Server) (id : Bytes) (q : Query) (secret challenge : Bytes)
    → is_empty secret ≡ false
    → let (t, a) = find_and_continue c s id q secret challenge in Moves s id t
unfolding continue_pairing
find_and_continue-Moves c s id q secret challenge drawn = elim (Option-cases (find id s.sessions)) [
  | inl missing ↦ rw (missing, find_and_continue) (Moves-refl s id)
  | inr (sess, here) ↦
      rw (here, find_and_continue)
        (by_parameter sess here q.clientchallenge q.serverchallengeresp q.clientpairingsecret)
]
  where
    by_parameter :
        (sess : Session)
        → find id s.sessions ≡ some sess
        → (x y z : Option Bytes)
        → Moves s id
            (continue_pairing c s id sess
              (record q { clientchallenge = x; serverchallengeresp = y; clientpairingsecret = z })
              secret
              challenge).0
    by_parameter sess here (some x) y z =
        Handled-Moves s (client_challenge c s id sess (from_hex_vec x true) secret challenge).0 id
          sess here
          (client_challenge-Handled c s id sess (from_hex_vec x true) secret challenge drawn)
    by_parameter sess here none (some y) z =
        Handled-Moves s (server_challenge_resp c s id sess (from_hex_vec y true)).0 id sess here
          (server_challenge_resp-Handled c s id sess (from_hex_vec y true))
    by_parameter sess here none none (some z) =
        Handled-Moves s (client_pairing_secret c s id sess (from_hex_vec z true)).0 id sess here
          (client_pairing_secret-Handled c s id sess (from_hex_vec z true))
    by_parameter sess here none none none = Moves-refl s id

-- A request with a uniqueid changes no other session, and that session is gone afterwards, or has kept its
-- phase, or has moved on to the next one. If what its phase needs was there, it is there afterwards. The random
-- secret must not be empty.
pub pair-Moves :
    (c : Crypto) (s : Server) (id : Bytes) (q : Query) (stdin_pin : Option Bytes)
    (secret challenge : Bytes)
    → q.uniqueid ≡ some id
    → is_empty secret ≡ false
    → let (t, a) = pair c s q stdin_pin secret challenge in Moves s id t
unfolding pair continue_pairing begin_pairing
pair-Moves c s id q stdin_pin secret challenge named drawn = rw (named) (by_phrase q.phrase)
  where
    by_phrase :
        (p : Option Phrase)
        → Moves s id
            (pair c s (record q { uniqueid = some id; phrase = p }) stdin_pin secret challenge).0
    by_phrase none = find_and_continue-Moves c s id q secret challenge drawn
    by_phrase (some get_cert) = begin_pairing-Moves c s id q stdin_pin
    by_phrase (some pair_challenge) = Moves-refl s id
    by_phrase (some other_phrase) = find_and_continue-Moves c s id q secret challenge drawn
