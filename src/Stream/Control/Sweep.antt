-- ===== src/Stream/Control/Sweep.antt =====
-- The loop of `controlBroadcastThread` in src/stream.cpp over the sessions: who stays, and who ends.
use mathlib.Core.Option.{some-injective}
use midnight_sun.Prelude.{
  ℕ, ◌<◌, ◌≡◌, refl, sym, ap, ◌∙◌, subst, inl, inr, Bool, true, Option, none, some, List, [], ◌∷◌,
  ◌++◌, if◌then◌else◌, ltb, ◌==◌, Bool-cases, arith,
}
use midnight_sun.Prelude.Maps.{Bytes}
use midnight_sun.Stream.Control.{
  stopping, Session, Server, find_peer, erase_peer, update_session, get_session, is_running,
  is_stopping, stop, EventType, receive, connect, disconnect, touch, react, react_found, Found,
  known, claimed, thrown, unknown, iterate, time_out, forget_peer, sweep_sessions, sweep,
}
use midnight_sun.Stream.Control.Sessions.{
  session_at, Distinct, IsSound, session_at-update_session, update_session-Distinct,
  get_session-IsSound,
}

stop_keeps : (s : Session) → ((stop s).id ≡ s.id) × ((stop s).peer ≡ s.peer)
stop_keeps s = elim (Bool-cases (is_running s.state)) [
  | inl e ↦ rw e (refl, refl)
  | inr e ↦ rw e (refl, refl)
]

time_out_keeps :
    (now : ℕ) (s : Session) → ((time_out now s).id ≡ s.id) × ((time_out now s).peer ≡ s.peer)
time_out_keeps now s = elim (Bool-cases (ltb s.ping_timeout now)) [
  | inl e ↦ rw e (stop_keeps s)
  | inr e ↦ rw e (refl, refl)
]

-- A write that keeps the number and the peer of a session keeps the map sound.
update_session-IsSound :
    (id : ℕ) (f : Session → Session) (server : Server)
    → ((t : Session) → ((f t).id ≡ t.id) × ((f t).peer ≡ t.peer))
    → IsSound server
    → IsSound (record server { sessions = update_session id f server.sessions })
update_session-IsSound id f server keeps (distinct, mapped) = (
  update_session-Distinct id f server.sessions (λ t. (keeps t).0) distinct,
  λ peer i found.
      let (s, (here, has)) = mapped peer i found in
      let same : (if s.id == id then f s else s).peer ≡ s.peer = elim (Bool-cases (s.id == id)) [
        | inl e ↦ rw e (keeps s).1
        | inr e ↦ rw e refl
      ] in
      (
        if s.id == id then f s else s,
        (session_at-update_session id f server.sessions i s (λ t. (keeps t).0) here, same ∙ has),
      ),
)

react-IsSound :
    (event : EventType) (id : ℕ) (server : Server)
    → IsSound server
    → IsSound (react event id server).1
react-IsSound receive id server sound = sound
react-IsSound connect id server sound = sound
react-IsSound disconnect id server sound = update_session-IsSound id stop server stop_keeps sound

react_found-IsSound :
    (event : EventType) (peer timeout : ℕ) (found : Found) (server : Server)
    → IsSound server
    → IsSound (react_found event peer timeout (found, server)).1
react_found-IsSound event peer timeout (known id) server sound =
    react-IsSound event id
      (record server { sessions = update_session id (touch timeout) server.sessions })
      (update_session-IsSound id (touch timeout) server (λ t. (refl, refl)) sound)
react_found-IsSound event peer timeout (claimed id launch) server sound =
    react-IsSound event id
      (record server { sessions = update_session id (touch timeout) server.sessions })
      (update_session-IsSound id (touch timeout) server (λ t. (refl, refl)) sound)
react_found-IsSound event peer timeout thrown server sound = sound
react_found-IsSound event peer timeout unknown server sound = sound

pub iterate-IsSound :
    (event : EventType) (peer connect_data : ℕ) (address : Bytes) (is_address : Bool) (timeout : ℕ)
    (server : Server)
    → IsSound server
    → IsSound (iterate event peer connect_data address is_address timeout server).1
unfolding iterate
iterate-IsSound event peer connect_data address is_address timeout server sound =
    let (found, next) = get_session peer connect_data address is_address server in
    react_found-IsSound event peer timeout found next
      (get_session-IsSound peer connect_data address is_address server sound)

find_peer-erase_peer_self : (p : ℕ) (m : List (ℕ × ℕ)) → find_peer p (erase_peer p m) ≡ none
find_peer-erase_peer_self p [] = refl
find_peer-erase_peer_self p ((r, j) ∷ m) = ground (arith, find_peer-erase_peer_self p m)

find_peer-erase_peer :
    (p q i : ℕ) (m : List (ℕ × ℕ)) → find_peer q (erase_peer p m) ≡ some i → find_peer q m ≡ some i
find_peer-erase_peer p q i [] = λ e. e
find_peer-erase_peer p q i ((r, j) ∷ m) = elim (Bool-cases (r == p)) [
  | inl gone ↦ rw gone (λ e. elim (Bool-cases (r == q)) [
    | inl same ↦
        let ids : q ≡ p = ground arith in absurd (cc (e, find_peer-erase_peer_self p m, ids))
    | inr other ↦ rw other (find_peer-erase_peer p q i m e)
  ])
  | inr stays ↦ rw stays (elim (Bool-cases (r == q)) [
    | inl same ↦ rw same (λ e. e)
    | inr other ↦ rw other (find_peer-erase_peer p q i m)
  ])
]

forget_peer_le :
    (o : Option ℕ) (q i : ℕ) (m : List (ℕ × ℕ))
    → find_peer q (forget_peer o m) ≡ some i
    → find_peer q m ≡ some i
forget_peer_le none q i m = λ e. e
forget_peer_le (some p) q i m = find_peer-erase_peer p q i m

module _ (now : ℕ) where
  abbrev is_gone : Session → Bool
  is_gone s = is_stopping (time_out now s).state

  abbrev map_after : Session → List (ℕ × ℕ) → List (ℕ × ℕ)
  map_after s m = if is_gone s then forget_peer (time_out now s).peer m else m

  map_after_le :
      (s : Session) (q i : ℕ) (m : List (ℕ × ℕ))
      → find_peer q (map_after s m) ≡ some i
      → find_peer q m ≡ some i
  map_after_le s q i m = elim (Bool-cases (is_gone s)) [
    | inl gone ↦ rw gone (forget_peer_le (time_out now s).peer q i m)
    | inr here ↦ rw here (λ e. e)
  ]

  -- The map only loses entries.
  find_peer-sweep_sessions :
      (ss : List Session) (m : List (ℕ × ℕ)) (q i : ℕ)
      → find_peer q (sweep_sessions now ss m).1.0 ≡ some i
      → find_peer q m ≡ some i
  unfolding sweep_sessions
  find_peer-sweep_sessions [] m q i = λ e. e
  find_peer-sweep_sessions (s ∷ ss) m q i = elim (Bool-cases (is_gone s)) [
    | inl gone ↦ rw gone (λ e.
        forget_peer_le (time_out now s).peer q i m
          (find_peer-sweep_sessions ss (forget_peer (time_out now s).peer m) q i e))
    | inr here ↦ rw here (find_peer-sweep_sessions ss m q i)
  ]

  -- A number that is not there does not come.
  session_at-sweep_sessions-none :
      (ss : List Session) (m : List (ℕ × ℕ)) (i : ℕ)
      → session_at i ss ≡ none
      → session_at i (sweep_sessions now ss m).0 ≡ none
  unfolding sweep_sessions
  session_at-sweep_sessions-none [] m i = λ e. e
  session_at-sweep_sessions-none (s ∷ ss) m i =
      let id : ((time_out now s).id == i) ≡ (s.id == i) =
        ap (λ n. n == i) (time_out_keeps now s).0 in
      elim (Bool-cases (s.id == i)) [
        | inl same ↦ rw same (λ e. absurd (cc))
        | inr other ↦ elim (Bool-cases (is_gone s)) [
          | inl gone ↦
              rw (other, gone)
                (session_at-sweep_sessions-none ss (forget_peer (time_out now s).peer m) i)
          | inr here ↦ rw (here, id, other) (session_at-sweep_sessions-none ss m i)
        ]
      ]

  sweep_sessions-Distinct :
      (ss : List Session) (m : List (ℕ × ℕ)) → Distinct ss → Distinct (sweep_sessions now ss m).0
  unfolding sweep_sessions
  sweep_sessions-Distinct [] m d = tt
  sweep_sessions-Distinct (s ∷ ss) m (fresh, d) = elim (Bool-cases (is_gone s)) [
    | inl gone ↦ rw gone (sweep_sessions-Distinct ss (forget_peer (time_out now s).peer m) d)
    | inr here ↦ rw here (
      ap (λ i. session_at i (sweep_sessions now ss m).0) (time_out_keeps now s).0
          ∙ session_at-sweep_sessions-none ss m s.id fresh,
      sweep_sessions-Distinct ss m d,
    )
  ]

  -- A session whose peer still has an entry stays.
  session_at-sweep_sessions :
      (ss : List Session) (m : List (ℕ × ℕ)) (q i : ℕ) (s : Session)
      → session_at i ss ≡ some s
      → s.peer ≡ some q
      → find_peer q (sweep_sessions now ss m).1.0 ≡ some i
      → (u : Session) × ((session_at i (sweep_sessions now ss m).0 ≡ some u) × (u.peer ≡ some q))
  unfolding sweep_sessions
  session_at-sweep_sessions [] m q i s = λ e has found. absurd (cc)
  session_at-sweep_sessions (t ∷ ss) m q i s =
      let id : ((time_out now t).id == i) ≡ (t.id == i) =
        ap (λ n. n == i) (time_out_keeps now t).0 in
      let peer = (time_out_keeps now t).1 in
      elim (Bool-cases (t.id == i)) [
        | inl same ↦ elim (Bool-cases (is_gone t)) [
          | inl gone ↦
              rw (same, gone)
                (λ e has found.
                  let mine : (time_out now t).peer ≡ some q =
                    peer ∙ ap (λ (u : Session). u.peer) (some-injective t s e) ∙ has in
                  let left : find_peer q (forget_peer (time_out now t).peer m) ≡ some i =
                    find_peer-sweep_sessions ss (forget_peer (time_out now t).peer m) q i found in
                  absurd (
                    cc (
                      sym left
                      ∙ ap (λ o. find_peer q (forget_peer o m)) mine
                      ∙ find_peer-erase_peer_self q m)))
          | inr here ↦
              rw (here, id, same)
                (λ e has found. (
                  time_out now t,
                  (refl, peer ∙ ap (λ (u : Session). u.peer) (some-injective t s e) ∙ has),
                ))
        ]
        | inr other ↦ elim (Bool-cases (is_gone t)) [
          | inl gone ↦
              rw (other, gone)
                (session_at-sweep_sessions ss (forget_peer (time_out now t).peer m) q i s)
          | inr here ↦ rw (here, id, other) (session_at-sweep_sessions ss m q i s)
        ]
      ]

-- A pass of `controlBroadcastThread` over the sessions, `sweep`, keeps the map sound: no peer of the
-- map leads to a session that the pass has ended and removed, and all others lead where they did.
pub sweep-IsSound : (now : ℕ) (server : Server) → IsSound server → IsSound (sweep now server).0
unfolding sweep
sweep-IsSound now server (distinct, mapped) = (
  sweep_sessions-Distinct now server.sessions server.peer_to_session distinct,
  λ q i found.
      let (s, (here, has)) =
        mapped q i
          (find_peer-sweep_sessions now server.sessions server.peer_to_session q i found) in
      session_at-sweep_sessions now server.sessions server.peer_to_session q i s here has found,
)

-- The session after its end.
abbrev pub ended_session : Session → Session
ended_session s = record s { state = stopping; shutdown = true; control_end = true }

time_out_late :
    (now : ℕ) (s : Session)
    → is_running s.state ≡ true
    → s.ping_timeout < now
    → time_out now s ≡ record s { state = stopping; shutdown = true }
time_out_late now s alive late =
    let due : ltb s.ping_timeout now ≡ true = ground arith in rw (due, alive) refl

module _ (now : ℕ) where
  ended_head :
      (ss : List Session) (m : List (ℕ × ℕ)) (i : ℕ) (s : Session)
      → (s.id == i) ≡ true
      → is_running s.state ≡ true
      → s.ping_timeout < now
      → session_at i (sweep_sessions now (s ∷ ss) m).1.1.0 ≡ some (ended_session s)
  unfolding sweep_sessions
  ended_head ss m i s same alive late = rw (time_out_late now s alive late, same) refl

  ended-sweep_sessions :
      (ss : List Session) (m : List (ℕ × ℕ)) (i : ℕ) (s : Session)
      → session_at i ss ≡ some s
      → is_running s.state ≡ true
      → s.ping_timeout < now
      → session_at i (sweep_sessions now ss m).1.1.0 ≡ some (ended_session s)
  unfolding sweep_sessions
  ended-sweep_sessions [] m i s = λ e alive late. absurd (cc)
  ended-sweep_sessions (t ∷ ss) m i s =
      let id : ((time_out now t).id == i) ≡ (t.id == i) =
        ap (λ n. n == i) (time_out_keeps now t).0 in
      elim (Bool-cases (t.id == i)) [
        | inl same ↦ rw same (λ e alive late.
            let one : t ≡ s = some-injective t s e in
            subst (λ u. session_at i (sweep_sessions now (u ∷ ss) m).1.1.0 ≡ some (ended_session s))
              (sym one)
              (ended_head ss m i s (ap (λ (u : Session). u.id == i) (sym one) ∙ same) alive late))
        | inr other ↦ elim (Bool-cases (is_gone now t)) [
          | inl gone ↦
              rw (gone, id, other)
                (ended-sweep_sessions ss (forget_peer (time_out now t).peer m) i s)
          | inr here ↦ rw (here, other) (ended-sweep_sessions ss m i s)
        ]
      ]

-- A pass of `sweep` at a time past the ping timeout of a running session: the session is among those
-- that end, stopping, with its shutdown event and the end of its control stream raised.
pub sweep_ends :
    (now : ℕ) (server : Server) (i : ℕ) (s : Session)
    → server.ended ≡ []
    → session_at i server.sessions ≡ some s
    → is_running s.state ≡ true
    → s.ping_timeout < now
    → session_at i (sweep now server).0.ended ≡ some (ended_session s)
unfolding sweep
sweep_ends now server i s none_ended here alive late =
    ap
      (λ es. session_at i (es ++ (sweep_sessions now server.sessions server.peer_to_session).1.1.0))
      none_ended
    ∙ ended-sweep_sessions now server.sessions server.peer_to_session i s here alive late
