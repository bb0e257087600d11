-- ===== src/Stream/Control/Runs.antt =====
-- The control server of src/stream.cpp over any order of starts, events and passes.
use midnight_sun.Prelude.{
  ℕ, ◌≡◌, refl, inl, inr, false, none, some, List, [], ◌∷◌, ◌++◌, ◌==◌, Bool-cases, arith,
}
use midnight_sun.Stream.Control.{
  Session, Server, Input, started, event, tick, step, run, new_server,
}
use midnight_sun.Stream.Control.Sessions.{session_at, Distinct, IsSound}
use midnight_sun.Stream.Control.Sweep.{iterate-IsSound, sweep-IsSound}

session_at-append :
    (i : ℕ) (ss : List Session) (t s : Session)
    → session_at i ss ≡ some s
    → session_at i (ss ++ (t ∷ [])) ≡ some s
session_at-append i [] t s = λ e. absurd (cc)
session_at-append i (u ∷ ss) t s = elim (Bool-cases (u.id == i)) [
  | inl same ↦ rw same (λ e. e)
  | inr other ↦ rw other (session_at-append i ss t s)
]

session_at-append-none :
    (i : ℕ) (ss : List Session) (t : Session)
    → session_at i ss ≡ none
    → (t.id == i) ≡ false
    → session_at i (ss ++ (t ∷ [])) ≡ none
session_at-append-none i [] t = λ e apart. rw apart refl
session_at-append-none i (u ∷ ss) t = elim (Bool-cases (u.id == i)) [
  | inl same ↦ rw same (λ e apart. absurd (cc))
  | inr other ↦ rw other (session_at-append-none i ss t)
]

append-Distinct :
    (ss : List Session) (t : Session)
    → Distinct ss
    → session_at t.id ss ≡ none
    → Distinct (ss ++ (t ∷ []))
append-Distinct [] t d = λ fresh. (refl, tt)
append-Distinct (u ∷ ss) t (new, d) = elim (Bool-cases (u.id == t.id)) [
  | inl same ↦ rw same (λ e. absurd (cc))
  | inr other ↦
      let apart : (t.id == u.id) ≡ false = ground arith in
      rw other (λ fresh. (session_at-append-none u.id ss t new apart, append-Distinct ss t d fresh))
]

abbrev pub FreshAt : Input → Server → Type 0
FreshAt (started s) server = session_at s.id server.sessions ≡ none
FreshAt (event e peer connect_data address is_address timeout) server = Unit
FreshAt (tick now) server = Unit

-- Each session that starts has a number that no session of the list has then: it is a new object.
abbrev pub StartsFresh : List Input → Server → Type 0
StartsFresh [] server = Unit
StartsFresh (i ∷ inputs) server = FreshAt i server × StartsFresh inputs (step i server)

step-IsSound :
    (i : Input) (server : Server) → FreshAt i server → IsSound server → IsSound (step i server)
unfolding step
step-IsSound (started s) server fresh (distinct, mapped) =
    let added : Session = record s { peer = none } in
    (
      append-Distinct server.sessions added distinct fresh,
      λ peer id found.
          let (u, (here, has)) = mapped peer id found in
          (u, (session_at-append id server.sessions added u here, has)),
    )
step-IsSound (event e peer connect_data address is_address timeout) server fresh sound =
    iterate-IsSound e peer connect_data address is_address timeout server sound
step-IsSound (tick now) server fresh sound = sweep-IsSound now server sound

run_from-IsSound :
    (inputs : List Input) (server : Server)
    → StartsFresh inputs server
    → IsSound server
    → IsSound (run inputs server)
unfolding run
run_from-IsSound [] server fresh sound = sound
run_from-IsSound (i ∷ inputs) server (here, fresh) sound =
    run_from-IsSound inputs (step i server) fresh (step-IsSound i server here sound)

-- The control server from its creation on, over starts of sessions, events of ENet and passes in any
-- order, each session a new object when it starts: the map from peers never leads to a session that
-- has been removed, and always to one that has this peer, so that no message of a peer reaches the
-- session of another one.
pub run-IsSound :
    (inputs : List Input) → StartsFresh inputs new_server → IsSound (run inputs new_server)
run-IsSound inputs fresh =
    run_from-IsSound inputs new_server fresh (tt, λ peer id found. absurd (cc))
