-- ===== src/Stream/Control.antt =====
-- src/stream.cpp: the control server, `control_server_t::get_session` and `iterate`, the loop of
-- `controlBroadcastThread` over the sessions, and `session::stop`. ENet is not modelled: a peer is a
-- number, and an event brings the peer, its address and its connect data. A session is told from
-- another one by its number, which stands for the pointer to it.
use midnight_sun.Prelude.{
  ℕ, zero, suc, ◌+◌, Bool, true, false, not, ◌&&◌, ◌||◌, Option, none, some, List, [], ◌∷◌, ◌++◌,
  if◌then◌else◌, ltb, ◌==◌, eqb,
}
use midnight_sun.Prelude.Maps.{Bytes, eq_bytes}
pub mod Sessions
pub mod Sweep
pub mod Runs

pub data State : Type 0 where
  stopped stopping starting running : State

-- The parts of `session_t` that the control server uses.
pub record Session : Type 0 where
  pub id : ℕ
  pub peer : Option ℕ
  pub session_id_v1 : Bool  -- mlFeatureFlags & ML_FF_SESSION_ID_V1
  pub connect_data : ℕ
  pub expected_peer_address : Bytes
  pub launch_session_id : ℕ
  pub ping_timeout : ℕ
  pub state : State
  pub shutdown : Bool
  pub control_end : Bool

-- `_sessions` and `_peer_to_session`, which maps peers to the numbers of sessions; `ended` are the
-- sessions that left `_sessions`.
pub record Server : Type 0 where
  pub sessions : List Session
  pub peer_to_session : List (ℕ × ℕ)
  pub ended : List Session

abbrev pub find_peer : ℕ → List (ℕ × ℕ) → Option ℕ
find_peer peer [] = none
find_peer peer ((p, id) ∷ m) = if p == peer then some id else find_peer peer m

-- A peer that has an entry keeps it.
abbrev pub emplace_peer : ℕ → ℕ → List (ℕ × ℕ) → List (ℕ × ℕ)
emplace_peer peer id [] = (peer, id) ∷ []
emplace_peer peer id ((p, i) ∷ m) =
    if p == peer then (p, i) ∷ m else (p, i) ∷ emplace_peer peer id m

abbrev pub erase_peer : ℕ → List (ℕ × ℕ) → List (ℕ × ℕ)
erase_peer peer [] = []
erase_peer peer ((p, i) ∷ m) =
    let rest = erase_peer peer m in if p == peer then rest else (p, i) ∷ rest

abbrev pub has_peer : Session → Bool
has_peer s = elim s.peer [ none ↦ false | some p ↦ true ]

-- Whether the loop of `get_session` stops at a session.
abbrev pub is_expected : ℕ → Bytes → Session → Bool
is_expected connect_data address s =
    not (has_peer s)
    && (if s.session_id_v1
        then s.connect_data == connect_data
        else eq_bytes s.expected_peer_address address)

abbrev pub first_expected : ℕ → Bytes → List Session → Option Session
first_expected connect_data address [] = none
first_expected connect_data address (s ∷ ss) =
    if is_expected connect_data address s then some s else first_expected connect_data address ss

-- A write through the pointer to a session.
abbrev pub update_session : ℕ → (Session → Session) → List Session → List Session
update_session id f [] = []
update_session id f (s ∷ ss) =
    let rest = update_session id f ss in (if s.id == id then f s else s) ∷ rest

abbrev pub claim : ℕ → Session → Session
claim p s = record s { peer = some p }

pub data Found : Type 0 where
  -- the session, and the launch session that is torn down
  known : ℕ → Found
  claimed : ℕ → ℕ → Found
  thrown : Found
  unknown : Found

-- The slow path. `is_address` is whether the local address of the connection can be read.
abbrev pub claim_session : ℕ → Bool → Option Session → Server → Found × Server
claim_session peer is_address none server = (unknown, server)
claim_session peer is_address (some s) server =
    let with_peer : Server = record server {
      sessions = update_session s.id (claim peer) server.sessions;
    } in
    if is_address
    then (
      claimed s.id s.launch_session_id,
      record with_peer { peer_to_session = emplace_peer peer s.id server.peer_to_session },
    )
    else (thrown, with_peer)

unfoldable pub get_session : ℕ → ℕ → Bytes → Bool → Server → Found × Server
get_session peer connect_data address is_address server =
    elim (find_peer peer server.peer_to_session) [
      | some id ↦ (known id, server)
      | none ↦
          claim_session peer is_address (first_expected connect_data address server.sessions) server
    ]

abbrev pub is_running : State → Bool
is_running running = true
is_running _ = false

abbrev pub is_stopping : State → Bool
is_stopping stopping = true
is_stopping _ = false

-- `session::stop`. No code stores STARTING, so the wait for its end is left out.
abbrev pub stop : Session → Session
stop s = if is_running s.state then record s { state = stopping; shutdown = true } else s

pub data EventType : Type 0 where
  receive connect disconnect : EventType

-- What `iterate` does with an event: the peer is turned away, or the message of a session is handed
-- to `call`, or neither.
pub data Reaction : Type 0 where
  rejected : ℕ → Reaction
  call : ℕ → Reaction
  quiet : Reaction
  failed : Reaction

abbrev pub touch : ℕ → Session → Session
touch timeout s = record s { ping_timeout = timeout }

abbrev pub react : EventType → ℕ → Server → Reaction × Server
react receive id server = (call id, server)
react connect id server = (quiet, server)
react disconnect id server =
    (quiet, record server { sessions = update_session id stop server.sessions })

abbrev pub react_found : EventType → ℕ → ℕ → Found × Server → Reaction × Server
react_found event peer timeout (known id, server) =
    react event id (record server { sessions = update_session id (touch timeout) server.sessions })
react_found event peer timeout (claimed id launch, server) =
    react event id (record server { sessions = update_session id (touch timeout) server.sessions })
react_found event peer timeout (thrown, server) = (failed, server)
react_found event peer timeout (unknown, server) = (rejected peer, server)

unfoldable pub iterate : EventType → ℕ → ℕ → Bytes → Bool → ℕ → Server → Reaction × Server
unfolding get_session
iterate event peer connect_data address is_address timeout server =
    react_found event peer timeout (get_session peer connect_data address is_address server)

-- One session in the loop of `controlBroadcastThread`.
abbrev pub time_out : ℕ → Session → Session
time_out now s = if ltb s.ping_timeout now then stop s else s

abbrev pub forget_peer : Option ℕ → List (ℕ × ℕ) → List (ℕ × ℕ)
forget_peer none m = m
forget_peer (some p) m = erase_peer p m

-- The sessions that stay, the map, those that end, and whether one still waits for its peer. The
-- queues of a session that stays are emptied; what they hold is not modelled.
unfoldable pub sweep_sessions :
    ℕ → List Session → List (ℕ × ℕ) → List Session × (List (ℕ × ℕ) × (List Session × Bool))
sweep_sessions now [] m = ([], (m, ([], false)))
sweep_sessions now (s ∷ ss) m =
    let s' = time_out now s in
    let gone = is_stopping s'.state in
    let (stay, (m', (ended, awaiting))) =
      sweep_sessions now ss (if gone then forget_peer s'.peer m else m) in
    if gone
    then (stay, (m', (record s' { control_end = true } ∷ ended, awaiting)))
    else (s' ∷ stay, (m', (ended, not (has_peer s') || awaiting)))

unfoldable pub sweep : ℕ → Server → Server × Bool
unfolding sweep_sessions
sweep now server =
    let (stay, (m, (ended, awaiting))) =
      sweep_sessions now server.sessions server.peer_to_session in
    (record { sessions = stay; peer_to_session = m; ended = server.ended ++ ended }, awaiting)

-- What reaches the server, one thing at a time: `session::start` adds a session without a peer, an
-- event of ENet arrives, or the loop passes over the sessions.
pub data Input : Type 0 where
  started : Session → Input
  event : EventType → ℕ → ℕ → Bytes → Bool → ℕ → Input
  tick : ℕ → Input

abbrev pub add_session : Session → Server → Server
add_session s server = record server {
  sessions = server.sessions ++ (record s { peer = none } ∷ []);
}

unfoldable pub step : Input → Server → Server
unfolding iterate sweep
step (started s) server = add_session s server
step (event e peer connect_data address is_address timeout) server =
    (iterate e peer connect_data address is_address timeout server).1
step (tick now) server = (sweep now server).0

unfoldable pub run : List Input → Server → Server
unfolding step
run [] server = server
run (i ∷ is) server = run is (step i server)

abbrev pub new_server : Server
new_server = record { sessions = []; peer_to_session = []; ended = [] }
