-- ===== src/Stream/Session.antt =====
-- src/rtsp.cpp and src/stream.cpp: the launch session that waits for its client, the slots of the
-- sessions that stream, and `start`, `stop` and `join` of a session with what they tell the platform.
-- A session is a number. `cmd_announce` inserts a session and starts it in two steps, between which
-- other threads may clear the slots; the thread of the server runs one `cmd_announce` at a time. Each of
-- the two steps, and each `clear` under its lock, is one step of the model.
use midnight_sun.Prelude.{
  ℕ, zero, suc, ◌+◌, ◌-◌, ◌%◌, ◌^◌, Bool, true, false, not, ◌&&◌, ◌||◌, Option, none, some, List,
  [], ◌∷◌, ◌++◌, if◌then◌else◌, ◌==◌,
}
use midnight_sun.Stream.Control.{
  State, stopped, stopping, starting, running, is_running, is_stopping,
}
pub mod Slots
pub mod Balanced
pub mod Pending

pub record Slot : Type 0 where
  pub id : ℕ
  pub state : State

-- Calls of the platform and of the display device.
pub data Call : Type 0 where
  will_start will_stop revert_configuration : Call

-- `calls` has the newest call first; `launch` is the value of `launch_event`, and `armed` whether the
-- timer `raised_timer` runs.
pub record Host : Type 0 where
  pub launch : Option ℕ
  pub armed : Bool
  pub slots : List Slot
  pub announcing : Option ℕ  -- the session that `cmd_announce` has inserted and not started yet
  pub threw : Bool  -- whether the last `clear` threw
  pub running_sessions : ℕ  -- std::atomic_uint
  pub calls : List Call

abbrev pub new_host : Host
new_host = record {
  launch = none;
  armed = false;
  slots = [];
  announcing = none;
  threw = false;
  running_sessions = 0;
  calls = [];
}

abbrev pub is_pending : Option ℕ → Bool
is_pending none = false
is_pending (some id) = true

unfoldable pub session_raise : ℕ → Host → Host
session_raise id h = if is_pending h.launch then h else record h { launch = some id; armed = true }

-- The handler of the timer, if it was not cancelled.
abbrev pub expire_if : Bool → Host → Host
expire_if true h = record h { launch = none; armed = false }
expire_if false h = h

unfoldable pub expire : Host → Host
expire h = expire_if h.armed h

abbrev pub is_launch : ℕ → Option ℕ → Bool
is_launch id none = false
is_launch id (some l) = l == id

unfoldable pub session_clear : ℕ → Host → Host
session_clear id h = if is_launch id h.launch then record h { launch = none; armed = false } else h

-- The end of `session::start`: the count, and the platform for the first session.
abbrev pub count_up : Host → Host
count_up h =
    let n = (h.running_sessions + 1) % 2 ^ 32 in
    record h { running_sessions = n; calls = if n == 1 then will_start ∷ h.calls else h.calls }

-- A session that is in the slots before its start is STOPPED and has no threads.
abbrev pub is_stopped : State → Bool
is_stopped stopped = true
is_stopped stopping = false
is_stopped starting = false
is_stopped running = false

abbrev pub is_announced : ℕ → Slot → Bool
is_announced id s = is_stopped s.state && s.id == id

-- The first step of the end of `cmd_announce`; there is no second one while the first waits for `start`.
unfoldable pub insert : ℕ → Host → Host
insert id h = if is_pending h.announcing then h else record h {
  slots = h.slots ++ (record { id = id; state = stopped } ∷ []);
  announcing = some id;
}

abbrev pub mark_running : ℕ → List Slot → List Slot
mark_running id [] = []
mark_running id (s ∷ ss) =
    let rest = mark_running id ss in
    if is_announced id s then record s { state = running } ∷ ss else s ∷ rest

abbrev pub remove : ℕ → List Slot → List Slot
remove id [] = []
remove id (s ∷ ss) = let rest = remove id ss in if is_announced id s then ss else s ∷ rest

-- The second step, where `is_broadcast` is whether the broadcast could be started: `session::start`,
-- and `remove` where it fails.
abbrev pub start_announced : Bool → Option ℕ → Host → Host
start_announced is_broadcast none h = h
start_announced true (some id) h =
    count_up (record h { slots = mark_running id h.slots; announcing = none })
start_announced false (some id) h = record h { slots = remove id h.slots; announcing = none }

unfoldable pub start : Bool → Host → Host
start is_broadcast h = start_announced is_broadcast h.announcing h

abbrev pub stop_slot : Slot → Slot
stop_slot s = if is_running s.state then record s { state = stopping } else s

abbrev pub stop_slots : ℕ → List Slot → List Slot
stop_slots id [] = []
stop_slots id (s ∷ ss) = (if s.id == id then stop_slot s else s) ∷ stop_slots id ss

unfoldable pub stop : ℕ → Host → Host
stop id h = record h { slots = stop_slots id h.slots }

-- The end of `session::join`, after the threads of the session have ended.
abbrev pub join : Bool → Bool → ℕ × List Call → ℕ × List Call
join revert_on_disconnect is_app (sessions, calls) =
    let n = (sessions + (2 ^ 32 - 1)) % 2 ^ 32 in
    let reverted =
      if revert_on_disconnect || not is_app then revert_configuration ∷ calls else calls in
    (n, if n == 0 then will_stop ∷ reverted else calls)

-- The loop of `clear`: the slots that stay, the count and the calls after it, and whether it throws,
-- which `join` does on a session whose threads have not been started.
abbrev pub clear_slots :
    Bool → Bool → Bool → List Slot → ℕ × List Call → List Slot × ((ℕ × List Call) × Bool)
clear_slots all revert_on_disconnect is_app [] counts = ([], (counts, false))
clear_slots all revert_on_disconnect is_app (s ∷ ss) counts =
    let gone = all || is_stopping s.state in
    let (stay, last) =
      clear_slots all revert_on_disconnect is_app ss
        (if gone then join revert_on_disconnect is_app counts else counts) in
    if gone && is_stopped s.state
    then (s ∷ ss, (counts, true))
    else (if gone then stay else s ∷ stay, last)

unfoldable pub clear : Bool → Bool → Bool → Host → Host
clear all revert_on_disconnect is_app h =
    let (stay, (counts, thrown)) =
      clear_slots all revert_on_disconnect is_app h.slots (h.running_sessions, h.calls) in
    record h { slots = stay; running_sessions = counts.0; calls = counts.1; threw = thrown }

pub data Input : Type 0 where
  raised : ℕ → Input
  expired : Input
  connected : ℕ → Input
  inserted : ℕ → Input
  started : Bool → Input
  stopped_session : ℕ → Input
  cleared : Bool → Bool → Bool → Input

-- A run goes on after an exception of `clear`, which a caller may catch.
unfoldable pub step : Input → Host → Host
unfolding session_raise expire session_clear insert start stop clear
step (raised id) h = session_raise id h
step expired h = expire h
step (connected id) h = session_clear id h
step (inserted id) h = insert id h
step (started is_broadcast) h = start is_broadcast h
step (stopped_session id) h = stop id h
step (cleared all revert_on_disconnect is_app) h = clear all revert_on_disconnect is_app h

unfoldable pub run : List Input → Host → Host
unfolding step
run [] h = h
run (i ∷ inputs) h = run inputs (step i h)
