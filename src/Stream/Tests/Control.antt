-- ===== src/Stream/Tests/Control.antt =====
-- Runs of the control server, its messages and the vectors of the ciphers, and their theorems.
use midnight_sun.Prelude.{
  ◌≡◌, refl, true, false, Option, none, some, List, [], ◌∷◌, take, replicate, if◌then◌else◌, ◌==◌,
  arith,
}
use midnight_sun.Prelude.Maps.{Bytes}
use midnight_sun.Stream.Control.{
  Session, Server, running, Input, started, event, tick, receive, connect, run, sweep, new_server,
}
use midnight_sun.Stream.Control.Sessions.{IsSound, session_at}
use midnight_sun.Stream.Control.Sweep.{sweep_ends, ended_session}
use midnight_sun.Stream.Control.Runs.{run-IsSound}
use midnight_sun.Stream.Messages.{Channel, Outcome, input, dropped, stop_session}
use midnight_sun.Stream.Messages.Authentic.{IsAuthentic, receive-IsAuthentic}
use midnight_sun.Stream.Nonces.{Use, host_control, nonce}
use midnight_sun.Stream.Nonces.Separate.{nonce_separate}
use midnight_sun.Stream.Messages
use midnight_sun.Stream.Session
use midnight_sun.Stream.Session.{Host, new_host, will_start, will_stop, revert_configuration}
use midnight_sun.Stream.Session.Balanced.{IsBalanced, run-IsBalanced}
use midnight_sun.Stream.Session.Pending.{run_keeps_launch}

abbrev alice : Session
alice = record {
  id = 1;
  peer = none;
  session_id_v1 = true;
  connect_data = 77;
  expected_peer_address = [];
  launch_session_id = 5;
  ping_timeout = 0;
  state = running;
  shutdown = false;
  control_end = false;
}

abbrev bob : Session
bob = record alice { id = 2; connect_data = 88 }

-- Two clients connect; one of them is not heard of again.
abbrev two_clients : List Input
two_clients =
    started alice
    ∷ started bob
    ∷ event connect 10 88 [] true 100
    ∷ event connect 11 77 [] true 50
    ∷ event receive 10 0 [] true 200
    ∷ tick 150
    ∷ []

two_clients_left : (run two_clients new_server).peer_to_session ≡ (10, 2) ∷ []
unfolding run
two_clients_left = refl

run-IsSound_example : IsSound (run two_clients new_server)
unfolding run
run-IsSound_example = run-IsSound two_clients (refl, (refl, (tt, (tt, (tt, (tt, tt))))))

abbrev served : Server
served = record { sessions = alice ∷ bob ∷ []; peer_to_session = []; ended = [] }

sweep_ends_example : session_at 1 (sweep 3 served).0.ended ≡ some (ended_session alice)
sweep_ends_example = sweep_ends 3 served 1 alice refl refl refl (omega arith)

-- A cipher that passes the texts whose tag begins with 1.
abbrev decrypt : Bytes → Bytes → Option Bytes
decrypt iv [] = none
decrypt iv (t ∷ text) = if t == 1 then some text else none

abbrev channel : Channel
channel = record {
  encrypted_control = true;
  control_v2 = true;
  incoming_iv = [];
  legacy_input_enc_iv = [];
}

-- A message with 20 bytes of text: input of type 0x0206.
abbrev message : Bytes
message = 1 ∷ 0 ∷ 24 ∷ 0 ∷ 9 ∷ 0 ∷ 0 ∷ 0 ∷ 1 ∷ 6 ∷ 2 ∷ 0 ∷ 0 ∷ replicate 15 42

message_input : (Messages.receive decrypt channel message).1 ≡ input (replicate 15 42)
unfolding Messages.receive
message_input = refl

message_plain : (Messages.receive decrypt channel (6 ∷ 2 ∷ 0 ∷ [])).1 ≡ dropped
unfolding Messages.receive
message_plain = refl

receive-IsAuthentic_example :
    IsAuthentic decrypt channel message (Messages.receive decrypt channel message).1
receive-IsAuthentic_example = receive-IsAuthentic decrypt channel message refl

abbrev host_use : Use
host_use = record { stream = host_control; control_v2 = true; number = 300; kept = [] }

-- The bytes that are kept under the number do not matter.
abbrev host_again : Use
host_again = record host_use { kept = 9 ∷ [] }

nonce_separate_example :
    (host_use.stream ≡ host_again.stream) × (host_use.number ≡ host_again.number)
unfolding nonce
nonce_separate_example =
    nonce_separate host_use host_again (refl, omega arith) (refl, omega arith) refl

-- A launch, its client, its session, another launch, and the end of the first session.
abbrev one_session : List Session.Input
one_session =
    Session.raised 1
    ∷ Session.connected 1
    ∷ Session.inserted 1
    ∷ Session.started true
    ∷ Session.raised 2
    ∷ Session.stopped_session 1
    ∷ Session.cleared false false false
    ∷ []

one_session_calls :
    (Session.run one_session new_host).calls ≡ will_stop ∷ revert_configuration ∷ will_start ∷ []
unfolding Session.run
one_session_calls = refl

-- A clean-up of all slots between the insertion and the start of a session.
abbrev raced : List Session.Input
raced = Session.inserted 1 ∷ Session.cleared true false false ∷ Session.started true ∷ []

raced_throws :
    ((Session.run (take 2 raced) new_host).threw ≡ true)
    × ((Session.run raced new_host).running_sessions ≡ 1)
unfolding Session.run
raced_throws = (refl, refl)

run-IsBalanced_example : IsBalanced (Session.run one_session new_host)
run-IsBalanced_example = run-IsBalanced one_session (omega arith)

abbrev waiting : Host
waiting = record new_host { launch = some 1; armed = true }

run_keeps_launch_example :
    (Session.run
      (Session.raised 2 ∷ Session.connected 3 ∷ Session.inserted 4 ∷ Session.started true ∷ [])
      waiting).launch
    ≡ some 1
run_keeps_launch_example =
    run_keeps_launch
      (Session.raised 2 ∷ Session.connected 3 ∷ Session.inserted 4 ∷ Session.started true ∷ [])
      waiting 1 refl (tt, (refl, (tt, (tt, tt))))
