-- ===== src/Stream/Session/Pending.antt =====
-- The launch session of src/rtsp.cpp between its request and the connection of its client.
use midnight_sun.Prelude.{
  ℕ, ◌≡◌, ap, ◌∙◌, inl, inr, Bool, true, false, Option, none, some, List, [], ◌∷◌, if◌then◌else◌,
  ◌==◌, All, Bool-cases,
}
use midnight_sun.Stream.Session.{
  Host, is_pending, is_launch, session_raise, expire, session_clear, insert, start, start_announced,
  stop, clear, Input, raised, expired, connected, inserted, started, stopped_session, cleared, step,
  run,
}

-- Neither the timeout nor the connection of the launch session.
abbrev pub LeavesLaunch : ℕ → Input → Type 0
LeavesLaunch id (raised other) = Unit
LeavesLaunch id expired = ⊥
LeavesLaunch id (connected other) = (id == other) ≡ false
LeavesLaunch id (inserted other) = Unit
LeavesLaunch id (started is_broadcast) = Unit
LeavesLaunch id (stopped_session other) = Unit
LeavesLaunch id (cleared all revert_on_disconnect is_app) = Unit

start_keeps_launch :
    (is_broadcast : Bool) (o : Option ℕ) (h : Host) (id : ℕ)
    → h.launch ≡ some id
    → (start_announced is_broadcast o h).launch ≡ some id
start_keeps_launch is_broadcast none h id e = e
start_keeps_launch true (some other) h id e = e
start_keeps_launch false (some other) h id e = e

step_keeps_launch :
    (i : Input) (h : Host) (id : ℕ)
    → h.launch ≡ some id
    → LeavesLaunch id i
    → (step i h).launch ≡ some id
unfolding step session_raise expire session_clear insert start stop clear
step_keeps_launch (raised other) h id e here =
    ap (λ b. (if b then h else record h { launch = some other; armed = true }).launch)
      (ap is_pending e)
    ∙ e
step_keeps_launch expired h id e here = absurd here
step_keeps_launch (connected other) h id e here =
    ap (λ b. (if b then record h { launch = none; armed = false } else h).launch)
      (ap (is_launch other) e ∙ here)
    ∙ e
step_keeps_launch (inserted other) h id e here = elim (Bool-cases (is_pending h.announcing)) [
  | inl busy ↦ rw busy e
  | inr idle ↦ rw idle e
]
step_keeps_launch (started is_broadcast) h id e here =
    start_keeps_launch is_broadcast h.announcing h id e
step_keeps_launch (stopped_session other) h id e here = e
step_keeps_launch (cleared all revert_on_disconnect is_app) h id e here = e

-- A launch session that waits is kept, whatever other launches are asked for, other clients connect
-- and sessions come and go, until it times out or its own client connects.
pub run_keeps_launch :
    (inputs : List Input) (h : Host) (id : ℕ)
    → h.launch ≡ some id
    → All (LeavesLaunch id) inputs
    → (run inputs h).launch ≡ some id
unfolding run
run_keeps_launch [] h id e all = e
run_keeps_launch (i ∷ inputs) h id e (here, all) =
    run_keeps_launch inputs (step i h) id (step_keeps_launch i h id e here) all
