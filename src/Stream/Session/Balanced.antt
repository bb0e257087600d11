-- ===== src/Stream/Session/Balanced.antt =====
-- The count of sessions in src/stream.cpp, and what the platform is told.
use midnight_sun.Prelude.{
  ℕ, suc, ◌+◌, ◌-◌, ◌%◌, ◌^◌, ◌<◌, ◌≤◌, ◌≡◌, refl, sym, ap, ◌∙◌, inl, inr, Bool, true, false, not,
  ◌||◌, Option, none, some, List, [], ◌∷◌, ◌++◌, if◌then◌else◌, ltb, ◌==◌, Bool-cases, subst,
  length, length-append, arith,
}
use midnight_sun.Stream.Control.{stopped, is_stopping}
use midnight_sun.Stream.Session.{
  Slot, Call, will_start, will_stop, revert_configuration, Host, new_host, session_raise, expire,
  expire_if, session_clear, is_pending, is_launch, is_stopped, insert, mark_running, remove,
  start_announced, start, stop_slots, stop, join, clear_slots, clear, Input, raised, expired,
  connected, inserted, started, stopped_session, cleared, step, run,
}
use midnight_sun.Stream.Session.Slots.{
  count_started, count_started_le, count_started_idle, count_started_begun, has_announced,
  count_started-append, has_announced-append, count_started-mark_running, count_started-remove,
  length-mark_running, length-remove, count_started-stop_slots, has_announced-stop_slots,
  has_announced-clear_slots, length-clear_slots, length-stop_slots,
}

-- Whether the platform was last told that streaming starts.
abbrev pub is_streaming : List Call → Bool
is_streaming [] = false
is_streaming (will_start ∷ cs) = true
is_streaming (will_stop ∷ cs) = false
is_streaming (revert_configuration ∷ cs) = is_streaming cs

-- It is told of a start only while nothing streams, and of an end only while something does.
abbrev pub Alternates : List Call → Type 0
Alternates [] = Unit
Alternates (will_start ∷ cs) = (is_streaming cs ≡ false) × Alternates cs
Alternates (will_stop ∷ cs) = (is_streaming cs ≡ true) × Alternates cs
Alternates (revert_configuration ∷ cs) = Alternates cs

-- A count of sessions that agrees with what the platform was told.
abbrev pub Agrees : ℕ → ℕ × List Call → Type 0
Agrees sessions (n, calls) =
    (n ≡ sessions) × (Alternates calls × (is_streaming calls ≡ ltb 0 sessions))

-- The session that `cmd_announce` works on is in the slots, not started.
abbrev pub IsThere : Option ℕ → List Slot → Type 0
IsThere none ss = Unit
IsThere (some id) ss = has_announced id ss ≡ true

abbrev pub IsBalanced : Host → Type 0
IsBalanced h =
    Agrees (count_started h.slots) (h.running_sessions, h.calls) × IsThere h.announcing h.slots

join-Agrees :
    (revert is_app : Bool) (sessions n : ℕ) (calls : List Call)
    → suc sessions < 2 ^ 32
    → Agrees (suc sessions) (n, calls)
    → Agrees sessions (join revert is_app (n, calls))
join-Agrees revert is_app sessions n calls few (count, (alternates, told)) =
    let next : (n + (2 ^ 32 - 1)) % 2 ^ 32 ≡ sessions = omega arith in
    let before : is_streaming calls ≡ true = ground (arith, told) in
    elim (Bool-cases (sessions == 0)) [
      | inl e ↦
          let none_left : false ≡ ltb 0 sessions = ground arith in
          elim (Bool-cases (revert || not is_app)) [
            | inl r ↦ rw (next, e, r) (refl, ((before, alternates), none_left))
            | inr r ↦ rw (next, e, r) (refl, ((before, alternates), none_left))
          ]
      | inr e ↦
          let some_left : true ≡ ltb 0 sessions = ground arith in
          rw (next, e) (refl, (alternates, before ∙ some_left))
    ]

counts_agree_at : (m n : ℕ) (counts : ℕ × List Call) → m ≡ n → Agrees m counts → Agrees n counts
counts_agree_at m n counts e a = subst (λ k. Agrees k counts) e a

-- `k` started slots that stay stand before those of the loop.
clear_slots-Agrees :
    (all revert is_app : Bool) (ss : List Slot) (k : ℕ) (counts : ℕ × List Call)
    → k + count_started ss < 2 ^ 32
    → Agrees (k + count_started ss) counts
    → Agrees
        (k + count_started (clear_slots all revert is_app ss counts).0)
        (clear_slots all revert is_app ss counts).1.0
clear_slots-Agrees all revert is_app [] k counts few a = a
clear_slots-Agrees all revert is_app (s ∷ ss) k counts few a =
    elim (Bool-cases (is_stopped s.state)) [
      | inl idle ↦
          let same = count_started_idle s ss idle in
          let here =
            counts_agree_at (k + count_started (s ∷ ss)) (k + count_started ss) counts
              (ap (λ n. k + n) same) a in
          elim (Bool-cases (all || is_stopping s.state)) [
            | inl gone ↦ rw (gone, idle) a
            | inr stays ↦
                rw (stays, idle)
                  (clear_slots-Agrees all revert is_app ss k counts (omega (arith, same)) here)
          ]
      | inr begun ↦
          let more = count_started_begun s ss begun in
          elim (Bool-cases (all || is_stopping s.state)) [
            | inl gone ↦
                rw (gone, begun)
                  (clear_slots-Agrees all revert is_app ss k (join revert is_app counts)
                    (omega (arith, more))
                    (join-Agrees revert is_app (k + count_started ss) counts.0 counts.1
                      (omega (arith, more))
                      (counts_agree_at (k + count_started (s ∷ ss)) (suc (k + count_started ss))
                        counts (omega (arith, more)) a)))
            | inr stays ↦
                let stay = (clear_slots all revert is_app ss counts).0 in
                let rest =
                  clear_slots-Agrees all revert is_app ss (k + 1) counts (omega (arith, more)) (
                    counts_agree_at (k + count_started (s ∷ ss)) (k + 1 + count_started ss) counts
                      (omega (arith, more)) a) in
                rw (stays, begun)
                  (counts_agree_at (k + 1 + count_started stay) (k + suc (count_started stay))
                    (clear_slots all revert is_app ss counts).1.0 (omega arith) rest)
          ]
    ]

count_up-Agrees :
    (sessions n : ℕ) (calls : List Call)
    → suc sessions < 2 ^ 32
    → Agrees sessions (n, calls)
    → Agrees
        (suc sessions)
        ((n + 1) % 2 ^ 32, if (n + 1) % 2 ^ 32 == 1 then will_start ∷ calls else calls)
count_up-Agrees sessions n calls few (count, (alternates, told)) =
    let next : (n + 1) % 2 ^ 32 ≡ suc sessions = omega arith in
    let some_left : true ≡ ltb 0 (suc sessions) = ground arith in
    elim (Bool-cases (suc sessions == 1)) [
      | inl e ↦
          let none_before : is_streaming calls ≡ false = ground (arith, told) in
          rw (next, e) (refl, ((none_before, alternates), some_left))
      | inr e ↦
          let before : is_streaming calls ≡ true = ground (arith, told) in
          rw (next, e) (refl, (alternates, before ∙ some_left))
    ]

-- A step keeps the balance and adds a slot at most.
abbrev Keeps : Host → Host → Type 0
Keeps h next = IsBalanced next × (length next.slots ≤ length h.slots + 1)

insert-Keeps : (id : ℕ) (h : Host) → IsBalanced h → Keeps h (insert id h)
unfolding insert
insert-Keeps id h (a, there) = by_test (is_pending h.announcing)
  where
    by_test :
        (b : Bool)
        → Keeps h (
            if b then h else record h {
              slots = h.slots ++ (record { id = id; state = stopped } ∷ []);
              announcing = some id;
            })
    by_test true = ((a, there), omega arith)
    by_test false = (
      (
        counts_agree_at (count_started h.slots)
            (count_started (h.slots ++ (record { id = id; state = stopped } ∷ [])))
            (h.running_sessions, h.calls) (sym (count_started-append h.slots id)) a,
        has_announced-append h.slots id,
      ),
      omega (arith, length-append h.slots (record { id = id; state = stopped } ∷ [])),
    )

start-Keeps :
    (is_broadcast : Bool) (o : Option ℕ) (h : Host)
    → count_started h.slots + 1 < 2 ^ 32
    → Agrees (count_started h.slots) (h.running_sessions, h.calls)
    → IsThere o h.slots
    → h.announcing ≡ o
    → Keeps h (start_announced is_broadcast o h)
start-Keeps is_broadcast none h few a there e =
    ((a, subst (λ o. IsThere o h.slots) (sym e) tt), omega arith)
start-Keeps true (some id) h few a there e = (
  (
    counts_agree_at (suc (count_started h.slots)) (count_started (mark_running id h.slots))
        (
          (h.running_sessions + 1) % 2 ^ 32,
          if (h.running_sessions + 1) % 2 ^ 32 == 1 then will_start ∷ h.calls else h.calls,
        )
        (sym (count_started-mark_running id h.slots there))
        (count_up-Agrees (count_started h.slots) h.running_sessions h.calls (omega arith) a),
    tt,
  ),
  omega (arith, length-mark_running id h.slots),
)
start-Keeps false (some id) h few a there e = (
  (
    counts_agree_at (count_started h.slots) (count_started (remove id h.slots))
        (h.running_sessions, h.calls) (sym (count_started-remove id h.slots)) a,
    tt,
  ),
  omega (arith, length-remove id h.slots),
)

IsThere-stop_slots :
    (o : Option ℕ) (other : ℕ) (ss : List Slot) → IsThere o ss → IsThere o (stop_slots other ss)
IsThere-stop_slots none other ss there = tt
IsThere-stop_slots (some id) other ss there = has_announced-stop_slots id other ss ∙ there

IsThere-clear_slots :
    (all revert is_app : Bool) (o : Option ℕ) (ss : List Slot) (counts : ℕ × List Call)
    → IsThere o ss
    → IsThere o (clear_slots all revert is_app ss counts).0
IsThere-clear_slots all revert is_app none ss counts there = tt
IsThere-clear_slots all revert is_app (some id) ss counts there =
    has_announced-clear_slots all revert is_app id ss counts there

step-Keeps :
    (i : Input) (h : Host) → length h.slots + 1 < 2 ^ 32 → IsBalanced h → Keeps h (step i h)
unfolding step session_raise expire session_clear start stop clear
step-Keeps (raised id) h few a = elim (Bool-cases (is_pending h.launch)) [
  | inl e ↦ rw e (a, omega arith)
  | inr e ↦ rw e (a, omega arith)
]
step-Keeps expired h few a = by_timer h.armed
  where
    by_timer : (b : Bool) → Keeps h (expire_if b h)
    by_timer true = (a, omega arith)
    by_timer false = (a, omega arith)
step-Keeps (connected id) h few a = elim (Bool-cases (is_launch id h.launch)) [
  | inl e ↦ rw e (a, omega arith)
  | inr e ↦ rw e (a, omega arith)
]
step-Keeps (inserted id) h few a = insert-Keeps id h a
step-Keeps (started is_broadcast) h few (a, there) =
    start-Keeps is_broadcast h.announcing h (omega (arith, count_started_le h.slots)) a there refl
step-Keeps (stopped_session id) h few (a, there) = (
  (
    counts_agree_at (count_started h.slots) (count_started (stop_slots id h.slots))
        (h.running_sessions, h.calls) (sym (count_started-stop_slots id h.slots)) a,
    IsThere-stop_slots h.announcing id h.slots there,
  ),
  omega (arith, length-stop_slots id h.slots),
)
step-Keeps (cleared all revert is_app) h few (a, there) =
    let counts : ℕ × List Call = (h.running_sessions, h.calls) in
    let after = clear_slots all revert is_app h.slots counts in
    let n = count_started h.slots in
    let cleared_up =
      clear_slots-Agrees all revert is_app h.slots 0 counts
        (omega (arith, count_started_le h.slots))
        (counts_agree_at n (0 + n) counts (omega arith) a) in
    (
      (
        counts_agree_at (0 + count_started after.0) (count_started after.0) after.1.0 (omega arith)
            cleared_up,
        IsThere-clear_slots all revert is_app h.announcing h.slots counts there,
      ),
      omega (arith, length-clear_slots all revert is_app h.slots counts),
    )

run_from-IsBalanced :
    (inputs : List Input) (h : Host)
    → length h.slots + length inputs < 2 ^ 32
    → IsBalanced h
    → IsBalanced (run inputs h)
unfolding run
run_from-IsBalanced [] h few a = a
run_from-IsBalanced (i ∷ inputs) h few a =
    let (next, grown) = step-Keeps i h (omega arith) a in
    run_from-IsBalanced inputs (step i h) (omega (arith, grown)) next

-- The host from its start on, over fewer than 2^32 launches, timeouts, connections, insertions, starts that
-- succeed or fail, stops and clean-ups in any order, also a clean-up between the insertion and the
-- start of a session, which throws at it: the count of running sessions is the number of slots whose
-- sessions are started, the platform is told of a start and of an end in turn, the last word being a
-- start exactly while there are such sessions, and a session that waits for its start stays in the
-- slots. Each call is taken as one step, `session::start` too.
pub run-IsBalanced :
    (inputs : List Input) → length inputs < 2 ^ 32 → IsBalanced (run inputs new_host)
run-IsBalanced inputs few =
    run_from-IsBalanced inputs new_host (omega arith) ((refl, (tt, refl)), tt)
