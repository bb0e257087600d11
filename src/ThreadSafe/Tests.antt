-- ===== src/ThreadSafe/Tests.antt =====
-- The containers of src/thread_safe.h on concrete runs.
use midnight_sun.Prelude.{ℕ, true, false, ◌≡◌, refl, none, List, [], ◌∷◌, ◌++◌, arith}
use midnight_sun.ThreadSafe.Queue.{new_queue}
use midnight_sun.ThreadSafe.Event.{Event}
use midnight_sun.ThreadSafe.Fifo.{Action, raised, popped, stopped, play, accepted, play-fifo}
use midnight_sun.ThreadSafe.Shared.{new_shared, Operation, take_reference, copy, drop, run}
use midnight_sun.ThreadSafe.Counting.{IsCounted, run-IsCounted}

abbrev actions : List (Action ℕ)
actions = raised 5 ∷ raised 6 ∷ popped ∷ raised 7 ∷ popped ∷ stopped ∷ raised 8 ∷ popped ∷ []

play-fifo_example :
    let (r, got) = play actions (new_queue 32, []) in
    got ++ r.queue ≡ [] ++ ([] ++ accepted actions)
play-fifo_example = play-fifo actions (new_queue 32) [] refl (omega arith)

abbrev idle : Event ℕ
idle = record { going_on = true; status = none }

abbrev operations : List Operation
operations =
    take_reference true ∷ take_reference false ∷ copy ∷ drop ∷ drop ∷ take_reference false ∷ []

run-IsCounted_example : let (t, left) = run operations (new_shared, 0) in IsCounted t left
run-IsCounted_example =
    run-IsCounted operations new_shared 0 (omega arith) (record { counted = refl; alive = refl })
