-- ===== src/TaskPool/Tests.antt =====
-- The task pool of src/task_pool.h on concrete pools.
use midnight_sun.Prelude.{ℕ, ◌≤◌, false, ◌≡◌, refl, none, some, [], ◌∷◌, ◌++◌, map, arith}
use midnight_sun.TaskPool.{Ptr, Timer, TaskPool, has_timer, pop, ready, next, pop_id, run_ready}
use midnight_sun.TaskPool.Order.{IsSorted, NoneEarlier}
use midnight_sun.TaskPool.Pop.{pop_earliest}
use midnight_sun.TaskPool.Delay.{pop_id_leaves_null}
use midnight_sun.TaskPool.Drain.{due_tasks, not_due, run_ready-drained}

abbrev task : ℕ → Ptr ℕ
task n = some (n, n)

abbrev timer : ℕ → ℕ → Timer ℕ
timer time n = record { time = time; task = task n }

-- Due at 30, 20 and 10; the earliest is at the back.
abbrev three : TaskPool ℕ
three = record { tasks = []; timers = timer 30 103 ∷ timer 20 102 ∷ timer 10 101 ∷ [] }

abbrev busy : TaskPool ℕ
busy = record three { tasks = task 7 ∷ [] }

three-IsSorted : IsSorted three.timers
three-IsSorted = ground arith

run_ready-drained_example :
    run_ready 9 busy 25
    ≡ (record { tasks = []; timers = not_due 25 three.timers }, task 7 ∷ due_tasks 25 three.timers)
run_ready-drained_example = run_ready-drained 25 busy 9 three-IsSorted (omega arith)

abbrev shorter : TaskPool ℕ
shorter = record { tasks = []; timers = timer 30 103 ∷ timer 20 102 ∷ [] }

pop-three : pop three 25 ≡ (shorter, some (task 101))
unfolding pop
pop-three = refl

ready-three : ready three 5 ≡ false
unfolding ready
ready-three = refl

next-three : next three ≡ some 10
unfolding next
next-three = refl

pop_earliest_example :
    (t : Timer ℕ) × (t.task ≡ task 101)
    × (t.time ≤ 25)
    × (three.timers ≡ shorter.timers ++ (t ∷ []))
    × NoneEarlier t.time shorter.timers
    × IsSorted shorter.timers
pop_earliest_example = pop_earliest three shorter 25 (task 101) three-IsSorted refl pop-three

pop_id_leaves_null_example :
    let (q, popped) = pop_id three 101 in
    (popped ≡ some (timer 10 101))
    × (map (λ (u : Timer ℕ). u.time) q.timers ≡ map (λ (u : Timer ℕ). u.time) three.timers)
    × ((pop q 25).1 ≡ some none)
unfolding has_timer
pop_id_leaves_null_example =
    pop_id_leaves_null three 101 25 shorter.timers (timer 10 101) refl refl refl refl (omega arith)
