-- ===== src/TaskPool/Drain.antt =====
-- The loop of `_main` in src/thread_pool.h at a clock that stands still: what is run, and in what order.
use mathlib.Core.List.{reverse, reverse-append, map-append}
use midnight_sun.Prelude.{
  ℕ, zero, ◌+◌, suc, ◌≤◌, ◌<◌, ◌≡◌, refl, inl, inr, some, List, [], ◌∷◌, ◌++◌, map, arith, ltb, leb,
  back?, pop_back, keep_if, Bool-cases, ap, ◌∙◌, length, length-append,
}
use midnight_sun.TaskPool.{
  Ptr, Timer, TaskPool, ready, pop, pop_from, pop_timer, run_ready, run_popped,
}
use midnight_sun.TaskPool.Order.{NoneEarlier, IsSorted}
use midnight_sun.TaskPool.Pop.{
  pop_back_due, ready-pop, back?-snoc, back?-NoneEarlier, pop_back-IsSorted,
}

module _ {ℓ} {T : Type ℓ} (now : ℕ) where
  abbrev pub due : List (Timer T) → List (Timer T)
  due = keep_if λ t. leb t.time now

  abbrev pub not_due : List (Timer T) → List (Timer T)
  not_due = keep_if λ t. ltb now t.time

  -- The tasks of the due timers, the earliest first.
  abbrev pub due_tasks : List (Timer T) → List (Ptr T)
  due_tasks ts = reverse (map (λ (t : Timer T). t.task) (due ts))

  due-snoc :
      (xs : List (Timer T)) (t : Timer T) → t.time ≤ now → due (xs ++ (t ∷ [])) ≡ due xs ++ (t ∷ [])
  due-snoc [] t h = ground arith
  due-snoc (x ∷ xs) t h = ground (arith, due-snoc xs t h)

  not_due-snoc :
      (xs : List (Timer T)) (t : Timer T) → t.time ≤ now → not_due (xs ++ (t ∷ [])) ≡ not_due xs
  not_due-snoc [] t h = ground arith
  not_due-snoc (x ∷ xs) t h = ground (arith, not_due-snoc xs t h)

  due_none :
      (xs : List (Timer T)) (n : ℕ) → NoneEarlier n xs → now < n → (due xs ≡ []) × (not_due xs ≡ xs)
  due_none [] n a h = (refl, refl)
  due_none (x ∷ xs) n a h = let ih = due_none xs n a.1 h in (ground arith, ground arith)

  due_tasks-snoc :
      (xs : List (Timer T)) (t : Timer T)
      → t.time ≤ now
      → due_tasks (xs ++ (t ∷ [])) ≡ t.task ∷ due_tasks xs
  due_tasks-snoc xs t h =
      rw (due-snoc xs t h, map-append)
        (reverse-append (map (λ (u : Timer T). u.task) (due xs)) (t.task ∷ []))

  -- What is left after a run, and what it ran.
  abbrev pub drained : TaskPool T → TaskPool T × List (Ptr T)
  drained p = (record { tasks = []; timers = not_due p.timers }, p.tasks ++ due_tasks p.timers)

  back?-cons : (x : Timer T) (xs : List (Timer T)) → (t : Timer T) × (back? (x ∷ xs) ≡ some t)
  back?-cons x [] = (x, refl)
  back?-cons x (y ∷ ys) = back?-cons y ys

  drained_due :
      (timers : List (Timer T)) (t : Timer T)
      → back? timers ≡ some t
      → t.time ≤ now
      → (not_due timers ≡ not_due (pop_back timers))
        × (due_tasks timers ≡ t.task ∷ due_tasks (pop_back timers))
        × (length timers ≡ length (pop_back timers) + 1)
  drained_due timers t e h =
      let snoc = back?-snoc timers t e in
      (
        ap not_due snoc ∙ not_due-snoc (pop_back timers) t h,
        ap due_tasks snoc ∙ due_tasks-snoc (pop_back timers) t h,
        ap length snoc ∙ length-append (pop_back timers) (t ∷ []),
      )

  run_due :
      (fuel : ℕ) (timers : List (Timer T)) (t : Timer T)
      → back? timers ≡ some t
      → t.time ≤ now
      → run_ready fuel (record { tasks = []; timers = pop_back timers }) now
        ≡ drained (record { tasks = []; timers = pop_back timers })
      → run_ready (suc fuel) (record { tasks = []; timers = timers }) now
        ≡ drained (record { tasks = []; timers = timers })
  unfolding run_ready
  run_due fuel timers t e h ih =
      let (left, ran, _) = drained_due timers t e h in
      ap (run_popped (λ q. run_ready fuel q now))
        (pop_back_due (record { tasks = []; timers = timers }) now t refl e h)
      ∙ ap (λ (r : TaskPool T × List (Ptr T)). (r.0, t.task ∷ r.1)) ih
      ∙ ground arith

  run_waits :
      (fuel : ℕ) (timers : List (Timer T)) (t : Timer T)
      → IsSorted timers
      → back? timers ≡ some t
      → now < t.time
      → run_ready (suc fuel) (record { tasks = []; timers = timers }) now
        ≡ drained (record { tasks = []; timers = timers })
  unfolding run_ready ready
  run_waits fuel timers t s e h =
      let idle : TaskPool T = record { tasks = []; timers = timers } in
      let (none_due, all_left) = due_none timers t.time (back?-NoneEarlier timers t s e) h in
      ap (run_popped (λ q. run_ready fuel q now)) ((ready-pop idle now).1 (ground arith))
      ∙ rw (none_due, all_left) refl

  run_drained :
      (fuel : ℕ) (tasks : List (Ptr T)) (timers : List (Timer T))
      → IsSorted timers
      → length tasks + length timers < fuel
      → run_ready fuel (record { tasks = tasks; timers = timers }) now
        ≡ drained (record { tasks = tasks; timers = timers })
  unfolding run_ready pop pop_from pop_timer
  run_drained zero tasks timers s h = absurd (omega arith)
  run_drained (suc fuel) (task ∷ rest) timers s h =
      rw (run_drained fuel rest timers s (omega arith)) refl
  run_drained (suc fuel) [] [] s h = refl
  run_drained (suc fuel) [] (x ∷ xs) s h =
      let (t, e) = back?-cons x xs in
      elim (Bool-cases (leb t.time now)) [
        | inl d ↦
            let le : t.time ≤ now = ground arith in
            let shorter = (drained_due (x ∷ xs) t e le).2 in
            run_due fuel (x ∷ xs) t e le (
              run_drained fuel [] (pop_back (x ∷ xs)) (pop_back-IsSorted (x ∷ xs) s)
                (omega (arith, shorter)))
        | inr w ↦ run_waits fuel (x ∷ xs) t s e (ground arith)
      ]

  -- If the timers are sorted (`delay` can leave them unsorted), the tasks that are run push and delay
  -- nothing, and the clock stands still, then with fuel for each task and timer and one more round the
  -- worker runs every immediate task in the order of the pushes, then the task of every due timer, the
  -- earliest first, and stops with only the timers that are not due left in the pool.
  pub run_ready-drained :
      (p : TaskPool T) (fuel : ℕ)
      → IsSorted p.timers
      → length p.tasks + length p.timers < fuel
      → run_ready fuel p now
        ≡ (record { tasks = []; timers = not_due p.timers }, p.tasks ++ due_tasks p.timers)
  run_ready-drained p fuel s h = run_drained fuel p.tasks p.timers s h
