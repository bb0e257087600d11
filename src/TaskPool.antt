-- ===== src/TaskPool.antt =====
-- src/task_pool.h: the queue of immediate tasks and the sorted vector of timers, and the worker loop
-- of src/thread_pool.h. A `unique_ptr` to a task is `Ptr`: empty, or an address with what it runs.
-- The clock is an argument of each call that reads it, and the address of a new task is the
-- allocator's choice.
pub mod Order
pub mod Pop
pub mod Delay
pub mod Drain
mod Tests
use midnight_sun.Prelude.{
  ℕ, zero, suc, ◌+◌, Bool, true, false, ◌&&◌, ◌||◌, not, Option, none, some, List, [], ◌∷◌, ◌++◌,
  ltb, leb, ◌==◌, if◌then◌else◌, back?, pop_back,
}

-- `__task`, an owning pointer; the address 0 is the null pointer.
abbrev pub Ptr {ℓ} : Type ℓ → Type ℓ
Ptr T = Option (ℕ × T)

abbrev pub address {ℓ} : {T : Type ℓ} → Ptr T → ℕ
address none = 0
address (some (a, _)) = a

-- An entry of `_timer_tasks`.
pub record Timer {ℓ} (T : Type ℓ) : Type ℓ where
  pub time : ℕ
  pub task : Ptr T

pub record TaskPool {ℓ} (T : Type ℓ) : Type ℓ where
  pub tasks : List (Ptr T)
  pub timers : List (Timer T)

abbrev is_empty {ℓ} : {A : Type ℓ} → List A → Bool
is_empty [] = true
is_empty (x ∷ xs) = false

module _ {ℓ} {T : Type ℓ} where
  abbrev pub empty : TaskPool T
  empty = record { tasks = []; timers = [] }

  unfoldable pub push : TaskPool T → Ptr T → TaskPool T
  push p task = record p { tasks = p.tasks ++ (task ∷ []) }

  -- The loop to the first timer that is due earlier, and the `emplace` there.
  unfoldable pub insert_timer : Timer T → List (Timer T) → List (Timer T)
  insert_timer t [] = t ∷ []
  insert_timer t (x ∷ xs) = if ltb x.time t.time then t ∷ x ∷ xs else x ∷ insert_timer t xs

  unfoldable pub push_delayed : TaskPool T → Timer T → TaskPool T
  unfolding insert_timer
  push_delayed p t = record p { timers = insert_timer t p.timers }

  -- The overload that builds the task and returns its id.
  unfoldable pub push_delayed_after : TaskPool T → (now duration addr : ℕ) → T → TaskPool T × ℕ
  unfolding push_delayed
  push_delayed_after p now duration addr f =
      (push_delayed p (record { time = now + duration; task = some (addr, f) }), addr)

  -- The vector up to the first entry with this id, in reverse, that entry, and what follows it.
  unfoldable pub split_at :
      ℕ → List (Timer T) → List (Timer T) → Option (List (Timer T) × Timer T × List (Timer T))
  split_at id before [] = none
  split_at id before (x ∷ xs) =
      if address x.task == id then some (before, x, xs) else split_at id (x ∷ before) xs

  -- The `while` of `delay`: at each step `*it` and `*prev` are swapped if `*it` is the later one.
  unfoldable pub bubble : Timer T → List (Timer T) → List (Timer T) → List (Timer T)
  bubble it [] after = it ∷ after
  bubble it (prev ∷ before) after =
      bubble (if ltb prev.time it.time then it else prev) before
        ((if ltb prev.time it.time then prev else it) ∷ after)

  unfoldable pub delay : TaskPool T → (id now duration : ℕ) → TaskPool T
  unfolding split_at bubble
  delay p id now duration = elim (split_at id [] p.timers) [
    | none ↦ p
    | some (before, it, after) ↦ record p {
      timers = bubble (record it { time = now + duration }) before after;
    }
  ]

  -- The first entry with this id goes.
  unfoldable pub erase_timer : ℕ → List (Timer T) → List (Timer T)
  erase_timer id [] = []
  erase_timer id (x ∷ xs) = if address x.task == id then xs else x ∷ erase_timer id xs

  unfoldable pub has_timer : ℕ → List (Timer T) → Bool
  has_timer id [] = false
  has_timer id (x ∷ xs) = address x.task == id || has_timer id xs

  unfoldable pub cancel : TaskPool T → ℕ → TaskPool T × Bool
  unfolding erase_timer has_timer
  cancel p id =
      if has_timer id p.timers
      then (record p { timers = erase_timer id p.timers }, true)
      else (p, false)

  -- `std::move(*pos)`: the entry stays, with a null pointer.
  unfoldable pub move_out : ℕ → List (Timer T) → List (Timer T)
  move_out id [] = []
  move_out id (x ∷ xs) =
      if address x.task == id then record x { task = none } ∷ xs else x ∷ move_out id xs

  unfoldable pub pop_id : TaskPool T → ℕ → TaskPool T × Option (Timer T)
  unfolding split_at move_out
  pop_id p id = elim (split_at id [] p.timers) [
    | none ↦ (p, none)
    | some (before, pos, after) ↦ (record p { timers = move_out id p.timers }, some pos)
  ]

  unfoldable pub pop_timer : TaskPool T → ℕ → TaskPool T × Option (Ptr T)
  pop_timer p now = elim (back? p.timers) [
    | none ↦ (p, none)
    | some t ↦
        if leb t.time now then (record p { timers = pop_back p.timers }, some t.task) else (p, none)
  ]

  unfoldable pub pop_from : TaskPool T → List (Ptr T) → ℕ → TaskPool T × Option (Ptr T)
  unfolding pop_timer
  pop_from p [] now = pop_timer p now
  pop_from p (task ∷ rest) now = (record p { tasks = rest }, some task)

  unfoldable pub pop : TaskPool T → ℕ → TaskPool T × Option (Ptr T)
  unfolding pop_from
  pop p now = pop_from p p.tasks now

  abbrev timer_due : List (Timer T) → ℕ → Bool
  timer_due ts now = elim (back? ts) [ none ↦ false | some t ↦ leb t.time now ]

  unfoldable pub ready : TaskPool T → ℕ → Bool
  ready p now = not (is_empty p.tasks) || timer_due p.timers now

  unfoldable pub next : TaskPool T → Option ℕ
  next p = elim (back? p.timers) [ none ↦ none | some t ↦ some t.time ]

  -- `_main` runs each task that `pop` returns until it returns none, at a clock that stands still;
  -- the result lists the pointers that were run. `none` in a place is a null pointer.
  unfoldable pub run_popped :
      (TaskPool T → TaskPool T × List (Ptr T))
      → TaskPool T × Option (Ptr T)
      → TaskPool T × List (Ptr T)
  run_popped again (q, none) = (q, [])
  run_popped again (q, some task) = let (r, ran) = again q in (r, task ∷ ran)

  -- The tasks that run are recorded: they push and delay nothing, and the clock stands still.
  unfoldable pub run_ready : ℕ → TaskPool T → ℕ → TaskPool T × List (Ptr T)
  unfolding run_popped
  run_ready zero p now = (p, [])
  run_ready (suc fuel) p now = run_popped (λ q. run_ready fuel q now) (pop p now)
