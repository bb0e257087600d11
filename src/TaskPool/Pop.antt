-- ===== src/TaskPool/Pop.antt =====
-- What `pop`, `ready` and `next` of src/task_pool.h tell the worker of src/thread_pool.h.
use midnight_sun.Prelude.{
  subst, sym, ℕ, ◌≤◌, ◌<◌, true, false, not, ◌||◌, ◌≡◌, inl, inr, none, some, List, [], ◌∷◌, ◌++◌,
  arith, back?, pop_back, Option-cases, ap, ◌≢◌,
}
use midnight_sun.TaskPool.{Ptr, Timer, TaskPool, is_empty, pop, pop_from, pop_timer, ready, next}
use midnight_sun.TaskPool.Order.{NoneEarlier, NoneLater, IsSorted}

module _ {ℓ} {T : Type ℓ} where
  -- A list with a last element is the rest and that element.
  pub back?-snoc :
      (xs : List (Timer T)) (t : Timer T) → back? xs ≡ some t → xs ≡ pop_back xs ++ (t ∷ [])
  back?-snoc [] t e = absurd (cc)
  back?-snoc (x ∷ []) t e = ground arith
  back?-snoc (x ∷ y ∷ ys) t e = ap (◌∷◌ x) (back?-snoc (y ∷ ys) t e)

  -- The back of a sorted vector is due first.
  pub back?-NoneEarlier :
      (xs : List (Timer T)) (t : Timer T) → IsSorted xs → back? xs ≡ some t → NoneEarlier t.time xs
  back?-NoneEarlier [] t s e = tt
  back?-NoneEarlier (x ∷ []) t s e = ground arith
  back?-NoneEarlier (x ∷ y ∷ ys) t s e =
      let ih = back?-NoneEarlier (y ∷ ys) t s.1 e in (omega (arith, ih, s.0.0), ih)

  NoneEarlier-pop_back :
      (n : ℕ) (xs : List (Timer T)) → NoneEarlier n xs → NoneEarlier n (pop_back xs)
  NoneEarlier-pop_back n [] a = tt
  NoneEarlier-pop_back n (x ∷ []) a = tt
  NoneEarlier-pop_back n (x ∷ y ∷ ys) a = (a.0, NoneEarlier-pop_back n (y ∷ ys) a.1)

  NoneLater-pop_back : (n : ℕ) (xs : List (Timer T)) → NoneLater n xs → NoneLater n (pop_back xs)
  NoneLater-pop_back n [] a = tt
  NoneLater-pop_back n (x ∷ []) a = tt
  NoneLater-pop_back n (x ∷ y ∷ ys) a = (a.0, NoneLater-pop_back n (y ∷ ys) a.1)

  pub pop_back-IsSorted : (xs : List (Timer T)) → IsSorted xs → IsSorted (pop_back xs)
  pop_back-IsSorted [] s = tt
  pop_back-IsSorted (x ∷ []) s = tt
  pop_back-IsSorted (x ∷ y ∷ ys) s =
      (NoneLater-pop_back x.time (y ∷ ys) s.0, pop_back-IsSorted (y ∷ ys) s.1)

  pop_timer-some :
      (p q : TaskPool T) (now : ℕ) (task : Ptr T)
      → pop_timer p now ≡ (q, some task)
      → (t : Timer T) × (back? p.timers ≡ some t)
        × (t.task ≡ task)
        × (t.time ≤ now)
        × (q ≡ record p { timers = pop_back p.timers })
  unfolding pop_timer
  pop_timer-some p q now task e = elim (Option-cases (back? p.timers)) [
    | inl none_left ↦ absurd (ground arith)
    | inr (t, found) ↦ (t, found, ground arith, ground arith, ground arith)
  ]

  -- If the timers are sorted (`delay` can leave them unsorted) and there is no immediate task, what
  -- `pop` returns is the task of a due timer, no other timer is due earlier, this timer alone is taken
  -- out, and the timers stay sorted.
  pub pop_earliest :
      (p q : TaskPool T) (now : ℕ) (task : Ptr T)
      → IsSorted p.timers
      → p.tasks ≡ []
      → pop p now ≡ (q, some task)
      → (t : Timer T) × (t.task ≡ task)
        × (t.time ≤ now)
        × (p.timers ≡ q.timers ++ (t ∷ []))
        × NoneEarlier t.time q.timers
        × IsSorted q.timers
  unfolding pop pop_from
  pop_earliest p q now task s idle e =
      let (t, found, same, due, rest) =
        pop_timer-some p q now task (subst (λ l. pop_from p l now ≡ (q, some task)) idle e) in
      let left : q.timers ≡ pop_back p.timers = ap (λ (r : TaskPool T). r.timers) rest in
      (
        t,
        same,
        due,
        rw left (back?-snoc p.timers t found),
        rw left (NoneEarlier-pop_back t.time p.timers (back?-NoneEarlier p.timers t s found)),
        rw left (pop_back-IsSorted p.timers s),
      )

  -- Immediate tasks come first, in the order in which they were pushed, whatever timers are due.
  pub pop_immediate :
      (p : TaskPool T) (now : ℕ) (task : Ptr T) (rest : List (Ptr T))
      → p.tasks ≡ task ∷ rest
      → pop p now ≡ (record p { tasks = rest }, some task)
  unfolding pop pop_from
  pop_immediate p now task rest e = rw (e, pop_from)

  -- With no immediate task, a due timer at the back is what `pop` returns.
  pub pop_back_due :
      (q : TaskPool T) (now : ℕ) (t : Timer T)
      → q.tasks ≡ []
      → back? q.timers ≡ some t
      → t.time ≤ now
      → pop q now ≡ (record q { timers = pop_back q.timers }, some t.task)
  unfolding pop pop_from pop_timer
  pop_back_due q now t idle last due =
      subst (λ l. pop_from q l now ≡ (record q { timers = pop_back q.timers }, some t.task))
        (sym idle) (ground arith)

  pop_from-none :
      (p : TaskPool T) (tasks : List (Ptr T)) (now : ℕ)
      → not (is_empty tasks) || ready (record p { tasks = [] }) now ≡ false
      → pop_from p tasks now ≡ (p, none)
  unfolding pop_from pop_timer ready
  pop_from-none p [] now h = ground arith
  pop_from-none p (t ∷ ts) now h = absurd (cc)

  pop_from-ready :
      (p : TaskPool T) (tasks : List (Ptr T)) (now : ℕ)
      → not (is_empty tasks) || ready (record p { tasks = [] }) now ≡ true
      → (pop_from p tasks now).1 ≢ none
  unfolding pop_from pop_timer ready
  pop_from-ready p [] now h = ground arith
  pop_from-ready p (t ∷ ts) now h = λ e. cc

  -- `ready` says exactly whether `pop` would return a task at that time, and a `pop` that returns none
  -- changes nothing.
  pub ready-pop :
      (p : TaskPool T) (now : ℕ)
      → (ready p now ≡ true → (pop p now).1 ≢ none) × (ready p now ≡ false → pop p now ≡ (p, none))
  unfolding pop ready
  ready-pop p now = (
    λ h. pop_from-ready p p.tasks now (ground arith),
    λ h. pop_from-none p p.tasks now (ground arith),
  )

  ready_at_next :
      (p : TaskPool T) (now wake : ℕ)
      → IsSorted p.timers
      → next p ≡ some wake
      → NoneEarlier wake p.timers × (ready p wake ≡ true) × (ready p now ≡ false → now < wake)
  unfolding next ready
  ready_at_next p now wake s e = elim (Option-cases (back? p.timers)) [
    | inl nothing ↦ absurd (ground arith)
    | inr (t, found) ↦
        let same : t.time ≡ wake = ground arith in
        (rw same at (back?-NoneEarlier p.timers t s found), ground arith, ground arith)
  ]

  -- A worker that finds nothing ready and sleeps until `next` sleeps past no timer: the time lies
  -- ahead, no timer is due before it, and at that time a task is ready.
  pub next-ready :
      (p : TaskPool T) (now wake : ℕ)
      → IsSorted p.timers
      → ready p now ≡ false
      → next p ≡ some wake
      → (now < wake) × NoneEarlier wake p.timers × (ready p wake ≡ true)
  next-ready p now wake s idle e =
      let (early, at, ahead) = ready_at_next p now wake s e in (ahead idle, early, at)
