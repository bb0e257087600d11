-- ===== src/TaskPool/Delay.antt =====
-- `delay` and `pop(task_id)` of src/task_pool.h.
use mathlib.Core.List.{Perm}
use mathlib.Core.List.Perm
use midnight_sun.Prelude.{
  ℕ, ◌+◌, ◌≤◌, ◌<◌, false, ◌≡◌, refl, inl, inr, Option, none, some, List, [], ◌∷◌, ◌++◌, map, arith,
  ltb, ◌==◌, if◌then◌else◌, back?, Bool-cases, ap, sym, subst,
}
use midnight_sun.TaskPool.{
  Ptr, Timer, TaskPool, address, pop, pop_from, pop_timer, move_out, pop_id, split_at, has_timer,
  bubble, delay,
}
use midnight_sun.TaskPool.Pop.{pop_back_due}
use midnight_sun.TaskPool.Order.{NoneLater, NoneLater-mono, IsSorted}

module _ {ℓ} {T : Type ℓ} where
  -- The vector that `before`, in reverse, and `after` make up.
  abbrev pub onto : List (Timer T) → List (Timer T) → List (Timer T)
  onto [] after = after
  onto (x ∷ before) after = onto before (x ∷ after)

  split_at-onto :
      (id : ℕ) (xs before : List (Timer T)) (b a : List (Timer T)) (it : Timer T)
      → split_at id before xs ≡ some (b, it, a)
      → (onto b (it ∷ a) ≡ onto before xs) × (address it.task ≡ id)
  unfolding split_at
  split_at-onto id [] before b a it e = absurd (cc)
  split_at-onto id (x ∷ xs) before b a it e = elim (Bool-cases (address x.task == id)) [
    | inl hit ↦ ground arith
    | inr miss ↦ split_at-onto id xs (x ∷ before) b a it (rw miss at e)
  ]

  onto-tail-IsSorted :
      (before after : List (Timer T)) → IsSorted (onto before after) → IsSorted after
  onto-tail-IsSorted [] after s = s
  onto-tail-IsSorted (x ∷ before) after s = (onto-tail-IsSorted before (x ∷ after) s).1

  -- What follows `before` may be replaced by a sorted list whose entries are no later.
  onto-replace :
      (before xs ys : List (Timer T))
      → IsSorted (onto before xs)
      → IsSorted ys
      → ((n : ℕ) → NoneLater n xs → NoneLater n ys)
      → IsSorted (onto before ys)
  onto-replace [] xs ys s t h = t
  onto-replace (b ∷ before) xs ys s t h =
      onto-replace before (b ∷ xs) (b ∷ ys) s (h b.time (onto-tail-IsSorted before (b ∷ xs) s).0, t)
        (λ n a. (a.0, h n a.1))

  bubble-IsSorted :
      (it : Timer T) (before after : List (Timer T))
      → IsSorted (onto before after)
      → NoneLater it.time after
      → IsSorted (bubble it before after)
  unfolding bubble
  bubble-IsSorted it [] after s a = (a, s)
  bubble-IsSorted it (prev ∷ before) after s a = elim (Bool-cases (ltb prev.time it.time)) [
    | inl later ↦ rw later (bubble-IsSorted it before (prev ∷ after) s (ground arith, a))
    | inr not_later ↦
        let tail = onto-tail-IsSorted before (prev ∷ after) s in
        let le : it.time ≤ prev.time = ground arith in
        rw not_later (
          bubble-IsSorted prev before (it ∷ after)
            (onto-replace before (prev ∷ after) (it ∷ after) s (a, tail.1)
              (λ n b. (omega (arith, b.0), b.1)))
            (le, tail.0))
  ]

  onto-perm :
      (b : List (Timer T)) {xs ys : List (Timer T)} → Perm xs ys → Perm (onto b xs) (onto b ys)
  onto-perm [] p = p
  onto-perm (x ∷ b) p = onto-perm b (Perm.cons x p)

  bubble-perm :
      (it : Timer T) (before after : List (Timer T))
      → Perm (bubble it before after) (onto before (it ∷ after))
  unfolding bubble
  bubble-perm it [] after = Perm.refl _
  bubble-perm it (prev ∷ before) after = elim (Bool-cases (ltb prev.time it.time)) [
    | inl e ↦ rw e (
        Perm.trans (bubble-perm it before (prev ∷ after))
          (onto-perm before (Perm.swap prev it after)))
    | inr e ↦ rw e (bubble-perm prev before (it ∷ after))
  ]

  -- The first timer with this id.
  abbrev pub find_timer : ℕ → List (Timer T) → Option (Timer T)
  find_timer id [] = none
  find_timer id (x ∷ xs) = if address x.task == id then some x else find_timer id xs

  find_timer-split_at :
      (id : ℕ) (xs before : List (Timer T)) (t : Timer T)
      → find_timer id xs ≡ some t
      → (b : List (Timer T)) × (a : List (Timer T)) × (split_at id before xs ≡ some (b, t, a))
  unfolding split_at
  find_timer-split_at id [] before t e = absurd (cc)
  find_timer-split_at id (x ∷ xs) before t e = elim (Bool-cases (address x.task == id)) [
    | inl hit ↦ (before, xs, ground arith)
    | inr miss ↦ rw miss (find_timer-split_at id xs (x ∷ before) t (rw miss at e))
  ]

  -- The entry with its new time, as `delay` writes it.
  abbrev pub retimed : Timer T → ℕ → Timer T
  retimed t n = record t { time = n }

  NoneLater-raise :
      (t : Timer T) (n : ℕ) (xs : List (Timer T))
      → t.time ≤ n
      → NoneLater t.time xs
      → NoneLater n xs
  NoneLater-raise t n xs h a = NoneLater-mono {m = t.time} {n = n} xs h a

  onto-perm_head :
      (b : List (Timer T)) (x : Timer T) (xs : List (Timer T))
      → Perm (onto b (x ∷ xs)) (x ∷ onto b xs)
  onto-perm_head [] x xs = Perm.refl _
  onto-perm_head (y ∷ b) x xs =
      Perm.trans (onto-perm b (Perm.swap x y xs)) (onto-perm_head b x (y ∷ xs))

  -- Delaying a timer to no earlier a time keeps the vector sorted, and changes the time of the first
  -- timer with that id and no other entry.
  pub delay_later-IsSorted :
      (p : TaskPool T) (id now duration : ℕ) (t : Timer T)
      → IsSorted p.timers
      → find_timer id p.timers ≡ some t
      → t.time ≤ now + duration
      → IsSorted (delay p id now duration).timers
        × ((rest : List (Timer T)) × Perm p.timers (t ∷ rest)
            × Perm (delay p id now duration).timers (retimed t (now + duration) ∷ rest))
  unfolding delay
  delay_later-IsSorted p id now duration t s found later =
      let (b, a, e) = find_timer-split_at id p.timers [] t found in
      let same = (split_at-onto id p.timers [] b a t e).0 in
      let sorted : IsSorted (onto b (t ∷ a)) = rw same s in
      let tail = onto-tail-IsSorted b (t ∷ a) sorted in
      rw (e, delay)
        (
          bubble-IsSorted (retimed t (now + duration)) b a
              (onto-replace b (t ∷ a) a sorted tail.1 (λ n h. h.1))
              (NoneLater-raise t (now + duration) a later tail.0),
          (
            onto b a,
            subst (λ l. Perm l (t ∷ onto b a)) same (onto-perm_head b t a),
            Perm.trans (bubble-perm (retimed t (now + duration)) b a)
                (onto-perm_head b (retimed t (now + duration)) a),
          ),
        )

  split_at-append :
      (id : ℕ) (pre before rest : List (Timer T)) (t : Timer T)
      → has_timer id pre ≡ false
      → address t.task ≡ id
      → (b : List (Timer T)) × (split_at id before (pre ++ (t ∷ rest)) ≡ some (b, t, rest))
  unfolding split_at has_timer
  split_at-append id [] before rest t h e = (before, ground arith)
  split_at-append id (x ∷ pre) before rest t h e =
      let miss : (address x.task == id) ≡ false = ground arith in
      rw miss (split_at-append id pre (x ∷ before) rest t (ground arith) e)

  bubble-tail-IsSorted :
      (it : Timer T) (before after : List (Timer T))
      → IsSorted (bubble it before after)
      → IsSorted after
  unfolding bubble
  bubble-tail-IsSorted it [] after s = s.1
  bubble-tail-IsSorted it (prev ∷ before) after s =
      (bubble-tail-IsSorted (if ltb prev.time it.time then it else prev) before
        ((if ltb prev.time it.time then prev else it) ∷ after) s).1

  bubble-not-IsSorted :
      (it u : Timer T) (before post : List (Timer T))
      → it.time < u.time
      → ¬ IsSorted (bubble it before (u ∷ post))
  unfolding bubble
  bubble-not-IsSorted it u [] post h s = omega arith
  bubble-not-IsSorted it u (prev ∷ before) post h s = elim (Bool-cases (ltb prev.time it.time)) [
    | inl e ↦
        let tail = bubble-tail-IsSorted it before (prev ∷ u ∷ post) (rw e at s) in
        let le : prev.time < it.time = ground arith in omega (arith, tail.0.0)
    | inr e ↦
        let tail = bubble-tail-IsSorted prev before (it ∷ u ∷ post) (rw e at s) in
        omega (arith, tail.0.0)
  ]

  -- The loop of `delay` moves the entry towards the front only: a timer that is given a time earlier than
  -- that of the entry behind it stays before that entry, so the vector is no longer sorted.
  pub delay_earlier-not-IsSorted :
      (p : TaskPool T) (id now duration : ℕ) (pre post : List (Timer T)) (t u : Timer T)
      → p.timers ≡ pre ++ (t ∷ u ∷ post)
      → has_timer id pre ≡ false
      → address t.task ≡ id
      → now + duration < u.time
      → ¬ IsSorted (delay p id now duration).timers
  unfolding delay
  delay_earlier-not-IsSorted p id now duration pre post t u e h a early s =
      let (b, split) = split_at-append id pre [] (u ∷ post) t h a in
      bubble-not-IsSorted (retimed t (now + duration)) u b post early
        (rw (subst (λ l. split_at id [] l ≡ some (b, t, u ∷ post)) (sym e) split, delay) at s)

  move_out-times :
      (id : ℕ) (xs : List (Timer T))
      → map (λ (t : Timer T). t.time) (move_out id xs) ≡ map (λ (t : Timer T). t.time) xs
  unfolding move_out
  move_out-times id [] = refl
  move_out-times id (x ∷ xs) = ground (arith, move_out-times id xs)

  move_out-back :
      (id : ℕ) (pre : List (Timer T)) (t : Timer T)
      → has_timer id pre ≡ false
      → address t.task ≡ id
      → back? (move_out id (pre ++ (t ∷ []))) ≡ some (record t { task = none })
  unfolding move_out has_timer
  move_out-back id [] t h a = ground arith
  move_out-back id (x ∷ []) t h a = ground arith
  move_out-back id (x ∷ y ∷ pre) t h a =
      let miss : (address x.task == id) ≡ false = ground arith in
      let ih = move_out-back id (y ∷ pre) t (ground arith) a in
      elim (Bool-cases (address y.task == id)) [
        | inl hit ↦ absurd (ground arith)
        | inr _ ↦ ground (arith, ih)
      ]

  -- `pop(task_id)` does not take the entry out: every time stays in the vector, and when that entry
  -- comes to its turn `pop()` hands the worker a null pointer.
  pub pop_id_leaves_null :
      (p : TaskPool T) (id now : ℕ) (pre : List (Timer T)) (t : Timer T)
      → p.tasks ≡ []
      → p.timers ≡ pre ++ (t ∷ [])
      → has_timer id pre ≡ false
      → address t.task ≡ id
      → t.time ≤ now
      → let (q, popped) = pop_id p id in
        (popped ≡ some t)
        × (map (λ (u : Timer T). u.time) q.timers ≡ map (λ (u : Timer T). u.time) p.timers)
        × ((pop q now).1 ≡ some none)
  unfolding pop_id pop pop_from pop_timer
  pop_id_leaves_null p id now pre t idle e h a due =
      let (b, split) = split_at-append id pre [] [] t h a in
      let here = subst (λ l. split_at id [] l ≡ some (b, t, [])) (sym e) split in
      let last =
        subst (λ l. back? (move_out id l) ≡ some (record t { task = none })) (sym e)
          (move_out-back id pre t h a) in
      rw (here, pop_id)
        (
          refl,
          move_out-times id p.timers,
          ap (λ (r : TaskPool T × Option (Ptr T)). r.1)
              (pop_back_due (record p { timers = move_out id p.timers }) now
                (record t { task = none }) idle last due),
        )
