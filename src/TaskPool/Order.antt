-- ===== src/TaskPool/Order.antt =====
-- The timers stand latest first, so that the back of the vector is the next one due.
use mathlib.Core.List.{Perm}
use mathlib.Core.List.Perm
use midnight_sun.Prelude.{
  ℕ, ◌≤◌, true, false, ◌≡◌, refl, inl, inr, List, [], ◌∷◌, arith, ltb, ◌==◌, Bool-cases,
}
use midnight_sun.TaskPool.{
  Timer, TaskPool, address, insert_timer, push_delayed, erase_timer, cancel, has_timer,
}

module _ {ℓ} {T : Type ℓ} where
  abbrev pub NoneLater : ℕ → List (Timer T) → Type 0
  NoneLater n [] = Unit
  NoneLater n (x ∷ xs) = (x.time ≤ n) × NoneLater n xs

  abbrev pub NoneEarlier : ℕ → List (Timer T) → Type 0
  NoneEarlier n [] = Unit
  NoneEarlier n (x ∷ xs) = (n ≤ x.time) × NoneEarlier n xs

  abbrev pub IsSorted : List (Timer T) → Type 0
  IsSorted [] = Unit
  IsSorted (x ∷ xs) = NoneLater x.time xs × IsSorted xs

  pub NoneLater-mono : {m n : ℕ} (xs : List (Timer T)) → m ≤ n → NoneLater m xs → NoneLater n xs
  NoneLater-mono [] h a = tt
  NoneLater-mono (x ∷ xs) h a = (omega arith, NoneLater-mono xs h a.1)

  NoneLater-insert_timer :
      (n : ℕ) (t : Timer T) (xs : List (Timer T))
      → t.time ≤ n
      → NoneLater n xs
      → NoneLater n (insert_timer t xs)
  unfolding insert_timer
  NoneLater-insert_timer n t [] h a = (h, tt)
  NoneLater-insert_timer n t (x ∷ xs) h a = ground (arith, NoneLater-insert_timer n t xs h a.1)

  pub insert_timer-IsSorted :
      (t : Timer T) (xs : List (Timer T)) → IsSorted xs → IsSorted (insert_timer t xs)
  unfolding insert_timer
  insert_timer-IsSorted t [] s = (tt, tt)
  insert_timer-IsSorted t (x ∷ xs) s = ground (
    arith,
    insert_timer-IsSorted t xs s.1,
    NoneLater-mono {m = x.time} {n = t.time} xs,
    NoneLater-insert_timer x.time t xs,
  )

  insert_timer-perm : (t : Timer T) (xs : List (Timer T)) → Perm (insert_timer t xs) (t ∷ xs)
  unfolding insert_timer
  insert_timer-perm t [] = Perm.refl _
  insert_timer-perm t (x ∷ xs) = elim (Bool-cases (ltb x.time t.time)) [
    | inl e ↦ rw e (Perm.refl _)
    | inr e ↦ rw e (Perm.trans (Perm.cons x (insert_timer-perm t xs)) (Perm.swap t x xs))
  ]

  -- A new timer goes in without losing or repeating any other, and the vector stays sorted.
  pub push_delayed-IsSorted :
      (p : TaskPool T) (t : Timer T)
      → IsSorted p.timers
      → IsSorted (push_delayed p t).timers
        × Perm (push_delayed p t).timers (t ∷ p.timers)
        × ((push_delayed p t).tasks ≡ p.tasks)
  unfolding push_delayed
  push_delayed-IsSorted p t s =
      (insert_timer-IsSorted t p.timers s, insert_timer-perm t p.timers, refl)

  NoneLater-erase_timer :
      (n id : ℕ) (xs : List (Timer T)) → NoneLater n xs → NoneLater n (erase_timer id xs)
  unfolding erase_timer
  NoneLater-erase_timer n id [] a = tt
  NoneLater-erase_timer n id (x ∷ xs) a = ground (arith, NoneLater-erase_timer n id xs a.1)

  erase_timer-IsSorted : (id : ℕ) (xs : List (Timer T)) → IsSorted xs → IsSorted (erase_timer id xs)
  unfolding erase_timer
  erase_timer-IsSorted id [] s = tt
  erase_timer-IsSorted id (x ∷ xs) s =
      ground (arith, erase_timer-IsSorted id xs s.1, NoneLater-erase_timer x.time id xs s.0)

  erase_timer-perm :
      (id : ℕ) (xs : List (Timer T))
      → has_timer id xs ≡ true
      → (t : Timer T) × (address t.task ≡ id) × Perm xs (t ∷ erase_timer id xs)
  unfolding erase_timer has_timer
  erase_timer-perm id [] h = absurd (cc)
  erase_timer-perm id (x ∷ xs) h = elim (Bool-cases (address x.task == id)) [
    | inl e ↦ (x, ground arith, rw e (Perm.refl _))
    | inr e ↦
        let (t, a, p) = erase_timer-perm id xs (rw e at h) in
        (t, a, rw e (Perm.trans (Perm.cons x p) (Perm.swap t x _)))
  ]

  -- `cancel` says whether a timer has this id, then takes exactly one such timer out, and otherwise
  -- changes nothing; the vector stays sorted.
  pub cancel_lem :
      (p : TaskPool T) (id : ℕ)
      → IsSorted p.timers
      → let (q, found) = cancel p id in
        (found ≡ has_timer id p.timers)
        × IsSorted q.timers
        × (q.tasks ≡ p.tasks)
        × (found ≡ true → (t : Timer T) × (address t.task ≡ id) × Perm p.timers (t ∷ q.timers))
        × (found ≡ false → q ≡ p)
  unfolding cancel
  cancel_lem p id s = elim (Bool-cases (has_timer id p.timers)) [
    | inl e ↦ rw e (
      refl,
      erase_timer-IsSorted id p.timers s,
      refl,
      (λ _. erase_timer-perm id p.timers e),
      (λ f. cc),
    )
    | inr e ↦ rw e (refl, s, refl, (λ f. absurd (cc)), (λ _. refl))
  ]
