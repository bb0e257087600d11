-- ===== src/ThreadSafe/Fifo.antt =====
-- The order and the bound of the queue of src/thread_safe.h.
use midnight_sun.Prelude.{
  ◌+◌, ◌≤◌, ◌<◌, true, false, ◌≡◌, refl, sym, ap, ◌∙◌, subst, none, some, List, [], ◌∷◌, ◌++◌,
  length, arith, ◌⊎◌, inl, inr, length-append,
}
use mathlib.Core.List.{append_assoc, append-nil}
use midnight_sun.ThreadSafe.Queue.{Queue, Look, waits, returns, raise, pop, stop}

-- The steps of the threads that share a queue, in the order in which they hold the lock.
pub data Action {ℓ} (A : Type ℓ) : Type ℓ where
  raised : A → Action A
  popped : Action A
  stopped : Action A

module _ {ℓ} {A : Type ℓ} where
  abbrev value : Look A → List A
  value waits = []
  value (returns none) = []
  value (returns (some a)) = a ∷ []

  -- The queue, and the values that the pops have returned, in order.
  abbrev pub act : Action A → Queue A × List A → Queue A × List A
  act (raised a) (q, got) = (raise a q, got)
  act popped (q, got) = let (rest, look) = pop q in (rest, got ++ value look)
  act stopped (q, got) = (stop q, got)

  abbrev pub play : List (Action A) → Queue A × List A → Queue A × List A
  play [] state = state
  play (x ∷ xs) state = play xs (act x state)

  -- What is raised before the first stop.
  abbrev pub accepted : List (Action A) → List A
  accepted [] = []
  accepted (raised a ∷ xs) = a ∷ accepted xs
  accepted (popped ∷ xs) = accepted xs
  accepted (stopped ∷ xs) = []

  raise-off : (a : A) (q : Queue A) → q.going_on ≡ false → raise a q ≡ q
  unfolding raise
  raise-off a q off = ground (arith, off)

  pop-off : (q : Queue A) → q.going_on ≡ false → pop q ≡ (q, returns none)
  unfolding pop
  pop-off q off = ground (arith, off)

  play-stopped :
      (xs : List (Action A)) (q : Queue A) (got : List A)
      → q.going_on ≡ false
      → let (r, got') = play xs (q, got) in (got' ≡ got) × (r.queue ≡ q.queue)
  unfolding stop
  play-stopped [] q got off = (refl, refl)
  play-stopped (raised a ∷ xs) q got off =
      subst (λ z. let (r, got') = play xs (z, got) in (got' ≡ got) × (r.queue ≡ q.queue))
        (sym (raise-off a q off)) (play-stopped xs q got off)
  play-stopped (popped ∷ xs) q got off =
      subst
        (λ z. let (r, got') = play xs (z.0, got ++ value z.1) in (got' ≡ got) × (r.queue ≡ q.queue))
        (sym (pop-off q off))
        (subst (λ l. let (r, got') = play xs (q, l) in (got' ≡ got) × (r.queue ≡ q.queue))
          (sym (append-nil got)) (play-stopped xs q got off))
  play-stopped (stopped ∷ xs) q got off = play-stopped xs (stop q) got refl

  raise-room :
      (a : A) (q : Queue A)
      → q.going_on ≡ true
      → length q.queue < q.max_elements
      → raise a q ≡ record q { queue = q.queue ++ a ∷ [] }
  unfolding raise
  raise-room a q on h = ground (arith, on, h)

  List-cases : (l : List A) → (l ≡ []) ⊎ ((a : A) × (rest : List A) × (l ≡ a ∷ rest))
  List-cases [] = inl refl
  List-cases (a ∷ rest) = inr (a, rest, refl)

  pop-empty : (q : Queue A) → q.going_on ≡ true → q.queue ≡ [] → pop q ≡ (q, waits)
  unfolding pop
  pop-empty q on empty = ground (arith, on, empty)

  pop-front :
      (q : Queue A) (a : A) (rest : List A)
      → q.going_on ≡ true
      → q.queue ≡ a ∷ rest
      → pop q ≡ (record q { queue = rest }, returns (some a))
  unfolding pop
  pop-front q a rest on e = ground (arith, on, e)

  -- As long as a queue that is going on has room for all that is raised before it stops, nothing is lost, nothing
  -- is doubled and the order is kept, however the threads take turns: what the pops have returned, followed by
  -- what is left, is what they had returned before, followed by what was there and what is raised.
  pub play-fifo :
      (xs : List (Action A)) (q : Queue A) (got : List A)
      → q.going_on ≡ true
      → length q.queue + length (accepted xs) ≤ q.max_elements
      → let (r, got') = play xs (q, got) in got' ++ r.queue ≡ got ++ (q.queue ++ accepted xs)
  unfolding stop
  play-fifo [] q got on h = ap (λ l. got ++ l) (sym (append-nil q.queue))
  play-fifo (raised a ∷ xs) q got on h =
      let added = record q { queue = q.queue ++ a ∷ [] } in
      subst
        (λ z.
          let (r, got') = play xs (z, got) in got' ++ r.queue ≡ got ++ (q.queue ++ a ∷ accepted xs))
        (sym (raise-room a q on (omega arith)))
        (play-fifo xs added got on (omega (arith, length-append q.queue (a ∷ [])))
          ∙ ap (λ l. got ++ l) (append_assoc q.queue (a ∷ []) (accepted xs)))
  play-fifo (popped ∷ xs) q got on h = elim (List-cases q.queue) [
    | inl empty ↦
        subst
          (λ z.
            let (r, got') = play xs (z.0, got ++ value z.1) in
            got' ++ r.queue ≡ got ++ (q.queue ++ accepted xs))
          (sym (pop-empty q on empty))
          (subst
            (λ l.
              let (r, got') = play xs (q, l) in got' ++ r.queue ≡ got ++ (q.queue ++ accepted xs))
            (sym (append-nil got)) (play-fifo xs q got on h))
    | inr (a, rest, e) ↦
        let shorter = record q { queue = rest } in
        let fits : length rest + length (accepted xs) ≤ q.max_elements =
          subst
            (λ l.
              length l + length (accepted xs) ≤ q.max_elements
              → length rest + length (accepted xs) ≤ q.max_elements)
            (sym e) (λ h'. omega arith) h in
        subst
          (λ z.
            let (r, got') = play xs (z.0, got ++ value z.1) in
            got' ++ r.queue ≡ got ++ (q.queue ++ accepted xs))
          (sym (pop-front q a rest on e))
          (play-fifo xs shorter (got ++ a ∷ []) on fits
            ∙ append_assoc got (a ∷ []) (rest ++ accepted xs)
            ∙ ap (λ l. got ++ (l ++ accepted xs)) (sym e))
  ]
  play-fifo (stopped ∷ xs) q got on h =
      let (same_got, same_queue) = play-stopped xs (stop q) got refl in
      rw (same_got, same_queue) (ap (λ l. got ++ l) (sym (append-nil q.queue)))

  act-bound :
      (x : Action A) (q : Queue A) (got : List A)
      → length q.queue ≤ q.max_elements
      → 0 < q.max_elements
      → let (r, got') = act x (q, got) in
        (length r.queue ≤ r.max_elements) × (r.max_elements ≡ q.max_elements)
  unfolding raise pop stop
  act-bound (raised a) q got h pos = ground (arith, h, pos, length-append q.queue (a ∷ []))
  act-bound popped q got h pos = ground (arith, h, pos)
  act-bound stopped q got h pos = (h, refl)

  -- A queue never holds more than its limit, however the threads take turns, if the limit is not 0.
  pub play-bound :
      (xs : List (Action A)) (q : Queue A) (got : List A)
      → length q.queue ≤ q.max_elements
      → 0 < q.max_elements
      → length (play xs (q, got)).0.queue ≤ q.max_elements
  play-bound [] q got h pos = h
  play-bound (x ∷ xs) q got h pos =
      let (r, got') = act x (q, got) in
      let (h', same_max) = act-bound x q got h pos in
      subst (λ m. length (play xs (act x (q, got))).0.queue ≤ m) same_max
        (play-bound xs r got' h' (subst (λ m. 0 < m) (sym same_max) pos))
