-- ===== src/Input/Batch/Keeps.antt =====
-- What the batching loop of `passthrough_next_message` in src/input.cpp may take out of the queue.
use midnight_sun.Prelude.{
  Bool, true, false, not, ◌≡◌, ◌⊎◌, inl, inr, refl, arith, Bool-cases, ap, List, [], ◌∷◌, keep_if,
  length, ◌+◌, ◌<◌, some,
}
use midnight_sun.Input.Packet.{
  Limelight, Packet, rel_mouse_move, abs_mouse_move, mouse_button, scroll, hscroll, keyboard,
  utf8_text, multi_controller, touch, pen, controller_arrival, controller_touch, controller_motion,
  controller_battery, unknown,
}
use midnight_sun.Input.Batch.{
  BatchResult, map_result, batched, not_batchable, terminate_batch, batch, batch_queue,
  move_or_hover, next_message,
}

-- The three answers of `batch`, with their equations.
BatchResult-cases :
    {A : Type 0} (r : BatchResult A)
    → ((a : A) × (r ≡ batched a)) ⊎ ((r ≡ not_batchable) ⊎ (r ≡ terminate_batch))
BatchResult-cases (batched a) = inl (a, refl)
BatchResult-cases not_batchable = inr (inl refl)
BatchResult-cases terminate_batch = inr (inr refl)

pub map_result-batched :
    {A B : Type 0} (f : A → B) (r : BatchResult A) (b : B)
    → map_result f r ≡ batched b
    → (a : A) × (r ≡ batched a) × (b ≡ f a)
map_result-batched f (batched a) b e = (a, refl, cc)
map_result-batched f not_batchable b e = absurd (cc)
map_result-batched f terminate_batch b e = absurd (cc)

-- `queue` is `kept` and `taken`, interleaved, each in its order.
pub data Interleaves : List Packet → List Packet → List Packet → Type 0 where
  done : Interleaves [] [] []
  keep : {q k t : List Packet} (p : Packet) → Interleaves q k t → Interleaves (p ∷ q) (p ∷ k) t
  take : {q k t : List Packet} (p : Packet) → Interleaves q k t → Interleaves (p ∷ q) k (p ∷ t)

pub kept_all : (queue : List Packet) → Interleaves queue queue []
kept_all [] = done
kept_all (p ∷ queue) = keep p (kept_all queue)

-- Every message that was taken satisfies `P`.
abbrev pub AllTaken : (Packet → Type 0) → List Packet → Type 0
AllTaken P [] = Unit
AllTaken P (p ∷ ps) = P p × AllTaken P ps

-- `sent` is what `p` becomes when the messages taken are merged into it in turn.
pub data Folds (li : Limelight) : Packet → List Packet → Packet → Type 0 where
  none_taken : {p : Packet} → Folds li p [] p
  one_more :
      {p q merged sent : Packet} {qs : List Packet}
      → batch li p q ≡ batched merged
      → Folds li merged qs sent
      → Folds li p (q ∷ qs) sent

module _ (li : Limelight) where
  -- The queue splits into messages that stay and messages that are taken, each in their order, and the
  -- message sent is the first one with all those taken merged into it, in that order.
  pub batch_queue-Folds :
      (p : Packet) (queue : List Packet)
      → let (sent, kept) = batch_queue li p queue in
        (taken : List Packet) × Interleaves queue kept taken × Folds li p taken sent
  unfolding batch_queue
  batch_queue-Folds p [] = ([], done, none_taken)
  batch_queue-Folds p (q ∷ queue) = elim (BatchResult-cases (batch li p q)) [
    | inl (merged, e) ↦
        let (taken, split, folds) = batch_queue-Folds merged queue in
        rw (e, batch_queue) (q ∷ taken, take q split, one_more e folds)
    | inr (inl e) ↦
        let (taken, split, folds) = batch_queue-Folds p queue in
        rw (e, batch_queue) (taken, keep q split, folds)
    | inr (inr e) ↦ rw (e, batch_queue) ([], kept_all (q ∷ queue), none_taken)
  ]

  -- The messages that change a state for good: buttons, keys, text, arrivals, battery reports, and every
  -- touch or pen event but a move or a hover.
  abbrev pub is_event : Packet → Bool
  is_event (mouse_button b) = true
  is_event (keyboard k) = true
  is_event (utf8_text t) = true
  is_event (controller_arrival a) = true
  is_event (controller_battery b) = true
  is_event (unknown m) = true
  is_event (touch t) = not (move_or_hover li t.event_type)
  is_event (pen t) = not (move_or_hover li t.event_type)
  is_event (controller_touch t) = not (move_or_hover li t.event_type)
  is_event _ = false

  batch-not-event : (p q merged : Packet) → batch li p q ≡ batched merged → is_event q ≡ false
  unfolding batch
  batch-not-event (touch d) (touch s) m e = ground arith
  batch-not-event (pen d) (pen s) m e = ground arith
  batch-not-event (controller_touch d) (controller_touch s) m e = ground arith
  batch-not-event (rel_mouse_move d) (rel_mouse_move s) m e = refl
  batch-not-event (abs_mouse_move d) (abs_mouse_move s) m e = refl
  batch-not-event (scroll d) (scroll s) m e = refl
  batch-not-event (hscroll d) (hscroll s) m e = refl
  batch-not-event (multi_controller d) (multi_controller s) m e = refl
  batch-not-event (controller_motion d) (controller_motion s) m e = refl
  batch-not-event _ _ m e = absurd (cc)

  Folds-not-event :
      {p sent : Packet} {qs : List Packet}
      → Folds li p qs sent
      → AllTaken (λ q. is_event q ≡ false) qs
  Folds-not-event none_taken = tt
  Folds-not-event (one_more {p} {q} {merged} e f) =
      (batch-not-event p q merged e, Folds-not-event f)

  keep_if-Interleaves :
      {queue kept taken : List Packet}
      → Interleaves queue kept taken
      → AllTaken (λ q. is_event q ≡ false) taken
      → keep_if is_event kept ≡ keep_if is_event queue
  keep_if-Interleaves done a = refl
  keep_if-Interleaves (keep {q} {k} p i) a = elim (Bool-cases (is_event p)) [
    | inl e ↦ rw (e, keep_if) (ap (◌∷◌ p) (keep_if-Interleaves i a))
    | inr e ↦ rw (e, keep_if) (keep_if-Interleaves i a)
  ]
  keep_if-Interleaves (take p i) a = rw (a.0, keep_if) (keep_if-Interleaves i a.1)

  -- No event is lost, repeated or moved past another one: the events that stay in the queue are those
  -- that were in it, in the same order.
  pub batch_queue-events :
      (p : Packet) (queue : List Packet)
      → keep_if is_event (batch_queue li p queue).1 ≡ keep_if is_event queue
  batch_queue-events p queue =
      let (taken, split, folds) = batch_queue-Folds p queue in
      keep_if-Interleaves split (Folds-not-event folds)

  length-Interleaves :
      {queue kept taken : List Packet}
      → Interleaves queue kept taken
      → length kept + length taken ≡ length queue
  length-Interleaves done = refl
  length-Interleaves (keep p i) = omega (arith, length-Interleaves i)
  length-Interleaves (take p i) = omega (arith, length-Interleaves i)

  -- Each call that sends a message leaves a shorter queue.
  pub next_message-shorter :
      (queue kept : List Packet) (sent : Packet)
      → next_message li queue ≡ some (sent, kept)
      → length kept < length queue
  unfolding next_message
  next_message-shorter [] kept sent e = absurd (cc)
  next_message-shorter (p ∷ queue) kept sent e =
      let (taken, split, folds) = batch_queue-Folds p queue in
      let same : (batch_queue li p queue).1 ≡ kept = ground arith in
      omega (arith, length-Interleaves split, ap length same)
