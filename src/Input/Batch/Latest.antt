-- ===== src/Input/Batch/Latest.antt =====
-- What the batching loop of src/input.cpp sends of the kinds that are not summed up.
use midnight_sun.Prelude.{Bool, true, false, ◌≡◌, refl, arith, ap, ◌∙◌, List, [], ◌∷◌}
use midnight_sun.Input.Packet.{
  Limelight, Packet, rel_mouse_move, abs_mouse_move, scroll, hscroll, multi_controller, touch, pen,
  controller_touch, controller_motion,
}
use midnight_sun.Input.Batch.{batched, batch, batch_queue}
use midnight_sun.Input.Batch.Keeps.{Interleaves, Folds, none_taken, one_more, batch_queue-Folds}

module _ (li : Limelight) where
  -- The kinds whose `batch` ends in `*dest = *src`.
  abbrev pub takes_latest : Packet → Bool
  takes_latest (rel_mouse_move m) = false
  takes_latest (scroll s) = false
  takes_latest (hscroll s) = false
  takes_latest _ = true

  abbrev pub last_of : Packet → List Packet → Packet
  last_of p [] = p
  last_of p (q ∷ qs) = last_of q qs

  batch-latest :
      (p q merged : Packet)
      → takes_latest p ≡ true
      → batch li p q ≡ batched merged
      → (merged ≡ q) × (takes_latest q ≡ true)
  unfolding batch
  batch-latest (abs_mouse_move d) (abs_mouse_move s) m t e = (ground arith, refl)
  batch-latest (multi_controller d) (multi_controller s) m t e = (ground arith, refl)
  batch-latest (touch d) (touch s) m t e = (ground arith, refl)
  batch-latest (pen d) (pen s) m t e = (ground arith, refl)
  batch-latest (controller_touch d) (controller_touch s) m t e = (ground arith, refl)
  batch-latest (controller_motion d) (controller_motion s) m t e = (ground arith, refl)
  batch-latest (rel_mouse_move d) (rel_mouse_move s) m t e = absurd (cc)
  batch-latest (scroll d) (scroll s) m t e = absurd (cc)
  batch-latest (hscroll d) (hscroll s) m t e = absurd (cc)
  batch-latest _ _ m t e = absurd (cc)

  Folds-latest :
      {p sent : Packet} {qs : List Packet}
      → takes_latest p ≡ true
      → Folds li p qs sent
      → sent ≡ last_of p qs
  Folds-latest t none_taken = refl
  Folds-latest t (one_more {p} {q} {merged} {sent} {qs} e f) =
      let (same, t') = batch-latest p q merged t e in
      Folds-latest (rw (← same) at t') f ∙ ap (λ x. last_of x qs) same

  -- Of the kinds that are not summed up, what is sent is the newest message taken, or the first one if
  -- none was taken.
  pub batch_queue-latest :
      (p : Packet) (queue : List Packet)
      → takes_latest p ≡ true
      → let (sent, kept) = batch_queue li p queue in
        (taken : List Packet) × Interleaves queue kept taken × (sent ≡ last_of p taken)
  batch_queue-latest p queue t =
      let (taken, split, folds) = batch_queue-Folds li p queue in
      (taken, split, Folds-latest t folds)
