-- ===== src/Input/Batch/Buttons.antt =====
-- What the batching loop of src/input.cpp does to the buttons of a controller.
use midnight_sun.Prelude.{◌≡◌, refl, arith, ap, ◌∙◌, List}
use midnight_sun.Prelude.Int.{eqb_ℤ-eq}
use midnight_sun.Input.Packet.{Limelight, MultiController, Packet, multi_controller}
use midnight_sun.Input.Batch.{batched, batch, batch_queue, batch_multi_controller}
use midnight_sun.Input.Batch.Keeps.{
  Interleaves, Folds, none_taken, one_more, batch_queue-Folds, AllTaken, map_result-batched,
}

module _ (li : Limelight) where
  -- The same controller, the same set of active controllers, and the same buttons.
  pub record SameButtons (d s : MultiController) : Type 0 where
    pub number : d.controller_number ≡ s.controller_number
    pub mask : d.active_gamepad_mask ≡ s.active_gamepad_mask
    pub buttons : d.button_flags ≡ s.button_flags
    pub buttons2 : d.button_flags2 ≡ s.button_flags2

  abbrev pub ReportsButtons : MultiController → Packet → Type 0
  ReportsButtons d q = (s : MultiController) × (q ≡ multi_controller s) × SameButtons d s

  batch_multi_controller-SameButtons :
      (d s m : MultiController) → batch_multi_controller d s ≡ batched m → (m ≡ s) × SameButtons d s
  unfolding batch_multi_controller
  batch_multi_controller-SameButtons d s m e = (
    ground arith,
    record {
      number = eqb_ℤ-eq d.controller_number s.controller_number (ground arith);
      mask = ground arith;
      buttons = ground arith;
      buttons2 = ground arith;
    },
  )

  batch-ReportsButtons :
      (d c : MultiController) (q merged : Packet)
      → SameButtons d c
      → batch li (multi_controller c) q ≡ batched merged
      → (s : MultiController) × (q ≡ multi_controller s)
        × (merged ≡ multi_controller s)
        × SameButtons d s
  unfolding batch
  batch-ReportsButtons d c (multi_controller s) merged k e =
      let (m, me, same) =
        map_result-batched multi_controller (batch_multi_controller c s) merged e in
      let (ms, b) = batch_multi_controller-SameButtons c s m me in
      (
        s,
        refl,
        same ∙ ap multi_controller ms,
        record {
          number = k.number ∙ b.number;
          mask = k.mask ∙ b.mask;
          buttons = k.buttons ∙ b.buttons;
          buttons2 = k.buttons2 ∙ b.buttons2;
        },
      )
  batch-ReportsButtons d c _ merged k e = absurd (cc)

  Folds-ReportsButtons :
      (d c : MultiController) {p sent : Packet} {qs : List Packet}
      → SameButtons d c
      → p ≡ multi_controller c
      → Folds li p qs sent
      → ReportsButtons d sent × AllTaken (ReportsButtons d) qs
  Folds-ReportsButtons d c k same none_taken = ((c, same, k), tt)
  Folds-ReportsButtons d c k same (one_more {p} {q} {merged} e f) =
      let (s, qs, ms, k') = batch-ReportsButtons d c q merged k (rw same at e) in
      let (sent, all) = Folds-ReportsButtons d s k' ms f in (sent, ((s, qs, k'), all))

  SameButtons-refl : (d : MultiController) → SameButtons d d
  SameButtons-refl d = record { number = refl; mask = refl; buttons = refl; buttons2 = refl }

  -- A controller report swallows only later reports of the same controller with the same buttons and the same
  -- active controllers, and what is sent in its place reports the same.
  pub batch_queue-buttons :
      (d : MultiController) (queue : List Packet)
      → let (sent, kept) = batch_queue li (multi_controller d) queue in
        (taken : List Packet) × Interleaves queue kept taken
        × ReportsButtons d sent
        × AllTaken (ReportsButtons d) taken
  batch_queue-buttons d queue =
      let (taken, split, folds) = batch_queue-Folds li (multi_controller d) queue in
      let (sent, all) = Folds-ReportsButtons d d (SameButtons-refl d) refl folds in
      (taken, split, sent, all)
