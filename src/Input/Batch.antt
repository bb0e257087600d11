-- ===== src/Input/Batch.antt =====
-- The `batch` functions of src/input.cpp and the loop of `passthrough_next_message` that folds later
-- messages of the queue into the one that is about to be sent.
pub mod Overflow
pub mod Keeps
pub mod Latest
pub mod Buttons
use midnight_sun.Prelude.{
  ℕ, Bool, true, false, ◌||◌, ◌&&◌, not, List, [], ◌∷◌, ◌==◌, if◌then◌else◌, Option, none, some,
}
use midnight_sun.Prelude.Int.{ℤ, eqb_ℤ, add_overflow16}
use midnight_sun.Input.Packet.{
  Limelight, RelMouseMove, AbsMouseMove, Scroll, HScroll, MultiController, Touch, Pen,
  ControllerTouch, ControllerMotion, Packet, rel_mouse_move, abs_mouse_move, scroll, hscroll,
  multi_controller, touch, pen, controller_touch, controller_motion,
}

-- `batch_result_e`; `batched` carries what `*dest` has become.
pub data BatchResult (A : Type 0) : Type 0 where
  batched : A → BatchResult A
  not_batchable : BatchResult A
  terminate_batch : BatchResult A

abbrev pub map_result : {A B : Type 0} → (A → B) → BatchResult A → BatchResult B
map_result f (batched a) = batched (f a)
map_result f not_batchable = not_batchable
map_result f terminate_batch = terminate_batch

unfoldable pub batch_rel_mouse_move : RelMouseMove → RelMouseMove → BatchResult RelMouseMove
batch_rel_mouse_move dest src =
    let (x_over, delta_x) = add_overflow16 dest.delta_x src.delta_x in
    let (y_over, delta_y) = add_overflow16 dest.delta_y src.delta_y in
    if not x_over
    then terminate_batch
    else if not y_over
    then terminate_batch
    else batched (record dest { delta_x = delta_x; delta_y = delta_y })

unfoldable pub batch_abs_mouse_move : AbsMouseMove → AbsMouseMove → BatchResult AbsMouseMove
batch_abs_mouse_move dest src =
    if not (eqb_ℤ dest.width src.width) || not (eqb_ℤ dest.height src.height)
    then terminate_batch
    else batched src

unfoldable pub batch_scroll : Scroll → Scroll → BatchResult Scroll
batch_scroll dest src =
    let (over, amt) = add_overflow16 dest.scroll_amt1 src.scroll_amt1 in
    if not over
    then terminate_batch
    else batched (record dest { scroll_amt1 = amt; scroll_amt2 = amt })

unfoldable pub batch_hscroll : HScroll → HScroll → BatchResult HScroll
batch_hscroll dest src =
    let (over, amt) = add_overflow16 dest.scroll_amount src.scroll_amount in
    if not over then terminate_batch else batched (record dest { scroll_amount = amt })

unfoldable pub batch_multi_controller :
    MultiController → MultiController → BatchResult MultiController
batch_multi_controller dest src =
    if not (dest.active_gamepad_mask == src.active_gamepad_mask)
    then terminate_batch
    else if not (eqb_ℤ dest.controller_number src.controller_number)
    then not_batchable
    else if not (dest.button_flags == src.button_flags)
        || not (dest.button_flags2 == src.button_flags2)
    then terminate_batch
    else batched src

module _ (li : Limelight) where
  -- LI_TOUCH_EVENT_MOVE or LI_TOUCH_EVENT_HOVER
  abbrev pub move_or_hover : ℕ → Bool
  move_or_hover e = e == li.touch_event_move || e == li.touch_event_hover

  unfoldable pub batch_touch : Touch → Touch → BatchResult Touch
  batch_touch dest src =
      if not (move_or_hover dest.event_type)
      then terminate_batch
      else if not (move_or_hover src.event_type)
      then terminate_batch
      else if not (dest.pointer_id == src.pointer_id)
      then not_batchable
      else if not (dest.event_type == src.event_type)
      then terminate_batch
      else batched src

  unfoldable pub batch_pen : Pen → Pen → BatchResult Pen
  batch_pen dest src =
      if not (move_or_hover dest.event_type)
      then terminate_batch
      else if not (dest.event_type == src.event_type)
      then terminate_batch
      else if not (dest.pen_buttons == src.pen_buttons)
      then terminate_batch
      else if not (dest.tool_type == src.tool_type)
      then terminate_batch
      else batched src

  unfoldable pub batch_controller_touch :
      ControllerTouch → ControllerTouch → BatchResult ControllerTouch
  batch_controller_touch dest src =
      if not (move_or_hover dest.event_type)
      then terminate_batch
      else if not (dest.controller_number == src.controller_number)
      then not_batchable
      else if not (move_or_hover src.event_type)
      then terminate_batch
      else if not (dest.pointer_id == src.pointer_id)
      then not_batchable
      else if not (dest.event_type == src.event_type)
      then terminate_batch
      else batched src

  unfoldable pub batch_controller_motion :
      ControllerMotion → ControllerMotion → BatchResult ControllerMotion
  batch_controller_motion dest src =
      if not (dest.controller_number == src.controller_number)
      then not_batchable
      else if not (dest.motion_type == src.motion_type)
      then not_batchable
      else batched src

  -- Packets of two kinds, and of a kind that has no `batch`, end the batch.
  unfoldable pub batch : Packet → Packet → BatchResult Packet
  unfolding batch_rel_mouse_move batch_abs_mouse_move batch_scroll batch_hscroll
      batch_multi_controller batch_touch batch_pen batch_controller_touch batch_controller_motion
  batch (rel_mouse_move dest) (rel_mouse_move src) =
      map_result rel_mouse_move (batch_rel_mouse_move dest src)
  batch (abs_mouse_move dest) (abs_mouse_move src) =
      map_result abs_mouse_move (batch_abs_mouse_move dest src)
  batch (scroll dest) (scroll src) = map_result scroll (batch_scroll dest src)
  batch (hscroll dest) (hscroll src) = map_result hscroll (batch_hscroll dest src)
  batch (multi_controller dest) (multi_controller src) =
      map_result multi_controller (batch_multi_controller dest src)
  batch (touch dest) (touch src) = map_result touch (batch_touch dest src)
  batch (pen dest) (pen src) = map_result pen (batch_pen dest src)
  batch (controller_touch dest) (controller_touch src) =
      map_result controller_touch (batch_controller_touch dest src)
  batch (controller_motion dest) (controller_motion src) =
      map_result controller_motion (batch_controller_motion dest src)
  batch _ _ = terminate_batch

  -- The loop over the rest of the queue: the message to send, and what stays queued.
  unfoldable pub batch_queue : Packet → List Packet → Packet × List Packet
  batch_queue payload [] = (payload, [])
  batch_queue payload (entry ∷ queue) = elim (batch payload entry) [
    | batched merged ↦ batch_queue merged queue
    | not_batchable ↦ let (sent, kept) = batch_queue payload queue in (sent, entry ∷ kept)
    | terminate_batch ↦ (payload, entry ∷ queue)
  ]

  -- The part of `passthrough_next_message` under the lock.
  unfoldable pub next_message : List Packet → Option (Packet × List Packet)
  unfolding batch_queue
  next_message [] = none
  next_message (entry ∷ queue) = some (batch_queue entry queue)
