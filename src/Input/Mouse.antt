-- ===== src/Input/Mouse.antt =====
-- Mouse buttons and scroll wheels in src/input.cpp.
pub mod Buttons
pub mod LeftDelay
pub mod Wheel
use midnight_sun.Prelude.{
  ℕ, ◌+◌, ◌-◌, ◌*◌, ◌/◌, ◌%◌, ◌<◌, suc, Bool, true, false, not, ◌&&◌, ◌||◌, Option, none, some,
  List, [], ◌∷◌, ltb, leb, ◌==◌, if◌then◌else◌, get_elem?, set, eqb,
}
use midnight_sun.Prelude.Int.{ℤ, pos, negsuc, ◌+ℤ◌, ◌-ℤ◌, ◌*ℤ◌, eqb_ℤ}
use midnight_sun.TaskPool.{push_delayed_after}
use midnight_sun.Input.Packet.{Limelight}
use midnight_sun.Input.Packet
use midnight_sun.Input.State.{
  Input, Output, button_mouse, move_mouse, scroll, hscroll, release_left, emit,
}

-- `mouse_press[b]`; the array has five entries.
abbrev pub pressed : ℕ → List Bool → Bool
pressed b m = elim (get_elem? m b) [ none ↦ false | some p ↦ p ]

-- The two values of `mouse_left_button_timeout` that are no task: DISABLE_LEFT_BUTTON_DELAY and
-- ENABLE_LEFT_BUTTON_DELAY, the null pointer.
abbrev pub disable_left_button_delay : ℕ
disable_left_button_delay = 1

abbrev pub enable_left_button_delay : ℕ
enable_left_button_delay = 0

-- `passthrough` of a relative move.
unfoldable pub passthrough_rel_mouse_move : Input → Packet.RelMouseMove → Input
passthrough_rel_mouse_move s packet =
    if not s.config.mouse
    then s
    else emit (move_mouse packet.delta_x packet.delta_y)
        (record s { mouse_left_button_timeout = disable_left_button_delay })

module _ (li : Limelight) where
  -- The end of the button handler, after `mouse_press` is brought up to date: a left release may wait 10 ms,
  -- and a right press may become a click.
  unfoldable pub send_button : Input → ℕ → (release : Bool) → (now addr : ℕ) → Input
  send_button s button release now addr =
      if button == li.button_left && (release && s.mouse_left_button_timeout == 0)
      then (let (pool, id) = push_delayed_after s.pool now 10_000_000 addr release_left in
          record s { pool = pool; mouse_left_button_timeout = id })
      else if button == li.button_right
          && (not release && ltb disable_left_button_delay s.mouse_left_button_timeout)
      then (let t =
            emit (button_mouse li.button_right true)
              (emit (button_mouse li.button_right false) s) in
          record t { mouse_press = set t.mouse_press li.button_right false })
      else emit (button_mouse button release) s

  -- `passthrough` of a button packet.
  unfoldable pub passthrough_mouse_button : Input → Packet.MouseButton → (now addr : ℕ) → Input
  unfolding send_button
  passthrough_mouse_button s packet now addr =
      let tracked = ltb 0 packet.button && ltb packet.button 5 in
      let noted = record s { mouse_press = set s.mouse_press packet.button (not packet.release) } in
      if not s.config.mouse
      then s
      else if tracked
      then (if eqb (pressed packet.button s.mouse_press) packet.release
          then send_button noted packet.button packet.release now addr
          else s)
      else send_button s packet.button packet.release now addr

  -- The task of the delayed release.
  unfoldable pub run_release_left : Input → Input
  run_release_left s =
      if pressed li.button_left s.mouse_press
      then s
      else record (emit (button_mouse li.button_left true) s) {
        mouse_press = set s.mouse_press li.button_left false;
        mouse_left_button_timeout = 0;
      }

-- `x / 120`, which truncates towards zero.
abbrev pub full_ticks : ℤ → ℤ
full_ticks (pos n) = pos (n / 120)
full_ticks (negsuc n) = if ltb n 119 then pos 0 else negsuc ((n + 1) / 120 - 1)

abbrev pub is_zero : ℤ → Bool
is_zero a = eqb_ℤ a (pos 0)

-- The two halves of a scroll handler: what is sent, and what stays accumulated.
unfoldable pub accumulate : ℤ → ℤ → Option ℤ × ℤ
accumulate delta amount =
    let total = delta +ℤ amount in
    let ticks = full_ticks total in
    if is_zero ticks then (none, total) else (some (ticks *ℤ pos 120), total -ℤ ticks *ℤ pos 120)

abbrev pub emit_some : Option ℤ → (ℤ → Output) → Input → Input
emit_some none f s = s
emit_some (some a) f s = emit (f a) s

-- `passthrough` of a vertical and of a horizontal scroll.
unfoldable pub passthrough_scroll : Input → Packet.Scroll → Input
unfolding accumulate
passthrough_scroll s packet =
    let (sent, rest) = accumulate s.accumulated_vscroll_delta packet.scroll_amt1 in
    if not s.config.mouse
    then s
    else if s.config.high_resolution_scrolling
    then emit (scroll packet.scroll_amt1) s
    else emit_some sent scroll (record s { accumulated_vscroll_delta = rest })

unfoldable pub passthrough_hscroll : Input → Packet.HScroll → Input
unfolding accumulate
passthrough_hscroll s packet =
    let (sent, rest) = accumulate s.accumulated_hscroll_delta packet.scroll_amount in
    if not s.config.mouse
    then s
    else if s.config.high_resolution_scrolling
    then emit (hscroll packet.scroll_amount) s
    else emit_some sent hscroll (record s { accumulated_hscroll_delta = rest })
