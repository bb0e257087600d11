-- ===== src/Input/Mouse/LeftDelay.antt =====
-- The delayed release of the left button in src/input.cpp.
use midnight_sun.Prelude.{
  subst, ℕ, ◌+◌, ◌<◌, Bool, true, false, ◌≡◌, some, ◌∷◌, arith, ap, ◌∙◌, sym, set, length,
  length-set,
}
use midnight_sun.TaskPool.{push_delayed, push_delayed_after}
use midnight_sun.Input.Packet.{Limelight}
use midnight_sun.Input.Packet
use midnight_sun.Input.State.{Input, Config, button_mouse, release_left}
use midnight_sun.Input.Mouse.{pressed, send_button, passthrough_mouse_button, run_release_left}
use midnight_sun.Input.Mouse.Buttons.{ButtonNumbers, pressed-set, os_button}

module _ (li : Limelight) (num : ButtonNumbers li) where
  abbrev pub left_packet : Bool → Packet.MouseButton
  left_packet release = record { release = release; button = li.button_left }

  abbrev pub right_down : Packet.MouseButton
  right_down = record { release = false; button = li.button_right }

  -- In absolute mode a release of the left button is only scheduled: nothing is sent, the button counts as up,
  -- and its task is in the pool 10 ms ahead under the id that is kept.
  pub left_release_delayed :
      (s : Input) (now addr : ℕ)
      → s.config.mouse ≡ true
      → length s.mouse_press ≡ 5
      → s.mouse_left_button_timeout ≡ 0
      → pressed li.button_left s.mouse_press ≡ true
      → passthrough_mouse_button li s (left_packet true) now addr ≡ record s {
        mouse_press = set s.mouse_press li.button_left false;
        mouse_left_button_timeout = addr;
        pool =
            push_delayed s.pool
              (record { time = now + 10_000_000; task = some (addr, release_left) });
      }
  unfolding passthrough_mouse_button send_button push_delayed_after
  left_release_delayed s now addr on five null down = ground (arith, num.left_tracked)

  -- A right press while a task id is kept is sent as a whole click, and counts as released: the platform does
  -- not hold the right button afterwards.
  pub right_press_clicks :
      (s : Input) (now addr : ℕ)
      → s.config.mouse ≡ true
      → length s.mouse_press ≡ 5
      → 1 < s.mouse_left_button_timeout
      → pressed li.button_right s.mouse_press ≡ false
      → let t = passthrough_mouse_button li s right_down now addr in
        (t.out ≡ button_mouse li.button_right true ∷ button_mouse li.button_right false ∷ s.out)
        × (pressed li.button_right t.mouse_press ≡ false)
        × (t.mouse_left_button_timeout ≡ s.mouse_left_button_timeout)
  unfolding passthrough_mouse_button send_button
  right_press_clicks s now addr on five waits up = ground (
    arith,
    num.right_tracked,
    num.distinct,
    length-set s.mouse_press li.button_right true,
    length-set s.mouse_press li.button_right false,
    pressed-set (set s.mouse_press li.button_right true) li.button_right li.button_right false,
  )

  left_press-out :
      (s : Input) (now addr : ℕ)
      → s.config.mouse ≡ true
      → length s.mouse_press ≡ 5
      → pressed li.button_left s.mouse_press ≡ false
      → let t = passthrough_mouse_button li s (left_packet false) now addr in
        (t.out ≡ button_mouse li.button_left false ∷ s.out)
        × (pressed li.button_left t.mouse_press ≡ true)
        × (pressed li.button_right t.mouse_press ≡ pressed li.button_right s.mouse_press)
        × (length t.mouse_press ≡ 5)
        × (t.config ≡ s.config)
        × (t.mouse_left_button_timeout ≡ s.mouse_left_button_timeout)
  unfolding passthrough_mouse_button send_button
  left_press-out s now addr on five up = ground (
    arith,
    num.left_tracked,
    num.right_tracked,
    num.distinct,
    length-set s.mouse_press li.button_left true,
    pressed-set s.mouse_press li.button_left li.button_left true,
    pressed-set s.mouse_press li.button_left li.button_right true,
  )

  left_release-out :
      (s : Input) (now addr : ℕ)
      → s.config.mouse ≡ true
      → length s.mouse_press ≡ 5
      → s.mouse_left_button_timeout ≡ 0
      → pressed li.button_left s.mouse_press ≡ true
      → let t = passthrough_mouse_button li s (left_packet true) now addr in
        (t.out ≡ s.out)
        × (pressed li.button_left t.mouse_press ≡ false)
        × (pressed li.button_right t.mouse_press ≡ pressed li.button_right s.mouse_press)
        × (length t.mouse_press ≡ 5)
        × (t.config ≡ s.config)
        × (t.mouse_left_button_timeout ≡ addr)
  unfolding passthrough_mouse_button send_button push_delayed_after
  left_release-out s now addr on five null down = ground (
    arith,
    num.left_tracked,
    num.right_tracked,
    num.distinct,
    length-set s.mouse_press li.button_left false,
    pressed-set s.mouse_press li.button_left li.button_left false,
    pressed-set s.mouse_press li.button_left li.button_right false,
  )

  run_release_left-pressed :
      (s : Input) → pressed li.button_left s.mouse_press ≡ true → run_release_left li s ≡ s
  unfolding run_release_left
  run_release_left-pressed s down = ground arith

  -- The state after a delayed release, a new press of the left button, and the run of the delayed task.
  abbrev pub after_repress : Input → (now addr later other : ℕ) → Input
  after_repress s now addr later other =
      let released = passthrough_mouse_button li s (left_packet true) now addr in
      run_release_left li (passthrough_mouse_button li released (left_packet false) later other)

  -- If the left button goes down again before its delayed release runs, the release is never sent: the platform
  -- sees a second press. The id of the task that has run is kept all the same, so a right press that follows is still
  -- turned into a click and the platform never holds the right button.
  pub left_repress_loses_release :
      (s : Input) (now addr later other then_ at : ℕ)
      → s.config.mouse ≡ true
      → length s.mouse_press ≡ 5
      → s.mouse_left_button_timeout ≡ 0
      → pressed li.button_left s.mouse_press ≡ true
      → pressed li.button_right s.mouse_press ≡ false
      → 1 < addr
      → let t = after_repress s now addr later other in
        (t.out ≡ button_mouse li.button_left false ∷ s.out)
        × (t.mouse_left_button_timeout ≡ addr)
        × (os_button li.button_right (passthrough_mouse_button li t right_down then_ at).out
            ≡ false)
  left_repress_loses_release s now addr later other then_ at on five null left right fresh =
      let released = passthrough_mouse_button li s (left_packet true) now addr in
      let (out, up, right', len, cfg, time) = left_release-out s now addr on five null left in
      let on' = ap (λ (c : Config). c.mouse) cfg ∙ on in
      let again = passthrough_mouse_button li released (left_packet false) later other in
      let (out', down', right'', len', cfg', time') =
        left_press-out released later other on' len up in
      let (clicked, _, _) =
        right_press_clicks again then_ at (ap (λ (c : Config). c.mouse) cfg' ∙ on') len'
          (rw (time', time) fresh) (right'' ∙ right' ∙ right) in
      subst
        (λ (t : Input).
          (t.out ≡ button_mouse li.button_left false ∷ s.out)
          × (t.mouse_left_button_timeout ≡ addr)
          × (os_button li.button_right (passthrough_mouse_button li t right_down then_ at).out
              ≡ false))
        (sym (run_release_left-pressed again down'))
        (
          out' ∙ ap (◌∷◌ (button_mouse li.button_left false)) out,
          time' ∙ time,
          ap (os_button li.button_right) clicked ∙ ground arith,
        )
