-- ===== src/Input/Tests/Handlers.antt =====
-- The handlers of src/input.cpp on concrete packets.
use midnight_sun.Prelude.{
  ℕ, zero, suc, true, false, not, ◌≡◌, ◌≢◌, refl, ◌⊎◌, none, some, List, ◌∷◌, if◌then◌else◌,
  get_elem?, arith,
}
use midnight_sun.Prelude.Int.{pos}
use midnight_sun.Input.Packet.{
  Limelight, Modifiers, Scroll, MultiController, Packet, rel_mouse_move, abs_mouse_move, keyboard,
  multi_controller, scroll,
}
use midnight_sun.Input.Packet
use midnight_sun.Input.State.{GamepadState, Output, gamepad_update, button_mouse}
use midnight_sun.Input.Keyboard.{is_pressed, all_held, passthrough_keyboard}
use midnight_sun.Input.Keyboard.Press.{os_key, kpid_of, passthrough_keyboard-is_pressed}
use midnight_sun.Input.Mouse.{passthrough_mouse_button}
use midnight_sun.Input.Mouse.Wheel.{WholeTicks}
use midnight_sun.Input.Mouse.Buttons.{os_button}
use midnight_sun.Input.Mouse.LeftDelay.{after_repress, right_down, left_repress_loses_release}
use midnight_sun.Input.Gamepads.{passthrough_multi_controller, run_emulate_home}
use midnight_sun.Input.Gamepads.Owners.Handlers.{OwnedIn, passthrough_multi_controller-Owned}
use midnight_sun.Input.Gamepads.Back.{removed_pad_home}
use midnight_sun.Input.Gamepads.Owners.{owner}
use midnight_sun.Input.Tests.{li, numbers, still, pad0, state, report_of, key_of}
use midnight_sun.Input.Mouse.{pressed}
use midnight_sun.Input.Reset.{run_reset}
use midnight_sun.Input.Reset.Released.{held_code, run_reset_lem}

passthrough_keyboard-is_pressed_example :
    let t = passthrough_keyboard state (key_of true) 50 60 in
    ((is_pressed (kpid_of (key_of true)) t.key_press ≡ not true)
      ⊎ ((true ≡ false) × (all_held state.shortcut_flags ≡ true)))
    × ((k : ℕ)
        → kpid_of (key_of true) ≢ k
        → is_pressed k t.key_press ≡ is_pressed k state.key_press)
passthrough_keyboard-is_pressed_example =
    passthrough_keyboard-is_pressed state (key_of true) 50 60 refl

abbrev control : Modifiers
control = record { ctrl = true; alt = false; shift = false }

state-WholeTicks : WholeTicks state
state-WholeTicks = record {
  mouse = refl;
  low_resolution = refl;
  below = (omega arith, omega arith);
}

abbrev middle_down : Packet.MouseButton
middle_down = record { release = false; button = 2 }

left_repress_loses_release_example :
    let t = after_repress li numbers state 50 60 70 80 in
    (t.out ≡ button_mouse 1 false ∷ state.out)
    × (t.mouse_left_button_timeout ≡ 60)
    × (os_button 3 (passthrough_mouse_button li t (right_down li numbers) 90 95).out ≡ false)
left_repress_loses_release_example =
    left_repress_loses_release li numbers state 50 60 70 80 90 95 refl refl refl refl refl
      (omega arith)

state-OwnedIn : OwnedIn state
state-OwnedIn = record { held = held; apart = apart }
  where
    held : (i k : ℕ) → owner state.gamepads i ≡ some k → get_elem? state.gamepad_mask k ≡ some true
    held zero zero e = refl
    held zero (suc k) e = absurd (cc)
    held (suc zero) k e = absurd (cc)
    held (suc (suc i)) k e = absurd (cc)

    apart : (i j k : ℕ) → owner state.gamepads i ≡ some k → owner state.gamepads j ≡ some k → i ≡ j
    apart zero zero k e f = refl
    apart zero (suc zero) k e f = absurd (cc)
    apart zero (suc (suc j)) k e f = absurd (cc)
    apart (suc zero) j k e f = absurd (cc)
    apart (suc (suc i)) j k e f = absurd (cc)

-- Controller 1 arrives while controller 0 stays.
abbrev second_pad : MultiController
second_pad = record (report_of 0 0) { controller_number = pos 1; active_gamepad_mask = 3 }

passthrough_multi_controller-Owned_example :
    OwnedIn (passthrough_multi_controller state second_pad false 50 60)
passthrough_multi_controller-Owned_example =
    passthrough_multi_controller-Owned state second_pad false 50 60 state-OwnedIn

abbrev back_held : GamepadState
back_held = record still { button_flags = 32 }

-- The mask of active controllers is empty.
abbrev no_pads : MultiController
no_pads = record (report_of 0 0) { active_gamepad_mask = 0 }

removed_pad_home_example :
    let t = passthrough_multi_controller state no_pads false 50 60 in
    (t.pool ≡ state.pool)
    × ((left : GamepadState) × (rest : List Output) × ((run_emulate_home t 0).out
          ≡ gamepad_update none left ∷ rest))
removed_pad_home_example =
    removed_pad_home state 0 0 pad0 no_pads false 50 60 refl refl refl refl refl

run_reset_lem_example :
    (is_pressed 65 (run_reset state).key_press ≡ false)
    × (os_key 65 (run_reset state).out
        ≡ (if held_code 65 state.key_press then false else os_key 65 state.out))
    × (pressed 1 (run_reset state).mouse_press ≡ false)
    × (os_button 1 (run_reset state).out
        ≡ (if pressed 1 state.mouse_press then false else os_button 1 state.out))
run_reset_lem_example = run_reset_lem state 65 1
