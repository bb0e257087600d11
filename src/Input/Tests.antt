-- ===== src/Input/Tests.antt =====
-- A concrete state for the handlers of src/input.cpp, and its batching on concrete messages.
mod Handlers
use midnight_sun.Prelude.{
  ℕ, zero, suc, ◌+◌, ◌%◌, ◌^◌, ◌≤◌, ◌<◌, Bool, true, false, not, ◌≡◌, ◌≢◌, refl, ◌⊎◌, inl, inr,
  Option, none, some, List, [], ◌∷◌, ◌==◌, if◌then◌else◌, length, get_elem?, keep_if, replicate,
  arith,
}
use midnight_sun.Prelude.Int.{ℤ, pos, negsuc, ◌+ℤ◌, Fits16}
use midnight_sun.TaskPool.{TaskPool, Timer, empty, push_delayed}
use midnight_sun.Input.Packet.{
  Limelight, Modifiers, Scroll, MultiController, Packet, rel_mouse_move, abs_mouse_move, keyboard,
  multi_controller, scroll,
}
use midnight_sun.Input.Packet
use midnight_sun.Input.State.{
  GamepadState, ButtonState, unforced, down, up, Gamepad, Output, gamepad_update, keyboard_update,
  button_mouse, Task, repeat_key, Config, Input,
}
use midnight_sun.Input.Batch.{batch_queue, batch_scroll, batched, terminate_batch}
use midnight_sun.Input.Batch.Overflow.{batch_scroll_overflow}
use midnight_sun.Input.Batch.Keeps.{
  Interleaves, Folds, AllTaken, is_event, batch_queue-Folds, batch_queue-events,
}
use midnight_sun.Input.Batch.Latest.{last_of, batch_queue-latest}
use midnight_sun.Input.Batch.Buttons.{ReportsButtons, batch_queue-buttons}
use midnight_sun.Input.Keyboard.{
  make_kpid, is_pressed, map_keycode, all_held, send_key_and_modifiers, passthrough_keyboard,
  run_repeat_key,
}
use midnight_sun.Input.Keyboard.Press.{
  os_key, in_modifiers, kpid_of, os_key-send_key_and_modifiers, passthrough_keyboard-is_pressed,
}
use midnight_sun.Input.Keyboard.Repeat.{repeat_after_release, repeat_while_pressed}
use midnight_sun.Input.Mouse.{passthrough_mouse_button}
use midnight_sun.Input.Mouse.Wheel.{WholeTicks, run_scrolls, scrolled, amounts, run_scrolls_total}
use midnight_sun.Input.Mouse.Buttons.{
  ButtonNumbers, InSync, os_button, passthrough_mouse_button-InSync,
}
use midnight_sun.Input.Mouse.LeftDelay.{after_repress, right_down, left_repress_loses_release}
use midnight_sun.Input.Gamepads.{
  alloc_id, passthrough_multi_controller, report_pad, run_emulate_home, test_bit, clear_bit,
  back_bit,
}
use midnight_sun.Input.Gamepads.Ids.{AllocResult, alloc_id_lem}
use midnight_sun.Input.Gamepads.Owners.Handlers.{OwnedIn, passthrough_multi_controller-Owned}
use midnight_sun.Input.Gamepads.Back.{still_forced, report_pad_forced_up, removed_pad_home}

-- The numbers of moonlight-common-c.
abbrev pub li : Limelight
li = record { touch_event_hover = 0; touch_event_move = 3; button_left = 1; button_right = 3 }

pub numbers : ButtonNumbers li
numbers = record {
  left_tracked = (omega arith, omega arith);
  right_tracked = (omega arith, omega arith);
  distinct = omega arith;
}

abbrev pub no_modifiers : Modifiers
no_modifiers = record { ctrl = false; alt = false; shift = false }

abbrev pub config : Config
config = record {
  mouse = true;
  keyboard = true;
  controller = true;
  high_resolution_scrolling = false;
  key_repeat_delay = 500;
  key_repeat_period = 40;
  back_button_timeout = some 2000;
  keybindings = [];
}

abbrev pub still : GamepadState
still = record {
  button_flags = 0;
  left_trigger = 0;
  right_trigger = 0;
  left_stick_x = pos 0;
  left_stick_y = pos 0;
  right_stick_x = pos 0;
  right_stick_y = pos 0;
}

-- Pad 0 has the id 0, and its back button is forced up.
abbrev pub pad0 : Gamepad
pad0 = record { gamepad_state = still; back_timeout_id = 9; id = some 0; back_button_state = up }

abbrev pub free_pad1 : Gamepad
free_pad1 = record {
  gamepad_state = still;
  back_timeout_id = 0;
  id = none;
  back_button_state = unforced;
}

abbrev pub state : Input
state = record {
  config = config;
  key_press = (make_kpid 65 0, true) ∷ [];
  key_press_repeat_id = 0;
  mouse_press = false ∷ true ∷ false ∷ false ∷ false ∷ [];
  gamepad_mask = true ∷ false ∷ [];
  display_cursor = true;
  shortcut_flags = no_modifiers;
  gamepads = pad0 ∷ free_pad1 ∷ [];
  mouse_left_button_timeout = 0;
  accumulated_vscroll_delta = pos 0;
  accumulated_hscroll_delta = pos 0;
  pool = empty;
  out = [];
}

abbrev pub scroll_of : ℕ → Scroll
scroll_of n = record { scroll_amt1 = pos n; scroll_amt2 = pos n }

abbrev pub report_of : (buttons : ℕ) → (stick : ℕ) → MultiController
report_of buttons stick = record {
  controller_number = pos 0;
  active_gamepad_mask = 1;
  button_flags = buttons;
  button_flags2 = 0;
  left_trigger = 0;
  right_trigger = 0;
  left_stick_x = pos stick;
  left_stick_y = pos 0;
  right_stick_x = pos 0;
  right_stick_y = pos 0;
}

abbrev pub key_of : Bool → Packet.Keyboard
key_of release = record { release = release; key_code = 65; modifiers = no_modifiers; flags = 0 }

abbrev pub messages : List Packet
messages =
    multi_controller (report_of 0 5)
    ∷ keyboard (key_of true)
    ∷ multi_controller (report_of 0 7)
    ∷ multi_controller (report_of 16 9)
    ∷ []

abbrev pub first : Packet
first = multi_controller (report_of 0 1)

batch_queue-Folds_example :
    let (sent, kept) = batch_queue li first messages in
    (taken : List Packet) × Interleaves messages kept taken × Folds li first taken sent
batch_queue-Folds_example = batch_queue-Folds li first messages

batch_queue-buttons_example :
    let (sent, kept) = batch_queue li first messages in
    (taken : List Packet) × Interleaves messages kept taken
    × ReportsButtons li (report_of 0 1) sent
    × AllTaken (ReportsButtons li (report_of 0 1)) taken
batch_queue-buttons_example = batch_queue-buttons li (report_of 0 1) messages
