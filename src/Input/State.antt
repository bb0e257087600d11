-- ===== src/Input/State.antt =====
-- The state that the handlers of src/input.cpp share: the globals of the file, the fields of `input_t`, the
-- global task pool, and the calls made to the platform, newest first.
use midnight_sun.Prelude.{ℕ, Bool, Option, none, some, List, [], ◌∷◌, ◌==◌, if◌then◌else◌}
use midnight_sun.Prelude.Int.{ℤ}
use midnight_sun.Input.Packet.{Modifiers}
use midnight_sun.TaskPool.{TaskPool}

-- `platf::gamepad_state_t`
pub record GamepadState : Type 0 where
  pub button_flags : ℕ
  pub left_trigger : ℕ
  pub right_trigger : ℕ
  pub left_stick_x : ℤ
  pub left_stick_y : ℤ
  pub right_stick_x : ℤ
  pub right_stick_y : ℤ

-- `button_state_e`
pub data ButtonState : Type 0 where
  unforced down up : ButtonState

-- `gamepad_t`; the id -1 of a gamepad that is not allocated is `none`, and the null task id is 0.
pub record Gamepad : Type 0 where
  pub gamepad_state : GamepadState
  pub back_timeout_id : ℕ
  pub id : Option ℕ
  pub back_button_state : ButtonState

-- The calls of `platf::` functions and of the mail system.
pub data Output : Type 0 where
  move_mouse : (dx dy : ℤ) → Output
  button_mouse : (button : ℕ) → (release : Bool) → Output
  keyboard_update : (key_code : ℕ) → (release : Bool) → (flags : ℕ) → Output
  scroll : ℤ → Output
  hscroll : ℤ → Output
  unicode : List ℕ → Output
  gamepad_update : (id : Option ℕ) → GamepadState → Output
  alloc_gamepad : (id : ℕ) → Output
  free_gamepad : (id : ℕ) → Output
  switch_display : ℕ → Output

-- The closures that the handlers hand to the task pool.
pub data Task : Type 0 where
  repeat_key : (key_code flags : ℕ) → (synthetic_modifiers : Modifiers) → Task
  release_left : Task
  emulate_home : (controller : ℕ) → Task

-- `config::input`; times are in nanoseconds, and a negative `back_button_timeout` is `none`.
pub record Config : Type 0 where
  pub mouse : Bool
  pub keyboard : Bool
  pub controller : Bool
  pub high_resolution_scrolling : Bool
  pub key_repeat_delay : ℕ
  pub key_repeat_period : ℕ
  pub back_button_timeout : Option ℕ
  pub keybindings : List (ℕ × ℕ)

pub record Input : Type 0 where
  pub config : Config
  pub key_press : List (ℕ × Bool)
  pub key_press_repeat_id : ℕ
  pub mouse_press : List Bool
  pub gamepad_mask : List Bool
  pub display_cursor : Bool
  pub shortcut_flags : Modifiers
  pub gamepads : List Gamepad
  pub mouse_left_button_timeout : ℕ
  pub accumulated_vscroll_delta : ℤ
  pub accumulated_hscroll_delta : ℤ
  pub pool : TaskPool Task
  pub out : List Output

abbrev pub emit : Output → Input → Input
emit o s = record s { out = o ∷ s.out }

-- A map of numbers, where a missing key is `none`.
abbrev pub lookup {ℓ} : {V : Type ℓ} → ℕ → List (ℕ × V) → Option V
lookup k [] = none
lookup k ((j, v) ∷ m) = if j == k then some v else lookup k m

-- `m[k] = v`
abbrev pub insert {ℓ} : {V : Type ℓ} → ℕ → V → List (ℕ × V) → List (ℕ × V)
insert k v [] = (k, v) ∷ []
insert k v ((j, w) ∷ m) = if j == k then (j, v) ∷ m else (j, w) ∷ insert k v m
