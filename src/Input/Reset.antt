-- ===== src/Input/Reset.antt =====
-- `reset` of src/input.cpp, and the task that it pushes: every button and key that is held is released.
pub mod Released
use midnight_sun.Prelude.{
  ℕ, zero, suc, ◌+◌, ◌%◌, ◌^◌, Bool, true, false, Option, none, some, List, [], ◌∷◌, ◌++◌,
  if◌then◌else◌,
}
use midnight_sun.TaskPool.{cancel}
use midnight_sun.Input.State.{Input, Output, button_mouse, keyboard_update, emit}
use midnight_sun.Input.Keyboard.{vk_from_kpid, flags_from_kpid}

-- The two cancelled tasks. The rest of `reset` is a task of its own, `run_reset`.
unfoldable pub reset : Input → Input
reset s = record s {
  pool = (cancel (cancel s.pool s.key_press_repeat_id).0 s.mouse_left_button_timeout).0;
}

-- The loop over the buttons, from number `n`, and what it leaves of `mouse_press`.
abbrev pub button_releases : (n : ℕ) → List Bool → List Output → List Output
button_releases n [] out = out
button_releases n (b ∷ bs) out =
    button_releases (suc n) bs (if b then button_mouse n true ∷ out else out)

abbrev pub released_buttons : List Bool → List Bool
released_buttons [] = []
released_buttons (b ∷ bs) = (if b then false else b) ∷ released_buttons bs

-- The loop over the keys, and what it leaves of `key_press`. The key code is sent as it came from the client.
abbrev pub key_releases : List (ℕ × Bool) → List Output → List Output
key_releases [] out = out
key_releases ((k, held) ∷ keys) out =
    key_releases keys (
      if held then keyboard_update (vk_from_kpid k % 2 ^ 8) true (flags_from_kpid k) ∷ out else out)

abbrev pub released_keys : List (ℕ × Bool) → List (ℕ × Bool)
released_keys [] = []
released_keys ((k, held) ∷ keys) = (k, if held then false else held) ∷ released_keys keys

-- The task that `reset` pushes.
unfoldable pub run_reset : Input → Input
run_reset s = record s {
  mouse_press = released_buttons s.mouse_press;
  key_press = released_keys s.key_press;
  out = key_releases s.key_press (button_releases 0 s.mouse_press s.out);
}
