-- ===== src/Input/Keyboard.antt =====
-- Keys in src/input.cpp: key codes and press ids, the shortcut flags, the key repeat, and the handler of
-- keyboard packets.
pub mod Press
pub mod Repeat
use midnight_sun.Prelude.{
  ℕ, ◌+◌, ◌-◌, ◌*◌, ◌/◌, ◌%◌, ◌^◌, ◌<◌, Bool, true, false, not, ◌&&◌, ◌||◌, ◌≡◌, refl, ◌≢◌, Option,
  none, some, List, [], ◌∷◌, ltb, leb, ◌==◌, if◌then◌else◌, arith, Bool-cases, ◌⊎◌, inl, inr,
}
use midnight_sun.TaskPool.{cancel, push_delayed_after}
use midnight_sun.Input.Packet.{Modifiers}
use midnight_sun.Input.Packet
use midnight_sun.Input.State.{
  Input, Config, keyboard_update, switch_display, repeat_key, Output, emit, lookup, insert,
}

abbrev pub vkey_shift : ℕ
vkey_shift = 0x10

abbrev pub vkey_lshift : ℕ
vkey_lshift = 0xA0

abbrev pub vkey_rshift : ℕ
vkey_rshift = 0xA1

abbrev pub vkey_control : ℕ
vkey_control = 0x11

abbrev pub vkey_lcontrol : ℕ
vkey_lcontrol = 0xA2

abbrev pub vkey_rcontrol : ℕ
vkey_rcontrol = 0xA3

abbrev pub vkey_menu : ℕ
vkey_menu = 0x12

abbrev pub vkey_lmenu : ℕ
vkey_lmenu = 0xA4

abbrev pub vkey_rmenu : ℕ
vkey_rmenu = 0xA5

-- `vk << 8 | flags` on 32 bits. `flags` has 8 bits, so no bit of one meets a bit of the other.
unfoldable pub make_kpid : ℕ → ℕ → ℕ
make_kpid vk flags = (vk * 2 ^ 8 + flags) % 2 ^ 32

unfoldable pub vk_from_kpid : ℕ → ℕ
vk_from_kpid kpid = kpid / 2 ^ 8 % 2 ^ 16

unfoldable pub flags_from_kpid : ℕ → ℕ
flags_from_kpid kpid = kpid % 2 ^ 8

-- `key_press[kpid]`, where a missing key reads as false.
abbrev pub is_pressed : ℕ → List (ℕ × Bool) → Bool
is_pressed k m = elim (lookup k m) [ none ↦ false | some b ↦ b ]

unfoldable pub map_keycode : Config → ℕ → ℕ
map_keycode config keycode = elim (lookup keycode config.keybindings) [
  | none ↦ keycode
  | some mapped ↦ mapped
]

abbrev pub is_shift : ℕ → Bool
is_shift k = k == vkey_shift || k == vkey_lshift || k == vkey_rshift

abbrev pub is_control : ℕ → Bool
is_control k = k == vkey_control || k == vkey_lcontrol || k == vkey_rcontrol

abbrev pub is_menu : ℕ → Bool
is_menu k = k == vkey_menu || k == vkey_lmenu || k == vkey_rmenu

unfoldable pub update_shortcut_flags : Modifiers → ℕ → Bool → Modifiers
update_shortcut_flags flags key_code release =
    if is_shift key_code
    then record flags { shift = not release }
    else if is_control key_code
    then record flags { ctrl = not release }
    else if is_menu key_code
    then record flags { alt = not release }
    else flags

unfoldable pub is_modifier : ℕ → Bool
is_modifier k = is_shift k || is_control k || is_menu k

-- F1 to F13 ask for another display, N shows or hides the cursor. The Boolean is `> 0`.
unfoldable pub apply_shortcut : Input → ℕ → Input × Bool
apply_shortcut s key_code =
    if leb 0x70 key_code && leb key_code 0x7C
    then (emit (switch_display (key_code - 0x70)) s, true)
    else if key_code == 0x4E
    then (record s { display_cursor = not s.display_cursor }, true)
    else (s, false)

abbrev pub emit_if : Bool → Output → Input → Input
emit_if b o s = if b then emit o s else s

-- Shift, control and alt in the order of the source, pressed or released, each if it is asked for.
unfoldable pub send_modifiers : Input → Modifiers → (release : Bool) → (flags : ℕ) → Input
send_modifiers s m release flags = emit_if m.alt (keyboard_update vkey_menu release flags) (
    emit_if m.ctrl (keyboard_update vkey_control release flags)
      (emit_if m.shift (keyboard_update vkey_shift release flags) s))

unfoldable pub send_key_and_modifiers : Input → ℕ → (release : Bool) → ℕ → Modifiers → Input
unfolding send_modifiers
send_key_and_modifiers s key_code release flags m =
    let key = keyboard_update (map_keycode s.config key_code) release flags in
    if release
    then emit key s
    else send_modifiers (emit key (send_modifiers s m false flags)) m true flags

-- The modifiers that a press asks for and that are not held.
unfoldable pub synthetic_modifiers : Input → Packet.Keyboard → Modifiers
unfolding is_modifier
synthetic_modifiers s packet =
    let wanted = not packet.release && not (is_modifier (packet.key_code % 2 ^ 8)) in
    record {
      ctrl = wanted && (not s.shortcut_flags.ctrl && packet.modifiers.ctrl);
      alt = wanted && (not s.shortcut_flags.alt && packet.modifiers.alt);
      shift = wanted && (not s.shortcut_flags.shift && packet.modifiers.shift);
    }

-- `shortcutFlags == SHORTCUT`
abbrev pub all_held : Modifiers → Bool
all_held m = m.ctrl && m.alt && m.shift

unfoldable pub schedule_repeat : Input → ℕ → ℕ → Modifiers → (delay now addr : ℕ) → Input
schedule_repeat s key_code flags m delay now addr =
    let (pool, id) = push_delayed_after s.pool now delay addr (repeat_key key_code flags m) in
    record s { pool = pool; key_press_repeat_id = id }

-- The repeat of the key before is cancelled, and that of this one is set up if repeats are on.
unfoldable pub start_repeat : Input → ℕ → ℕ → Modifiers → (now addr : ℕ) → Input
unfolding schedule_repeat
start_repeat s key_code flags m now addr =
    let s' =
      if s.key_press_repeat_id == 0
      then s
      else record s { pool = (cancel s.pool s.key_press_repeat_id).0 } in
    if ltb 0 s.config.key_repeat_delay
    then schedule_repeat s' key_code flags m s.config.key_repeat_delay now addr
    else s'

-- The end of the handler: the press is noted, sent, and read for the shortcut flags.
unfoldable pub commit_key : Input → ℕ → (release : Bool) → ℕ → Modifiers → Input
unfolding send_key_and_modifiers update_shortcut_flags
commit_key s key_code release flags m =
    let noted = record s {
      key_press = insert (make_kpid key_code flags) (not release) s.key_press;
    } in
    let sent = send_key_and_modifiers noted key_code release flags m in
    record sent {
      shortcut_flags =
          update_shortcut_flags sent.shortcut_flags (map_keycode s.config key_code) release;
    }

-- A key that is not noted as pressed goes down: a shortcut swallows it.
unfoldable pub press_key : Input → ℕ → ℕ → Modifiers → (now addr : ℕ) → Input
unfolding commit_key start_repeat
press_key s key_code flags m now addr =
    let (shortcut, applied) = apply_shortcut s key_code in
    if all_held s.shortcut_flags && applied
    then shortcut
    else commit_key (start_repeat s key_code flags m now addr) key_code false flags m

-- `passthrough` of a keyboard packet; `addr` is where a new task would be allocated.
unfoldable pub passthrough_keyboard : Input → Packet.Keyboard → (now addr : ℕ) → Input
unfolding press_key synthetic_modifiers
passthrough_keyboard s packet now addr =
    let key_code = packet.key_code % 2 ^ 8 in
    let m = synthetic_modifiers s packet in
    if not s.config.keyboard
    then s
    else if is_pressed (make_kpid key_code packet.flags) s.key_press
    then (if packet.release then commit_key s key_code true packet.flags m else s)
    else if packet.release
    then s
    else press_key s key_code packet.flags m now addr

-- The task `repeat_key`.
unfoldable pub run_repeat_key : Input → ℕ → ℕ → Modifiers → (now addr : ℕ) → Input
unfolding schedule_repeat send_key_and_modifiers
run_repeat_key s key_code flags m now addr =
    if not (is_pressed (make_kpid key_code flags) s.key_press)
    then record s { key_press_repeat_id = 0 }
    else schedule_repeat (send_key_and_modifiers s key_code false flags m) key_code flags m
        s.config.key_repeat_period now addr
