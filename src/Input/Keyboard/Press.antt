-- ===== src/Input/Keyboard/Press.antt =====
-- What the keyboard handler of src/input.cpp notes and sends.
use midnight_sun.Prelude.{
  subst, ℕ, ◌-◌, ◌%◌, ◌^◌, ◌<◌, Bool, true, false, not, ◌&&◌, ◌||◌, ◌≡◌, ◌≢◌, List, [], ◌∷◌, leb,
  ◌==◌, if◌then◌else◌, arith, Bool-cases, ◌⊎◌, inl, inr, ap, sym, ◌∙◌,
}
use midnight_sun.Input.Packet.{Modifiers}
use midnight_sun.Input.Packet
use midnight_sun.Input.State.{Input, Output, keyboard_update, switch_display, emit, insert}
use midnight_sun.Input.Keyboard.{
  make_kpid, vk_from_kpid, flags_from_kpid, is_pressed, map_keycode, vkey_shift, vkey_control,
  vkey_menu, send_modifiers, send_key_and_modifiers, synthetic_modifiers, all_held, apply_shortcut,
  start_repeat, schedule_repeat, commit_key, press_key, passthrough_keyboard,
}

-- A press id gives back the key code and the flags that it was made of.
pub kpid_parts :
    (vk flags : ℕ)
    → vk < 2 ^ 16
    → flags < 2 ^ 8
    → (vk_from_kpid (make_kpid vk flags) ≡ vk) × (flags_from_kpid (make_kpid vk flags) ≡ flags)
unfolding make_kpid vk_from_kpid flags_from_kpid
kpid_parts vk flags hv hf = omega arith

pub is_pressed-insert :
    (k j : ℕ) (b : Bool) (m : List (ℕ × Bool))
    → is_pressed j (insert k b m) ≡ (if k == j then b else is_pressed j m)
is_pressed-insert k j b [] = ground arith
is_pressed-insert k j b ((i, c) ∷ m) = ground (arith, is_pressed-insert k j b m)

-- Whether the platform last saw this key go down.
abbrev pub os_key : ℕ → List Output → Bool
os_key c [] = false
os_key c (keyboard_update k release flags ∷ out) = if k == c then not release else os_key c out
os_key c (_ ∷ out) = os_key c out

-- The modifier of a set that a key code stands for, as `send_modifiers` spells them.
abbrev pub in_modifiers : Modifiers → ℕ → Bool
in_modifiers m c =
    (m.shift && vkey_shift == c) || (m.ctrl && vkey_control == c) || (m.alt && vkey_menu == c)

os_key-send_modifiers :
    (s : Input) (m : Modifiers) (release : Bool) (flags c : ℕ)
    → os_key c (send_modifiers s m release flags).out
      ≡ (if in_modifiers m c then not release else os_key c s.out)
unfolding send_modifiers
os_key-send_modifiers s m release flags c = ground arith

config-send_modifiers :
    (s : Input) (m : Modifiers) (release : Bool) (flags : ℕ)
    → (send_modifiers s m release flags).config ≡ s.config
unfolding send_modifiers
config-send_modifiers s m release flags = ground arith

-- After a key is sent down with synthetic modifiers, the platform holds no synthetic modifier, it holds the
-- key unless that is one of them, and every other key is as it was.
pub os_key-send_key_and_modifiers :
    (s : Input) (key_code flags : ℕ) (m : Modifiers) (c : ℕ)
    → os_key c (send_key_and_modifiers s key_code false flags m).out ≡ (
        if in_modifiers m c
        then false
        else if map_keycode s.config key_code == c
        then true
        else os_key c s.out)
unfolding send_key_and_modifiers
os_key-send_key_and_modifiers s key_code flags m c =
    let down = send_modifiers s m false flags in
    let key = keyboard_update (map_keycode s.config key_code) false flags in
    os_key-send_modifiers (emit key down) m true flags c
    ∙ ground (arith, os_key-send_modifiers s m false flags c)

-- What sending a key leaves alone.
pub send_key_and_modifiers-keeps :
    (s : Input) (key_code flags : ℕ) (release : Bool) (m : Modifiers)
    → let t = send_key_and_modifiers s key_code release flags m in
      (t.key_press ≡ s.key_press)
      × (t.config ≡ s.config)
      × (t.shortcut_flags ≡ s.shortcut_flags)
      × (t.pool ≡ s.pool)
      × (t.key_press_repeat_id ≡ s.key_press_repeat_id)
unfolding send_key_and_modifiers send_modifiers
send_key_and_modifiers-keeps s key_code flags release m = ground arith

start_repeat-keeps :
    (s : Input) (key_code flags : ℕ) (m : Modifiers) (now addr : ℕ)
    → let t = start_repeat s key_code flags m now addr in
      (t.key_press ≡ s.key_press)
      × (t.config ≡ s.config)
      × (t.shortcut_flags ≡ s.shortcut_flags)
      × (t.out ≡ s.out)
unfolding start_repeat schedule_repeat
start_repeat-keeps s key_code flags m now addr = ground arith

pub key_press-commit_key :
    (s : Input) (key_code flags : ℕ) (release : Bool) (m : Modifiers)
    → (commit_key s key_code release flags m).key_press
      ≡ insert (make_kpid key_code flags) (not release) s.key_press
unfolding commit_key
key_press-commit_key s key_code flags release m =
    (send_key_and_modifiers-keeps
      (record s { key_press = insert (make_kpid key_code flags) (not release) s.key_press })
      key_code flags release m).0

apply_shortcut-key_press :
    (s : Input) (key_code : ℕ) → (apply_shortcut s key_code).0.key_press ≡ s.key_press
unfolding apply_shortcut
apply_shortcut-key_press s key_code = ground arith

-- The press id of a packet.
abbrev pub kpid_of : Packet.Keyboard → ℕ
kpid_of packet = make_kpid (packet.key_code % 2 ^ 8) packet.flags

key_press-press_key :
    (s : Input) (key_code flags : ℕ) (m : Modifiers) (now addr : ℕ)
    → ((press_key s key_code flags m now addr).key_press
        ≡ insert (make_kpid key_code flags) true s.key_press)
      ⊎ ((all_held s.shortcut_flags ≡ true)
          × ((press_key s key_code flags m now addr).key_press ≡ s.key_press))
unfolding press_key
key_press-press_key s key_code flags m now addr =
    elim (Bool-cases (all_held s.shortcut_flags && (apply_shortcut s key_code).1)) [
      | inl e ↦ inr (ground arith, rw (e, press_key) (apply_shortcut-key_press s key_code))
      | inr e ↦ inl (
          rw (e, press_key)
            (key_press-commit_key (start_repeat s key_code flags m now addr) key_code flags false m
              ∙ ap (insert (make_kpid key_code flags) true)
                  (start_repeat-keeps s key_code flags m now addr).0))
    ]

key_press-passthrough_keyboard :
    (s : Input) (packet : Packet.Keyboard) (now addr : ℕ)
    → s.config.keyboard ≡ true
    → let t = passthrough_keyboard s packet now addr in
      (t.key_press ≡ insert (kpid_of packet) (not packet.release) s.key_press)
      ⊎ ((t.key_press ≡ s.key_press)
          × ((is_pressed (kpid_of packet) s.key_press ≡ not packet.release)
              ⊎ ((packet.release ≡ false) × (all_held s.shortcut_flags ≡ true))))
unfolding passthrough_keyboard
key_press-passthrough_keyboard s packet now addr on = ground (
  arith,
  key_press-commit_key s (packet.key_code % 2 ^ 8) packet.flags true (synthetic_modifiers s packet),
  key_press-press_key s (packet.key_code % 2 ^ 8) packet.flags (synthetic_modifiers s packet) now
      addr,
)

-- With the keyboard on, a packet leaves its key noted as pressed exactly if it is a press, unless all three
-- shortcut modifiers are held and a shortcut may have swallowed the press; no other key is touched.
pub passthrough_keyboard-is_pressed :
    (s : Input) (packet : Packet.Keyboard) (now addr : ℕ)
    → s.config.keyboard ≡ true
    → let t = passthrough_keyboard s packet now addr in
      ((is_pressed (kpid_of packet) t.key_press ≡ not packet.release)
        ⊎ ((packet.release ≡ false) × (all_held s.shortcut_flags ≡ true)))
      × ((k : ℕ) → kpid_of packet ≢ k → is_pressed k t.key_press ≡ is_pressed k s.key_press)
unfolding passthrough_keyboard
passthrough_keyboard-is_pressed s packet now addr on =
    let k = kpid_of packet in
    elim (key_press-passthrough_keyboard s packet now addr on) [
      | inl noted ↦ (
        inl (
            ap (is_pressed k) noted
            ∙ ground (arith, is_pressed-insert k k (not packet.release) s.key_press)),
        λ j ne.
            ap (is_pressed j) noted
            ∙ ground (arith, is_pressed-insert k j (not packet.release) s.key_press),
      )
      | inr (same, inl already) ↦
          (inl (ap (is_pressed k) same ∙ already), λ j ne. ap (is_pressed j) same)
      | inr (same, inr held) ↦ (inr held, λ j ne. ap (is_pressed j) same)
    ]

-- A press of a key that is down and a release of a key that is up change nothing at all.
pub passthrough_keyboard_redundant :
    (s : Input) (packet : Packet.Keyboard) (now addr : ℕ)
    → is_pressed (kpid_of packet) s.key_press ≡ not packet.release
    → passthrough_keyboard s packet now addr ≡ s
unfolding passthrough_keyboard
passthrough_keyboard_redundant s packet now addr h = ground arith

-- With control, alt and shift held, a press of F1 to F13 asks for that display and sends no key; the release
-- that follows changes nothing.
pub passthrough_keyboard_shortcut :
    (s : Input) (down up : Packet.Keyboard) (now addr later other : ℕ)
    → s.config.keyboard ≡ true
    → all_held s.shortcut_flags ≡ true
    → down.release ≡ false
    → up ≡ record down { release = true }
    → leb 0x70 (down.key_code % 2 ^ 8) && leb (down.key_code % 2 ^ 8) 0x7C ≡ true
    → is_pressed (kpid_of down) s.key_press ≡ false
    → let t = passthrough_keyboard s down now addr in
      (t ≡ emit (switch_display (down.key_code % 2 ^ 8 - 0x70)) s)
      × (passthrough_keyboard t up later other ≡ t)
unfolding passthrough_keyboard press_key apply_shortcut
passthrough_keyboard_shortcut s down up now addr later other on held press same key fresh =
    let shown = emit (switch_display (down.key_code % 2 ^ 8 - 0x70)) s in
    let first : passthrough_keyboard s down now addr ≡ shown = ground arith in
    let up_again = passthrough_keyboard_redundant shown up later other (ground arith) in
    (first, subst (λ t. passthrough_keyboard t up later other ≡ t) (sym first) up_again)
