-- ===== src/Input/Keyboard/Repeat.antt =====
-- The key repeat of src/input.cpp.
use midnight_sun.Prelude.{
  ℕ, ◌+◌, ◌%◌, ◌^◌, true, false, ◌≡◌, refl, some, ◌∷◌, ◌==◌, if◌then◌else◌, arith, ap, sym, ◌∙◌,
  subst,
}
use midnight_sun.TaskPool.{push_delayed_after, push_delayed}
use midnight_sun.Input.Packet.{Modifiers}
use midnight_sun.Input.Packet
use midnight_sun.Input.State.{Input, keyboard_update, repeat_key}
use midnight_sun.Input.Keyboard.{
  make_kpid, is_pressed, map_keycode, send_key_and_modifiers, synthetic_modifiers, schedule_repeat,
  commit_key, passthrough_keyboard, run_repeat_key,
}
use midnight_sun.Input.Keyboard.Press.{
  os_key, in_modifiers, kpid_of, is_pressed-insert, send_key_and_modifiers-keeps,
  os_key-send_key_and_modifiers, key_press-commit_key,
}

commit_release :
    (s : Input) (key_code flags : ℕ) (m : Modifiers)
    → (commit_key s key_code true flags m).out
      ≡ keyboard_update (map_keycode s.config key_code) true flags ∷ s.out
unfolding commit_key send_key_and_modifiers
commit_release s key_code flags m = refl

-- The release of a key that is down sends that release alone, and a repeat of the key that is still in the
-- pool then sends nothing and is not scheduled again.
pub repeat_after_release :
    (s : Input) (packet : Packet.Keyboard) (m : Modifiers) (now addr later other : ℕ)
    → s.config.keyboard ≡ true
    → packet.release ≡ true
    → is_pressed (kpid_of packet) s.key_press ≡ true
    → let t = passthrough_keyboard s packet now addr in
      let u = run_repeat_key t (packet.key_code % 2 ^ 8) packet.flags m later other in
      (t.out
        ≡ keyboard_update (map_keycode s.config (packet.key_code % 2 ^ 8)) true packet.flags
          ∷ s.out)
      × (u.out ≡ t.out)
      × (u.pool ≡ t.pool)
      × (u.key_press_repeat_id ≡ 0)
unfolding passthrough_keyboard run_repeat_key
repeat_after_release s packet m now addr later other on up down =
    let code = packet.key_code % 2 ^ 8 in
    let t = commit_key s code true packet.flags (synthetic_modifiers s packet) in
    let first : passthrough_keyboard s packet now addr ≡ t = ground arith in
    let gone : is_pressed (kpid_of packet) t.key_press ≡ false =
      ap (is_pressed (kpid_of packet))
        (key_press-commit_key s code packet.flags true (synthetic_modifiers s packet))
      ∙ ground (arith, is_pressed-insert (kpid_of packet) (kpid_of packet) false s.key_press) in
    subst
      (λ t.
        let u = run_repeat_key t code packet.flags m later other in
        (t.out ≡ keyboard_update (map_keycode s.config code) true packet.flags ∷ s.out)
        × (u.out ≡ t.out)
        × (u.pool ≡ t.pool)
        × (u.key_press_repeat_id ≡ 0))
      (sym first)
      (
        commit_release s code packet.flags (synthetic_modifiers s packet),
        ground arith,
        ground arith,
        ground arith,
      )

-- While its key is down, a repeat presses the key again, holds no synthetic modifier afterwards, and schedules one more
-- repeat of the same key, a period later, under the id that the handler will cancel.
pub repeat_while_pressed :
    (s : Input) (key_code flags : ℕ) (m : Modifiers) (now addr : ℕ)
    → is_pressed (make_kpid key_code flags) s.key_press ≡ true
    → let t = run_repeat_key s key_code flags m now addr in
      ((c : ℕ)
        → os_key c t.out ≡ (
            if in_modifiers m c
            then false
            else if map_keycode s.config key_code == c
            then true
            else os_key c s.out))
      × (t.key_press_repeat_id ≡ addr)
      × (t.pool
          ≡ push_delayed s.pool (record {
            time = now + s.config.key_repeat_period;
            task = some (addr, repeat_key key_code flags m);
          }))
unfolding run_repeat_key schedule_repeat push_delayed_after
repeat_while_pressed s key_code flags m now addr down =
    let sent = send_key_and_modifiers-keeps s key_code flags false m in
    (
      λ c. rw (down, run_repeat_key) (os_key-send_key_and_modifiers s key_code flags m c),
      rw (down, run_repeat_key) refl,
      rw (down, run_repeat_key) (ground (arith, sent)),
    )
