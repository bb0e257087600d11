-- ===== src/Input/Gamepads/Back.antt =====
-- The back button and the emulated home button of src/input.cpp.
use midnight_sun.Prelude.{
  subst, ℕ, ◌/◌, ◌%◌, ◌^◌, Bool, true, false, ◌≡◌, refl, none, some, List, ◌∷◌, arith, sym,
  get_elem?, set, get_elem?-set_found,
}
use midnight_sun.Prelude.Int.{pos}
use midnight_sun.Input.Packet
use midnight_sun.Input.State.{
  Input, Gamepad, GamepadState, ButtonState, unforced, down, up, Output, gamepad_update,
}
use midnight_sun.Input.Gamepads.{
  free_pad, set_pad, report_pad, time_back, store_report, passthrough_pad,
  passthrough_multi_controller, run_emulate_home, force_back, test_bit, set_bit, clear_bit,
  back_bit, home_bit, reported,
}

-- What the state of the button makes of the flags: forced up or down, or as reported; it stops being forced once
-- the report agrees; and no other bit of the flags changes.
abbrev pub forced_flag : ButtonState → Bool → Bool
forced_flag up reported = false
forced_flag down reported = true
forced_flag unforced reported = reported

abbrev pub still_forced : ButtonState → Bool → ButtonState
still_forced up true = up
still_forced up false = unforced
still_forced down true = unforced
still_forced down false = down
still_forced unforced reported = unforced

pub force_back_lem :
    (b : ButtonState) (flags : ℕ)
    → let (flags', b') = force_back b flags in
      (test_bit back_bit flags' ≡ forced_flag b (test_bit back_bit flags))
      × (b' ≡ still_forced b (test_bit back_bit flags))
      × (flags' % 2 ^ 5 ≡ flags % 2 ^ 5)
      × (flags' / 2 ^ 6 ≡ flags / 2 ^ 6)
unfolding force_back
force_back_lem up flags = ground arith
force_back_lem down flags = ground arith
force_back_lem unforced flags = ground arith

-- The state that the emulated home button leaves in the pad.
abbrev pub home_flags : ℕ → ℕ
home_flags flags = clear_bit home_bit (set_bit home_bit (clear_bit back_bit flags))

home_bits :
    (flags : ℕ)
    → (test_bit back_bit (clear_bit back_bit flags) ≡ false)
      × (test_bit home_bit (set_bit home_bit (clear_bit back_bit flags)) ≡ true)
      × (test_bit back_bit (home_flags flags) ≡ false)
      × (test_bit home_bit (home_flags flags) ≡ false)
home_bits flags = ground arith

-- The home task tells the platform, in this order, that back is up, that home is down, and that home is up,
-- with every other part of the state as it was; afterwards back counts as up and is forced up, and no timeout is kept.
pub run_emulate_home_lem :
    (s : Input) (n : ℕ) (pad : Gamepad)
    → get_elem? s.gamepads n ≡ some pad
    → let t = run_emulate_home s n in
      let with_flags = λ (f : ℕ). record (pad.gamepad_state) { button_flags = f } in
      let flags = pad.gamepad_state.button_flags in
      let back_up = clear_bit back_bit flags in
      (t.out
        ≡ gamepad_update pad.id (with_flags (home_flags flags))
          ∷ gamepad_update pad.id (with_flags (set_bit home_bit back_up))
          ∷ gamepad_update pad.id (with_flags back_up)
          ∷ s.out)
      × (test_bit back_bit back_up ≡ false)
      × (test_bit home_bit (set_bit home_bit back_up) ≡ true)
      × (test_bit home_bit (home_flags flags) ≡ false)
      × (get_elem? t.gamepads n
          ≡ some (record pad {
            gamepad_state = with_flags (home_flags flags);
            back_button_state = up;
            back_timeout_id = 0;
          }))
unfolding run_emulate_home
run_emulate_home_lem s n pad e =
    let (back, home, _, off) = home_bits pad.gamepad_state.button_flags in
    rw (e, run_emulate_home) (refl, back, home, off, get_elem?-set_found s.gamepads n pad _ e)

-- With back forced up, a report whose pad had it up before leaves the timeouts alone.
report_pad_up :
    (s : Input) (n : ℕ) (pad : Gamepad) (id : ℕ) (state : GamepadState) (now addr : ℕ)
    → pad.back_button_state ≡ up
    → test_bit back_bit pad.gamepad_state.button_flags ≡ false
    → report_pad s n pad id state now addr
      ≡ store_report
          (
            s,
            record pad {
              back_button_state = still_forced up (test_bit back_bit state.button_flags);
            },
          )
          n
          id
          (record state { button_flags = clear_bit back_bit state.button_flags })
unfolding report_pad time_back store_report force_back
report_pad_up s n pad id state now addr forced off = ground arith

-- While back is forced up, a report that holds the button still tells the platform that it is up, starts no
-- timeout if back was up before, and keeps it forced; the first report without it ends that.
pub report_pad_forced_up :
    (s : Input) (n : ℕ) (pad : Gamepad) (id : ℕ) (state : GamepadState) (now addr : ℕ)
    → pad.back_button_state ≡ up
    → test_bit back_bit pad.gamepad_state.button_flags ≡ false
    → get_elem? s.gamepads n ≡ some pad
    → let t = report_pad s n pad id state now addr in
      let sent = record state { button_flags = clear_bit back_bit state.button_flags } in
      (t.out ≡ gamepad_update (some id) sent ∷ s.out)
      × (test_bit back_bit sent.button_flags ≡ false)
      × (t.pool ≡ s.pool)
      × (get_elem? t.gamepads n
          ≡ some (record pad {
            gamepad_state = sent;
            back_button_state = still_forced up (test_bit back_bit state.button_flags);
          }))
unfolding store_report
report_pad_forced_up s n pad id state now addr forced off e =
    rw (report_pad_up s n pad id state now addr forced off, store_report)
      (refl, (home_bits state.button_flags).0, refl, get_elem?-set_found s.gamepads n pad _ e)

pool-free_pad : (s : Input) (id : ℕ) → (free_pad s id).pool ≡ s.pool
unfolding free_pad
pool-free_pad s id = refl

pads-free_pad :
    (s : Input) (id n : ℕ) (pad : Gamepad)
    → get_elem? (set s.gamepads n pad) n ≡ some pad
    → get_elem? (set (free_pad s id).gamepads n pad) n ≡ some pad
unfolding free_pad
pads-free_pad s id n pad e = e

-- A pad that is removed while its back timeout runs leaves the task in the pool, and when the task runs it updates a gamepad
-- of the platform under the id of no gamepad.
pub removed_pad_home :
    (s : Input) (n id : ℕ) (pad : Gamepad) (packet : Packet.MultiController) (fails : Bool)
    (now addr : ℕ)
    → s.config.controller ≡ true
    → packet.controller_number ≡ pos n
    → get_elem? s.gamepads n ≡ some pad
    → pad.id ≡ some id
    → test_bit n packet.active_gamepad_mask ≡ false
    → let t = passthrough_multi_controller s packet fails now addr in
      (t.pool ≡ s.pool)
      × ((state : GamepadState) × (rest : List Output) × ((run_emulate_home t n).out
            ≡ gamepad_update none state ∷ rest))
unfolding passthrough_multi_controller passthrough_pad
removed_pad_home s n id pad packet fails now addr on number e has gone =
    let no_id = record pad { id = none } in
    let freed = set_pad (free_pad s id) n no_id in
    let removed : passthrough_multi_controller s packet fails now addr ≡ freed = ground arith in
    let there = get_elem?-set_found s.gamepads n pad no_id e in
    subst
      (λ (t : Input).
        (t.pool ≡ s.pool)
        × ((state : GamepadState) × (rest : List Output) × ((run_emulate_home t n).out
              ≡ gamepad_update none state ∷ rest)))
      (sym removed)
      (
        pool-free_pad s id,
        (_, _, (run_emulate_home_lem freed n no_id (pads-free_pad s id n no_id there)).0),
      )
