-- ===== src/Input/Gamepads.antt =====
-- Gamepads in src/input.cpp: the ids of `gamepadMask`, arrival and removal, the reports with the state of the
-- back button, and the emulated home button.
pub mod Ids
pub mod Owners
pub mod Back
use midnight_sun.Prelude.{
  ℕ, zero, suc, ◌+◌, ◌-◌, ◌*◌, ◌/◌, ◌%◌, ◌^◌, ◌<◌, Bool, true, false, not, ◌&&◌, ◌||◌, Option, none,
  some, List, [], ◌∷◌, ltb, leb, ◌==◌, if◌then◌else◌, get_elem?, set, length, eqb,
}
use midnight_sun.Prelude.Int.{ℤ, pos, negsuc}
use midnight_sun.TaskPool.{cancel, push_delayed_after}
use midnight_sun.Input.Packet
use midnight_sun.Input.State.{
  Input, Gamepad, GamepadState, ButtonState, unforced, down, up, Output, gamepad_update,
  alloc_gamepad, free_gamepad, emulate_home, emit,
}

-- The loop of `alloc_id`: this bit, the bits behind it, and what the rest of the loop finds among those.
unfoldable pub alloc_next : Bool → List Bool → List Bool × Option ℕ → List Bool × Option ℕ
alloc_next false mask found = (true ∷ mask, some 0)
alloc_next true mask (rest, none) = (true ∷ rest, none)
alloc_next true mask (rest, some x) = (true ∷ rest, some (suc x))

-- The first clear bit is set; -1 is `none`.
unfoldable pub alloc_id : List Bool → List Bool × Option ℕ
unfolding alloc_next
alloc_id [] = ([], none)
alloc_id (b ∷ mask) = alloc_next b mask (alloc_id mask)

unfoldable pub free_id : List Bool → ℕ → List Bool
free_id mask id = set mask id false

abbrev pub no_buttons : GamepadState
no_buttons = record {
  button_flags = 0;
  left_trigger = 0;
  right_trigger = 0;
  left_stick_x = pos 0;
  left_stick_y = pos 0;
  right_stick_x = pos 0;
  right_stick_y = pos 0;
}

-- `free_gamepad` of input.cpp: the pad is reset, freed by the platform, and its id is clear.
unfoldable pub free_pad : Input → ℕ → Input
unfolding free_id
free_pad s id =
    let t = emit (free_gamepad id) (emit (gamepad_update (some id) no_buttons) s) in
    record t { gamepad_mask = free_id t.gamepad_mask id }

abbrev pub set_pad : Input → ℕ → Gamepad → Input
set_pad s n pad = record s { gamepads = set s.gamepads n pad }

-- A new pad for a controller, and its id if it was made. `fails` is the answer of
-- `platf::alloc_gamepad`.
unfoldable pub allocate_with :
    Input → (n : ℕ) → Gamepad → (fails : Bool) → List Bool × Option ℕ → Input × Option ℕ
unfolding free_id
allocate_with s n pad fails (mask, none) = (s, none)
allocate_with s n pad fails (mask, some id) =
    let t = emit (alloc_gamepad id) (record s { gamepad_mask = mask }) in
    if fails
    then (record t { gamepad_mask = free_id mask id }, none)
    else (set_pad t n (record pad { id = some id }), some id)

unfoldable pub allocate_pad : Input → (n : ℕ) → Gamepad → (fails : Bool) → Input × Option ℕ
unfolding alloc_id allocate_with
allocate_pad s n pad fails = allocate_with s n pad fails (alloc_id s.gamepad_mask)

-- `passthrough` of a controller arrival. A number out of range and a controller that has a pad are
-- ignored.
unfoldable pub passthrough_controller_arrival :
    Input → Packet.ControllerArrival → (fails : Bool) → Input
unfolding allocate_pad
passthrough_controller_arrival s packet fails =
    if not s.config.controller then s else elim (get_elem? s.gamepads packet.controller_number) [
      | none ↦ s
      | some pad ↦ elim pad.id [
        | some _ ↦ s
        | none ↦ (allocate_pad s packet.controller_number pad fails).0
      ]
    ]

-- Bit `k` of a word, and the word with this bit cleared (`& ~(1 << k)`) or set (`| (1 << k)`).
abbrev pub test_bit : ℕ → ℕ → Bool
test_bit k x = x / 2 ^ k % 2 == 1

abbrev pub clear_bit : ℕ → ℕ → ℕ
clear_bit k x = if test_bit k x then x - 2 ^ k else x

abbrev pub set_bit : ℕ → ℕ → ℕ
set_bit k x = if test_bit k x then x else x + 2 ^ k

-- platf::BACK is 0x0020 and platf::HOME is 0x0400.
abbrev pub back_bit : ℕ
back_bit = 5

abbrev pub home_bit : ℕ
home_bit = 10

-- The state that a report describes. `buttonFlags2 << 16` drops what does not fit 32 bits.
abbrev pub reported : Packet.MultiController → GamepadState
reported p = record {
  button_flags = p.button_flags + p.button_flags2 * 2 ^ 16 % 2 ^ 32;
  left_trigger = p.left_trigger;
  right_trigger = p.right_trigger;
  left_stick_x = p.left_stick_x;
  left_stick_y = p.left_stick_y;
  right_stick_x = p.right_stick_x;
  right_stick_y = p.right_stick_y;
}

-- The `switch` on `back_button_state`: the flags that count, and whether the button stays forced.
unfoldable pub force_back : ButtonState → ℕ → ℕ × ButtonState
force_back up flags =
    (clear_bit back_bit flags, if not (test_bit back_bit flags) then unforced else up)
force_back down flags = (set_bit back_bit flags, if test_bit back_bit flags then unforced else down)
force_back unforced flags = (flags, unforced)

-- The back button has changed: a press starts the timeout of the home button, a release stops it.
unfoldable pub back_changed :
    Input → (n : ℕ) → Gamepad → (pressed : Bool) → (now addr : ℕ) → Input × Gamepad
back_changed s n pad true now addr = elim s.config.back_button_timeout [
  | none ↦ (s, pad)
  | some delay ↦
      let (pool, id) = push_delayed_after s.pool now delay addr (emulate_home n) in
      (record s { pool = pool }, record pad { back_timeout_id = id })
]
back_changed s n pad false now addr = if pad.back_timeout_id == 0 then (s, pad) else (
  record s { pool = (cancel s.pool pad.back_timeout_id).0 },
  record pad { back_timeout_id = 0 },
)

-- Whether the back button has changed since the last report decides on the timeout.
unfoldable pub time_back :
    Input → (n : ℕ) → Gamepad → (flags : ℕ) → (now addr : ℕ) → Input × Gamepad
unfolding back_changed
time_back s n pad flags now addr =
    if eqb (test_bit back_bit pad.gamepad_state.button_flags) (test_bit back_bit flags)
    then (s, pad)
    else back_changed s n pad (test_bit back_bit flags) now addr

-- The end of the handler: the state is sent and stored.
unfoldable pub store_report : Input × Gamepad → (n : ℕ) → (id : ℕ) → GamepadState → Input
store_report (s, pad) n id state =
    set_pad (emit (gamepad_update (some id) state) s) n (record pad { gamepad_state = state })

-- The part of the handler for a pad that is there.
unfoldable pub report_pad :
    Input → (n : ℕ) → Gamepad → (id : ℕ) → GamepadState → (now addr : ℕ) → Input
unfolding force_back time_back store_report
report_pad s n pad id state now addr =
    let (flags, forced) = force_back pad.back_button_state state.button_flags in
    store_report (time_back s n (record pad { back_button_state = forced }) flags now addr) n id
      (record state { button_flags = flags })

-- The number of a controller as an index, if it is not negative.
abbrev pub index_of : ℤ → Option ℕ
index_of (pos n) = some n
index_of (negsuc n) = none

-- The handler goes on with a pad that was made just now.
unfoldable pub report_new :
    Gamepad → (n : ℕ) → Packet.MultiController → (now addr : ℕ) → Input × Option ℕ → Input
unfolding report_pad
report_new pad n packet now addr (t, none) = t
report_new pad n packet now addr (t, some id) =
    report_pad t n (record pad { id = some id }) id (reported packet) now addr

-- A pad is there, is made, or is freed, as the active mask says.
unfoldable pub passthrough_pad :
    Input → (n : ℕ) → Gamepad → Packet.MultiController → (fails : Bool) → (now addr : ℕ) → Input
unfolding allocate_pad report_new report_pad free_pad
passthrough_pad s n pad packet fails now addr =
    let active = test_bit n packet.active_gamepad_mask in
    elim pad.id [
      | some id ↦
          if not active
          then (let t = free_pad s id in set_pad t n (record pad { id = none }))
          else report_pad s n pad id (reported packet) now addr
      | none ↦ if active then report_new pad n packet now addr (allocate_pad s n pad fails) else s
    ]

-- `passthrough` of a controller report.
unfoldable pub passthrough_multi_controller :
    Input → Packet.MultiController → (fails : Bool) → (now addr : ℕ) → Input
unfolding passthrough_pad
passthrough_multi_controller s packet fails now addr =
    if not s.config.controller then s else elim (index_of packet.controller_number) [
      | none ↦ s
      | some n ↦ elim (get_elem? s.gamepads n) [
        | none ↦ s
        | some pad ↦ passthrough_pad s n pad packet fails now addr
      ]
    ]

-- The task of the back timeout: the back button goes up, and home goes down and up again.
unfoldable pub run_emulate_home : Input → (n : ℕ) → Input
run_emulate_home s n = elim (get_elem? s.gamepads n) [
  | none ↦ s
  | some pad ↦
      let state = pad.gamepad_state in
      let back_up = record state { button_flags = clear_bit back_bit state.button_flags } in
      let home_down = record back_up { button_flags = set_bit home_bit back_up.button_flags } in
      let home_up = record home_down { button_flags = clear_bit home_bit home_down.button_flags } in
      let id = pad.id in
      set_pad
        (emit (gamepad_update id home_up)
          (emit (gamepad_update id home_down) (emit (gamepad_update id back_up) s)))
        n (record pad { back_button_state = up; gamepad_state = home_up; back_timeout_id = 0 })
]
