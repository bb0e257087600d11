-- ===== src/Input/Gamepads/Owners/Handlers.antt =====
-- The gamepad handlers of src/input.cpp keep the ids owned.
use midnight_sun.Prelude.{
  subst, ℕ, Bool, true, false, ◌≡◌, refl, Option, none, some, List, arith, inl, inr, Bool-cases,
  Option-cases, ap, ◌∙◌, sym, get_elem?, set, get_elem?-set_found,
}
use midnight_sun.Input.Packet
use midnight_sun.Input.State.{Input, Gamepad, GamepadState}
use midnight_sun.Input.Gamepads.{
  alloc_id, free_pad, allocate_with, allocate_pad, passthrough_controller_arrival, report_pad,
  report_new, back_changed, time_back, store_report, passthrough_pad, passthrough_multi_controller,
  run_emulate_home, index_of, force_back, test_bit, back_bit, reported,
}
use midnight_sun.Input.Gamepads.Ids.{AllocResult, alloc_id_lem, free_id-alloc_id}
use midnight_sun.Input.Gamepads.Owners.{Owned, Owned-same_id, Owned-allocate, Owned-free}

abbrev pub OwnedIn : Input → Type 0
OwnedIn s = Owned s.gamepad_mask s.gamepads

-- A handler has only rewritten one pad, with the id that it had.
abbrev Rewrote : Input → ℕ → Gamepad → Input → Type 0
Rewrote s n pad t =
    (new : Gamepad) × (t.gamepads ≡ set s.gamepads n new)
    × (new.id ≡ pad.id)
    × (t.gamepad_mask ≡ s.gamepad_mask)

back_changed-keeps :
    (s : Input) (n : ℕ) (pad : Gamepad) (pressed : Bool) (now addr : ℕ)
    → let (t, new) = back_changed s n pad pressed now addr in
      (t.gamepads ≡ s.gamepads) × (t.gamepad_mask ≡ s.gamepad_mask) × (new.id ≡ pad.id)
unfolding back_changed
back_changed-keeps s n pad true now addr = ground arith
back_changed-keeps s n pad false now addr = ground arith

time_back-keeps :
    (s : Input) (n : ℕ) (pad : Gamepad) (flags now addr : ℕ)
    → let (t, new) = time_back s n pad flags now addr in
      (t.gamepads ≡ s.gamepads) × (t.gamepad_mask ≡ s.gamepad_mask) × (new.id ≡ pad.id)
unfolding time_back
time_back-keeps s n pad flags now addr =
    ground (arith, back_changed-keeps s n pad (test_bit back_bit flags) now addr)

report_pad-Rewrote :
    (s : Input) (n : ℕ) (pad : Gamepad) (id : ℕ) (state : GamepadState) (now addr : ℕ)
    → Rewrote s n pad (report_pad s n pad id state now addr)
unfolding report_pad store_report
report_pad-Rewrote s n pad id state now addr =
    let (flags, forced) = force_back pad.back_button_state state.button_flags in
    let forced_pad = record pad { back_button_state = forced } in
    let (t, timed) = time_back s n forced_pad flags now addr in
    let (pads, mask, same) = time_back-keeps s n forced_pad flags now addr in
    let new = record timed { gamepad_state = record state { button_flags = flags } } in
    (new, ap (λ l. set l n new) pads, same, mask)

Rewrote-Owned :
    (s t : Input) (n : ℕ) (old pad : Gamepad)
    → get_elem? s.gamepads n ≡ some old
    → pad.id ≡ old.id
    → Rewrote s n pad t
    → OwnedIn s
    → OwnedIn t
Rewrote-Owned s t n old pad e same (new, pads, id, mask) v =
    rw (pads, mask) (Owned-same_id s.gamepad_mask s.gamepads n old new e (id ∙ same) v)

-- A pad that is made takes a free id; if it is not made, the ids are as before.
allocate_with-Owned :
    (s : Input) (n : ℕ) (pad : Gamepad) (fails : Bool) (found : List Bool × Option ℕ)
    → alloc_id s.gamepad_mask ≡ found
    → get_elem? s.gamepads n ≡ some pad
    → pad.id ≡ none
    → OwnedIn s
    → let (t, made) = allocate_with s n pad fails found in
      OwnedIn t
      × ((id : ℕ) → made ≡ some id → get_elem? t.gamepads n ≡ some (record pad { id = some id }))
unfolding allocate_with
allocate_with-Owned s n pad fails (mask, none) found e none_yet v = (v, λ id h. absurd (cc))
allocate_with-Owned s n pad true (mask, some id) found e none_yet v =
    (rw (free_id-alloc_id s.gamepad_mask mask id found) v, λ id h. absurd (cc))
allocate_with-Owned s n pad false (mask, some id) found e none_yet v =
    let (free, taken, _) = subst (AllocResult s.gamepad_mask) found (alloc_id_lem s.gamepad_mask) in
    (
      rw taken (
          Owned-allocate s.gamepad_mask s.gamepads n id pad (record pad { id = some id }) e refl
            free v),
      λ id' h.
          let same : id ≡ id' = cc h in
          get_elem?-set_found s.gamepads n pad (record pad { id = some id }) e
          ∙ ap (λ x. some (record pad { id = some x })) same,
    )

report_new-Owned :
    (pad : Gamepad) (n : ℕ) (packet : Packet.MultiController) (now addr : ℕ)
    (made : Input × Option ℕ)
    → OwnedIn made.0
    → ((id : ℕ)
        → made.1 ≡ some id
        → get_elem? made.0.gamepads n ≡ some (record pad { id = some id }))
    → OwnedIn (report_new pad n packet now addr made)
unfolding report_new
report_new-Owned pad n packet now addr (t, none) v h = v
report_new-Owned pad n packet now addr (t, some id) v h =
    let new = record pad { id = some id } in
    Rewrote-Owned t (report_pad t n new id (reported packet) now addr) n new new (h id refl) refl
      (report_pad-Rewrote t n new id (reported packet) now addr) v

passthrough_pad-Owned :
    (s : Input) (n : ℕ) (pad : Gamepad) (packet : Packet.MultiController) (fails : Bool)
    (now addr : ℕ) (id : Option ℕ)
    → pad.id ≡ id
    → get_elem? s.gamepads n ≡ some pad
    → OwnedIn s
    → OwnedIn (passthrough_pad s n pad packet fails now addr)
unfolding passthrough_pad
passthrough_pad-Owned s n pad packet fails now addr none same e v =
    elim (Bool-cases (test_bit n packet.active_gamepad_mask)) [
      | inl active ↦
          let (w, found) =
            allocate_with-Owned s n pad fails (alloc_id s.gamepad_mask) refl e same v in
          rw (same, active, passthrough_pad)
            (report_new-Owned pad n packet now addr (allocate_pad s n pad fails) w found)
      | inr idle ↦ rw (same, idle, passthrough_pad) v
    ]
passthrough_pad-Owned s n pad packet fails now addr (some id) same e v =
    elim (Bool-cases (test_bit n packet.active_gamepad_mask)) [
      | inl active ↦
          rw (same, active, passthrough_pad)
            (Rewrote-Owned s (report_pad s n pad id (reported packet) now addr) n pad pad e refl
              (report_pad-Rewrote s n pad id (reported packet) now addr) v)
      | inr idle ↦
          rw (same, idle, passthrough_pad, free_pad)
            (Owned-free s.gamepad_mask s.gamepads n id pad (record pad { id = none }) e same refl v)
    ]

-- The emulated home button rewrites its pad with the id that it had.
pub run_emulate_home-Owned : (s : Input) (n : ℕ) → OwnedIn s → OwnedIn (run_emulate_home s n)
unfolding run_emulate_home
run_emulate_home-Owned s n v = elim (Option-cases (get_elem? s.gamepads n)) [
  | inl nothing ↦ rw (nothing, run_emulate_home) v
  | inr (pad, e) ↦
      rw (e, run_emulate_home) (Owned-same_id s.gamepad_mask s.gamepads n pad _ e refl v)
]

-- A controller report keeps every owned id marked as taken and owned by one controller only, whether it makes a
-- pad, frees one, only reports, or is ignored, and also when the platform makes no pad.
pub passthrough_multi_controller-Owned :
    (s : Input) (packet : Packet.MultiController) (fails : Bool) (now addr : ℕ)
    → OwnedIn s
    → OwnedIn (passthrough_multi_controller s packet fails now addr)
unfolding passthrough_multi_controller
passthrough_multi_controller-Owned s packet fails now addr v =
    elim (Bool-cases s.config.controller) [
      | inr off ↦ subst OwnedIn (sym (off_lem off)) v
      | inl on ↦ elim (Option-cases (index_of packet.controller_number)) [
        | inl negative ↦ subst OwnedIn (sym (negative_lem negative)) v
        | inr (n, index) ↦ elim (Option-cases (get_elem? s.gamepads n)) [
          | inl beyond ↦ subst OwnedIn (sym (beyond_lem n index beyond)) v
          | inr (pad, e) ↦
              subst OwnedIn (sym (inside_lem on n index pad e))
                (passthrough_pad-Owned s n pad packet fails now addr pad.id refl e v)
        ]
      ]
    ]
  where
    result : Input
    result = passthrough_multi_controller s packet fails now addr

    off_lem : s.config.controller ≡ false → result ≡ s
    off_lem h = ground arith

    negative_lem : index_of packet.controller_number ≡ none → result ≡ s
    negative_lem h = ground arith

    beyond_lem :
        (n : ℕ)
        → index_of packet.controller_number ≡ some n
        → get_elem? s.gamepads n ≡ none
        → result ≡ s
    beyond_lem n i h = ground arith

    inside_lem :
        s.config.controller ≡ true
        → (n : ℕ) → index_of packet.controller_number ≡ some n
        → (pad : Gamepad) → get_elem? s.gamepads n ≡ some pad
        → result ≡ passthrough_pad s n pad packet fails now addr
    inside_lem on n i pad h = ground arith

-- So does a controller arrival, whatever the platform answers.
pub passthrough_controller_arrival-Owned :
    (s : Input) (packet : Packet.ControllerArrival) (fails : Bool)
    → OwnedIn s
    → OwnedIn (passthrough_controller_arrival s packet fails)
unfolding passthrough_controller_arrival
passthrough_controller_arrival-Owned s packet fails v =
    elim (Option-cases (get_elem? s.gamepads packet.controller_number)) [
      | inl beyond ↦ subst OwnedIn (sym (beyond_lem beyond)) v
      | inr (pad, e) ↦ elim (Option-cases pad.id) [
        | inr (id, has) ↦ subst OwnedIn (sym (has_lem pad e id has)) v
        | inl none_yet ↦ elim (Bool-cases s.config.controller) [
          | inr off ↦ subst OwnedIn (sym (off_lem off)) v
          | inl on ↦
              subst OwnedIn (sym (made_lem on pad e none_yet))
                (allocate_with-Owned s packet.controller_number pad fails (alloc_id s.gamepad_mask)
                  refl e none_yet v).0
        ]
      ]
    ]
  where
    result : Input
    result = passthrough_controller_arrival s packet fails

    off_lem : s.config.controller ≡ false → result ≡ s
    off_lem h = ground arith

    beyond_lem : get_elem? s.gamepads packet.controller_number ≡ none → result ≡ s
    beyond_lem h = ground arith

    has_lem :
        (pad : Gamepad)
        → get_elem? s.gamepads packet.controller_number ≡ some pad
        → (id : ℕ) → pad.id ≡ some id
        → result ≡ s
    has_lem pad e id h = ground arith

    made_lem :
        s.config.controller ≡ true
        → (pad : Gamepad) → get_elem? s.gamepads packet.controller_number ≡ some pad
        → pad.id ≡ none
        → result ≡ (allocate_pad s packet.controller_number pad fails).0
    made_lem on pad e h = ground arith
