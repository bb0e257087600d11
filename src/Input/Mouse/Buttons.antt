-- ===== src/Input/Mouse/Buttons.antt =====
-- The buttons that the platform holds are those of `mouse_press` in src/input.cpp.
use midnight_sun.Prelude.{
  ℕ, zero, ◌<◌, suc, Bool, false, not, ◌≡◌, ◌≢◌, refl, List, [], ◌∷◌, arith, ◌⊎◌, ◌==◌,
  if◌then◌else◌, set, length, length-set,
}
use midnight_sun.Input.Packet.{Limelight}
use midnight_sun.Input.Packet
use midnight_sun.Input.State.{Input, Output, button_mouse}
use midnight_sun.Input.Mouse.{pressed, send_button, passthrough_mouse_button, run_release_left}

-- Whether the platform last saw this button go down.
abbrev pub os_button : ℕ → List Output → Bool
os_button b [] = false
os_button b (button_mouse c release ∷ out) = if c == b then not release else os_button b out
os_button b (_ ∷ out) = os_button b out

-- BUTTON_LEFT and BUTTON_RIGHT of moonlight-common-c are two of the four buttons that are tracked.
pub record ButtonNumbers (li : Limelight) : Type 0 where
  pub left_tracked : (0 < li.button_left) × (li.button_left < 5)
  pub right_tracked : (0 < li.button_right) × (li.button_right < 5)
  pub distinct : li.button_left ≢ li.button_right

-- `mouse_press` has its five entries, and says of this button what the platform holds.
pub record InSync (b : ℕ) (s : Input) : Type 0 where
  pub five : length s.mouse_press ≡ 5
  pub same : os_button b s.out ≡ pressed b s.mouse_press

pub pressed-set :
    (m : List Bool) (c b : ℕ) (v : Bool)
    → b < length m
    → pressed b (set m c v) ≡ (if c == b then v else pressed b m)
pressed-set [] c b v h = absurd (omega arith)
pressed-set (x ∷ m) zero zero v h = refl
pressed-set (x ∷ m) zero (suc b) v h = ground arith
pressed-set (x ∷ m) (suc c) zero v h = ground arith
pressed-set (x ∷ m) (suc c) (suc b) v h = ground (arith, pressed-set m c b v (omega arith))

module _ (li : Limelight) (num : ButtonNumbers li) where
  -- The part of the handler after `mouse_press[button] = !release`, for another button and for this one.
  send_button-InSync :
      (b c : ℕ) (s : Input) (release : Bool) (now addr : ℕ)
      → length s.mouse_press ≡ 5
      → b < 5
      → (b ≢ li.button_left) ⊎ (s.mouse_left_button_timeout ≢ 0)
      → (c ≢ b → os_button b s.out ≡ pressed b s.mouse_press)
      → (c ≡ b → pressed b s.mouse_press ≡ not release)
      → InSync b (send_button li s c release now addr)
  unfolding send_button
  send_button-InSync b c s release now addr five small free other this = ground (
    arith,
    num.distinct,
    length-set s.mouse_press li.button_right false,
    pressed-set s.mouse_press li.button_right b false,
  )

  -- A button packet keeps each tracked button in step with the platform; of the left button this is said while
  -- its release is not delayed, that is while the timeout is not null.
  pub passthrough_mouse_button-InSync :
      (b : ℕ) (s : Input) (packet : Packet.MouseButton) (now addr : ℕ)
      → 0 < b
      → b < 5
      → (b ≢ li.button_left) ⊎ (s.mouse_left_button_timeout ≢ 0)
      → InSync b s
      → InSync b (passthrough_mouse_button li s packet now addr)
  unfolding passthrough_mouse_button
  passthrough_mouse_button-InSync b s packet now addr pos small free v =
      let c = packet.button in
      let noted = record s { mouse_press = set s.mouse_press c (not packet.release) } in
      ground (
        arith,
        v.same,
        v.five,
        length-set s.mouse_press c (not packet.release),
        pressed-set s.mouse_press c b (not packet.release),
        send_button-InSync b c noted packet.release now addr,
        send_button-InSync b c s packet.release now addr,
      )

  -- The delayed release keeps every tracked button in step, and brings the left button back in step with a
  -- `mouse_press` that says that it is up.
  pub run_release_left-InSync :
      (b : ℕ) (s : Input)
      → b < 5
      → length s.mouse_press ≡ 5
      → InSync b s ⊎ ((b ≡ li.button_left) × (pressed b s.mouse_press ≡ false))
      → InSync b (run_release_left li s)
  unfolding run_release_left
  run_release_left-InSync b s small five h = ground (
    arith,
    length-set s.mouse_press li.button_left false,
    pressed-set s.mouse_press li.button_left b false,
  )
