-- ===== src/Input/Reset/Released.antt =====
-- What the task of `reset` in src/input.cpp releases.
use midnight_sun.Prelude.{
  ℕ, zero, suc, ◌+◌, ◌%◌, ◌^◌, ◌<◌, Bool, true, false, ◌&&◌, ◌||◌, ◌≡◌, refl, subst, ap, ◌∙◌, List,
  [], ◌∷◌, ◌==◌, if◌then◌else◌, arith,
}
use midnight_sun.Input.State.{Input, Output, button_mouse, keyboard_update}
use midnight_sun.Input.Keyboard.{vk_from_kpid, flags_from_kpid, is_pressed}
use midnight_sun.Input.Keyboard.Press.{os_key}
use midnight_sun.Input.Mouse.{pressed}
use midnight_sun.Input.Mouse.Buttons.{os_button}
use midnight_sun.Input.Reset.{
  button_releases, released_buttons, key_releases, released_keys, run_reset,
}

-- Whether one of the held keys came from the client under this code.
abbrev pub held_code : ℕ → List (ℕ × Bool) → Bool
held_code c [] = false
held_code c ((k, held) ∷ keys) = (held && (vk_from_kpid k % 2 ^ 8 == c)) || held_code c keys

os_key-key_releases :
    (c : ℕ) (keys : List (ℕ × Bool)) (out : List Output)
    → os_key c (key_releases keys out) ≡ (if held_code c keys then false else os_key c out)
os_key-key_releases c [] out = refl
os_key-key_releases c ((k, true) ∷ keys) out =
    let sent = keyboard_update (vk_from_kpid k % 2 ^ 8) true (flags_from_kpid k) ∷ out in
    os_key-key_releases c keys sent ∙ ground arith
os_key-key_releases c ((k, false) ∷ keys) out = os_key-key_releases c keys out

os_key-button_releases :
    (c n : ℕ) (bs : List Bool) (out : List Output)
    → os_key c (button_releases n bs out) ≡ os_key c out
os_key-button_releases c n [] out = refl
os_key-button_releases c n (true ∷ bs) out =
    os_key-button_releases c (suc n) bs (button_mouse n true ∷ out)
os_key-button_releases c n (false ∷ bs) out = os_key-button_releases c (suc n) bs out

is_pressed-released_keys :
    (k : ℕ) (keys : List (ℕ × Bool)) → is_pressed k (released_keys keys) ≡ false
is_pressed-released_keys k [] = refl
is_pressed-released_keys k ((j, true) ∷ keys) = ground (arith, is_pressed-released_keys k keys)
is_pressed-released_keys k ((j, false) ∷ keys) = ground (arith, is_pressed-released_keys k keys)

os_key-run_reset :
    (s : Input) (c : ℕ)
    → (is_pressed c (run_reset s).key_press ≡ false)
      × (os_key c (run_reset s).out ≡ (if held_code c s.key_press then false else os_key c s.out))
unfolding run_reset
os_key-run_reset s c = (
  is_pressed-released_keys c s.key_press,
  os_key-key_releases c s.key_press (button_releases 0 s.mouse_press s.out)
      ∙ ap (λ b. if held_code c s.key_press then false else b)
          (os_key-button_releases c 0 s.mouse_press s.out),
)

-- The buttons from number `n`.
abbrev pressed_from : ℕ → List Bool → ℕ → Bool
pressed_from n [] b = false
pressed_from n (p ∷ bs) b = (p && (n == b)) || pressed_from (suc n) bs b

os_button-button_releases :
    (b n : ℕ) (bs : List Bool) (out : List Output)
    → os_button b (button_releases n bs out)
      ≡ (if pressed_from n bs b then false else os_button b out)
os_button-button_releases b n [] out = refl
os_button-button_releases b n (true ∷ bs) out =
    os_button-button_releases b (suc n) bs (button_mouse n true ∷ out) ∙ ground arith
os_button-button_releases b n (false ∷ bs) out = os_button-button_releases b (suc n) bs out

pressed_from-low : (n : ℕ) (bs : List Bool) (b : ℕ) → b < n → pressed_from n bs b ≡ false
pressed_from-low n [] b low = refl
pressed_from-low n (p ∷ bs) b low = ground (arith, pressed_from-low (suc n) bs b (omega arith))

pressed_from-pressed : (n : ℕ) (bs : List Bool) (b : ℕ) → pressed_from n bs (b + n) ≡ pressed b bs
pressed_from-pressed n [] b = refl
pressed_from-pressed n (true ∷ bs) zero = ground arith
pressed_from-pressed n (false ∷ bs) zero =
    ground (arith, pressed_from-low (suc n) bs n (omega arith))
pressed_from-pressed n (p ∷ bs) (suc b) = ground (arith, pressed_from-pressed (suc n) bs b)

os_button-key_releases :
    (b : ℕ) (keys : List (ℕ × Bool)) (out : List Output)
    → os_button b (key_releases keys out) ≡ os_button b out
os_button-key_releases b [] out = refl
os_button-key_releases b ((k, true) ∷ keys) out =
    os_button-key_releases b keys
      (keyboard_update (vk_from_kpid k % 2 ^ 8) true (flags_from_kpid k) ∷ out)
os_button-key_releases b ((k, false) ∷ keys) out = os_button-key_releases b keys out

pressed-released_buttons : (b : ℕ) (bs : List Bool) → pressed b (released_buttons bs) ≡ false
pressed-released_buttons b [] = refl
pressed-released_buttons zero (true ∷ bs) = refl
pressed-released_buttons zero (false ∷ bs) = refl
pressed-released_buttons (suc b) (p ∷ bs) = pressed-released_buttons b bs

os_button-run_reset :
    (s : Input) (b : ℕ)
    → (pressed b (run_reset s).mouse_press ≡ false)
      × (os_button b (run_reset s).out
          ≡ (if pressed b s.mouse_press then false else os_button b s.out))
unfolding run_reset
os_button-run_reset s b = (
  pressed-released_buttons b s.mouse_press,
  os_button-key_releases b s.key_press (button_releases 0 s.mouse_press s.out)
      ∙ os_button-button_releases b 0 s.mouse_press s.out
      ∙ ap (λ p. if p then false else os_button b s.out) counts,
)
  where
    plus_zero : b + 0 ≡ b
    plus_zero = omega arith

    counts : pressed_from 0 s.mouse_press b ≡ pressed b s.mouse_press
    counts =
        subst (λ x. pressed_from 0 s.mouse_press x ≡ pressed b s.mouse_press) plus_zero
          (pressed_from-pressed 0 s.mouse_press b)

-- After the task of `reset` every key and every mouse button counts as up. The platform no longer holds a code
-- under which the client had sent a key that was down, nor a button that counted as down; of every other code
-- and button it holds what it held before.
pub run_reset_lem :
    (s : Input) (c b : ℕ)
    → (is_pressed c (run_reset s).key_press ≡ false)
      × (os_key c (run_reset s).out ≡ (if held_code c s.key_press then false else os_key c s.out))
      × (pressed b (run_reset s).mouse_press ≡ false)
      × (os_button b (run_reset s).out
          ≡ (if pressed b s.mouse_press then false else os_button b s.out))
run_reset_lem s c b =
    let (up, keys) = os_key-run_reset s c in
    let (released, buttons) = os_button-run_reset s b in (up, keys, released, buttons)
