-- ===== src/Prelude/Bits.antt =====
-- Bitwise `or` of unsigned integers, and shifts as products with powers of two.
use Prim.Native.Nat.{ℕ, zero, suc, ◌+◌, ◌*◌, ◌/◌, ◌%◌, ◌^◌, ◌<◌}
use mathlib.Core.Path.{◌≡◌, refl, ap, ◌∙◌}
use native.Mathlib.Nat.{two-pow-succ}
use native.Mathlib.Omega.{arith}
use midnight_sun.Prelude.Tests.{if◌then◌else◌, ltb}

-- One bit of either.
abbrev pub either_bit : ℕ → ℕ → ℕ
either_bit a b = if ltb 0 (a % 2 + b % 2) then 1 else 0

-- The bits below `w`.
pub bit_or : ℕ → ℕ → ℕ → ℕ
bit_or zero a b = 0
bit_or (suc w) a b = let rest = bit_or w (a / 2) (b / 2) in either_bit a b + 2 * rest

abbrev pub or32 : ℕ → ℕ → ℕ
or32 a b = bit_or 32 a b

either_bit_lem : (a b : ℕ) → either_bit a (2 * b) ≡ a % 2
either_bit_lem a b = ground arith

bit_or-zero : (w b : ℕ) → b < 2 ^ w → bit_or w 0 b ≡ b
unfolding bit_or
bit_or-zero zero b h = ground arith
bit_or-zero (suc w) b h =
    let half : b / 2 < 2 ^ w = omega (arith, two-pow-succ w) in
    rw (bit_or-zero w (b / 2) half) (ground arith)

bit_or_twice : (w a b : ℕ) → bit_or (suc w) a (2 * b) ≡ a % 2 + 2 * bit_or w (a / 2) b
unfolding bit_or
bit_or_twice w a b = let half : 2 * b / 2 ≡ b = omega arith in rw (either_bit_lem a b, half) refl

shift_suc : (c k : ℕ) → c * 2 ^ suc k ≡ 2 * (c * 2 ^ k)
shift_suc c k = ap (λ m. c * m) (two-pow-succ k) ∙ mul_twice c (2 ^ k)
  where
    mul_twice : (c m : ℕ) → c * (m + m) ≡ 2 * (c * m)
    mul_twice c m = omega arith

-- Numbers that share no bit are added.
pub bit_or_add :
    (w k a c : ℕ)
    → a < 2 ^ k
    → a < 2 ^ w
    → c * 2 ^ k < 2 ^ w
    → bit_or w a (c * 2 ^ k) ≡ a + c * 2 ^ k
unfolding bit_or
bit_or_add w zero a c low fits high =
    let none_low : a ≡ 0 = omega arith in rw none_low (bit_or-zero w (c * 2 ^ 0) high ∙ omega arith)
bit_or_add zero (suc k) a c low fits high =
    let nothing : 0 ≡ a + c * 2 ^ suc k = omega arith in nothing
bit_or_add (suc w) (suc k) a c low fits high =
    let halves =
      bit_or_add w k (a / 2) c (omega (arith, two-pow-succ k)) (omega (arith, two-pow-succ w))
        (omega (arith, shift_suc c k, two-pow-succ w)) in
    ap (λ n. bit_or (suc w) a n) (shift_suc c k)
    ∙ bit_or_twice w a (c * 2 ^ k)
    ∙ ap (λ n. a % 2 + 2 * n) halves
    ∙ omega (arith, shift_suc c k)

pub bit_or_comm : (w a b : ℕ) → bit_or w a b ≡ bit_or w b a
unfolding bit_or
bit_or_comm zero a b = refl
bit_or_comm (suc w) a b =
    let bit : either_bit a b ≡ either_bit b a = ground arith in
    cc (bit, bit_or_comm w (a / 2) (b / 2))
