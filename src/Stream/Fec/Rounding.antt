-- ===== src/Stream/Fec/Rounding.antt =====
-- Sizes rounded up to blocks, as src/stream.cpp cuts a frame into FEC blocks.
use native.Mathlib.Nat.{mod-lt, div-add-mod', div-lt_iff_lt-mul}
use midnight_sun.Prelude.{
  ℕ, zero, suc, ◌+◌, ◌-◌, ◌*◌, ◌/◌, ◌≤◌, ◌<◌, ◌≡◌, refl, ap, ◌⊎◌, inl, inr, ltb, Bool-cases, ltb→lt,
  arith,
}

-- Rounding up to a multiple.
pub round_up_lem : (u b : ℕ) → 0 < b → (u ≤ (u + (b - 1)) / b * b) × ((u + (b - 1)) / b * b < u + b)
round_up_lem u b pos =
    let whole = div-add-mod' (u + (b - 1)) b in
    let rest = mod-lt (u + (b - 1)) pos in (omega arith, omega arith)

-- A multiple of `b` that is at most another one is that one, or at least `b` less.
pub multiple_step : (c d b : ℕ) → c ≤ d → (c * b ≡ d * b) ⊎ (c * b + b ≤ d * b)
multiple_step zero zero b h = inl refl
multiple_step zero (suc d) b h = inr (omega arith)
multiple_step (suc c) zero b h = absurd (omega arith)
multiple_step (suc c) (suc d) b h = elim (multiple_step c d b (omega arith)) [
  | inl e ↦ inl (omega arith)
  | inr e ↦ inr (omega arith)
]

pub round_up_fits :
    (u d b : ℕ)
    → 0 < b
    → u ≤ d * b
    → ((u + (b - 1)) / b * b ≡ d * b) ⊎ ((u + (b - 1)) / b * b + b ≤ d * b)
round_up_fits u d b pos h =
    multiple_step ((u + (b - 1)) / b) d b
      (omega (arith, (div-lt_iff_lt-mul {x = u + (b - 1)} {y = suc d} pos).1 (omega arith)))

-- With `n` blocks for `s` bytes, of which `m` fit into one.
module _ (s b m u a : ℕ) (wide : 4 ≤ b) (room : 4 * b ≤ m) (up : u ≤ a) (near : a < u + b) where
  pub block_start : (k : ℕ) → k < 4 → suc k * u ≤ s → suc k * m ≤ s + (m - 1) → k * a ≤ s
  block_start zero h low many = omega arith
  block_start (suc zero) h low many = omega arith
  block_start (suc (suc zero)) h low many = omega arith
  block_start (suc (suc (suc zero))) h low many = omega arith
  block_start (suc (suc (suc (suc k)))) h low many = absurd (omega arith)

  pub block_end :
      (k : ℕ)
      → k < 4
      → s < suc k * u + suc k
      → s ≤ suc k * m
      → (a ≡ m) ⊎ (a + b ≤ m)
      → s ≤ k * a + m
  block_end zero h low many (inl e) = omega arith
  block_end zero h low many (inr e) = omega arith
  block_end (suc zero) h low many (inl e) = omega arith
  block_end (suc zero) h low many (inr e) = omega arith
  block_end (suc (suc zero)) h low many (inl e) = omega arith
  block_end (suc (suc zero)) h low many (inr e) = omega arith
  block_end (suc (suc (suc zero))) h low many (inl e) = omega arith
  block_end (suc (suc (suc zero))) h low many (inr e) = omega arith
  block_end (suc (suc (suc (suc k)))) h low many e = absurd (omega arith)

-- The number of blocks that are wanted, as bounds on the size.
pub wanted_lem :
    (s m : ℕ)
    → 0 < m
    → 0 < s
    → (k : ℕ) × (((s + (m - 1)) / m ≡ suc k) × ((suc k * m ≤ s + (m - 1)) × (s ≤ suc k * m)))
wanted_lem s m pos some_bytes = go ((s + (m - 1)) / m) refl
  where
    go :
        (q : ℕ)
        → (s + (m - 1)) / m ≡ q
        → (k : ℕ) × (((s + (m - 1)) / m ≡ suc k) × ((suc k * m ≤ s + (m - 1)) × (s ≤ suc k * m)))
    go zero e =
        let none_left = ap (λ q. q * m) e in
        absurd (omega (arith, none_left, div-add-mod' (s + (m - 1)) m, mod-lt (s + (m - 1)) pos))
    go (suc k) e =
        let counted = ap (λ q. q * m) e in
        let whole = div-add-mod' (s + (m - 1)) m in
        (k, (e, (omega arith, omega (arith, mod-lt (s + (m - 1)) pos))))

pub block_size_lem : (s n : ℕ) → 0 < n → (n * (s / n) ≤ s) × (s < n * (s / n) + n)
block_size_lem s n pos =
    let whole = div-add-mod' s n in let rest = mod-lt s pos in (omega arith, omega arith)

pub exact_le : (a b m : ℕ) → (a ≡ m) ⊎ (a + b ≤ m) → a ≤ m
exact_le a b m (inl e) = omega arith
exact_le a b m (inr e) = omega arith

-- More than four blocks are wanted only for a size that four do not hold.
pub large_lem : (s m : ℕ) → 0 < m → 4 < (s + (m - 1)) / m → 4 * m < s
large_lem s m pos many = elim (Bool-cases (ltb (4 * m) s)) [
  | inl large ↦ ltb→lt (4 * m) s large
  | inr small ↦
      let within : s ≤ 4 * m = ground arith in
      absurd
        (omega (arith, (div-lt_iff_lt-mul {k = m} {x = s + (m - 1)} {y = 5} pos).1 (omega arith)))
]
