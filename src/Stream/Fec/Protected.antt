-- ===== src/Stream/Fec/Protected.antt =====
-- The blocks of a frame in src/stream.cpp, encoded: no more shards than the code has room for.
use native.Mathlib.Nat.{div-add-mod', mul-le-mul_right, le_of_mul-le-mul_right, div-mul-le_self}
use midnight_sun.Prelude.{
  ℕ, ◌+◌, ◌*◌, ◌/◌, ◌%◌, ◌≤◌, ◌<◌, ◌≡◌, inl, inr, some, List, [], ◌∷◌, ltb, Bool-cases, ltb→lt,
  length, All, arith,
}
use midnight_sun.Prelude.Maps.{Bytes}
use midnight_sun.Stream.Fec.{
  encode, concat, blocks_for, max_data_per_fec_block, max_data_shards_per_fec_block, fec_blocks,
  count_data_shards, count_parity_shards, parity_at, is_padded, is_raised, data_shards_max,
}
use midnight_sun.Stream.Fec.Blocks.{Fits, fec_blocks-Fits}

lt_of_mul : (m n b : ℕ) → m * b < n * b → m < n
lt_of_mul m n b h = elim (Bool-cases (ltb m n)) [
  | inl e ↦ ltb→lt m n e
  | inr e ↦ let back : n ≤ m = ground arith in absurd (omega (arith, mul-le-mul_right b back))
]

-- A block that fits has at most the data shards that FEC allows.
count_data_shards_le :
    (b d : ℕ) (xs : Bytes) → 0 < b → length xs ≤ d * b → count_data_shards b xs ≤ d
count_data_shards_le b d xs pos h =
    let whole = div-add-mod' (length xs) b in
    elim (Bool-cases (is_padded b xs)) [
      | inl e ↦
          let some_left : 0 < length xs % b = ground arith in
          let few : length xs / b < d = lt_of_mul (length xs / b) d b (omega arith) in
          rw e (omega arith)
      | inr e ↦
          let few : length xs / b ≤ d = le_of_mul-le-mul_right {k = b} (omega arith) pos in
          rw e (omega arith)
    ]

parity_le :
    (n pct : ℕ) → n ≤ max_data_shards_per_fec_block pct → n + parity_at n pct ≤ data_shards_max
parity_le n pct h =
    let within = mul-le-mul_right (100 + pct) h in
    let whole = div-mul-le_self 25500 (100 + pct) in omega arith

count_parity_shards_le :
    (n pct low : ℕ)
    → n ≤ max_data_shards_per_fec_block pct
    → max_data_shards_per_fec_block pct + low ≤ data_shards_max
    → n + count_parity_shards n pct low ≤ data_shards_max
count_parity_shards_le n pct low h room = elim (Bool-cases (is_raised n pct low)) [
  | inl e ↦ rw e (omega arith)
  | inr e ↦ rw e (parity_le n pct h)
]

module _ (rs : ℕ → ℕ → ℕ → List Bytes → List Bytes) where
  nr_shards_le :
      (b pct low prefix : ℕ) (bs : List Bytes)
      → 0 < b
      → max_data_shards_per_fec_block pct + low ≤ data_shards_max
      → Fits (max_data_per_fec_block b pct) bs
      → All (λ (xs : Bytes). (encode rs xs b pct low prefix).nr_shards ≤ data_shards_max) bs
  unfolding encode
  nr_shards_le b pct low prefix [] pos room fit = tt
  nr_shards_le b pct low prefix (xs ∷ bs) pos room (h, fit) = (
    count_parity_shards_le (count_data_shards b xs) pct low
        (count_data_shards_le b (max_data_shards_per_fec_block pct) xs pos h) room,
    nr_shards_le b pct low prefix bs pos room fit,
  )

  -- A frame of at least one byte cut by `fec_blocks`, with blocks of at least four bytes and a
  -- percentage up to 255, where four blocks suffice and the client's minimum of parity shards leaves
  -- room for the data: the blocks joined are the frame, and `encode` makes at most 255 shards of
  -- each, data and parity together, which is what the Reed-Solomon code can take.
  pub fec_blocks-encode :
      (b pct low prefix : ℕ) (payload : Bytes)
      → 4 ≤ b
      → pct ≤ 255
      → 0 < length payload
      → blocks_for b pct (length payload) ≤ 4
      → max_data_shards_per_fec_block pct + low ≤ data_shards_max
      → (bs : List Bytes) × ((fec_blocks b pct payload ≡ (pct, some bs))
          × ((concat bs ≡ payload)
              × All
                  (λ (xs : Bytes). (encode rs xs b pct low prefix).nr_shards ≤ data_shards_max)
                  bs))
  fec_blocks-encode b pct low prefix payload wide high some_bytes few room =
      let (bs, (e, (joined, (fit, n)))) = fec_blocks-Fits b pct payload wide high some_bytes few in
      (bs, (e, (joined, nr_shards_le b pct low prefix bs (omega arith) room fit)))
