-- ===== src/Stream/Fec/Blocks.antt =====
-- The FEC blocks of a frame in src/stream.cpp: they cover it, and fit what the code can protect.
use native.Mathlib.Nat.{div-lt_iff_lt-mul, mul-le-mul_right, le_of_mul-le-mul_right}
use mathlib.Core.List.{append-nil}
use midnight_sun.Prelude.{
  ℕ, zero, suc, ◌+◌, ◌-◌, ◌*◌, ◌/◌, ◌≤◌, ◌<◌, ◌≡◌, refl, sym, ap, ◌∙◌, inl, inr, true, false, some,
  List, [], ◌∷◌, ◌++◌, ltb, ◌==◌, Bool-cases, ltb→lt, length, take, drop, All, arith,
}
use midnight_sun.Prelude.Maps.{Bytes}
use midnight_sun.Prelude.Segments.{length-take, length-drop, take-drop, take_all, drop-drop}
use midnight_sun.Stream.Fec.{
  concat, split_blocks, blocks_for, aligned_block_size, max_data_per_fec_block,
  max_data_shards_per_fec_block, fec_blocks,
}
use midnight_sun.Stream.Fec.Rounding.{
  round_up_lem, round_up_fits, block_start, block_end, wanted_lem, block_size_lem, exact_le,
  large_lem,
}

-- A block that is no larger than `most`, and ends on a block boundary unless it is the last one.
abbrev pub Fits : ℕ → List Bytes → Type 0
Fits most bs = All (λ (b : Bytes). length b ≤ most) bs

split_blocks_lem :
    (aligned most needed : ℕ) (payload : Bytes) (k x : ℕ)
    → x + suc k ≡ needed
    → x * aligned + k * aligned ≤ length payload
    → length payload ≤ x * aligned + k * aligned + most
    → aligned ≤ most
    → (bs : List Bytes) × ((split_blocks aligned payload needed (suc k) x ≡ some bs)
        × ((concat bs ≡ drop (x * aligned) payload) × (Fits most bs × (length bs ≡ suc k))))
split_blocks_lem aligned most needed payload zero x sum start end small =
    let last : (x == needed - 1) ≡ true = ground arith in
    let inside : ltb (length payload) (x * aligned) ≡ false = ground arith in
    let left = length-drop (x * aligned) payload in
    let all = take_all (length payload) (drop (x * aligned) payload) (omega (arith, left)) in
    rw (last, inside, all)
      (
        drop (x * aligned) payload ∷ [],
        (refl, (append-nil (drop (x * aligned) payload), ((omega (arith, left), tt), refl))),
      )
split_blocks_lem aligned most needed payload (suc k) x sum start end small =
    let more : (x == needed - 1) ≡ false = ground arith in
    let inside : ltb (length payload) (x * aligned) ≡ false = ground arith in
    let left = length-drop (x * aligned) payload in
    let size = length-take aligned (drop (x * aligned) payload) (omega (arith, left)) in
    let (bs, (e, (joined, (fit, count)))) =
      split_blocks_lem aligned most needed payload k (x + 1) (omega arith) (omega arith)
        (omega arith) small in
    let block = take aligned (drop (x * aligned) payload) in
    let more_at : (x + 1) * aligned ≡ x * aligned + aligned = omega arith in
    let behind : drop ((x + 1) * aligned) payload ≡ drop aligned (drop (x * aligned) payload) =
      ap (λ n. drop n payload) more_at ∙ sym (drop-drop aligned (x * aligned) payload) in
    (
      block ∷ bs,
      (
        rw (more, inside, e) refl,
        (
          ap (λ l. block ++ l) (joined ∙ behind) ∙ take-drop aligned (drop (x * aligned) payload),
          ((omega (arith, size), fit), ap suc count),
        ),
      ),
    )

abbrev most_at : ℕ → ℕ → ℕ
most_at b pct = max_data_per_fec_block b pct

-- With a percentage of 255 at most, 71 shards or more fit into a block.
shards_fit : (pct : ℕ) → pct ≤ 255 → 71 ≤ max_data_shards_per_fec_block pct
shards_fit pct h = elim (Bool-cases (ltb (max_data_shards_per_fec_block pct) 71)) [
  | inl few ↦
      let over : 25500 < 71 * (100 + pct) =
        (div-lt_iff_lt-mul {k = 100 + pct} {x = 25500} {y = 71} (omega arith)).0
          (ltb→lt (max_data_shards_per_fec_block pct) 71 few) in
      absurd (omega arith)
  | inr enough ↦ ground arith
]

most_wide : (b pct : ℕ) → pct ≤ 255 → 71 * b ≤ most_at b pct
most_wide b pct h = mul-le-mul_right b (shards_fit pct h)

drop_nothing : (a : ℕ) (xs : Bytes) → drop (0 * a) xs ≡ xs
drop_nothing a xs = let none_left : 0 * a ≡ 0 = omega arith in ap (λ n. drop n xs) none_left

-- The blocks, given how many there are.
split_in :
    (b d : ℕ) (payload : Bytes) (k : ℕ)
    → 4 ≤ b
    → 4 * b ≤ d * b
    → k < 4
    → suc k * (d * b) ≤ length payload + (d * b - 1)
    → length payload ≤ suc k * (d * b)
    → (bs : List Bytes) × ((split_blocks
            (aligned_block_size b (suc k) (length payload))
            payload
            (suc k)
            (suc k)
            0
          ≡ some bs)
        × ((concat bs ≡ payload) × (Fits (d * b) bs × (length bs ≡ suc k))))
split_in b d payload k wide room few over under =
    let s = length payload in
    let u = s / suc k in
    let (u_low, u_high) = block_size_lem s (suc k) (omega arith) in
    let (a_low, a_high) = round_up_lem u b (omega arith) in
    let a = aligned_block_size b (suc k) s in
    let small : u ≤ d * b = le_of_mul-le-mul_right {k = suc k} (omega arith) (omega arith) in
    let exact = round_up_fits u d b (omega arith) small in
    let start = block_start s b (d * b) u a wide room a_low a_high k few u_low over in
    let end = block_end s b (d * b) u a wide room a_low a_high k few u_high under exact in
    let (bs, (e, (joined, (fit, n)))) =
      split_blocks_lem a (d * b) (suc k) payload k 0 (omega arith) (omega arith) (omega arith)
        (exact_le a b (d * b) exact) in
    (bs, (e, (joined ∙ drop_nothing a payload, (fit, n))))

fec_blocks_few :
    (b pct : ℕ) (payload : Bytes) (n : ℕ) (bs : List Bytes)
    → blocks_for b pct (length payload) ≡ n
    → n ≤ 4
    → split_blocks (aligned_block_size b n (length payload)) payload n n 0 ≡ some bs
    → fec_blocks b pct payload ≡ (pct, some bs)
unfolding fec_blocks
fec_blocks_few b pct payload n bs count few e =
    let enough : ltb 4 n ≡ false = ground arith in rw (count, enough, e) refl

-- `fec_blocks` for a frame of at least one byte, blocks of at least four bytes and a percentage up
-- to the 255 that the configuration allows, where four blocks suffice: FEC stays on, no `substr`
-- throws, and the blocks joined are the frame, at most four, each no larger than FEC can protect.
pub fec_blocks-Fits :
    (b pct : ℕ) (payload : Bytes)
    → 4 ≤ b
    → pct ≤ 255
    → 0 < length payload
    → blocks_for b pct (length payload) ≤ 4
    → (bs : List Bytes) × ((fec_blocks b pct payload ≡ (pct, some bs))
        × ((concat bs ≡ payload) × (Fits (most_at b pct) bs × (length bs ≤ 4))))
unfolding fec_blocks
fec_blocks-Fits b pct payload wide low some_bytes few =
    let m = most_at b pct in
    let s = length payload in
    let wide_most = most_wide b pct low in
    let (k, (count, (over, under))) = wanted_lem s m (omega arith) some_bytes in
    let (bs, (e, (joined, (fit, n)))) =
      split_in b (max_data_shards_per_fec_block pct) payload k wide (omega arith) (omega arith) over
        under in
    let four : suc k ≤ 4 = omega arith in
    (bs, (fec_blocks_few b pct payload (suc k) bs count four e, (joined, (fit, omega arith))))

-- `fec_blocks` for a frame of at least one byte and the same sizes, where four blocks do not
-- suffice: FEC is switched off, and four blocks joined are the frame.
pub fec_blocks_off :
    (b pct : ℕ) (payload : Bytes)
    → 4 ≤ b
    → pct ≤ 255
    → 4 < blocks_for b pct (length payload)
    → (bs : List Bytes) × ((fec_blocks b pct payload ≡ (0, some bs))
        × ((concat bs ≡ payload) × (length bs ≡ 4)))
unfolding fec_blocks
fec_blocks_off b pct payload wide low many =
    let m = most_at b pct in
    let s = length payload in
    let wide_most = most_wide b pct low in
    let large : 4 * m < s = large_lem s m (omega arith) many in
    let (u_low, u_high) = block_size_lem s 4 (omega arith) in
    let (a_low, a_high) = round_up_lem (s / 4) b (omega arith) in
    let a = aligned_block_size b 4 s in
    let (bs, (e, (joined, (fit, n)))) =
      split_blocks_lem a s 4 payload 3 0 (omega arith) (omega arith) (omega arith) (omega arith) in
    let too_many : ltb 4 (blocks_for b pct s) ≡ true = ground arith in
    (bs, (rw (too_many, e) refl, (joined ∙ drop_nothing a payload, n)))
