-- ===== src/Stream/Slices/Inserted.antt =====
-- What `concat_and_insert` of src/stream.cpp builds, and that nothing of its input is lost.
use native.Mathlib.Nat.{mod-lt, div-add-mod'}
use mathlib.Core.List.{append_assoc, append-nil}
use midnight_sun.Prelude.{
  ℕ, zero, suc, ◌+◌, ◌-◌, ◌*◌, ◌/◌, ◌%◌, ◌≤◌, ◌<◌, ◌≡◌, refl, sym, ap, ◌∙◌, ◌⊎◌, false, inl, inr,
  [], ◌++◌, if◌then◌else◌, ltb, ◌==◌, Bool-cases, length, take-append, drop-append, take, drop,
  replicate, length-append, arith,
}
use midnight_sun.Prelude.Maps.{Bytes}
use midnight_sun.Prelude.Segments.{
  overwrite, overwrite-replicate, length-replicate, length-take, length-drop, take-drop, take_all,
  take_past, drop_past, take_within, drop-drop, drop_within,
}
use midnight_sun.Stream.Slices.{elements, copy_slice, insert_loop, concat_and_insert}

-- The data in `k` slices, each behind a gap of zeros.
abbrev pub spaced : ℕ → ℕ → ℕ → Bytes → Bytes
spaced insert_size slice_size zero xs = []
spaced insert_size slice_size (suc k) xs =
    replicate insert_size 0
    ++ take slice_size xs
    ++ spaced insert_size slice_size k (drop slice_size xs)

-- The receiver's view: the first bytes of each packet are skipped.
abbrev pub without_gaps : ℕ → ℕ → ℕ → Bytes → Bytes
without_gaps insert_size slice_size zero xs = []
without_gaps insert_size slice_size (suc k) xs =
    take slice_size (drop insert_size xs)
    ++ without_gaps insert_size slice_size k (drop (insert_size + slice_size) xs)

-- What is left to copy: the rest of both buffers, or, past the first one, of the second.
abbrev OnTrack : Bytes → Bytes → Bytes → Type 0
OnTrack data2 next rest = (next ++ data2 ≡ rest) ⊎ (next ≡ rest)

-- A slice is the front of what is left, wherever it crosses from one buffer into the other.
copy_slice-OnTrack :
    (size : ℕ) (data2 next rest : Bytes)
    → OnTrack data2 next rest
    → size ≤ length rest
    → ((copy_slice size data2 next).0 ≡ take size rest)
      × OnTrack data2 (copy_slice size data2 next).1 (drop size rest)
copy_slice-OnTrack size data2 next rest (inl both) h = elim (Bool-cases (ltb (length next) size)) [
  | inl short ↦
      let split : length next + (size - length next) ≡ size = ground arith in
      rw short (
        sym (take_past next (size - length next) data2) ∙ cc (both, split),
        inr (sym (drop_past next (size - length next) data2) ∙ cc (both, split)),
      )
  | inr enough ↦
      let within : size ≤ length next = ground arith in
      rw enough (
        sym (take_within next size data2 within) ∙ ap (take size) both,
        inl (sym (drop_within next size data2 within) ∙ ap (drop size) both),
      )
]
copy_slice-OnTrack size data2 next rest (inr one) h =
    let enough : ltb (length next) size ≡ false = ground (arith, ap length one) in
    rw enough (ap (take size) one, inr (ap (drop size) one))

module _ (insert_size slice_size data_size n : ℕ) (data2 : Bytes) where
  -- One iteration, given the size that it chooses.
  insert_loop_step :
      (k x : ℕ) (next rest pre : Bytes) (size : ℕ)
      → (if x == n - 1 then data_size - x * slice_size else slice_size) ≡ size
      → OnTrack data2 next rest
      → size ≤ length rest
      → length pre ≡ x * (insert_size + slice_size)
      → (goal : Bytes)
      → ((next' : Bytes)
          → OnTrack data2 next' (drop size rest)
          → insert_loop insert_size slice_size data_size n data2 k (x + 1) next' (
              pre
              ++ (replicate insert_size 0 ++ take size rest)
              ++ replicate (k * insert_size + length (drop size rest)) 0)
            ≡ goal)
      → insert_loop insert_size slice_size data_size n data2
          (suc k)
          x
          next
          (pre ++ replicate (suc k * insert_size + length rest) 0)
        ≡ goal
  unfolding insert_loop
  insert_loop_step k x next rest pre size chosen track h at goal more =
      let (piece, later) = copy_slice-OnTrack size data2 next rest track h in
      let written : overwrite (length pre + insert_size) (take size rest)
            (pre ++ replicate (suc k * insert_size + length rest) 0)
          ≡ pre
            ++ (replicate insert_size 0 ++ take size rest)
            ++ replicate (k * insert_size + length (drop size rest)) 0 =
        ap (λ m. overwrite (length pre + insert_size) (take size rest) (pre ++ replicate m 0))
          (omega (arith, length-take size rest h, length-drop size rest))
        ∙ overwrite-replicate pre (take size rest) insert_size
            (k * insert_size + length (drop size rest)) 0 in
      rw (chosen, piece, sym at, written) (more (copy_slice size data2 next).1 later)

  -- All iterations, with a last one that takes what is left.
  insert_loop_lem :
      (k x : ℕ) (next rest pre : Bytes)
      → OnTrack data2 next rest
      → x + suc k ≡ n
      → k * slice_size < length rest
      → length rest ≤ suc k * slice_size
      → length rest + x * slice_size ≡ data_size
      → length pre ≡ x * (insert_size + slice_size)
      → insert_loop insert_size slice_size data_size n data2
          (suc k)
          x
          next
          (pre ++ replicate (suc k * insert_size + length rest) 0)
        ≡ pre ++ spaced insert_size slice_size (suc k) rest
  unfolding insert_loop
  insert_loop_lem zero x next rest pre track sum low high total at =
      let no_room : 0 * insert_size + length (drop (length rest) rest) ≡ 0 =
        omega (arith, length-drop (length rest) rest) in
      insert_loop_step zero x next rest pre (length rest) (ground arith) track (omega arith) at
        (pre ++ spaced insert_size slice_size 1 rest)
        λ next' later.
          ap (λ m. pre ++ (replicate insert_size 0 ++ take (length rest) rest) ++ replicate m 0)
            no_room
          ∙ append-nil (pre ++ (replicate insert_size 0 ++ take (length rest) rest))
          ∙ ap (λ l. pre ++ (replicate insert_size 0 ++ l))
              (take_all (length rest) rest (omega arith)
                ∙ sym (take_all slice_size rest (omega arith)))
          ∙ ap (λ l. pre ++ l) (sym (append-nil (replicate insert_size 0 ++ take slice_size rest)))
  insert_loop_lem (suc k) x next rest pre track sum low high total at =
      let h : slice_size ≤ length rest = omega arith in
      let taken = length-take slice_size rest h in
      let left = length-drop slice_size rest in
      let gap : Bytes = replicate insert_size 0 in
      let gaps : length gap ≡ insert_size = length-replicate insert_size 0 in
      let piece = gap ++ take slice_size rest in
      insert_loop_step (suc k) x next rest pre slice_size (ground arith) track h at
        (pre ++ spaced insert_size slice_size (suc (suc k)) rest)
        λ next' later.
          insert_loop_lem k (x + 1) next' (drop slice_size rest) (pre ++ piece) later (omega arith)
            (omega (arith, left)) (omega (arith, left)) (omega (arith, left))
            (omega (
              arith,
              taken,
              at,
              gaps,
              length-append pre piece,
              length-append gap (take slice_size rest),
            ))
          ∙ append_assoc pre piece (spaced insert_size slice_size (suc k) (drop slice_size rest))

quotient_bounds :
    (slice_size n q r : ℕ)
    → q * slice_size + r ≡ n
    → r < slice_size
    → 0 < n
    → (k : ℕ) × ((q + (if r == 0 then 0 else 1) ≡ suc k)
        × ((k * slice_size < n) × (n ≤ suc k * slice_size)))
quotient_bounds slice_size n q (suc r) e h pos = (q, (ground arith, (omega arith, omega arith)))
quotient_bounds slice_size n zero zero e h pos = absurd (omega arith)
quotient_bounds slice_size n (suc q) zero e h pos = (q, (ground arith, (omega arith, omega arith)))

elements_bounds :
    (slice_size n : ℕ)
    → 0 < slice_size
    → 0 < n
    → (k : ℕ) × ((elements slice_size n ≡ suc k)
        × ((k * slice_size < n) × (n ≤ suc k * slice_size)))
elements_bounds slice_size n s pos =
    quotient_bounds slice_size n (n / slice_size) (n % slice_size) (div-add-mod' n slice_size)
      (mod-lt n s) pos

spaced_lem :
    (insert_size slice_size n : ℕ) (data1 data2 : Bytes)
    → length (data1 ++ data2) ≡ n
    → 0 < slice_size
    → 0 < n
    → insert_loop insert_size slice_size n
        (elements slice_size n)
        data2
        (elements slice_size n)
        0
        data1
        (replicate (elements slice_size n * insert_size + n) 0)
      ≡ spaced insert_size slice_size (elements slice_size n) (data1 ++ data2)
spaced_lem insert_size slice_size n data1 data2 len h pos =
    let (k, (count, (low, high))) = elements_bounds slice_size n h pos in
    rw (count, sym len)
      (insert_loop_lem insert_size slice_size (length (data1 ++ data2)) (suc k) data2 k 0 data1
        (data1 ++ data2) [] (inl refl) (omega arith) (omega (arith, len)) (omega (arith, len))
        (omega arith) (omega arith))

-- `concat_and_insert` with a gap of any size, slices of a size above 0 and a first buffer that is not
-- empty: the result is the two buffers joined, cut into slices of the size, the last one perhaps shorter, each behind a gap of zeros.
pub concat_and_insert-spaced :
    (insert_size slice_size : ℕ) (data1 data2 : Bytes)
    → 0 < slice_size
    → 0 < length data1
    → concat_and_insert insert_size slice_size data1 data2
      ≡ spaced insert_size slice_size
          (elements slice_size (length data1 + length data2))
          (data1 ++ data2)
unfolding concat_and_insert
concat_and_insert-spaced insert_size slice_size data1 data2 h pos =
    spaced_lem insert_size slice_size (length data1 + length data2) data1 data2
      (length-append data1 data2) h (omega arith)

-- Behind a gap, and behind a gap with its slice.
after_gap : (n : ℕ) (xs ys : Bytes) → drop n (replicate n 0 ++ xs ++ ys) ≡ xs ++ ys
after_gap n xs ys =
    let gap : Bytes = replicate n 0 in
    let gaps : n ≡ length gap = sym (length-replicate n 0) in
    ap (drop n) (append_assoc gap xs ys)
    ∙ ap (λ k. drop k (gap ++ (xs ++ ys))) gaps
    ∙ drop-append gap (xs ++ ys)

without_gaps-spaced :
    (insert_size slice_size k : ℕ) (xs : Bytes)
    → k * slice_size < length xs
    → length xs ≤ suc k * slice_size
    → without_gaps insert_size slice_size (suc k) (spaced insert_size slice_size (suc k) xs) ≡ xs
without_gaps-spaced insert_size slice_size zero xs low high =
    rw (after_gap insert_size (take slice_size xs) []) (
      ap (λ l. take slice_size (l ++ []) ++ []) (take_all slice_size xs (omega arith))
      ∙ append-nil (take slice_size (xs ++ []))
      ∙ ap (take slice_size) (append-nil xs)
      ∙ take_all slice_size xs (omega arith))
without_gaps-spaced insert_size slice_size (suc k) xs low high =
    let piece = take slice_size xs in
    let later = spaced insert_size slice_size (suc k) (drop slice_size xs) in
    let whole : slice_size ≡ length piece = sym (length-take slice_size xs (omega arith)) in
    let left = length-drop slice_size xs in
    let skip : drop (insert_size + slice_size) (replicate insert_size 0 ++ piece ++ later) ≡ later =
      sym (drop-drop slice_size insert_size (replicate insert_size 0 ++ piece ++ later))
      ∙ ap (drop slice_size) (after_gap insert_size piece later)
      ∙ ap (λ n. drop n (piece ++ later)) whole
      ∙ drop-append piece later in
    let front : take slice_size (piece ++ later) ≡ piece =
      ap (λ n. take n (piece ++ later)) whole ∙ take-append piece later in
    rw
      (
        after_gap insert_size piece later,
        front,
        skip,
        without_gaps-spaced insert_size slice_size k (drop slice_size xs) (omega (arith, left))
            (omega (arith, left)),
      )
      (take-drop slice_size xs)

-- Nothing is lost in `concat_and_insert`: a receiver that skips the gap in front of each slice reads
-- the first buffer, which has at least one byte, and then the second one.
pub without_gaps-concat_and_insert :
    (insert_size slice_size : ℕ) (data1 data2 : Bytes)
    → 0 < slice_size
    → 0 < length data1
    → without_gaps insert_size slice_size
        (elements slice_size (length data1 + length data2))
        (concat_and_insert insert_size slice_size data1 data2)
      ≡ data1 ++ data2
without_gaps-concat_and_insert insert_size slice_size data1 data2 h pos =
    let total = length-append data1 data2 in
    let (k, (count, (low, high))) =
      elements_bounds slice_size (length data1 + length data2) h (omega arith) in
    rw (concat_and_insert-spaced insert_size slice_size data1 data2 h pos, count)
      (without_gaps-spaced insert_size slice_size k (data1 ++ data2) (omega arith) (omega arith))
