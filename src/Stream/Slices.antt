-- ===== src/Stream/Slices.antt =====
-- src/stream.cpp: `concat_and_insert` and `replace`. A buffer is a list of bytes.
use midnight_sun.Prelude.{
  ℕ, zero, suc, ◌+◌, ◌-◌, ◌*◌, ◌/◌, ◌%◌, Bool, true, false, not, ◌&&◌, Option, none, some, List, [],
  ◌∷◌, ◌++◌, if◌then◌else◌, ltb, ◌==◌, length, take, drop, replicate,
}
use midnight_sun.Prelude.Maps.{Bytes, eq_bytes}
use midnight_sun.Prelude.Segments.{overwrite}
pub mod Inserted
pub mod Replaced

-- The number of slices, the last one perhaps shorter.
abbrev pub elements : ℕ → ℕ → ℕ
elements slice_size data_size =
    data_size / slice_size + (if data_size % slice_size == 0 then 0 else 1)

-- The slice that starts at `next` and the next `next`. `next` stands for the bytes from it to
-- `end`; where they do not suffice, the rest is taken from the second buffer.
abbrev pub copy_slice : ℕ → Bytes → Bytes → Bytes × Bytes
copy_slice slice_size data2 next =
    if ltb (length next) slice_size
    then (next ++ take (slice_size - length next) data2, drop (slice_size - length next) data2)
    else (take slice_size next, drop slice_size next)

-- The iterations from `x` on, of which `k` are left.
pub insert_loop : ℕ → ℕ → ℕ → ℕ → Bytes → ℕ → ℕ → Bytes → Bytes → Bytes
insert_loop insert_size slice_size data_size n data2 zero x next result = result
insert_loop insert_size slice_size data_size n data2 (suc k) x next result =
    let p = x * (insert_size + slice_size) in
    let size = if x == n - 1 then data_size - x * slice_size else slice_size in
    let (piece, next') = copy_slice size data2 next in
    insert_loop insert_size slice_size data_size n data2 k (x + 1) next'
      (overwrite (p + insert_size) piece result)

unfoldable pub concat_and_insert : ℕ → ℕ → Bytes → Bytes → Bytes
unfolding insert_loop
concat_and_insert insert_size slice_size data1 data2 =
    let data_size = length data1 + length data2 in
    let n = elements slice_size data_size in
    insert_loop insert_size slice_size data_size n data2 n 0 data1
      (replicate (n * insert_size + data_size) 0)

-- `std::search`: the part before the first place where `old` stands, and the part from there on.
abbrev pub starts_with : Bytes → Bytes → Bool
starts_with old xs = eq_bytes (take (length old) xs) old

abbrev pub search : Bytes → Bytes → Bytes × Bytes
search old [] = ([], [])
search old (x ∷ xs) =
    let later = search old xs in
    if starts_with old (x ∷ xs) then ([], x ∷ xs) else (x ∷ later.0, later.1)

abbrev pub is_end : Bytes → Bool
is_end [] = true
is_end (x ∷ xs) = false

-- `reserve` throws where the size that it is asked for falls below 0.
unfoldable pub replace : Bytes → Bytes → Bytes → Option Bytes
replace original old new =
    let (begin, next) = search old original in
    if ltb (length original + length new) (length old)
    then none
    else some (if is_end next then begin else begin ++ new ++ drop (length old) next)
