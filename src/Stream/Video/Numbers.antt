-- ===== src/Stream/Video/Numbers.antt =====
-- The numbers that `videoBroadcastThread` in src/stream.cpp gives to the shards of a frame.
use native.Mathlib.Nat.{mod-add-mod}
use mathlib.Core.List.{map-append}
use midnight_sun.Prelude.{
  All, ℕ, zero, suc, ◌+◌, ◌%◌, ◌^◌, ◌<◌, ◌≡◌, refl, sym, ap, ◌∙◌, Bool, true, false, Option, none,
  some, take, List, [], ◌∷◌, ◌++◌, map, if◌then◌else◌, length, length-append, arith,
}
use midnight_sun.Prelude.Maps.{Bytes}
use midnight_sun.Stream.Fec.{Fec, encode}
use midnight_sun.Stream.Video.{
  ShardHeader, Video, Frame, shard_headers, send_blocks, send_frames, add_lowseq, stop_at,
}

-- `n` numbers from `start` on, as they stand in a field that wraps at `size`.
abbrev pub wrapping : ℕ → ℕ → ℕ → List ℕ
wrapping size start zero = []
wrapping size start (suc n) = start % size ∷ wrapping size (start + 1) n

wrapping-append :
    (size start m n : ℕ)
    → wrapping size start (m + n) ≡ wrapping size start m ++ wrapping size (start + m) n
wrapping-append size start zero n =
    let (count, same) : (0 + n ≡ n) × (start ≡ start + 0) = (omega arith, omega arith) in
    ap (wrapping size start) count ∙ ap (λ s. wrapping size s n) same
wrapping-append size start (suc m) n =
    let count : suc m + n ≡ suc (m + n) = omega arith in
    let same : start + 1 + m ≡ start + suc m = omega arith in
    ap (wrapping size start) count
    ∙ ap (λ l. start % size ∷ l)
        (wrapping-append size (start + 1) m n
          ∙ ap (λ s. wrapping size (start + 1) m ++ wrapping size s n) same)

wrapping_cong : (size s t n : ℕ) → s % size ≡ t % size → wrapping size s n ≡ wrapping size t n
wrapping_cong size s t zero e = refl
wrapping_cong size s t (suc n) e =
    let next : (s + 1) % size ≡ (t + 1) % size =
      sym (mod-add-mod s size 1) ∙ ap (λ r. (r + 1) % size) e ∙ mod-add-mod t size 1 in
    cc (e, wrapping_cong size (s + 1) (t + 1) n next)

abbrev pub sequence_numbers : List ShardHeader → List ℕ
sequence_numbers hs = map (λ (h : ShardHeader). h.sequence_number) hs

-- The counters that the shards are encrypted with.
abbrev pub ivs : List ShardHeader → List (Option ℕ)
ivs hs = map (λ (h : ShardHeader). h.iv) hs

module _ (frame : Frame) (block_index lowseq : ℕ) (shards : Fec) where
  sequence_numbers-shard_headers :
      (k x counter : ℕ)
      → (sequence_numbers (shard_headers frame block_index lowseq shards k x counter).0
          ≡ wrapping (2 ^ 16) (lowseq + x) k)
        × (length (shard_headers frame block_index lowseq shards k x counter).0 ≡ k)
  unfolding shard_headers
  sequence_numbers-shard_headers zero x counter = (refl, refl)
  sequence_numbers-shard_headers (suc k) x counter =
      let counter' = if frame.encrypted then (counter + 1) % 2 ^ 64 else counter in
      let (numbers, count) = sequence_numbers-shard_headers k (x + 1) counter' in
      let same : lowseq + (x + 1) ≡ lowseq + x + 1 = omega arith in
      (
        ap (λ l. (lowseq + x) % 65536 ∷ l) (numbers ∙ ap (λ s. wrapping (2 ^ 16) s k) same),
        ap suc count,
      )

  ivs-shard_headers :
      (k x counter : ℕ)
      → frame.encrypted ≡ true
      → counter < 2 ^ 64
      → (ivs (shard_headers frame block_index lowseq shards k x counter).0
          ≡ map some (wrapping (2 ^ 64) counter k))
        × ((shard_headers frame block_index lowseq shards k x counter).1 ≡ (counter + k) % 2 ^ 64)
  unfolding shard_headers
  ivs-shard_headers zero x counter on low = (refl, ground arith)
  ivs-shard_headers (suc k) x counter on low =
      let (counters, last) =
        ivs-shard_headers k (x + 1) ((counter + 1) % 2 ^ 64) on (omega arith) in
      let small : counter ≡ counter % 2 ^ 64 = omega arith in
      let next : wrapping (2 ^ 64) ((counter + 1) % 2 ^ 64) k ≡ wrapping (2 ^ 64) (counter + 1) k =
        wrapping_cong (2 ^ 64) ((counter + 1) % 2 ^ 64) (counter + 1) k (omega arith) in
      rw on (
        ap (λ l. some counter ∷ l) (counters ∙ ap (map some) next)
            ∙ ap (λ c. some c ∷ map some (wrapping (2 ^ 64) (counter + 1) k)) small,
        last ∙ omega arith,
      )

-- Headers that carry the sequence numbers from one on, and counters from one on.
abbrev pub Numbered : ℕ → List ShardHeader → Type 0
Numbered start hs = sequence_numbers hs ≡ wrapping (2 ^ 16) start (length hs)

abbrev pub Encrypted : ℕ → List ShardHeader → Type 0
Encrypted start hs = ivs hs ≡ map some (wrapping (2 ^ 64) start (length hs))

Numbered-append :
    (start : ℕ) (xs ys : List ShardHeader)
    → Numbered start xs
    → Numbered (start + length xs) ys
    → Numbered start (xs ++ ys)
Numbered-append start xs ys a b =
    map-append (λ (h : ShardHeader). h.sequence_number) xs ys
    ∙ cc (a, b)
    ∙ sym (wrapping-append (2 ^ 16) start (length xs) (length ys))
    ∙ ap (wrapping (2 ^ 16) start) (sym (length-append xs ys))

Encrypted-append :
    (start : ℕ) (xs ys : List ShardHeader)
    → Encrypted start xs
    → Encrypted (start + length xs) ys
    → Encrypted start (xs ++ ys)
Encrypted-append start xs ys a b =
    map-append (λ (h : ShardHeader). h.iv) xs ys
    ∙ cc (a, b)
    ∙ sym (
        map-append some (wrapping (2 ^ 64) start (length xs))
          (wrapping (2 ^ 64) (start + length xs) (length ys)))
    ∙ ap (map some) (
        sym (wrapping-append (2 ^ 64) start (length xs) (length ys))
        ∙ ap (wrapping (2 ^ 64) start) (sym (length-append xs ys)))

-- What a run of sends from a state does: the headers, and the state after it.
abbrev pub IsNumbered : Video → List ShardHeader × Video → Type 0
IsNumbered video run =
    Numbered video.lowseq run.0 × (run.1.lowseq ≡ (video.lowseq + length run.0) % 2 ^ 32)

abbrev pub IsEncrypted : Video → List ShardHeader × Video → Type 0
IsEncrypted video run =
    Encrypted video.gcm_iv_counter run.0
    × (run.1.gcm_iv_counter ≡ (video.gcm_iv_counter + length run.0) % 2 ^ 64)

IsNumbered-append :
    (video next last : Video) (xs ys : List ShardHeader)
    → IsNumbered video (xs, next)
    → IsNumbered next (ys, last)
    → IsNumbered video (xs ++ ys, last)
IsNumbered-append video next last xs ys (a, e) (b, f) =
    let start = video.lowseq + length xs in
    let same : wrapping (2 ^ 16) next.lowseq (length ys) ≡ wrapping (2 ^ 16) start (length ys) =
      wrapping_cong (2 ^ 16) next.lowseq start (length ys) (omega arith) in
    (Numbered-append video.lowseq xs ys a (b ∙ same), omega (arith, length-append xs ys))

IsEncrypted-append :
    (video next last : Video) (xs ys : List ShardHeader)
    → IsEncrypted video (xs, next)
    → IsEncrypted next (ys, last)
    → IsEncrypted video (xs ++ ys, last)
IsEncrypted-append video next last xs ys (a, e) (b, f) =
    let start = video.gcm_iv_counter + length xs in
    let same : wrapping (2 ^ 64) next.gcm_iv_counter (length ys)
        ≡ wrapping (2 ^ 64) start (length ys) =
      wrapping_cong (2 ^ 64) next.gcm_iv_counter start (length ys) (omega arith) in
    (
      Encrypted-append video.gcm_iv_counter xs ys a (b ∙ ap (map some) same),
      omega (arith, length-append xs ys),
    )

Encrypted-take :
    (k start : ℕ) (hs : List ShardHeader) → Encrypted start hs → Encrypted start (take k hs)
Encrypted-take zero start hs e = refl
Encrypted-take (suc k) start [] e = refl
Encrypted-take (suc k) start (h ∷ hs) e =
    let here : h.iv ≡ some (start % 2 ^ 64) = cc e in
    let rest : Encrypted (start + 1) hs = cc e in cc (here, Encrypted-take k (start + 1) hs rest)

-- An exception takes away shards at the end only, and the counter stands behind those that remain.
stop_at-IsEncrypted :
    (o : Option ℕ) (encrypted : Bool) (video : Video) (run : List ShardHeader × Video)
    → encrypted ≡ true
    → IsEncrypted video run
    → IsEncrypted video (stop_at o encrypted video run)
stop_at-IsEncrypted none encrypted video run on e = e
stop_at-IsEncrypted (some k) true video run on e =
    (Encrypted-take k video.gcm_iv_counter run.0 e.0, refl)
stop_at-IsEncrypted (some k) false video run on e = absurd (cc on)

stop_at-IsNumbered :
    (o : Option ℕ) (encrypted : Bool) (video : Video) (run : List ShardHeader × Video)
    → o ≡ none
    → IsNumbered video run
    → IsNumbered video (stop_at o encrypted video run)
stop_at-IsNumbered none encrypted video run whole e = e
stop_at-IsNumbered (some k) encrypted video run whole e = absurd (cc whole)

module _ (rs : ℕ → ℕ → ℕ → List Bytes → List Bytes) (prefix_size blocksize low : ℕ) where
  abbrev blocks_from : Frame → List Bytes → ℕ → Video → List ShardHeader × Video
  blocks_from = send_blocks rs prefix_size blocksize low

  send_blocks-IsNumbered :
      (frame : Frame) (blocks : List Bytes) (block_index : ℕ) (video : Video)
      → video.lowseq < 2 ^ 32
      → IsNumbered video (blocks_from frame blocks block_index video)
  unfolding send_blocks
  send_blocks-IsNumbered frame [] block_index video small = (refl, omega arith)
  send_blocks-IsNumbered frame (block ∷ blocks) block_index video small =
      let shards =
        encode rs block blocksize frame.percentage low
          (if frame.encrypted then prefix_size else 0) in
      let sent =
        shard_headers frame block_index video.lowseq shards shards.nr_shards 0
          video.gcm_iv_counter in
      let (numbers, count) =
        sequence_numbers-shard_headers frame block_index video.lowseq shards shards.nr_shards 0
          video.gcm_iv_counter in
      let next : Video = record {
        lowseq = add_lowseq video.lowseq shards.nr_shards;
        gcm_iv_counter = sent.1;
      } in
      let start : video.lowseq + 0 ≡ video.lowseq = omega arith in
      IsNumbered-append video next (blocks_from frame blocks (block_index + 1) next).1 sent.0
        (blocks_from frame blocks (block_index + 1) next).0
        (numbers ∙ cc (start, count), ap (λ n. (video.lowseq + n) % 2 ^ 32) (sym count))
        (send_blocks-IsNumbered frame blocks (block_index + 1) next (omega arith))

  send_blocks-IsEncrypted :
      (frame : Frame) (blocks : List Bytes) (block_index : ℕ) (video : Video)
      → frame.encrypted ≡ true
      → video.gcm_iv_counter < 2 ^ 64
      → IsEncrypted video (blocks_from frame blocks block_index video)
  unfolding send_blocks
  send_blocks-IsEncrypted frame [] block_index video on small = (refl, omega arith)
  send_blocks-IsEncrypted frame (block ∷ blocks) block_index video on small =
      let shards =
        encode rs block blocksize frame.percentage low
          (if frame.encrypted then prefix_size else 0) in
      let sent =
        shard_headers frame block_index video.lowseq shards shards.nr_shards 0
          video.gcm_iv_counter in
      let (numbers, count) =
        sequence_numbers-shard_headers frame block_index video.lowseq shards shards.nr_shards 0
          video.gcm_iv_counter in
      let (counters, last) =
        ivs-shard_headers frame block_index video.lowseq shards shards.nr_shards 0
          video.gcm_iv_counter on small in
      let next : Video = record {
        lowseq = add_lowseq video.lowseq shards.nr_shards;
        gcm_iv_counter = sent.1;
      } in
      IsEncrypted-append video next (blocks_from frame blocks (block_index + 1) next).1 sent.0
        (blocks_from frame blocks (block_index + 1) next).0
        (
          counters ∙ ap (λ n. map some (wrapping (2 ^ 64) video.gcm_iv_counter n)) (sym count),
          last ∙ ap (λ n. (video.gcm_iv_counter + n) % 2 ^ 64) (sym count),
        )
        (send_blocks-IsEncrypted frame blocks (block_index + 1) next on (omega arith))

  abbrev frames_from : List Frame → Video → List ShardHeader × Video
  frames_from = send_frames rs prefix_size blocksize low

  -- The shards that `send_frames` sends of the frames of a session, of any blocks, each with its own FEC
  -- percentage, if no exception ends the sending of a frame and `lowseq` is a value of 32 bits: their RTP
  -- sequence numbers are `lowseq` and the numbers after it, one for each shard, modulo 2^16, and `lowseq`
  -- moves on by their count, modulo 2^32.
  pub send_frames-IsNumbered :
      (frames : List Frame) (video : Video)
      → All (λ (f : Frame). f.broken ≡ none) frames
      → video.lowseq < 2 ^ 32
      → IsNumbered video (send_frames rs prefix_size blocksize low frames video)
  unfolding send_frames
  send_frames-IsNumbered [] video whole small = (refl, omega arith)
  send_frames-IsNumbered (frame ∷ frames) video (all_sent, whole) small =
      let stopped =
        stop_at frame.broken frame.encrypted video (blocks_from frame frame.blocks 0 video) in
      let next = stopped.1 in
      let here =
        stop_at-IsNumbered frame.broken frame.encrypted video
          (blocks_from frame frame.blocks 0 video) all_sent
          (send_blocks-IsNumbered frame frame.blocks 0 video small) in
      IsNumbered-append video next (frames_from frames next).1 stopped.0 (frames_from frames next).0
        here (send_frames-IsNumbered frames next whole (omega (arith, here.1)))

  -- The shards that `send_frames` sends of the encrypted frames of a session, each with its own FEC
  -- percentage, from a counter of 64 bits, wherever exceptions end the sending of frames: each shard is
  -- encrypted with the next counter, the counters run on by one, modulo 2^64, and none is left out or
  -- used again between frames.
  pub send_frames-IsEncrypted :
      (frames : List Frame) (video : Video)
      → All (λ (f : Frame). f.encrypted ≡ true) frames
      → video.gcm_iv_counter < 2 ^ 64
      → IsEncrypted video (send_frames rs prefix_size blocksize low frames video)
  unfolding send_frames
  send_frames-IsEncrypted [] video on small = (refl, omega arith)
  send_frames-IsEncrypted (frame ∷ frames) video (on, more) small =
      let stopped =
        stop_at frame.broken frame.encrypted video (blocks_from frame frame.blocks 0 video) in
      let next = stopped.1 in
      let here =
        stop_at-IsEncrypted frame.broken frame.encrypted video
          (blocks_from frame frame.blocks 0 video) on
          (send_blocks-IsEncrypted frame frame.blocks 0 video on small) in
      IsEncrypted-append video next (frames_from frames next).1 stopped.0
        (frames_from frames next).0 here
        (send_frames-IsEncrypted frames next more (omega (arith, here.1)))
