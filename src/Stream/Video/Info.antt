-- ===== src/Stream/Video/Info.antt =====
-- What a client reads out of the headers that `videoBroadcastThread` in src/stream.cpp writes.
use native.Mathlib.Nat.{mod-lt, div-add-mod'}
use midnight_sun.Prelude.{
  ℕ, zero, suc, ◌+◌, ◌-◌, ◌*◌, ◌/◌, ◌%◌, ◌^◌, ◌<◌, ◌≡◌, ap, ◌∙◌, if◌then◌else◌, ◌==◌, false, ◌++◌,
  length, length-append, drop, arith,
}
use midnight_sun.Prelude.Maps.{Bytes}
use midnight_sun.Prelude.Bits.{or32, bit_or_add, bit_or_comm}
use midnight_sun.Prelude.Segments.{length-drop}
use midnight_sun.Stream.Slices.{elements}
use midnight_sun.Stream.Video.{fec_info, last_payload_len}

fec_info_sum :
    (x d p : ℕ)
    → x < 2 ^ 10
    → d < 2 ^ 10
    → p < 2 ^ 8
    → fec_info x d p ≡ p * 2 ^ 4 + (x + d * 2 ^ 10) * 2 ^ 12
fec_info_sum x d p hx hd hp =
    let inner : or32 (x * 2 ^ 12) (d * 2 ^ 22) ≡ x * 2 ^ 12 + d * 2 ^ 22 =
      bit_or_add 32 22 (x * 2 ^ 12) d (omega arith) (omega arith) (omega arith) in
    let joined : x * 2 ^ 12 + d * 2 ^ 22 ≡ (x + d * 2 ^ 10) * 2 ^ 12 = omega arith in
    let outer : or32 ((x + d * 2 ^ 10) * 2 ^ 12) (p * 2 ^ 4)
        ≡ p * 2 ^ 4 + (x + d * 2 ^ 10) * 2 ^ 12 =
      bit_or_comm 32 ((x + d * 2 ^ 10) * 2 ^ 12) (p * 2 ^ 4)
      ∙ bit_or_add 32 12 (p * 2 ^ 4) (x + d * 2 ^ 10) (omega arith) (omega arith) (omega arith) in
    ap (λ n. or32 n (p * 2 ^ 4) % 2 ^ 32) (inner ∙ joined)
    ∙ ap (λ n. n % 2 ^ 32) outer
    ∙ omega arith

-- `fec_info` of an index and a number of data shards below 1024 and a percentage below 256: a client
-- that takes the fields apart, ten bits from 22, ten from 12 and eight from 4, gets them back.
pub fec_info_fields :
    (x d p : ℕ)
    → x < 2 ^ 10
    → d < 2 ^ 10
    → p < 2 ^ 8
    → (fec_info x d p / 2 ^ 22 ≡ d)
      × ((fec_info x d p / 2 ^ 12 % 2 ^ 10 ≡ x) × (fec_info x d p / 2 ^ 4 % 2 ^ 8 ≡ p))
fec_info_fields x d p hx hd hp =
    rw (fec_info_sum x d p hx hd hp) (omega arith, (omega arith, omega arith))

last_slice :
    (n room : ℕ)
    → 0 < n
    → 0 < room
    → room < 2 ^ 16
    → n - (elements room n - 1) * room
      ≡ (if n % room % 2 ^ 16 == 0 then room % 2 ^ 16 else n % room % 2 ^ 16)
last_slice n room some_bytes pos small =
    go (n / room) (n % room) (div-add-mod' n room) (mod-lt n pos)
  where
    go :
        (q r : ℕ)
        → q * room + r ≡ n
        → r < room
        → n - (q + (if r == 0 then 0 else 1) - 1) * room
          ≡ (if r % 2 ^ 16 == 0 then room % 2 ^ 16 else r % 2 ^ 16)
    go zero zero e h = absurd (omega arith)
    go (suc q) zero e h =
        let before : suc q + 0 - 1 ≡ q = omega arith in ap (λ k. n - k * room) before ∙ omega arith
    go q (suc r) e h =
        let before : q + (if suc r == 0 then 0 else 1) - 1 ≡ q = ground arith in
        let more : (suc r % 2 ^ 16 == 0) ≡ false = ground arith in rw (before, more) (omega arith)

-- `last_payload_len` where the space for RTP headers that the block size counts is that of an RTP
-- header and the reserved bytes: it is the length of the last slice that `concat_and_insert` copies
-- of the frame header, at least a byte, and the payload, with slices of 1 to 65535 bytes.
pub last_payload_len_lem :
    (header payload : Bytes) (packetsize nv_size rtp_size reserved max_rtp : ℕ)
    → max_rtp ≡ rtp_size + reserved
    → nv_size < packetsize
    → packetsize < 2 ^ 16
    → 0 < length header
    → let slice_size = packetsize + max_rtp - (rtp_size + reserved + nv_size) in
      let xs = header ++ payload in
      length (drop ((elements slice_size (length xs) - 1) * slice_size) xs)
      ≡ last_payload_len (length header) nv_size packetsize (length payload)
unfolding last_payload_len
last_payload_len_lem header payload packetsize nv_size rtp_size reserved max_rtp e wide small pos =
    let size : length payload + length header ≡ length (header ++ payload) =
      omega (arith, length-append header payload) in
    let room : packetsize + max_rtp - (rtp_size + reserved + nv_size) ≡ packetsize - nv_size =
      omega arith in
    rw (room, size)
      (length-drop
          ((elements (packetsize - nv_size) (length (header ++ payload)) - 1)
            * (packetsize - nv_size))
          (header ++ payload)
        ∙ last_slice (length (header ++ payload)) (packetsize - nv_size) (omega arith) (omega arith)
            (omega arith))
