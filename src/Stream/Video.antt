-- ===== src/Stream/Video.antt =====
-- src/stream.cpp: what `videoBroadcastThread` makes of one frame. The structures of the protocol come
-- from the library moonlight-common-c, so their sizes are parameters; a byte of flags is a record of
-- Booleans.
use midnight_sun.Prelude.{
  ℕ, zero, suc, ◌+◌, ◌-◌, ◌*◌, ◌/◌, ◌%◌, ◌^◌, Bool, true, false, not, ◌&&◌, ◌||◌, Option, none,
  some, List, [], ◌∷◌, ◌++◌, if◌then◌else◌, ltb, leb, ◌==◌, length, take,
}
use midnight_sun.Prelude.Maps.{Bytes}
use midnight_sun.Prelude.Bits.{or32, bit_or}
use midnight_sun.Stream.Slices.{replace}
use midnight_sun.Stream.Fec.{Fec, encode}
pub mod Numbers
pub mod Info
pub mod Batches

-- The value of `lastPayloadLen`, a field of 16 bits.
unfoldable pub last_payload_len : ℕ → ℕ → ℕ → ℕ → ℕ
last_payload_len header_size nv_size packetsize payload_size =
    let room = packetsize - nv_size in
    let len = (payload_size + header_size) % room % 2 ^ 16 in
    if len == 0 then room % 2 ^ 16 else len

-- `frameType`
unfoldable pub frame_type : Bool → Bool → ℕ
frame_type is_idr after_ref_frame_invalidation =
    if is_idr then 2 else if after_ref_frame_invalidation then 5 else 1

-- The replacements of a packet, applied in order to a frame that starts a sequence.
pub apply_replacements : List (Bytes × Bytes) → Bytes → Option Bytes
apply_replacements [] payload = some payload
apply_replacements ((old, new) ∷ rs) payload = elim (replace payload old new) [
  | none ↦ none
  | some payload' ↦ apply_replacements rs payload'
]

unfoldable pub replaced_payload : Bool → Option (List (Bytes × Bytes)) → Bytes → Option Bytes
unfolding apply_replacements
replaced_payload true (some rs) payload = apply_replacements rs payload
replaced_payload _ _ payload = some payload

-- What is written into the header of a data packet before it is encoded.
pub record DataHeader : Type 0 where
  pub stream_packet_index : ℕ
  pub contains_pic_data : Bool
  pub sof : Bool
  pub eof : Bool

-- What is written into the header of every shard; `iv` is the counter that it is encrypted with.
pub record ShardHeader : Type 0 where
  pub fec_info : ℕ
  pub sequence_number : ℕ
  pub multi_fec_blocks : ℕ
  pub frame_index : ℕ
  pub iv : Option ℕ

abbrev pub count_packets : ℕ → Bytes → ℕ
count_packets blocksize block = (length block + (blocksize - 1)) / blocksize

-- The loop over the packets of a block from `x` on, of which `k` are left.
unfoldable pub data_headers : ℕ → ℕ → ℕ → ℕ → List DataHeader
data_headers lowseq packets zero x = []
data_headers lowseq packets (suc k) x =
    record {
      stream_packet_index = (lowseq % 2 ^ 32 + x) % 2 ^ 32 * 2 ^ 8 % 2 ^ 32;
      contains_pic_data = true;
      sof = x == 0;
      eof = x == packets - 1;
    }
    ∷ data_headers lowseq packets k (x + 1)

abbrev pub fec_info : ℕ → ℕ → ℕ → ℕ
fec_info x data_shards percentage =
    or32 (or32 (x * 2 ^ 12) (data_shards * 2 ^ 22)) (percentage * 2 ^ 4) % 2 ^ 32

-- A byte: the number of the block, and how many there are less one.
abbrev pub multi_fec_blocks : ℕ → ℕ → ℕ
multi_fec_blocks block_index needed = or32 (block_index * 2 ^ 4) ((needed - 1) * 2 ^ 6) % 2 ^ 8

-- `session->video`: the first sequence number of the next block, and the counter of the cipher.
pub record Video : Type 0 where
  pub lowseq : ℕ  -- the 32 bits of an int
  pub gcm_iv_counter : ℕ  -- std::uint64_t

-- The parts of a frame that go into the headers of its shards.
pub record Frame : Type 0 where
  pub index : ℕ
  pub encrypted : Bool
  pub percentage : ℕ  -- `fecPercentage`, 0 for a frame that is too large
  pub needed : ℕ  -- `fec_blocks_needed`
  pub blocks : List Bytes  -- `fec_blocks`
  -- after how many shards an exception ends the sending, if one does
  pub broken : Option ℕ

-- The loop over the shards of a block from `x` on, of which `k` are left, and the counter after it.
unfoldable pub shard_headers : Frame → ℕ → ℕ → Fec → ℕ → ℕ → ℕ → List ShardHeader × ℕ
shard_headers frame block_index lowseq shards zero x counter = ([], counter)
shard_headers frame block_index lowseq shards (suc k) x counter =
    let counter' = if frame.encrypted then (counter + 1) % 2 ^ 64 else counter in
    let (rest, last) = shard_headers frame block_index lowseq shards k (x + 1) counter' in
    (
      record {
        fec_info = fec_info x shards.data_shards shards.percentage;
        sequence_number = (lowseq + x) % 2 ^ 16;
        multi_fec_blocks = multi_fec_blocks block_index frame.needed;
        frame_index = frame.index % 2 ^ 32;
        iv = if frame.encrypted then some counter else none;
      }
          ∷ rest,
      last,
    )

-- `lowseq += shards.size()`, an addition of a size_t to an int that is kept in an int.
abbrev pub add_lowseq : ℕ → ℕ → ℕ
add_lowseq lowseq n = (lowseq + n) % 2 ^ 32

-- What stays of a frame whose sending an exception ends: the shards that have their numbers by then, and
-- the counter behind them. The caught exception leaves `session->video.lowseq` as it was.
abbrev pub stop_at : Option ℕ → Bool → Video → List ShardHeader × Video → List ShardHeader × Video
stop_at none encrypted video run = run
stop_at (some k) encrypted video (sent, next) =
    let begun = take k sent in
    (
      begun,
      record video {
        gcm_iv_counter =
            if encrypted
            then (video.gcm_iv_counter + length begun) % 2 ^ 64
            else video.gcm_iv_counter;
      },
    )

-- The blocks of a frame in turn: the headers that are sent, and the state after them.
module _ (rs : ℕ → ℕ → ℕ → List Bytes → List Bytes) (prefix_size blocksize low : ℕ) where
  unfoldable pub send_blocks : Frame → List Bytes → ℕ → Video → List ShardHeader × Video
  send_blocks frame [] block_index video = ([], video)
  send_blocks frame (block ∷ blocks) block_index video =
      let prefix = if frame.encrypted then prefix_size else 0 in
      let shards = encode rs block blocksize frame.percentage low prefix in
      let (sent, counter) =
        shard_headers frame block_index video.lowseq shards shards.nr_shards 0
          video.gcm_iv_counter in
      let next : Video = record {
        lowseq = add_lowseq video.lowseq shards.nr_shards;
        gcm_iv_counter = counter;
      } in
      let (rest, last) = send_blocks frame blocks (block_index + 1) next in (sent ++ rest, last)

  -- The frames of a session that the thread takes from its queue, one after the other.
  unfoldable pub send_frames : List Frame → Video → List ShardHeader × Video
  unfolding send_blocks
  send_frames [] video = ([], video)
  send_frames (frame ∷ frames) video =
      let (sent, next) =
        stop_at frame.broken frame.encrypted video (send_blocks frame frame.blocks 0 video) in
      let (rest, last) = send_frames frames next in (sent ++ rest, last)

-- How shards are sent in batches. `pace` stands where the thread waits until it is due.
pub data Sent : Type 0 where
  pace : ℕ → Sent
  batch : ℕ → ℕ → Sent

-- `next_shard_to_send`, `ratecontrol_group_packets_sent` and `ratecontrol_frame_packets_sent`
pub record Pacing : Type 0 where
  pub next : ℕ
  pub group : ℕ
  pub frame_sent : ℕ

-- The loop over the shards of a block again: shard `x`, of `n`.
module _ (send_batch_size packets_in_1ms n : ℕ) where
  abbrev pub pace_before : Pacing → List Sent
  pace_before p =
      if leb packets_in_1ms p.group || p.frame_sent == 0 then pace p.frame_sent ∷ [] else []

  abbrev pub group_before : Pacing → ℕ
  group_before p = if leb packets_in_1ms p.group || p.frame_sent == 0 then 0 else p.group

  unfoldable pub send_shards : ℕ → ℕ → Pacing → List Sent × Pacing
  send_shards zero x p = ([], p)
  send_shards (suc k) x p =
      let size = x - p.next + 1 in
      let flush = leb send_batch_size size || x + 1 == n in
      let after : Pacing = record {
        next = x + 1;
        group = group_before p + size;
        frame_sent = p.frame_sent + size;
      } in
      let (rest, last) = send_shards k (x + 1) (if flush then after else p) in
      (if flush then pace_before p ++ (batch p.next size ∷ rest) else rest, last)
