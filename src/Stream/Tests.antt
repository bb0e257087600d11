-- ===== src/Stream/Tests.antt =====
-- Runs of the definitions of src/stream.cpp, and the theorems about them at concrete inputs.
mod Control
mod Feedback
use midnight_sun.Prelude.{
  ℕ, zero, suc, ◌+◌, ◌-◌, ◌*◌, ◌/◌, ◌%◌, ◌^◌, ◌<◌, ◌≤◌, ◌≡◌, ◌≢◌, refl, sym, ap, ◌∙◌, Bool, true,
  Option, none, some, List, [], ◌∷◌, ◌++◌, map, length, take, drop, replicate, length-append, All,
  arith,
}
use midnight_sun.Prelude.Maps.{Bytes}
use midnight_sun.Prelude.Segments.{length-replicate}
use midnight_sun.Stream.Slices.{concat_and_insert, replace, search}
use midnight_sun.Stream.Slices.Inserted.{
  without_gaps, concat_and_insert-spaced, without_gaps-concat_and_insert,
}
use midnight_sun.Stream.Slices.Replaced.{Absent, replace-found}
use midnight_sun.Stream.Fec.{
  Fec, encode, concat, shard_data, fec_blocks, max_data_shards_per_fec_block, data_shards_max,
}
use midnight_sun.Stream.Fec.Shards.{KeepsSizes, encode_data_shards, encode_payload_buffers}
use midnight_sun.Stream.Fec.Protected.{fec_blocks-encode}
use midnight_sun.Stream.Video.{
  Video, Frame, Sent, pace, batch, Pacing, fec_info, last_payload_len, send_frames, send_shards,
}
use midnight_sun.Stream.Video.Numbers.{
  IsNumbered, IsEncrypted, send_frames-IsNumbered, send_frames-IsEncrypted,
}
use midnight_sun.Stream.Video.Info.{fec_info_fields, last_payload_len_lem}
use midnight_sun.Stream.Video.Batches.{Covers, IsPaced, send_shards_lem}
use midnight_sun.Stream.Audio.{Audio, AudioPacket, fec_packet}

concat_and_insert-spaced_example :
    concat_and_insert 2 3 (1 ∷ 2 ∷ []) (3 ∷ 4 ∷ 5 ∷ []) ≡ 0 ∷ 0 ∷ 1 ∷ 2 ∷ 3 ∷ 0 ∷ 0 ∷ 4 ∷ 5 ∷ []
concat_and_insert-spaced_example =
    concat_and_insert-spaced 2 3 (1 ∷ 2 ∷ []) (3 ∷ 4 ∷ 5 ∷ []) (omega arith) (omega arith)

without_gaps-concat_and_insert_example :
    without_gaps 2 3 2 (concat_and_insert 2 3 (1 ∷ 2 ∷ []) (3 ∷ 4 ∷ 5 ∷ []))
    ≡ 1 ∷ 2 ∷ 3 ∷ 4 ∷ 5 ∷ []
without_gaps-concat_and_insert_example =
    without_gaps-concat_and_insert 2 3 (1 ∷ 2 ∷ []) (3 ∷ 4 ∷ 5 ∷ []) (omega arith) (omega arith)

-- The text 7 8 is replaced by 9 at its first place.
abbrev frame : Bytes
frame = 1 ∷ 7 ∷ 8 ∷ 7 ∷ 8 ∷ []

abbrev old_text : Bytes
old_text = 7 ∷ 8 ∷ []

abbrev new_text : Bytes
new_text = 9 ∷ []

replace_first : replace frame old_text new_text ≡ some (1 ∷ 9 ∷ 7 ∷ 8 ∷ [])
unfolding replace
replace_first = refl

replace_too_long : replace (1 ∷ []) (7 ∷ 8 ∷ 9 ∷ []) (9 ∷ []) ≡ none
unfolding replace
replace_too_long = refl

replace-found_example :
    (before after : Bytes) × ((frame ≡ before ++ old_text ++ after)
      × ((replace frame old_text new_text ≡ some (before ++ new_text ++ after))
          × Absent old_text frame (length before)))
replace-found_example = replace-found frame old_text new_text λ e. cc

-- A code whose parity shards are zeros.
abbrev zero_rs : ℕ → ℕ → ℕ → List Bytes → List Bytes
zero_rs n p b ds = replicate p (replicate b 0)

zero_rs-KeepsSizes : KeepsSizes zero_rs
zero_rs-KeepsSizes n zero b ds = omega arith
zero_rs-KeepsSizes n (suc p) b ds =
    let shard : Bytes = replicate b 0 in
    let size : length shard ≡ b = length-replicate b 0 in
    omega
      (arith, length-append shard (concat (zero_rs n p b ds)), size, zero_rs-KeepsSizes n p b ds)

encode_data_shards_example :
    let fec = encode zero_rs (1 ∷ 2 ∷ 3 ∷ 4 ∷ 5 ∷ []) 2 20 2 0 in
    concat (map (shard_data fec) (take fec.data_shards fec.shards_p))
    ≡ (1 ∷ 2 ∷ 3 ∷ 4 ∷ 5 ∷ []) ++ replicate (fec.data_shards * 2 - 5) 0
encode_data_shards_example =
    encode_data_shards zero_rs (1 ∷ 2 ∷ 3 ∷ 4 ∷ 5 ∷ []) 2 20 2 0 (omega arith)

encode_shards :
    let fec = encode zero_rs (1 ∷ 2 ∷ 3 ∷ 4 ∷ 5 ∷ []) 2 20 2 0 in
    (fec.data_shards ≡ 3) × ((fec.nr_shards ≡ 5) × (fec.percentage ≡ 66))
unfolding encode
encode_shards = (refl, (refl, refl))

encode_payload_buffers_example :
    let fec = encode zero_rs (1 ∷ 2 ∷ 3 ∷ 4 ∷ 5 ∷ []) 2 20 2 0 in
    concat fec.payload_buffers ≡ concat (map (shard_data fec) fec.shards_p)
encode_payload_buffers_example =
    encode_payload_buffers zero_rs (1 ∷ 2 ∷ 3 ∷ 4 ∷ 5 ∷ []) 2 20 2 0 zero_rs-KeepsSizes
      (omega arith)

abbrev small_frame : Bytes
small_frame = replicate 9 1

fec_blocks-encode_example :
    (bs : List Bytes) × ((fec_blocks 4 20 small_frame ≡ (20, some bs))
      × ((concat bs ≡ small_frame)
          × All (λ (xs : Bytes). (encode zero_rs xs 4 20 2 0).nr_shards ≤ data_shards_max) bs))
fec_blocks-encode_example =
    fec_blocks-encode zero_rs 4 20 2 0 small_frame (omega arith) (omega arith) (omega arith)
      (omega arith) (omega arith)

abbrev two_frames : List Frame
two_frames =
    record {
      index = 1;
      encrypted = true;
      percentage = 20;
      needed = 1;
      blocks = small_frame ∷ [];
      broken = none;
    }
    ∷ record {
      index = 2;
      encrypted = true;
      percentage = 0;
      needed = 1;
      blocks = small_frame ∷ [];
      broken = none;
    }
    ∷ []

abbrev fresh_video : Video
fresh_video = record { lowseq = 65534; gcm_iv_counter = 0 }

send_frames-IsNumbered_example :
    IsNumbered fresh_video (send_frames zero_rs 32 4 2 two_frames fresh_video)
send_frames-IsNumbered_example =
    send_frames-IsNumbered zero_rs 32 4 2 two_frames fresh_video (refl, (refl, tt)) (omega arith)

send_frames-IsEncrypted_example :
    IsEncrypted fresh_video (send_frames zero_rs 32 4 2 two_frames fresh_video)
send_frames-IsEncrypted_example =
    send_frames-IsEncrypted zero_rs 32 4 2 two_frames fresh_video (refl, (refl, tt)) (omega arith)

-- Seven shards in batches of three, with a pause after four.
batches_of_three :
    (send_shards 3 4 7 7 0 record { next = 0; group = 0; frame_sent = 0 }).0
    ≡ pace 0 ∷ batch 0 3 ∷ batch 3 3 ∷ pace 6 ∷ batch 6 1 ∷ []
unfolding send_shards
batches_of_three = refl

send_shards_lem_example :
    let es = (send_shards 3 4 7 7 0 record { next = 0; group = 0; frame_sent = 0 }).0 in
    Covers 3 0 7 es × IsPaced 4 0 es
send_shards_lem_example = send_shards_lem 3 4 7 0 0 (omega arith) (omega arith)

-- The last packet of a block of four, with parity shards that repeat the first packet.
abbrev first_twice : List Bytes → List Bytes
first_twice [] = []
first_twice (s ∷ ss) = s ∷ s ∷ []

abbrev three_packets : List Bytes
three_packets = (1 ∷ []) ∷ (2 ∷ []) ∷ (3 ∷ []) ∷ []

abbrev fourth : Audio
fourth = record {
  sequence_number = 7;
  timestamp = 35;
  shards = (1 ∷ []) ∷ (2 ∷ []) ∷ (3 ∷ []) ∷ (9 ∷ []) ∷ [];
  base_sequence_number = 4;
  base_timestamp = 20;
}
