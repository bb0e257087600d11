-- ===== src/Stream/Audio.antt =====
-- src/stream.cpp: `audioBroadcastThread`. The numbers of data and parity shards of a block, the
-- cipher and the Reed-Solomon code come from libraries and are parameters; the sockets do not throw.
use midnight_sun.Prelude.{
  ℕ, zero, suc, ◌+◌, ◌-◌, ◌%◌, ◌^◌, Bool, true, false, Option, none, some, List, [], ◌∷◌, ◌++◌, map,
  if◌then◌else◌, ◌==◌, length, take, drop, set, get_elem?,
}
use midnight_sun.Prelude.Maps.{Bytes}
pub mod Parity

-- `session->audio`, with the header of the FEC packets and the data shards of `shards_p`.
pub record Audio : Type 0 where
  pub sequence_number : ℕ  -- std::uint16_t
  pub timestamp : ℕ  -- std::uint32_t
  pub shards : List Bytes
  pub base_sequence_number : ℕ
  pub base_timestamp : ℕ

pub data AudioPacket : Type 0 where
  -- sequence number, timestamp, payload
  data_packet : ℕ → ℕ → Bytes → AudioPacket
  -- sequence number, shard index, base sequence number, base timestamp, payload
  fec_packet : ℕ → ℕ → ℕ → ℕ → Bytes → AudioPacket

-- A write to the start of a shard, which keeps what lies behind.
abbrev pub write_shard : Bytes → Bytes → Bytes
write_shard bytes shard = bytes ++ drop (length bytes) shard

abbrev pub shard_or_empty : Option Bytes → Bytes
shard_or_empty none = []
shard_or_empty (some s) = s

-- The loop over the parity shards from `x` on.
abbrev pub fec_packets : ℕ → ℕ → ℕ → ℕ → List Bytes → List AudioPacket
fec_packets sequence base base_time x [] = []
fec_packets sequence base base_time x (s ∷ ss) =
    fec_packet ((sequence + x + 1) % 2 ^ 16) x base base_time s
    ∷ fec_packets sequence base base_time (x + 1) ss

-- `encrypt iv packet` is `cbc.encrypt`, none where it fails; `rs shards` are the parity shards.
module _ (data_shards packet_duration key_id : ℕ) (encrypted : Bool)
    (encrypt : ℕ → Bytes → Option Bytes) (rs : List Bytes → List Bytes) where
  abbrev pub encode_audio : ℕ → Bytes → Option Bytes
  encode_audio iv packet = if encrypted then encrypt iv packet else some packet

  abbrev pub write_packet : Bytes → Audio → Audio
  write_packet bytes audio =
      let slot = sequence_number % data_shards in
      record audio {
        shards = set shards slot (write_shard bytes (shard_or_empty (get_elem? shards slot)));
        sequence_number = (sequence_number + 1) % 2 ^ 16;
        timestamp = (timestamp + packet_duration) % 2 ^ 32;
        base_sequence_number = if slot == 0 then sequence_number else base_sequence_number;
        base_timestamp = if slot == 0 then timestamp else base_timestamp;
      }
    where
      open audio use {sequence_number, timestamp, shards, base_sequence_number, base_timestamp}

  abbrev pub parity_packets : ℕ → ℕ → Audio → List AudioPacket
  parity_packets sequence size audio =
      if (sequence + 1) % data_shards == 0
      then fec_packets sequence audio.base_sequence_number audio.base_timestamp 0
          (rs (map (take size) (take data_shards audio.shards)))
      else []

  -- What follows on the encoding: none where the thread gives up.
  abbrev pub send_encoded : Option Bytes → Audio → Option (Audio × List AudioPacket)
  send_encoded none audio = none
  send_encoded (some bytes) audio =
      let sequence = audio.sequence_number in
      let after = write_packet bytes audio in
      some (
        after,
        data_packet sequence audio.timestamp bytes ∷ parity_packets sequence (length bytes) after,
      )

  unfoldable pub send_packet : Bytes → Audio → Option (Audio × List AudioPacket)
  send_packet packet audio =
      send_encoded (encode_audio ((key_id + audio.sequence_number) % 2 ^ 32) packet) audio
