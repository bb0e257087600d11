-- ===== src/Stream/Audio/Parity.antt =====
-- What the FEC packets of `audioBroadcastThread` in src/stream.cpp protect.
use native.Mathlib.Nat.{
  div-add-mod, mul-add-mod_self_left, mod-eq_of_lt, mod_self, mul-mod_left, zero-mod,
}
use midnight_sun.Prelude.{
  ℕ, ◌+◌, ◌*◌, ◌/◌, ◌%◌, inl, inr, ltb, ltb→lt, Bool-cases, ◌^◌, ◌<◌, ◌≡◌, refl, sym, ap, ◌∙◌, Bool,
  Option, some, List, [], ◌∷◌, ◌++◌, ◌==◌, length, take, drop, set, get_elem?, take-append,
  length-set, subst, false, length-append, arith,
}
use midnight_sun.Prelude.Maps.{Bytes}
use midnight_sun.Stream.Audio.{
  Audio, AudioPacket, data_packet, write_shard, shard_or_empty, send_packet, send_encoded,
  encode_audio, write_packet,
}

-- The shards begin with these payloads, in this order.
abbrev pub Holds : List Bytes → List Bytes → Type 0
Holds [] shards = Unit
Holds (p ∷ ps) [] = ⊥
Holds (p ∷ ps) (s ∷ ss) = (take (length p) s ≡ p) × Holds ps ss

write_shard_lem : (p s : Bytes) → take (length p) (write_shard p s) ≡ p
write_shard_lem p s = take-append p (drop (length p) s)

Holds-set :
    (ps shards : List Bytes) (p : Bytes)
    → Holds ps shards
    → length ps < length shards
    → Holds
        (ps ++ (p ∷ []))
        (set shards (length ps) (write_shard p (shard_or_empty (get_elem? shards (length ps)))))
Holds-set [] [] p holds h = absurd (omega arith)
Holds-set [] (s ∷ ss) p holds h = (write_shard_lem p s, tt)
Holds-set (q ∷ ps) [] p holds h = elim holds [ ]
Holds-set (q ∷ ps) (s ∷ ss) p (here, holds) h = (here, Holds-set ps ss p holds (omega arith))

-- Between two packets: the shards of the block hold its packets so far, and the FEC header names
-- the first of them.
pub record InBlock (data_shards : ℕ) (block : List Bytes) (audio : Audio) : Type 0 where
  pub in_range : audio.sequence_number < 2 ^ 16
  pub room : length audio.shards ≡ data_shards
  pub position : length block ≡ audio.sequence_number % data_shards
  pub holds : Holds block audio.shards
  pub base : 0 < length block → audio.base_sequence_number + length block ≡ audio.sequence_number

-- The place in a block after one more packet, where the sequence numbers wrap between blocks.
next_position :
    (d c s : ℕ)
    → 2 ^ 16 ≡ c * d
    → 0 < d
    → s < 2 ^ 16
    → ((s % d + 1 < d → (s + 1) % 2 ^ 16 % d ≡ s % d + 1)
        × (s % d + 1 ≡ d → ((s + 1) % 2 ^ 16 % d ≡ 0) × ((s + 1) % d ≡ 0)))
      × (s % d + 1 < d → (s + 1) % d ≡ s % d + 1)
next_position d c s whole pos low =
    let split : s + 1 ≡ d * (s / d) + (s % d + 1) = omega (arith, div-add-mod s d) in
    let plain : (s + 1) % d ≡ (s % d + 1) % d =
      ap (λ n. n % d) split ∙ mul-add-mod_self_left d (s / d) (s % d + 1) in
    let wrapped : (s + 1) % 2 ^ 16 % d ≡ (s + 1) % d = elim (Bool-cases (ltb (s + 1) (2 ^ 16))) [
      | inl e ↦ ap (λ n. n % d) (mod-eq_of_lt (ltb→lt (s + 1) (2 ^ 16) e))
      | inr e ↦
          let top : s + 1 ≡ c * d = ground arith in
          let zeroed : (s + 1) % 2 ^ 16 ≡ 0 = omega arith in
          ap (λ n. n % d) zeroed ∙ zero-mod d ∙ sym (mul-mod_left c d) ∙ ap (λ n. n % d) (sym top)
    ] in
    (
      (
        λ h. wrapped ∙ plain ∙ mod-eq_of_lt h,
        λ h. (
          wrapped ∙ plain ∙ ap (λ n. n % d) h ∙ mod_self d,
          plain ∙ ap (λ n. n % d) h ∙ mod_self d,
        ),
      ),
      λ h. plain ∙ mod-eq_of_lt h,
    )

no_wrap : (d c s : ℕ) → 2 ^ 16 ≡ c * d → 0 < d → s < 2 ^ 16 → s % d + 1 < d → s + 1 < 2 ^ 16
no_wrap d c s whole pos low h = elim (Bool-cases (ltb (s + 1) (2 ^ 16))) [
  | inl e ↦ ltb→lt (s + 1) (2 ^ 16) e
  | inr e ↦
      let zeroed : (s + 1) % 2 ^ 16 ≡ 0 = ground arith in
      let back : 0 ≡ s % d + 1 =
        sym (zero-mod d)
        ∙ ap (λ n. n % d) (sym zeroed)
        ∙ (next_position d c s whole pos low).0.0 h in
      absurd (omega arith)
]

module _ (data_shards packet_duration key_id : ℕ) (encrypted : Bool)
    (encrypt : ℕ → Bytes → Option Bytes) (rs : List Bytes → List Bytes) where
  abbrev send : Bytes → Audio → Option (Audio × List AudioPacket)
  send = send_packet data_shards packet_duration key_id encrypted encrypt rs

  abbrev sent : Option Bytes → Audio → Option (Audio × List AudioPacket)
  sent = send_encoded data_shards packet_duration key_id encrypted encrypt rs

  abbrev encode_at : Audio → Bytes → Option Bytes
  encode_at audio packet =
      encode_audio data_shards packet_duration key_id encrypted encrypt rs
        ((key_id + audio.sequence_number) % 2 ^ 32) packet

  -- `send_packet` before the end of a block, where sequence numbers wrap between two blocks: it
  -- sends the packet and nothing else, and the block holds it as its next.
  pub send_packet-InBlock :
      (c : ℕ) (block : List Bytes) (audio : Audio) (packet bytes : Bytes)
      → 2 ^ 16 ≡ c * data_shards
      → InBlock data_shards block audio
      → encode_at audio packet ≡ some bytes
      → length block + 1 < data_shards
      → (after : Audio) × ((send packet audio
            ≡ some (after, data_packet audio.sequence_number audio.timestamp bytes ∷ []))
          × InBlock data_shards (block ++ (bytes ∷ [])) after)
  unfolding send_packet
  send_packet-InBlock c block audio packet bytes wraps inside encoded h =
      let seq = audio.sequence_number in
      let slot = seq % data_shards in
      let after =
        write_packet data_shards packet_duration key_id encrypted encrypt rs bytes audio in
      let near : slot + 1 < data_shards = omega arith in
      let fits = no_wrap data_shards c seq wraps (omega arith) inside.in_range near in
      let step = next_position data_shards c seq wraps (omega arith) inside.in_range in
      let quiet : ((seq + 1) % data_shards == 0) ≡ false = ground (arith, step.1 near) in
      let held : Holds (block ++ (bytes ∷ [])) after.shards =
        subst
          (λ i.
            Holds (block ++ (bytes ∷ []))
              (set audio.shards i (write_shard bytes (shard_or_empty (get_elem? audio.shards i)))))
          inside.position
          (Holds-set block audio.shards bytes inside.holds (omega (arith, inside.room))) in
      (
        after,
        (
          ap (λ o. sent o audio) encoded ∙ rw quiet refl,
          record {
            in_range = omega arith;
            room =
                length-set audio.shards slot
                  (write_shard bytes (shard_or_empty (get_elem? audio.shards slot)))
                ∙ inside.room;
            position = length-append block (bytes ∷ []) ∙ omega (arith, step.0.0 near);
            holds = held;
            base = λ some_held.
                ground (arith, inside.base, mod-eq_of_lt fits, length-append block (bytes ∷ []));
          },
        ),
      )
