-- ===== src/Stream/Messages.antt =====
-- src/stream.cpp: how the control server reads a message of a client, in `iterate`, in `call` and in
-- the handlers that `controlBroadcastThread` maps. AES-GCM is a
-- parameter, and a read behind the end of a message is an outcome of its own.
use midnight_sun.Prelude.{
  ℕ, zero, suc, ◌+◌, ◌-◌, ◌*◌, ◌%◌, ◌^◌, Bool, true, false, not, ◌&&◌, ◌||◌, Option, none, some,
  List, [], ◌∷◌, ◌++◌, if◌then◌else◌, ltb, ◌==◌, length, take, drop,
}
use midnight_sun.Prelude.Maps.{Bytes}
pub mod Authentic

-- What the handling of a message comes to.
pub data Outcome : Type 0 where
  ignored : Outcome
  dropped : Outcome
  runt : Outcome
  ping : Outcome
  start_a : Outcome
  start_b : Outcome
  loss_stats : Outcome
  request_idr : Outcome
  invalidate_ref_frames : ℕ → ℕ → Outcome
  -- `input::passthrough` gets these bytes
  input : Bytes → Outcome
  -- `session::stop`
  stop_session : Outcome
  out_of_bounds : Outcome

-- The sizes and flags of a session that the handlers read, and its initialization vectors.
pub record Channel : Type 0 where
  pub encrypted_control : Bool  -- controlProtocolType == 13
  pub control_v2 : Bool  -- encryptionFlagsEnabled & SS_ENC_CONTROL_V2
  pub incoming_iv : Bytes
  pub legacy_input_enc_iv : Bytes

abbrev pub packet_start_a : ℕ
packet_start_a = 773

abbrev pub packet_start_b : ℕ
packet_start_b = 775

abbrev pub packet_invalidate_ref_frames : ℕ
packet_invalidate_ref_frames = 769

abbrev pub packet_loss_stats : ℕ
packet_loss_stats = 513

abbrev pub packet_input_data : ℕ
packet_input_data = 518

abbrev pub packet_periodic_ping : ℕ
packet_periodic_ping = 512

abbrev pub packet_request_idr_frame : ℕ
packet_request_idr_frame = 770

abbrev pub packet_encrypted : ℕ
packet_encrypted = 1

-- The integer of a field of a little-endian machine, and of one that is sent in network order.
abbrev pub little : Bytes → ℕ
little [] = 0
little (b ∷ bs) = b + 2 ^ 8 * little bs

abbrev pub big_from : ℕ → Bytes → ℕ
big_from n [] = n
big_from n (b ∷ bs) = big_from (n * 2 ^ 8 + b) bs

-- `n` bytes from an offset on, none where the buffer ends before.
abbrev pub field : ℕ → ℕ → Bytes → Option Bytes
field at n xs = if ltb (length xs) (at + n) then none else some (take n (drop at xs))

-- A write of bytes to the front of an initialization vector, which is resized before.
abbrev pub resize : ℕ → Bytes → Bytes
resize zero iv = []
resize (suc n) [] = 0 ∷ resize n []
resize (suc n) (b ∷ iv) = b ∷ resize n iv

-- `iv[10]` and `iv[11]` are 'C'.
abbrev pub incoming_iv_v2 : Bytes → Bytes → Bytes
incoming_iv_v2 seq iv = take 4 seq ++ take 6 (drop 4 (resize 12 iv)) ++ (67 ∷ 67 ∷ [])

abbrev pub incoming_iv_v1 : Bytes → Bytes → Bytes
incoming_iv_v1 seq iv = take 1 seq ++ drop 1 (resize 16 iv)

abbrev pub next_incoming_iv : Bool → Bytes → Bytes → Bytes
next_incoming_iv v2 seq iv = if v2 then incoming_iv_v2 seq iv else incoming_iv_v1 seq iv

-- The handlers but those of encrypted messages and of input.
abbrev pub handle_frames : Option Bytes → Outcome
handle_frames none = out_of_bounds
handle_frames (some xs) = invalidate_ref_frames (little (take 8 xs)) (little (drop 8 xs))

abbrev pub handle_loss_stats : Option Bytes → Outcome
handle_loss_stats none = out_of_bounds
handle_loss_stats (some xs) = loss_stats

abbrev pub handle_plain : ℕ → Bytes → Outcome
handle_plain type payload =
    if type == packet_periodic_ping
    then ping
    else if type == packet_start_a
    then start_a
    else if type == packet_start_b
    then start_b
    else if type == packet_loss_stats
    then handle_loss_stats (field 0 16 payload)
    else if type == packet_request_idr_frame
    then request_idr
    else if type == packet_invalidate_ref_frames
    then handle_frames (field 0 16 payload)
    else ignored

-- `decrypt iv tagged` is `cipher.decrypt`: the plaintext, none where the tag is wrong.
module _ (decrypt : Bytes → Bytes → Option Bytes) where
  -- IDX_INPUT_DATA, a message whose payload is encrypted: the length in network order, and as much
  -- text. The new vector is the end of the message, where that is long enough.
  abbrev pub input_decrypted : Channel → Bytes → ℕ → Option Bytes → Channel × Outcome
  input_decrypted channel payload size none = (channel, stop_session)
  input_decrypted channel payload size (some plaintext) =
      let iv = channel.legacy_input_enc_iv in
      let next =
        if ltb size (16 + length iv)
        then iv
        else drop (length payload - 16) payload ++ drop 16 iv in
      (record channel { legacy_input_enc_iv = next }, input plaintext)

  abbrev pub input_text : Channel → Bytes → ℕ → Option Bytes → Channel × Outcome
  input_text channel payload size none = (channel, out_of_bounds)
  input_text channel payload size (some tagged) =
      input_decrypted channel payload size (decrypt channel.legacy_input_enc_iv tagged)

  abbrev pub handle_input : Channel → Bytes → Option Bytes → Channel × Outcome
  handle_input channel payload none = (channel, out_of_bounds)
  handle_input channel payload (some len) =
      let size = big_from 0 len in input_text channel payload size (field 4 size payload)

  -- `call` on a message that was decrypted; such a message is not encrypted again.
  abbrev pub call_reinjected : Channel → ℕ → Bytes → Channel × Outcome
  call_reinjected channel type payload = (channel, handle_plain type payload)

  -- IDX_ENCRYPTED: the header has a type, a length and a sequence number.
  abbrev pub dispatch : Channel → Bytes → Option Bytes → Channel × Outcome
  dispatch channel plaintext none = (channel, out_of_bounds)
  dispatch channel plaintext (some header) =
      let type = little (take 2 header) in
      if type == packet_encrypted
      then (channel, stop_session)
      else if type == packet_input_data
      then (channel, input (drop 4 plaintext))
      else call_reinjected channel type (drop 4 plaintext)

  abbrev pub decrypted : Channel → Option Bytes → Channel × Outcome
  decrypted channel none = (channel, stop_session)
  decrypted channel (some plaintext) = dispatch channel plaintext (field 0 4 plaintext)

  abbrev pub encrypted_text : Channel → Bytes → Option Bytes → Channel × Outcome
  encrypted_text channel seq none = (channel, out_of_bounds)
  encrypted_text channel seq (some tagged) =
      let iv = next_incoming_iv channel.control_v2 seq channel.incoming_iv in
      decrypted (record channel { incoming_iv = iv }) (decrypt iv tagged)

  abbrev pub handle_encrypted : Channel → Bytes → Option Bytes → Channel × Outcome
  handle_encrypted channel payload none = (channel, out_of_bounds)
  handle_encrypted channel payload (some header) =
      let size = little (take 2 header) in
      if ltb size 24
      then (channel, runt)
      else encrypted_text channel (drop 2 header) (field 6 (size - 4) payload)

  -- `call` on a message off the wire, and the part of `iterate` that takes its type off.
  abbrev pub call : Channel → ℕ → Bytes → Channel × Outcome
  call channel type payload =
      if channel.encrypted_control && not (type == packet_encrypted)
      then (channel, dropped)
      else if type == packet_encrypted
      then handle_encrypted channel payload (field 0 6 payload)
      else if type == packet_input_data
      then handle_input channel payload (field 0 4 payload)
      else (channel, handle_plain type payload)

  abbrev pub typed : Channel → Bytes → Option Bytes → Channel × Outcome
  typed channel packet none = (channel, out_of_bounds)
  typed channel packet (some type) = call channel (little type) (drop 2 packet)

  unfoldable pub receive : Channel → Bytes → Channel × Outcome
  receive channel packet = typed channel packet (field 0 2 packet)
