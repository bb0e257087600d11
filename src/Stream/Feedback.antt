-- ===== src/Stream/Feedback.antt =====
-- src/stream.cpp: the control messages that the host sends, in `send_feedback_msg`, `send_hdr_mode` and
-- `encode_control`. AES-GCM is a parameter: `encrypt` gives the tag and the text behind it.
use midnight_sun.Prelude.{
  ℕ, ◌+◌, ◌-◌, ◌%◌, ◌^◌, Bool, true, false, not, Option, none, some, List, [], ◌∷◌, ◌++◌,
  if◌then◌else◌, length, set,
}
use midnight_sun.Prelude.Maps.{Bytes}
use midnight_sun.Stream.Messages.{resize}
use midnight_sun.Stream.Nonces.{le_bytes, outgoing_control_iv}
pub mod Received

-- `gamepad_feedback_msg_t`; the first number is the gamepad's.
pub data Feedback : Type 0 where
  rumble : ℕ → ℕ → ℕ → Feedback
  rumble_triggers : ℕ → ℕ → ℕ → Feedback
  -- the report rate and the type
  set_motion_event_state : ℕ → ℕ → ℕ → Feedback
  set_rgb_led : ℕ → ℕ → ℕ → ℕ → Feedback
  -- the flags, the types of the left and of the right one, and the effects
  set_adaptive_triggers : ℕ → ℕ → ℕ → ℕ → Bytes → Bytes → Feedback

-- What the sender keeps of a session. `packets` are those that ENet took, newest first.
pub record Sender : Type 0 where
  pub has_peer : Bool
  pub encrypted_control : Bool  -- controlProtocolType == 13
  pub control_v2 : Bool  -- encryptionFlagsEnabled & SS_ENC_CONTROL_V2
  pub seq : ℕ  -- std::uint32_t
  pub outgoing_iv : Bytes
  pub packets : List Bytes

abbrev pub packet_rumble_data : ℕ
packet_rumble_data = 267

abbrev pub packet_hdr_mode : ℕ
packet_hdr_mode = 270

abbrev pub packet_rumble_trigger_data : ℕ
packet_rumble_trigger_data = 21760

abbrev pub packet_set_motion_event : ℕ
packet_set_motion_event = 21761

abbrev pub packet_set_rgb_led : ℕ
packet_set_rgb_led = 21762

abbrev pub packet_set_adaptive_triggers : ℕ
packet_set_adaptive_triggers = 21763

-- `control_header_v2` with what follows it.
abbrev pub with_header : ℕ → Bytes → Bytes
with_header type payload = le_bytes 2 type ++ le_bytes 2 (length payload) ++ payload

abbrev pub feedback_text : Feedback → Bytes
feedback_text (rumble id lowfreq highfreq) =
    with_header packet_rumble_data
      (le_bytes 4 12648430 ++ le_bytes 2 id ++ le_bytes 2 lowfreq ++ le_bytes 2 highfreq)
feedback_text (rumble_triggers id left right) =
    with_header packet_rumble_trigger_data (le_bytes 2 id ++ le_bytes 2 left ++ le_bytes 2 right)
feedback_text (set_motion_event_state id reportrate type) =
    with_header packet_set_motion_event (le_bytes 2 id ++ le_bytes 2 reportrate ++ le_bytes 1 type)
feedback_text (set_rgb_led id r g b) =
    with_header packet_set_rgb_led (le_bytes 2 id ++ le_bytes 1 r ++ le_bytes 1 g ++ le_bytes 1 b)
feedback_text (set_adaptive_triggers id flags type_left type_right left right) =
    with_header packet_set_adaptive_triggers (
      le_bytes 2 id
      ++ le_bytes 1 flags
      ++ le_bytes 1 type_left
      ++ le_bytes 1 type_right
      ++ left
      ++ right)

abbrev pub hdr_text : Bool → Bytes → Bytes
hdr_text enabled metadata = with_header packet_hdr_mode ((if enabled then 1 else 0) ∷ metadata)

-- `control_encrypted_t` and its payload, empty where the encryption failed.
abbrev pub encrypted_packet : ℕ → Option Bytes → Bytes
encrypted_packet seq none = []
encrypted_packet seq (some tagged) =
    le_bytes 2 1 ++ le_bytes 2 ((length tagged + 4) % 2 ^ 16) ++ le_bytes 4 seq ++ tagged

-- `control_server_t::send`; `is_taken` is whether ENet takes the packet.
abbrev pub send : Bool → Bytes → Sender → Sender × Bool
send true packet s = (record s { packets = packet ∷ s.packets }, true)
send false packet s = (s, false)

module _ (encrypt : Bytes → Bytes → Option Bytes) where
  abbrev pub encode_control : Sender → Bytes → Sender × Bytes
  encode_control s plaintext =
      if s.encrypted_control
      then (let iv = outgoing_control_iv s.control_v2 s.seq s.outgoing_iv in
          (
            record s { seq = (s.seq + 1) % 2 ^ 32; outgoing_iv = iv },
            encrypted_packet s.seq (encrypt iv plaintext),
          ))
      else (s, plaintext)

  abbrev pub send_text : Bool → Bytes → Sender → Sender × Bool
  send_text is_taken plaintext s =
      let (s', packet) = encode_control s plaintext in
      if s.has_peer then send is_taken packet s' else (s, false)

  unfoldable pub send_feedback_msg : Bool → Feedback → Sender → Sender × Bool
  send_feedback_msg is_taken msg s = send_text is_taken (feedback_text msg) s

  unfoldable pub send_hdr_mode : Bool → Bool → Bytes → Sender → Sender × Bool
  send_hdr_mode is_taken enabled metadata s = send_text is_taken (hdr_text enabled metadata) s
