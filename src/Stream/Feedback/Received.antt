-- ===== src/Stream/Feedback/Received.antt =====
-- What a client reads of the control messages that src/stream.cpp sends.
use midnight_sun.Prelude.{
  ℕ, ◌+◌, ◌%◌, ◌^◌, ◌<◌, ◌≡◌, refl, ap, ◌∙◌, Bool, true, Option, none, some, List, [], ◌∷◌, ◌++◌,
  if◌then◌else◌, ◌==◌, ◌&&◌, length, take, drop, All, arith,
}
use midnight_sun.Prelude.Maps.{Bytes}
use midnight_sun.Stream.Messages.{little}
use midnight_sun.Stream.Nonces.{le_bytes, outgoing_control_iv}
use midnight_sun.Stream.Nonces.Separate.{little-le_bytes}
use midnight_sun.Stream.Feedback.{
  Feedback, Sender, feedback_text, hdr_text, encrypted_packet, send_feedback_msg, send_hdr_mode,
}

-- A message of the host.
pub data Message : Type 0 where
  feedback : Feedback → Message
  hdr_mode : Bool → Bytes → Message

abbrev pub text_of : Message → Bytes
text_of (feedback msg) = feedback_text msg
text_of (hdr_mode enabled metadata) = hdr_text enabled metadata

abbrev numbered : ℕ → Option Bytes → Option (ℕ × Bytes)
numbered seq none = none
numbered seq (some plaintext) = some (seq, plaintext)

-- The messages, numbered from a sequence number on.
abbrev pub numbered_from : ℕ → List Message → List (Option (ℕ × Bytes))
numbered_from seq [] = []
numbered_from seq (m ∷ ms) = some (seq, text_of m) ∷ numbered_from (seq + 1) ms

-- A session with a peer, a control stream that is encrypted and vectors of 12 bytes.
abbrev pub open_sender : ℕ → Bytes → List Bytes → Sender
open_sender seq iv packets = record {
  has_peer = true;
  encrypted_control = true;
  control_v2 = true;
  seq = seq;
  outgoing_iv = iv;
  packets = packets;
}

abbrev pub number_of : Bytes → ℕ
number_of packet = little (take 4 (drop 4 packet))

module _ (encrypt : Bytes → Bytes → Option Bytes) (decrypt : Bytes → Bytes → Option Bytes) where
  abbrev pub send_message : Message → Sender → Sender
  unfolding send_feedback_msg send_hdr_mode
  send_message (feedback msg) s = (send_feedback_msg encrypt true msg s).0
  send_message (hdr_mode enabled metadata) s = (send_hdr_mode encrypt true enabled metadata s).0

  -- The packets of the messages, oldest first.
  abbrev pub packets_of : List Message → Sender → List Bytes
  packets_of [] s = []
  packets_of (m ∷ ms) s = let s' = send_message m s in take 1 s'.packets ++ packets_of ms s'

  -- A client with the same key: it tests the type and the length of a packet.
  abbrev pub read_packet : Bytes → Bytes → Option (ℕ × Bytes)
  read_packet iv packet =
      if little (take 2 packet) == 1 && little (take 2 (drop 2 packet)) == length (drop 4 packet)
      then numbered (number_of packet) (decrypt iv (drop 8 packet))
      else none

  -- It keeps a vector as the host does, and takes the number from the packet.
  abbrev pub read_all : Bytes → List Bytes → List (Option (ℕ × Bytes))
  read_all kept [] = []
  read_all kept (packet ∷ packets) =
      let iv = outgoing_control_iv true (number_of packet) kept in
      read_packet iv packet ∷ read_all iv packets

  -- What a cipher does: it encrypts each text to its length and a tag, and decrypts it again.
  abbrev pub Opens : Type 0
  Opens =
      (iv x : Bytes)
      → (c : Bytes) × ((encrypt iv x ≡ some c)
          × ((decrypt iv c ≡ some x) × (length c ≡ length x + 16)))

  number_of-encrypted_packet :
      (seq : ℕ) (c : Bytes) → seq < 2 ^ 32 → number_of (encrypted_packet seq (some c)) ≡ seq
  number_of-encrypted_packet seq c h = little-le_bytes 4 seq h

  read_sent :
      Opens
      → (seq : ℕ) (iv x : Bytes) → seq < 2 ^ 32
      → length x + 20 < 2 ^ 16
      → (number_of (encrypted_packet seq (encrypt iv x)) ≡ seq)
        × (read_packet iv (encrypted_packet seq (encrypt iv x)) ≡ some (seq, x))
  read_sent opens seq iv x h short =
      let (c, (e, (d, size))) = opens iv x in
      let n = (length c + 4) % 2 ^ 16 in
      let long : little (le_bytes 2 n) ≡ n = little-le_bytes 2 n (omega arith) in
      let same : (little (le_bytes 2 n) == length (drop 4 (encrypted_packet seq (some c)))) ≡ true =
        ground (arith, long, size) in
      let number : number_of (encrypted_packet seq (some c)) ≡ seq =
        number_of-encrypted_packet seq c h in
      rw e (
        number,
        ap
              (λ b.
                if b
                then numbered (number_of (encrypted_packet seq (some c))) (decrypt iv c)
                else none)
              same
            ∙ ap (λ k. numbered k (decrypt iv c)) number
            ∙ ap (numbered seq) d,
      )

  abbrev sent_packet : ℕ → Bytes → Message → Bytes
  sent_packet seq iv m =
      encrypted_packet seq (encrypt (outgoing_control_iv true seq iv) (text_of m))

  send_message_lem :
      (m : Message) (seq : ℕ) (iv : Bytes) (packets : List Bytes)
      → send_message m (open_sender seq iv packets)
        ≡ open_sender
            ((seq + 1) % 2 ^ 32)
            (outgoing_control_iv true seq iv)
            (sent_packet seq iv m ∷ packets)
  unfolding send_feedback_msg send_hdr_mode
  send_message_lem (feedback msg) seq iv packets = refl
  send_message_lem (hdr_mode enabled metadata) seq iv packets = refl

  -- On a session that has a peer, control protocol 13 and SS_ENC_CONTROL_V2 (neither in plain text nor
  -- with the older encryption), a client that starts from the vector that the host keeps reads the
  -- feedback and HDR messages that the host sends as they are, numbered in turn, if the cipher opens
  -- what it closes, ENet takes every packet, each message has fewer than 65516 bytes, and the numbers
  -- stay below 2^32.
  pub read_all-packets_of :
      Opens
      → (ms : List Message) (seq : ℕ) (iv : Bytes) (packets : List Bytes) → seq + length ms < 2 ^ 32
      → All (λ m. length (text_of m) + 20 < 2 ^ 16) ms
      → read_all iv (packets_of ms (open_sender seq iv packets)) ≡ numbered_from seq ms
  read_all-packets_of opens [] seq iv packets few short = refl
  read_all-packets_of opens (m ∷ ms) seq iv packets few (here, short) =
      let iv' = outgoing_control_iv true seq iv in
      let packet = sent_packet seq iv m in
      let (number, read) = read_sent opens seq iv' (text_of m) (omega arith) here in
      let next : (seq + 1) % 2 ^ 32 ≡ seq + 1 = omega arith in
      ap (λ s. read_all iv (take 1 s.packets ++ packets_of ms s))
        (send_message_lem m seq iv packets)
      ∙ ap (λ k. read_all iv (packet ∷ packets_of ms (open_sender k iv' (packet ∷ packets)))) next
      ∙ ap
          (λ k.
            read_packet (outgoing_control_iv true k iv) packet
            ∷ read_all (outgoing_control_iv true k iv)
                (packets_of ms (open_sender (seq + 1) iv' (packet ∷ packets))))
          number
      ∙ ap (λ r. r ∷ read_all iv' (packets_of ms (open_sender (seq + 1) iv' (packet ∷ packets))))
          read
      ∙ ap (λ rs. some (seq, text_of m) ∷ rs)
          (read_all-packets_of opens ms (seq + 1) iv' (packet ∷ packets) (omega arith) short)
