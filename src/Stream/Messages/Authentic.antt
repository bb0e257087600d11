-- ===== src/Stream/Messages/Authentic.antt =====
-- On an encrypted control stream of src/stream.cpp nothing is acted on that the cipher did not pass.
use midnight_sun.Prelude.{
  ℕ, ◌+◌, ◌-◌, ◌<◌, ◌≡◌, refl, sym, ap, ◌∙◌, [], ◌∷◌, length, ◌⊎◌, inl, inr, Bool, true, false, not,
  ◌&&◌, Option, none, some, ltb, ◌==◌, Bool-cases, Option-cases, take, drop, arith,
}
use midnight_sun.Prelude.Maps.{Bytes}
use midnight_sun.Stream.Messages.{
  Outcome, dropped, runt, stop_session, out_of_bounds, Channel, packet_encrypted, little, field,
  next_incoming_iv, dispatch, decrypted, encrypted_text, handle_encrypted, typed, receive,
}

-- The outcomes in which the session does not act on what the message says.
pub data IsRefused : Outcome → Type 0 where
  is_dropped : IsRefused dropped
  is_runt : IsRefused runt
  is_stop : IsRefused stop_session

-- The fields of a packet: the type, the length of what follows, the sequence number, and the tag with the
-- text, which has the length less the four bytes of the sequence number.
abbrev pub type_of : Bytes → ℕ
type_of packet = little (take 2 packet)

abbrev pub size_of : Bytes → ℕ
size_of packet = little (take 2 (drop 2 packet))

abbrev pub seq_of : Bytes → Bytes
seq_of packet = take 4 (drop 4 packet)

abbrev pub tagged_of : Bytes → Bytes
tagged_of packet = take (size_of packet - 4) (drop 8 packet)

-- The packet ends before its type, or before its header, or before the length that the header claims.
abbrev pub IsCut : Bytes → Type 0
IsCut packet =
    (length packet < 2) ⊎ ((length packet < 8) ⊎ (length packet < 8 + (size_of packet - 4)))

field_none : (at n : ℕ) (xs : Bytes) → field at n xs ≡ none → length xs < at + n
field_none at n xs e = elim (Bool-cases (ltb (length xs) (at + n))) [
  | inl short ↦ ground arith
  | inr long ↦ absurd (ground arith)
]

field_some : (at n : ℕ) (xs ys : Bytes) → field at n xs ≡ some ys → ys ≡ take n (drop at xs)
field_some at n xs ys e = elim (Bool-cases (ltb (length xs) (at + n))) [
  | inl short ↦ absurd (ground arith)
  | inr long ↦ ground arith
]

-- The header behind the type, as it stands in the packet.
size_in_header : (packet : Bytes) → take 2 (take 6 (drop 2 packet)) ≡ take 2 (drop 2 packet)
size_in_header [] = refl
size_in_header (a ∷ []) = refl
size_in_header (a ∷ b ∷ []) = refl
size_in_header (a ∷ b ∷ c ∷ []) = refl
size_in_header (a ∷ b ∷ c ∷ d ∷ packet) = refl

seq_in_header : (packet : Bytes) → drop 2 (take 6 (drop 2 packet)) ≡ seq_of packet
seq_in_header [] = refl
seq_in_header (a ∷ []) = refl
seq_in_header (a ∷ b ∷ []) = refl
seq_in_header (a ∷ b ∷ c ∷ []) = refl
seq_in_header (a ∷ b ∷ c ∷ d ∷ packet) = refl

text_in_packet : (packet : Bytes) → drop 6 (drop 2 packet) ≡ drop 8 packet
text_in_packet [] = refl
text_in_packet (a ∷ []) = refl
text_in_packet (a ∷ b ∷ packet) = refl

length-drop_2 : (packet : Bytes) (n : ℕ) → length (drop 2 packet) < n → length packet < n + 2
length-drop_2 [] n h = omega arith
length-drop_2 (a ∷ []) n h = omega arith
length-drop_2 (a ∷ b ∷ packet) n h = omega arith

module _ (decrypt : Bytes → Bytes → Option Bytes) where
  -- Decided by the text that the packet's own bytes decrypt to, with the vector of its own number.
  abbrev pub IsOpened : Channel → Bytes → Outcome → Type 0
  IsOpened channel packet outcome =
      (plaintext : Bytes) × ((type_of packet ≡ packet_encrypted)
        × ((decrypt (next_incoming_iv channel.control_v2 (seq_of packet) channel.incoming_iv)
                (tagged_of packet)
              ≡ some plaintext)
            × (outcome ≡ (dispatch decrypt channel plaintext (field 0 4 plaintext)).1)))

  -- Refused, or a read behind the end of a packet that is too short, or decided by its text.
  abbrev pub IsAuthentic : Channel → Bytes → Outcome → Type 0
  IsAuthentic channel packet outcome =
      IsRefused outcome
      ⊎ (((outcome ≡ out_of_bounds) × IsCut packet) ⊎ IsOpened channel packet outcome)

  dispatch_channel :
      (a b : Channel) (plaintext : Bytes) (o : Option Bytes)
      → (dispatch decrypt a plaintext o).1 ≡ (dispatch decrypt b plaintext o).1
  dispatch_channel a b plaintext none = refl
  dispatch_channel a b plaintext (some header) = ground arith

  encrypted_text-IsAuthentic :
      (channel : Channel) (packet : Bytes)
      → type_of packet ≡ packet_encrypted
      → IsAuthentic channel packet
          (encrypted_text decrypt channel
            (seq_of packet)
            (field 6 (size_of packet - 4) (drop 2 packet))).1
  encrypted_text-IsAuthentic channel packet is_encrypted =
      let seq = seq_of packet in
      let iv = next_incoming_iv channel.control_v2 seq channel.incoming_iv in
      let n = size_of packet - 4 in
      elim (Option-cases (field 6 n (drop 2 packet))) [
        | inl cut ↦
            let short = length-drop_2 packet (6 + n) (field_none 6 n (drop 2 packet) cut) in
            rw cut (inr (inl (refl, inr (inr (omega (arith, short))))))
        | inr (tagged, found) ↦
            let own : tagged ≡ tagged_of packet =
              field_some 6 n (drop 2 packet) tagged found ∙ ap (take n) (text_in_packet packet) in
            elim (Option-cases (decrypt iv tagged)) [
              | inl wrong ↦ rw (found, wrong) (inl is_stop)
              | inr (plaintext, e) ↦ inr (
                  inr (
                    plaintext,
                    (
                      is_encrypted,
                      (
                        ap (decrypt iv) (sym own) ∙ e,
                        ap (λ o. (encrypted_text decrypt channel seq o).1) found
                            ∙ ap
                                (λ o. (decrypted decrypt (record channel { incoming_iv = iv }) o).1)
                                e
                            ∙ dispatch_channel (record channel { incoming_iv = iv }) channel
                                plaintext (field 0 4 plaintext),
                      ),
                    ),
                  ))
            ]
      ]

  handle_encrypted-IsAuthentic :
      (channel : Channel) (packet : Bytes)
      → type_of packet ≡ packet_encrypted
      → IsAuthentic channel packet
          (handle_encrypted decrypt channel (drop 2 packet) (field 0 6 (drop 2 packet))).1
  handle_encrypted-IsAuthentic channel packet is_encrypted =
      elim (Option-cases (field 0 6 (drop 2 packet))) [
        | inl cut ↦
            let short = length-drop_2 packet (0 + 6) (field_none 0 6 (drop 2 packet) cut) in
            rw cut (inr (inl (refl, inr (inl (omega (arith, short))))))
        | inr (header, found) ↦
            let own = field_some 0 6 (drop 2 packet) header found in
            let size : take 2 header ≡ take 2 (drop 2 packet) =
              ap (take 2) own ∙ size_in_header packet in
            let seq : drop 2 header ≡ seq_of packet = ap (drop 2) own ∙ seq_in_header packet in
            elim (Bool-cases (ltb (size_of packet) 24)) [
              | inl short ↦ rw (found, size, short) (inl is_runt)
              | inr enough ↦
                  rw (found, size, seq, enough)
                    (encrypted_text-IsAuthentic channel packet is_encrypted)
            ]
      ]

  typed-IsAuthentic :
      (channel : Channel) (packet : Bytes)
      → channel.encrypted_control ≡ true
      → IsAuthentic channel packet (typed decrypt channel packet (field 0 2 packet)).1
  typed-IsAuthentic channel packet on =
      let drops = λ (b : Bool). channel.encrypted_control && not b in
      elim (Option-cases (field 0 2 packet)) [
        | inl cut ↦
            let short = field_none 0 2 packet cut in
            rw cut (inr (inl (refl, inl (omega (arith, short)))))
        | inr (type, found) ↦
            let own : little type ≡ type_of packet = ap little (field_some 0 2 packet type found) in
            elim (Bool-cases (type_of packet == packet_encrypted)) [
              | inl e ↦
                  let taken : drops (type_of packet == packet_encrypted) ≡ false =
                    ap drops e ∙ rw on refl in
                  rw (found, own, taken, e)
                    (handle_encrypted-IsAuthentic channel packet (ground arith))
              | inr e ↦
                  let refused : drops (type_of packet == packet_encrypted) ≡ true =
                    ap drops e ∙ rw on refl in
                  rw (found, own, refused) (inl is_dropped)
            ]
      ]

  -- `receive` on an encrypted control stream, whatever the client sends and whatever the cipher is:
  -- the message is dropped, is too small or ends the session; or it is shorter than its header or than
  -- the length that its header claims, and bytes behind its end are read; or its type is that of
  -- encrypted messages and what happens is what the text says that the cipher makes of the packet's own
  -- tagged bytes, under the vector of the packet's own sequence number. No other bytes reach the input.
  pub receive-IsAuthentic :
      (channel : Channel) (packet : Bytes)
      → channel.encrypted_control ≡ true
      → IsAuthentic channel packet (receive decrypt channel packet).1
  unfolding receive
  receive-IsAuthentic channel packet on = typed-IsAuthentic channel packet on
