-- ===== src/Stream/Tests/Feedback.antt =====
-- Runs of the control messages that the host sends.
use midnight_sun.Prelude.{
  ◌≡◌, refl, true, false, Option, none, some, List, [], ◌∷◌, ◌++◌, drop, replicate, arith,
}
use midnight_sun.Prelude.Maps.{Bytes}
use midnight_sun.Stream.Feedback.{rumble, set_rgb_led, send_feedback_msg, send_hdr_mode}
use midnight_sun.Stream.Feedback.Received.{
  Message, feedback, hdr_mode, numbered_from, open_sender, read_all, packets_of,
  read_all-packets_of, Opens,
}

-- A tag of zeros before the text.
abbrev tag_of_zeros : Bytes → Bytes → Option Bytes
tag_of_zeros iv x = some (replicate 16 0 ++ x)

abbrev without_tag : Bytes → Bytes → Option Bytes
without_tag iv c = some (drop 16 c)

tag_of_zeros-Opens : Opens tag_of_zeros without_tag
tag_of_zeros-Opens iv x = (replicate 16 0 ++ x, (refl, (refl, omega arith)))

abbrev three_messages : List Message
three_messages =
    feedback (rumble 1 2 40000)
    ∷ hdr_mode true (5 ∷ 6 ∷ [])
    ∷ feedback (set_rgb_led 0 255 128 0)
    ∷ []

read_all-packets_of_example :
    read_all tag_of_zeros without_tag []
      (packets_of tag_of_zeros without_tag three_messages (open_sender 300 [] []))
    ≡ numbered_from 300 three_messages
read_all-packets_of_example =
    read_all-packets_of tag_of_zeros without_tag tag_of_zeros-Opens three_messages 300 [] []
      (omega arith) (omega arith, (omega arith, (omega arith, tt)))

-- Colour 0, in plain text.
plain_colour :
    send_feedback_msg tag_of_zeros true
      (set_rgb_led 0 255 128 0)
      (record (open_sender 0 [] []) { encrypted_control = false })
    ≡ (
      record (open_sender 0 [] ((2 ∷ 85 ∷ 5 ∷ 0 ∷ 0 ∷ 0 ∷ 255 ∷ 128 ∷ 0 ∷ []) ∷ [])) {
        encrypted_control = false;
      },
      true,
    )
unfolding send_feedback_msg
plain_colour = refl

-- A number of a message counts although ENet does not take the packet, and none without a peer.
untaken : (send_hdr_mode tag_of_zeros false true [] (open_sender 7 [] [])).0.seq ≡ 8
unfolding send_hdr_mode
untaken = refl

without_peer :
    send_hdr_mode tag_of_zeros true true [] (record (open_sender 7 [] []) { has_peer = false })
    ≡ (record (open_sender 7 [] []) { has_peer = false }, false)
unfolding send_hdr_mode
without_peer = refl

-- A packet without a byte where the encryption fails.
abbrev closed : Bytes → Bytes → Option Bytes
closed iv x = none

empty_packet : (send_hdr_mode closed true true [] (open_sender 7 [] [])).0.packets ≡ [] ∷ []
unfolding send_hdr_mode
empty_packet = refl
