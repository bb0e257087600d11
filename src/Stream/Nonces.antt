-- ===== src/Stream/Nonces.antt =====
-- The initialization vectors of AES-GCM in src/stream.cpp and src/rtsp.cpp. One key of a client serves
-- its video, both directions of the control stream, and both directions of RTSP.
use midnight_sun.Prelude.{
  ℕ, zero, suc, ◌*◌, ◌/◌, ◌%◌, ◌^◌, ◌<◌, ◌≡◌, Bool, true, if◌then◌else◌, List, [], ◌∷◌, ◌++◌,
  length, take, drop, set, replicate,
}
use midnight_sun.Prelude.Maps.{Bytes}
use midnight_sun.Prelude.Segments.{overwrite}
use midnight_sun.Stream.Messages.{resize}
pub mod Separate

-- The bytes of an integer in the memory of a little-endian machine.
abbrev pub le_bytes : ℕ → ℕ → Bytes
le_bytes zero n = []
le_bytes (suc k) n = n % 256 ∷ le_bytes k (n / 256)

-- A number of 4 bytes in front and a mark of two letters behind.
abbrev pub marked : ℕ → ℕ → ℕ → Bytes → Bytes
marked a b seq iv = set (set (overwrite 0 (le_bytes 4 seq) iv) 10 a) 11 b

-- The older encryption of the control stream: 16 bytes, of which the first is the low byte of the number.
abbrev pub older_iv : ℕ → Bytes → Bytes
older_iv seq iv = set (resize 16 iv) 0 (seq % 256)

-- `encode_control` and the handler of encrypted messages keep a vector and resize it; the test is that
-- of SS_ENC_CONTROL_V2, where the marks are 'H' or 'C', and 'C'.
abbrev pub outgoing_control_iv : Bool → ℕ → Bytes → Bytes
outgoing_control_iv v2 seq iv = if v2 then marked 72 67 seq (resize 12 iv) else older_iv seq iv

abbrev pub incoming_control_iv : Bool → ℕ → Bytes → Bytes
incoming_control_iv v2 seq iv = if v2 then marked 67 67 seq (resize 12 iv) else older_iv seq iv

-- The vector of `videoBroadcastThread` has 12 bytes and is kept; 'V'.
abbrev pub video_iv : ℕ → Bytes → Bytes
video_iv counter iv = set (overwrite 0 (le_bytes 8 counter) iv) 11 86

-- RTSP takes a vector of 12 zeros for each message; 'H' or 'C', and 'R'.
abbrev pub outgoing_rtsp_iv : ℕ → Bytes
outgoing_rtsp_iv counter = marked 72 82 counter (replicate 12 0)

abbrev pub incoming_rtsp_iv : ℕ → Bytes
incoming_rtsp_iv seq = marked 67 82 seq (replicate 12 0)

-- A use of the key: what for, with which number, and the vector that it starts from.
pub data Stream : Type 0 where
  host_control client_control video host_rtsp client_rtsp : Stream

pub record Use : Type 0 where
  pub stream : Stream
  pub control_v2 : Bool  -- encryptionFlagsEnabled & SS_ENC_CONTROL_V2
  pub number : ℕ
  pub kept : Bytes

abbrev pub iv_of : Stream → Bool → ℕ → Bytes → Bytes
iv_of host_control v2 n iv = outgoing_control_iv v2 n iv
iv_of client_control v2 n iv = incoming_control_iv v2 n iv
iv_of video v2 n iv = video_iv n iv
iv_of host_rtsp v2 n iv = outgoing_rtsp_iv n
iv_of client_rtsp v2 n iv = incoming_rtsp_iv n

unfoldable pub nonce : Use → Bytes
nonce u = iv_of u.stream u.control_v2 u.number u.kept

-- Counters of 32 bits, of 64 bits for the video, whose vector has 12 bytes; the control stream not with
-- its older encryption.
abbrev pub Fits : Stream → Bool → ℕ → Bytes → Type 0
Fits host_control v2 n iv = (v2 ≡ true) × (n < 2 ^ 32)
Fits client_control v2 n iv = (v2 ≡ true) × (n < 2 ^ 32)
Fits video v2 n iv = (n < 2 ^ 64) × (length iv ≡ 12)
Fits host_rtsp v2 n iv = n < 2 ^ 32
Fits client_rtsp v2 n iv = n < 2 ^ 32
