-- ===== src/Stream/Nonces/Separate.antt =====
-- No two uses of a client's key in src/stream.cpp and src/rtsp.cpp share an initialization vector.
use native.Mathlib.Nat.{pow-suc}
use midnight_sun.Prelude.{
  ℕ, zero, suc, ◌+◌, ◌*◌, ◌/◌, ◌%◌, ◌^◌, ◌<◌, ◌≡◌, refl, sym, ap, ◌∙◌, Bool, true, false, none,
  some, [], ◌∷◌, length, take, drop, set, replicate, get_elem?, get_elem?-set_self,
  get_elem?-set_ne, length-set, if◌then◌else◌, ◌==◌, arith,
}
use midnight_sun.Prelude.Maps.{Bytes}
use midnight_sun.Prelude.Segments.{length-drop}
use midnight_sun.Stream.Messages.{little, resize}
use midnight_sun.Stream.Nonces.{
  Stream, host_control, client_control, video, host_rtsp, client_rtsp, Use, le_bytes, marked, iv_of,
  nonce, Fits, video_iv,
}

pub little-le_bytes : (k n : ℕ) → n < 256 ^ k → little (le_bytes k n) ≡ n
little-le_bytes zero n h = omega arith
little-le_bytes (suc k) n h =
    let rest : n / 256 < 256 ^ k = omega (arith, pow-suc 256 k) in
    ap (λ m. n % 256 + 2 ^ 8 * m) (little-le_bytes k (n / 256) rest) ∙ omega arith

length-resize : (n : ℕ) (iv : Bytes) → length (resize n iv) ≡ n
length-resize zero iv = refl
length-resize (suc n) [] = ap suc (length-resize n [])
length-resize (suc n) (b ∷ iv) = ap suc (length-resize n iv)

-- What a vector says about its use.
abbrev letter : ℕ → Bytes → ℕ
letter i iv = elim (get_elem? iv i) [ none ↦ 0 | some b ↦ b ]

abbrev read_stream : ℕ → ℕ → Stream
read_stream a b =
    if b == 86
    then video
    else if b == 67
    then (if a == 72 then host_control else client_control)
    else if a == 72
    then host_rtsp
    else client_rtsp

abbrev read_number : Stream → Bytes → ℕ
read_number video iv = little (take 8 iv)
read_number _ iv = little (take 4 iv)

letters_marked :
    (a b seq : ℕ) (iv : Bytes)
    → length iv ≡ 12
    → (letter 10 (marked a b seq iv) ≡ a) × (letter 11 (marked a b seq iv) ≡ b)
letters_marked a b seq iv size =
    let back = drop 4 iv in
    let long : length back ≡ 8 = omega (arith, length-drop 4 iv) in
    let long_set : length (set back 6 a) ≡ 8 = length-set back 6 a ∙ long in
    let tenth : get_elem? (set (set back 6 a) 7 b) 6 ≡ some a =
      get_elem?-set_ne (set back 6 a) {i = 7} {j = 6} b (λ e. omega arith)
      ∙ get_elem?-set_self back 6 a (omega arith) in
    let last : get_elem? (set (set back 6 a) 7 b) 7 ≡ some b =
      get_elem?-set_self (set back 6 a) 7 b (omega arith) in
    (rw tenth refl, rw last refl)

number_marked :
    (a b seq : ℕ) (iv : Bytes) → seq < 2 ^ 32 → little (take 4 (marked a b seq iv)) ≡ seq
number_marked a b seq iv h = little-le_bytes 4 seq h

letter_video : (n : ℕ) (iv : Bytes) → length iv ≡ 12 → letter 11 (video_iv n iv) ≡ 86
letter_video n iv size =
    let back = drop 8 iv in
    let long : length back ≡ 4 = omega (arith, length-drop 8 iv) in
    let last : get_elem? (set back 3 86) 3 ≡ some 86 = get_elem?-set_self back 3 86 (omega arith) in
    rw last refl

abbrev stream_of : Bytes → Stream
stream_of iv = read_stream (letter 10 iv) (letter 11 iv)

stream_marked :
    (a b seq : ℕ) (iv : Bytes) → length iv ≡ 12 → stream_of (marked a b seq iv) ≡ read_stream a b
stream_marked a b seq iv size =
    let (tenth, last) = letters_marked a b seq iv size in
    ap (λ x. read_stream x (letter 11 (marked a b seq iv))) tenth ∙ ap (read_stream a) last

-- A vector tells what it is used for, and its number.
stream_of-iv_of :
    (s : Stream) (v2 : Bool) (n : ℕ) (iv : Bytes) → Fits s v2 n iv → stream_of (iv_of s v2 n iv) ≡ s
stream_of-iv_of host_control true n iv fits =
    stream_marked 72 67 n (resize 12 iv) (length-resize 12 iv)
stream_of-iv_of host_control false n iv fits = absurd (cc (fits.0))
stream_of-iv_of client_control true n iv fits =
    stream_marked 67 67 n (resize 12 iv) (length-resize 12 iv)
stream_of-iv_of client_control false n iv fits = absurd (cc (fits.0))
stream_of-iv_of video v2 n iv fits =
    ap (read_stream (letter 10 (video_iv n iv))) (letter_video n iv fits.1)
stream_of-iv_of host_rtsp v2 n iv fits = stream_marked 72 82 n (replicate 12 0) refl
stream_of-iv_of client_rtsp v2 n iv fits = stream_marked 67 82 n (replicate 12 0) refl

read_number-iv_of :
    (s : Stream) (v2 : Bool) (n : ℕ) (iv : Bytes)
    → Fits s v2 n iv
    → read_number s (iv_of s v2 n iv) ≡ n
read_number-iv_of host_control true n iv fits = number_marked 72 67 n (resize 12 iv) fits.1
read_number-iv_of host_control false n iv fits = absurd (cc (fits.0))
read_number-iv_of client_control true n iv fits = number_marked 67 67 n (resize 12 iv) fits.1
read_number-iv_of client_control false n iv fits = absurd (cc (fits.0))
read_number-iv_of video v2 n iv fits = little-le_bytes 8 n fits.0
read_number-iv_of host_rtsp v2 n iv fits = number_marked 72 82 n (replicate 12 0) fits
read_number-iv_of client_rtsp v2 n iv fits = number_marked 67 82 n (replicate 12 0) fits

-- Two uses of a client's key for the video, for RTSP, or for a control stream with SS_ENC_CONTROL_V2,
-- with counters in the range of their type, that have the same vector are the same use: the same kind
-- of message with the same number, whatever the kept vectors hold. This is not said of the older
-- encryption of the control stream, whose vectors have one byte of the number and repeat, nor of the
-- vectors of input that is encrypted on a plain control stream.
pub nonce_separate :
    (u v : Use)
    → Fits u.stream u.control_v2 u.number u.kept
    → Fits v.stream v.control_v2 v.number v.kept
    → nonce u ≡ nonce v
    → (u.stream ≡ v.stream) × (u.number ≡ v.number)
unfolding nonce
nonce_separate u v fits fits' e =
    let streams : u.stream ≡ v.stream =
      sym (stream_of-iv_of u.stream u.control_v2 u.number u.kept fits)
      ∙ ap stream_of e
      ∙ stream_of-iv_of v.stream v.control_v2 v.number v.kept fits' in
    (
      streams,
      sym (read_number-iv_of u.stream u.control_v2 u.number u.kept fits)
          ∙ ap (read_number u.stream) e
          ∙ ap (λ s. read_number s (nonce v)) streams
          ∙ read_number-iv_of v.stream v.control_v2 v.number v.kept fits',
    )
