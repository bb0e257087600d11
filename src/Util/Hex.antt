-- ===== src/Util/Hex.antt =====
-- Hexadecimal text in src/utility.h: `hex_vec`, `from_hex` and `from_hex_vec`. A string is the list of its
-- characters, and a character and a byte are numbers below 256.
pub mod RoundTrip
mod Tests
use mathlib.Core.List.{reverse}
use Prim.Native.Nat.{bit_or}
use midnight_sun.Prelude.{
  ℕ, zero, suc, ◌+◌, ◌-◌, ◌*◌, ◌/◌, ◌%◌, Bool, true, false, ◌&&◌, ◌||◌, List, [], ◌∷◌, ◌++◌, ltb,
  leb, if◌then◌else◌, length, keep_if, replicate,
}

-- `_bits[n]` of "0123456789ABCDEF".
abbrev pub hex_digit : ℕ → ℕ
hex_digit n = if ltb n 10 then b'0' + n else b'A' + n - 10

abbrev pub hex_bytes : List ℕ → List ℕ
hex_bytes [] = []
hex_bytes (b ∷ bs) = hex_digit (b / 16) ∷ hex_digit (b % 16) ∷ hex_bytes bs

-- Forwards if `rev`, else from the last byte to the first.
unfoldable pub hex_vec : List ℕ → (rev : Bool) → List ℕ
hex_vec bytes rev = hex_bytes (if rev then bytes else reverse bytes)

abbrev pub is_digit : ℕ → Bool
is_digit ch = leb b'0' ch && leb ch b'9'

-- `'a' <= (ch | 32) && (ch | 32) <= 'z'`, which holds of the letters alone.
abbrev pub is_letter : ℕ → Bool
is_letter ch = (leb b'A' ch && leb ch b'Z') || (leb b'a' ch && leb ch b'z')

abbrev pub is_convertable : ℕ → Bool
is_convertable ch = is_digit ch || is_letter ch

-- `(ch | 32) - 'a' + 10` for a letter. A letter past F gives more than one digit holds.
abbrev pub convert : ℕ → ℕ
convert ch =
    if is_digit ch then ch - b'0' else if leb ch b'Z' then ch + 32 - b'a' + 10 else ch - b'a' + 10

-- `while (!is_convertable(*data)) --data;` over the characters from `data` backwards.
abbrev pub skip : List ℕ → List ℕ
skip [] = []
skip (ch ∷ chars) = if is_convertable ch then ch ∷ chars else skip chars

-- `(ch_l << 4) | ch_r` in a `uint8_t`.
abbrev pub element : (ch_l ch_r : ℕ) → ℕ
element ch_l ch_r = bit_or (convert ch_l * 16) (convert ch_r) % 256

-- The loop that fills the buffer, over the characters from the last to the first; `n` elements are left. The
-- count of digits keeps it inside the string.
unfoldable pub from_hex_loop : ℕ → List ℕ → List ℕ
from_hex_loop zero chars = []
from_hex_loop (suc n) chars = elim (skip chars) [
  | [] ↦ []
  | ch_r ∷ rest ↦ elim (skip rest) [
    | [] ↦ []
    | ch_l ∷ rest' ↦ element ch_l ch_r ∷ from_hex_loop n rest'
  ]
]

abbrev pub count_digits : List ℕ → ℕ
count_digits hex = length (keep_if is_convertable hex)

unfoldable pub from_hex_vec : List ℕ → (rev : Bool) → List ℕ
unfolding from_hex_loop
from_hex_vec hex rev =
    let buf = from_hex_loop (count_digits hex / 2) (reverse hex) in if rev then reverse buf else buf

-- `from_hex` of a type of `size` bytes, for text with at most that many pairs of digits.
unfoldable pub from_hex : (size : ℕ) → List ℕ → (rev : Bool) → List ℕ
unfolding from_hex_loop
from_hex size hex rev =
    let buf_size = count_digits hex / 2 in
    let buf = from_hex_loop buf_size (reverse hex) ++ replicate (size - buf_size) 0 in
    if rev then reverse buf else buf
