-- ===== src/Util/Hex/RoundTrip.antt =====
-- Text made by `hex_vec` of src/utility.h reads back as the bytes that it was made of.
use mathlib.Core.Path.{ap₂}
use mathlib.Core.List.{reverse, reverse-append, reverse-reverse, append-nil, reverse-cons}
use midnight_sun.Prelude.{
  ℕ, zero, suc, ◌-◌, ◌*◌, ◌/◌, ◌%◌, ◌<◌, Bool, true, false, ◌&&◌, ◌≡◌, refl, sym, ap, ◌∙◌, List, [],
  ◌∷◌, ◌++◌, ◌==◌, ==_iff, length, keep_if, arith, length-append, All, subst, replicate,
}
use midnight_sun.Util.Hex.{
  hex_digit, hex_bytes, hex_vec, is_convertable, skip, element, from_hex_loop, from_hex_vec,
  from_hex, count_digits,
}

-- Whether a byte is put together again from the two digits that it is written with.
rejoins : ℕ → Bool
rejoins x = element (hex_digit (x / 16)) (hex_digit (x % 16)) == x

up_to_rejoin : ℕ → Bool
up_to_rejoin zero = true
up_to_rejoin (suc n) = up_to_rejoin n && rejoins n

rejoins_below : (n x : ℕ) → x < n → up_to_rejoin n ≡ true → rejoins x ≡ true
unfolding up_to_rejoin
rejoins_below zero x below all = absurd (omega arith)
rejoins_below (suc n) x below all = ground (arith, rejoins_below n x)

bytes_rejoin : up_to_rejoin 256 ≡ true
unfolding up_to_rejoin rejoins
bytes_rejoin = refl

element_of_digits : (x : ℕ) → x < 256 → element (hex_digit (x / 16)) (hex_digit (x % 16)) ≡ x
unfolding rejoins
element_of_digits x below =
    let same : rejoins x ≡ true = rejoins_below 256 x below bytes_rejoin in (==_iff _ x).0 same

hex_digit-is_convertable : (n : ℕ) → n < 16 → is_convertable (hex_digit n) ≡ true
hex_digit-is_convertable n h = ground arith

abbrev pub Bytes : List ℕ → Type 0
Bytes = All λ b. b < 256

-- The characters of a text, from the last to the first, for the bytes in that order.
backwards : List ℕ → List ℕ
backwards [] = []
backwards (b ∷ bs) = hex_digit (b % 16) ∷ hex_digit (b / 16) ∷ backwards bs

backwards-append : (bs cs : List ℕ) → backwards (bs ++ cs) ≡ backwards bs ++ backwards cs
unfolding backwards
backwards-append [] cs = refl
backwards-append (b ∷ bs) cs =
    ap (λ l. hex_digit (b % 16) ∷ hex_digit (b / 16) ∷ l) (backwards-append bs cs)

reverse-hex_bytes : (bs : List ℕ) → reverse (hex_bytes bs) ≡ backwards (reverse bs)
unfolding backwards
reverse-hex_bytes [] = refl
reverse-hex_bytes (b ∷ bs) =
    reverse-append (hex_digit (b / 16) ∷ hex_digit (b % 16) ∷ []) (hex_bytes bs)
    ∙ ap (λ l. l ++ (hex_digit (b % 16) ∷ hex_digit (b / 16) ∷ [])) (reverse-hex_bytes bs)
    ∙ sym (backwards-append (reverse bs) (b ∷ []))
    ∙ sym (ap backwards (reverse-cons b bs))

skip_digit : (n : ℕ) (rest : List ℕ) → n < 16 → skip (hex_digit n ∷ rest) ≡ hex_digit n ∷ rest
skip_digit n rest h = rw (hex_digit-is_convertable n h)

from_hex_loop-backwards : (bs : List ℕ) → Bytes bs → from_hex_loop (length bs) (backwards bs) ≡ bs
unfolding from_hex_loop backwards
from_hex_loop-backwards [] h = refl
from_hex_loop-backwards (b ∷ bs) h =
    rw (skip_digit (b % 16) (hex_digit (b / 16) ∷ backwards bs) (omega arith), from_hex_loop)
      (rw (skip_digit (b / 16) (backwards bs) (omega (arith, h.0)))
        (ap₂ ◌∷◌ (element_of_digits b h.0) (from_hex_loop-backwards bs h.1)))

count_digits-hex_bytes : (bs : List ℕ) → Bytes bs → count_digits (hex_bytes bs) ≡ length bs * 2
count_digits-hex_bytes [] h = refl
count_digits-hex_bytes (b ∷ bs) h =
    rw (hex_digit-is_convertable (b / 16) (omega (arith, h.0)), keep_if)
      (rw (hex_digit-is_convertable (b % 16) (omega arith), keep_if)
        (omega (arith, count_digits-hex_bytes bs h.1)))

Bytes-append : (xs ys : List ℕ) → Bytes xs → Bytes ys → Bytes (xs ++ ys)
Bytes-append [] ys h k = k
Bytes-append (x ∷ xs) ys h k = (h.0, Bytes-append xs ys h.1 k)

Bytes-reverse : (bs : List ℕ) → Bytes bs → Bytes (reverse bs)
Bytes-reverse [] h = tt
Bytes-reverse (b ∷ bs) h =
    subst Bytes (sym (reverse-cons b bs))
      (Bytes-append (reverse bs) (b ∷ []) (Bytes-reverse bs h.1) (h.0, tt))

length-reverse : (bs : List ℕ) → length (reverse bs) ≡ length bs
length-reverse [] = refl
length-reverse (b ∷ bs) =
    omega
      (arith, ap length (reverse-cons b bs), length-append (reverse bs) (b ∷ []), length-reverse bs)

-- What the loop reads from a text of bytes, last character first: the bytes, last one first.
from_hex_loop-hex_bytes :
    (bs : List ℕ)
    → Bytes bs
    → from_hex_loop (count_digits (hex_bytes bs) / 2) (reverse (hex_bytes bs)) ≡ reverse bs
from_hex_loop-hex_bytes bs h =
    let size : count_digits (hex_bytes bs) / 2 ≡ length (reverse bs) =
      omega (arith, count_digits-hex_bytes bs h, length-reverse bs) in
    ap₂ from_hex_loop size (reverse-hex_bytes bs)
    ∙ from_hex_loop-backwards (reverse bs) (Bytes-reverse bs h)

no_padding :
    (bs : List ℕ)
    → Bytes bs
    → from_hex_loop (count_digits (hex_bytes bs) / 2) (reverse (hex_bytes bs))
        ++ replicate (length bs - count_digits (hex_bytes bs) / 2) 0
      ≡ from_hex_loop (count_digits (hex_bytes bs) / 2) (reverse (hex_bytes bs))
no_padding bs h =
    let none_left : length bs - count_digits (hex_bytes bs) / 2 ≡ 0 =
      omega (arith, count_digits-hex_bytes bs h) in
    ap
      (λ n.
        from_hex_loop (count_digits (hex_bytes bs) / 2) (reverse (hex_bytes bs)) ++ replicate n 0)
      none_left
    ∙ append-nil (from_hex_loop (count_digits (hex_bytes bs) / 2) (reverse (hex_bytes bs)))

-- Bytes written with `hex_vec` and read with `from_hex_vec` are the same bytes, in either order, if both are given the
-- same order.
pub from_hex_vec-hex_vec :
    (bs : List ℕ) (rev : Bool) → Bytes bs → from_hex_vec (hex_vec bs rev) rev ≡ bs
unfolding hex_vec from_hex_vec
from_hex_vec-hex_vec bs true h = ap reverse (from_hex_loop-hex_bytes bs h) ∙ reverse-reverse bs
from_hex_vec-hex_vec bs false h =
    from_hex_loop-hex_bytes (reverse bs) (Bytes-reverse bs h) ∙ reverse-reverse bs

-- A value of `length bs` bytes reads back the same way through `from_hex`, and no padding is added.
pub from_hex-hex_vec :
    (bs : List ℕ) (rev : Bool) → Bytes bs → from_hex (length bs) (hex_vec bs rev) rev ≡ bs
unfolding hex_vec from_hex
from_hex-hex_vec bs true h =
    ap reverse (no_padding bs h ∙ from_hex_loop-hex_bytes bs h) ∙ reverse-reverse bs
from_hex-hex_vec bs false h =
    subst
      (λ n.
        from_hex_loop (count_digits (hex_bytes (reverse bs)) / 2) (reverse (hex_bytes (reverse bs)))
          ++ replicate (n - count_digits (hex_bytes (reverse bs)) / 2) 0
        ≡ bs)
      (length-reverse bs)
      (no_padding (reverse bs) (Bytes-reverse bs h)
        ∙ from_hex_loop-hex_bytes (reverse bs) (Bytes-reverse bs h)
        ∙ reverse-reverse bs)
