-- ===== src/Stream/Slices/Replaced.antt =====
-- What `replace` of src/stream.cpp makes of a frame.
use mathlib.Core.List.{append_assoc, append-nil}
use midnight_sun.Prelude.{
  ℕ, zero, suc, ◌+◌, ◌≤◌, ◌≡◌, refl, sym, ap, ◌∙◌, inl, inr, some, ltb, ◌<◌, ◌≢◌, true, false, [],
  ◌∷◌, ◌++◌, Bool-cases, length, length-append, drop-append, take, drop, arith,
}
use midnight_sun.Prelude.Maps.{Bytes, eq_bytes_sound}
use midnight_sun.Prelude.Segments.{take-drop}
use midnight_sun.Stream.Slices.{is_end, starts_with, search, replace}

search-append : (old xs : Bytes) → (search old xs).0 ++ (search old xs).1 ≡ xs
search-append old [] = refl
search-append old (x ∷ xs) = elim (Bool-cases (starts_with old (x ∷ xs))) [
  | inl found ↦ rw found refl
  | inr absent ↦ rw absent (ap (λ l. x ∷ l) (search-append old xs))
]

-- The text stands at none of the places before `n`.
abbrev pub Absent : Bytes → Bytes → ℕ → Type 0
Absent old xs n = (i : ℕ) → i < n → starts_with old (drop i xs) ≡ false

Absent-cons :
    (old : Bytes) (x : ℕ) (xs : Bytes) (n : ℕ)
    → starts_with old (x ∷ xs) ≡ false
    → Absent old xs n
    → Absent old (x ∷ xs) (suc n)
Absent-cons old x xs n here later zero h = here
Absent-cons old x xs n here later (suc i) h = later i (omega arith)

-- Where it is found, it is the first place.
search-found :
    (old xs : Bytes)
    → (search old xs).1 ≢ []
    → (starts_with old (search old xs).1 ≡ true) × Absent old xs (length (search old xs).0)
search-found old [] = λ ne. absurd (ne refl)
search-found old (x ∷ xs) = elim (Bool-cases (starts_with old (x ∷ xs))) [
  | inl found ↦ rw found (λ ne. (found, λ i h. elim h [ ]))
  | inr absent ↦ rw absent (λ ne.
      let (here, before) = search-found old xs ne in
      (here, Absent-cons old x xs (length (search old xs).0) absent before))
]

is_end-true : (xs : Bytes) → is_end xs ≡ true → xs ≡ []
is_end-true [] e = refl
is_end-true (x ∷ xs) e = absurd (cc)

is_end-false : (xs : Bytes) → xs ≢ [] → is_end xs ≡ false
is_end-false [] ne = absurd (ne refl)
is_end-false (x ∷ xs) ne = refl

nonempty_length : (xs : Bytes) → is_end xs ≡ false → (xs ≢ []) × (0 < length xs)
nonempty_length [] e = absurd (cc)
nonempty_length (x ∷ xs) e = (λ k. cc, omega arith)

-- `replace` where the old text stands somewhere: the frame falls into three parts, the first of which
-- ends at the first place of the old text, and the new text takes the place of the middle one.
pub replace-found :
    (original old new : Bytes)
    → (search old original).1 ≢ []
    → (before after : Bytes) × ((original ≡ before ++ old ++ after)
        × ((replace original old new ≡ some (before ++ new ++ after))
            × Absent old original (length before)))
unfolding replace
replace-found original old new ne =
    let (here, first) = search-found old original ne in
    let before = (search old original).0 in
    let next = (search old original).1 in
    let front : take (length old) next ≡ old = eq_bytes_sound (take (length old) next) old here in
    let whole : next ≡ old ++ drop (length old) next =
      sym (take-drop (length old) next) ∙ ap (λ l. l ++ drop (length old) next) front in
    let parts : original ≡ before ++ old ++ drop (length old) next =
      sym (search-append old original)
      ∙ ap (λ l. before ++ l) whole
      ∙ sym (append_assoc before old (drop (length old) next)) in
    let room : ltb (length original + length new) (length old) ≡ false = ground (
      arith,
      ap length parts,
      length-append (before ++ old) (drop (length old) next),
      length-append before old,
    ) in
    (before, drop (length old) next, (parts, (rw (is_end-false next ne, room) refl, first)))

-- A frame in which the old text does not stand comes through `replace` as it is, if the old text is
-- no longer than the frame and the new text together.
pub replace-Absent :
    (original old new : Bytes)
    → length old ≤ length original + length new
    → Absent old original (length original)
    → replace original old new ≡ some original
unfolding replace
replace-Absent original old new small nowhere =
    let before = (search old original).0 in
    let next = (search old original).1 in
    let joined : before ++ next ≡ original = search-append old original in
    let room : ltb (length original + length new) (length old) ≡ false = ground arith in
    elim (Bool-cases (is_end next)) [
      | inl end ↦
          rw (end, room)
            (ap some (
              sym (append-nil before)
              ∙ ap (λ l. before ++ l) (sym (is_end-true next end))
              ∙ joined))
      | inr found ↦
          let (ne, more) = nonempty_length next found in
          let here : starts_with old (drop (length before) original) ≡ true =
            ap (λ l. starts_with old (drop (length before) l)) (sym joined)
            ∙ ap (starts_with old) (drop-append before next)
            ∙ (search-found old original ne).0 in
          let inside : length before < length original =
            omega (arith, length-append before next, ap length joined) in
          absurd (cc (here, nowhere (length before) inside))
    ]
