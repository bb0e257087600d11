-- ===== src/Config/Lines.antt =====
-- One line of the configuration, as `saveConfig` in src/confighttp.cpp writes it and `parse_option` in
-- src/config.cpp reads it.
use midnight_sun.Prelude.{
  ℕ, ◌+◌, ◌-◌, ◌≡◌, refl, sym, ap, ◌∙◌, Bool, true, false, ◌||◌, some, [], ◌∷◌, ◌++◌, ◌==◌, All,
  length, drop, arith, length-append, drop-append, append_assoc,
}
use midnight_sun.Prelude.Maps.{Bytes}
use midnight_sun.Config.{
  endline, whitespace, is_hash, is_equals, space_tab, before, from, skip, cons_trimmed, trim_end,
  without_comments, to_string, option_value, option_parts, parse_option, config_line,
}

abbrev pub HasNone : (ℕ → Bool) → Bytes → Type 0
HasNone p xs = All (λ c. p c ≡ false) xs

before_stop :
    (p : ℕ → Bool) (xs : Bytes) (y : ℕ) (zs : Bytes)
    → HasNone p xs
    → p y ≡ true
    → before p (xs ++ y ∷ zs) ≡ xs
before_stop p [] y zs all stop = rw stop refl
before_stop p (x ∷ xs) y zs (e, all) stop = rw e (ap (λ l. x ∷ l) (before_stop p xs y zs all stop))

from_stop :
    (p : ℕ → Bool) (xs : Bytes) (y : ℕ) (zs : Bytes)
    → HasNone p xs
    → p y ≡ true
    → from p (xs ++ y ∷ zs) ≡ y ∷ zs
from_stop p [] y zs all stop = rw stop refl
from_stop p (x ∷ xs) y zs (e, all) stop = rw e (from_stop p xs y zs all stop)

before_all : (p : ℕ → Bool) (xs : Bytes) → HasNone p xs → before p xs ≡ xs
before_all p [] all = refl
before_all p (x ∷ xs) (e, all) = rw e (ap (λ l. x ∷ l) (before_all p xs all))

trim_end-append :
    (p : ℕ → Bool) (xs : Bytes) (y : ℕ) (ys : Bytes)
    → trim_end p (y ∷ ys) ≡ y ∷ ys
    → trim_end p (xs ++ y ∷ ys) ≡ xs ++ y ∷ ys
trim_end-append p [] y ys e = e
trim_end-append p (x ∷ []) y ys e = ap (cons_trimmed p x) e
trim_end-append p (x ∷ x' ∷ xs) y ys e = ap (cons_trimmed p x) (trim_end-append p (x' ∷ xs) y ys e)

trim_end_last :
    (p : ℕ → Bool) (xs : Bytes) (y : ℕ) → HasNone p xs → p y ≡ true → trim_end p (xs ++ y ∷ []) ≡ xs
trim_end_last p [] y all stop = rw stop refl
trim_end_last p (x ∷ []) y (e, all) stop = rw (stop, e) refl
trim_end_last p (x ∷ x' ∷ xs) y (e, all) stop =
    ap (cons_trimmed p x) (trim_end_last p (x' ∷ xs) y all stop)

without_comments-plain : (xs : Bytes) → HasNone is_hash xs → without_comments false xs ≡ xs
without_comments-plain [] all = refl
without_comments-plain (x ∷ xs) (e, all) = rw e (ap (λ l. x ∷ l) (without_comments-plain xs all))

HasNone-append : (p : ℕ → Bool) (xs ys : Bytes) → HasNone p xs → HasNone p ys → HasNone p (xs ++ ys)
HasNone-append p [] ys all more = more
HasNone-append p (x ∷ xs) ys (e, all) more = (e, HasNone-append p xs ys all more)

none_of_fewer :
    (p q : ℕ → Bool)
    → ((c : ℕ) → p c ≡ false → q c ≡ false)
    → (xs : Bytes) → HasNone p xs
    → HasNone q xs
none_of_fewer p q less [] all = tt
none_of_fewer p q less (x ∷ xs) (e, all) = (less x e, none_of_fewer p q less xs all)

line_end : (c : ℕ) → whitespace c ≡ false → endline c ≡ false
line_end c e = by_tests (space_tab c) (endline c) e
  where
    by_tests : (s e : Bool) → (s || e) ≡ false → e ≡ false
    by_tests true e h = absurd (cc h)
    by_tests false e h = h

blank : (c : ℕ) → whitespace c ≡ false → space_tab c ≡ false
blank c e = by_tests (space_tab c) (endline c) e
  where
    by_tests : (s e : Bool) → (s || e) ≡ false → s ≡ false
    by_tests true e h = h
    by_tests false e h = refl

-- A name of an option: not empty, and without blanks, line ends, `#` and `=`.
abbrev pub IsName : Bytes → Type 0
IsName [] = ⊥
IsName (n ∷ name) =
    HasNone whitespace (n ∷ name) × (HasNone is_hash (n ∷ name) × HasNone is_equals (n ∷ name))

-- A value that is not empty: one line without `#`, whose ends are no blanks, and not a list.
abbrev pub IsValue : Bytes → Type 0
IsValue [] = ⊥
IsValue (v ∷ value) =
    HasNone endline (v ∷ value)
    × (HasNone is_hash (v ∷ value)
        × ((space_tab v ≡ false)
            × (((v == 91) ≡ false) × (trim_end whitespace (v ∷ value) ≡ v ∷ value))))

-- What the four searches find.
parse_option_at :
    (xs line meaning name tail rest : Bytes)
    → skip whitespace xs ≡ xs
    → before endline xs ≡ line
    → trim_end whitespace (before is_hash line) ≡ meaning
    → before is_equals meaning ≡ name
    → from is_equals meaning ≡ tail
    → from endline xs ≡ rest
    → parse_option xs ≡ option_parts xs name tail rest
unfolding parse_option
parse_option_at xs line meaning name tail rest e1 e2 e3 e4 e5 e6 = rw (e1, e2, e3, e4, e5, e6) refl

-- The cut at the first character of the value.
option_parts_at :
    (xs line : Bytes) (n : ℕ) (name : Bytes) (v : ℕ) (value rest : Bytes)
    → before endline xs ≡ line
    → line ≡ (n ∷ name ++ 32 ∷ 61 ∷ 32 ∷ []) ++ v ∷ value
    → IsName (n ∷ name)
    → IsValue (v ∷ value)
    → option_parts xs (n ∷ name ++ 32 ∷ []) (61 ∷ 32 ∷ v ∷ value) rest
      ≡ (rest, some (n ∷ name, v ∷ value))
option_parts_at xs line n name v value rest e2 cut (blanks, (hashes, equals))
      (ends, (hashes', (e, (e', trimmed)))) =
    let pre : Bytes = n ∷ name ++ 32 ∷ 61 ∷ 32 ∷ [] in
    let skipped : skip space_tab (v ∷ value) ≡ v ∷ value = rw e refl in
    let at =
      length (n ∷ name ++ 32 ∷ [])
      + 1
      + (length (32 ∷ v ∷ value) - length (skip space_tab (v ∷ value))) in
    let here : at ≡ length pre = omega (
      arith,
      ap (λ l. length l) skipped,
      length-append name (32 ∷ []),
      length-append name (32 ∷ 61 ∷ 32 ∷ []),
    ) in
    let found : drop at (before endline xs) ≡ v ∷ value =
      ap (λ k. drop k (before endline xs)) here
      ∙ ap (drop (length pre)) (e2 ∙ cut)
      ∙ drop-append pre (v ∷ value) in
    let named : trim_end space_tab (n ∷ name ++ 32 ∷ []) ≡ n ∷ name =
      trim_end_last space_tab (n ∷ name) 32
        (none_of_fewer whitespace space_tab blank (n ∷ name) blanks) refl in
    ap (λ l. option_value (trim_end space_tab (n ∷ name ++ 32 ∷ [])) l (drop at xs) rest) found
    ∙ ap (λ m. option_value m (v ∷ value) (drop at xs) rest) named
    ∙ rw e' (
        ap (λ m. (rest, some (m, to_string (v ∷ value)))) (without_comments-plain (n ∷ name) hashes)
        ∙ ap (λ m. (rest, some (n ∷ name, m))) (without_comments-plain (v ∷ value) hashes'))

-- A line that `saveConfig` writes for a name and a value is read as that name and value, and the rest of
-- the text is left from the end of the line on, whatever it is.
pub parse_option-line :
    (n : ℕ) (name : Bytes) (v : ℕ) (value rest : Bytes)
    → IsName (n ∷ name)
    → IsValue (v ∷ value)
    → parse_option ((n ∷ name ++ 32 ∷ 61 ∷ 32 ∷ v ∷ value) ++ 10 ∷ rest)
      ≡ (10 ∷ rest, some (n ∷ name, v ∷ value))
parse_option-line n name v value rest (blanks, (hashes, equals))
      (ends, (hashes', (e, (e', trimmed)))) =
    let line : Bytes = n ∷ name ++ 32 ∷ 61 ∷ 32 ∷ v ∷ value in
    let xs : Bytes = line ++ 10 ∷ rest in
    let cut : line ≡ (n ∷ name ++ 32 ∷ 61 ∷ 32 ∷ []) ++ v ∷ value =
      sym (append_assoc (n ∷ name) (32 ∷ 61 ∷ 32 ∷ []) (v ∷ value)) in
    let cut_equals : line ≡ (n ∷ name ++ 32 ∷ []) ++ 61 ∷ 32 ∷ v ∷ value =
      sym (append_assoc (n ∷ name) (32 ∷ []) (61 ∷ 32 ∷ v ∷ value)) in
    let line_ends : HasNone endline line =
      HasNone-append endline (n ∷ name) (32 ∷ 61 ∷ 32 ∷ v ∷ value)
        (none_of_fewer whitespace endline line_end (n ∷ name) blanks)
        (refl, (refl, (refl, ends))) in
    let line_hashes : HasNone is_hash line =
      HasNone-append is_hash (n ∷ name) (32 ∷ 61 ∷ 32 ∷ v ∷ value) hashes
        (refl, (refl, (refl, hashes'))) in
    let named : HasNone is_equals (n ∷ name ++ 32 ∷ []) =
      HasNone-append is_equals (n ∷ name) (32 ∷ []) equals (refl, tt) in
    let found = before_stop endline line 10 rest line_ends refl in
    parse_option_at xs line line (n ∷ name ++ 32 ∷ []) (61 ∷ 32 ∷ v ∷ value) (10 ∷ rest)
      (rw (blanks.0) refl) found
      (ap (trim_end whitespace) (before_all is_hash line line_hashes ∙ cut)
        ∙ trim_end-append whitespace (n ∷ name ++ 32 ∷ 61 ∷ 32 ∷ []) v value trimmed
        ∙ sym cut)
      (ap (before is_equals) cut_equals
        ∙ before_stop is_equals (n ∷ name ++ 32 ∷ []) 61 (32 ∷ v ∷ value) named refl)
      (ap (from is_equals) cut_equals
        ∙ from_stop is_equals (n ∷ name ++ 32 ∷ []) 61 (32 ∷ v ∷ value) named refl)
      (from_stop endline line 10 rest line_ends refl)
    ∙ option_parts_at xs line n name v value (10 ∷ rest) found cut (blanks, (hashes, equals))
        (ends, (hashes', (e, (e', trimmed))))

pub config_line-append :
    (n : ℕ) (name : Bytes) (v : ℕ) (value rest : Bytes)
    → config_line (n ∷ name, v ∷ value) ++ rest
      ≡ (n ∷ name ++ 32 ∷ 61 ∷ 32 ∷ v ∷ value) ++ 10 ∷ rest
config_line-append n name v value rest =
    append_assoc (n ∷ name ++ 32 ∷ 61 ∷ 32 ∷ [] ++ v ∷ value) (10 ∷ []) rest
    ∙ ap (λ l. l ++ 10 ∷ rest) (append_assoc (n ∷ name) (32 ∷ 61 ∷ 32 ∷ []) (v ∷ value))
