-- ===== src/Config/Ends.antt =====
-- The loop of `parse_config` in src/config.cpp ends.
use midnight_sun.Prelude.{
  ℕ, zero, suc, ◌+◌, ◌-◌, ◌≤◌, ◌≡◌, refl, inl, inr, Bool, some, List, [], ◌∷◌, ◌==◌, Bool-cases,
  length, drop, arith,
}
use midnight_sun.Prelude.Maps.{Bytes}
use midnight_sun.Config.{
  endline, whitespace, is_hash, is_equals, space_tab, before, from, skip, trim_end, depth_after,
  skip_list, list_value, option_value, option_parts, parse_option, next_line, add_option,
  parse_lines, parse_config,
}

length-drop : (n : ℕ) (xs : Bytes) → length (drop n xs) ≤ length xs
length-drop zero xs = omega arith
length-drop (suc n) [] = omega arith
length-drop (suc n) (x ∷ xs) = omega (arith, length-drop n xs)

length-from : (p : ℕ → Bool) (xs : Bytes) → length (from p xs) ≤ length xs
length-from p [] = omega arith
length-from p (x ∷ xs) = elim (Bool-cases (p x)) [
  | inl e ↦ rw e (omega arith)
  | inr e ↦ rw e (omega (arith, length-from p xs))
]

length-skip : (p : ℕ → Bool) (xs : Bytes) → length (skip p xs) ≤ length xs
length-skip p [] = omega arith
length-skip p (x ∷ xs) = elim (Bool-cases (p x)) [
  | inl e ↦ rw e (omega (arith, length-skip p xs))
  | inr e ↦ rw e (omega arith)
]

length-skip_list : (stack : ℕ) (xs : Bytes) → length (skip_list stack xs).1 ≤ length xs
length-skip_list stack [] = by_stack stack
  where
    by_stack : (n : ℕ) → length (skip_list n []).1 ≤ 0
    by_stack n = omega arith
length-skip_list zero (x ∷ xs) = omega arith
length-skip_list (suc stack) (x ∷ xs) =
    omega (arith, length-skip_list (depth_after x (suc stack)) xs)

length-list_value : (name value rest : Bytes) → length (list_value name value rest).0 ≤ length value
length-list_value name [] rest = omega arith
length-list_value name (x ∷ xs) rest = length-skip_list 1 (x ∷ xs)

length-option_value :
    (name line value rest : Bytes) (n : ℕ)
    → length value ≤ n
    → length rest ≤ n
    → length (option_value name line value rest).0 ≤ n
length-option_value name [] value rest n v r = r
length-option_value name (x ∷ line) value rest n v r = elim (Bool-cases (x == 91)) [
  | inl e ↦ rw e (omega (arith, length-list_value name (drop 1 value) rest, length-drop 1 value))
  | inr e ↦ rw e r
]

length-option_parts :
    (text name tail rest : Bytes)
    → length rest ≤ length text
    → length (option_parts text name tail rest).0 ≤ length text
length-option_parts text name [] rest r = r
length-option_parts text [] (eq ∷ tail) rest r = r
length-option_parts text (n ∷ name) (eq ∷ tail) rest r =
    let at = length (n ∷ name) + 1 + (length tail - length (skip space_tab tail)) in
    length-option_value (trim_end space_tab (n ∷ name)) (drop at (before endline text))
      (drop at text) rest (length text) (length-drop at text) r

length-parse_option : (xs : Bytes) → length (parse_option xs).0 ≤ length xs
unfolding parse_option
length-parse_option xs =
    let text = skip whitespace xs in
    let meaning = trim_end whitespace (before is_hash (before endline text)) in
    let parts =
      length-option_parts text (before is_equals meaning) (from is_equals meaning)
        (from endline text) (length-from endline text) in
    omega (arith, parts, length-skip whitespace xs)

length-next_line : (xs : Bytes) (n : ℕ) → length xs ≤ suc n → length (next_line xs) ≤ n
length-next_line [] n l = omega arith
length-next_line (x ∷ xs) n l = elim (Bool-cases (x == 13)) [
  | inl e ↦ rw e (omega (arith, length-drop 1 xs))
  | inr e ↦ rw e (omega arith)
]

parse_lines_ends :
    (fuel : ℕ) (text : Bytes) (vars : List (Bytes × Bytes))
    → length text ≤ fuel
    → (found : List (Bytes × Bytes)) × (parse_lines fuel text vars ≡ some found)
unfolding parse_lines
parse_lines_ends zero [] vars l = (vars, refl)
parse_lines_ends zero (x ∷ xs) vars l = absurd (omega arith)
parse_lines_ends (suc fuel) [] vars l = (vars, refl)
parse_lines_ends (suc fuel) (x ∷ xs) vars l =
    let endl = (parse_option (x ∷ xs)).0 in
    parse_lines_ends fuel (next_line endl) (add_option (parse_option (x ∷ xs)).1 vars)
      (length-next_line endl fuel (omega (arith, length-parse_option (x ∷ xs))))

-- The loop ends on every text, well formed or not: each round goes on behind where it began.
pub parse_config_ends :
    (text : Bytes) → (vars : List (Bytes × Bytes)) × (parse_config text ≡ some vars)
unfolding parse_config
parse_config_ends text = parse_lines_ends (length text) text [] (omega arith)
