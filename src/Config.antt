-- ===== src/Config.antt =====
-- src/config.cpp: how the text of the configuration becomes names and values, and how some of them are
-- read; src/confighttp.cpp: the text that `saveConfig` writes. A position in a text is the list of the
-- characters from there on.
use midnight_sun.Prelude.{
  ℕ, zero, suc, ◌+◌, ◌-◌, Bool, true, false, not, ◌&&◌, ◌||◌, Option, none, some, List, [], ◌∷◌,
  ◌++◌, if◌then◌else◌, ltb, ◌==◌, length, drop,
}
use midnight_sun.Prelude.Maps.{Bytes, eq_bytes, find, emplace, erase}
pub mod Lines
pub mod Saved
pub mod Ends
pub mod Lists
pub mod Tests

abbrev pub endline : ℕ → Bool
endline ch = ch == 13 || ch == 10

abbrev pub space_tab : ℕ → Bool
space_tab ch = ch == 32 || ch == 9

abbrev pub whitespace : ℕ → Bool
whitespace ch = space_tab ch || endline ch

abbrev pub is_hash : ℕ → Bool
is_hash ch = ch == 35

abbrev pub is_equals : ℕ → Bool
is_equals ch = ch == 61

-- `std::find_if`: what stands before the first character that passes, and the text from it on.
abbrev pub before : (ℕ → Bool) → Bytes → Bytes
before p [] = []
before p (x ∷ xs) = let rest = before p xs in if p x then [] else x ∷ rest

abbrev pub from : (ℕ → Bool) → Bytes → Bytes
from p [] = []
from p (x ∷ xs) = let rest = from p xs in if p x then x ∷ xs else rest

-- `std::find_if_not`
abbrev pub skip : (ℕ → Bool) → Bytes → Bytes
skip p [] = []
skip p (x ∷ xs) = let rest = skip p xs in if p x then rest else x ∷ xs

-- The search from the end backwards: the text without the characters at its end that pass.
abbrev pub cons_trimmed : (ℕ → Bool) → ℕ → Bytes → Bytes
cons_trimmed p x [] = if p x then [] else x ∷ []
cons_trimmed p x (y ∷ ys) = x ∷ y ∷ ys

abbrev pub trim_end : (ℕ → Bool) → Bytes → Bytes
trim_end p [] = []
trim_end p (x ∷ xs) = cons_trimmed p x (trim_end p xs)

-- `to_string`: comments are left out, the ends of their lines are not.
abbrev pub without_comments : Bool → Bytes → Bytes
without_comments in_comment [] = []
without_comments true (x ∷ xs) =
    let out = without_comments false xs in
    let on = without_comments true xs in if endline x then x ∷ out else on
without_comments false (x ∷ xs) =
    let out = without_comments false xs in
    let on = without_comments true xs in if is_hash x then on else x ∷ out

abbrev pub to_string : Bytes → Bytes
to_string xs = without_comments false xs

-- `skip_list` with a depth: the characters up to the closing bracket, and the text behind it.
abbrev pub depth_after : ℕ → ℕ → ℕ
depth_after x stack = if x == 91 then stack + 1 else if x == 93 then stack - 1 else stack

abbrev pub skip_list : ℕ → Bytes → Bytes × Bytes
skip_list stack [] = ([], [])
skip_list zero (x ∷ xs) = ([], x ∷ xs)
skip_list (suc stack) (x ∷ xs) =
    let (inside, rest) = skip_list (depth_after x (suc stack)) xs in (x ∷ inside, rest)

-- The value that begins at `value`, where `line` is the part of it before the end of the line, and
-- `rest` the text from that end on.
abbrev pub list_value : Bytes → Bytes → Bytes → Bytes × Option (Bytes × Bytes)
list_value name [] rest = ([], none)
list_value name (x ∷ xs) rest =
    let (inside, behind) = skip_list 1 (x ∷ xs) in
    (behind, some (to_string name, to_string (91 ∷ inside)))

abbrev pub option_value : Bytes → Bytes → Bytes → Bytes → Bytes × Option (Bytes × Bytes)
option_value name [] value rest = (rest, none)
option_value name (x ∷ line) value rest =
    if x == 91
    then list_value name (drop 1 value) rest
    else (rest, some (to_string name, to_string (x ∷ line)))

-- With the position of the equals sign: `name` stands before it, and `tail` behind it, as far as the
-- line has a meaning.
abbrev pub option_parts : Bytes → Bytes → Bytes → Bytes → Bytes × Option (Bytes × Bytes)
option_parts text name [] rest = (rest, none)
option_parts text [] (eq ∷ tail) rest = (rest, none)
option_parts text (n ∷ name) (eq ∷ tail) rest =
    let at = length (n ∷ name) + 1 + (length tail - length (skip space_tab tail)) in
    option_value (trim_end space_tab (n ∷ name)) (drop at (before endline text)) (drop at text) rest

unfoldable pub parse_option : Bytes → Bytes × Option (Bytes × Bytes)
parse_option xs =
    let text = skip whitespace xs in
    let line = before endline text in
    let meaning = trim_end whitespace (before is_hash line) in
    option_parts text (before is_equals meaning) (from is_equals meaning) (from endline text)

-- The step over the end of a line.
abbrev pub next_line : Bytes → Bytes
next_line [] = []
next_line (x ∷ xs) = if x == 13 then drop 2 (x ∷ xs) else xs

abbrev pub add_option : Option (Bytes × Bytes) → List (Bytes × Bytes) → List (Bytes × Bytes)
add_option none vars = vars
add_option (some (name, value)) vars = emplace name value vars

abbrev pub is_empty : Bytes → Bool
is_empty [] = true
is_empty (x ∷ xs) = false

-- The loop, none where the fuel does not suffice.
unfoldable pub parse_lines : ℕ → Bytes → List (Bytes × Bytes) → Option (List (Bytes × Bytes))
unfolding parse_option
parse_lines zero text vars = if is_empty text then some vars else none
parse_lines (suc fuel) text vars =
    let (endl, var) = parse_option text in
    let rest = parse_lines fuel (next_line endl) (add_option var vars) in
    if is_empty text then some vars else rest

unfoldable pub parse_config : Bytes → Option (List (Bytes × Bytes))
unfolding parse_lines
parse_config text = parse_lines (length text) text []

-- `saveConfig`: a line for each name whose value is not empty.
abbrev pub config_line : Bytes × Bytes → Bytes
config_line (name, value) = name ++ (32 ∷ 61 ∷ 32 ∷ []) ++ value ++ (10 ∷ [])

unfoldable pub save_config : List (Bytes × Bytes) → Bytes
save_config [] = []
save_config ((name, value) ∷ vars) =
    let rest = save_config vars in
    if is_empty value then rest else config_line (name, value) ++ rest

-- `string_f`: the value, or the default, and the names that are left.
abbrev pub string_or : Bytes → Option Bytes → Bytes
string_or default none = default
string_or default (some value) = value

unfoldable pub string_f : List (Bytes × Bytes) → Bytes → Bytes → Bytes × List (Bytes × Bytes)
string_f vars name default = (string_or default (find name vars), erase name vars)

-- `to_bool`: the call of `tolower` has no effect.
abbrev pub has_one : Bytes → Bool
has_one [] = false
has_one (x ∷ xs) = x == 49 || has_one xs

abbrev pub text_true : Bytes
text_true = 116 ∷ 114 ∷ 117 ∷ 101 ∷ []

abbrev pub text_yes : Bytes
text_yes = 121 ∷ 101 ∷ 115 ∷ []

abbrev pub text_enable : Bytes
text_enable = 101 ∷ 110 ∷ 97 ∷ 98 ∷ 108 ∷ 101 ∷ []

abbrev pub text_on : Bytes
text_on = 111 ∷ 110 ∷ []

unfoldable pub to_bool : Bytes → Bool
to_bool xs =
    eq_bytes xs text_true
    || eq_bytes xs text_yes
    || eq_bytes xs text_enable
    || eq_bytes xs (text_enable ++ (100 ∷ []))
    || eq_bytes xs text_on
    || has_one xs

unfoldable pub bool_f : List (Bytes × Bytes) → Bytes → Bool → Bool × List (Bytes × Bytes)
unfolding string_f to_bool
bool_f vars name input =
    let (value, rest) = string_f vars name [] in
    (if is_empty value then input else to_bool value, rest)
