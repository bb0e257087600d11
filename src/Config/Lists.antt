-- ===== src/Config/Lists.antt =====
-- src/config.cpp: `list_string_f` and `string_restricted_f`.
use midnight_sun.Prelude.{
  ℕ, zero, suc, Bool, true, false, Option, none, some, List, [], ◌∷◌, ◌++◌, if◌then◌else◌, ◌==◌,
  length, drop,
}
use midnight_sun.Prelude.Maps.{Bytes, eq_bytes}
use midnight_sun.Config.{whitespace, skip, skip_list, string_f, is_empty}
pub mod Items

-- The item between `begin` and `pos`, if they differ.
abbrev pub last_item : Bytes → List Bytes
last_item [] = []
last_item (x ∷ xs) = (x ∷ xs) ∷ []

-- The step over the character behind a list, which is the terminator at the end of the text.
abbrev pub behind_list : Bytes → Bytes
behind_list [] = 0 ∷ []
behind_list (x ∷ xs) = x ∷ []

abbrev pub cons_item : Bytes → Option (List Bytes) → Option (List Bytes)
cons_item item none = none
cons_item item (some items) = some (item ∷ items)

-- The loop, with the item as far as it is read and the text at `pos`; none where the fuel does not
-- suffice.
unfoldable pub list_loop : ℕ → Bytes → Bytes → Option (List Bytes)
list_loop fuel item [] = some (last_item item)
list_loop zero item (x ∷ xs) = none
list_loop (suc fuel) item (x ∷ xs) =
    let (inside, rest) = skip_list 1 xs in
    let nested = list_loop fuel (item ++ x ∷ inside ++ behind_list rest) (drop 1 rest) in
    let next = list_loop fuel [] (skip whitespace xs) in
    let on = list_loop fuel (item ++ x ∷ []) xs in
    if x == 91
    then nested
    else if x == 93
    then some (last_item item)
    else if x == 44
    then cons_item item next
    else on

abbrev pub after_bracket : Bytes → Bytes
after_bracket [] = []
after_bracket (x ∷ xs) = if x == 91 then xs else x ∷ xs

unfoldable pub list_items : Bytes → Option (List Bytes)
unfolding list_loop
list_items string =
    let text = skip whitespace (after_bracket string) in list_loop (length text) [] text

unfoldable pub list_string_f :
    List (Bytes × Bytes) → Bytes → List Bytes → Option (List Bytes) × List (Bytes × Bytes)
unfolding string_f list_items
list_string_f vars name input =
    let (string, rest) = string_f vars name [] in
    (if is_empty string then some input else list_items string, rest)

-- `string_restricted_f`: the value if it is one of those that are allowed.
abbrev pub one_of : Bytes → List Bytes → Bytes → Bytes
one_of temp [] input = input
one_of temp (allowed ∷ more) input =
    let rest = one_of temp more input in if eq_bytes temp allowed then temp else rest

unfoldable pub string_restricted_f :
    List (Bytes × Bytes) → Bytes → Bytes → List Bytes → Bytes × List (Bytes × Bytes)
unfolding string_f
string_restricted_f vars name input allowed_vals =
    let (temp, rest) = string_f vars name [] in (one_of temp allowed_vals input, rest)
