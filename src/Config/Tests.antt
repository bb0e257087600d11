-- ===== src/Config/Tests.antt =====
-- Runs of the readers of src/config.cpp.
use midnight_sun.Prelude.{◌≡◌, refl, true, false, All, some, List, [], ◌∷◌, ◌++◌}
use midnight_sun.Prelude.Maps.{Bytes}
use midnight_sun.Config.{
  parse_option, parse_lines, parse_config, save_config, string_f, to_bool, bool_f,
}
use midnight_sun.Config.Lists.{list_loop, list_items, list_string_f, string_restricted_f}
use midnight_sun.Config.Lists.Items.{list_items-joined, joined}
use midnight_sun.Config.Ends.{parse_config_ends}
use midnight_sun.Config.Saved.{without_empty, IsOption, parse_config-save_config}

-- port = 47989
abbrev port_line : Bytes
port_line = 112 ∷ 111 ∷ 114 ∷ 116 ∷ 32 ∷ 61 ∷ 32 ∷ 52 ∷ 55 ∷ []

abbrev port : Bytes × Bytes
port = (112 ∷ 111 ∷ 114 ∷ 116 ∷ [], 52 ∷ 55 ∷ [])

-- upnp, without a value, and fps with the value `30 60`.
abbrev saved : List (Bytes × Bytes)
saved = port ∷ (117 ∷ 112 ∷ [], []) ∷ (102 ∷ [], 51 ∷ 48 ∷ 32 ∷ 54 ∷ []) ∷ []

read_saved :
    parse_config (save_config saved) ≡ some (port ∷ (102 ∷ [], 51 ∷ 48 ∷ 32 ∷ 54 ∷ []) ∷ [])
unfolding parse_config parse_lines parse_option save_config
read_saved = refl

-- A comment behind a value, an empty line, and the same name again: the first value stays.
read_comment :
    parse_config (port_line ++ 32 ∷ 35 ∷ 97 ∷ 10 ∷ 10 ∷ port_line ++ 49 ∷ [])
    ≡ some ((112 ∷ 111 ∷ 114 ∷ 116 ∷ [], 52 ∷ 55 ∷ 32 ∷ []) ∷ [])
unfolding parse_config parse_lines parse_option
read_comment = refl

-- A list over two lines.
read_list :
    parse_config (97 ∷ 61 ∷ 91 ∷ 49 ∷ 10 ∷ 50 ∷ 93 ∷ 10 ∷ [])
    ≡ some ((97 ∷ [], 91 ∷ 49 ∷ 10 ∷ 50 ∷ 93 ∷ []) ∷ [])
unfolding parse_config parse_lines parse_option
read_list = refl

-- A bracket that is the last character makes no option, and one that is not closed makes one.
read_bracket : parse_config (97 ∷ 61 ∷ 91 ∷ []) ≡ some []
unfolding parse_config parse_lines parse_option
read_bracket = refl

read_unclosed : parse_config (97 ∷ 61 ∷ 91 ∷ 49 ∷ []) ≡ some ((97 ∷ [], 91 ∷ 49 ∷ []) ∷ [])
unfolding parse_config parse_lines parse_option
read_unclosed = refl

-- A line that ends the text with a carriage return.
read_return : parse_config (97 ∷ 61 ∷ 49 ∷ 13 ∷ []) ≡ some ((97 ∷ [], 49 ∷ []) ∷ [])
unfolding parse_config parse_lines parse_option
read_return = refl

-- `True`, and a port.
true_is_not_true : to_bool (84 ∷ 114 ∷ 117 ∷ 101 ∷ []) ≡ false
unfolding to_bool
true_is_not_true = refl

one_is_true : to_bool (52 ∷ 49 ∷ []) ≡ true
unfolding to_bool
one_is_true = refl

bool_taken : bool_f ((97 ∷ [], 111 ∷ 110 ∷ []) ∷ port ∷ []) (97 ∷ []) false ≡ (true, port ∷ [])
unfolding bool_f string_f to_bool
bool_taken = refl

parse_config_ends_example :
    (vars : List (Bytes × Bytes)) × (parse_config (91 ∷ 97 ∷ 61 ∷ 91 ∷ 10 ∷ []) ≡ some vars)
parse_config_ends_example = parse_config_ends (91 ∷ 97 ∷ 61 ∷ 91 ∷ 10 ∷ [])

plain4 : (false ≡ false) × ((false ≡ false) × ((false ≡ false) × ((false ≡ false) × Unit {0})))
plain4 = (refl, (refl, (refl, (refl, tt))))

saved-IsOption : All IsOption saved
saved-IsOption = (
  ((plain4, (plain4, plain4)), ((refl, (refl, tt)), ((refl, (refl, tt)), (refl, (refl, refl))))),
  (tt, ((((refl, tt), ((refl, tt), (refl, tt))), (plain4, (plain4, (refl, (refl, refl))))), tt)),
)

parse_config-save_config_example : parse_config (save_config saved) ≡ some (without_empty saved)
parse_config-save_config_example = parse_config-save_config saved saved-IsOption (refl, (refl, tt))

-- [30, 60]
list_items-joined_example :
    list_items (91 ∷ joined (51 ∷ 48 ∷ []) ((54 ∷ 48 ∷ []) ∷ []))
    ≡ some ((51 ∷ 48 ∷ []) ∷ (54 ∷ 48 ∷ []) ∷ [])
list_items-joined_example =
    list_items-joined (51 ∷ 48 ∷ []) ((54 ∷ 48 ∷ []) ∷ [])
      (refl, ((refl, (refl, tt)), ((refl, (refl, tt)), (refl, (refl, tt)))))
      ((refl, ((refl, (refl, tt)), ((refl, (refl, tt)), (refl, (refl, tt))))), tt)

-- [[1],2]: the comma behind the inner list does not end the item.
inner_list :
    list_items (91 ∷ 91 ∷ 49 ∷ 93 ∷ 44 ∷ 50 ∷ 93 ∷ []) ≡ some ((91 ∷ 49 ∷ 93 ∷ 44 ∷ 50 ∷ []) ∷ [])
unfolding list_items list_loop
inner_list = refl

-- [[1]: the item has the terminator of the text.
open_list : list_items (91 ∷ 91 ∷ 49 ∷ 93 ∷ []) ≡ some ((91 ∷ 49 ∷ 93 ∷ 0 ∷ []) ∷ [])
unfolding list_items list_loop
open_list = refl

no_list : list_string_f (port ∷ []) (97 ∷ []) (port.1 ∷ []) ≡ (some (port.1 ∷ []), port ∷ [])
unfolding list_string_f list_items list_loop string_f
no_list = refl

restricted :
    string_restricted_f (port ∷ []) port.0 (49 ∷ []) ((50 ∷ []) ∷ port.1 ∷ []) ≡ (port.1, [])
unfolding string_restricted_f string_f
restricted = refl
