-- ===== src/Config/Saved.antt =====
-- The file that `saveConfig` in src/confighttp.cpp writes, read again by `parse_config` in src/config.cpp.
use midnight_sun.Prelude.{
  ℕ, zero, suc, ◌≤◌, ◌≡◌, refl, sym, ap, ◌∙◌, inl, inr, none, some, List, [], ◌∷◌, ◌++◌,
  if◌then◌else◌, Bool-cases, All, length, arith, length-append, append_assoc,
}
use midnight_sun.Prelude.Maps.{Bytes, eq_bytes, find, emplace}
use midnight_sun.Config.{
  parse_option, next_line, add_option, parse_lines, parse_config, config_line, save_config,
}
use midnight_sun.Config.Lines.{IsName, IsValue, parse_option-line, config_line-append}

-- The options whose values are not empty.
abbrev pub without_empty : List (Bytes × Bytes) → List (Bytes × Bytes)
without_empty [] = []
without_empty ((name, []) ∷ vars) = without_empty vars
without_empty ((name, v ∷ value) ∷ vars) = (name, v ∷ value) ∷ without_empty vars

-- Names and values that fit on a line, unless the value is empty.
abbrev pub IsOption : Bytes × Bytes → Type 0
IsOption (name, []) = Unit
IsOption (name, v ∷ value) = IsName name × IsValue (v ∷ value)

-- No name of these options stands in `known`, or in `vars` twice.
abbrev pub IsFresh : List (Bytes × Bytes) → List (Bytes × Bytes) → Type 0
IsFresh known [] = Unit
IsFresh known ((name, []) ∷ vars) = IsFresh known vars
IsFresh known ((name, v ∷ value) ∷ vars) =
    (find name known ≡ none) × IsFresh (known ++ (name, v ∷ value) ∷ []) vars

module _ {V : Type 0} where
  emplace-absent :
      (name : Bytes) (value : V) (vars : List (Bytes × V))
      → find name vars ≡ none
      → emplace name value vars ≡ vars ++ (name, value) ∷ []
  emplace-absent name value [] e = refl
  emplace-absent name value ((k, w) ∷ vars) e = elim (Bool-cases (eq_bytes k name)) [
    | inl same ↦ absurd (cc (sym e ∙ ap (λ b. if b then some w else find name vars) same))
    | inr differ ↦ rw differ (
        ap (λ l. (k, w) ∷ l)
          (emplace-absent name value vars
            (sym (ap (λ b. if b then some w else find name vars) differ) ∙ e)))
  ]

  pub append_none : (xs : List V) → xs ++ [] ≡ xs
  append_none [] = refl
  append_none (x ∷ xs) = ap (λ l. x ∷ l) (append_none xs)

parse_lines-save_config :
    (vars known : List (Bytes × Bytes)) (fuel : ℕ)
    → length (save_config vars) ≤ fuel
    → All IsOption vars
    → IsFresh known vars
    → parse_lines fuel (save_config vars) known ≡ some (known ++ without_empty vars)
unfolding parse_lines save_config
parse_lines-save_config [] known zero l all fresh = ap some (sym (append_none known))
parse_lines-save_config [] known (suc fuel) l all fresh = ap some (sym (append_none known))
parse_lines-save_config ((name, []) ∷ vars) known fuel l (here, all) fresh =
    parse_lines-save_config vars known fuel l all fresh
parse_lines-save_config (([], v ∷ value) ∷ vars) known fuel l ((bad, here), all) fresh = absurd bad
parse_lines-save_config ((n ∷ name, v ∷ value) ∷ vars) known zero l all fresh = absurd (omega arith)
parse_lines-save_config ((n ∷ name, v ∷ value) ∷ vars) known (suc fuel) l ((is_name, is_value), all)
      (absent, fresh) =
    let rest = save_config vars in
    let option : Bytes × Bytes = (n ∷ name, v ∷ value) in
    let text = config_line option ++ rest in
    let read : parse_option text ≡ (10 ∷ rest, some option) =
      ap parse_option (config_line-append n name v value rest)
      ∙ parse_option-line n name v value rest is_name is_value in
    let shorter : length rest ≤ fuel = omega (
      arith,
      l,
      ap length (config_line-append n name v value rest),
      length-append (n ∷ name ++ 32 ∷ 61 ∷ 32 ∷ v ∷ value) (10 ∷ rest),
    ) in
    ap (λ r. parse_lines fuel (next_line r.0) (add_option r.1 known)) read
    ∙ ap (parse_lines fuel rest) (emplace-absent (n ∷ name) (v ∷ value) known absent)
    ∙ parse_lines-save_config vars (known ++ option ∷ []) fuel shorter all fresh
    ∙ ap some (append_assoc known (option ∷ []) (without_empty vars))

-- What `saveConfig` writes for texts is read back, in this order: each name with its value, without
-- those whose value is empty. The names differ, have no blanks, line ends, `#` and `=`; each value is
-- empty or one line without `#` that begins with no blank or bracket and ends with no blank.
pub parse_config-save_config :
    (vars : List (Bytes × Bytes))
    → All IsOption vars
    → IsFresh [] vars
    → parse_config (save_config vars) ≡ some (without_empty vars)
unfolding parse_config
parse_config-save_config vars all fresh =
    parse_lines-save_config vars [] (length (save_config vars)) (omega arith) all fresh
