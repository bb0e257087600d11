-- ===== src/Config/Lists/Items.antt =====
-- The items that `list_string_f` of src/config.cpp reads from a list without lists in it.
use midnight_sun.Prelude.{
  ℕ, zero, suc, ◌-◌, ◌<◌, ◌≤◌, ◌≡◌, refl, sym, ap, ◌∙◌, Bool, false, some, List, [], ◌∷◌, ◌++◌,
  ◌==◌, All, length, arith, length-append, append_assoc,
}
use midnight_sun.Prelude.Maps.{Bytes}
use midnight_sun.Config.{whitespace, skip}
use midnight_sun.Config.Lines.{HasNone}
use midnight_sun.Config.Saved.{append_none}
use midnight_sun.Config.Lists.{cons_item, list_loop, list_items}

abbrev pub is_bracket : ℕ → Bool
is_bracket ch = ch == 91

abbrev pub is_closing : ℕ → Bool
is_closing ch = ch == 93

abbrev pub is_comma : ℕ → Bool
is_comma ch = ch == 44

-- An item that is not empty, begins with no blank, and has no brackets and commas.
abbrev pub IsItem : Bytes → Type 0
IsItem [] = ⊥
IsItem (x ∷ xs) =
    (whitespace x ≡ false)
    × (HasNone is_bracket (x ∷ xs) × (HasNone is_closing (x ∷ xs) × HasNone is_comma (x ∷ xs)))

-- The items in brackets, with a comma and a blank between them.
abbrev pub joined : Bytes → List Bytes → Bytes
joined i [] = i ++ 93 ∷ []
joined i (j ∷ items) = i ++ 44 ∷ 32 ∷ joined j items

list_loop-plain :
    (xs item rest : Bytes) (n : ℕ)
    → length xs ≤ n
    → HasNone is_bracket xs
    → HasNone is_closing xs
    → HasNone is_comma xs
    → list_loop n item (xs ++ rest) ≡ list_loop (n - length xs) (item ++ xs) rest
unfolding list_loop
list_loop-plain [] item rest n l a b c =
    let same : n ≡ n - 0 = omega arith in
    ap (λ k. list_loop k item rest) same
    ∙ ap (λ i. list_loop (n - 0) i rest) (sym (append_none item))
list_loop-plain (x ∷ xs) item rest zero l a b c = absurd (omega arith)
list_loop-plain (x ∷ xs) item rest (suc n) l (a', a) (b', b) (c', c) =
    let less : n - length xs ≡ suc n - suc (length xs) = omega arith in
    rw (a', b', c')
      (list_loop-plain xs (item ++ x ∷ []) rest n (omega arith) a b c
        ∙ ap (λ k. list_loop k ((item ++ x ∷ []) ++ xs) rest) less
        ∙ ap (λ i. list_loop (suc n - suc (length xs)) i rest) (append_assoc item (x ∷ []) xs))

skip_item : (j rest : Bytes) → IsItem j → skip whitespace (j ++ rest) ≡ j ++ rest
skip_item [] rest item = absurd item
skip_item (x ∷ xs) rest (e, more) = rw e refl

skip-joined :
    (j : Bytes) (items : List Bytes) → IsItem j → skip whitespace (joined j items) ≡ joined j items
skip-joined j [] item = skip_item j (93 ∷ []) item
skip-joined j (k ∷ items) item = skip_item j (44 ∷ 32 ∷ joined k items) item

-- The loop at the end of an item.
list_loop_end : (n : ℕ) (i : Bytes) → IsItem i → 0 < n → list_loop n i (93 ∷ []) ≡ some (i ∷ [])
unfolding list_loop
list_loop_end zero i item l = absurd (omega arith)
list_loop_end (suc n) [] item l = absurd item
list_loop_end (suc n) (x ∷ xs) item l = refl

list_loop_next :
    (n : ℕ) (i : Bytes) (text : Bytes)
    → list_loop (suc n) i (44 ∷ 32 ∷ text) ≡ cons_item i (list_loop n [] (skip whitespace text))
unfolding list_loop
list_loop_next n i text = refl

list_loop-joined :
    (i : Bytes) (items : List Bytes) (n : ℕ)
    → length (joined i items) ≤ n
    → IsItem i
    → All IsItem items
    → list_loop n [] (joined i items) ≡ some (i ∷ items)
list_loop-joined [] items n l item all = absurd item
list_loop-joined (x ∷ xs) [] n l (e, (a, (b, c))) all =
    let room = length-append (x ∷ xs) (93 ∷ []) in
    list_loop-plain (x ∷ xs) [] (93 ∷ []) n (omega (arith, room)) a b c
    ∙ list_loop_end (n - length (x ∷ xs)) (x ∷ xs) (e, (a, (b, c))) (omega (arith, room))
list_loop-joined (x ∷ xs) (j ∷ items) n l (e, (a, (b, c))) (here, all) =
    let i : Bytes = x ∷ xs in
    let text = joined j items in
    let room = length-append i (44 ∷ 32 ∷ text) in
    let m = n - length i - 1 in
    let one : n - length i ≡ suc m = omega (arith, room) in
    list_loop-plain i [] (44 ∷ 32 ∷ text) n (omega (arith, room)) a b c
    ∙ ap (λ k. list_loop k i (44 ∷ 32 ∷ text)) one
    ∙ list_loop_next m i text
    ∙ ap (λ t. cons_item i (list_loop m [] t)) (skip-joined j items here)
    ∙ ap (cons_item i) (list_loop-joined j items m (omega (arith, room)) here all)

-- A list in brackets, with a comma and a blank between its items, is read as these items, each of
-- which is not empty, begins with no blank, and has no brackets and commas.
pub list_items-joined :
    (i : Bytes) (items : List Bytes)
    → IsItem i
    → All IsItem items
    → list_items (91 ∷ joined i items) ≡ some (i ∷ items)
unfolding list_items
list_items-joined i items item all =
    ap (λ t. list_loop (length t) [] t) (skip-joined i items item)
    ∙ list_loop-joined i items (length (joined i items)) (omega arith) item all
