-- ===== src/Prelude/Maps.antt =====
-- Byte strings, and maps with such keys as lists of pairs.
use Prim.Native.Nat.{ℕ}
use mathlib.Core.Path.{◌≡◌, sym, ap, ◌∙◌}
use mathlib.Core.Path.{refl}
use mathlib.Core.Logic.{inl, inr}
use mathlib.Core.Bool.{Bool, true, false, ◌&&◌}
use mathlib.Core.Option.{Option, none, some}
use mathlib.Core.List.{List, [], ◌∷◌}
use native.Mathlib.Omega.{arith}
use midnight_sun.Prelude.Tests.{◌==◌, if◌then◌else◌, Bool-cases}

abbrev pub Bytes : Type 0
Bytes = List ℕ

abbrev pub eq_bytes : Bytes → Bytes → Bool
eq_bytes [] [] = true
eq_bytes (x ∷ xs) (y ∷ ys) = x == y && eq_bytes xs ys
eq_bytes _ _ = false

module _ {V : Type 0} where
  abbrev pub find : Bytes → List (Bytes × V) → Option V
  find id [] = none
  find id ((k, v) ∷ m) = if eq_bytes k id then some v else find id m

  -- `emplace` inserts only if the key is not there.
  abbrev pub emplace : Bytes → V → List (Bytes × V) → List (Bytes × V)
  emplace id v [] = (id, v) ∷ []
  emplace id v ((k, w) ∷ m) = if eq_bytes k id then (k, w) ∷ m else (k, w) ∷ emplace id v m

  -- A write through a reference to the value of a key.
  abbrev pub update : Bytes → (V → V) → List (Bytes × V) → List (Bytes × V)
  update id f [] = []
  update id f ((k, w) ∷ m) = if eq_bytes k id then (k, f w) ∷ m else (k, w) ∷ update id f m

  -- A key is in an unordered_map once at most, and erasing leaves no entry of it.
  abbrev pub erase : Bytes → List (Bytes × V) → List (Bytes × V)
  erase id [] = []
  erase id ((k, w) ∷ m) = let rest = erase id m in if eq_bytes k id then rest else (k, w) ∷ rest

pub eq_bytes_refl : (xs : Bytes) → eq_bytes xs xs ≡ true
eq_bytes_refl [] = refl
eq_bytes_refl (x ∷ xs) = ground (arith, eq_bytes_refl xs)

pub eq_bytes_sound : (xs ys : Bytes) → eq_bytes xs ys ≡ true → xs ≡ ys
eq_bytes_sound [] [] e = refl
eq_bytes_sound [] (y ∷ ys) e = absurd (cc)
eq_bytes_sound (x ∷ xs) [] e = absurd (cc)
eq_bytes_sound (x ∷ xs) (y ∷ ys) e = elim (Bool-cases (x == y)) [
  | inl same ↦
      let head : x ≡ y = ground arith in
      let tail : eq_bytes xs ys ≡ true = ap (λ b. b && eq_bytes xs ys) (sym same) ∙ e in
      cc (head, eq_bytes_sound xs ys tail)
  | inr differ ↦ absurd (cc (ap (λ b. b && eq_bytes xs ys) (sym differ) ∙ e))
]

-- A key that equals one of two different keys differs from the other.
pub eq_bytes-other :
    (k id id' : Bytes) → eq_bytes id id' ≡ false → eq_bytes k id ≡ true → eq_bytes k id' ≡ false
eq_bytes-other k id id' ne e = ap (λ x. eq_bytes x id') (eq_bytes_sound k id e) ∙ ne

module _ {V : Type 0} where
  pub find-erase_self : (id : Bytes) (m : List (Bytes × V)) → find id (erase id m) ≡ none
  find-erase_self id [] = refl
  find-erase_self id ((k, w) ∷ m) = ground (arith, find-erase_self id m)

  pub find-erase_ne :
      (id id' : Bytes) (m : List (Bytes × V))
      → eq_bytes id id' ≡ false
      → find id' (erase id m) ≡ find id' m
  find-erase_ne id id' [] ne = refl
  find-erase_ne id id' ((k, w) ∷ m) ne =
      ground (arith, find-erase_ne id id' m ne, eq_bytes-other k id id' ne)

  pub find-update_self :
      (id : Bytes) (f : V → V) (m : List (Bytes × V)) (v : V)
      → find id m ≡ some v
      → find id (update id f m) ≡ some (f v)
  find-update_self id f [] v e = absurd (cc)
  find-update_self id f ((k, w) ∷ m) v e = elim (Bool-cases (eq_bytes k id)) [
    | inl hit ↦
        let here : some w ≡ some v = ap (λ b. if b then some w else find id m) (sym hit) ∙ e in
        ground (arith, here)
    | inr miss ↦
        let there : find id m ≡ some v = ap (λ b. if b then some w else find id m) (sym miss) ∙ e in
        ground (arith, find-update_self id f m v there)
  ]

  pub find-update-none :
      (id : Bytes) (f : V → V) (m : List (Bytes × V))
      → find id m ≡ none
      → find id (update id f m) ≡ none
  find-update-none id f [] e = refl
  find-update-none id f ((k, w) ∷ m) e = ground (arith, find-update-none id f m)

  pub find-update_ne :
      (id id' : Bytes) (f : V → V) (m : List (Bytes × V))
      → eq_bytes id id' ≡ false
      → find id' (update id f m) ≡ find id' m
  find-update_ne id id' f [] ne = refl
  find-update_ne id id' f ((k, w) ∷ m) ne =
      ground (arith, find-update_ne id id' f m ne, eq_bytes-other k id id' ne)

  pub find-emplace_new :
      (id : Bytes) (v : V) (m : List (Bytes × V))
      → find id m ≡ none
      → find id (emplace id v m) ≡ some v
  find-emplace_new id v [] e = ground (arith, eq_bytes_refl id)
  find-emplace_new id v ((k, w) ∷ m) e = ground (arith, find-emplace_new id v m)

  pub find-emplace_old :
      (id : Bytes) (v old : V) (m : List (Bytes × V))
      → find id m ≡ some old
      → find id (emplace id v m) ≡ some old
  find-emplace_old id v old [] e = absurd (cc)
  find-emplace_old id v old ((k, w) ∷ m) e = ground (arith, find-emplace_old id v old m)

  pub find-emplace_ne :
      (id id' : Bytes) (v : V) (m : List (Bytes × V))
      → eq_bytes id id' ≡ false
      → find id' (emplace id v m) ≡ find id' m
  find-emplace_ne id id' v [] ne = ground (arith, ne)
  find-emplace_ne id id' v ((k, w) ∷ m) ne = ground (arith, find-emplace_ne id id' v m ne)
