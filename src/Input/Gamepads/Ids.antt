-- ===== src/Input/Gamepads/Ids.antt =====
-- `alloc_id` and `free_id` of src/input.cpp over the bits of `gamepadMask`.
use midnight_sun.Prelude.{
  subst, ℕ, zero, suc, ◌<◌, Bool, true, false, ◌≡◌, refl, Option, none, some, List, [], ◌∷◌, arith,
  ap, ◌∙◌, get_elem?, set, length,
}
use midnight_sun.Input.Gamepads.{alloc_id, alloc_next, free_id}

-- Every bit below `n` is set.
abbrev pub AllSet : List Bool → Type 0
AllSet [] = Unit
AllSet (b ∷ mask) = (b ≡ true) × AllSet mask

-- What `alloc_id` returns: no id if every bit is set, and otherwise the lowest clear bit, which is then set.
abbrev pub AllocResult : List Bool → List Bool × Option ℕ → Type 0
AllocResult mask (mask', none) = AllSet mask × (mask' ≡ mask)
AllocResult mask (mask', some id) =
    (get_elem? mask id ≡ some false)
    × (mask' ≡ set mask id true)
    × ((j : ℕ) → j < id → get_elem? mask j ≡ some true)

below_suc :
    (mask : List Bool) (x : ℕ)
    → ((j : ℕ) → j < x → get_elem? mask j ≡ some true)
    → (j : ℕ) → j < suc x
    → get_elem? (true ∷ mask) j ≡ some true
below_suc mask x h zero lt = refl
below_suc mask x h (suc j) lt = h j (omega arith)

alloc_next-AllocResult :
    (b : Bool) (mask : List Bool) (found : List Bool × Option ℕ)
    → AllocResult mask found
    → AllocResult (b ∷ mask) (alloc_next b mask found)
unfolding alloc_next
alloc_next-AllocResult false mask found h = (refl, refl, λ j lt. absurd (omega arith))
alloc_next-AllocResult true mask (rest, none) h = ((refl, h.0), ap (◌∷◌ true) h.1)
alloc_next-AllocResult true mask (rest, some x) h = (h.0, ap (◌∷◌ true) h.1, below_suc mask x h.2)

-- A new gamepad id is the lowest one that is free, it is marked as taken and no other bit changes; there is none only
-- if every id is taken.
pub alloc_id_lem : (mask : List Bool) → AllocResult mask (alloc_id mask)
unfolding alloc_id
alloc_id_lem [] = (tt, refl)
alloc_id_lem (b ∷ mask) = alloc_next-AllocResult b mask (alloc_id mask) (alloc_id_lem mask)

get_elem?-some-lt :
    (mask : List Bool) (i : ℕ) (b : Bool) → get_elem? mask i ≡ some b → i < length mask
get_elem?-some-lt [] i b e = absurd (cc)
get_elem?-some-lt (x ∷ mask) zero b e = omega arith
get_elem?-some-lt (x ∷ mask) (suc i) b e = omega (arith, get_elem?-some-lt mask i b e)

set-set : (mask : List Bool) (i : ℕ) (b c : Bool) → set (set mask i b) i c ≡ set mask i c
set-set [] i b c = refl
set-set (x ∷ mask) zero b c = refl
set-set (x ∷ mask) (suc i) b c = ap (◌∷◌ x) (set-set mask i b c)

set_same : (mask : List Bool) (i : ℕ) (b : Bool) → get_elem? mask i ≡ some b → set mask i b ≡ mask
set_same [] i b e = refl
set_same (x ∷ mask) zero b e = ground arith
set_same (x ∷ mask) (suc i) b e = ap (◌∷◌ x) (set_same mask i b e)

-- Freeing the id that was just allocated gives back the mask.
pub free_id-alloc_id :
    (mask mask' : List Bool) (id : ℕ) → alloc_id mask ≡ (mask', some id) → free_id mask' id ≡ mask
unfolding free_id
free_id-alloc_id mask mask' id e =
    let (clear, taken, _) = subst (AllocResult mask) e (alloc_id_lem mask) in
    ap (λ m. set m id false) taken ∙ set-set mask id true false ∙ set_same mask id false clear
