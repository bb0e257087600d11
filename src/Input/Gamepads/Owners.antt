-- ===== src/Input/Gamepads/Owners.antt =====
-- Who owns which gamepad id in src/input.cpp.
pub mod Handlers
use midnight_sun.Prelude.{
  subst, ℕ, zero, suc, ◌+◌, ◌<◌, Bool, true, false, not, ◌≡◌, ◌≢◌, refl, Option, none, some, List,
  [], ◌∷◌, arith, ◌⊎◌, inl, inr, Bool-cases, Option-cases, ltb, ◌==◌, if◌then◌else◌, ap, ◌∙◌, sym,
  get_elem?, set, length, get_elem?-set_self, get_elem?-set_ne, eqb,
}
use midnight_sun.Input.Packet
use midnight_sun.Input.State.{Input, Gamepad, GamepadState, emit}
use midnight_sun.Input.Gamepads.{
  alloc_id, free_id, free_pad, set_pad, allocate_with, allocate_pad, passthrough_controller_arrival,
  report_pad, report_new, back_changed, passthrough_pad, passthrough_multi_controller,
  run_emulate_home, index_of, force_back, test_bit, back_bit, reported,
}
use midnight_sun.Input.Gamepads.Ids.{AllocResult, alloc_id_lem, free_id-alloc_id}

-- The id of the pad of a controller.
abbrev pub owner : List Gamepad → ℕ → Option ℕ
owner pads i = elim (get_elem? pads i) [ none ↦ none | some pad ↦ pad.id ]

-- Every id that a controller owns is marked as taken, and no two controllers own the same.
pub record Owned (mask : List Bool) (pads : List Gamepad) : Type 0 where
  pub held : (i k : ℕ) → owner pads i ≡ some k → get_elem? mask k ≡ some true
  pub apart : (i j k : ℕ) → owner pads i ≡ some k → owner pads j ≡ some k → i ≡ j

owner-set_self :
    (pads : List Gamepad) (n : ℕ) (old pad : Gamepad)
    → get_elem? pads n ≡ some old
    → owner (set pads n pad) n ≡ pad.id
owner-set_self [] n old pad e = absurd (cc)
owner-set_self (x ∷ pads) zero old pad e = refl
owner-set_self (x ∷ pads) (suc n) old pad e = owner-set_self pads n old pad e

owner-set_ne :
    (pads : List Gamepad) (n i : ℕ) (pad : Gamepad)
    → n ≢ i
    → owner (set pads n pad) i ≡ owner pads i
owner-set_ne pads n i pad h =
    ap (λ (o : Option Gamepad). elim o [ none ↦ none | some p ↦ p.id ])
      (get_elem?-set_ne pads pad h)

mask-set-true :
    (mask : List Bool) (id k : ℕ)
    → get_elem? mask k ≡ some true
    → get_elem? (set mask id true) k ≡ some true
mask-set-true [] id k e = e
mask-set-true (x ∷ mask) zero zero e = refl
mask-set-true (x ∷ mask) zero (suc k) e = e
mask-set-true (x ∷ mask) (suc id) zero e = e
mask-set-true (x ∷ mask) (suc id) (suc k) e = mask-set-true mask id k e

mask-set_id :
    (mask : List Bool) (id : ℕ) (b : Bool)
    → get_elem? mask id ≡ some b
    → get_elem? (set mask id true) id ≡ some true
mask-set_id [] id b e = absurd (cc)
mask-set_id (x ∷ mask) zero b e = refl
mask-set_id (x ∷ mask) (suc id) b e = mask-set_id mask id b e

-- A pad is rewritten with the id that it had.
Owned-same_id :
    (mask : List Bool) (pads : List Gamepad) (n : ℕ) (old pad : Gamepad)
    → get_elem? pads n ≡ some old
    → pad.id ≡ old.id
    → Owned mask pads
    → Owned mask (set pads n pad)
Owned-same_id mask pads n old pad e same v = record {
  held = λ i k o. v.held i k (sym (owners i) ∙ o);
  apart = λ i j k o o'. v.apart i j k (sym (owners i) ∙ o) (sym (owners j) ∙ o');
}
  where
    owners : (i : ℕ) → owner (set pads n pad) i ≡ owner pads i
    owners i = elim (Bool-cases (n == i)) [
      | inl hit ↦
          let here : n ≡ i = ground arith in
          subst (λ j. owner (set pads n pad) j ≡ owner pads j) here
            (owner-set_self pads n old pad e
              ∙ same
              ∙ sym (ap (λ (o : Option Gamepad). elim o [ none ↦ none | some p ↦ p.id ]) e))
      | inr miss ↦ owner-set_ne pads n i pad (ground arith)
    ]

-- A pad that had no id gets one that was free.
Owned-allocate :
    (mask : List Bool) (pads : List Gamepad) (n id : ℕ) (old pad : Gamepad)
    → get_elem? pads n ≡ some old
    → pad.id ≡ some id
    → get_elem? mask id ≡ some false
    → Owned mask pads
    → Owned (set mask id true) (set pads n pad)
Owned-allocate mask pads n id old pad e new free v = record { held = held; apart = apart }
  where
    mine : owner (set pads n pad) n ≡ some id
    mine = owner-set_self pads n old pad e ∙ new

    other : (i k : ℕ) → n ≢ i → owner (set pads n pad) i ≡ some k → owner pads i ≡ some k
    other i k h o = sym (owner-set_ne pads n i pad h) ∙ o

    not_free : (i : ℕ) → n ≢ i → owner (set pads n pad) i ≢ some id
    not_free i h o = cc (v.held i id (other i id h o), free)

    held :
        (i k : ℕ) → owner (set pads n pad) i ≡ some k → get_elem? (set mask id true) k ≡ some true
    held i k o = elim (Bool-cases (n == i)) [
      | inl hit ↦
          let here : n ≡ i = ground arith in
          let is_id : id ≡ k = cc (subst (λ j. owner (set pads n pad) j ≡ some id) here mine, o) in
          subst (λ x. get_elem? (set mask id true) x ≡ some true) is_id
            (mask-set_id mask id false free)
      | inr miss ↦ mask-set-true mask id k (v.held i k (other i k (ground arith) o))
    ]

    apart :
        (i j k : ℕ) → owner (set pads n pad) i ≡ some k → owner (set pads n pad) j ≡ some k → i ≡ j
    apart i j k o o' = elim (Bool-cases (n == i)) [
      | inl hit ↦ elim (Bool-cases (n == j)) [
        | inl hit' ↦ ground arith
        | inr miss' ↦
            let here : n ≡ i = ground arith in
            absurd (
              not_free j (ground arith)
                (o' ∙ sym o ∙ subst (λ x. owner (set pads n pad) x ≡ some id) here mine))
      ]
      | inr miss ↦ elim (Bool-cases (n == j)) [
        | inl hit' ↦
            let here : n ≡ j = ground arith in
            absurd (
              not_free i (ground arith)
                (o ∙ sym o' ∙ subst (λ x. owner (set pads n pad) x ≡ some id) here mine))
        | inr miss' ↦ v.apart i j k (other i k (ground arith) o) (other j k (ground arith) o')
      ]
    ]

-- A pad loses its id, which is then free.
Owned-free :
    (mask : List Bool) (pads : List Gamepad) (n id : ℕ) (old pad : Gamepad)
    → get_elem? pads n ≡ some old
    → old.id ≡ some id
    → pad.id ≡ none
    → Owned mask pads
    → Owned (set mask id false) (set pads n pad)
Owned-free mask pads n id old pad e had gone v = record {
  held = λ i k o.
      get_elem?-set_ne mask {i = id} {j = k} false (λ same. absurd (
        ne i k o (
          v.apart n i k
            (sym (ap (λ (p : Option Gamepad). elim p [ none ↦ none | some q ↦ q.id ]) (sym e))
              ∙ had
              ∙ ap some same)
            (back i k o))))
      ∙ v.held i k (back i k o);
  apart = λ i j k o o'. v.apart i j k (back i k o) (back j k o');
}
  where
    ne : (i k : ℕ) → owner (set pads n pad) i ≡ some k → n ≢ i
    ne i k o same = cc (
      subst (λ j. owner (set pads n pad) j ≡ none) same (owner-set_self pads n old pad e ∙ gone),
      o,
    )

    back : (i k : ℕ) → owner (set pads n pad) i ≡ some k → owner pads i ≡ some k
    back i k o = sym (owner-set_ne pads n i pad (ne i k o)) ∙ o
