-- ===== src/Stream/Session/Slots.antt =====
-- The slots of src/rtsp.cpp: how many of their sessions are started, and which one is not.
use midnight_sun.Prelude.{
  ℕ, suc, ◌≤◌, ◌≡◌, refl, sym, ap, ◌∙◌, inl, inr, Bool, true, false, ◌&&◌, ◌||◌, List, [], ◌∷◌,
  ◌++◌, if◌then◌else◌, ◌==◌, Bool-cases, length, arith,
}
use midnight_sun.Stream.Control.{
  State, stopped, stopping, starting, running, is_running, is_stopping,
}
use midnight_sun.Stream.Session.{
  Slot, Call, is_stopped, is_announced, mark_running, remove, stop_slot, stop_slots, clear_slots,
  join,
}

-- The slots whose sessions have been started.
abbrev pub count_started : List Slot → ℕ
count_started [] = 0
count_started (s ∷ ss) =
    let rest = count_started ss in if is_stopped s.state then rest else suc rest

abbrev pub has_announced : ℕ → List Slot → Bool
has_announced id [] = false
has_announced id (s ∷ ss) = is_announced id s || has_announced id ss

pub count_started_le : (ss : List Slot) → count_started ss ≤ length ss
count_started_le [] = omega arith
count_started_le (s ∷ ss) = elim (Bool-cases (is_stopped s.state)) [
  | inl e ↦ rw e (omega (arith, count_started_le ss))
  | inr e ↦ rw e (omega (arith, count_started_le ss))
]

pub count_started_idle :
    (s : Slot) (ss : List Slot)
    → is_stopped s.state ≡ true
    → count_started (s ∷ ss) ≡ count_started ss
count_started_idle s ss e = rw e refl

pub count_started_begun :
    (s : Slot) (ss : List Slot)
    → is_stopped s.state ≡ false
    → count_started (s ∷ ss) ≡ suc (count_started ss)
count_started_begun s ss e = rw e refl

or_right : (a b : Bool) → a ≡ false → (a || b) ≡ true → b ≡ true
or_right true b e h = absurd (cc e)
or_right false b e h = h

or_after : (a b : Bool) → b ≡ true → (a || b) ≡ true
or_after true b e = refl
or_after false b e = e

or_both : (a b c : Bool) → (a || b) ≡ true → (b ≡ true → c ≡ true) → (a || c) ≡ true
or_both true b c h f = refl
or_both false b c h f = f h

-- A slot that is announced is not started.
announced_idle : (id : ℕ) (s : Slot) → is_announced id s ≡ true → is_stopped s.state ≡ true
announced_idle id s e = by_test (is_stopped s.state) (s.id == id) e
  where
    by_test : (a b : Bool) → (a && b) ≡ true → a ≡ true
    by_test true b h = refl
    by_test false b h = h

begun_not_announced : (id : ℕ) (s : Slot) → is_stopped s.state ≡ false → is_announced id s ≡ false
begun_not_announced id s e = ap (λ b. b && s.id == id) e

pub count_started-append :
    (ss : List Slot) (id : ℕ)
    → count_started (ss ++ (record { id = id; state = stopped } ∷ [])) ≡ count_started ss
count_started-append [] id = refl
count_started-append (s ∷ ss) id =
    ap (λ n. if is_stopped s.state then n else suc n) (count_started-append ss id)

pub has_announced-append :
    (ss : List Slot) (id : ℕ)
    → has_announced id (ss ++ (record { id = id; state = stopped } ∷ [])) ≡ true
has_announced-append [] id = ground arith
has_announced-append (s ∷ ss) id =
    or_after (is_announced id s)
      (has_announced id (ss ++ (record { id = id; state = stopped } ∷ [])))
      (has_announced-append ss id)

pub count_started-mark_running :
    (id : ℕ) (ss : List Slot)
    → has_announced id ss ≡ true
    → count_started (mark_running id ss) ≡ suc (count_started ss)
count_started-mark_running id [] h = absurd (cc h)
count_started-mark_running id (s ∷ ss) h = elim (Bool-cases (is_announced id s)) [
  | inl e ↦ rw e (ap suc (sym (count_started_idle s ss (announced_idle id s e))))
  | inr e ↦
      let rest =
        count_started-mark_running id ss (or_right (is_announced id s) (has_announced id ss) e h) in
      rw e (elim (Bool-cases (is_stopped s.state)) [
        | inl idle ↦ rw idle rest
        | inr begun ↦ rw begun (ap suc rest)
      ])
]

pub count_started-remove :
    (id : ℕ) (ss : List Slot) → count_started (remove id ss) ≡ count_started ss
count_started-remove id [] = refl
count_started-remove id (s ∷ ss) = elim (Bool-cases (is_announced id s)) [
  | inl e ↦ rw e (sym (count_started_idle s ss (announced_idle id s e)))
  | inr e ↦ rw e (ap (λ n. if is_stopped s.state then n else suc n) (count_started-remove id ss))
]

pub length-mark_running : (id : ℕ) (ss : List Slot) → length (mark_running id ss) ≡ length ss
length-mark_running id [] = refl
length-mark_running id (s ∷ ss) = elim (Bool-cases (is_announced id s)) [
  | inl e ↦ rw e refl
  | inr e ↦ rw e (ap suc (length-mark_running id ss))
]

pub length-remove : (id : ℕ) (ss : List Slot) → length (remove id ss) ≤ length ss
length-remove id [] = omega arith
length-remove id (s ∷ ss) = elim (Bool-cases (is_announced id s)) [
  | inl e ↦ rw e (omega arith)
  | inr e ↦ rw e (omega (arith, length-remove id ss))
]

running_begun : (st : State) → is_running st ≡ true → is_stopped st ≡ false
running_begun stopped e = absurd (cc e)
running_begun stopping e = absurd (cc e)
running_begun starting e = absurd (cc e)
running_begun running e = refl

-- `stop` keeps what a slot is counted as.
stop_slot_keeps :
    (s : Slot) → (is_stopped (stop_slot s).state ≡ is_stopped s.state) × ((stop_slot s).id ≡ s.id)
stop_slot_keeps s = elim (Bool-cases (is_running s.state)) [
  | inl e ↦ rw e (sym (running_begun s.state e), refl)
  | inr e ↦ rw e (refl, refl)
]

stop_one_keeps :
    (id : ℕ) (s : Slot)
    → (is_stopped (if s.id == id then stop_slot s else s).state ≡ is_stopped s.state)
      × ((if s.id == id then stop_slot s else s).id ≡ s.id)
stop_one_keeps id s = by_test (s.id == id)
  where
    by_test :
        (b : Bool)
        → (is_stopped (if b then stop_slot s else s).state ≡ is_stopped s.state)
          × ((if b then stop_slot s else s).id ≡ s.id)
    by_test true = stop_slot_keeps s
    by_test false = (refl, refl)

pub count_started-stop_slots :
    (id : ℕ) (ss : List Slot) → count_started (stop_slots id ss) ≡ count_started ss
count_started-stop_slots id [] = refl
count_started-stop_slots id (s ∷ ss) =
    ap (λ b. if b then count_started (stop_slots id ss) else suc (count_started (stop_slots id ss)))
      (stop_one_keeps id s).0
    ∙ ap (λ n. if is_stopped s.state then n else suc n) (count_started-stop_slots id ss)

pub has_announced-stop_slots :
    (id other : ℕ) (ss : List Slot) → has_announced id (stop_slots other ss) ≡ has_announced id ss
has_announced-stop_slots id other [] = refl
has_announced-stop_slots id other (s ∷ ss) =
    let (same, named) = stop_one_keeps other s in
    cc (
      ap (λ b. b && (if s.id == other then stop_slot s else s).id == id) same
          ∙ ap (λ i. is_stopped s.state && i == id) named,
      has_announced-stop_slots id other ss,
    )

pub has_announced-clear_slots :
    (all revert is_app : Bool) (id : ℕ) (ss : List Slot) (counts : ℕ × List Call)
    → has_announced id ss ≡ true
    → has_announced id (clear_slots all revert is_app ss counts).0 ≡ true
has_announced-clear_slots all revert is_app id [] counts h = h
has_announced-clear_slots all revert is_app id (s ∷ ss) counts h =
    let next = λ (gone : Bool). if gone then join revert is_app counts else counts in
    let later = λ (gone : Bool). has_announced-clear_slots all revert is_app id ss (next gone) in
    let stay = λ (gone : Bool). (clear_slots all revert is_app ss (next gone)).0 in
    elim (Bool-cases (all || is_stopping s.state)) [
      | inl gone ↦ elim (Bool-cases (is_stopped s.state)) [
        | inl idle ↦ rw (gone, idle) h
        | inr begun ↦
            rw (gone, begun)
              (later true (
                or_right (is_announced id s) (has_announced id ss) (begun_not_announced id s begun)
                  h))
      ]
      | inr stays ↦ rw stays (
          or_both (is_announced id s) (has_announced id ss) (has_announced id (stay false)) h
            (later false))
    ]

pub length-clear_slots :
    (all revert is_app : Bool) (ss : List Slot) (counts : ℕ × List Call)
    → length (clear_slots all revert is_app ss counts).0 ≤ length ss
length-clear_slots all revert is_app [] counts = omega arith
length-clear_slots all revert is_app (s ∷ ss) counts =
    elim (Bool-cases (all || is_stopping s.state)) [
      | inl gone ↦ elim (Bool-cases (is_stopped s.state)) [
        | inl idle ↦ rw (gone, idle) (omega arith)
        | inr begun ↦
            rw (gone, begun)
              (omega (arith, length-clear_slots all revert is_app ss (join revert is_app counts)))
      ]
      | inr stays ↦ rw stays (omega (arith, length-clear_slots all revert is_app ss counts))
    ]

pub length-stop_slots : (id : ℕ) (ss : List Slot) → length (stop_slots id ss) ≡ length ss
length-stop_slots id [] = refl
length-stop_slots id (s ∷ ss) = ap suc (length-stop_slots id ss)
