-- ===== src/Headless/Capture.antt =====
-- The capture loop of `headless_display_t` in src/platform/linux/headless.cpp. Times are nanoseconds.
use midnight_sun.Prelude.{
  ℕ, ◌+◌, ◌*◌, ◌≤◌, Bool, ◌≡◌, refl, Option, none, some, List, [], ◌∷◌, ltb, if◌then◌else◌, arith,
  Bool-cases, Option-cases, inl, inr, replicate, All,
}

-- `img_t`, as far as a capture writes to it.
pub record Image : Type 0 where
  pub height : ℕ
  pub row_pitch : ℕ
  pub pixels : List ℕ

pub data Capture : Type 0 where
  interrupted ok : Capture

-- One round of the loop, as the callbacks and the clock answer it: the time that it reads, the image that it
-- is given, or none for a refusal, and whether the push is accepted.
pub record Round : Type 0 where
  pub now : ℕ
  pub pulled : Option Image
  pub accepted : Bool

abbrev pub next_deadline : (delay next_frame now : ℕ) → ℕ
next_deadline delay next_frame now =
    let next = next_frame + delay in if ltb next now then now + delay else next

-- Sleeps until the deadline if it lies ahead.
abbrev pub wake : (next_frame now : ℕ) → ℕ
wake next_frame now = if ltb now next_frame then next_frame else now

abbrev pub cleared : Image → Image
cleared img = record img { pixels = replicate (img.height * img.row_pitch) 0 }

-- The frames that are pushed, each with the time of the push, and how the loop ends; none where it goes on past
-- the rounds.
unfoldable pub capture : (delay next_frame : ℕ) → List Round → List (ℕ × Image) × Option Capture
capture delay next_frame [] = ([], none)
capture delay next_frame (r ∷ rs) =
    let (frames, end) = capture delay (next_deadline delay next_frame r.now) rs in
    elim r.pulled [
      | none ↦ ([], some interrupted)
      | some img ↦
          let frame : ℕ × Image = (wake next_frame r.now, cleared img) in
          if r.accepted then (frame ∷ frames, end) else (frame ∷ [], some ok)
    ]

-- Each frame comes no earlier than its deadline, and the deadlines are `delay` apart at least.
abbrev pub Paced : (delay deadline : ℕ) → List (ℕ × Image) → Type 0
Paced delay deadline [] = deadline ≤ deadline
Paced delay deadline ((time, img) ∷ frames) =
    (deadline ≤ time) × Paced delay (deadline + delay) frames

Paced-le :
    (delay a b : ℕ) (frames : List (ℕ × Image))
    → a ≤ b
    → Paced delay b frames
    → Paced delay a frames
Paced-le delay a b [] h p = omega arith
Paced-le delay a b ((time, img) ∷ frames) h (late, p) =
    (omega arith, Paced-le delay (a + delay) (b + delay) frames (omega arith) p)

next_deadline_later : (delay next now : ℕ) → next + delay ≤ next_deadline delay next now
next_deadline_later delay next now = ground arith

wake_later : (next now : ℕ) → next ≤ wake next now
wake_later next now = ground arith

-- Whatever the clock reads, the first frame of a capture is pushed no earlier than the first deadline, and each
-- later one no earlier than a deadline that lies one frame time after that of the frame before it.
pub capture-Paced :
    (delay next : ℕ) (rounds : List Round) → Paced delay next (capture delay next rounds).0
unfolding capture
capture-Paced delay next [] = omega arith
capture-Paced delay next (r ∷ rs) = elim (Option-cases r.pulled) [
  | inl refused ↦ rw (refused) (omega arith)
  | inr (img, pulled) ↦ elim (Bool-cases r.accepted) [
    | inr last ↦ rw (pulled, last) (wake_later next r.now, omega arith)
    | inl goes_on ↦
        rw (pulled, goes_on)
          (
            wake_later next r.now,
            Paced-le delay (next + delay) (next_deadline delay next r.now)
                (capture delay (next_deadline delay next r.now) rs).0
                (next_deadline_later delay next r.now)
                (capture-Paced delay (next_deadline delay next r.now) rs),
          )
  ]
]

-- A frame is black and fills its image.
abbrev pub IsBlack : ℕ × Image → Type 0
IsBlack (time, img) = img.pixels ≡ replicate (img.height * img.row_pitch) 0

-- Every byte of each frame that a capture pushes is 0, and there are as many as the image has.
pub capture-IsBlack :
    (delay next : ℕ) (rounds : List Round) → All IsBlack (capture delay next rounds).0
unfolding capture
capture-IsBlack delay next [] = tt
capture-IsBlack delay next (r ∷ rs) = elim (Option-cases r.pulled) [
  | inl refused ↦ rw (refused) tt
  | inr (img, pulled) ↦ elim (Bool-cases r.accepted) [
    | inr last ↦ rw (pulled, last) (refl, tt)
    | inl goes_on ↦
        rw (pulled, goes_on) (refl, capture-IsBlack delay (next_deadline delay next r.now) rs)
  ]
]
