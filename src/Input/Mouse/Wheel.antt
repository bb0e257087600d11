-- ===== src/Input/Mouse/Wheel.antt =====
-- Scrolling without high resolution in src/input.cpp: whole ticks of 120 are sent and the rest is kept.
use mathlib.Core.Path.{ap₂}
use midnight_sun.Prelude.{
  subst, ◌<◌, true, false, ◌≡◌, refl, Option, none, some, List, [], ◌∷◌, arith, inl, inr,
  Bool-cases, ap, ◌∙◌, sym,
}
use midnight_sun.Prelude.Int.{ℤ, pos, negsuc, ◌+ℤ◌, ◌-ℤ◌, ◌*ℤ◌, pos_part, neg_part, int_laws}
use midnight_sun.Input.Packet
use midnight_sun.Input.State.{Input, Config, Output, scroll}
use midnight_sun.Input.Mouse.{full_ticks, is_zero, accumulate, emit_some, passthrough_scroll}

-- Strictly between -120 and 120.
abbrev pub BelowTick : ℤ → Type 0
BelowTick a = (pos_part a < 120) × (neg_part a < 120)

-- What an optional amount adds.
abbrev pub amount_of : Option ℤ → ℤ
amount_of none = pos 0
amount_of (some a) = a

full_ticks_rest : (a : ℤ) → BelowTick (a -ℤ full_ticks a *ℤ pos 120)
unfolding ◌-ℤ◌ ◌*ℤ◌
full_ticks_rest (pos n) = ground arith
full_ticks_rest (negsuc n) = ground arith

full_ticks_none : (a : ℤ) → is_zero (full_ticks a) ≡ true → BelowTick a
full_ticks_none (pos n) h = ground arith
full_ticks_none (negsuc n) h = ground arith

zero_ticks : pos 0 ≡ pos 0 *ℤ pos 120
unfolding ◌*ℤ◌
zero_ticks = refl

-- What is sent and what stays add up to what was there and what came; less than one tick stays, and
-- what is sent is a whole number of ticks.
accumulate_lem :
    (delta amount : ℤ)
    → let (sent, rest) = accumulate delta amount in
      (amount_of sent +ℤ rest ≡ delta +ℤ amount)
      × BelowTick rest
      × ((ticks : ℤ) × (amount_of sent ≡ ticks *ℤ pos 120))
unfolding accumulate
accumulate_lem delta amount =
    let total = delta +ℤ amount in
    elim (Bool-cases (is_zero (full_ticks total))) [
      | inl e ↦ rw e (omega int_laws, full_ticks_none total e, (pos 0, zero_ticks))
      | inr e ↦ rw e (omega int_laws, full_ticks_rest total, (full_ticks total, refl))
    ]

-- All that the platform was asked to scroll.
abbrev pub scrolled : List Output → ℤ
scrolled [] = pos 0
scrolled (scroll a ∷ out) = a +ℤ scrolled out
scrolled (_ ∷ out) = scrolled out

abbrev pub run_scrolls : Input → List Packet.Scroll → Input
run_scrolls s [] = s
run_scrolls s (p ∷ ps) = run_scrolls (passthrough_scroll s p) ps

abbrev pub amounts : List Packet.Scroll → ℤ
amounts [] = pos 0
amounts (p ∷ ps) = p.scroll_amt1 +ℤ amounts ps

-- The mouse is on and ticks are sent whole.
pub record WholeTicks (s : Input) : Type 0 where
  pub mouse : s.config.mouse ≡ true
  pub low_resolution : s.config.high_resolution_scrolling ≡ false
  pub below : BelowTick s.accumulated_vscroll_delta

emit_some-scroll :
    (o : Option ℤ) (s : Input)
    → let t = emit_some o scroll s in
      (scrolled t.out ≡ amount_of o +ℤ scrolled s.out)
      × (t.accumulated_vscroll_delta ≡ s.accumulated_vscroll_delta)
      × (t.config ≡ s.config)
emit_some-scroll none s = (omega int_laws, refl, refl)
emit_some-scroll (some a) s = (refl, refl, refl)

regroup : (a b c : ℤ) → a +ℤ b +ℤ c ≡ b +ℤ (a +ℤ c)
regroup a b c = omega int_laws

scroll_step_eq :
    (s : Input) (p : Packet.Scroll)
    → WholeTicks s
    → passthrough_scroll s p
      ≡ emit_some (accumulate s.accumulated_vscroll_delta p.scroll_amt1).0 scroll (record s {
        accumulated_vscroll_delta = (accumulate s.accumulated_vscroll_delta p.scroll_amt1).1;
      })
unfolding passthrough_scroll
scroll_step_eq s p w = ground arith

scroll_step :
    (s : Input) (p : Packet.Scroll)
    → WholeTicks s
    → let t = passthrough_scroll s p in
      WholeTicks t
      × (scrolled t.out +ℤ t.accumulated_vscroll_delta
          ≡ scrolled s.out +ℤ (s.accumulated_vscroll_delta +ℤ p.scroll_amt1))
scroll_step s p w =
    let (sent, rest) = accumulate s.accumulated_vscroll_delta p.scroll_amt1 in
    let next = record s { accumulated_vscroll_delta = rest } in
    let (total, below, _) = accumulate_lem s.accumulated_vscroll_delta p.scroll_amt1 in
    let (out, kept, same) = emit_some-scroll sent next in
    subst
      (λ (t : Input).
        WholeTicks t
        × (scrolled t.out +ℤ t.accumulated_vscroll_delta
            ≡ scrolled s.out +ℤ (s.accumulated_vscroll_delta +ℤ p.scroll_amt1)))
      (sym (scroll_step_eq s p w))
      (
        record {
          mouse = ap (λ (c : Config). c.mouse) same ∙ w.mouse;
          low_resolution = ap (λ (c : Config). c.high_resolution_scrolling) same ∙ w.low_resolution;
          below = subst BelowTick (sym kept) below;
        },
        ap₂ ◌+ℤ◌ out kept
            ∙ regroup (amount_of sent) (scrolled s.out) rest
            ∙ ap (λ a. scrolled s.out +ℤ a) total,
      )

-- However the wheel is turned, what was scrolled and what is kept make up all that came, and less than one
-- tick is kept.
pub run_scrolls_total :
    (s : Input) (ps : List Packet.Scroll)
    → WholeTicks s
    → let t = run_scrolls s ps in
      WholeTicks t
      × (scrolled t.out +ℤ t.accumulated_vscroll_delta
          ≡ scrolled s.out +ℤ s.accumulated_vscroll_delta +ℤ amounts ps)
run_scrolls_total s [] w = (w, omega int_laws)
run_scrolls_total s (p ∷ ps) w =
    let (w', e) = scroll_step s p w in
    let (w'', e') = run_scrolls_total (passthrough_scroll s p) ps w' in
    (w'', e' ∙ ap (λ x. x +ℤ amounts ps) e ∙ omega int_laws)
