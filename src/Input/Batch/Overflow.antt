-- ===== src/Input/Batch/Overflow.antt =====
-- The overflow tests of the `batch` functions for moves and scrolls in src/input.cpp.
use midnight_sun.Prelude.{false, ◌≡◌, ◌≢◌, ◌⊎◌, inl, inr, refl, Bool-cases, ap, ◌∙◌, sym}
use midnight_sun.Prelude.Int.{ℤ, ◌+ℤ◌, fits16, Fits16, wrap16, wrap16-Fits16}
use midnight_sun.Input.Packet.{RelMouseMove, Scroll, HScroll}
use midnight_sun.Input.Batch.{
  batched, terminate_batch, batch_rel_mouse_move, batch_scroll, batch_hscroll,
}

-- A value that does not fit is not what 16 bits store of it.
wrap16-ne : (a : ℤ) → fits16 a ≡ false → wrap16 a ≢ a
wrap16-ne a h e = cc (sym h ∙ ap fits16 (sym e) ∙ wrap16-Fits16 a)

-- Two vertical scrolls become one only if their sum does not fit a `short`, and then the merged
-- amount is not the sum; where the sum fits, the batch ends.
pub batch_scroll_overflow :
    (dest src : Scroll)
    → let sum = dest.scroll_amt1 +ℤ src.scroll_amt1 in
      (Fits16 sum → batch_scroll dest src ≡ terminate_batch)
      × (¬ Fits16 sum
          → (merged : Scroll) × (batch_scroll dest src ≡ batched merged)
            × (merged.scroll_amt1 ≢ sum)
            × (merged.scroll_amt2 ≡ merged.scroll_amt1))
unfolding batch_scroll
batch_scroll_overflow dest src = elim (Bool-cases (fits16 (dest.scroll_amt1 +ℤ src.scroll_amt1))) [
  | inl e ↦ rw e ((λ _. refl), (λ n. absurd (n refl)))
  | inr e ↦ rw e (
    (λ t. cc),
    (λ _. (
      record dest {
        scroll_amt1 = wrap16 (dest.scroll_amt1 +ℤ src.scroll_amt1);
        scroll_amt2 = wrap16 (dest.scroll_amt1 +ℤ src.scroll_amt1);
      },
      refl,
      wrap16-ne _ e,
      refl,
    )),
  )
]

-- The same of two horizontal scrolls.
pub batch_hscroll_overflow :
    (dest src : HScroll)
    → let sum = dest.scroll_amount +ℤ src.scroll_amount in
      (Fits16 sum → batch_hscroll dest src ≡ terminate_batch)
      × (¬ Fits16 sum
          → (merged : HScroll) × (batch_hscroll dest src ≡ batched merged)
            × (merged.scroll_amount ≢ sum))
unfolding batch_hscroll
batch_hscroll_overflow dest src =
    elim (Bool-cases (fits16 (dest.scroll_amount +ℤ src.scroll_amount))) [
      | inl e ↦ rw e ((λ _. refl), (λ n. absurd (n refl)))
      | inr e ↦ rw e (
        (λ t. cc),
        (λ _. (
          record { scroll_amount = wrap16 (dest.scroll_amount +ℤ src.scroll_amount) },
          refl,
          wrap16-ne _ e,
        )),
      )
    ]

-- Two relative moves become one only if the sums of both coordinates overflow a `short`, and then
-- neither coordinate of the merged move is the sum; where either sum fits, the batch ends.
pub batch_rel_mouse_move_overflow :
    (dest src : RelMouseMove)
    → let x = dest.delta_x +ℤ src.delta_x in
      let y = dest.delta_y +ℤ src.delta_y in
      (Fits16 x ⊎ Fits16 y → batch_rel_mouse_move dest src ≡ terminate_batch)
      × (¬ Fits16 x
          → ¬ Fits16 y
          → (merged : RelMouseMove) × (batch_rel_mouse_move dest src ≡ batched merged)
            × (merged.delta_x ≢ x)
            × (merged.delta_y ≢ y))
unfolding batch_rel_mouse_move
batch_rel_mouse_move_overflow dest src = elim (Bool-cases (fits16 (dest.delta_x +ℤ src.delta_x))) [
  | inl ex ↦ rw ex ((λ _. refl), (λ n _. absurd (n refl)))
  | inr ex ↦ elim (Bool-cases (fits16 (dest.delta_y +ℤ src.delta_y))) [
    | inl ey ↦ rw (ex, ey) ((λ _. refl), (λ _ n. absurd (n refl)))
    | inr ey ↦
        rw (ex, ey)
          (
            (λ t. elim t [ inl u ↦ cc | inr u ↦ cc ]),
            (λ _ _. (
              record {
                delta_x = wrap16 (dest.delta_x +ℤ src.delta_x);
                delta_y = wrap16 (dest.delta_y +ℤ src.delta_y);
              },
              refl,
              wrap16-ne _ ex,
              wrap16-ne _ ey,
            )),
          )
  ]
]
