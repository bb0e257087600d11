-- ===== src/Prelude/Segments.antt =====
-- Taking lists apart at an offset and writing into the middle of one, as memcpy and std::copy do.
use Prim.Native.Nat.{ℕ, zero, suc, ◌+◌, ◌-◌, ◌≤◌}
use mathlib.Core.Path.{◌≡◌, refl, sym, ap, ◌∙◌}
use mathlib.Core.List.{List, [], ◌∷◌, ◌++◌, append_assoc}
use native.Mathlib.Omega.{arith}
use midnight_sun.Prelude.Lists.{length, take, drop, replicate}

suc_add : (m n : ℕ) → suc m + n ≡ suc (m + n)
suc_add m n = omega arith

module _ {ℓ} {A : Type ℓ} where
  -- Writes `piece` over what stands at the offset.
  abbrev pub overwrite : ℕ → List A → List A → List A
  overwrite at piece buf = take at buf ++ piece ++ drop (at + length piece) buf

  pub length-replicate : (n : ℕ) (a : A) → length (replicate n a) ≡ n
  length-replicate zero a = refl
  length-replicate (suc n) a = ap suc (length-replicate n a)

  pub length-take : (n : ℕ) (xs : List A) → n ≤ length xs → length (take n xs) ≡ n
  length-take zero xs h = refl
  length-take (suc n) [] h = elim h [ ]
  length-take (suc n) (x ∷ xs) h = ap suc (length-take n xs (omega arith))

  pub length-drop : (n : ℕ) (xs : List A) → length (drop n xs) ≡ length xs - n
  length-drop zero xs = omega arith
  length-drop (suc n) [] = omega arith
  length-drop (suc n) (x ∷ xs) = omega (arith, length-drop n xs)

  pub take-drop : (n : ℕ) (xs : List A) → take n xs ++ drop n xs ≡ xs
  take-drop zero xs = refl
  take-drop (suc n) [] = refl
  take-drop (suc n) (x ∷ xs) = ap (λ l. x ∷ l) (take-drop n xs)

  pub take_all : (n : ℕ) (xs : List A) → length xs ≤ n → take n xs ≡ xs
  take_all zero [] h = refl
  take_all zero (x ∷ xs) h = elim h [ ]
  take_all (suc n) [] h = refl
  take_all (suc n) (x ∷ xs) h = ap (λ l. x ∷ l) (take_all n xs (omega arith))

  pub drop_all : (n : ℕ) (xs : List A) → length xs ≤ n → drop n xs ≡ []
  drop_all zero [] h = refl
  drop_all zero (x ∷ xs) h = elim h [ ]
  drop_all (suc n) [] h = refl
  drop_all (suc n) (x ∷ xs) h = drop_all n xs (omega arith)

  -- Past the end of the first of two lists, the second one is taken apart.
  pub take_past :
      (xs : List A) (n : ℕ) (ys : List A) → take (length xs + n) (xs ++ ys) ≡ xs ++ take n ys
  take_past [] n ys = ap (λ k. take k ys) (omega arith)
  take_past (x ∷ xs) n ys =
      ap (λ k. take k (x ∷ (xs ++ ys))) (suc_add (length xs) n)
      ∙ ap (λ l. x ∷ l) (take_past xs n ys)

  pub drop_past : (xs : List A) (n : ℕ) (ys : List A) → drop (length xs + n) (xs ++ ys) ≡ drop n ys
  drop_past [] n ys = ap (λ k. drop k ys) (omega arith)
  drop_past (x ∷ xs) n ys =
      ap (λ k. drop k (x ∷ (xs ++ ys))) (suc_add (length xs) n) ∙ drop_past xs n ys

  pub take_within :
      (xs : List A) (n : ℕ) (ys : List A) → n ≤ length xs → take n (xs ++ ys) ≡ take n xs
  take_within xs zero ys h = refl
  take_within [] (suc n) ys h = elim h [ ]
  take_within (x ∷ xs) (suc n) ys h = ap (λ l. x ∷ l) (take_within xs n ys (omega arith))

  pub drop_within :
      (xs : List A) (n : ℕ) (ys : List A) → n ≤ length xs → drop n (xs ++ ys) ≡ drop n xs ++ ys
  drop_within xs zero ys h = refl
  drop_within [] (suc n) ys h = elim h [ ]
  drop_within (x ∷ xs) (suc n) ys h = drop_within xs n ys (omega arith)

  pub drop-replicate : (m n : ℕ) (a : A) → drop m (replicate (m + n) a) ≡ replicate n a
  drop-replicate zero n a = ap (λ k. replicate k a) (omega arith)
  drop-replicate (suc m) n a =
      ap (λ k. drop (suc m) (replicate k a)) (suc_add m n) ∙ drop-replicate m n a

  pub replicate-add : (m n : ℕ) (a : A) → replicate (m + n) a ≡ replicate m a ++ replicate n a
  replicate-add zero n a = ap (λ k. replicate k a) (omega arith)
  replicate-add (suc m) n a =
      ap (λ k. replicate k a) (suc_add m n) ∙ ap (λ l. a ∷ l) (replicate-add m n a)

  pub drop_none : (n : ℕ) → drop {A = A} n [] ≡ []
  drop_none zero = refl
  drop_none (suc n) = refl

  pub drop-drop : (m n : ℕ) (xs : List A) → drop m (drop n xs) ≡ drop (n + m) xs
  drop-drop m zero xs = ap (λ k. drop k xs) (omega arith)
  drop-drop m (suc n) [] = drop_none m ∙ sym (drop_none (suc n + m))
  drop-drop m (suc n) (x ∷ xs) = drop-drop m n xs ∙ ap (λ k. drop k (x ∷ xs)) (sym (suc_add n m))

  pub take_none : (n : ℕ) → take {A = A} n [] ≡ []
  take_none zero = refl
  take_none (suc n) = refl

  pub take-add : (m n : ℕ) (xs : List A) → take (m + n) xs ≡ take m xs ++ take n (drop m xs)
  take-add zero n xs = ap (λ k. take k xs) (omega arith)
  take-add (suc m) n [] = take_none (suc m + n) ∙ sym (take_none n)
  take-add (suc m) n (x ∷ xs) =
      ap (λ k. take k (x ∷ xs)) (suc_add m n) ∙ ap (λ l. x ∷ l) (take-add m n xs)

  -- A write behind what is done, into room that is wide enough, keeps both ends.
  pub overwrite-replicate :
      (pre piece : List A) (gap n : ℕ) (a : A)
      → overwrite (length pre + gap) piece (pre ++ replicate (gap + (length piece + n)) a)
        ≡ pre ++ (replicate gap a ++ piece) ++ replicate n a
  overwrite-replicate pre piece gap n a =
      let room = length piece + n in
      let left : take (length pre + gap) (pre ++ replicate (gap + room) a)
          ≡ pre ++ replicate gap a =
        take_past pre gap (replicate (gap + room) a)
        ∙ ap (λ l. pre ++ take gap l) (replicate-add gap room a)
        ∙ ap (λ l. pre ++ l)
            (take_within (replicate gap a) gap (replicate room a)
                (omega (arith, length-replicate gap a))
              ∙ take_all gap (replicate gap a) (omega (arith, length-replicate gap a))) in
      let right : drop (length pre + gap + length piece) (pre ++ replicate (gap + room) a)
          ≡ replicate n a =
        ap (λ k. drop k (pre ++ replicate (gap + room) a)) (omega arith)
        ∙ drop_past pre (gap + length piece) (replicate (gap + room) a)
        ∙ ap (λ k. drop (gap + length piece) (replicate k a)) (omega arith)
        ∙ drop-replicate (gap + length piece) n a in
      rw (left, right) (ap (λ l. l ++ replicate n a) (append_assoc pre (replicate gap a) piece))
