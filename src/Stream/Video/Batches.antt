-- ===== src/Stream/Video/Batches.antt =====
-- How `videoBroadcastThread` in src/stream.cpp sends the shards of a block in batches.
use midnight_sun.Prelude.{
  ℕ, zero, suc, ◌+◌, ◌-◌, ◌≤◌, ◌<◌, ◌≡◌, refl, sym, inl, inr, ◌||◌, List, [], ◌∷◌, ◌++◌, leb, ◌==◌,
  Bool-cases, subst, arith,
}
use midnight_sun.Stream.Video.{Sent, pace, batch, Pacing, pace_before, group_before, send_shards}

-- The batches from shard `start` on cover the shards up to `stop` in order, none twice and none left
-- out, and none is empty or larger than `most`.
abbrev pub Covers : ℕ → ℕ → ℕ → List Sent → Type 0
Covers most start stop [] = start ≡ stop
Covers most start stop (pace n ∷ es) = Covers most start stop es
Covers most start stop (batch at size ∷ es) =
    (at ≡ start) × ((0 < size) × ((size ≤ most) × Covers most (start + size) stop es))

-- No batch follows a group of `limit` shards or more with no pause between them.
abbrev pub IsPaced : ℕ → ℕ → List Sent → Type 0
IsPaced limit group [] = Unit
IsPaced limit group (pace n ∷ es) = IsPaced limit 0 es
IsPaced limit group (batch at size ∷ es) = (group < limit) × IsPaced limit (group + size) es

module _ (most limit n : ℕ) where
  Covers-pace_before :
      (p : Pacing) (start : ℕ) (es : List Sent)
      → Covers most start n es
      → Covers most start n (pace_before most limit n p ++ es)
  Covers-pace_before p start es h = elim (Bool-cases (leb limit p.group || p.frame_sent == 0)) [
    | inl e ↦ rw e h
    | inr e ↦ rw e h
  ]

  IsPaced-pace_before :
      (p : Pacing) (es : List Sent)
      → IsPaced limit (group_before most limit n p) es
      → IsPaced limit p.group (pace_before most limit n p ++ es)
  IsPaced-pace_before p es = elim (Bool-cases (leb limit p.group || p.frame_sent == 0)) [
    | inl e ↦ rw e (λ h. h)
    | inr e ↦ rw e (λ h. h)
  ]

  group_before_lt : (p : Pacing) → 0 < limit → group_before most limit n p < limit
  group_before_lt p pos = ground arith

  send_shards-Covers :
      0 < most
      → (k x : ℕ) (p : Pacing) → x + k ≡ n
      → p.next ≤ x
      → x < p.next + most
      → (k ≡ 0 → p.next ≡ n)
      → Covers most p.next n (send_shards most limit n k x p).0
  unfolding send_shards
  send_shards-Covers pos zero x p sum low near done = done refl
  send_shards-Covers pos (suc k) x p sum low near done =
      let size = x - p.next + 1 in
      let after : Pacing = record {
        next = x + 1;
        group = group_before most limit n p + size;
        frame_sent = p.frame_sent + size;
      } in
      elim (Bool-cases (leb most size || x + 1 == n)) [
        | inl flush ↦
            let later =
              send_shards-Covers pos k (x + 1) after (omega arith) (omega arith) (omega arith)
                (λ e. omega arith) in
            let start : x + 1 ≡ p.next + size = omega arith in
            rw flush (
              Covers-pace_before p p.next
                (batch p.next size ∷ (send_shards most limit n k (x + 1) after).0)
                (
                  refl,
                  (
                    omega arith,
                    (
                      omega arith,
                      subst (λ s. Covers most s n (send_shards most limit n k (x + 1) after).0)
                          start later,
                    ),
                  ),
                ))
        | inr wait ↦
            let more : x + 2 ≤ n = ground arith in
            rw wait (
              send_shards-Covers pos k (x + 1) p (omega arith) (omega arith) (ground arith)
                (λ e. absurd (omega arith)))
      ]

  send_shards-IsPaced :
      (k x : ℕ) (p : Pacing) → 0 < limit → IsPaced limit p.group (send_shards most limit n k x p).0
  unfolding send_shards
  send_shards-IsPaced zero x p pos = tt
  send_shards-IsPaced (suc k) x p pos =
      let size = x - p.next + 1 in
      let after : Pacing = record {
        next = x + 1;
        group = group_before most limit n p + size;
        frame_sent = p.frame_sent + size;
      } in
      elim (Bool-cases (leb most size || x + 1 == n)) [
        | inl flush ↦ rw flush (
            IsPaced-pace_before p (batch p.next size ∷ (send_shards most limit n k (x + 1) after).0)
              (group_before_lt p pos, send_shards-IsPaced k (x + 1) after pos))
        | inr wait ↦ rw wait (send_shards-IsPaced k (x + 1) p pos)
      ]

-- `send_shards` for the shards of a block, with a batch size and a number of packets per millisecond
-- above 0: the batches cover the shards in order, each with at most the batch size, and none starts
-- after a millisecond's packets with no pause between.
pub send_shards_lem :
    (most limit n group frame_sent : ℕ)
    → 0 < most
    → 0 < limit
    → let es =
        (send_shards most limit n n 0
          record { next = 0; group = group; frame_sent = frame_sent }).0 in
      Covers most 0 n es × IsPaced limit group es
send_shards_lem most limit n group frame_sent pos paced =
    let p : Pacing = record { next = 0; group = group; frame_sent = frame_sent } in
    (
      send_shards-Covers most limit n pos n 0 p (omega arith) (omega arith) (omega arith)
          (λ e. sym e),
      send_shards-IsPaced most limit n n 0 p paced,
    )
