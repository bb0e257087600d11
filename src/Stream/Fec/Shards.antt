-- ===== src/Stream/Fec/Shards.antt =====
-- What the shards of `fec::encode` in src/stream.cpp carry.
use native.Mathlib.Nat.{mod-lt, div-add-mod'}
use mathlib.Core.List.{append_assoc, append-nil, map-append}
use midnight_sun.Prelude.{
  ℕ, zero, suc, ◌+◌, ◌-◌, ◌*◌, ◌%◌, ◌≤◌, ◌<◌, ◌≡◌, refl, sym, ap, ◌∙◌, inl, inr, Bool, true, false,
  List, [], ◌∷◌, ◌++◌, map, if◌then◌else◌, ◌==◌, Bool-cases, length, take, drop, replicate,
  length-append, take-append, drop-append, arith,
}
use midnight_sun.Prelude.Maps.{Bytes}
use midnight_sun.Prelude.Segments.{
  length-drop, length-replicate, take-drop, take_all, drop-drop, take-add,
}
use midnight_sun.Stream.Fec.{
  ShardPtr, payload_at, shards_at, read_shard, shard_data, pointers, concat, is_padded,
  aligned_data_shards, count_data_shards, count_parity_shards, used_percentage, padded_shard,
  data_pointers, parity_shards, encode,
}

concat-append : (xss yss : List Bytes) → concat (xss ++ yss) ≡ concat xss ++ concat yss
concat-append [] yss = refl
concat-append (xs ∷ xss) yss =
    ap (λ l. xs ++ l) (concat-append xss yss) ∙ sym (append_assoc xs (concat xss) (concat yss))

-- Shards side by side in the payload are a piece of it.
concat-pointers_payload :
    (b n at : ℕ) (payload shards : Bytes)
    → concat (map (read_shard b payload shards) (pointers payload_at b n at))
      ≡ take (n * b) (drop at payload)
concat-pointers_payload b zero at payload shards =
    let none_left : 0 ≡ 0 * b = omega arith in ap (λ k. take k (drop at payload)) none_left
concat-pointers_payload b (suc n) at payload shards =
    ap (λ l. take b (drop at payload) ++ l)
      (concat-pointers_payload b n (at + b) payload shards
        ∙ ap (take (n * b)) (sym (drop-drop b at payload)))
    ∙ sym (take-add b (n * b) (drop at payload))
    ∙ ap (λ k. take k (drop at payload)) (omega arith)

-- The same for shards in the buffer.
concat-pointers_shards :
    (b n at : ℕ) (payload shards : Bytes)
    → concat (map (read_shard b payload shards) (pointers shards_at b n at))
      ≡ take (n * b) (drop at shards)
concat-pointers_shards b zero at payload shards =
    let none_left : 0 ≡ 0 * b = omega arith in ap (λ k. take k (drop at shards)) none_left
concat-pointers_shards b (suc n) at payload shards =
    ap (λ l. take b (drop at shards) ++ l)
      (concat-pointers_shards b n (at + b) payload shards
        ∙ ap (take (n * b)) (sym (drop-drop b at shards)))
    ∙ sym (take-add b (n * b) (drop at shards))
    ∙ ap (λ k. take k (drop at shards)) (omega arith)

module _ (payload : Bytes) (b : ℕ) (pos : 0 < b) where
  abbrev whole : ℕ
  whole = aligned_data_shards b payload * b

  whole_le : (whole ≤ length payload) × (length payload - whole ≡ length payload % b)
  whole_le = omega (arith, div-add-mod' (length payload) b)

  left_lem : length (drop whole payload) ≡ length payload % b
  left_lem = length-drop whole payload ∙ whole_le.1

  padded_lem :
      is_padded b payload ≡ true
      → padded_shard b payload ≡ drop whole payload ++ replicate (b - length payload % b) 0
  padded_lem e =
      let short : length (drop whole payload) ≤ b =
        omega (arith, left_lem, mod-lt (length payload) pos) in
      rw e (
        ap (λ l. l ++ replicate (b - length (drop whole payload)) 0)
          (take_all b (drop whole payload) short)
        ∙ ap (λ n. drop whole payload ++ replicate (b - n) 0) left_lem)

  unpadded_lem : is_padded b payload ≡ false → padded_shard b payload ≡ []
  unpadded_lem e = rw e refl

  -- The padded shard is empty or one block.
  length-padded_shard : length (padded_shard b payload) ≡ (if is_padded b payload then 1 else 0) * b
  length-padded_shard = elim (Bool-cases (is_padded b payload)) [
    | inl e ↦
        let zeros : List ℕ = replicate (b - length payload % b) 0 in
        let count : length zeros ≡ b - length payload % b =
          length-replicate (b - length payload % b) 0 in
        let size : length (drop whole payload ++ zeros) ≡ 1 * b = omega (
          arith,
          length-append (drop whole payload) zeros,
          left_lem,
          count,
          mod-lt (length payload) pos,
        ) in
        ap length (padded_lem e) ∙ size ∙ ap (λ t. (if t then 1 else 0) * b) (sym e)
    | inr e ↦
        let none_left : 0 ≡ 0 * b = omega arith in
        ap length (unpadded_lem e) ∙ none_left ∙ ap (λ t. (if t then 1 else 0) * b) (sym e)
  ]

  -- The data shards, read with anything behind the padded one, are the payload and its padding.
  concat-data_pointers :
      (parity : Bytes)
      → concat
          (map (read_shard b payload (padded_shard b payload ++ parity)) (data_pointers b payload))
        ≡ take whole payload ++ padded_shard b payload
  concat-data_pointers parity =
      let read = read_shard b payload (padded_shard b payload ++ parity) in
      let front = pointers payload_at b (aligned_data_shards b payload) 0 in
      let back = if is_padded b payload then shards_at 0 ∷ [] else [] in
      let last : concat (map read back) ≡ padded_shard b payload =
        elim (Bool-cases (is_padded b payload)) [
          | inl e ↦
              let size : b ≡ length (padded_shard b payload) =
                omega (arith, length-padded_shard, ap (λ t. (if t then 1 else 0) * b) e) in
              ap (λ t. concat (map read (if t then shards_at 0 ∷ [] else []))) e
              ∙ append-nil (take b (padded_shard b payload ++ parity))
              ∙ ap (λ n. take n (padded_shard b payload ++ parity)) size
              ∙ take-append (padded_shard b payload) parity
          | inr e ↦
              ap (λ t. concat (map read (if t then shards_at 0 ∷ [] else []))) e
              ∙ sym (unpadded_lem e)
        ] in
      ap concat (map-append read front back)
      ∙ concat-append (map read front) (map read back)
      ∙ ap (λ l. l ++ concat (map read back))
          (concat-pointers_payload b (aligned_data_shards b payload) 0 payload
            (padded_shard b payload ++ parity))
      ∙ ap (λ l. take whole payload ++ l) last

  take_padding :
      take whole payload ++ padded_shard b payload
      ≡ payload ++ replicate (count_data_shards b payload * b - length payload) 0
  take_padding =
      let counted =
        λ (t : Bool). (aligned_data_shards b payload + (if t then 1 else 0)) * b - length payload in
      elim (Bool-cases (is_padded b payload)) [
        | inl e ↦
            let one_more : b - length payload % b ≡ counted true =
              omega (arith, div-add-mod' (length payload) b, mod-lt (length payload) pos) in
            let count : b - length payload % b ≡ count_data_shards b payload * b - length payload =
              one_more ∙ ap counted (sym e) in
            ap (λ l. take whole payload ++ l) (padded_lem e)
            ∙ sym (
                append_assoc (take whole payload) (drop whole payload)
                  (replicate (b - length payload % b) 0))
            ∙ ap (λ l. l ++ replicate (b - length payload % b) 0) (take-drop whole payload)
            ∙ ap (λ n. payload ++ replicate n 0) count
        | inr e ↦
            let no_more : 0 ≡ counted false = omega (arith, div-add-mod' (length payload) b) in
            let count : 0 ≡ count_data_shards b payload * b - length payload =
              no_more ∙ ap counted (sym e) in
            let exact : length payload % b ≡ 0 = ground arith in
            ap (λ l. take whole payload ++ l) (unpadded_lem e)
            ∙ append-nil (take whole payload)
            ∙ take_all whole payload (omega (arith, exact, div-add-mod' (length payload) b))
            ∙ sym (append-nil payload)
            ∙ ap (λ n. payload ++ replicate n 0) count
      ]

length-pointers : (area : ℕ → ShardPtr) (b n at : ℕ) → length (pointers area b n at) ≡ n
length-pointers area b zero at = refl
length-pointers area b (suc n) at = ap suc (length-pointers area b n (at + b))

length-data_pointers :
    (b : ℕ) (payload : Bytes) → length (data_pointers b payload) ≡ count_data_shards b payload
length-data_pointers b payload =
    let front = pointers payload_at b (aligned_data_shards b payload) 0 in
    let back : List ShardPtr = if is_padded b payload then shards_at 0 ∷ [] else [] in
    let one : length back ≡ (if is_padded b payload then 1 else 0) =
      elim (Bool-cases (is_padded b payload)) [ inl e ↦ rw e refl | inr e ↦ rw e refl ] in
    omega (
      arith,
      length-append front back,
      one,
      length-pointers payload_at b (aligned_data_shards b payload) 0,
    )

-- The shards of an encoder keep the sizes that it was asked for.
abbrev pub KeepsSizes : (ℕ → ℕ → ℕ → List Bytes → List Bytes) → Type 0
KeepsSizes rs = (n p b : ℕ) (ds : List Bytes) → length (concat (rs n p b ds)) ≡ p * b

module _ (rs : ℕ → ℕ → ℕ → List Bytes → List Bytes) where
  -- `encode` with any block size above 0: the data shards that the receiver gets, joined, are the
  -- payload followed by zeros up to the next multiple of the block size.
  pub encode_data_shards :
      (payload : Bytes) (b pct low prefix : ℕ)
      → 0 < b
      → let fec = encode rs payload b pct low prefix in
        concat (map (shard_data fec) (take fec.data_shards fec.shards_p))
        ≡ payload ++ replicate (fec.data_shards * b - length payload) 0
  unfolding encode
  encode_data_shards payload b pct low prefix pos =
      let n = count_data_shards b payload in
      let used = used_percentage n pct low in
      let offset = if is_padded b payload then 1 else 0 in
      let tail : List ShardPtr =
        if used == 0
        then []
        else pointers shards_at b (count_parity_shards n pct low) (offset * b) in
      ap (λ ps. concat (map (shard_data (encode rs payload b pct low prefix)) ps))
        (ap (λ k. take k (data_pointers b payload ++ tail)) (sym (length-data_pointers b payload))
          ∙ take-append (data_pointers b payload) tail)
      ∙ concat-data_pointers payload b pos (concat (parity_shards rs payload b pct low))
      ∙ take_padding payload b pos

  -- `encode` with any block size above 0 and a Reed-Solomon code whose parity shards have the size
  -- and the number asked for: the two buffers of a batched send hold exactly the bytes of the
  -- shards in order, which are what is sent where batches are not available.
  pub encode_payload_buffers :
      (payload : Bytes) (b pct low prefix : ℕ)
      → KeepsSizes rs
      → 0 < b
      → let fec = encode rs payload b pct low prefix in
        concat fec.payload_buffers ≡ concat (map (shard_data fec) fec.shards_p)
  unfolding encode
  encode_payload_buffers payload b pct low prefix sizes pos =
      let n = count_data_shards b payload in
      let used = used_percentage n pct low in
      let p = count_parity_shards n pct low in
      let offset = if is_padded b payload then 1 else 0 in
      let pointers_behind : List ShardPtr =
        if used == 0 then [] else pointers shards_at b p (offset * b) in
      let padded = padded_shard b payload in
      let parity = concat (parity_shards rs payload b pct low) in
      let read = read_shard b payload (padded ++ parity) in
      let behind : parity ≡ concat (map read pointers_behind) = elim (Bool-cases (used == 0)) [
        | inl e ↦ rw e refl
        | inr e ↦
            let size : length parity ≡ p * b =
              rw e (sizes n p b (map (read_shard b payload padded) (data_pointers b payload))) in
            let used_ptrs : pointers_behind ≡ pointers shards_at b p (offset * b) = rw e refl in
            sym (
              ap (λ ps. concat (map read ps)) used_ptrs
              ∙ concat-pointers_shards b p (offset * b) payload (padded ++ parity)
              ∙ ap (λ k. take (p * b) (drop k (padded ++ parity)))
                  (sym (length-padded_shard payload b pos))
              ∙ ap (take (p * b)) (drop-append padded parity)
              ∙ take_all (p * b) parity (omega arith))
      ] in
      ap (λ l. take (whole payload b pos) payload ++ l) (append-nil (padded ++ parity))
      ∙ sym (append_assoc (take (whole payload b pos) payload) padded parity)
      ∙ ap (λ l. l ++ parity) (sym (concat-data_pointers payload b pos parity))
      ∙ ap (λ l. concat (map read (data_pointers b payload)) ++ l) behind
      ∙ sym (concat-append (map read (data_pointers b payload)) (map read pointers_behind))
      ∙ ap concat (sym (map-append read (data_pointers b payload) pointers_behind))
