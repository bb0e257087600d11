-- ===== src/Stream/Fec.antt =====
-- src/stream.cpp: `fec::encode`, and how `videoBroadcastThread` cuts a frame into FEC blocks. The
-- Reed-Solomon code of the library nanors is a parameter: the parity shards of the data shards.
use midnight_sun.Prelude.{
  ℕ, zero, suc, ◌+◌, ◌-◌, ◌*◌, ◌/◌, ◌%◌, Bool, true, false, not, ◌&&◌, Option, none, some, List, [],
  ◌∷◌, ◌++◌, map, if◌then◌else◌, ltb, ◌==◌, length, take, drop, replicate,
}
use midnight_sun.Prelude.Maps.{Bytes}
pub mod Shards
pub mod Rounding
pub mod Blocks
pub mod Protected

-- A shard is a place in the payload or in the buffer that `encode` allocates.
pub data ShardPtr : Type 0 where
  payload_at : ℕ → ShardPtr
  shards_at : ℕ → ShardPtr

-- `fec_t`, with the payload that the pointers of its shards lead to. The headers are left out.
pub record Fec : Type 0 where
  pub payload : Bytes
  pub data_shards : ℕ
  pub nr_shards : ℕ
  pub percentage : ℕ
  pub blocksize : ℕ
  pub prefixsize : ℕ
  pub shards : Bytes
  pub shards_p : List ShardPtr
  pub payload_buffers : List Bytes

abbrev pub read_shard : ℕ → Bytes → Bytes → ShardPtr → Bytes
read_shard blocksize payload shards (payload_at at) = take blocksize (drop at payload)
read_shard blocksize payload shards (shards_at at) = take blocksize (drop at shards)

abbrev pub shard_data : Fec → ShardPtr → Bytes
shard_data fec p = read_shard fec.blocksize fec.payload fec.shards p

-- A loop that fills in `n` pointers, `blocksize` apart, from the place `at` on.
abbrev pub pointers : (ℕ → ShardPtr) → ℕ → ℕ → ℕ → List ShardPtr
pointers area blocksize zero at = []
pointers area blocksize (suc n) at = area at ∷ pointers area blocksize n (at + blocksize)

abbrev pub concat : List Bytes → Bytes
concat [] = []
concat (xs ∷ xss) = xs ++ concat xss

abbrev pub is_padded : ℕ → Bytes → Bool
is_padded blocksize payload = not (length payload % blocksize == 0)

abbrev pub aligned_data_shards : ℕ → Bytes → ℕ
aligned_data_shards blocksize payload = length payload / blocksize

abbrev pub count_data_shards : ℕ → Bytes → ℕ
count_data_shards blocksize payload =
    aligned_data_shards blocksize payload + (if is_padded blocksize payload then 1 else 0)

-- The parity shards that the percentage asks for, raised to the minimum unless FEC is off.
abbrev pub parity_at : ℕ → ℕ → ℕ
parity_at data_shards fecpercentage = (data_shards * fecpercentage + 99) / 100

abbrev pub is_raised : ℕ → ℕ → ℕ → Bool
is_raised data_shards fecpercentage minparityshards =
    ltb (parity_at data_shards fecpercentage) minparityshards && not (fecpercentage == 0)

abbrev pub count_parity_shards : ℕ → ℕ → ℕ → ℕ
count_parity_shards data_shards fecpercentage minparityshards =
    if is_raised data_shards fecpercentage minparityshards
    then minparityshards
    else parity_at data_shards fecpercentage

abbrev pub used_percentage : ℕ → ℕ → ℕ → ℕ
used_percentage data_shards fecpercentage minparityshards =
    if is_raised data_shards fecpercentage minparityshards
    then 100 * minparityshards / data_shards
    else fecpercentage

-- The last data shard, where the payload does not fill it: its bytes and zeros.
abbrev pub padded_shard : ℕ → Bytes → Bytes
padded_shard blocksize payload =
    let left = drop (aligned_data_shards blocksize payload * blocksize) payload in
    if is_padded blocksize payload
    then take blocksize left ++ replicate (blocksize - length left) 0
    else []

abbrev pub data_pointers : ℕ → Bytes → List ShardPtr
data_pointers blocksize payload =
    pointers payload_at blocksize (aligned_data_shards blocksize payload) 0
    ++ (if is_padded blocksize payload then shards_at 0 ∷ [] else [])

-- `rs n p b ds` stands for the `p` parity shards of `b` bytes of the `n` shards `ds`.
module _ (rs : ℕ → ℕ → ℕ → List Bytes → List Bytes) where
  abbrev pub parity_shards : Bytes → ℕ → ℕ → ℕ → List Bytes
  parity_shards payload blocksize fecpercentage minparityshards =
      let n = count_data_shards blocksize payload in
      if used_percentage n fecpercentage minparityshards == 0
      then []
      else rs n (count_parity_shards n fecpercentage minparityshards) blocksize (
          map (read_shard blocksize payload (padded_shard blocksize payload))
            (data_pointers blocksize payload))

  unfoldable pub encode : Bytes → ℕ → ℕ → ℕ → ℕ → Fec
  encode payload blocksize fecpercentage minparityshards prefixsize =
      let n = count_data_shards blocksize payload in
      let p = count_parity_shards n fecpercentage minparityshards in
      let used = used_percentage n fecpercentage minparityshards in
      let aligned = aligned_data_shards blocksize payload in
      let offset = if is_padded blocksize payload then 1 else 0 in
      let shards =
        padded_shard blocksize payload
        ++ concat (parity_shards payload blocksize fecpercentage minparityshards) in
      record {
        payload = payload;
        data_shards = n;
        nr_shards = n + p;
        percentage = used;
        blocksize = blocksize;
        prefixsize = prefixsize;
        shards = shards;
        shards_p =
            data_pointers blocksize payload
            ++ (if used == 0 then [] else pointers shards_at blocksize p (offset * blocksize));
        payload_buffers = take (aligned * blocksize) payload ∷ shards ∷ [];
      }

-- `substr` throws where it starts behind the end.
abbrev pub substr : ℕ → ℕ → Bytes → Option Bytes
substr at n xs = if ltb (length xs) at then none else some (take n (drop at xs))

abbrev pub cons_block : Option Bytes → Option (List Bytes) → Option (List Bytes)
cons_block (some b) (some bs) = some (b ∷ bs)
cons_block _ _ = none

-- The iterations from `x` on, of which `k` are left; the last block goes to the end.
abbrev pub split_blocks : ℕ → Bytes → ℕ → ℕ → ℕ → Option (List Bytes)
split_blocks aligned_size payload needed zero x = some []
split_blocks aligned_size payload needed (suc k) x =
    let rest = split_blocks aligned_size payload needed k (x + 1) in
    let block =
      if x == needed - 1
      then substr (x * aligned_size) (length payload) payload
      else substr (x * aligned_size) aligned_size payload in
    cons_block block rest

abbrev pub data_shards_max : ℕ
data_shards_max = 255

abbrev pub max_fec_blocks : ℕ
max_fec_blocks = 4

abbrev pub max_data_shards_per_fec_block : ℕ → ℕ
max_data_shards_per_fec_block fec_percentage = data_shards_max * 100 / (100 + fec_percentage)

abbrev pub max_data_per_fec_block : ℕ → ℕ → ℕ
max_data_per_fec_block blocksize fec_percentage =
    max_data_shards_per_fec_block fec_percentage * blocksize

abbrev pub blocks_for : ℕ → ℕ → ℕ → ℕ
blocks_for blocksize fec_percentage size =
    let most = max_data_per_fec_block blocksize fec_percentage in (size + (most - 1)) / most

abbrev pub aligned_block_size : ℕ → ℕ → ℕ → ℕ
aligned_block_size blocksize needed size = (size / needed + (blocksize - 1)) / blocksize * blocksize

-- The percentage that is used, and the blocks.
unfoldable pub fec_blocks : ℕ → ℕ → Bytes → ℕ × Option (List Bytes)
fec_blocks blocksize fec_percentage payload =
    let wanted = blocks_for blocksize fec_percentage (length payload) in
    let too_many = ltb max_fec_blocks wanted in
    let needed = if too_many then max_fec_blocks else wanted in
    let aligned_size = aligned_block_size blocksize needed (length payload) in
    (if too_many then 0 else fec_percentage, split_blocks aligned_size payload needed needed 0)
