-- ===== src/Ecc/Parity.antt =====
-- crates/ecc/src/repair.rs: parity groups, and the repair of chunks through the codec.
pub mod Available
pub mod Repaired
pub mod RoundTrip
use backup_shield.Base.{
  ℕ, zero, suc, ◌+◌, ◌-◌, Bool, true, false, Option, none, some, List, [], ◌∷◌, ◌++◌, ◌==◌, ◌||◌,
  leb, ltb, max, if◌then◌else◌, get_or, set, replicate, length, take, map, Bytes, eq_bytes,
}
use backup_shield.Base.Result.{Result, ok, err, ensure, ◌>>=◌, ◌>>◌}
use backup_shield.Hash.{Hashes, compute_hash}
use backup_shield.Ecc.Codec.{ReedSolomon, CodecError, new_reed_solomon, encode, reconstruct}

pub record ParityGroup : Type 0 where
  pub group_id : ℕ
  pub data_chunk_hashes : List Bytes
  pub parity_chunk_hashes : List Bytes
  pub chunk_size : ℕ

unfoldable pub total_chunks : ParityGroup → ℕ
total_chunks g = length g.data_chunk_hashes + length g.parity_chunk_hashes

pub record ParityIndex : Type 0 where
  pub groups : List ParityGroup

unfoldable pub has_hash : Bytes → List Bytes → Bool
has_hash hash [] = false
has_hash hash (h ∷ hashes) = eq_bytes h hash || has_hash hash hashes

unfoldable pub first_group : (ParityGroup → Bool) → List ParityGroup → Option ParityGroup
first_group test [] = none
first_group test (g ∷ groups) = if test g then some g else first_group test groups

unfoldable pub find_group : ParityIndex → ℕ → Option ParityGroup
find_group index group_id = first_group (λ g. g.group_id == group_id) index.groups

unfoldable pub find_group_by_hash : ParityIndex → Bytes → Option ParityGroup
find_group_by_hash index hash =
    first_group (λ g. has_hash hash g.data_chunk_hashes || has_hash hash g.parity_chunk_hashes)
      index.groups

pub data ParityError : Type 0 where
  invalid_input : ParityError
  codec_failed : CodecError → ParityError

pub record ParityManager : Type 0 where
  pub rs : ReedSolomon
  pub data_shards : ℕ
  pub parity_shards : ℕ

-- `map_err(EccError::ReedSolomonError)`
unfoldable pub lift_error {ℓ} : {A : Type ℓ} → Result CodecError A → Result ParityError A
lift_error (ok a) = ok a
lift_error (err e) = err (codec_failed e)

unfoldable pub new_parity_manager : ℕ → ℕ → Result ParityError ParityManager
new_parity_manager data_shards parity_shards = do
  rs ← lift_error (new_reed_solomon data_shards parity_shards)
  ok (record { rs = rs; data_shards = data_shards; parity_shards = parity_shards })

-- `Vec::resize(n, 0)`
unfoldable pub resize : ℕ → Bytes → Bytes
resize n bytes = take n bytes ++ replicate (n - length bytes) 0

unfoldable pub max_length : List Bytes → ℕ
max_length [] = 0
max_length (chunk ∷ chunks) = max (length chunk) (max_length chunks)

unfoldable pub compute_parity : ParityManager → List Bytes → Result ParityError (List Bytes)
compute_parity pm chunks = do
  ensure (length chunks == pm.data_shards) invalid_input
  lift_error (encode pm.rs (map (resize (max_length chunks)) chunks))

-- The loop that fills `shards` and `shard_present`.
unfoldable pub place_chunks :
    ℕ
    → ℕ
    → List (ℕ × Bytes)
    → List (Option Bytes)
    → List Bool
    → Result ParityError (List (Option Bytes) × List Bool)
place_chunks total shard_len [] shards present = ok (shards, present)
place_chunks total shard_len ((idx, content) ∷ later) shards present =
    if leb total idx
    then err invalid_input
    else place_chunks total shard_len later (set shards idx (some (resize shard_len content)))
        (set present idx true)

abbrev pub or_empty : Option Bytes → Bytes
or_empty none = []
or_empty (some content) = content

unfoldable pub repair_chunks :
    ParityManager → List (ℕ × Bytes) → ℕ → ℕ → Result ParityError (List Bytes)
repair_chunks pm available total shard_len = do
  ensure (total == pm.data_shards + pm.parity_shards) invalid_input
  (shards, present) ←
      place_chunks total shard_len available (replicate total none) (replicate total false)
  after ← lift_error (reconstruct pm.rs shards present)
  ok (map or_empty after)

module _ (H : Hashes) where
  unfoldable pub create_parity_group : ℕ → List Bytes → List Bytes → ℕ → ParityGroup
  create_parity_group group_id data_chunks parity_chunks chunk_size = record {
    group_id = group_id;
    data_chunk_hashes = map (compute_hash H) data_chunks;
    parity_chunk_hashes = map (compute_hash H) parity_chunks;
    chunk_size = chunk_size;
  }
