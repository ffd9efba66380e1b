-- ===== src/Ecc/Codec.antt =====
-- `ReedSolomon`: parity shards, and the reconstruction of lost shards. A shard is a list of bytes.
pub mod Kept
pub mod Lengths
pub mod Filled
pub mod Combine
pub mod Codeword
pub mod Correct
pub mod Restored
pub mod RoundTrip
pub mod Unrecoverable
use backup_shield.Base.{
  ℕ, zero, suc, ◌+◌, bit_xor, Bool, true, false, Option, none, some, List, [], ◌∷◌, ◌++◌, ◌==◌, leb,
  ltb, if◌then◌else◌, get_or, set, replicate, length, take, Bytes,
}
use backup_shield.Base.Result.{Result, ok, err, ensure, ◌>>=◌, ◌>>◌}
use backup_shield.Ecc.Field.{new_gf256, gf_mul}
use backup_shield.Ecc.Matrix.{
  Matrix, new_matrix, get, put, for_range, invert, InvertError, build_encoding_matrix,
}

pub data CodecError : Type 0 where
  no_data_shards no_parity_shards too_many_shards : CodecError
  wrong_shard_count unequal_lengths not_enough_shards no_data_in_shard : CodecError
  not_invertible : InvertError → CodecError

pub record ReedSolomon : Type 0 where
  pub data_shards : ℕ
  pub parity_shards : ℕ
  pub encoding_matrix : Matrix

unfoldable pub new_reed_solomon : ℕ → ℕ → Result CodecError ReedSolomon
new_reed_solomon data_shards parity_shards =
    if data_shards == 0
    then err no_data_shards
    else if parity_shards == 0
    then err no_parity_shards
    else if ltb 256 (data_shards + parity_shards)
    then err too_many_shards
    else ok (record {
      data_shards = data_shards;
      parity_shards = parity_shards;
      encoding_matrix = build_encoding_matrix data_shards parity_shards;
    })

unfoldable pub all_of_length : ℕ → List Bytes → Bool
all_of_length n [] = true
all_of_length n (shard ∷ shards) =
    let rest = all_of_length n shards in if length shard == n then rest else false

unfoldable pub first_length : List Bytes → ℕ
first_length [] = 0
first_length (shard ∷ shards) = length shard

-- `acc[byte_idx] ^= gf_mul(coeff, shard[byte_idx])` for every byte
unfoldable pub xor_scaled : ℕ → Bytes → Bytes → Bytes
xor_scaled coeff [] shard = []
xor_scaled coeff (a ∷ acc) [] = a ∷ acc
xor_scaled coeff (a ∷ acc) (b ∷ shard) =
    bit_xor a (gf_mul new_gf256 coeff b) ∷ xor_scaled coeff acc shard

-- The sum of the shards, with the coefficients of one row of a matrix from column `d` on.
unfoldable pub combine : Matrix → ℕ → ℕ → List Bytes → Bytes → Bytes
combine m row d [] acc = acc
combine m row d (shard ∷ shards) acc =
    combine m row (d + 1) shards (xor_scaled (get m row d) acc shard)

unfoldable pub combine_rows : Matrix → ℕ → ℕ → ℕ → List Bytes → List Bytes
combine_rows m shard_len zero row shards = []
combine_rows m shard_len (suc rounds) row shards =
    combine m row 0 shards (replicate shard_len 0)
    ∷ combine_rows m shard_len rounds (row + 1) shards

unfoldable pub encode : ReedSolomon → List Bytes → Result CodecError (List Bytes)
encode rs shards = do
  ensure (length shards == rs.data_shards) wrong_shard_count
  ensure (all_of_length (first_length shards) shards) unequal_lengths
  ok (
      if first_length shards == 0
      then replicate rs.parity_shards []
      else combine_rows rs.encoding_matrix (first_length shards) rs.parity_shards rs.data_shards
          shards)

-- The positions at which the flag is `wanted`.
unfoldable pub indices_of : Bool → ℕ → List Bool → List ℕ
indices_of wanted i [] = []
indices_of wanted i (present ∷ flags) =
    let rest = indices_of wanted (i + 1) flags in
    if present then (if wanted then i ∷ rest else rest) else (if wanted then rest else i ∷ rest)

-- The length of the first present shard that holds data.
unfoldable pub shard_length : List (Option Bytes) → List ℕ → ℕ
shard_length shards [] = 0
shard_length shards (i ∷ is) = elim (get_or shards i none) [
  | some content ↦ length content
  | none ↦ shard_length shards is
]

unfoldable pub check_present : ℕ → List (Option Bytes) → List ℕ → Result CodecError (Unit {0})
check_present shard_len shards [] = ok tt
check_present shard_len shards (i ∷ is) = elim (get_or shards i none) [
  | some content ↦
      if length content == shard_len then check_present shard_len shards is else err unequal_lengths
  | none ↦ err no_data_in_shard
]

-- The rows of the encoding matrix for the shards that are used.
unfoldable pub sub_matrix : Matrix → ℕ → ℕ → List ℕ → Matrix → Matrix
sub_matrix encoding n out_row [] m = m
sub_matrix encoding n out_row (src_row ∷ rows) m =
    sub_matrix encoding n (out_row + 1) rows
      (for_range n 0 (λ col. put out_row col (get encoding src_row col)) m)

-- `unwrap` after `check_present`
unfoldable pub contents : List (Option Bytes) → List ℕ → List Bytes
contents shards [] = []
contents shards (i ∷ is) =
    elim (get_or shards i none) [ some content ↦ content | none ↦ [] ] ∷ contents shards is

unfoldable pub fill_missing :
    Matrix → ℕ → List Bytes → List ℕ → List (Option Bytes) → List (Option Bytes)
fill_missing encoding shard_len recovered [] shards = shards
fill_missing encoding shard_len recovered (idx ∷ is) shards =
    fill_missing encoding shard_len recovered is
      (set shards idx (some (combine encoding idx 0 recovered (replicate shard_len 0))))

-- The last loop: a data shard that is still missing.
unfoldable pub fill_data : ℕ → List Bytes → List (Option Bytes) → List (Option Bytes)
fill_data d [] shards = shards
fill_data d (recovered ∷ later) shards = elim (get_or shards d none) [
  | some content ↦ fill_data (d + 1) later shards
  | none ↦ fill_data (d + 1) later (set shards d (some recovered))
]

unfoldable pub recover :
    ReedSolomon → List (Option Bytes) → List ℕ → List ℕ → Result CodecError (List (Option Bytes))
recover rs shards present missing =
    let n = rs.data_shards in
    let shard_len = shard_length shards present in
    let used = take n present in
    check_present shard_len shards present
    >> elim (invert (sub_matrix rs.encoding_matrix n 0 used (new_matrix n n))) [
      | err e ↦ err (not_invertible e)
      | ok inv ↦
          let recovered = combine_rows inv shard_len n 0 (contents shards used) in
          ok (
            fill_data 0 recovered
              (fill_missing rs.encoding_matrix shard_len recovered missing shards))
    ]

unfoldable pub reconstruct :
    ReedSolomon → List (Option Bytes) → List Bool → Result CodecError (List (Option Bytes))
reconstruct rs shards shard_present =
    let total = rs.data_shards + rs.parity_shards in
    let present = indices_of true 0 shard_present in
    let missing = indices_of false 0 shard_present in
    let recovered = recover rs shards present missing in
    if length shards == total
    then if length shard_present == total
      then if ltb (length present) rs.data_shards
        then err not_enough_shards
        else if length missing == 0
        then ok shards
        else recovered
      else err wrong_shard_count
    else err wrong_shard_count
