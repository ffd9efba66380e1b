-- ===== src/Ecc/Codec/Lengths.antt =====
-- The shape of what `encode` returns.
use backup_shield.Base.{
  ℕ, zero, suc, ◌+◌, ◌≡◌, refl, ap, subst, ◌∙◌, inl, inr, true, List, [], ◌∷◌, ◌==◌, if◌then◌else◌,
  length, length-replicate, replicate, Bytes, All, arith, Bool-cases,
}
use backup_shield.Base.Result.{ok}
use backup_shield.Ecc.Matrix.{Matrix}
use backup_shield.Ecc.Codec.{
  ReedSolomon, all_of_length, first_length, xor_scaled, combine, combine_rows, encode,
}

pub length-xor_scaled :
    (coeff : ℕ) (acc shard : Bytes) → length (xor_scaled coeff acc shard) ≡ length acc
unfolding xor_scaled
length-xor_scaled coeff [] shard = refl
length-xor_scaled coeff (a ∷ acc) [] = refl
length-xor_scaled coeff (a ∷ acc) (b ∷ shard) = ap suc (length-xor_scaled coeff acc shard)

pub length-combine :
    (m : Matrix) (row d : ℕ) (shards : List Bytes) (acc : Bytes)
    → length (combine m row d shards acc) ≡ length acc
unfolding combine
length-combine m row d [] acc = refl
length-combine m row d (shard ∷ shards) acc =
    length-combine m row (d + 1) shards (xor_scaled _ acc shard) ∙ length-xor_scaled _ acc shard

-- Shards of one length.
abbrev pub OfLength : ℕ → List Bytes → Type 0
OfLength n shards = All (λ shard. length shard ≡ n) shards

pub combine_rows-OfLength :
    (m : Matrix) (n rounds row : ℕ) (shards : List Bytes)
    → (length (combine_rows m n rounds row shards) ≡ rounds)
      × OfLength n (combine_rows m n rounds row shards)
unfolding combine_rows
combine_rows-OfLength m n zero row shards = (refl, tt)
combine_rows-OfLength m n (suc rounds) row shards =
    let (count, sizes) = combine_rows-OfLength m n rounds (row + 1) shards in
    (ap suc count, (length-combine m row 0 shards (replicate n 0) ∙ length-replicate n 0, sizes))

empty-OfLength : (k : ℕ) → (length (replicate {A = Bytes} k []) ≡ k) × OfLength 0 (replicate k [])
empty-OfLength zero = (refl, tt)
empty-OfLength (suc k) = let (count, sizes) = empty-OfLength k in (ap suc count, (refl, sizes))

all_of_length-true :
    (n : ℕ) (shards : List Bytes) → OfLength n shards → all_of_length n shards ≡ true
unfolding all_of_length
all_of_length-true n [] h = refl
all_of_length-true n (shard ∷ shards) h = ground (arith, h.0, all_of_length-true n shards h.1)

abbrev pub parity_of : ReedSolomon → List Bytes → List Bytes
parity_of rs shards =
    if first_length shards == 0
    then replicate rs.parity_shards []
    else combine_rows rs.encoding_matrix (first_length shards) rs.parity_shards rs.data_shards
        shards

pub zero_of_test : (n : ℕ) → (n == 0) ≡ true → 0 ≡ n
zero_of_test n h = ground arith

pub parity_of-OfLength :
    (rs : ReedSolomon) (shards : List Bytes)
    → (length (parity_of rs shards) ≡ rs.parity_shards)
      × OfLength (first_length shards) (parity_of rs shards)
parity_of-OfLength rs shards = elim (Bool-cases (first_length shards == 0)) [
  | inl empty ↦
      let (count, sizes) = empty-OfLength rs.parity_shards in
      rw empty (
        count,
        subst (λ n. OfLength n (replicate rs.parity_shards []))
            (zero_of_test (first_length shards) empty) sizes,
      )
  | inr full ↦ rw full (
      combine_rows-OfLength rs.encoding_matrix (first_length shards) rs.parity_shards rs.data_shards
        shards)
]

-- For as many shards as the codec has data shards, all of the length of the first, `encode`
-- succeeds and returns as many parity shards as the codec has, each of that length.
pub encode-OfLength :
    (rs : ReedSolomon) (shards : List Bytes)
    → length shards ≡ rs.data_shards
    → OfLength (first_length shards) shards
    → (parity : List Bytes) × (encode rs shards ≡ ok parity)
      × (length parity ≡ rs.parity_shards)
      × OfLength (first_length shards) parity
unfolding encode
encode-OfLength rs shards count same =
    let right_count : (length shards == rs.data_shards) ≡ true = ground arith in
    let aligned = all_of_length-true (first_length shards) shards same in
    let (made, sizes) = parity_of-OfLength rs shards in
    (parity_of rs shards, rw (right_count, aligned, encode) refl, made, sizes)
