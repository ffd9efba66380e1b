-- ===== src/Ecc/Codec/Combine.antt =====
-- Every byte of a shard that `encode` or `reconstruct` makes, as a sum over the shards it is
-- made from.
use backup_shield.Base.{
  ℕ, zero, suc, ◌+◌, ◌<◌, ◌≡◌, refl, sym, ap, ◌∙◌, bit_xor, List, [], ◌∷◌, get_or, length,
  length-replicate, replicate, Bytes, arith,
}
use backup_shield.Base.Bits.{xor_zero_right, xor_zero_left, xor_assoc}
use backup_shield.Ecc.Field.Laws.{mul, mul_zero_right}
use backup_shield.Ecc.Field.Sums.{sum}
use backup_shield.Ecc.Matrix.{Matrix, get}
use backup_shield.Ecc.Codec.{xor_scaled, combine, combine_rows}
use backup_shield.Ecc.Codec.Lengths.{length-xor_scaled, length-combine}

-- Lists of one length with the same entries are equal.
pub list_ext {ℓ} :
    {A : Type ℓ} (d : A) (xs ys : List A)
    → length xs ≡ length ys
    → ((i : ℕ) → i < length xs → get_or xs i d ≡ get_or ys i d)
    → xs ≡ ys
list_ext d [] [] size h = refl
list_ext d [] (y ∷ ys) size h = absurd (omega (arith, size))
list_ext d (x ∷ xs) [] size h = absurd (omega (arith, size))
list_ext d (x ∷ xs) (y ∷ ys) size h =
    ap (λ t. t ∷ xs) (h 0 (omega arith))
    ∙ ap (◌∷◌ y) (list_ext d xs ys (omega (arith, size)) (λ i small. h (suc i) (omega arith)))

xor_scaled_at :
    (coeff : ℕ) (acc shard : Bytes) (b : ℕ)
    → b < length acc
    → get_or (xor_scaled coeff acc shard) b 0
      ≡ bit_xor (get_or acc b 0) (mul coeff (get_or shard b 0))
unfolding xor_scaled
xor_scaled_at coeff [] shard b small = absurd (omega arith)
xor_scaled_at coeff (a ∷ acc) [] b small = sym (
    ap (bit_xor (get_or (a ∷ acc) b 0)) (mul_zero_right coeff 0 refl)
    ∙ xor_zero_right (get_or (a ∷ acc) b 0))
xor_scaled_at coeff (a ∷ acc) (s ∷ shard) zero small = refl
xor_scaled_at coeff (a ∷ acc) (s ∷ shard) (suc b) small =
    xor_scaled_at coeff acc shard b (omega arith)

combine_at :
    (m : Matrix) (row d : ℕ) (shards : List Bytes) (acc : Bytes) (b : ℕ) (y : ℕ → ℕ)
    → b < length acc
    → ((k : ℕ) → k < length shards → get_or (get_or shards k []) b 0 ≡ y (d + k))
    → get_or (combine m row d shards acc) b 0
      ≡ bit_xor (get_or acc b 0) (sum (length shards) d (λ j. mul (get m row j) (y j)))
unfolding combine sum
combine_at m row d [] acc b y small h = sym (xor_zero_right (get_or acc b 0))
combine_at m row d (shard ∷ shards) acc b y small h =
    combine_at m row (d + 1) shards (xor_scaled (get m row d) acc shard) b y
      (omega (arith, length-xor_scaled (get m row d) acc shard, small))
      (λ k low. h (suc k) (omega arith) ∙ ap y (omega arith))
    ∙ (ap (λ t. bit_xor t (sum (length shards) (d + 1) (λ j. mul (get m row j) (y j))))
          (xor_scaled_at (get m row d) acc shard b small
            ∙ ap (λ t. bit_xor (get_or acc b 0) (mul (get m row d) t))
                (h 0 (omega arith) ∙ ap y (omega arith)))
        ∙ xor_assoc (get_or acc b 0) (mul (get m row d) (y d)) _)

pub get_or-zeros : (n b : ℕ) → get_or {A = ℕ} (replicate n 0) b 0 ≡ 0
get_or-zeros zero b = refl
get_or-zeros (suc n) zero = refl
get_or-zeros (suc n) (suc b) = get_or-zeros n b

length-zeros : (n : ℕ) → length (replicate {A = ℕ} n 0) ≡ n
length-zeros n = length-replicate {A = ℕ} n 0

pub combine-sum :
    (m : Matrix) (row n size b : ℕ) (shards : List Bytes)
    → length shards ≡ n
    → b < size
    → get_or (combine m row 0 shards (replicate size 0)) b 0
      ≡ sum n 0 (λ j. mul (get m row j) (get_or (get_or shards j []) b 0))
combine-sum m row n size b shards count small =
    combine_at m row 0 shards (replicate size 0) b (λ j. get_or (get_or shards j []) b 0)
      (omega (arith, small, length-zeros size))
      (λ k low. ap (λ j. get_or (get_or shards j []) b 0) (omega arith))
    ∙ (ap
          (λ t.
            bit_xor t
              (sum (length shards) 0 (λ j. mul (get m row j) (get_or (get_or shards j []) b 0))))
          (get_or-zeros size b)
        ∙ (xor_zero_left
              (sum (length shards) 0 (λ j. mul (get m row j) (get_or (get_or shards j []) b 0)))
            ∙ ap (λ k. sum k 0 (λ j. mul (get m row j) (get_or (get_or shards j []) b 0))) count))

pub length-combine_zeros :
    (m : Matrix) (row size : ℕ) (shards : List Bytes)
    → length (combine m row 0 shards (replicate size 0)) ≡ size
length-combine_zeros m row size shards =
    length-combine m row 0 shards (replicate size 0) ∙ length-zeros size

-- A shard is the one that `combine` makes if it has the length and the sums.
pub combine_unique :
    (m : Matrix) (row n size : ℕ) (shards : List Bytes) (shard : Bytes)
    → length shards ≡ n
    → length shard ≡ size
    → ((b : ℕ)
        → b < size
        → get_or shard b 0 ≡ sum n 0 (λ j. mul (get m row j) (get_or (get_or shards j []) b 0)))
    → combine m row 0 shards (replicate size 0) ≡ shard
combine_unique m row n size shards shard count long sums =
    let made = length-combine_zeros m row size shards in
    list_ext 0 (combine m row 0 shards (replicate size 0)) shard (made ∙ sym long) (λ b small.
      let inside : b < size = omega (arith, small, made) in
      combine-sum m row n size b shards count inside ∙ sym (sums b inside))

pub combine_rows_at :
    (m : Matrix) (size rounds row k : ℕ) (shards : List Bytes)
    → k < rounds
    → get_or (combine_rows m size rounds row shards) k []
      ≡ combine m (row + k) 0 shards (replicate size 0)
unfolding combine_rows
combine_rows_at m size zero row k shards small = absurd (omega arith)
combine_rows_at m size (suc rounds) row zero shards small =
    ap (λ t. combine m t 0 shards (replicate size 0)) (omega arith)
combine_rows_at m size (suc rounds) row (suc k) shards small =
    combine_rows_at m size rounds (row + 1) k shards (omega arith)
    ∙ ap (λ t. combine m t 0 shards (replicate size 0)) (omega arith)
