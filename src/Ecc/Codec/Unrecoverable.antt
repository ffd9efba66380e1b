-- ===== src/Ecc/Codec/Unrecoverable.antt =====
-- A loss of no more shards than there are parity shards that `reconstruct` cannot repair.
use backup_shield.Base.{
  ◌≡◌, refl, Bool, true, false, Option, none, some, List, [], ◌∷◌, length, Bytes, arith,
}
use backup_shield.Base.Result.{ok, err}
use backup_shield.Ecc.Field.{new_gf256, fill_tables, repeat_powers, next_power, gf_mul, gf_inv}
use backup_shield.Ecc.Matrix.{
  new_matrix, get, put, for_range, augment, find_pivot, swap_rows, scale_row, eliminate_row,
  eliminate_column, eliminate, invert, singular, vandermonde, build_encoding_matrix,
}
use backup_shield.Ecc.Codec.{
  ReedSolomon, new_reed_solomon, indices_of, shard_length, check_present, sub_matrix, recover,
  reconstruct, not_invertible,
}

abbrev pub five_six : ReedSolomon
five_six = record {
  data_shards = 5;
  parity_shards = 6;
  encoding_matrix = build_encoding_matrix 5 6;
}

pub five_six_is_new : new_reed_solomon 5 6 ≡ ok five_six
unfolding new_reed_solomon
five_six_is_new = refl

-- Six of eleven shards are lost: three of the data, three of the parity.
abbrev pub flags : List Bool
flags = false ∷ false ∷ true ∷ true ∷ false ∷ true ∷ false ∷ false ∷ true ∷ false ∷ true ∷ []

abbrev pub left_over : Bytes → Bytes → Bytes → Bytes → Bytes → List (Option Bytes)
left_over a b c d e =
    none ∷ none ∷ some a ∷ some b ∷ none ∷ some c ∷ none ∷ none ∷ some d ∷ none ∷ some e ∷ []

singular_rows :
    invert (sub_matrix (build_encoding_matrix 5 6) 5 0 (2 ∷ 3 ∷ 5 ∷ 8 ∷ 10 ∷ []) (new_matrix 5 5))
    ≡ err (singular 4)
unfolding invert eliminate eliminate_column find_pivot swap_rows scale_row eliminate_row augment
    sub_matrix build_encoding_matrix vandermonde new_matrix get put for_range gf_mul gf_inv
    new_gf256 fill_tables repeat_powers next_power
singular_rows = refl

module _ (a b c d e : Bytes) (same_b : length b ≡ length a) (same_c : length c ≡ length a)
    (same_d : length d ≡ length a) (same_e : length e ≡ length a) where
  all_checked : check_present (length a) (left_over a b c d e) (2 ∷ 3 ∷ 5 ∷ 8 ∷ 10 ∷ []) ≡ ok tt
  unfolding check_present
  all_checked = ground (arith, same_b, same_c, same_d, same_e)

  -- With 5 data and 6 parity shards, and six shards lost, no more than there are parity shards:
  -- whatever the five shards hold that are left at the positions 2, 3, 5, 8 and 10, if they have
  -- one length, `reconstruct` fails because the matrix is singular.
  pub reconstruct-singular :
      reconstruct five_six (left_over a b c d e) flags ≡ err (not_invertible (singular 4))
  unfolding reconstruct recover indices_of shard_length
  reconstruct-singular = rw (all_checked, singular_rows) refl
