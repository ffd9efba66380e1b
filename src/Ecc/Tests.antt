-- ===== src/Ecc/Tests.antt =====
-- Runs of the codec.
use backup_shield.Base.{
  ℕ, ◌≡◌, refl, Bool, true, false, Option, none, some, List, [], ◌∷◌, length, get_or, Bytes, arith,
}
use backup_shield.Base.{zero, suc, ◌+◌, ◌*◌, ◌<◌, ◌≤◌, ◌++◌, ◌⊎◌, ◌==◌, if◌then◌else◌}
use backup_shield.Base.Result.{ok, err}
use backup_shield.Ecc.Matrix.{Matrix, multiply}
use backup_shield.Ecc.Matrix.Product.{invert-multiply}
use backup_shield.Ecc.Codec.{new_reed_solomon}
use backup_shield.Ecc.Codec.RoundTrip.{reconstruct-encode}
use backup_shield.Ecc.Parity.{codec_failed, compute_parity, max_length, new_parity_manager}
use backup_shield.Ecc.Parity.Repaired.{Undamaged, stored_shards}
use backup_shield.Ecc.Parity.RoundTrip.{repair_chunks-compute_parity}
use backup_shield.Ecc.Field.{new_gf256, fill_tables, repeat_powers, next_power, gf_mul, gf_inv}
use backup_shield.Ecc.Matrix.{
  new_matrix, get, put, for_range, augment, find_pivot, swap_rows, scale_row, eliminate_row,
  eliminate_column, eliminate, right_half, invert, singular, vandermonde, build_encoding_matrix,
}
use backup_shield.Ecc.Codec.{
  ReedSolomon, first_length, xor_scaled, combine, combine_rows, all_of_length, encode, indices_of,
  shard_length, check_present, sub_matrix, contents, fill_missing, fill_data, recover, reconstruct,
  not_invertible,
}
use backup_shield.Base.{map}
use backup_shield.Ecc.Parity.{ParityManager, repair_chunks, place_chunks, resize, lift_error}
use backup_shield.Ecc.Parity.Available.{repair_chunks-available}
use backup_shield.Ecc.Codec.Kept.{reconstruct-kept}
use backup_shield.Ecc.Codec.Lengths.{OfLength}
use backup_shield.Ecc.Codec.Unrecoverable.{five_six, flags, left_over, reconstruct-singular}

abbrev two_two : ReedSolomon
two_two = record { data_shards = 2; parity_shards = 2; encoding_matrix = build_encoding_matrix 2 2 }

abbrev shards : List Bytes
shards = (1 ∷ 2 ∷ []) ∷ (3 ∷ 4 ∷ []) ∷ []

same_length : OfLength (first_length shards) shards
unfolding first_length
same_length = (refl, (refl, tt))

abbrev damaged : List (Option Bytes)
damaged = none ∷ some (3 ∷ 4 ∷ []) ∷ some (13 ∷ 18 ∷ []) ∷ none ∷ []

abbrev present : List Bool
present = false ∷ true ∷ true ∷ false ∷ []

abbrev repaired : List (Option Bytes)
repaired = some (1 ∷ 2 ∷ []) ∷ some (3 ∷ 4 ∷ []) ∷ some (13 ∷ 18 ∷ []) ∷ some (25 ∷ 34 ∷ []) ∷ []

encoded : encode two_two shards ≡ ok ((13 ∷ 18 ∷ []) ∷ (25 ∷ 34 ∷ []) ∷ [])
unfolding encode first_length all_of_length combine_rows combine xor_scaled build_encoding_matrix
    vandermonde new_matrix get put for_range gf_mul new_gf256 fill_tables repeat_powers next_power
encoded = refl

reconstructed : reconstruct two_two damaged present ≡ ok repaired
unfolding reconstruct recover indices_of shard_length check_present sub_matrix contents fill_missing
    fill_data combine_rows combine xor_scaled invert eliminate eliminate_column find_pivot swap_rows
    scale_row eliminate_row augment right_half build_encoding_matrix vandermonde new_matrix get put
    for_range gf_mul gf_inv new_gf256 fill_tables repeat_powers next_power
reconstructed = refl

reconstruct-kept_example : get_or repaired 2 none ≡ get_or damaged 2 none
reconstruct-kept_example = reconstruct-kept two_two damaged repaired present 2 reconstructed refl

reconstruct-singular_example :
    reconstruct five_six (left_over (1 ∷ []) (2 ∷ []) (3 ∷ []) (4 ∷ []) (5 ∷ [])) flags
    ≡ err (not_invertible (singular 4))
reconstruct-singular_example =
    reconstruct-singular (1 ∷ []) (2 ∷ []) (3 ∷ []) (4 ∷ []) (5 ∷ []) refl refl refl refl

abbrev manager : ParityManager
manager = record { rs = two_two; data_shards = 2; parity_shards = 2 }

repaired_chunks :
    repair_chunks manager ((1, 3 ∷ 4 ∷ []) ∷ (2, 13 ∷ 18 ∷ []) ∷ []) 4 2
    ≡ ok ((1 ∷ 2 ∷ []) ∷ (3 ∷ 4 ∷ []) ∷ (13 ∷ 18 ∷ []) ∷ (25 ∷ 34 ∷ []) ∷ [])
unfolding repair_chunks place_chunks resize lift_error reconstruct recover indices_of shard_length
    check_present sub_matrix contents fill_missing fill_data combine_rows combine xor_scaled invert
    eliminate eliminate_column find_pivot swap_rows scale_row eliminate_row augment right_half
    build_encoding_matrix vandermonde new_matrix get put for_range gf_mul gf_inv new_gf256
    fill_tables repeat_powers next_power
repaired_chunks = refl

repair_chunks-available_example : 3 ∷ 4 ∷ [] ≡ resize 2 (3 ∷ 4 ∷ [])
repair_chunks-available_example =
    repair_chunks-available manager [] ((2, 13 ∷ 18 ∷ []) ∷ []) 1 4 2 (3 ∷ 4 ∷ [])
      ((1 ∷ 2 ∷ []) ∷ (3 ∷ 4 ∷ []) ∷ (13 ∷ 18 ∷ []) ∷ (25 ∷ 34 ∷ []) ∷ []) repaired_chunks
      ((λ e. omega (arith, e)), tt)

abbrev square : Matrix
square = record { rows = 2; cols = 2; cells = 1 ∷ 2 ∷ 3 ∷ 4 ∷ [] }

abbrev square_inverse : Matrix
square_inverse = record { rows = 2; cols = 2; cells = 2 ∷ 1 ∷ 143 ∷ 142 ∷ [] }

inverted : invert square ≡ ok square_inverse
unfolding invert eliminate eliminate_column find_pivot swap_rows scale_row eliminate_row augment
    right_half new_matrix get put for_range gf_mul gf_inv new_gf256 fill_tables repeat_powers
    next_power
inverted = refl

small_entries : (i : ℕ) → get_or square.cells i 0 < 256
small_entries zero = omega arith
small_entries (suc zero) = omega arith
small_entries (suc (suc zero)) = omega arith
small_entries (suc (suc (suc zero))) = omega arith
small_entries (suc (suc (suc (suc i)))) = omega arith

square_bytes : (r c : ℕ) → r < 2 → c < 2 → get square r c < 256
unfolding get
square_bytes r c below inside = small_entries (r * 2 + c)

invert-multiply_example :
    (p : Matrix) × (multiply square_inverse square ≡ some p)
    × (p.rows ≡ 2)
    × (p.cols ≡ 2)
    × ((r c : ℕ) → r < 2 → c < 2 → get p r c ≡ (if r == c then 1 else 0))
invert-multiply_example = invert-multiply square square_inverse square_bytes inverted

shard_bytes : (j b : ℕ) → get_or (get_or shards j []) b 0 < 256
shard_bytes zero zero = omega arith
shard_bytes zero (suc zero) = omega arith
shard_bytes zero (suc (suc b)) = omega arith
shard_bytes (suc zero) zero = omega arith
shard_bytes (suc zero) (suc zero) = omega arith
shard_bytes (suc zero) (suc (suc b)) = omega arith
shard_bytes (suc (suc j)) b = omega arith

two_two_new : new_reed_solomon 2 2 ≡ ok two_two
unfolding new_reed_solomon
two_two_new = refl

abbrev parity : List Bytes
parity = (13 ∷ 18 ∷ []) ∷ (25 ∷ 34 ∷ []) ∷ []

still_there :
    (i : ℕ)
    → get_or present i false ≡ true
    → get_or damaged i none ≡ some (get_or (shards ++ parity) i [])
still_there zero flagged = absurd (cc)
still_there (suc zero) flagged = refl
still_there (suc (suc zero)) flagged = refl
still_there (suc (suc (suc zero))) flagged = absurd (cc)
still_there (suc (suc (suc (suc i)))) flagged = absurd (cc)

enough_left : 2 ≤ length (indices_of true 0 present)
unfolding indices_of
enough_left = omega arith

reconstruct-encode_example :
    (reconstruct two_two damaged present ≡ ok (map some (shards ++ parity)))
    ⊎ ((c : ℕ) × (reconstruct two_two damaged present ≡ err (not_invertible (singular c))))
reconstruct-encode_example =
    reconstruct-encode 2 2 two_two shards parity damaged present two_two_new shard_bytes encoded
      refl refl enough_left still_there

manager_new : new_parity_manager 2 2 ≡ ok manager
unfolding new_parity_manager lift_error new_reed_solomon
manager_new = refl

computed : compute_parity manager shards ≡ ok parity
unfolding compute_parity max_length resize lift_error encode first_length all_of_length combine_rows
    combine xor_scaled build_encoding_matrix vandermonde new_matrix get put for_range gf_mul
    new_gf256 fill_tables repeat_powers next_power
computed = refl

abbrev left : List (ℕ × Bytes)
left = (2, 13 ∷ 18 ∷ []) ∷ (1, 3 ∷ 4 ∷ []) ∷ []

left-Undamaged : Undamaged (max_length shards) (stored_shards shards parity) left
unfolding max_length resize
left-Undamaged = ((omega arith, refl), ((omega arith, refl), tt))

repair_chunks-compute_parity_example :
    (repair_chunks manager left 4 (max_length shards) ≡ ok (stored_shards shards parity))
    ⊎ ((c : ℕ) × (repair_chunks manager left 4 (max_length shards)
          ≡ err (codec_failed (not_invertible (singular c)))))
repair_chunks-compute_parity_example =
    repair_chunks-compute_parity 2 2 manager shards parity left manager_new shard_bytes computed
      (((λ e. omega (arith, e)), tt), (tt, tt)) left-Undamaged (omega arith)
