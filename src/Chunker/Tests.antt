-- ===== src/Chunker/Tests.antt =====
-- Runs of the chunker.
use backup_shield.Base.{
  ℕ, ◌+◌, ◌^◌, ◌≤◌, ◌<◌, ◌≡◌, refl, List, [], ◌∷◌, ◌++◌, flatten, Bytes, arith,
}
use backup_shield.Base.Result.{ok, err}
use backup_shield.Chunker.{
  Chunker, chunk_data, new_chunker, new_buzhash, derive_mask, next_power_of_two, remainder_by_zero,
  update, chunk_loop, chunk_step, cut, at_boundary, last_chunk,
}
use backup_shield.Chunker.Reference.{split, chunk_data-eq-split}
use backup_shield.Chunker.Sizes.{IsValid, Sized, flatten-chunk_data, chunk_data-Sized}
use backup_shield.Chunker.Mask.{derive_mask_lem}
use backup_shield.Chunker.Total.{chunk_data_total, chunk_data_panics}
use backup_shield.Chunker.Restart.{chunk_data_restart}

abbrev small : Chunker
small = record { min_size = 2; max_size = 4; target_size = 3; mask = 2 }

abbrev text : Bytes
text = 1 ∷ 2 ∷ 3 ∷ 4 ∷ 5 ∷ 6 ∷ 7 ∷ 8 ∷ 9 ∷ 10 ∷ 11 ∷ 12 ∷ 13 ∷ []

abbrev first_chunks : List Bytes
first_chunks = (1 ∷ 2 ∷ 3 ∷ []) ∷ (4 ∷ 5 ∷ []) ∷ []

abbrev last_chunks : List Bytes
last_chunks = (6 ∷ 7 ∷ 8 ∷ []) ∷ (9 ∷ 10 ∷ 11 ∷ 12 ∷ []) ∷ (13 ∷ []) ∷ []

new_small : new_chunker 2 4 3 ≡ ok small
unfolding new_chunker derive_mask next_power_of_two
new_small = refl

small-IsValid : IsValid small
small-IsValid = omega arith

text_chunks : chunk_data small text ≡ ok (first_chunks ++ last_chunks)
unfolding chunk_data chunk_loop chunk_step cut at_boundary last_chunk update new_buzhash
text_chunks = refl

chunk_data-eq-split_example : chunk_data small text ≡ split small new_buzhash [] text
chunk_data-eq-split_example = chunk_data-eq-split small text

flatten-chunk_data_example : flatten (first_chunks ++ last_chunks) ≡ text
flatten-chunk_data_example = flatten-chunk_data small text (first_chunks ++ last_chunks) text_chunks

chunk_data-Sized_example : Sized small (first_chunks ++ last_chunks)
chunk_data-Sized_example =
    chunk_data-Sized small text (first_chunks ++ last_chunks) small-IsValid text_chunks

chunk_data_restart_example : chunk_data small (flatten last_chunks) ≡ ok last_chunks
chunk_data_restart_example = chunk_data_restart small text first_chunks last_chunks text_chunks

derive_mask_lem_example :
    (j : ℕ) × (derive_mask 4096 ≡ 2 ^ j) × (2 ^ j < 4096) × (4096 ≤ 2 ^ (j + 1))
derive_mask_lem_example = derive_mask_lem 4096 (omega arith) (omega arith)

chunk_data_total_example : (chunks : List Bytes) × (chunk_data small text ≡ ok chunks)
chunk_data_total_example = chunk_data_total 2 4 3 small text new_small (omega arith)

abbrev huge : Chunker
huge = record { min_size = 1; max_size = 2 ^ 33; target_size = 2 ^ 33; mask = 0 }

new_huge : new_chunker 1 (2 ^ 33) (2 ^ 33) ≡ ok huge
unfolding new_chunker derive_mask next_power_of_two
new_huge = refl

chunk_data_panics_example : chunk_data huge (7 ∷ []) ≡ err remainder_by_zero
chunk_data_panics_example =
    chunk_data_panics 1 (2 ^ 33) (2 ^ 33) huge (7 ∷ []) new_huge (omega arith) (omega arith)
      (omega arith)
