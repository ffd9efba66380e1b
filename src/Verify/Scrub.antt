-- ===== src/Verify/Scrub.antt =====
-- verify/src/scrub.rs: the scrub. The start time and the duration are left out.
pub mod Extends
pub mod Order
pub mod Agrees
pub mod Repair
pub mod Bad
pub mod Safe
pub mod Kept
mod Tests
use backup_shield.Base.{
  ℕ, ◌+◌, ◌%◌, ◌^◌, Bool, true, false, List, [], ◌∷◌, ◌++◌, if◌then◌else◌, length, for_each, Bytes,
  eq_bytes,
}
use backup_shield.Base.Result.{Result, ok, err, ◌>>=◌}
use backup_shield.Hash.{Hashes, compute_hash}
use backup_shield.Pack.Disk.{Disk}
use backup_shield.Pack.Reader.{list_pack_ids}
use backup_shield.Repository.Index.{ChunkIndex}
use backup_shield.Verify.Report.{
  VerifyError, chunk_corrupt, chunk_missing, no_errors, VerifyFailure, JsonFile, load_index,
  increment,
}
use backup_shield.Verify.Chunks.{ReadError, check_pack, read_chunk_from_index}
use backup_shield.Verify.Checker.{all_hashes}

pub record ScrubProgress : Type 0 where
  pub chunks_total : ℕ
  pub chunks_scanned : ℕ
  pub chunks_ok : ℕ
  pub chunks_errors : ℕ
  pub is_complete : Bool

pub record ScrubResult : Type 0 where
  pub progress : ScrubProgress
  pub errors_found : List VerifyError
  pub repaired_count : ℕ

unfoldable pub scrub_is_ok : ScrubResult → Bool
scrub_is_ok r = no_errors r.errors_found

-- The progress behind the mutex of the scrubber.
abbrev pub new_progress : ScrubProgress
new_progress = record {
  chunks_total = 0;
  chunks_scanned = 0;
  chunks_ok = 0;
  chunks_errors = 0;
  is_complete = false;
}

-- The block that resets the progress when a scrub starts.
unfoldable pub start_progress : ℕ → ScrubProgress → ScrubProgress
start_progress total progress = record progress {
  chunks_total = total % 2 ^ 64;
  chunks_scanned = 0;
  chunks_ok = 0;
  chunks_errors = 0;
  is_complete = false;
}

unfoldable pub increment_progress : Bool → ScrubProgress → ScrubProgress
unfolding increment
increment_progress is_ok p =
    if is_ok
    then record p { chunks_scanned = increment p.chunks_scanned; chunks_ok = increment p.chunks_ok }
    else record p {
      chunks_scanned = increment p.chunks_scanned;
      chunks_errors = increment p.chunks_errors;
    }

-- What the loops over the chunks change.
pub record ScrubState : Type 0 where
  pub progress : ScrubProgress
  pub bad_hashes : List Bytes
  pub errors_found : List VerifyError

module _ (H : Hashes) (disk : Disk) (index : ChunkIndex) where
  -- A chunk that is not there, or not what its hash says.
  unfoldable pub report_bad : Bytes → VerifyError → ScrubState → ScrubState
  unfolding increment_progress
  report_bad hash e s = record {
    progress = increment_progress false s.progress;
    bad_hashes = s.bad_hashes ++ hash ∷ [];
    errors_found = s.errors_found ++ e ∷ [];
  }

  unfoldable pub scrub_read : Bytes → Result ReadError Bytes → ScrubState → ScrubState
  unfolding increment_progress
  scrub_read hash (ok bytes) s =
      if eq_bytes (compute_hash H bytes) hash
      then record s { progress = increment_progress true s.progress }
      else report_bad hash (chunk_corrupt hash hash (compute_hash H bytes)) s
  scrub_read hash (err e) s = report_bad hash (chunk_missing hash) s

  -- The round of both scrubs; `scrub` does not keep the bad hashes.
  unfoldable pub scrub_chunk : Bytes → ScrubState → ScrubState
  scrub_chunk hash s = scrub_read hash (read_chunk_from_index H disk index hash) s

  unfoldable pub scrub_chunks : List VerifyError → ScrubProgress → ScrubState
  scrub_chunks errors progress = for_each scrub_chunk (all_hashes index) (record {
    progress = start_progress (length (all_hashes index)) progress;
    bad_hashes = [];
    errors_found = errors;
  })

-- `scrub`: the scrubber's progress after it, and the result. A listing that fails is passed over.
-- The chunks come in the order in which this load of the index holds them.
unfoldable pub scrub :
    Hashes
    → Disk
    → Bool
    → JsonFile ChunkIndex
    → ScrubProgress
    → Result VerifyFailure (ScrubProgress × ScrubResult)
scrub H disk list_fails index_file progress = do
  index ← load_index index_file
  let packs = for_each (check_pack H disk) (list_pack_ids disk) []
  let s = scrub_chunks H disk index (if list_fails then [] else packs) progress
  let done = record s.progress { is_complete = true }
  ok (done, record { progress = done; errors_found = s.errors_found; repaired_count = 0 })
