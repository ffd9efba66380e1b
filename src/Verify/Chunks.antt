-- ===== src/Verify/Chunks.antt =====
-- The checks of packs and chunks in verify/src/checker.rs.
use backup_shield.Base.{
  ℕ, Bool, false, not, none, some, List, [], ◌∷◌, ◌++◌, ◌==◌, ◌||◌, if◌then◌else◌, for_each, Bytes,
  eq_bytes,
}
use backup_shield.Base.Result.{Result, ok, err, ensure, ok_or, ◌>>=◌, ◌>>◌}
use backup_shield.Hash.{Hashes, compute_hash}
use backup_shield.Pack.Name.{pack_filename}
use backup_shield.Pack.Disk.{Disk, read_file}
use backup_shield.Pack.Reader as Reader
use backup_shield.Pack.Reader.{PackError}
use backup_shield.Repository.Index.{ChunkMeta, ChunkIndex, get}
use backup_shield.Verify.Report.{VerifyError, chunk_corrupt, chunk_missing, pack_corrupt, increment}

pub data ReadError : Type 0 where
  not_in_index still_in_buffer : ReadError
  pack_failed : PackError → ReadError

unfoldable pub lift_pack_error {ℓ} : {A : Type ℓ} → Result PackError A → Result ReadError A
lift_pack_error (ok a) = ok a
lift_pack_error (err e) = err (pack_failed e)

-- The counters and the errors that the loops over chunks change.
pub record Tally : Type 0 where
  pub chunks_checked : ℕ
  pub chunks_ok : ℕ
  pub chunks_corrupt : ℕ
  pub chunks_missing : ℕ
  pub errors : List VerifyError

unfoldable pub tally_ok : Tally → Tally
unfolding increment
tally_ok t = record t { chunks_ok = increment t.chunks_ok }

unfoldable pub tally_missing : Bytes → Tally → Tally
unfolding increment
tally_missing hash t = record t {
  chunks_missing = increment t.chunks_missing;
  errors = t.errors ++ chunk_missing hash ∷ [];
}

-- The check of one chunk in quick mode: that its pack is there.
unfoldable pub quick_chunk : Disk → Bytes × ChunkMeta → Tally → Tally
unfolding increment
quick_chunk disk (hash, meta) t =
    let counted : Tally = record t { chunks_checked = increment t.chunks_checked } in
    if meta.pack_id == 0
    then tally_ok counted
    else elim (read_file disk (pack_filename meta.pack_id)) [
      | none ↦ tally_missing hash counted
      | some file ↦ tally_ok counted
    ]

module _ (H : Hashes) (disk : Disk) where
  -- The loop over the packs; the ids are in the order of `list_pack_ids`.
  unfoldable pub check_pack : ℕ → List VerifyError → List VerifyError
  check_pack pack_id errors = elim (Reader.verify_pack H disk pack_id) [
    | ok nothing ↦ errors
    | err e ↦ errors ++ pack_corrupt pack_id e ∷ []
  ]

  -- The scrubber's `read_chunk` is the same.
  unfoldable pub read_chunk_from_index : ChunkIndex → Bytes → Result ReadError Bytes
  unfolding lift_pack_error
  read_chunk_from_index index hash = do
    meta ← ok_or (get index hash) not_in_index
    ensure (not (meta.pack_id == 0)) still_in_buffer
    lift_pack_error (Reader.read_chunk H disk meta.pack_id meta.pack_offset hash)

  unfoldable pub is_hashed : Bytes → Result PackError Bytes → Bool
  is_hashed hash (ok bytes) = eq_bytes (compute_hash H bytes) hash
  is_hashed hash (err e) = false

  unfoldable pub verify_single_chunk : ChunkIndex → Bytes → Bool
  verify_single_chunk index hash = elim (get index hash) [
    | none ↦ false
    | some meta ↦
        meta.pack_id == 0
        || is_hashed hash (Reader.read_chunk H disk meta.pack_id meta.pack_offset hash)
  ]

  -- What the check does with the outcome of the read.
  unfoldable pub check_read : Bytes → Result ReadError Bytes → Tally → Tally
  unfolding increment
  check_read hash (ok bytes) t =
      if eq_bytes (compute_hash H bytes) hash then tally_ok t else record t {
        chunks_corrupt = increment t.chunks_corrupt;
        errors = t.errors ++ chunk_corrupt hash hash (compute_hash H bytes) ∷ [];
      }
  check_read hash (err e) t = tally_missing hash t

  unfoldable pub check_chunk : ChunkIndex → Bytes → Tally → Tally
  unfolding increment
  check_chunk index hash t =
      check_read hash (read_chunk_from_index index hash)
        (record t { chunks_checked = increment t.chunks_checked })

  unfoldable pub check_chunks : ChunkIndex → List Bytes → Tally → Tally
  check_chunks index = for_each (check_chunk index)
