-- ===== src/Verify/Checker.antt =====
-- `Verifier::verify` and `Verifier::verify_snapshot` of verify/src/checker.rs.
use backup_shield.Base.{
  ℕ, ◌%◌, ◌^◌, Bool, not, Option, List, [], ◌∷◌, ◌++◌, if◌then◌else◌, min, length, take, map,
  for_each, Bytes, eq_bytes,
}
use backup_shield.Base.Result.{Result, ok, err, ◌>>=◌}
use backup_shield.Hash.{Hashes}
use backup_shield.Pack.Disk.{Disk}
use backup_shield.Pack.Reader.{list_pack_ids}
use backup_shield.Repository.Index.{ChunkMeta, ChunkIndex}
use backup_shield.Snapshot.{Snapshot, is_among}
use backup_shield.Snapshot.Node.{SnapshotFile}
use backup_shield.Verify.Report.{
  VerifyLevel, quick, full, sample, VerifyError, snapshot_corrupt, file_hash_mismatch, VerifyResult,
  VerifyFailure, packs_unlisted, JsonFile, load_index, increment,
}
use backup_shield.Verify.Chunks.{Tally, quick_chunk, check_pack, check_chunk, check_chunks}
use backup_shield.Verify.Files.{
  SnapshotFiles, FileTally, collect_files, compute_file_hash, load_snapshots, bad_hashes,
  check_files,
}

-- What stands on disk, and whether the listing of the packs fails.
pub record Stored : Type 0 where
  pub disk : Disk
  pub list_fails : Bool
  pub index_file : JsonFile ChunkIndex
  pub snapshot_files : Option SnapshotFiles

unfoldable pub all_hashes : ChunkIndex → List Bytes
all_hashes index = map (λ (e : Bytes × ChunkMeta). e.0) index.entries

abbrev pub start : List VerifyError → Tally
start errors = record {
  chunks_checked = 0;
  chunks_ok = 0;
  chunks_corrupt = 0;
  chunks_missing = 0;
  errors = errors;
}

-- The result that `verify` builds of its counters.
unfoldable pub report : VerifyLevel → ℕ → ℕ → Tally → FileTally → VerifyResult
report level packs snapshots t f = record {
  level = level;
  chunks_checked = t.chunks_checked;
  chunks_ok = t.chunks_ok;
  chunks_corrupt = t.chunks_corrupt;
  chunks_missing = t.chunks_missing;
  snapshots_checked = snapshots % 2 ^ 64;
  files_checked = f.files_checked;
  packs_checked = packs % 2 ^ 64;
  errors = f.errors;
}

module _ (H : Hashes) (shuffle : List Bytes → List Bytes) (st : Stored) where
  unfoldable pub check_packs : List VerifyError
  check_packs = for_each (check_pack H st.disk) (list_pack_ids st.disk) []

  unfoldable pub hashes_to_verify : VerifyLevel → List Bytes → List Bytes
  hashes_to_verify quick all = []
  hashes_to_verify full all = all
  hashes_to_verify (sample n) all = take (min n (length all)) (shuffle all)

  unfoldable pub quick_chunks : ChunkIndex → Tally
  quick_chunks index = for_each (quick_chunk st.disk) index.entries (start check_packs)

  unfoldable pub quick_verify : ChunkIndex → VerifyResult
  quick_verify index =
      let t = quick_chunks index in
      let (snapshots, errors) = load_snapshots st.snapshot_files t.errors in
      report quick (length (list_pack_ids st.disk)) (length snapshots) t
        (record { files_checked = 0; errors = errors })

  -- The levels `full` and `sample`.
  unfoldable pub deep_verify : VerifyLevel → ChunkIndex → VerifyResult
  deep_verify level index =
      let t =
        check_chunks H st.disk index (hashes_to_verify level (all_hashes index))
          (start check_packs) in
      let (snapshots, errors) = load_snapshots st.snapshot_files t.errors in
      report level (length (list_pack_ids st.disk)) (length snapshots) t (
        for_each (check_files H (bad_hashes errors)) snapshots
          (record { files_checked = 0; errors = errors }))

  unfoldable pub verify_at : VerifyLevel → ChunkIndex → VerifyResult
  verify_at quick index = quick_verify index
  verify_at full index = deep_verify full index
  verify_at (sample n) index = deep_verify (sample n) index

  unfoldable pub verify : VerifyLevel → Result VerifyFailure VerifyResult
  verify level = do
    index ← load_index st.index_file
    if st.list_fails then err packs_unlisted else ok (verify_at level index)

-- The state of the loops of `verify_snapshot`.
pub record SnapshotTally : Type 0 where
  pub chunks : Tally
  pub files_checked : ℕ
  pub verified_chunks : List Bytes

module _ (H : Hashes) (disk : Disk) (index : ChunkIndex) where
  unfoldable pub check_once : Bytes → SnapshotTally → SnapshotTally
  check_once hash s = if is_among hash s.verified_chunks then s else record s {
    chunks = check_chunk H disk index hash s.chunks;
    verified_chunks = hash ∷ s.verified_chunks;
  }

  unfoldable pub compare_file_hash : Bytes × SnapshotFile → Tally → Tally
  compare_file_hash (file_path, f) t =
      let actual = compute_file_hash H f.chunk_hashes in
      if not (eq_bytes actual f.file_hash)
      then record t { errors = t.errors ++ file_hash_mismatch file_path f.file_hash actual ∷ [] }
      else t

  unfoldable pub check_entry : Bytes × SnapshotFile → SnapshotTally → SnapshotTally
  unfolding increment
  check_entry (file_path, f) s =
      let s' =
        for_each check_once f.chunk_hashes
          (record s { files_checked = increment s.files_checked }) in
      record s' { chunks = compare_file_hash (file_path, f) s'.chunks }

  unfoldable pub check_entries : Snapshot → SnapshotTally
  check_entries snap =
      for_each check_entry (collect_files snap.root [] [])
        (record { chunks = start []; files_checked = 0; verified_chunks = [] })

-- `loaded` is what `Snapshot::load` returns for the id.
unfoldable pub verify_snapshot :
    Hashes
    → Disk
    → JsonFile ChunkIndex
    → Bytes
    → Result Bytes Snapshot
    → Result VerifyFailure VerifyResult
verify_snapshot H disk index_file snapshot_id loaded = do
  index ← load_index index_file
  elim loaded [
    | err reason ↦ ok (
        report full 0 1 (start [])
          (record { files_checked = 0; errors = snapshot_corrupt snapshot_id reason ∷ [] }))
    | ok snap ↦
        let s = check_entries H disk index snap in
        ok (
          report full 0 1 s.chunks
            (record { files_checked = s.files_checked; errors = s.chunks.errors }))
  ]
