-- ===== src/Restore/File.antt =====
-- `restore_file` of restore/src/restore.rs.
use backup_shield.Base.{
  Bool, true, false, not, Option, none, some, List, [], ◌∷◌, ◌++◌, ◌&&◌, if◌then◌else◌, length,
  take, Bytes, eq_bytes,
}
use backup_shield.Base.Result.{Result, ok, err, ok_or, ◌>>=◌}
use backup_shield.Hash.{Hashes}
use backup_shield.Restore.Entries.{
  Files, Entry, regular, link, entry_at, remove_entry, put_entry, rename_entry,
}
use backup_shield.Repository.{RepositoryError}
use backup_shield.Snapshot.Node.{SnapshotFile}
use backup_shield.Verify.Files.{compute_file_hash}
use backup_shield.Restore.{
  RestoreError, chunk_missing, chunk_corrupt, file_write_error, directory_create_error,
  permission_error, file_exists, RestoreOptions, RestoreState, RestoreIo, Crates, add_u64,
  push_error,
}
use backup_shield.Restore.Paths.{join, temp_name, passes}

-- What a path that every link was followed on leads to.
unfoldable pub is_there : RestoreIo → Bytes → Option Entry → Bool
is_there io path none = io.is_directory path
is_there io path (some (regular content)) = true
is_there io path (some (link to)) = false

-- `Path::exists`, which follows links: a broken link is not there.
unfoldable pub exists : RestoreIo → Files → Bytes → Bool
unfolding is_there
exists io files path = elim (io.resolve files path) [
  | none ↦ false
  | some real ↦ is_there io real (entry_at files real)
]

-- The counts that each way out of `restore_file` makes.
unfoldable pub processed : SnapshotFile → RestoreState → RestoreState
unfolding add_u64
processed f s = record s {
  stats = record s.stats {
    files_processed = add_u64 s.stats.files_processed 1;
    bytes_processed = add_u64 s.stats.bytes_processed f.size;
  };
}

unfoldable pub skipped : SnapshotFile → RestoreState → RestoreState
unfolding processed add_u64
skipped f s =
    processed f
      (record s { result = record s.result { files_skipped = add_u64 s.result.files_skipped 1 } })

unfoldable pub fail : RestoreError → RestoreState → RestoreState
unfolding push_error
fail e s = record s { result = push_error e s.result }

unfoldable pub count_restored : Bytes → RestoreState → RestoreState
unfolding add_u64
count_restored file_data s = record s {
  result = record s.result {
    files_restored = add_u64 s.result.files_restored 1;
    bytes_restored = add_u64 s.result.bytes_restored (length file_data);
  };
}

module _ (H : Hashes) (crates : Crates) (io : RestoreIo) (options : RestoreOptions)
    (read_chunk : Bytes → Result RepositoryError Bytes) where
  unfoldable pub set_permissions : Bytes → RestoreState → RestoreState
  unfolding fail
  set_permissions path s =
      if options.preserve_permissions && io.set_permissions_fails path
      then fail (permission_error path) s
      else s

  unfoldable pub read_stored :
      Bytes → Bytes → Result RepositoryError Bytes → Result RestoreError Bytes
  read_stored hash path (ok bytes) = ok bytes
  read_stored hash path (err e) = err (chunk_missing hash path)

  unfoldable pub decrypt : Option Bytes → Bytes → Option Bytes
  decrypt none bytes = some bytes
  decrypt (some key) bytes = crates.decrypt_chunk bytes key

  unfoldable pub decompress : Bytes → Option Bytes
  decompress bytes =
      if options.compression_enabled then crates.decompress_chunk bytes else some bytes

  -- A chunk of the file: read, decrypted and decompressed.
  unfoldable pub load_chunk : Bytes → Bytes → Result RestoreError Bytes
  unfolding read_stored decrypt decompress
  load_chunk path hash = do
    stored ← read_stored hash path (read_chunk hash)
    decrypted ← ok_or (decrypt options.encryption_key stored) (chunk_corrupt hash path)
    ok_or (decompress decrypted) (chunk_corrupt hash path)

  -- The first chunk that fails ends the file.
  unfoldable pub load_chunks : Bytes → List Bytes → Result RestoreError Bytes
  load_chunks path [] = ok []
  load_chunks path (hash ∷ hashes) = do
    bytes ← load_chunk path hash
    later ← load_chunks path hashes
    ok (bytes ++ later)

  -- The check of the file's hash, which does not stop the restore.
  unfoldable pub verify_file_hash : Bytes → SnapshotFile → RestoreState → RestoreState
  unfolding fail
  verify_file_hash path f s =
      if options.verify && not (eq_bytes (compute_file_hash H f.chunk_hashes) f.file_hash)
      then fail (chunk_corrupt [] path) s
      else s

  -- The removal of the temporary file behind a failed write or rename; its failure is passed over.
  unfoldable pub after_failure : Bytes → Files → Files
  after_failure tmp files =
      if io.remove_fails tmp then files else remove_entry files (io.locate files tmp)

  -- What a failed write leaves in the file that was opened.
  unfoldable pub partly_written : Bytes → Bytes → Bytes → Files → Files
  partly_written target real file_data files = elim (io.written target) [
    | none ↦ files
    | some n ↦ put_entry files real (regular (take n file_data))
  ]

  unfoldable pub fail_write : SnapshotFile → Bytes → Files → RestoreState → RestoreState
  unfolding fail skipped
  fail_write f target files s =
      skipped f (fail (file_write_error target) (record s { files = files }))

  -- The write to the temporary file, through a link if one stands there, and the rename.
  unfoldable pub write_target : SnapshotFile → Bytes → Bytes → Bytes → RestoreState → RestoreState
  unfolding fail_write processed set_permissions count_restored
  write_target f target tmp file_data s = elim (io.resolve s.files tmp) [
    | none ↦ fail_write f target (after_failure tmp s.files) s
    | some real ↦
        let whole = put_entry s.files real (regular file_data) in
        let part = partly_written target real file_data s.files in
        if io.write_fails target
        then fail_write f target (after_failure tmp part) s
        else if io.rename_fails target
        then fail_write f target (after_failure tmp whole) s
        else processed f (
            set_permissions target (
              count_restored file_data (record s {
                files = rename_entry whole (io.locate s.files tmp) (io.locate s.files target);
              })))
  ]

  -- `target_file.parent()`
  unfoldable pub parent_of : Bytes → Bytes
  parent_of [] = options.target_path
  parent_of (c ∷ rel_path) = join options.target_path (c ∷ rel_path)

  unfoldable pub store_file : SnapshotFile → Bytes → Bytes → RestoreState → RestoreState
  unfolding fail
  store_file f rel_path file_data s =
      if options.dry_run
      then processed f (count_restored file_data s)
      else if io.create_dir_fails (parent_of rel_path)
      then skipped f (fail (directory_create_error (parent_of rel_path)) s)
      else write_target f (join options.target_path (join rel_path f.name))
          (join options.target_path (join rel_path (temp_name f.name))) file_data s

  -- A file that passes the filter and is not in the way of another.
  unfoldable pub restore_content :
      SnapshotFile → Bytes → Result RestoreError Bytes → RestoreState → RestoreState
  unfolding fail
  restore_content f rel_path (err e) s = skipped f (fail e s)
  restore_content f rel_path (ok file_data) s =
      store_file f rel_path file_data (verify_file_hash (join rel_path f.name) f s)

  unfoldable pub restore_file : SnapshotFile → Bytes → RestoreState → RestoreState
  unfolding add_u64 fail
  restore_file f rel_path s =
      let path = join rel_path f.name in
      let target = join options.target_path path in
      let counted : RestoreState = record s {
        stats = record s.stats {
          files_total = add_u64 s.stats.files_total 1;
          bytes_total = add_u64 s.stats.bytes_total f.size;
        };
      } in
      if not (passes crates path options.file_filter)
      then skipped f counted
      else if not options.overwrite && (not options.dry_run && exists io s.files target)
      then skipped f (fail (file_exists target) counted)
      else restore_content f rel_path (load_chunks path f.chunk_hashes) counted
