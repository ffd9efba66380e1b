-- ===== src/Restore/Tests.antt =====
-- Restores of a file `a.txt` into a directory that holds `a.tmp`.
use backup_shield.Base.{
  ◌≡◌, refl, false, none, some, [], ◌∷◌, if◌then◌else◌, Bytes, eq_bytes, inr, true,
}
use backup_shield.Base.Result.{Result, ok}
use backup_shield.Hash.Toy.{toy}
use backup_shield.Restore.Entries.{Files, regular, entry_at}
use backup_shield.Repository.{RepositoryError}
use backup_shield.Snapshot.{Snapshot}
use backup_shield.Snapshot.Node.{SnapshotFile, file, directory, child, no_more}
use backup_shield.Restore.{RestoreOptions, RestoreState, RestoreIo, Crates}
use backup_shield.Restore.Paths.{join, passes}
use backup_shield.Restore.File.{exists, load_chunks, load_chunk, restore_file}
use backup_shield.Restore.Tree.{no_stats, no_result, restore}
use backup_shield.Restore.Clobber.{target, tmp, NoLinks, restore_file-files}
use backup_shield.Restore.Counted.{Handles, files_in, restore-Handles}

abbrev none_made : Crates
none_made = record {
  decrypt_chunk = λ bytes key. none;
  decompress_chunk = λ bytes. none;
  glob = λ pattern. none;
}

abbrev works : RestoreIo
works = record {
  resolve = λ files path. some path;
  locate = λ files path. path;
  is_directory = λ path. false;
  create_dir_fails = λ path. false;
  write_fails = λ path. false;
  written = λ path. none;
  rename_fails = λ path. false;
  set_permissions_fails = λ path. false;
  remove_fails = λ path. false;
  symlink_fails = λ path. false;
}

abbrev options : RestoreOptions
options = record {
  target_path = b'r' ∷ [];
  file_filter = none;
  dry_run = false;
  verify = false;
  overwrite = false;
  preserve_permissions = false;
  encryption_key = none;
  compression_enabled = false;
}

-- Every chunk is the text of its hash.
abbrev chunks : Bytes → Result RepositoryError Bytes
chunks hash = ok hash

abbrev text : SnapshotFile
text = record {
  name = b'a' ∷ b'.' ∷ b't' ∷ b'x' ∷ b't' ∷ [];
  size = 2;
  modified = 0;
  mode = 0;
  chunk_hashes = (7 ∷ 8 ∷ []) ∷ [];
  file_hash = [];
  versions = [];
}

-- `r/a.tmp`
abbrev old_path : Bytes
old_path = b'r' ∷ b'/' ∷ b'a' ∷ b'.' ∷ b't' ∷ b'm' ∷ b'p' ∷ []

abbrev files : Files
files = (old_path, regular (1 ∷ [])) ∷ []

abbrev start : RestoreState
start = record { result = no_result; stats = no_stats; files = files }

abbrev snap : Snapshot
snap = record {
  id = b's' ∷ [];
  timestamp = 0;
  hostname = [];
  tags = [];
  root = directory [] 0 0 (child (file text) no_more);
  total_size = 2;
  total_chunks = 1;
  parent_snapshot_id = none;
}

loads :
    load_chunks toy none_made works options chunks (join [] text.name) text.chunk_hashes
    ≡ ok (7 ∷ 8 ∷ [])
unfolding load_chunks load_chunk
loads = refl

passing : passes none_made (join [] text.name) none ≡ true
unfolding passes
passing = refl

free : exists works files (join options.target_path (join [] text.name)) ≡ false
unfolding exists entry_at join eq_bytes
free = refl

no_links : NoLinks toy none_made works options chunks text [] (7 ∷ 8 ∷ []) start files
no_links = record { opened = refl; from = refl; to = refl }

restore_file-files_example :
    entry_at (restore_file toy none_made works options chunks text [] start).files old_path ≡ (
      if eq_bytes (target toy none_made works options chunks text [] (7 ∷ 8 ∷ []) start) old_path
      then some (regular (7 ∷ 8 ∷ []))
      else if eq_bytes (tmp toy none_made works options chunks text [] (7 ∷ 8 ∷ []) start) old_path
      then none
      else entry_at files old_path)
restore_file-files_example =
    restore_file-files toy none_made works options chunks text [] (7 ∷ 8 ∷ []) start passing refl
      (inr free) loads no_links refl refl refl old_path

restore-Handles_example :
    Handles
      (files_in snap.root)
      (restore toy none_made works (λ path. false) options chunks snap files)
restore-Handles_example =
    restore-Handles toy none_made works (λ path. false) options chunks snap files refl
