-- ===== src/Restore/Tree.antt =====
-- Directories, symbolic links and the whole tree: restore/src/restore.rs, and the check of a link's
-- target in core/src/fs_utils.rs.
use backup_shield.Base.{
  Bool, true, false, not, Option, none, some, List, [], ◌∷◌, ◌++◌, ◌&&◌, ◌||◌, ◌==◌, if◌then◌else◌,
  Bytes,
}
use backup_shield.Base.Result.{Result}
use backup_shield.Hash.{Hashes}
use backup_shield.Restore.Entries.{Files, Entry, link, entry_at, remove_entry, put_entry}
use backup_shield.Repository.{RepositoryError}
use backup_shield.Snapshot.{Snapshot}
use backup_shield.Snapshot.Node.{
  SnapshotSymlink, SnapshotNode, SnapshotNodes, file, directory, symlink, no_more, child,
}
use backup_shield.Restore.{
  file_write_error, directory_create_error, file_exists, RestoreOptions, RestoreResult,
  RestoreStats, RestoreState, RestoreIo, Crates, add_u64,
}
use backup_shield.Restore.Paths.{join, passes}
use backup_shield.Restore.File.{exists, fail, set_permissions, parent_of, restore_file}

-- Whether a component of the path is `..`; `at_start` tells that a component starts here.
unfoldable pub has_parent_dir : Bool → Bytes → Bool
has_parent_dir at_start [] = false
has_parent_dir at_start (c ∷ []) = false
has_parent_dir at_start (c ∷ d ∷ []) = at_start && (c == b'.' && d == b'.')
has_parent_dir at_start (c ∷ d ∷ e ∷ path) =
    (at_start && (c == b'.' && (d == b'.' && e == b'/')))
    || has_parent_dir (c == b'/') (d ∷ e ∷ path)

unfoldable pub is_absolute : Bytes → Bool
is_absolute [] = false
is_absolute (c ∷ path) = c == b'/'

-- `escapes` is the test with `canonicalize`, which reads the file system.
unfoldable pub valid_symlink_target : (Bytes → Bool) → Bytes → Bool
valid_symlink_target escapes target =
    not (is_absolute target) && (not (has_parent_dir true target) && not (escapes target))

unfoldable pub add_directory : RestoreState → RestoreState
unfolding add_u64
add_directory s = record s {
  result = record s.result { directories_created = add_u64 s.result.directories_created 1 };
}

unfoldable pub add_symlink : RestoreState → RestoreState
unfolding add_u64
add_symlink s = record s {
  result = record s.result { symlinks_created = add_u64 s.result.symlinks_created 1 };
}

-- `symlink` makes no link where an entry stands, be it a broken link.
unfoldable pub is_taken : Option Entry → Bool
is_taken none = false
is_taken (some entry) = true

module _ (H : Hashes) (crates : Crates) (io : RestoreIo) (escapes : Bytes → Bool)
    (options : RestoreOptions) (read_chunk : Bytes → Result RepositoryError Bytes) where
  -- The link itself, once nothing is in its way.
  unfoldable pub create_symlink : Bytes → Bytes → RestoreState → RestoreState
  unfolding fail
  create_symlink target path s =
      if not (valid_symlink_target escapes target)
      then fail (file_write_error path) s
      else if io.symlink_fails path || is_taken (entry_at s.files (io.locate s.files path))
      then fail (file_write_error path) s
      else add_symlink
          (record s { files = put_entry s.files (io.locate s.files path) (link target) })

  -- An old file goes first where files may be overwritten, and stops the restore where not.
  unfoldable pub clear_way : Bytes → Bytes → RestoreState → RestoreState
  unfolding fail
  clear_way target path s =
      if exists io s.files path
      then if options.overwrite
        then if io.remove_fails path
          then fail (file_write_error path) s
          else create_symlink target path
              (record s { files = remove_entry s.files (io.locate s.files path) })
        else fail (file_exists path) s
      else create_symlink target path s

  unfoldable pub restore_symlink : SnapshotSymlink → Bytes → RestoreState → RestoreState
  unfolding fail
  restore_symlink l rel_path s =
      if options.dry_run
      then add_symlink s
      else if io.create_dir_fails (parent_of H crates io options read_chunk rel_path)
      then fail (directory_create_error (parent_of H crates io options read_chunk rel_path)) s
      else clear_way l.target (join options.target_path (join rel_path l.name)) s

  -- The directory itself. One that cannot be made does not stop the restore of its children.
  unfoldable pub make_directory : Bytes → RestoreState → RestoreState
  unfolding fail
  make_directory dir_path s =
      let target_dir = join options.target_path dir_path in
      if options.dry_run
      then add_directory s
      else if io.create_dir_fails target_dir
      then fail (directory_create_error target_dir) s
      else set_permissions H crates io options read_chunk target_dir (add_directory s)

  unfoldable mutual
    pub restore_node : SnapshotNode → Bytes → RestoreState → RestoreState
    restore_node (file f) rel_path s = restore_file H crates io options read_chunk f rel_path s
    restore_node (directory name modified mode children) rel_path s =
        restore_children children (join rel_path name) (make_directory (join rel_path name) s)
    restore_node (symlink l) rel_path s = restore_symlink l rel_path s

    pub restore_children : SnapshotNodes → Bytes → RestoreState → RestoreState
    restore_children no_more dir_path s = s
    restore_children (child node nodes) dir_path s =
        restore_children nodes dir_path (restore_node node dir_path s)

  -- A directory at the root stands for its children.
  unfoldable pub restore_root : SnapshotNode → RestoreState → RestoreState
  restore_root (file f) s = restore_node (file f) [] s
  restore_root (directory name modified mode children) s = restore_children children [] s
  restore_root (symlink l) s = restore_node (symlink l) [] s

unfoldable mutual
  unfolding add_u64

  pub count_stats : SnapshotNode → RestoreStats → RestoreStats
  count_stats (file f) stats = record stats {
    files_total = add_u64 stats.files_total 1;
    bytes_total = add_u64 stats.bytes_total f.size;
  }
  count_stats (directory name modified mode children) stats = count_children children stats
  count_stats (symlink l) stats = stats

  pub count_children : SnapshotNodes → RestoreStats → RestoreStats
  count_children no_more stats = stats
  count_children (child node nodes) stats = count_children nodes (count_stats node stats)

abbrev pub no_stats : RestoreStats
no_stats = record { files_total = 0; files_processed = 0; bytes_total = 0; bytes_processed = 0 }

abbrev pub no_result : RestoreResult
no_result = record {
  files_restored = 0;
  files_skipped = 0;
  bytes_restored = 0;
  directories_created = 0;
  symlinks_created = 0;
  errors = [];
}

-- `restore` with the opened repository and the snapshot that was found.
unfoldable pub restore :
    Hashes
    → Crates
    → RestoreIo
    → (Bytes → Bool)
    → RestoreOptions
    → (Bytes → Result RepositoryError Bytes)
    → Snapshot
    → Files
    → RestoreState
unfolding fail
restore H crates io escapes options read_chunk snap files =
    let start : RestoreState = record {
      result = no_result;
      stats = count_stats snap.root no_stats;
      files = files;
    } in
    if not options.dry_run && io.create_dir_fails options.target_path
    then fail (directory_create_error options.target_path) start
    else restore_root H crates io escapes options read_chunk snap.root start

-- `collect_matching_paths`; with no filter it is `collect_file_paths`.
unfoldable mutual
  unfolding passes

  pub collect_paths : Crates → Option (List Bytes) → SnapshotNode → Bytes → List Bytes → List Bytes
  collect_paths crates filter (file f) rel_path paths =
      if passes crates (join rel_path f.name) filter
      then paths ++ join rel_path f.name ∷ []
      else paths
  collect_paths crates filter (directory name modified mode children) rel_path paths =
      collect_paths_of crates filter children (join rel_path name) paths
  collect_paths crates filter (symlink l) rel_path paths = paths

  pub collect_paths_of :
      Crates → Option (List Bytes) → SnapshotNodes → Bytes → List Bytes → List Bytes
  collect_paths_of crates filter no_more dir_path paths = paths
  collect_paths_of crates filter (child node nodes) dir_path paths =
      collect_paths_of crates filter nodes dir_path
        (collect_paths crates filter node dir_path paths)

unfoldable pub preview : Crates → Option (List Bytes) → SnapshotNode → List Bytes
preview crates filter (file f) = collect_paths crates filter (file f) [] []
preview crates filter (directory name modified mode children) =
    collect_paths_of crates filter children [] []
preview crates filter (symlink l) = collect_paths crates filter (symlink l) [] []
