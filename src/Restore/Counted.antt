-- ===== src/Restore/Counted.antt =====
-- The counters of a restore: every file of the snapshot is handled once.
use backup_shield.Base.{
  ℕ, ◌+◌, ◌*◌, ◌∙◌, [], ◌%◌, ◌^◌, ◌≡◌, refl, Bool, false, not, ◌&&◌, ◌||◌, Bytes, arith,
}
use backup_shield.Base.Result.{Result}
use backup_shield.Hash.{Hashes}
use backup_shield.Restore.Entries.{Files, entry_at}
use backup_shield.Repository.{RepositoryError}
use backup_shield.Snapshot.{Snapshot}
use backup_shield.Snapshot.Node.{
  SnapshotSymlink, SnapshotNode, SnapshotNodes, file, directory, symlink, no_more, child,
}
use backup_shield.Restore.{
  file_write_error, file_exists, directory_create_error, RestoreOptions, RestoreStats, RestoreState,
  RestoreIo, Crates, add_u64,
}
use backup_shield.Restore.Paths.{join}
use backup_shield.Restore.File.{exists, parent_of}
use backup_shield.Restore.Tree.{
  is_taken, valid_symlink_target, add_directory, add_symlink, create_symlink, clear_way,
  restore_symlink, make_directory, restore_node, restore_children, restore_root, count_stats,
  count_children, no_stats, no_result, restore,
}
use backup_shield.Restore.Adds.{
  Adds, Adds-self, Adds-trans, Adds-from, fail-Adds, files-Adds, if-Adds, set_permissions-Adds,
  restore_file-Adds,
}

-- The number of files in a tree.
unfoldable mutual
  pub files_in : SnapshotNode → ℕ
  files_in (file f) = 1
  files_in (directory name modified mode children) = files_in_children children
  files_in (symlink l) = 0

  pub files_in_children : SnapshotNodes → ℕ
  files_in_children no_more = 0
  files_in_children (child node nodes) = files_in node + files_in_children nodes

module _ (H : Hashes) (crates : Crates) (io : RestoreIo) (options : RestoreOptions)
    (read_chunk : Bytes → Result RepositoryError Bytes) where
  module _ (escapes : Bytes → Bool) where
    add_directory-Adds : (s : RestoreState) → Adds 0 0 0 s (add_directory s)
    unfolding add_directory
    add_directory-Adds s = record { total = omega arith; done = omega arith; handled = omega arith }

    add_symlink-Adds : (s t : RestoreState) → Adds 0 0 0 s t → Adds 0 0 0 s (add_symlink t)
    unfolding add_symlink
    add_symlink-Adds s t h = record { total = h.total; done = h.done; handled = h.handled }

    make_directory-Adds :
        (path : Bytes) (s : RestoreState)
        → Adds 0 0 0 s (make_directory H crates io escapes options read_chunk path s)
    unfolding make_directory
    make_directory-Adds path s = if-Adds options.dry_run 0 0 0 s _ _ (add_directory-Adds s) (
        if-Adds _ 0 0 0 s _ _ (fail-Adds _ 0 0 0 s s (Adds-self s))
          (set_permissions-Adds H crates io options read_chunk _ 0 0 0 s _ (add_directory-Adds s)))

    create_symlink-Adds :
        (target link : Bytes) (s t : RestoreState)
        → Adds 0 0 0 s t
        → Adds 0 0 0 s (create_symlink H crates io escapes options read_chunk target link t)
    unfolding create_symlink
    create_symlink-Adds target path s t h =
        if-Adds (not (valid_symlink_target escapes target)) 0 0 0 s _ _
          (fail-Adds (file_write_error path) 0 0 0 s t h)
          (if-Adds (io.symlink_fails path || is_taken (entry_at t.files (io.locate t.files path))) 0
            0 0 s _ _ (fail-Adds (file_write_error path) 0 0 0 s t h)
            (add_symlink-Adds s _ (files-Adds _ 0 0 0 s t h)))

    clear_way-Adds :
        (target link : Bytes) (s : RestoreState)
        → Adds 0 0 0 s (clear_way H crates io escapes options read_chunk target link s)
    unfolding clear_way
    clear_way-Adds target path s =
        let kept = Adds-self s in
        if-Adds (exists io s.files path) 0 0 0 s _ _
          (if-Adds options.overwrite 0 0 0 s _ _
            (if-Adds (io.remove_fails path) 0 0 0 s _ _
              (fail-Adds (file_write_error path) 0 0 0 s s kept)
              (create_symlink-Adds target path s _ (files-Adds _ 0 0 0 s s kept)))
            (fail-Adds (file_exists path) 0 0 0 s s kept))
          (create_symlink-Adds target path s s kept)

    restore_symlink-Adds :
        (l : SnapshotSymlink) (rel_path : Bytes) (s : RestoreState)
        → Adds 0 0 0 s (restore_symlink H crates io escapes options read_chunk l rel_path s)
    unfolding restore_symlink
    restore_symlink-Adds l rel_path s =
        let parent = parent_of H crates io options read_chunk rel_path in
        if-Adds options.dry_run 0 0 0 s _ _ (add_symlink-Adds s s (Adds-self s)) (
          if-Adds (io.create_dir_fails parent) 0 0 0 s _ _
            (fail-Adds (directory_create_error parent) 0 0 0 s s (Adds-self s))
            (clear_way-Adds l.target (join options.target_path (join rel_path l.name)) s))

    mutual
      unfolding restore_node files_in

      restore_node-Adds :
          (node : SnapshotNode) (rel_path : Bytes) (s : RestoreState)
          → let n = files_in node in
            Adds n n n s (restore_node H crates io escapes options read_chunk node rel_path s)
      restore_node-Adds (file f) rel_path s =
          restore_file-Adds H crates io options read_chunk f rel_path s
      restore_node-Adds (directory name modified mode children) rel_path s =
          let n = files_in_children children in
          Adds-from n (make_directory-Adds (join rel_path name) s)
            (restore_children-Adds children (join rel_path name) _)
      restore_node-Adds (symlink l) rel_path s = restore_symlink-Adds l rel_path s

      restore_children-Adds :
          (nodes : SnapshotNodes) (dir_path : Bytes) (s : RestoreState)
          → let n = files_in_children nodes in
            Adds n n n s (restore_children H crates io escapes options read_chunk nodes dir_path s)
      restore_children-Adds no_more dir_path s = Adds-self s
      restore_children-Adds (child node nodes) dir_path s =
          Adds-trans (files_in node) (files_in node) (files_in node) (files_in_children nodes)
            (files_in_children nodes) (files_in_children nodes) (restore_node-Adds node dir_path s)
            (restore_children-Adds nodes dir_path _)

    restore_root-Adds :
        (root : SnapshotNode) (s : RestoreState)
        → let n = files_in root in
          Adds n n n s (restore_root H crates io escapes options read_chunk root s)
    unfolding restore_root restore_node files_in
    restore_root-Adds (file f) s = restore_file-Adds H crates io options read_chunk f [] s
    restore_root-Adds (directory name modified mode children) s =
        restore_children-Adds children [] s
    restore_root-Adds (symlink l) s = restore_symlink-Adds l [] s

mutual
  unfolding count_stats add_u64 files_in

  count_stats-total :
      (node : SnapshotNode) (stats : RestoreStats)
      → (count_stats node stats).files_total % 2 ^ 64 ≡ (stats.files_total + files_in node) % 2 ^ 64
  count_stats-total (file f) stats = omega arith
  count_stats-total (directory name modified mode children) stats =
      count_children-total children stats
  count_stats-total (symlink l) stats = omega arith

  count_children-total :
      (nodes : SnapshotNodes) (stats : RestoreStats)
      → (count_children nodes stats).files_total % 2 ^ 64
        ≡ (stats.files_total + files_in_children nodes) % 2 ^ 64
  count_children-total no_more stats = omega arith
  count_children-total (child node nodes) stats =
      omega
        (arith, count_stats-total node stats, count_children-total nodes (count_stats node stats))

mutual
  unfolding count_stats

  count_stats-processed :
      (node : SnapshotNode) (stats : RestoreStats)
      → (count_stats node stats).files_processed ≡ stats.files_processed
  count_stats-processed (file f) stats = refl
  count_stats-processed (directory name modified mode children) stats =
      count_children-processed children stats
  count_stats-processed (symlink l) stats = refl

  count_children-processed :
      (nodes : SnapshotNodes) (stats : RestoreStats)
      → (count_children nodes stats).files_processed ≡ stats.files_processed
  count_children-processed no_more stats = refl
  count_children-processed (child node nodes) stats =
      count_children-processed nodes (count_stats node stats) ∙ count_stats-processed node stats

-- The counters after a restore of `n` files.
pub record Handles (n : ℕ) (s : RestoreState) : Type 0 where
  pub handled : (s.result.files_restored + s.result.files_skipped) % 2 ^ 64 ≡ n % 2 ^ 64
  pub done : s.stats.files_processed % 2 ^ 64 ≡ n % 2 ^ 64
  pub total : s.stats.files_total % 2 ^ 64 ≡ (2 * n) % 2 ^ 64

-- A restore whose target directory can be made, whatever else fails: modulo 2^64, the files
-- restored and skipped together are the files of the snapshot, as many are counted as processed,
-- and twice as many are counted in total.
pub restore-Handles :
    (H : Hashes) (crates : Crates) (io : RestoreIo) (escapes : Bytes → Bool)
    (options : RestoreOptions) (read_chunk : Bytes → Result RepositoryError Bytes) (snap : Snapshot)
    (files : Files)
    → (not options.dry_run && io.create_dir_fails options.target_path) ≡ false
    → Handles (files_in snap.root) (restore H crates io escapes options read_chunk snap files)
unfolding restore
restore-Handles H crates io escapes options read_chunk snap files made =
    let start : RestoreState = record {
      result = no_result;
      stats = count_stats snap.root no_stats;
      files = files;
    } in
    let all = restore_root-Adds H crates io options read_chunk escapes snap.root start in
    rw made (record {
      handled = omega (arith, all.handled);
      done = omega (arith, all.done, count_stats-processed snap.root no_stats);
      total = omega (arith, all.total, count_stats-total snap.root no_stats);
    })
