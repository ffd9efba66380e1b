-- ===== src/Restore/Clobber.antt =====
-- What a file that is restored does to the files under the target.
use backup_shield.Base.{
  ◌≡◌, refl, sym, ap, subst, ◌∙◌, ◌⊎◌, inl, inr, Bool, true, false, not, some, none, ◌&&◌,
  if◌then◌else◌, Bytes, eq_bytes, eq_bytes_refl, arith,
}
use backup_shield.Base.Result.{Result, ok}
use backup_shield.Hash.{Hashes}
use backup_shield.Restore.Entries.{
  Files, Entry, regular, entry_at, put_entry, rename_entry, entry-put, entry-rename,
}
use backup_shield.Repository.{RepositoryError}
use backup_shield.Snapshot.Node.{SnapshotFile}
use backup_shield.Restore.{RestoreOptions, RestoreState, RestoreIo, Crates}
use backup_shield.Restore.Paths.{join, temp_name, passes}
use backup_shield.Restore.File.{
  exists, processed, count_restored, set_permissions, load_chunks, verify_file_hash, write_target,
  parent_of, store_file, restore_content, restore_file,
}

module _ (H : Hashes) (crates : Crates) (io : RestoreIo) (options : RestoreOptions)
    (read_chunk : Bytes → Result RepositoryError Bytes) where
  set_permissions-files :
      (path : Bytes) (s : RestoreState)
      → (set_permissions H crates io options read_chunk path s).files ≡ s.files
  unfolding set_permissions
  set_permissions-files path s = ground arith

  verify_file_hash-files :
      (path : Bytes) (f : SnapshotFile) (s : RestoreState)
      → (verify_file_hash H crates io options read_chunk path f s).files ≡ s.files
  unfolding verify_file_hash
  verify_file_hash-files path f s = ground arith

  -- The file is there, its temporary file is gone, and all else is as before.
  renamed :
      (files : Files) (tmp target b : Bytes) (entry : Entry)
      → entry_at (rename_entry (put_entry files tmp entry) tmp target) b ≡ (
          if eq_bytes target b
          then some entry
          else if eq_bytes tmp b
          then none
          else entry_at files b)
  renamed files tmp target b entry =
      let there : entry_at (put_entry files tmp entry) tmp ≡ some entry =
        entry-put files tmp tmp entry ∙ rw (eq_bytes_refl tmp) refl in
      ground (
        arith,
        entry-rename (put_entry files tmp entry) tmp target b entry there,
        entry-put files tmp b entry,
      )

  module _ (f : SnapshotFile) (rel_path bytes : Bytes) (s : RestoreState) where
    abbrev pub target : Bytes
    target = join options.target_path (join rel_path f.name)

    abbrev pub tmp : Bytes
    tmp = join options.target_path (join rel_path (temp_name f.name))

    -- No link stands at the temporary path or in a directory of the two paths.
    pub record NoLinks (files : Files) : Type 0 where
      pub opened : io.resolve files tmp ≡ some tmp
      pub from : io.locate files tmp ≡ tmp
      pub to : io.locate files target ≡ target

    abbrev replaced : Files → Files
    replaced files = rename_entry (put_entry files tmp (regular bytes)) tmp target

    write_target-files :
        (s' : RestoreState)
        → NoLinks s'.files
        → io.write_fails target ≡ false
        → io.rename_fails target ≡ false
        → (write_target H crates io options read_chunk f target tmp bytes s').files
          ≡ replaced s'.files
    unfolding write_target processed count_restored
    write_target-files s' no_links writes renames =
        rw (no_links.opened, write_target)
          (rw (writes, renames, no_links.from, no_links.to) (set_permissions-files target _))

    store_file-files :
        (s' : RestoreState)
        → NoLinks s'.files
        → options.dry_run ≡ false
        → io.create_dir_fails (parent_of H crates io options read_chunk rel_path) ≡ false
        → io.write_fails target ≡ false
        → io.rename_fails target ≡ false
        → (store_file H crates io options read_chunk f rel_path bytes s').files ≡ replaced s'.files
    unfolding store_file
    store_file-files s' no_links wet makes writes renames =
        ground (arith, wet, makes, write_target-files s' no_links writes renames)

    not_blocked :
        (overwrite dry there : Bool)
        → (overwrite ≡ true) ⊎ (there ≡ false)
        → (not overwrite && (not dry && there)) ≡ false
    not_blocked overwrite dry there (inl h) = ground arith
    not_blocked overwrite dry there (inr h) = ground arith

    -- A file that passes the filter, whose target is free or may be overwritten, whose chunks
    -- load and whose writes do not fail, in a restore that is no dry run, with no link at the
    -- temporary path or in a directory of the two paths: afterwards the target is a regular file
    -- with the bytes of the chunks, the path that the target has with the extension tmp instead
    -- of its own, if it is another, holds nothing, whatever stood there before, and the entry at
    -- every other path is as it was.
    pub restore_file-files :
        passes crates (join rel_path f.name) options.file_filter ≡ true
        → options.dry_run ≡ false
        → (options.overwrite ≡ true) ⊎ (exists io s.files target ≡ false)
        → load_chunks H crates io options read_chunk (join rel_path f.name) f.chunk_hashes
          ≡ ok bytes
        → NoLinks s.files
        → io.create_dir_fails (parent_of H crates io options read_chunk rel_path) ≡ false
        → io.write_fails target ≡ false
        → io.rename_fails target ≡ false
        → (b : Bytes)
        → entry_at (restore_file H crates io options read_chunk f rel_path s).files b ≡ (
            if eq_bytes target b
            then some (regular bytes)
            else if eq_bytes tmp b
            then none
            else entry_at s.files b)
    unfolding restore_file restore_content
    restore_file-files pass wet free loaded no_links makes writes renames b =
        let kept = verify_file_hash-files (join rel_path f.name) f _ in
        rw
          (
            pass,
            not_blocked options.overwrite options.dry_run (exists io s.files target) free,
            loaded,
            restore_content,
          )
          (ap (λ d. entry_at d b)
              (store_file-files _ (subst NoLinks (sym kept) no_links) wet makes writes renames
                ∙ ap replaced kept)
            ∙ renamed s.files tmp target b (regular bytes))
