-- ===== src/Verify/Sound.antt =====
-- A full verification finds no error exactly when the repository is intact.
use backup_shield.Base.{
  ◌≡◌, ◌↔◌, refl, sym, subst, true, false, Option, none, some, List, [], ◌∷◌, All, for_each,
  for_each-clean, for_each-back, Bytes, arith,
}
use backup_shield.Base.Result.{ok}
use backup_shield.Hash.{Hashes}
use backup_shield.Pack.Reader.{verify_pack, list_pack_ids}
use backup_shield.Repository.Index.{ChunkIndex}
use backup_shield.Snapshot.{Snapshot}
use backup_shield.Verify.Report.{full, VerifyError, VerifyResult, no_errors, is_ok, load_index}
use backup_shield.Verify.Chunks.{Tally, check_pack, check_chunk, check_chunks}
use backup_shield.Verify.Files.{
  FileTally, SnapshotFiles, collect_files, load_entry, load_snapshots, bad_hashes, check_file,
  check_files,
}
use backup_shield.Verify.Checker.{
  Stored, all_hashes, start, report, check_packs, hashes_to_verify, deep_verify, verify_at, verify,
}
use backup_shield.Verify.Intact.{
  OfPacks, OfChunks, FilesHashed, TreeHashed, All-list_pack_ids, All-all_hashes, All-loaded,
}
use backup_shield.Verify.Clean.{
  Readable, Parses, FileHashed, check_pack-clean, check_chunk-clean, load_entry-clean,
  check_file-clean, check_file-back,
}

abbrev pub listed : Option SnapshotFiles → SnapshotFiles
listed none = []
listed (some files) = files

abbrev pub snapshots_in : Option SnapshotFiles → List Snapshot
snapshots_in files = (load_snapshots files []).0

load_snapshots-clean :
    (files : Option SnapshotFiles) (errors : List VerifyError)
    → ((load_snapshots files errors).1 ≡ []) ↔ ((errors ≡ []) × All Parses (listed files))
unfolding load_snapshots
load_snapshots-clean none errors = (λ h. (h, tt), λ h. h.0)
load_snapshots-clean (some files) errors =
    for_each-clean load_entry (λ s. s.1 ≡ []) Parses load_entry-clean files ([], errors)

pub no_errors_iff : (errors : List VerifyError) → (no_errors errors ≡ true) ↔ (errors ≡ [])
unfolding no_errors
no_errors_iff [] = (λ h. refl, λ h. refl)
no_errors_iff (e ∷ errors) = (λ h. cc, λ h. absurd (cc))

module _ (H : Hashes) where
  abbrev CleanFiles : FileTally → Type 0
  CleanFiles t = t.errors ≡ []

  check_files-clean :
      (snap : Snapshot) (t : FileTally)
      → ((check_files H [] snap t).errors ≡ []) ↔ ((t.errors ≡ []) × FilesHashed H snap)
  unfolding check_files
  check_files-clean snap t =
      for_each-clean (check_file H []) CleanFiles (FileHashed H) (check_file-clean H)
        (collect_files snap.root [] []) t

  check_files-back :
      (bad : List Bytes) (snap : Snapshot) (t : FileTally)
      → (check_files H bad snap t).errors ≡ []
      → t.errors ≡ []
  unfolding check_files
  check_files-back bad snap t =
      for_each-back (check_file H bad) CleanFiles (check_file-back H bad)
        (collect_files snap.root [] []) t

  -- The errors after the loop over all snapshots that were loaded.
  abbrev file_errors : List Snapshot → List VerifyError → List VerifyError
  file_errors snapshots errors =
      (for_each (check_files H (bad_hashes errors)) snapshots
        (record { files_checked = 0; errors = errors })).errors

  file_errors-clean :
      (snapshots : List Snapshot) (errors : List VerifyError)
      → (file_errors snapshots errors ≡ []) ↔ ((errors ≡ []) × All (FilesHashed H) snapshots)
  unfolding bad_hashes
  file_errors-clean snapshots errors = (
    λ h.
        let before : errors ≡ [] =
          for_each-back (check_files H (bad_hashes errors)) CleanFiles
            (check_files-back (bad_hashes errors)) snapshots _ h in
        (before, (all.0 (subst (λ e. file_errors snapshots e ≡ []) before h)).1),
    λ h. subst (λ e. file_errors snapshots e ≡ []) (sym h.0) (all.1 (refl, h.1)),
  )
    where
      all :
          (file_errors snapshots [] ≡ [])
          ↔ ((◌≡◌ {A = List VerifyError} [] []) × All (FilesHashed H) snapshots)
      all =
          for_each-clean (check_files H []) CleanFiles (FilesHashed H) check_files-clean snapshots
            (record { files_checked = 0; errors = [] })

  abbrev all_file_errors : Option SnapshotFiles → List VerifyError → List VerifyError
  all_file_errors files errors =
      file_errors (load_snapshots files errors).0 (load_snapshots files errors).1

  all_file_errors-clean :
      (files : Option SnapshotFiles) (errors : List VerifyError)
      → (all_file_errors files errors ≡ [])
        ↔ ((errors ≡ []) × All Parses (listed files) × All (FilesHashed H) (snapshots_in files))
  all_file_errors-clean files errors = (
    λ h.
        let after = (file_errors-clean (load_snapshots files errors).0 _).0 h in
        let parses = (load_snapshots-clean files errors).0 after.0 in
        (
          parses.0,
          parses.1,
          subst (λ e. All (FilesHashed H) (load_snapshots files e).0) parses.0 after.1,
        ),
    λ h. (file_errors-clean (load_snapshots files errors).0 _).1 (
      (load_snapshots-clean files errors).1 (h.0, h.1),
      subst (λ e. All (FilesHashed H) (load_snapshots files e).0) (sym h.0) h.2,
    ),
  )

module _ (H : Hashes) (shuffle : List Bytes → List Bytes) (st : Stored) where
  -- Every file that is named as a pack passes its check under the id in its name; every chunk that
  -- the index finds is read and has its hash; every file that is named as a snapshot parses; and
  -- every file in the tree of such a snapshot has the hash of its chunks' hashes.
  pub record IsIntact (index : ChunkIndex) : Type 0 where
    pub packs : OfPacks (λ id. verify_pack H st.disk id ≡ ok tt) st.disk
    pub chunks : OfChunks (Readable H st.disk index) index
    pub snapshots : All Parses (listed st.snapshot_files)
    pub files : All (TreeHashed H) (listed st.snapshot_files)

  check_packs-clean :
      (check_packs H shuffle st ≡ []) ↔ OfPacks (λ id. verify_pack H st.disk id ≡ ok tt) st.disk
  unfolding check_packs
  check_packs-clean =
      let both =
        for_each-clean (check_pack H st.disk) (λ errors. errors ≡ [])
          (λ id. verify_pack H st.disk id ≡ ok tt) (check_pack-clean H st.disk)
          (list_pack_ids st.disk) [] in
      let all = All-list_pack_ids (λ id. verify_pack H st.disk id ≡ ok tt) st.disk in
      (λ h. all.0 (both.0 h).1, λ h. both.1 (refl, all.1 h))

  check_chunks-clean :
      (index : ChunkIndex) (t : Tally)
      → ((check_chunks H st.disk index (all_hashes index) t).errors ≡ [])
        ↔ ((t.errors ≡ []) × OfChunks (Readable H st.disk index) index)
  unfolding check_chunks
  check_chunks-clean index t =
      let both =
        for_each-clean (check_chunk H st.disk index) (λ s. s.errors ≡ []) (Readable H st.disk index)
          (check_chunk-clean H st.disk index) (all_hashes index) t in
      let all = All-all_hashes (Readable H st.disk index) index in
      (λ h. ((both.0 h).0, all.0 (both.0 h).1), λ h. both.1 (h.0, all.1 h.1))

  trees-clean :
      (files : Option SnapshotFiles)
      → All (FilesHashed H) (snapshots_in files) ↔ All (TreeHashed H) (listed files)
  unfolding load_snapshots
  trees-clean none = (λ h. h, λ h. h)
  trees-clean (some files) = All-loaded H files

  deep_verify-clean :
      (index : ChunkIndex) → ((deep_verify H shuffle st full index).errors ≡ []) ↔ IsIntact index
  unfolding deep_verify report hashes_to_verify
  deep_verify-clean index =
      let whole =
        all_file_errors-clean H st.snapshot_files
          (check_chunks H st.disk index (all_hashes index)
            (start (check_packs H shuffle st))).errors in
      let chunk = check_chunks-clean index (start (check_packs H shuffle st)) in
      let trees = trees-clean st.snapshot_files in
      (
        λ h. record {
          packs = check_packs-clean.0 (chunk.0 (whole.0 h).0).0;
          chunks = (chunk.0 (whole.0 h).0).1;
          snapshots = (whole.0 h).1;
          files = trees.0 (whole.0 h).2;
        },
        λ h.
            whole.1 (chunk.1 (check_packs-clean.1 h.packs, h.chunks), h.snapshots, trees.1 h.files),
      )

  -- Where the index loads and the packs can be listed, a full `verify` returns a result, and the
  -- result is without errors exactly when every file that is named as a pack passes its check
  -- under the id in its name, every chunk that the index finds is read and has its hash, every
  -- file that is named as a snapshot parses, and every file in the tree of such a snapshot has
  -- the hash of its chunks' hashes.
  pub verify-IsIntact :
      (index : ChunkIndex)
      → load_index st.index_file ≡ ok index
      → st.list_fails ≡ false
      → (r : VerifyResult) × (verify H shuffle st full ≡ ok r) × ((is_ok r ≡ true) ↔ IsIntact index)
  unfolding verify verify_at is_ok
  verify-IsIntact index loaded packs_listed =
      let both = deep_verify-clean index in
      let none_left = no_errors_iff (deep_verify H shuffle st full index).errors in
      (
        deep_verify H shuffle st full index,
        rw (loaded, verify) (ground (arith, packs_listed)),
        (λ h. both.0 (none_left.0 h), λ h. none_left.1 (both.1 h)),
      )
