-- ===== src/Verify/Restorable.antt =====
-- `verify_snapshot` finds no error exactly when every chunk of the snapshot can be read.
use backup_shield.Base.{
  ◌≡◌, ◌↔◌, refl, subst, inl, inr, true, List, [], ◌∷◌, All, for_each, for_each-clean,
  for_each-keeps, Bytes, eq_bytes, eq_of_eq_bytes, eq_bytes_iff, Bool-cases, arith,
}
use backup_shield.Base.Result.{ok}
use backup_shield.Hash.{Hashes}
use backup_shield.Pack.Disk.{Disk}
use backup_shield.Repository.Index.{ChunkIndex}
use backup_shield.Snapshot.{Snapshot, all_chunk_hashes, is_among}
use backup_shield.Snapshot.Node.{
  SnapshotFile, SnapshotNode, SnapshotNodes, file, directory, symlink, no_more, child,
  collect_chunk_hashes, collect_children,
}
use backup_shield.Verify.Report.{JsonFile, VerifyResult, full, is_ok, load_index, increment}
use backup_shield.Verify.Chunks.{Tally}
use backup_shield.Verify.Files.{collect_files, collect_from, join_path, compute_file_hash}
use backup_shield.Verify.Checker.{
  SnapshotTally, start, report, check_once, compare_file_hash, check_entry, check_entries,
  verify_snapshot,
}
use backup_shield.Verify.Clean.{Readable, FileHashed, check_chunk-clean, append_ne_nil}
use backup_shield.Verify.Intact.{FilesHashed, All-append_iff}
use backup_shield.Verify.Sound.{no_errors_iff}

All-both {ℓ} :
    {A : Type ℓ} (P Q : A → Type 0) (xs : List A) → All (λ x. P x × Q x) xs ↔ (All P xs × All Q xs)
All-both P Q [] = (λ h. (tt, tt), λ h. tt)
All-both P Q (x ∷ xs) =
    let later = All-both P Q xs in
    (
      λ h. ((h.0.0, (later.0 h.1).0), (h.0.1, (later.0 h.1).1)),
      λ h. ((h.0.0, h.1.0), later.1 (h.0.1, h.1.1)),
    )

module _ (P : Bytes → Type 0) where
  abbrev OfFile : Bytes × SnapshotFile → Type 0
  OfFile entry = All P entry.1.chunk_hashes

  -- The files that the checker collects have the hashes that the snapshot counts.
  mutual
    unfolding collect_files collect_chunk_hashes

    All-collect_files :
        (node : SnapshotNode) (files : List (Bytes × SnapshotFile)) (hashes : List Bytes)
        (path : Bytes)
        → (All OfFile files ↔ All P hashes)
        → (All OfFile (collect_files node files path) ↔ All P (collect_chunk_hashes node hashes))
    All-collect_files (file f) files hashes path h =
        let left = All-append_iff OfFile files ((join_path path f.name, f) ∷ []) in
        let right = All-append_iff P hashes f.chunk_hashes in
        (
          λ k. right.1 (h.0 (left.0 k).0, (left.0 k).1.0),
          λ k. left.1 (h.1 (right.0 k).0, ((right.0 k).1, tt)),
        )
    All-collect_files (directory name modified mode children) files hashes path h =
        All-collect_from children files hashes (join_path path name) h
    All-collect_files (symlink s) files hashes path h = h

    All-collect_from :
        (nodes : SnapshotNodes) (files : List (Bytes × SnapshotFile)) (hashes : List Bytes)
        (path : Bytes)
        → (All OfFile files ↔ All P hashes)
        → (All OfFile (collect_from nodes files path) ↔ All P (collect_children nodes hashes))
    All-collect_from no_more files hashes path h = h
    All-collect_from (child node nodes) files hashes path h =
        All-collect_from nodes (collect_files node files path) (collect_chunk_hashes node hashes)
          path (All-collect_files node files hashes path h)

  All-is_among : (h : Bytes) (hs : List Bytes) → is_among h hs ≡ true → All P hs → P h
  unfolding is_among
  All-is_among h [] found all = cc
  All-is_among h (k ∷ hs) found all = elim (Bool-cases (eq_bytes k h)) [
    | inl same ↦ subst P (eq_of_eq_bytes k h same) all.0
    | inr other ↦ All-is_among h hs (rw other at found) all.1
  ]

module _ (H : Hashes) (disk : Disk) (index : ChunkIndex) where
  -- No error so far, and what was checked is readable.
  abbrev Clean : SnapshotTally → Type 0
  Clean s = (s.chunks.errors ≡ []) × All (Readable H disk index) s.verified_chunks

  check_once-Clean :
      (hash : Bytes) (s : SnapshotTally)
      → Clean (check_once H disk index hash s) ↔ (Clean s × Readable H disk index hash)
  unfolding check_once
  check_once-Clean hash s = elim (Bool-cases (is_among hash s.verified_chunks)) [
    | inl seen ↦
        rw seen
          (λ c. (c, All-is_among (Readable H disk index) hash s.verified_chunks seen c.1), λ c. c.0)
    | inr first ↦
        let one = check_chunk-clean H disk index hash s.chunks in
        rw first (λ c. (((one.0 c.0).0, c.1.1), c.1.0), λ c. (one.1 (c.0.0, c.1), (c.1, c.0.1)))
  ]

  compare_file_hash-clean :
      (entry : Bytes × SnapshotFile) (t : Tally)
      → ((compare_file_hash H disk index entry t).errors ≡ [])
        ↔ ((t.errors ≡ []) × FileHashed H entry)
  unfolding compare_file_hash
  compare_file_hash-clean (path, f) t =
      elim (Bool-cases (eq_bytes (compute_file_hash H f.chunk_hashes) f.file_hash)) [
        | inl same ↦ rw same (λ h. (h, (eq_bytes_iff _ _).0 same), λ h. h.0)
        | inr other ↦ rw other (
          λ h. absurd (append_ne_nil t.errors _ h),
          λ h. absurd (
              ground
                (arith, other, eq_bytes_iff (compute_file_hash H f.chunk_hashes) f.file_hash, h.1)),
        )
      ]

  check_entry-Clean :
      (entry : Bytes × SnapshotFile) (s : SnapshotTally)
      → Clean (check_entry H disk index entry s)
        ↔ (Clean s × (OfFile (Readable H disk index) entry × FileHashed H entry))
  unfolding check_entry increment
  check_entry-Clean (path, f) s =
      let s1 : SnapshotTally = record s { files_checked = increment s.files_checked } in
      let loop =
        for_each-clean (check_once H disk index) Clean (Readable H disk index) check_once-Clean
          f.chunk_hashes s1 in
      let s2 = for_each (check_once H disk index) f.chunk_hashes s1 in
      let last = compare_file_hash-clean (path, f) s2.chunks in
      (
        λ c. let before = loop.0 ((last.0 c.0).0, c.1) in (before.0, (before.1, (last.0 c.0).1)),
        λ c. let after = loop.1 (c.0, c.1.0) in (last.1 (after.0, c.1.1), after.1),
      )

  -- Where no error is, all that was checked is readable.
  abbrev Honest : SnapshotTally → Type 0
  Honest s = s.chunks.errors ≡ [] → All (Readable H disk index) s.verified_chunks

  check_once-Honest :
      (hash : Bytes) (s : SnapshotTally) → Honest s → Honest (check_once H disk index hash s)
  unfolding check_once
  check_once-Honest hash s honest = elim (Bool-cases (is_among hash s.verified_chunks)) [
    | inl seen ↦ rw seen honest
    | inr first ↦
        let one = check_chunk-clean H disk index hash s.chunks in
        rw first (λ e. ((one.0 e).1, honest (one.0 e).0))
  ]

  check_entry-Honest :
      (entry : Bytes × SnapshotFile) (s : SnapshotTally)
      → Honest s
      → Honest (check_entry H disk index entry s)
  unfolding check_entry increment
  check_entry-Honest (path, f) s honest =
      let s1 : SnapshotTally = record s { files_checked = increment s.files_checked } in
      let s2 = for_each (check_once H disk index) f.chunk_hashes s1 in
      λ e.
        for_each-keeps (check_once H disk index) Honest check_once-Honest f.chunk_hashes s1 honest
          ((compare_file_hash-clean (path, f) s2.chunks).0 e).0

  check_entries-clean :
      (snap : Snapshot)
      → ((check_entries H disk index snap).chunks.errors ≡ [])
        ↔ (All (Readable H disk index) (all_chunk_hashes snap) × FilesHashed H snap)
  unfolding check_entries all_chunk_hashes
  check_entries-clean snap =
      let files = collect_files snap.root [] [] in
      let Read = Readable H disk index in
      let s0 : SnapshotTally = record {
        chunks = start [];
        files_checked = 0;
        verified_chunks = [];
      } in
      let hashes = All-collect_files Read snap.root [] [] [] (λ h. tt, λ h. tt) in
      let parts = All-both (OfFile Read) (FileHashed H) files in
      let loop =
        for_each-clean (check_entry H disk index) Clean
          (λ entry. OfFile Read entry × FileHashed H entry) check_entry-Clean files s0 in
      let honest =
        for_each-keeps (check_entry H disk index) Honest check_entry-Honest files s0 (λ e. tt) in
      (
        λ h. let both = parts.0 (loop.0 (h, honest h)).1 in (hashes.0 both.0, both.1),
        λ h. (loop.1 ((refl, tt), parts.1 (hashes.1 h.0, h.1))).0,
      )

-- Where the index loads and the snapshot parses, `verify_snapshot` returns a result, and the
-- result is without errors exactly when every chunk that the snapshot counts can be read and has
-- its hash, and every file has the hash of its chunks' hashes.
pub verify_snapshot_restorable :
    (H : Hashes) (disk : Disk) (index_file : JsonFile ChunkIndex) (index : ChunkIndex) (id : Bytes)
    (snap : Snapshot)
    → load_index index_file ≡ ok index
    → (r : VerifyResult) × (verify_snapshot H disk index_file id (ok snap) ≡ ok r)
      × ((is_ok r ≡ true)
          ↔ (All (Readable H disk index) (all_chunk_hashes snap) × FilesHashed H snap))
unfolding verify_snapshot is_ok report
verify_snapshot_restorable H disk index_file index id snap loaded =
    let s = check_entries H disk index snap in
    let both = check_entries-clean H disk index snap in
    let none_left = no_errors_iff s.chunks.errors in
    (
      report full 0 1 s.chunks
          (record { files_checked = s.files_checked; errors = s.chunks.errors }),
      rw (loaded, verify_snapshot) refl,
      (λ h. both.0 (none_left.0 h), λ h. none_left.1 (both.1 h)),
    )
