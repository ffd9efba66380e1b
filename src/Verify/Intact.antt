-- ===== src/Verify/Intact.antt =====
-- What it means that packs, chunks and files are as they should be, said of the directory, the index
-- and the trees without the walks of verify/src/checker.rs; and that the walks visit all of it.
use backup_shield.Base.{
  ℕ, ◌≡◌, ◌↔◌, refl, ap, subst, inl, inr, true, some, List, [], ◌∷◌, ◌++◌, All, leb, for_each,
  for_each-clean, Bytes, eq_bytes, eq_bytes_refl, eq_of_eq_bytes, Bool-cases, Option-cases,
}
use backup_shield.Base.Result.{Result, ok, err}
use backup_shield.Hash.{Hashes}
use backup_shield.Pack.Name.{pack_id_of}
use backup_shield.Pack.Disk.{Disk, read_file, file_names}
use backup_shield.Pack.Reader.{insert_id, sort_ids, ids_of, list_pack_ids}
use backup_shield.Pack.Reader.Bound.{Present}
use backup_shield.Repository.Index.{ChunkMeta, ChunkIndex, get, get-cons, get-new_index}
use backup_shield.Snapshot.{Snapshot}
use backup_shield.Snapshot.Node.{
  SnapshotFile, SnapshotNode, SnapshotNodes, file, directory, symlink, no_more, child,
}
use backup_shield.Verify.Report.{VerifyError}
use backup_shield.Verify.Files.{
  SnapshotFiles, is_json, join_path, collect_files, collect_from, load_entry, compute_file_hash,
}
use backup_shield.Verify.Checker.{all_hashes}
use backup_shield.Verify.Clean.{FileHashed}
use backup_shield.Verify.Scrub.Bad.{InIndex, all_hashes-InIndex}

pub All-append_iff {ℓ} :
    {A : Type ℓ} (P : A → Type 0) (xs ys : List A) → All P (xs ++ ys) ↔ (All P xs × All P ys)
All-append_iff P [] ys = (λ h. (tt, h), λ h. h.1)
All-append_iff P (x ∷ xs) ys =
    let later = All-append_iff P xs ys in
    (λ h. ((h.0, (later.0 h.1).0), (later.0 h.1).1), λ h. (h.0.0, later.1 (h.0.1, h.1)))

ok-injective : (a b : Snapshot) → ◌≡◌ {A = Result Bytes Snapshot} (ok a) (ok b) → a ≡ b
ok-injective a b e = cc

-- A property of all ids that the names in the directory have.
module _ (P : ℕ → Type 0) where
  All-insert_id : (id : ℕ) (ids : List ℕ) → All P (insert_id id ids) ↔ (P id × All P ids)
  unfolding insert_id
  All-insert_id id [] = (λ h. h, λ h. h)
  All-insert_id id (x ∷ rest) = elim (Bool-cases (leb id x)) [
    | inl small ↦ rw small (λ h. h, λ h. h)
    | inr large ↦
        let later = All-insert_id id rest in
        rw large
          (λ h. ((later.0 h.1).0, (h.0, (later.0 h.1).1)), λ h. (h.1.0, later.1 (h.0, h.1.1)))
  ]

  All-sort_ids : (ids : List ℕ) → All P (sort_ids ids) ↔ All P ids
  unfolding sort_ids
  All-sort_ids [] = (λ h. h, λ h. h)
  All-sort_ids (id ∷ rest) =
      let step = All-insert_id id (sort_ids rest) in
      let later = All-sort_ids rest in
      (λ h. ((step.0 h).0, later.0 (step.0 h).1), λ h. step.1 (h.0, later.1 h.1))

  -- Of every file that is named as a pack, by the id in its name.
  abbrev pub OfPacks : Disk → Type 0
  OfPacks disk = (name : Bytes) (id : ℕ) → Present disk name → pack_id_of name ≡ some id → P id

  All-ids_of : (disk : Disk) → All P (ids_of (file_names disk)) → OfPacks disk
  unfolding ids_of file_names read_file pack_id_of eq_bytes
  All-ids_of [] all name id (content, found) parsed = absurd (cc)
  All-ids_of ((n, c) ∷ disk) all name id (content, found) parsed =
      elim (Option-cases (pack_id_of n)) [
        | inl skipped ↦ elim (Bool-cases (eq_bytes n name)) [
          | inl same ↦ absurd (cc (ap pack_id_of (eq_of_eq_bytes n name same)))
          | inr other ↦
              All-ids_of disk (rw (skipped, ids_of) at all) name id
                (content, rw (other, read_file) at found) parsed
        ]
        | inr (x, is) ↦
            let both : P x × All P (ids_of (file_names disk)) = rw (is, ids_of) at all in
            elim (Bool-cases (eq_bytes n name)) [
              | inl same ↦ subst P (cc (ap pack_id_of (eq_of_eq_bytes n name same))) both.0
              | inr other ↦
                  All-ids_of disk both.1 name id (content, rw (other, read_file) at found) parsed
            ]
      ]

  ids_of-All : (disk : Disk) → OfPacks disk → All P (ids_of (file_names disk))
  unfolding ids_of file_names read_file pack_id_of eq_bytes
  ids_of-All [] all = tt
  ids_of-All ((n, c) ∷ disk) all =
      let later =
        ids_of-All disk (λ name id there parsed. all name id (behind name there) parsed) in
      elim (Option-cases (pack_id_of n)) [
        | inl skipped ↦ rw skipped later
        | inr (x, is) ↦ rw is (all n x (c, rw (eq_bytes_refl n) refl) is, later)
      ]
    where
      behind : (name : Bytes) → Present disk name → Present ((n, c) ∷ disk) name
      behind name (content, found) = elim (Bool-cases (eq_bytes n name)) [
        | inl same ↦ (c, rw same refl)
        | inr other ↦ (content, rw other found)
      ]

  pub All-list_pack_ids : (disk : Disk) → All P (list_pack_ids disk) ↔ OfPacks disk
  unfolding list_pack_ids
  All-list_pack_ids disk =
      let sorted = All-sort_ids (ids_of (file_names disk)) in
      (λ h. All-ids_of disk (sorted.0 h), λ h. sorted.1 (ids_of-All disk h))

-- A property of every hash that the index finds.
module _ (P : Bytes → Type 0) where
  abbrev pub OfChunks : ChunkIndex → Type 0
  OfChunks index = (h : Bytes) (meta : ChunkMeta) → get index h ≡ some meta → P h

  all_hashes-OfChunks :
      (l : List (Bytes × ChunkMeta))
      → All P (all_hashes (record { entries = l }))
      → OfChunks (record { entries = l })
  unfolding all_hashes
  all_hashes-OfChunks [] all h meta found = cc (get-new_index h)
  all_hashes-OfChunks ((k, m) ∷ l) all h meta found = elim (Bool-cases (eq_bytes k h)) [
    | inl same ↦ subst P (eq_of_eq_bytes k h same) all.0
    | inr other ↦ all_hashes-OfChunks l all.1 h meta (rw (get-cons k h m l, other) at found)
  ]

  all_of :
      (index : ChunkIndex) (hashes : List Bytes)
      → OfChunks index
      → All (InIndex index) hashes
      → All P hashes
  all_of index [] all here = tt
  all_of index (h ∷ hashes) all here = (all h here.0.0 here.0.1, all_of index hashes all here.1)

  pub All-all_hashes : (index : ChunkIndex) → All P (all_hashes index) ↔ OfChunks index
  All-all_hashes index = (
    all_hashes-OfChunks index.entries,
    λ all. all_of index (all_hashes index) all (all_hashes-InIndex index.entries),
  )

-- A property of every file of a tree.
abbrev mutual
  pub OfFiles : (SnapshotFile → Type 0) → SnapshotNode → Type 0
  OfFiles P (file f) = P f
  OfFiles P (directory name modified mode children) = OfChildren P children
  OfFiles P (symlink s) = Unit

  pub OfChildren : (SnapshotFile → Type 0) → SnapshotNodes → Type 0
  OfChildren P no_more = Unit
  OfChildren P (child node nodes) = OfFiles P node × OfChildren P nodes

module _ (H : Hashes) where
  -- The hash of the file is that of its chunks' hashes.
  abbrev pub Hashed : SnapshotFile → Type 0
  Hashed f = compute_file_hash H f.chunk_hashes ≡ f.file_hash

  mutual
    unfolding collect_files join_path

    pub All-collect_files :
        (node : SnapshotNode) (files : List (Bytes × SnapshotFile)) (path : Bytes)
        → All (FileHashed H) (collect_files node files path)
          ↔ (All (FileHashed H) files × OfFiles Hashed node)
    All-collect_files (file f) files path =
        let both = All-append_iff (FileHashed H) files ((join_path path f.name, f) ∷ []) in
        (λ h. ((both.0 h).0, (both.0 h).1.0), λ h. both.1 (h.0, (h.1, tt)))
    All-collect_files (directory name modified mode children) files path =
        All-collect_from children files (join_path path name)
    All-collect_files (symlink s) files path = (λ h. (h, tt), λ h. h.0)

    All-collect_from :
        (nodes : SnapshotNodes) (files : List (Bytes × SnapshotFile)) (path : Bytes)
        → All (FileHashed H) (collect_from nodes files path)
          ↔ (All (FileHashed H) files × OfChildren Hashed nodes)
    All-collect_from no_more files path = (λ h. (h, tt), λ h. h.0)
    All-collect_from (child node nodes) files path =
        let later = All-collect_from nodes (collect_files node files path) path in
        let first = All-collect_files node files path in
        (
          λ h. ((first.0 (later.0 h).0).0, ((first.0 (later.0 h).0).1, (later.0 h).1)),
          λ h. later.1 (first.1 (h.0, h.1.0), h.1.1),
        )

  abbrev pub FilesHashed : Snapshot → Type 0
  FilesHashed snap = All (FileHashed H) (collect_files snap.root [] [])

  pub FilesHashed-OfFiles : (snap : Snapshot) → FilesHashed snap ↔ OfFiles Hashed snap.root
  FilesHashed-OfFiles snap =
      let both = All-collect_files snap.root [] [] in (λ h. (both.0 h).1, λ h. both.1 (tt, h))

  -- Every file of the snapshot that stands in the file, where that is named as a snapshot.
  abbrev pub TreeHashed : Bytes × Result Bytes Snapshot → Type 0
  TreeHashed (name, loaded) =
      is_json name ≡ true → (snap : Snapshot) → loaded ≡ ok snap → OfFiles Hashed snap.root

  load_entry-TreeHashed :
      (entry : Bytes × Result Bytes Snapshot) (s : List Snapshot × List VerifyError)
      → All FilesHashed (load_entry entry s).0 ↔ (All FilesHashed s.0 × TreeHashed entry)
  unfolding load_entry
  load_entry-TreeHashed (name, err reason) (snapshots, errors) = elim (Bool-cases (is_json name)) [
    | inl json ↦ rw json (λ h. (h, λ _ snap e. absurd (cc e)), λ h. h.0)
    | inr other ↦ rw other (λ h. (h, λ _ snap e. absurd (cc e)), λ h. h.0)
  ]
  load_entry-TreeHashed (name, ok snap) (snapshots, errors) = elim (Bool-cases (is_json name)) [
    | inr other ↦ rw other (λ h. (h, λ impossible. absurd (cc)), λ h. h.0)
    | inl json ↦
        let both = All-append_iff FilesHashed snapshots (snap ∷ []) in
        let tree = FilesHashed-OfFiles snap in
        rw json (
          λ h. (
            (both.0 h).0,
            λ _ s e.
                subst (λ t. OfFiles Hashed t.root) (ok-injective snap s e) (tree.0 (both.0 h).1.0),
          ),
          λ h. both.1 (h.0, (tree.1 (h.1 refl snap refl), tt)),
        )
  ]

  pub All-loaded :
      (listed : SnapshotFiles)
      → All FilesHashed (for_each load_entry listed ([], [])).0 ↔ All TreeHashed listed
  All-loaded listed =
      let both =
        for_each-clean load_entry (λ s. All FilesHashed s.0) TreeHashed load_entry-TreeHashed listed
          ([], []) in
      (λ h. (both.0 h).1, λ h. both.1 (tt, h))
