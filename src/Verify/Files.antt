-- ===== src/Verify/Files.antt =====
-- The checks of snapshots and files in verify/src/checker.rs.
use backup_shield.Base.{
  ℕ, ◌-◌, Bool, false, not, Option, none, some, List, [], ◌∷◌, ◌++◌, ◌||◌, ◌&&◌, ltb, if◌then◌else◌,
  length, take, for_each, flatten, Bytes, eq_bytes,
}
use backup_shield.Base.Result.{Result, ok, err}
use backup_shield.Hash.{Hashes, compute_hash}
use backup_shield.Pack.Name.{ends_with}
use backup_shield.Snapshot.{Snapshot, is_among}
use backup_shield.Snapshot.Node.{
  SnapshotFile, SnapshotNode, SnapshotNodes, file, directory, symlink, no_more, child,
}
use backup_shield.Verify.Report.{
  VerifyError, chunk_corrupt, chunk_missing, snapshot_corrupt, file_hash_mismatch, pack_corrupt,
  increment,
}

-- `{}/{}`, or the name alone at the top
unfoldable pub join_path : Bytes → Bytes → Bytes
join_path [] name = name
join_path (c ∷ parent) name = (c ∷ parent) ++ b'/' ∷ name

unfoldable mutual
  unfolding join_path

  pub collect_files :
      SnapshotNode → List (Bytes × SnapshotFile) → Bytes → List (Bytes × SnapshotFile)
  collect_files (file f) files parent_path = files ++ (join_path parent_path f.name, f) ∷ []
  collect_files (directory name modified mode children) files parent_path =
      collect_from children files (join_path parent_path name)
  collect_files (symlink s) files parent_path = files

  pub collect_from :
      SnapshotNodes → List (Bytes × SnapshotFile) → Bytes → List (Bytes × SnapshotFile)
  collect_from no_more files dir_path = files
  collect_from (child node nodes) files dir_path =
      collect_from nodes (collect_files node files dir_path) dir_path

-- A hash read by `sha2` piece by piece is the hash of all pieces.
unfoldable pub compute_file_hash : Hashes → List Bytes → Bytes
compute_file_hash H chunk_hashes = compute_hash H (flatten chunk_hashes)

-- The entries of the directory of snapshots that can be listed: the file's name, and the snapshot
-- or the text of the error that `Snapshot::load` returns.
abbrev pub SnapshotFiles : Type 0
SnapshotFiles = List (Bytes × Result Bytes Snapshot)

-- ".json"
abbrev pub json_suffix : Bytes
json_suffix = b'.' ∷ b'j' ∷ b's' ∷ b'o' ∷ b'n' ∷ []

-- `path.extension() == "json"`: a name that is the suffix alone has no extension.
unfoldable pub is_json : Bytes → Bool
is_json name = ends_with name json_suffix && ltb 5 (length name)

unfoldable pub file_stem : Bytes → Bytes
file_stem name = take (length name - 5) name

-- One entry; the snapshots and the errors grow.
unfoldable pub load_entry :
    Bytes × Result Bytes Snapshot
    → List Snapshot × List VerifyError
    → List Snapshot × List VerifyError
load_entry (name, loaded) (snapshots, errors) =
    if is_json name
    then elim loaded [
      | ok snap ↦ (snapshots ++ snap ∷ [], errors)
      | err reason ↦ (snapshots, errors ++ snapshot_corrupt (file_stem name) reason ∷ [])
    ]
    else (snapshots, errors)

-- `none` is a directory that is not there or cannot be listed.
unfoldable pub load_snapshots :
    Option SnapshotFiles → List VerifyError → List Snapshot × List VerifyError
load_snapshots none errors = ([], errors)
load_snapshots (some listed) errors = for_each load_entry listed ([], errors)

-- `bad_hashes`: those of the chunks reported so far.
unfoldable pub bad_hashes : List VerifyError → List Bytes
bad_hashes [] = []
bad_hashes (chunk_corrupt hash expected actual ∷ errors) = hash ∷ bad_hashes errors
bad_hashes (chunk_missing hash ∷ errors) = hash ∷ bad_hashes errors
bad_hashes (snapshot_corrupt id reason ∷ errors) = bad_hashes errors
bad_hashes (file_hash_mismatch path expected actual ∷ errors) = bad_hashes errors
bad_hashes (pack_corrupt pack_id e ∷ errors) = bad_hashes errors

-- `any(|h| bad_hashes.contains(h))`
unfoldable pub any_bad : List Bytes → List Bytes → Bool
any_bad bad [] = false
any_bad bad (hash ∷ hashes) = is_among hash bad || any_bad bad hashes

-- The counter and the errors that the loop over files changes.
pub record FileTally : Type 0 where
  pub files_checked : ℕ
  pub errors : List VerifyError

module _ (H : Hashes) (bad : List Bytes) where
  unfoldable pub check_file : Bytes × SnapshotFile → FileTally → FileTally
  unfolding increment
  check_file (file_path, f) t =
      let actual = compute_file_hash H f.chunk_hashes in
      record {
        files_checked = increment t.files_checked;
        errors =
            if not (any_bad bad f.chunk_hashes) && not (eq_bytes actual f.file_hash)
            then t.errors ++ file_hash_mismatch file_path f.file_hash actual ∷ []
            else t.errors;
      }

  unfoldable pub check_files : Snapshot → FileTally → FileTally
  check_files snap = for_each check_file (collect_files snap.root [] [])
