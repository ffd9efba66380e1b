-- ===== src/Snapshot/Node.antt =====
-- The tree of a snapshot: `SnapshotNode` and the walks over it.
use backup_shield.Base.{
  ℕ, ◌+◌, ◌%◌, ◌^◌, Option, none, some, List, [], ◌∷◌, ◌++◌, if◌then◌else◌, length, Bytes, eq_bytes,
}

pub record FileVersion : Type 0 where
  pub snapshot_id : Bytes
  pub timestamp : ℕ
  pub size : ℕ
  pub chunk_hashes : List Bytes
  pub file_hash : Bytes

pub record SnapshotFile : Type 0 where
  pub name : Bytes
  pub size : ℕ
  pub modified : ℕ
  pub mode : ℕ
  pub chunk_hashes : List Bytes
  pub file_hash : Bytes
  pub versions : List FileVersion

pub record SnapshotSymlink : Type 0 where
  pub name : Bytes
  pub target : Bytes

-- A directory has its name, time and mode, and its children.
mutual
  pub data SnapshotNode : Type 0 where
    file : SnapshotFile → SnapshotNode
    directory : Bytes → ℕ → ℕ → SnapshotNodes → SnapshotNode
    symlink : SnapshotSymlink → SnapshotNode

  pub data SnapshotNodes : Type 0 where
    no_more : SnapshotNodes
    child : SnapshotNode → SnapshotNodes → SnapshotNodes

unfoldable mutual
  -- `hashes` is the list that the walk extends.
  pub collect_chunk_hashes : SnapshotNode → List Bytes → List Bytes
  collect_chunk_hashes (file f) hashes = hashes ++ f.chunk_hashes
  collect_chunk_hashes (directory name modified mode children) hashes =
      collect_children children hashes
  collect_chunk_hashes (symlink s) hashes = hashes

  pub collect_children : SnapshotNodes → List Bytes → List Bytes
  collect_children no_more hashes = hashes
  collect_children (child node nodes) hashes =
      collect_children nodes (collect_chunk_hashes node hashes)

unfoldable mutual
  -- Total size and number of chunks, on `u64`.
  pub compute_stats : SnapshotNode → ℕ × ℕ
  compute_stats (file f) = (f.size, length f.chunk_hashes)
  compute_stats (directory name modified mode children) = sum_children children 0 0
  compute_stats (symlink s) = (0, 0)

  pub sum_children : SnapshotNodes → ℕ → ℕ → ℕ × ℕ
  sum_children no_more total_size total_chunks = (total_size, total_chunks)
  sum_children (child node nodes) total_size total_chunks =
      let (size, chunks) = compute_stats node in
      sum_children nodes ((total_size + size) % 2 ^ 64) ((total_chunks + chunks) % 2 ^ 64)

unfoldable mutual
  -- The file at a path whose first component names the node.
  pub find_file_node : SnapshotNode → List Bytes → Option SnapshotFile
  find_file_node node [] = none
  find_file_node (file f) (first ∷ []) = if eq_bytes f.name first then some f else none
  find_file_node (file f) (first ∷ next ∷ remaining) = none
  find_file_node (directory name modified mode children) (first ∷ []) = none
  find_file_node (directory name modified mode children) (first ∷ next ∷ remaining) =
      let found = find_in_children children (next ∷ remaining) in
      if eq_bytes name first then found else none
  find_file_node (symlink s) (first ∷ remaining) = none

  pub find_in_children : SnapshotNodes → List Bytes → Option SnapshotFile
  find_in_children no_more path = none
  find_in_children (child node nodes) path =
      let later = find_in_children nodes path in
      elim (find_file_node node path) [ some found ↦ some found | none ↦ later ]
