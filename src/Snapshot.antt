-- ===== src/Snapshot.antt =====
-- crates/core/src/snapshot.rs: snapshot trees, and the removal of snapshots with the references that
-- they hold on chunks. A path is the list of its components; a time is a number.
pub mod Node
pub mod Stats
pub mod References
pub mod Retention
mod Tests
use backup_shield.Base.{
  ℕ, ◌+◌, Bool, true, false, Option, none, some, List, [], ◌∷◌, ◌++◌, ◌==◌, ◌||◌, leb, ltb,
  if◌then◌else◌, Bytes, eq_bytes,
}
use backup_shield.Base.Result.{Result, ok, err}
use backup_shield.Pack.Name.{starts_with}
use backup_shield.Repository.Index.{ChunkIndex, decrement_ref, remove}
use Node.{SnapshotNode, collect_chunk_hashes}

pub record Snapshot : Type 0 where
  pub id : Bytes
  pub timestamp : ℕ
  pub hostname : Bytes
  pub tags : List Bytes
  pub root : SnapshotNode
  pub total_size : ℕ
  pub total_chunks : ℕ
  pub parent_snapshot_id : Option Bytes

unfoldable pub all_chunk_hashes : Snapshot → List Bytes
all_chunk_hashes snap = collect_chunk_hashes snap.root []

-- What the removal of snapshots works on: the index of the opened repository, and the snapshot files,
-- in the order of `list_snapshots`. The file of a snapshot is named by its id.
pub record Store : Type 0 where
  pub index : ChunkIndex
  pub snapshots : List Snapshot

-- "Decrement ref counts": a chunk without references leaves the index.
unfoldable pub release : ChunkIndex → Bytes → ChunkIndex
release index hash =
    let (index', should_delete) = decrement_ref index hash in
    if should_delete then remove index' hash else index'

unfoldable pub release_all : ChunkIndex → List Bytes → ChunkIndex
release_all index [] = index
release_all index (hash ∷ hashes) = release_all (release index hash) hashes

-- The removal of the file `<id>.json`, if it is there.
unfoldable pub remove_snapshot : Bytes → List Snapshot → List Snapshot
remove_snapshot id [] = []
remove_snapshot id (snap ∷ snaps) =
    let rest = remove_snapshot id snaps in if eq_bytes snap.id id then rest else snap ∷ rest

unfoldable pub drop_snapshot : Snapshot → Store → Store
drop_snapshot snap st = record {
  index = release_all st.index (all_chunk_hashes snap);
  snapshots = remove_snapshot snap.id st.snapshots;
}

-- `snapshots.iter().find(|s| &s.id == id)`
unfoldable pub find_by_id : Bytes → List Snapshot → Option Snapshot
find_by_id id [] = none
find_by_id id (snap ∷ snaps) = if eq_bytes snap.id id then some snap else find_by_id id snaps

-- The loop of `delete_snapshots`, over the list that was read before it.
unfoldable pub delete_loop : List Snapshot → List Bytes → Store → Store × List Bytes
delete_loop listed [] st = (st, [])
delete_loop listed (id ∷ ids) st = elim (find_by_id id listed) [
  | none ↦ delete_loop listed ids st
  | some snap ↦
      let (after, removed) = delete_loop listed ids (drop_snapshot snap st) in (after, id ∷ removed)
]

unfoldable pub delete_snapshots : List Bytes → Store → Store × List Bytes
delete_snapshots ids st = delete_loop st.snapshots ids st

-- `find_snapshot`
abbrev pub latest : Bytes
latest = b'l' ∷ b'a' ∷ b't' ∷ b'e' ∷ b's' ∷ b't' ∷ []

unfoldable pub last_snapshot : List Snapshot → Option Snapshot
last_snapshot [] = none
last_snapshot (snap ∷ []) = some snap
last_snapshot (snap ∷ next ∷ snaps) = last_snapshot (next ∷ snaps)

unfoldable pub find_first : (Snapshot → Bool) → List Snapshot → Option Snapshot
find_first test [] = none
find_first test (snap ∷ snaps) = if test snap then some snap else find_first test snaps

unfoldable pub is_among : Bytes → List Bytes → Bool
is_among name [] = false
is_among name (tag ∷ tags) = eq_bytes tag name || is_among name tags

unfoldable pub find_snapshot : Bytes → List Snapshot → Option Snapshot
find_snapshot query snaps =
    if eq_bytes query latest
    then last_snapshot snaps
    else elim (find_first (λ s. starts_with s.id query) snaps) [
      | some found ↦ some found
      | none ↦ find_first (λ s. is_among query s.tags) snaps
    ]
