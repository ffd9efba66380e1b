-- ===== src/Repository.antt =====
-- core/src/repository.rs: the chunk store over pack files. The state of a repository is its index,
-- its pack writer, and what stands on disk: the pack files and the saved index.
pub mod Index
pub mod Relocate
pub mod Sound
pub mod Operations
pub mod Read
pub mod Reopen
pub mod Repair
pub mod Rewritten
pub mod Replaced
mod Tests
use backup_shield.Base.{
  ℕ, zero, ◌+◌, ◌%◌, ◌^◌, Bool, true, false, Option, none, some, List, [], ◌∷◌, ◌==◌, if◌then◌else◌,
  length, Bytes, eq_bytes, max,
}
use backup_shield.Base.Result.{Result, ok, err}
use backup_shield.Hash.{Hashes, compute_hash}
use backup_shield.Pack.Disk.{Disk}
use backup_shield.Pack.Format.{Location, default_pack_size}
use backup_shield.Pack.Writer.{
  PackWriter, FlushResult, FlushStep, Flushed, Io, new_writer, add_chunk, flush, get_pending,
}
use backup_shield.Pack.Reader as Reader
use backup_shield.Pack.Reader.{PackError, max_pack_id}
use Index.{ChunkMeta, ChunkIndex, new_index, get, modify, contains, bump_refs, upsert, remove}

pub data RepositoryError : Type 0 where
  not_found chunk_not_found pending_not_in_buffer writer_not_initialised : RepositoryError
  already_exists already_in_use repaired_mismatch save_failed list_failed : RepositoryError
  flush_failed : FlushStep → RepositoryError
  pack_failed : PackError → RepositoryError

pub record Repository : Type 0 where
  pub index : ChunkIndex
  pub pack_writer : Option PackWriter
  pub disk : Disk
  pub saved_index : Option ChunkIndex

-- The fields that a flush fixes in the entry of a chunk.
unfoldable pub place : ℕ → ℕ → ℕ → ChunkMeta → ChunkMeta
place pack_id offset size meta = record meta {
  pack_id = pack_id;
  pack_offset = offset;
  compressed_size = size;
}

-- "Update the index for ALL chunks that were just flushed"
unfoldable pub relocate : ℕ → List Location → ChunkIndex → ChunkIndex
relocate pack_id [] index = index
relocate pack_id ((hash, offset, size) ∷ locs) index =
    relocate pack_id locs (modify index hash (place pack_id offset size))

-- `chunk_locations.iter().find(|(h, _, _)| h == &hash)`
unfoldable pub find_location : Bytes → List Location → Option ℕ
find_location hash [] = none
find_location hash ((h, offset, size) ∷ locs) =
    if eq_bytes h hash then some offset else find_location hash locs

unfoldable pub new_meta : Bytes → ℕ → ℕ → ℕ → ChunkMeta
new_meta hash size pack_id offset = record {
  hash = hash;
  size = size;
  compressed_size = size;
  refs = 1;
  parity_group = 0;
  pack_id = pack_id;
  pack_offset = offset;
}

-- The end of `store_chunk`: the entry of the new chunk, at its place or at 0 while it is pending.
unfoldable pub enter_at :
    Repository → Bytes → Bytes → ℕ → Option ℕ → Repository × Result RepositoryError Bytes
enter_at repo hash bytes pack_id none =
    (record repo { index = upsert repo.index (new_meta hash (length bytes) 0 0) }, ok hash)
enter_at repo hash bytes pack_id (some offset) = (
  record repo { index = upsert repo.index (new_meta hash (length bytes) pack_id offset) },
  ok hash,
)

-- What `store_chunk` does with the outcome of its flush.
unfoldable pub store_flushed :
    Repository
    → Bytes
    → Bytes
    → Flushed
    → Result FlushStep (Option FlushResult)
    → Repository × Result RepositoryError Bytes
store_flushed repo hash bytes f (err step) =
    (record repo { pack_writer = some f.writer; disk = f.disk }, err (flush_failed step))
store_flushed repo hash bytes f (ok none) =
    enter_at (record repo { pack_writer = some f.writer; disk = f.disk }) hash bytes 0 none
store_flushed repo hash bytes f (ok (some r)) =
    enter_at
      (record repo {
        pack_writer = some f.writer;
        disk = f.disk;
        index = relocate r.pack_id r.chunk_locations repo.index;
      })
      hash bytes r.pack_id (find_location hash r.chunk_locations)

module _ (H : Hashes) (io : Io) where
  -- A chunk that the index does not hold, with the writer `w`.
  unfoldable pub store_new :
      Repository → Bytes → Bytes → PackWriter → Repository × Result RepositoryError Bytes
  store_new repo hash bytes w =
      let (w', should_flush) = add_chunk w hash bytes in
      let f = flush H io w' repo.disk in
      if should_flush
      then store_flushed repo hash bytes f f.result
      else enter_at (record repo { pack_writer = some w' }) hash bytes 0 none

  unfoldable pub store_chunk : Repository → Bytes → Repository × Result RepositoryError Bytes
  store_chunk repo bytes =
      let hash = compute_hash H bytes in
      if contains repo.index hash
      then (record repo { index = modify repo.index hash bump_refs }, ok hash)
      else elim repo.pack_writer [
        | none ↦ (repo, err writer_not_initialised)
        | some w ↦ store_new repo hash bytes w
      ]

  -- `flush_pending` with the writer's outcome at hand.
  unfoldable pub pending_flushed :
      Repository
      → Flushed
      → Result FlushStep (Option FlushResult)
      → Repository × Result RepositoryError (Unit {0})
  pending_flushed repo f (err step) =
      (record repo { pack_writer = some f.writer; disk = f.disk }, err (flush_failed step))
  pending_flushed repo f (ok none) =
      (record repo { pack_writer = some f.writer; disk = f.disk }, ok tt)
  pending_flushed repo f (ok (some r)) = (
    record repo {
      pack_writer = some f.writer;
      disk = f.disk;
      index = relocate r.pack_id r.chunk_locations repo.index;
    },
    ok tt,
  )

  unfoldable pub flush_pending : Repository → Repository × Result RepositoryError (Unit {0})
  flush_pending repo = elim repo.pack_writer [
    | none ↦ (repo, ok tt)
    | some w ↦ let f = flush H io w repo.disk in pending_flushed repo f f.result
  ]

-- `save_index`: the write through a temporary file either replaces the saved index or leaves it.
unfoldable pub save_index : Bool → Repository → Repository × Result RepositoryError (Unit {0})
save_index fails repo =
    if fails
    then (repo, err save_failed)
    else (record repo { saved_index = some repo.index }, ok tt)

unfoldable pub load_index : Repository → Repository
load_index repo = record repo {
  index = elim repo.saved_index [ none ↦ new_index | some index ↦ index ];
}

unfoldable pub pending : Repository → Bytes → Option Bytes
pending repo hash = elim repo.pack_writer [ none ↦ none | some w ↦ get_pending w hash ]

abbrev pub pack_result : Result PackError Bytes → Result RepositoryError Bytes
pack_result (ok bytes) = ok bytes
pack_result (err e) = err (pack_failed e)

module _ (H : Hashes) where
  -- A chunk that is not in the buffer: the second look at the buffer finds no more than the first.
  unfoldable pub read_stored : Repository → Bytes → ChunkMeta → Result RepositoryError Bytes
  read_stored repo hash meta =
      if meta.pack_id == 0
      then elim (pending repo hash) [ none ↦ err pending_not_in_buffer | some bytes ↦ ok bytes ]
      else pack_result (Reader.read_chunk H repo.disk meta.pack_id meta.pack_offset hash)

  unfoldable pub read_chunk : Repository → Bytes → Result RepositoryError Bytes
  read_chunk repo hash = elim (pending repo hash) [
    | some bytes ↦ ok bytes
    | none ↦ elim (get repo.index hash) [
      | none ↦ err chunk_not_found
      | some meta ↦ read_stored repo hash meta
    ]
  ]

unfoldable pub chunk_exists : Repository → Bytes → Bool
chunk_exists repo hash = contains repo.index hash

unfoldable pub get_chunk_meta : Repository → Bytes → Option ChunkMeta
get_chunk_meta repo hash = get repo.index hash

unfoldable pub remove_chunk : Repository → Bytes → Repository
remove_chunk repo hash = record repo { index = remove repo.index hash }

module _ (H : Hashes) (io : Io) (save_fails : Bool) where
  -- The new place of the repaired chunk (`chunk_locations[0]`: a written pack has a chunk), and the save of the index.
  unfoldable pub repaired_flushed :
      Repository
      → Bytes
      → Bytes
      → Flushed
      → Result FlushStep (Option FlushResult)
      → Repository × Result RepositoryError (Unit {0})
  repaired_flushed repo hash bytes f (err step) =
      (record repo { disk = f.disk }, err (flush_failed step))
  repaired_flushed repo hash bytes f (ok none) =
      save_index save_fails (record repo { disk = f.disk })
  repaired_flushed repo hash bytes f (ok (some r)) = save_index save_fails (record repo {
    disk = f.disk;
    index = elim r.chunk_locations [
      | [] ↦ repo.index
      | loc ∷ later ↦ modify repo.index hash (place r.pack_id loc.1 (length bytes))
    ];
  })

  -- The writer is one of its own; that of the repository stays as it is.
  unfoldable pub write_repaired_chunk :
      Repository → Bytes → Bytes → Repository × Result RepositoryError (Unit {0})
  write_repaired_chunk repo hash bytes =
      let next_pack_id = (max_pack_id repo.disk + 1) % 2 ^ 64 in
      let (w, should_flush) = add_chunk (new_writer next_pack_id default_pack_size) hash bytes in
      let f = flush H io w repo.disk in
      if eq_bytes (compute_hash H bytes) hash
      then if io.list_fails
        then (repo, err list_failed)
        else repaired_flushed repo hash bytes f f.result
      else (repo, err repaired_mismatch)

-- `Repository::open`: `config` is the pack size of the configuration file, if there is one.
unfoldable pub open_repository :
    Option ℕ → Bool → Bool → Disk → Option ChunkIndex → Result RepositoryError Repository
open_repository none locked list_fails disk saved = err not_found
open_repository (some pack_target_size) locked list_fails disk saved =
    if locked
    then err already_in_use
    else let repo =
        load_index
          (record { index = new_index; pack_writer = none; disk = disk; saved_index = saved }) in
      if list_fails
      then err list_failed
      else ok (record repo {
        pack_writer = some (new_writer ((max_pack_id disk + 1) % 2 ^ 64) pack_target_size);
      })

-- `Repository::init`: `config` is what `config.toml` holds already, if it is there. The data
-- directory may hold files all the same.
unfoldable pub init_repository : Option ℕ → Bool → ℕ → Disk → Result RepositoryError Repository
init_repository (some config) locked pack_target_size disk = err already_exists
init_repository none locked pack_target_size disk =
    if locked
    then err already_in_use
    else ok (record {
      index = new_index;
      pack_writer = some (new_writer 1 (max default_pack_size pack_target_size));
      disk = disk;
      saved_index = some new_index;
    })
