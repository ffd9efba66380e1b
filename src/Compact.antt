-- ===== src/Compact.antt =====
-- `compact_packs` of core/src/pack.rs: the chunks that are still used are written to new packs, the
-- index is moved to them, and the old packs are deleted.
pub mod Packs
pub mod Gather
pub mod Loop
pub mod Entries
pub mod Safe
pub mod Cleaned
mod Tests
use backup_shield.Base.{
  ℕ, ◌+◌, ◌%◌, ◌^◌, Bool, true, false, Option, none, some, List, [], ◌∷◌, ◌++◌, if◌then◌else◌,
  length, Bytes,
}
use backup_shield.Base.Result.{Result, ok, err, ◌>>=◌}
use backup_shield.Hash.{Hashes}
use backup_shield.Pack.Name.{pack_filename}
use backup_shield.Pack.Disk.{Disk, read_file, remove_file}
use backup_shield.Pack.Format.{Chunk, Location}
use backup_shield.Pack.Writer.{
  PackWriter, FlushResult, FlushStep, Flushed, Io, new_writer, add_chunk, flush, finish,
}
use backup_shield.Pack.Reader as Reader
use backup_shield.Pack.Reader.{PackError, ListError, list_chunks, list_pack_ids, largest}
use backup_shield.Repository.Index.{ChunkMeta, ChunkIndex, modify, remove}

pub data CompactError : Type 0 where
  repository_in_use packs_unlisted index_unreadable index_unsaved : CompactError
  list_failed : ListError → CompactError
  read_failed : PackError → CompactError
  flush_failed : FlushStep → CompactError
  pack_not_deleted : ℕ → CompactError

pub record CompactResult : Type 0 where
  pub packs_before : ℕ
  pub packs_after : ℕ
  pub chunks_kept : ℕ
  pub chunks_discarded : ℕ
  pub bytes_freed : ℕ

-- What the first loop collects. The counters are of type u64.
pub record Gathered : Type 0 where
  pub live_chunks : List Chunk
  pub chunks_kept : ℕ
  pub chunks_discarded : ℕ
  pub bytes_freed : ℕ

abbrev pub nothing_gathered : Gathered
nothing_gathered = record {
  live_chunks = [];
  chunks_kept = 0;
  chunks_discarded = 0;
  bytes_freed = 0;
}

unfoldable pub keep_chunk : Gathered → Bytes → Result PackError Bytes → Result CompactError Gathered
keep_chunk g hash (err e) = err (read_failed e)
keep_chunk g hash (ok bytes) = ok (record g {
  live_chunks = g.live_chunks ++ (hash, bytes) ∷ [];
  chunks_kept = (g.chunks_kept + 1) % 2 ^ 64;
})

unfoldable pub discard_chunk : Gathered → ℕ → Gathered
discard_chunk g stored_size = record g {
  chunks_discarded = (g.chunks_discarded + 1) % 2 ^ 64;
  bytes_freed = (g.bytes_freed + stored_size) % 2 ^ 64;
}

-- `live` is the test of `live_hashes`.
module _ (H : Hashes) (live : Bytes → Bool) (disk : Disk) where
  unfoldable pub gather_chunk : ℕ → Location → Gathered → Result CompactError Gathered
  gather_chunk pack_id (hash, offset, stored_size) g =
      if live hash
      then keep_chunk g hash (Reader.read_chunk H disk pack_id offset hash)
      else ok (discard_chunk g stored_size)

  unfoldable pub gather_chunks : ℕ → List Location → Gathered → Result CompactError Gathered
  gather_chunks pack_id [] g = ok g
  gather_chunks pack_id (loc ∷ chunk_list) g =
      gather_chunk pack_id loc g >>= λ g'. gather_chunks pack_id chunk_list g'

  unfoldable pub gather_pack :
      ℕ → Result ListError (List Location) → Gathered → Result CompactError Gathered
  gather_pack pack_id (err e) g = err (list_failed e)
  gather_pack pack_id (ok chunk_list) g = gather_chunks pack_id chunk_list g

  unfoldable pub gather_packs : List ℕ → Gathered → Result CompactError Gathered
  gather_packs [] g = ok g
  gather_packs (pack_id ∷ pack_ids) g =
      gather_pack pack_id (list_chunks disk pack_id) g >>= λ g'. gather_packs pack_ids g'

-- The hash, the new pack and the offset in it; the size is not used.
abbrev pub NewLocation : Type 0
NewLocation = Bytes × ℕ × ℕ

-- The locals of the second loop, and the files.
pub record Rewrite : Type 0 where
  pub writer : PackWriter
  pub disk : Disk
  pub new_pack_ids : List ℕ
  pub new_locations : List NewLocation

unfoldable pub in_pack : ℕ → List Location → List NewLocation
in_pack pack_id [] = []
in_pack pack_id ((hash, offset, size) ∷ locs) = (hash, pack_id, offset) ∷ in_pack pack_id locs

-- What a flush adds. An error comes with the files that it leaves.
unfoldable pub record_flush :
    Rewrite
    → PackWriter
    → Disk
    → Result FlushStep (Option FlushResult)
    → Result (CompactError × Disk) Rewrite
record_flush s w disk (err step) = err (flush_failed step, disk)
record_flush s w disk (ok none) = ok (record s { writer = w; disk = disk })
record_flush s w disk (ok (some r)) = ok (record {
  writer = w;
  disk = disk;
  new_pack_ids = s.new_pack_ids ++ r.pack_id ∷ [];
  new_locations = s.new_locations ++ in_pack r.pack_id r.chunk_locations;
})

-- `io` gives the answers of the file system to the flush of every pack id.
module _ (H : Hashes) (io : ℕ → Io) where
  unfoldable pub rewrite_chunk : Chunk → Rewrite → Result (CompactError × Disk) Rewrite
  rewrite_chunk (hash, bytes) s =
      let (w, should_flush) = add_chunk s.writer hash bytes in
      let f = flush H (io w.next_pack_id) w s.disk in
      if should_flush then record_flush s f.writer f.disk f.result else ok (record s { writer = w })

  unfoldable pub rewrite_chunks : List Chunk → Rewrite → Result (CompactError × Disk) Rewrite
  rewrite_chunks [] s = ok s
  rewrite_chunks (chunk ∷ live_chunks) s =
      rewrite_chunk chunk s >>= λ s'. rewrite_chunks live_chunks s'

  unfoldable pub rewrite_packs : ℕ → ℕ → Disk → List Chunk → Result (CompactError × Disk) Rewrite
  rewrite_packs next_pack_id pack_target_size disk live_chunks =
      rewrite_chunks live_chunks (record {
        writer = new_writer next_pack_id pack_target_size;
        disk = disk;
        new_pack_ids = [];
        new_locations = [];
      })
      >>= λ s.
          let f = finish H (io s.writer.next_pack_id) s.writer s.disk in
          record_flush s f.writer f.disk f.result

unfoldable pub moved : ℕ → ℕ → ChunkMeta → ChunkMeta
moved pack_id offset meta = record meta { pack_id = pack_id; pack_offset = offset }

unfoldable pub move_entries : List NewLocation → ChunkIndex → ChunkIndex
move_entries [] index = index
move_entries ((hash, pack_id, offset) ∷ locs) index =
    move_entries locs (modify index hash (moved pack_id offset))

-- The keys of the index that are not in use.
unfoldable pub orphans : (Bytes → Bool) → List (Bytes × ChunkMeta) → List Bytes
orphans live [] = []
orphans live ((hash, meta) ∷ entries) =
    let rest = orphans live entries in if live hash then rest else hash ∷ rest

unfoldable pub remove_entries : List Bytes → ChunkIndex → ChunkIndex
remove_entries [] index = index
remove_entries (hash ∷ hashes) index = remove_entries hashes (remove index hash)

unfoldable pub compact_index : (Bytes → Bool) → List NewLocation → ChunkIndex → ChunkIndex
compact_index live new_locations index =
    let placed = move_entries new_locations index in
    remove_entries (orphans live placed.entries) placed

-- The answers of the file system that do not concern a flush.
pub record IndexIo : Type 0 where
  pub list_fails : Bool
  pub stat_fails : Bool
  pub read_fails : Bool
  pub save_fails : Bool
  pub pack_stat_fails : ℕ → Bool
  pub delete_fails : ℕ → Bool

-- What is on disk afterwards, and what the function returns.
pub record Compacted : Type 0 where
  pub disk : Disk
  pub saved_index : Option ChunkIndex
  pub result : Result CompactError CompactResult

-- `exists` also says no where the pack cannot be asked for, and then it stays.
unfoldable pub delete_packs : IndexIo → List ℕ → Disk → Disk × Result CompactError (Unit {0})
delete_packs io [] disk = (disk, ok tt)
delete_packs io (pack_id ∷ pack_ids) disk =
    let skipped = delete_packs io pack_ids disk in
    if io.pack_stat_fails pack_id then skipped else elim (read_file disk (pack_filename pack_id)) [
      | none ↦ skipped
      | some content ↦
          let rest = delete_packs io pack_ids (remove_file disk (pack_filename pack_id)) in
          if io.delete_fails pack_id then (disk, err (pack_not_deleted pack_id)) else rest
    ]

-- The save of the index, where there is one. `exists` also says no where the file cannot be asked
-- for, and then the index stays as it is.
unfoldable pub save_compacted :
    IndexIo
    → (Bytes → Bool)
    → List NewLocation
    → Option ChunkIndex
    → Result CompactError (Option ChunkIndex)
save_compacted io live new_locations none = ok none
save_compacted io live new_locations (some index) =
    if io.stat_fails
    then ok (some index)
    else if io.read_fails
    then err index_unreadable
    else if io.save_fails
    then err index_unsaved
    else ok (some (compact_index live new_locations index))

-- From the deletion on.
unfoldable pub finish_compaction :
    Gathered → ℕ → ℕ → Option ChunkIndex → Disk × Result CompactError (Unit {0}) → Compacted
finish_compaction g packs_before packs_after saved (disk, err e) = record {
  disk = disk;
  saved_index = saved;
  result = err e;
}
finish_compaction g packs_before packs_after saved (disk, ok u) = record {
  disk = disk;
  saved_index = saved;
  result = ok (record {
    packs_before = packs_before;
    packs_after = packs_after;
    chunks_kept = g.chunks_kept;
    chunks_discarded = g.chunks_discarded;
    bytes_freed = g.bytes_freed;
  });
}

-- From the update of the index on.
unfoldable pub index_and_delete :
    IndexIo
    → List ℕ
    → Gathered
    → Rewrite
    → Option ChunkIndex
    → Result CompactError (Option ChunkIndex)
    → Compacted
index_and_delete io pack_ids g s saved (err e) = record {
  disk = s.disk;
  saved_index = saved;
  result = err e;
}
index_and_delete io pack_ids g s saved (ok updated) =
    finish_compaction g (length pack_ids) (length s.new_pack_ids) updated
      (delete_packs io pack_ids s.disk)

module _ (H : Hashes) (flush_io : ℕ → Io) (io : IndexIo) (live : Bytes → Bool) where
  -- From the end of the second loop on.
  unfoldable pub after_rewrite :
      List ℕ → Gathered → Option ChunkIndex → Result (CompactError × Disk) Rewrite → Compacted
  after_rewrite pack_ids g saved (err (e, disk)) = record {
    disk = disk;
    saved_index = saved;
    result = err e;
  }
  after_rewrite pack_ids g saved (ok s) =
      index_and_delete io pack_ids g s saved (save_compacted io live s.new_locations saved)

  -- From the end of the first loop on.
  unfoldable pub after_gather :
      ℕ → Disk → Option ChunkIndex → List ℕ → Result CompactError Gathered → Compacted
  after_gather pack_target_size disk saved pack_ids (err e) = record {
    disk = disk;
    saved_index = saved;
    result = err e;
  }
  after_gather pack_target_size disk saved pack_ids (ok g) = after_rewrite pack_ids g saved (
      rewrite_packs H flush_io ((largest pack_ids + 1) % 2 ^ 64) pack_target_size disk
        g.live_chunks)

  -- With the ids of the packs on disk.
  unfoldable pub compact_ids : ℕ → Disk → Option ChunkIndex → List ℕ → Compacted
  compact_ids pack_target_size disk saved [] = record {
    disk = disk;
    saved_index = saved;
    result = ok (record {
      packs_before = 0;
      packs_after = 0;
      chunks_kept = 0;
      chunks_discarded = 0;
      bytes_freed = 0;
    });
  }
  compact_ids pack_target_size disk saved (first ∷ others) =
      after_gather pack_target_size disk saved (first ∷ others)
        (gather_packs H live disk (first ∷ others) nothing_gathered)

  -- `locked`: another process holds the lock.
  unfoldable pub compact_packs : Bool → ℕ → Disk → Option ChunkIndex → Compacted
  compact_packs locked pack_target_size disk saved =
      if locked
      then record { disk = disk; saved_index = saved; result = err repository_in_use }
      else if io.list_fails
      then record { disk = disk; saved_index = saved; result = err packs_unlisted }
      else compact_ids pack_target_size disk saved (list_pack_ids disk)
