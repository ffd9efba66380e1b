-- ===== src/Repository/Tests.antt =====
-- Runs of the repository.
use backup_shield.Base.{◌≡◌, refl, false, none, some, [], ◌∷◌, Bytes, arith, eq_bytes}
use backup_shield.Base.Result.{ok, err}
use backup_shield.Hash.{compute_hash}
use backup_shield.Hash.Toy.{toy}
use backup_shield.Pack.Name.{pack_filename, pack_id_of, temp_filename}
use backup_shield.Pack.Disk.{read_file, file_names, write_file, rename_file, remove_file}
use backup_shield.Pack.Format.{pack_body, locations}
use backup_shield.Pack.Writer.{
  PackWriter, Io, new_writer, add_chunk, flush, find_pending, get_pending,
}
use backup_shield.Repository.{
  Repository, store_chunk, read_chunk, flush_pending, write_repaired_chunk, pending,
  repaired_flushed, pack_failed, place, relocate, save_index, open_repository, store_new, enter_at,
  new_meta, pending_flushed,
}
use backup_shield.Pack.Reader.{
  max_pack_id, list_pack_ids, largest, sort_ids, insert_id, ids_of, hash_mismatch,
}
use backup_shield.Repository.Repair.{read-write_repaired_chunk}
use backup_shield.Repository.Replaced.{repaired_chunk_lost}
use backup_shield.Repository.Index.{ChunkMeta, new_index, get, upsert, contains, modify}
use backup_shield.Repository.Sound.{IsSound}
use backup_shield.Repository.Operations.{
  SoundRepository, IsSound-writer, store_chunk-SoundRepository, flush_pending-SoundRepository,
}
use backup_shield.Repository.Read.{read_chunk_total, read-store_chunk}
use backup_shield.Repository.Reopen.{reopen-SoundRepository, saved}

abbrev works : Io
works = record { fails = λ step. false; written = 0; list_fails = false }

abbrev writer : PackWriter
writer = new_writer 1 1000

abbrev empty : Repository
empty = record {
  index = new_index;
  pack_writer = some writer;
  disk = [];
  saved_index = some new_index;
}

abbrev seven : Bytes
seven = 7 ∷ 8 ∷ []

abbrev seven_hash : Bytes
seven_hash = compute_hash toy seven

empty-IsSound : IsSound toy new_index [] writer
unfolding new_writer get
empty-IsSound = record { chunks = tt; id_pos = omega arith; entries = λ h meta found. cc }

-- The repository with one chunk pending.
abbrev one : Repository
one = (store_chunk toy works empty seven).0

one-SoundRepository : SoundRepository toy one
unfolding new_writer
one-SoundRepository =
    store_chunk-SoundRepository toy works empty writer seven refl (omega arith) (omega arith)
      empty-IsSound

abbrev seven_meta : ChunkMeta
seven_meta = record {
  hash = seven_hash;
  size = 2;
  compressed_size = 2;
  refs = 1;
  parity_group = 0;
  pack_id = 0;
  pack_offset = 0;
}

one_found : get one.index seven_hash ≡ some seven_meta
unfolding store_chunk store_new enter_at new_meta upsert contains get new_writer add_chunk
    compute_hash eq_bytes
one_found = refl

stored : (store_chunk toy works empty seven).1 ≡ ok seven_hash
unfolding store_chunk store_new enter_at new_meta upsert contains get new_writer add_chunk
    compute_hash eq_bytes
stored = refl

read-store_chunk_example :
    (seven_hash ≡ compute_hash toy seven)
    × (b : Bytes) × (read_chunk toy one seven_hash ≡ ok b)
    × (compute_hash toy b ≡ compute_hash toy seven)
unfolding new_writer
read-store_chunk_example =
    read-store_chunk toy works empty writer seven seven_hash refl (omega arith) (omega arith)
      empty-IsSound stored

store_chunk-SoundRepository_example : SoundRepository toy one
unfolding new_writer
store_chunk-SoundRepository_example =
    store_chunk-SoundRepository toy works empty writer seven refl (omega arith) (omega arith)
      empty-IsSound

read_chunk_total_example :
    (bytes : Bytes) × (read_chunk toy one seven_hash ≡ ok bytes)
    × (compute_hash toy bytes ≡ seven_hash)
read_chunk_total_example =
    read_chunk_total toy one seven_hash seven_meta one-SoundRepository one_found

abbrev one_writer : PackWriter
one_writer = (add_chunk writer seven_hash seven).0

one_has_writer : one.pack_writer ≡ some one_writer
unfolding store_chunk store_new enter_at new_meta upsert contains get new_writer add_chunk
    compute_hash eq_bytes
one_has_writer = refl

one-IsSound : IsSound toy one.index one.disk one_writer
one-IsSound = IsSound-writer toy one one_writer one_has_writer one-SoundRepository

flush_pending-SoundRepository_example : SoundRepository toy (flush_pending toy works one).0
unfolding new_writer add_chunk
flush_pending-SoundRepository_example =
    flush_pending-SoundRepository toy works one one_writer one_has_writer (omega arith) one-IsSound

one_flushed : (flush_pending toy works one).1 ≡ ok tt
unfolding flush_pending pending_flushed flush store_chunk store_new enter_at new_meta upsert
    contains get new_writer add_chunk compute_hash eq_bytes pack_filename temp_filename write_file
    read_file pack_body locations
one_flushed = refl

one_flushed_max : max_pack_id (flush_pending toy works one).0.disk ≡ 1
unfolding flush_pending pending_flushed flush store_chunk store_new enter_at new_meta upsert
    contains get new_writer add_chunk compute_hash eq_bytes pack_filename temp_filename write_file
    read_file pack_body locations max_pack_id list_pack_ids largest sort_ids insert_id ids_of
    file_names pack_id_of rename_file remove_file
one_flushed_max = refl

reopen-SoundRepository_example :
    (opened : Repository) × (open_repository
        (some 1000)
        false
        false
        (saved toy works one).disk
        (saved toy works one).saved_index
      ≡ ok opened)
    × (opened.index ≡ (flush_pending toy works one).0.index)
    × SoundRepository toy opened
unfolding new_writer add_chunk
reopen-SoundRepository_example =
    reopen-SoundRepository toy works one one_writer one_has_writer (omega arith) one-IsSound
      one_flushed 1000 (omega (arith, one_flushed_max))

abbrev nine : Bytes
nine = 9 ∷ []

abbrev nine_hash : Bytes
nine_hash = compute_hash toy nine

-- Pack 1 is damaged; a chunk waits for pack 2.
abbrev torn_writer : PackWriter
torn_writer = record {
  target_size = 1000;
  next_pack_id = 2;
  buffer = (nine_hash, nine) ∷ [];
  buffer_bytes = 70;
}

abbrev torn_meta : ChunkMeta
torn_meta = record seven_meta { pack_id = 1; pack_offset = 14 }

abbrev torn : Repository
torn = record {
  index = record { entries = (seven_hash, torn_meta) ∷ [] };
  pack_writer = some torn_writer;
  disk = (pack_filename 1, 0 ∷ []) ∷ [];
  saved_index = none;
}

torn_found : get torn.index seven_hash ≡ some torn_meta
unfolding get compute_hash eq_bytes
torn_found = refl

torn_not_pending : pending torn seven_hash ≡ none
unfolding pending get_pending find_pending compute_hash eq_bytes
torn_not_pending = refl

torn_absent : find_pending seven_hash torn_writer.buffer ≡ none
unfolding find_pending compute_hash eq_bytes
torn_absent = refl

torn_max : max_pack_id torn.disk ≡ 1
unfolding max_pack_id list_pack_ids largest sort_ids insert_id ids_of file_names pack_id_of
    pack_filename eq_bytes
torn_max = refl

torn_repaired : (write_repaired_chunk toy works false torn seven_hash seven).1 ≡ ok tt
unfolding write_repaired_chunk repaired_flushed place relocate save_index flush_pending
    pending_flushed flush get modify new_writer add_chunk compute_hash eq_bytes pack_filename
    temp_filename write_file read_file pack_body locations max_pack_id list_pack_ids largest
    sort_ids insert_id ids_of file_names pack_id_of
torn_repaired = refl

torn_flushed :
    (flush_pending toy works (write_repaired_chunk toy works false torn seven_hash seven).0).1
    ≡ ok tt
unfolding write_repaired_chunk repaired_flushed place relocate save_index flush_pending
    pending_flushed flush get modify new_writer add_chunk compute_hash eq_bytes pack_filename
    temp_filename write_file read_file pack_body locations max_pack_id list_pack_ids largest
    sort_ids insert_id ids_of file_names pack_id_of
torn_flushed = refl

read-write_repaired_chunk_example :
    (read_chunk toy (write_repaired_chunk toy works false torn seven_hash seven).0 seven_hash
      ≡ ok seven)
    × (compute_hash toy seven ≡ seven_hash)
read-write_repaired_chunk_example =
    read-write_repaired_chunk toy works false torn seven_hash seven torn_meta
      (rw torn_max (omega arith)) (omega arith) torn_found torn_not_pending torn_repaired

repaired_chunk_lost_example :
    read_chunk toy
      (flush_pending toy works (write_repaired_chunk toy works false torn seven_hash seven).0).0
      seven_hash
    ≡ err (pack_failed hash_mismatch)
repaired_chunk_lost_example =
    repaired_chunk_lost toy works works false torn torn_writer nine_hash nine seven_hash seven []
      torn_meta refl (rw torn_max refl) (omega arith) refl ((refl, omega arith), tt) torn_absent
      torn_found torn_repaired torn_flushed

nine_repaired : (write_repaired_chunk toy works false torn nine_hash nine).1 ≡ ok tt
unfolding write_repaired_chunk repaired_flushed place relocate save_index flush_pending
    pending_flushed flush get modify new_writer add_chunk compute_hash eq_bytes pack_filename
    temp_filename write_file read_file pack_body locations max_pack_id list_pack_ids largest
    sort_ids insert_id ids_of file_names pack_id_of
nine_repaired = refl

nine_differs : eq_bytes nine_hash seven_hash ≡ false
unfolding compute_hash eq_bytes
nine_differs = refl
