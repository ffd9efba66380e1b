-- ===== src/Pack/Writer.antt =====
-- `PackWriter`: chunks gathered in memory and written to pack files.
pub mod Atomic
use backup_shield.Base.{
  ℕ, ◌+◌, ◌%◌, ◌^◌, Bool, Option, none, some, List, [], ◌∷◌, ◌++◌, leb, if◌then◌else◌, length, take,
  Bytes, eq_bytes,
}
use backup_shield.Base.Result.{Result, ok, err}
use backup_shield.Hash.{Hashes, compute_checksum}
use backup_shield.Pack.Name.{pack_filename, temp_filename}
use backup_shield.Pack.Disk.{Disk, read_file, write_file, rename_file}
use backup_shield.Pack.Format.{
  Chunk, Location, chunk_overhead, header_size, footer_size, pack_body, locations,
}

-- The paths are those of one data directory, so the repository's path is left out.
pub record PackWriter : Type 0 where
  pub target_size : ℕ
  pub next_pack_id : ℕ
  pub buffer : List Chunk
  pub buffer_bytes : ℕ

pub record FlushResult : Type 0 where
  pub pack_id : ℕ
  pub pack_file : Bytes
  pub chunk_count : ℕ
  pub chunk_locations : List Location

-- The calls of the file system that one flush makes, in their order.
pub data FlushStep : Type 0 where
  make_dir create_temp write_body read_back append_checksum rename_temp : FlushStep

-- How the file system answers: the calls that fail, how many bytes a failed write left, and
-- whether the data directory cannot be listed.
pub record Io : Type 0 where
  pub fails : FlushStep → Bool
  pub written : ℕ
  pub list_fails : Bool

unfoldable pub new_writer : ℕ → ℕ → PackWriter
new_writer next_pack_id target_size = record {
  target_size = target_size;
  next_pack_id = next_pack_id;
  buffer = [];
  buffer_bytes = 0;
}

-- Returns whether the caller should flush.
unfoldable pub add_chunk : PackWriter → Bytes → Bytes → PackWriter × Bool
add_chunk w hash bytes =
    let entry_size = chunk_overhead + length bytes in
    let w' = record w {
      buffer = w.buffer ++ (hash, bytes) ∷ [];
      buffer_bytes = w.buffer_bytes + entry_size;
    } in
    let total_estimated = header_size + w'.buffer_bytes + footer_size in
    (w', leb w.target_size total_estimated)

-- What a flush leaves: the writer, the files and the result.
pub record Flushed : Type 0 where
  pub writer : PackWriter
  pub disk : Disk
  pub result : Result FlushStep (Option FlushResult)

abbrev failed : PackWriter → Disk → FlushStep → Flushed
failed w disk step = record { writer = w; disk = disk; result = err step }

module _ (H : Hashes) (io : Io) where
  -- The rename of the complete temporary file, and the end of `flush`.
  unfoldable pub flush_rename : PackWriter → ℕ → Disk → Flushed
  flush_rename w pack_id disk = if io.fails rename_temp then failed w disk rename_temp else record {
    writer = record w { buffer = []; buffer_bytes = 0 };
    disk = rename_file disk (temp_filename pack_id) (pack_filename pack_id);
    result = ok (
        some (record {
          pack_id = pack_id;
          pack_file = pack_filename pack_id;
          chunk_count = length w.buffer;
          chunk_locations = locations header_size w.buffer;
        }));
  }

  -- The checksum of the bytes that were read back is appended to the temporary file.
  unfoldable pub flush_checksum : PackWriter → ℕ → Disk → Bytes → Flushed
  unfolding flush_rename
  flush_checksum w pack_id disk file_data =
      let tmp = temp_filename pack_id in
      let checksum = compute_checksum H file_data in
      if io.fails append_checksum
      then failed w (write_file disk tmp (file_data ++ take io.written checksum)) append_checksum
      else flush_rename w pack_id (write_file disk tmp (file_data ++ checksum))

  unfoldable pub flush_read_back : PackWriter → ℕ → Disk → Flushed
  unfolding flush_checksum
  flush_read_back w pack_id disk =
      if io.fails read_back
      then failed w disk read_back
      else elim (read_file disk (temp_filename pack_id)) [
        | none ↦ failed w disk read_back
        | some file_data ↦ flush_checksum w pack_id disk file_data
      ]

  -- From the creation of the temporary file to the drop of its writer.
  unfoldable pub flush_body : PackWriter → ℕ → Disk → Flushed
  unfolding flush_read_back
  flush_body w pack_id disk =
      let tmp = temp_filename pack_id in
      let body = pack_body pack_id w.buffer in
      if io.fails create_temp
      then failed w disk create_temp
      else if io.fails write_body
      then failed w (write_file disk tmp (take io.written body)) write_body
      else flush_read_back w pack_id (write_file disk tmp body)

  unfoldable pub flush : PackWriter → Disk → Flushed
  unfolding flush_body
  flush w disk =
      if leb (length w.buffer) 0
      then record { writer = w; disk = disk; result = ok none }
      else let pack_id = w.next_pack_id in
        let w' = record w { next_pack_id = (pack_id + 1) % 2 ^ 64 } in
        if io.fails make_dir then failed w' disk make_dir else flush_body w' pack_id disk

  unfoldable pub finish : PackWriter → Disk → Flushed
  unfolding flush
  finish = flush

unfoldable pub pending_count : PackWriter → ℕ
pending_count w = length w.buffer

unfoldable pub pending_bytes : PackWriter → ℕ
pending_bytes w = w.buffer_bytes

unfoldable pub find_pending : Bytes → List Chunk → Option Bytes
find_pending hash [] = none
find_pending hash ((h, bytes) ∷ buffer) =
    if eq_bytes h hash then some bytes else find_pending hash buffer

unfoldable pub get_pending : PackWriter → Bytes → Option Bytes
unfolding find_pending
get_pending w hash = find_pending hash w.buffer
