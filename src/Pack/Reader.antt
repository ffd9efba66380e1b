-- ===== src/Pack/Reader.antt =====
-- `PackReader`: chunks read back from pack files, checked against their hashes.
pub mod Ids
pub mod Bound
use backup_shield.Base.{
  ℕ, zero, suc, ◌+◌, ◌-◌, Option, none, some, List, [], ◌∷◌, max, leb, ◌==◌, if◌then◌else◌, length,
  take, drop, Bytes, eq_bytes, from_le_bytes,
}
use backup_shield.Base.Result.{Result, ok, err, ensure, ok_or, ◌>>=◌, ◌>>◌}
use backup_shield.Base.Utf8.{is_utf8}
use backup_shield.Hash.{Hashes, compute_checksum, compute_hash}
use backup_shield.Pack.Name.{pack_filename, pack_id_of}
use backup_shield.Pack.Disk.{Disk, read_file, file_names}
use backup_shield.Pack.Format.{
  Location, pack_magic, chunk_marker, end_marker, hash_len, header_size, footer_size,
}

pub data PackError : Type 0 where
  no_file unexpected_eof invalid_chunk_marker invalid_encoding hash_mismatch : PackError
  data_corruption too_small checksum_mismatch invalid_magic : PackError

-- `read_exact`: the bytes read, and those behind them.
unfoldable pub read_exact : ℕ → Bytes → Result PackError (Bytes × Bytes)
read_exact n bytes =
    if leb n (length bytes) then ok (take n bytes, drop n bytes) else err unexpected_eof

-- Marker and hash of an entry, in front of the size field.
unfoldable pub read_marker : Bytes → Result PackError (ℕ × Bytes)
read_marker [] = err unexpected_eof
read_marker (marker ∷ rest) = ok (marker, rest)

module _ (H : Hashes) where
  -- `read_chunk` behind the seek.
  unfoldable pub read_entry : Bytes → Bytes → Result PackError Bytes
  read_entry at_offset expected_hash = do
    (marker, after_marker) ← read_marker at_offset
    ensure (marker == chunk_marker) invalid_chunk_marker
    (hash_buf, after_hash) ← read_exact hash_len after_marker
    ensure (is_utf8 hash_buf) invalid_encoding
    ensure (eq_bytes hash_buf expected_hash) hash_mismatch
    (size_buf, after_size) ← read_exact 4 after_hash
    (content, rest) ← read_exact (from_le_bytes size_buf) after_size
    ensure (eq_bytes (compute_hash H content) expected_hash) data_corruption
    ok content

  unfoldable pub read_chunk : Disk → ℕ → ℕ → Bytes → Result PackError Bytes
  read_chunk disk pack_id offset expected_hash = do
    file ← ok_or (read_file disk (pack_filename pack_id)) no_file
    read_entry (drop offset file) expected_hash

  unfoldable pub verify_file : Bytes → Result PackError (Unit {0})
  verify_file file_data = do
    ensure (leb (header_size + footer_size) (length file_data)) too_small
    ensure
        (eq_bytes (drop (length file_data - 32) file_data)
          (compute_checksum H (take (length file_data - 32) file_data)))
        checksum_mismatch
    ensure (eq_bytes (take 4 file_data) pack_magic) invalid_magic

  unfoldable pub verify_pack : Disk → ℕ → Result PackError (Unit {0})
  verify_pack disk pack_id = do
    file_data ← ok_or (read_file disk (pack_filename pack_id)) no_file
    verify_file file_data

-- One round of `list_chunks`: `none` at the end marker, or the location and the bytes after it.
unfoldable pub list_entry : ℕ → Bytes → Result PackError (Option (Location × Bytes))
list_entry offset bytes = do
  (marker, after_marker) ← read_marker bytes
  if marker == end_marker then ok none else do
    ensure (marker == chunk_marker) invalid_chunk_marker
    (hash_buf, after_hash) ← read_exact hash_len after_marker
    ensure (is_utf8 hash_buf) invalid_encoding
    (size_buf, after_size) ← read_exact 4 after_hash
    ok (some ((hash_buf, offset, from_le_bytes size_buf), drop (from_le_bytes size_buf) after_size))

-- The loop, for as many rounds as `rounds`; `stuck` is no error of the program.
pub data ListError : Type 0 where
  pack_error : PackError → ListError
  stuck : ListError

unfoldable pub list_loop : ℕ → ℕ → Bytes → Result ListError (List Location)
list_loop zero offset bytes = err stuck
list_loop (suc rounds) offset bytes = elim (list_entry offset bytes) [
  | err e ↦ err (pack_error e)
  | ok found ↦ elim found [
    | none ↦ ok []
    | some (loc, rest) ↦ do later ← list_loop rounds (loc.1 + 69 + loc.2) rest; ok (loc ∷ later)
  ]
]

-- Each round reads one byte at least, so the length of the file and one more round are enough.
unfoldable pub list_chunks : Disk → ℕ → Result ListError (List Location)
list_chunks disk pack_id = elim (read_file disk (pack_filename pack_id)) [
  | none ↦ err (pack_error no_file)
  | some file ↦ list_loop (suc (length file)) header_size (drop header_size file)
]

-- `pack_ids.sort()`
unfoldable pub insert_id : ℕ → List ℕ → List ℕ
insert_id id [] = id ∷ []
insert_id id (x ∷ rest) = if leb id x then id ∷ x ∷ rest else x ∷ insert_id id rest

unfoldable pub sort_ids : List ℕ → List ℕ
sort_ids [] = []
sort_ids (id ∷ rest) = insert_id id (sort_ids rest)

unfoldable pub ids_of : List Bytes → List ℕ
ids_of [] = []
ids_of (name ∷ names) = elim (pack_id_of name) [ none ↦ ids_of names | some id ↦ id ∷ ids_of names ]

-- The ids where the directory can be read; the callers say what they do where it cannot.
unfoldable pub list_pack_ids : Disk → List ℕ
list_pack_ids disk = sort_ids (ids_of (file_names disk))

unfoldable pub largest : List ℕ → ℕ
largest [] = 0
largest (id ∷ ids) = max id (largest ids)

unfoldable pub max_pack_id : Disk → ℕ
max_pack_id disk = largest (list_pack_ids disk)
