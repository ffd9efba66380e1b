-- ===== src/Pack/Format.antt =====
-- The binary format of a pack file, and what the writer and the reader share.
use backup_shield.Base.{ℕ, ◌+◌, ◌%◌, ◌^◌, List, [], ◌∷◌, ◌++◌, length, Bytes, to_le_bytes}

abbrev pub pack_magic : Bytes
pack_magic = b'B' ∷ b'K' ∷ b'S' ∷ b'P' ∷ []

abbrev pub pack_version : ℕ
pack_version = 1

abbrev pub default_pack_size : ℕ
default_pack_size = 20971520

abbrev pub chunk_marker : ℕ
chunk_marker = 0x01

abbrev pub end_marker : ℕ
end_marker = 0x00

abbrev pub hash_len : ℕ
hash_len = 64

abbrev pub header_size : ℕ
header_size = 14

-- 1 + HASH_LEN + 4
abbrev pub chunk_overhead : ℕ
chunk_overhead = 69

abbrev pub footer_size : ℕ
footer_size = 33

-- A buffered chunk: the hash in hexadecimal, and the bytes.
abbrev pub Chunk : Type 0
Chunk = Bytes × Bytes

-- A chunk in a pack: hash, offset and stored size.
abbrev pub Location : Type 0
Location = Bytes × ℕ × ℕ

unfoldable pub header : ℕ → Bytes
header pack_id = pack_magic ++ (to_le_bytes 2 pack_version ++ to_le_bytes 8 pack_id)

-- `data.len() as u32`
unfoldable pub stored_size : Bytes → ℕ
stored_size bytes = length bytes % 2 ^ 32

-- The four writes for one chunk, and whatever follows them.
unfoldable pub entry : Chunk → Bytes → Bytes
entry (hash, bytes) rest =
    chunk_marker ∷ (hash ++ (to_le_bytes 4 (stored_size bytes) ++ (bytes ++ rest)))

-- The entries, and the end marker behind them.
unfoldable pub entries : List Chunk → Bytes
unfolding entry
entries [] = end_marker ∷ []
entries (chunk ∷ buffer) = entry chunk (entries buffer)

-- All that stands before the checksum.
unfoldable pub pack_body : ℕ → List Chunk → Bytes
pack_body pack_id buffer = header pack_id ++ entries buffer

-- `chunk_locations`, from the offset at which the first chunk starts
unfoldable pub locations : ℕ → List Chunk → List Location
locations current_offset [] = []
locations current_offset ((hash, bytes) ∷ buffer) =
    (hash, current_offset, stored_size bytes)
    ∷ locations (current_offset + (chunk_overhead + length bytes)) buffer

-- The bytes that a buffer takes in a pack.
unfoldable pub buffered : List Chunk → ℕ
buffered [] = 0
buffered ((hash, bytes) ∷ buffer) = chunk_overhead + length bytes + buffered buffer
