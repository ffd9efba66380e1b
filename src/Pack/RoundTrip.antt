-- ===== src/Pack/RoundTrip.antt =====
-- What the writer puts into a pack, the reader gets back.
use backup_shield.Base.{
  ℕ, zero, suc, ◌+◌, ◌%◌, ◌^◌, ◌<◌, ◌≡◌, refl, ◌∙◌, true, some, List, [], ◌∷◌, ◌++◌, append_assoc,
  length, length-append, drop, take_append, drop_append, drop-drop, All, Bytes, arith,
  eq_bytes_refl, to_le_bytes, from_le_bytes, length-to_le_bytes, from-to_le_bytes,
}
use backup_shield.Base.Result.{ok}
use backup_shield.Base.Utf8.{is_utf8, is_utf8-ascii}
use backup_shield.Hash.{Hashes, compute_hash, length-compute_hash, compute_hash_ascii}
use backup_shield.Pack.Name.{pack_filename}
use backup_shield.Pack.Disk.{Disk, read_file}
use backup_shield.Pack.Format.{
  Chunk, Location, chunk_marker, stored_size, entry, entries, locations,
}
use backup_shield.Pack.Reader.{
  read_exact, read_marker, read_entry, read_chunk, list_entry, list_loop,
}
use native.Mathlib.Nat.{mod-eq_of_lt}

pub read_exact-append :
    (n : ℕ) (xs ys : Bytes) → length xs ≡ n → read_exact n (xs ++ ys) ≡ ok (xs, ys)
unfolding read_exact
read_exact-append n xs ys h =
    rw (← h, take_append xs ys, drop_append xs ys) (ground (arith, length-append xs ys))

stored_size_exact : (bytes : Bytes) → length bytes < 2 ^ 32 → stored_size bytes ≡ length bytes
unfolding stored_size
stored_size_exact bytes h = mod-eq_of_lt h

size_field : (bytes : Bytes) → from_le_bytes (to_le_bytes 4 (stored_size bytes)) ≡ stored_size bytes
unfolding stored_size
size_field bytes = from-to_le_bytes 4 (length bytes % 2 ^ 32) (omega arith)

module _ (H : Hashes) where
  -- A chunk that `store_chunk` would buffer: under the hash of its bytes, and below 4 GiB.
  abbrev pub IsChunk : Chunk → Type 0
  IsChunk (hash, bytes) = (hash ≡ compute_hash H bytes) × (length bytes < 2 ^ 32)

  pub length_of_hash : (hash bytes : Bytes) → IsChunk (hash, bytes) → length hash ≡ 64
  length_of_hash hash bytes h = rw (h.0) (length-compute_hash H bytes)

  pub utf8_of_hash : (hash bytes : Bytes) → IsChunk (hash, bytes) → is_utf8 hash ≡ true
  utf8_of_hash hash bytes h = rw (h.0) (is_utf8-ascii _ (compute_hash_ascii H bytes))

  read_entry-entry :
      (hash bytes rest : Bytes)
      → IsChunk (hash, bytes)
      → read_entry H (entry (hash, bytes) rest) hash ≡ ok bytes
  unfolding read_entry entry read_marker
  read_entry-entry hash bytes rest h =
      rw
        (
          read_exact-append 64 hash _ (length_of_hash hash bytes h),
          utf8_of_hash hash bytes h,
          eq_bytes_refl hash,
          read_exact-append 4 (to_le_bytes 4 (stored_size bytes)) _ (length-to_le_bytes 4 _),
          size_field bytes,
          stored_size_exact bytes h.1,
          read_exact-append (length bytes) bytes rest refl,
        )
        (rw (← h.0, eq_bytes_refl hash))

  -- The bytes of one entry, and what is left behind them.
  drop-entry :
      (hash bytes rest : Bytes)
      → IsChunk (hash, bytes)
      → drop (69 + length bytes) (entry (hash, bytes) rest) ≡ rest
  unfolding entry
  drop-entry hash bytes rest h =
      rw regroup (rw size_eq (drop_append (chunk_marker ∷ (hash ++ (size_bytes ++ bytes))) rest))
    where
      size_bytes : Bytes
      size_bytes = to_le_bytes 4 (stored_size bytes)

      regroup :
          chunk_marker ∷ (hash ++ (size_bytes ++ (bytes ++ rest)))
          ≡ (chunk_marker ∷ (hash ++ (size_bytes ++ bytes))) ++ rest
      regroup = simp append_assoc

      size_eq : 69 + length bytes ≡ length (chunk_marker ∷ (hash ++ (size_bytes ++ bytes)))
      size_eq = omega (
        arith,
        length-append hash (size_bytes ++ bytes),
        length-append size_bytes bytes,
        length-to_le_bytes 4 (stored_size bytes),
        length_of_hash hash bytes h,
      )

  entries-append :
      (buffer : List Chunk) (hash bytes tail : Bytes)
      → entries ((hash, bytes) ∷ buffer) ++ tail ≡ entry (hash, bytes) (entries buffer ++ tail)
  unfolding entry entries
  entries-append buffer hash bytes tail = simp append_assoc

  -- Each location of the list leads to its chunk of the buffer.
  abbrev pub Located : Disk → ℕ → List Location → List Chunk → Type 0
  Located disk pack_id [] [] = Unit
  Located disk pack_id [] (chunk ∷ buffer) = ⊥
  Located disk pack_id (loc ∷ locs) [] = ⊥
  Located disk pack_id ((hash, offset, size) ∷ locs) ((h, bytes) ∷ buffer) =
      (hash ≡ h)
      × (size ≡ length bytes)
      × (read_chunk H disk pack_id offset hash ≡ ok bytes)
      × Located disk pack_id locs buffer

  pub locations-Located :
      (disk : Disk) (pack_id : ℕ) (file : Bytes) (buffer : List Chunk) (offset : ℕ) (tail : Bytes)
      → read_file disk (pack_filename pack_id) ≡ some file
      → drop offset file ≡ entries buffer ++ tail
      → All IsChunk buffer
      → Located disk pack_id (locations offset buffer) buffer
  unfolding locations
  locations-Located disk pack_id file [] offset tail found at_offset h = tt
  locations-Located disk pack_id file ((hash, bytes) ∷ buffer) offset tail found at_offset h = (
    refl,
    stored_size_exact bytes h.0.1,
    (unfold read_chunk in rw found (rw (starts) (read_entry-entry hash bytes _ h.0))),
    locations-Located disk pack_id file buffer (offset + (69 + length bytes)) tail found
        (rw (← drop-drop offset (69 + length bytes) file, starts)
          (drop-entry hash bytes (entries buffer ++ tail) h.0))
        h.1,
  )
    where
      starts : drop offset file ≡ entry (hash, bytes) (entries buffer ++ tail)
      starts = at_offset ∙ entries-append buffer hash bytes tail

  -- One round of `list_chunks` over an entry.
  list_entry-entry :
      (offset : ℕ) (hash bytes rest : Bytes)
      → IsChunk (hash, bytes)
      → list_entry offset (entry (hash, bytes) rest)
        ≡ ok (some ((hash, offset, length bytes), rest))
  unfolding list_entry entry read_marker
  list_entry-entry offset hash bytes rest h = rw (
    read_exact-append 64 hash _ (length_of_hash hash bytes h),
    utf8_of_hash hash bytes h,
    read_exact-append 4 (to_le_bytes 4 (stored_size bytes)) _ (length-to_le_bytes 4 _),
    size_field bytes,
    stored_size_exact bytes h.1,
    drop_append bytes rest,
  )

  pub list_loop-entries :
      (rounds : ℕ) (buffer : List Chunk) (offset : ℕ) (tail : Bytes)
      → All IsChunk buffer
      → length buffer < rounds
      → list_loop rounds offset (entries buffer ++ tail) ≡ ok (locations offset buffer)
  unfolding list_loop
  list_loop-entries zero buffer offset tail h more = absurd (omega arith)
  list_loop-entries (suc rounds) [] offset tail h more =
      unfold entries list_entry read_marker locations in refl
  list_loop-entries (suc rounds) ((hash, bytes) ∷ buffer) offset tail h more =
      rw (entries-append buffer hash bytes tail) (
        rw (list_entry-entry offset hash bytes (entries buffer ++ tail) h.0, list_loop)
          (rw regroup (
            rw
              (list_loop-entries rounds buffer (offset + (69 + length bytes)) tail h.1
                (omega arith))
              (unfold locations in rw (stored_size_exact bytes h.0.1)))))
    where
      regroup : offset + 69 + length bytes ≡ offset + (69 + length bytes)
      regroup = omega arith
