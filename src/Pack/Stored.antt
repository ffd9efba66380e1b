-- ===== src/Pack/Stored.antt =====
-- After a flush: the new pack is read, listed and verified, and the other packs are as they were.
use backup_shield.Base.{
  ℕ, suc, ◌+◌, ◌-◌, ◌^◌, ◌<◌, ◌≡◌, ◌≢◌, refl, sym, subst, true, false, some, List, [], ◌∷◌, ◌++◌,
  append_assoc, length, length-append, drop, take_append, drop_append, All, Bytes, arith, eq_bytes,
  eq_bytes_refl, eq_of_eq_bytes, leb, to_le_bytes, length-to_le_bytes, Bool-cases, inl, inr,
}
use backup_shield.Base.Result.{ok}
use backup_shield.Hash.{Hashes, compute_checksum, length-compute_checksum}
use backup_shield.Pack.Name.{pack_filename}
use backup_shield.Pack.Name.Distinct.{pack_filename-injective, temp_ne_pack}
use backup_shield.Pack.Disk.{Disk, read_file}
use backup_shield.Pack.Format.{Chunk, pack_magic, header, header_size, entry, entries, pack_body}
use backup_shield.Pack.Writer.{PackWriter, FlushResult, Io, flush}
use backup_shield.Pack.Writer.Atomic.{Outcome, Written, flush-Outcome}
use backup_shield.Pack.Reader.{verify_file, verify_pack, list_chunks}
use backup_shield.Pack.RoundTrip.{IsChunk, Located, locations-Located, list_loop-entries}

length-header : (id : ℕ) → length (header id) ≡ 14
unfolding header
length-header id = omega (
  arith,
  length-append pack_magic (to_le_bytes 2 1 ++ to_le_bytes 8 id),
  length-append (to_le_bytes 2 1) (to_le_bytes 8 id),
  length-to_le_bytes 2 1,
  length-to_le_bytes 8 id,
)

length-entries : (buffer : List Chunk) → length buffer < length (entries buffer)
unfolding entries entry
length-entries [] = omega arith
length-entries ((hash, bytes) ∷ buffer) = omega (
  arith,
  length-entries buffer,
  length-append hash (to_le_bytes 4 _ ++ (bytes ++ entries buffer)),
  length-append (to_le_bytes 4 _) (bytes ++ entries buffer),
  length-append bytes (entries buffer),
)

module _ (H : Hashes) where
  pub drop-pack_body :
      (id : ℕ) (buffer : List Chunk) (tail : Bytes)
      → drop header_size (pack_body id buffer ++ tail) ≡ entries buffer ++ tail
  unfolding pack_body
  drop-pack_body id buffer tail =
      rw (append_assoc (header id) (entries buffer) tail)
        (rw (← length-header id) (drop_append (header id) (entries buffer ++ tail)))

  verify_file-pack_body :
      (id : ℕ) (buffer : List Chunk)
      → verify_file H (pack_body id buffer ++ compute_checksum H (pack_body id buffer)) ≡ ok tt
  unfolding verify_file
  verify_file-pack_body id buffer = rw cut (
      rw (drop_append body checksum, take_append body checksum, eq_bytes_refl checksum, long_enough)
        (unfold pack_body header eq_bytes in refl))
    where
      body : Bytes
      body = pack_body id buffer

      checksum : Bytes
      checksum = compute_checksum H body

      size : length body ≡ 14 + length (entries buffer)
      size =
          unfold pack_body in
          omega (arith, length-append (header id) (entries buffer), length-header id)

      cut : length (body ++ checksum) - 32 ≡ length body
      cut = omega (arith, length-append body checksum, length-compute_checksum H body)

      long_enough : leb 47 (length (body ++ checksum)) ≡ true
      long_enough = ground (
        arith,
        length-append body checksum,
        length-compute_checksum H body,
        size,
        length-entries buffer,
      )

  module _ (io : Io) (w : PackWriter) (disk : Disk) (r : FlushResult)
      (fits : w.next_pack_id < 2 ^ 64) (flushed : (flush H io w disk).result ≡ ok (some r)) where
    abbrev after : Disk
    after = (flush H io w disk).disk

    abbrev content : Bytes
    content =
        pack_body w.next_pack_id w.buffer ++ compute_checksum H (pack_body w.next_pack_id w.buffer)

    written : Written H w disk (flush H io w disk) r
    written =
        subst (λ res. Outcome H w disk (flush H io w disk) res) flushed (flush-Outcome H io w disk)

    new_file : read_file after (pack_filename r.pack_id) ≡ some content
    new_file =
        rw (written.pack_id, written.files (pack_filename w.next_pack_id))
          (rw (eq_bytes_refl (pack_filename w.next_pack_id)))

    -- After a flush that reports a pack, for a pack id below 2^64 and a buffer of chunks under
    -- their own hashes, each below 4 GiB: `read_chunk` returns for every place that the flush
    -- reports the bytes of the buffered chunk at that position, under its hash, and the reported
    -- size is their length.
    pub read_chunk-flush :
        All (IsChunk H) w.buffer → Located H after r.pack_id r.chunk_locations w.buffer
    read_chunk-flush h = rw (written.chunk_locations) (
        locations-Located H after r.pack_id content w.buffer header_size
          (compute_checksum H (pack_body w.next_pack_id w.buffer)) new_file
          (drop-pack_body w.next_pack_id w.buffer
            (compute_checksum H (pack_body w.next_pack_id w.buffer)))
          h)

    -- After a flush that reports a pack, for a pack id below 2^64 and a buffer of chunks under
    -- their own hashes, each below 4 GiB: `list_chunks` succeeds on the new pack and lists
    -- exactly the places that the flush reports, in their order. The rounds that its loop is
    -- given are enough.
    pub list_chunks-flush :
        All (IsChunk H) w.buffer → list_chunks after r.pack_id ≡ ok r.chunk_locations
    unfolding list_chunks
    list_chunks-flush h =
        rw (new_file, list_chunks)
          (rw
            (
              written.chunk_locations,
              drop-pack_body w.next_pack_id w.buffer
                  (compute_checksum H (pack_body w.next_pack_id w.buffer)),
            )
            (list_loop-entries H _ w.buffer header_size _ h room))
      where
        room : length w.buffer < suc (length content)
        room =
            unfold pack_body in
            omega (
              arith,
              length-entries w.buffer,
              length-append (header w.next_pack_id) (entries w.buffer),
              length-append (header w.next_pack_id ++ entries w.buffer)
                  (compute_checksum H (header w.next_pack_id ++ entries w.buffer)),
            )

    -- After a flush that reports a pack, with an id below 2^64, `verify_pack` accepts the new
    -- pack.
    pub verify_pack-flush : verify_pack H after r.pack_id ≡ ok tt
    unfolding verify_pack
    verify_pack-flush = rw new_file (verify_file-pack_body w.next_pack_id w.buffer)

    -- A flush that reports a pack, with an id below 2^64, leaves the file of every other pack id
    -- below 2^64 as it was.
    pub other_packs-flush :
        (id : ℕ)
        → id < 2 ^ 64
        → id ≢ w.next_pack_id
        → read_file after (pack_filename id) ≡ read_file disk (pack_filename id)
    other_packs-flush id small other =
        rw (written.files (pack_filename id))
          (rw (other_name, temp_ne_pack w.next_pack_id id small))
      where
        other_name : eq_bytes (pack_filename w.next_pack_id) (pack_filename id) ≡ false
        other_name =
            elim (Bool-cases (eq_bytes (pack_filename w.next_pack_id) (pack_filename id))) [
              | inl e ↦ absurd (
                  other (
                    sym (
                      pack_filename-injective w.next_pack_id id fits small (eq_of_eq_bytes _ _ e))))
              | inr e ↦ e
            ]
