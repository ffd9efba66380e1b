-- ===== src/Repository/Replaced.antt =====
-- A repaired chunk whose pack id the repository's own writer takes again.
use backup_shield.Base.{
  ℕ, ◌+◌, ◌^◌, ◌<◌, ◌≡◌, ◌==◌, refl, sym, ap, Bool, ◌∙◌, subst, false, Option, none, some, List,
  ◌∷◌, ◌++◌, length, append_assoc, Bytes, eq_bytes, eq_bytes_refl, All, arith, Bool-cases, inl, inr,
  to_le_bytes,
}
use backup_shield.Base.Result.{Result, ok, err}
use backup_shield.Hash.{Hashes, compute_checksum}
use backup_shield.Pack.Name.{pack_filename}
use backup_shield.Pack.Disk.{Disk, read_file}
use backup_shield.Pack.Format.{
  Chunk, pack_body, entry, entries, header_size, stored_size, chunk_marker,
}
use backup_shield.Pack.Writer.{
  PackWriter, FlushResult, FlushStep, Io, find_pending, get_pending, flush,
}
use backup_shield.Pack.Writer.Atomic.{Outcome, Written, flush-Outcome}
use backup_shield.Pack.Reader as Reader
use backup_shield.Pack.Reader.{max_pack_id, read_entry, read_marker, read_exact, hash_mismatch}
use backup_shield.Pack.RoundTrip.{IsChunk, read_exact-append, length_of_hash, utf8_of_hash}
use backup_shield.Pack.Stored.{drop-pack_body, read_chunk-flush}
use backup_shield.Repository.{
  Repository, pack_failed, place, pending, read_stored, read_chunk, write_repaired_chunk,
  flush_pending, pending_flushed,
}
use backup_shield.Repository.Index.{ChunkMeta, get, get-modify}
use backup_shield.Repository.Relocate.{get-relocate, find_pending-unplaced}
use backup_shield.Repository.Repair.{written_repaired}

pos_ne_zero : (n : ℕ) → 0 < n → (n == 0) ≡ false
pos_ne_zero n h = ground arith

module _ (H : Hashes) where
  -- A chunk under another hash than the one that is looked for.
  read_entry-other :
      (hash bytes rest other : Bytes)
      → IsChunk H (hash, bytes)
      → eq_bytes hash other ≡ false
      → read_entry H (chunk_marker ∷ (hash ++ rest)) other ≡ err hash_mismatch
  unfolding read_entry read_marker
  read_entry-other hash bytes rest other c differ =
      rw
        (
          read_exact-append 64 hash rest (length_of_hash H hash bytes c),
          utf8_of_hash H hash bytes c,
          differ,
        )
        refl

  -- The first chunk of a pack, under another hash.
  read_chunk-other :
      (disk : Disk) (id : ℕ) (hash bytes other : Bytes) (later : List Chunk) (tail : Bytes)
      → read_file disk (pack_filename id) ≡ some (pack_body id ((hash, bytes) ∷ later) ++ tail)
      → IsChunk H (hash, bytes)
      → eq_bytes hash other ≡ false
      → Reader.read_chunk H disk id header_size other ≡ err hash_mismatch
  unfolding Reader.read_chunk entries entry
  read_chunk-other disk id hash bytes other later tail found c differ = rw found (
      rw (drop-pack_body H id ((hash, bytes) ∷ later) tail) (
        rw (append_assoc hash (to_le_bytes 4 (stored_size bytes) ++ (bytes ++ entries later)) tail)
          (read_entry-other hash bytes _ other c differ)))

  -- The entry of `other` points to the start of the pack that the writer is to write.
  module _ (io : Io) (repo : Repository) (w : PackWriter) (hash bytes other : Bytes)
      (later : List Chunk) (meta : ChunkMeta) (p : repo.pack_writer ≡ some w)
      (is_buffer : w.buffer ≡ (hash, bytes) ∷ later) (chunks : All (IsChunk H) w.buffer)
      (fits : w.next_pack_id < 2 ^ 64) (pos : 0 < w.next_pack_id)
      (absent : find_pending other w.buffer ≡ none) (found : get repo.index other ≡ some meta)
      (at_id : meta.pack_id ≡ w.next_pack_id) (at_start : meta.pack_offset ≡ header_size) where
    first_differs : eq_bytes hash other ≡ false
    unfolding find_pending
    first_differs = elim (Bool-cases (eq_bytes hash other)) [
      | inl same ↦
          let first : find_pending other ((hash, bytes) ∷ later) ≡ none =
            subst (λ t. find_pending other t ≡ none) is_buffer absent in
          absurd (ground (arith, first, same))
      | inr differ ↦ differ
    ]

    first-IsChunk : IsChunk H (hash, bytes)
    first-IsChunk = (subst (All (IsChunk H)) is_buffer chunks).0

    read_stored-other :
        (r : FlushResult)
        → Written H w repo.disk (flush H io w repo.disk) r
        → read_stored H
            (pending_flushed H io repo (flush H io w repo.disk) (ok (some r))).0
            other
            meta
          ≡ err (pack_failed hash_mismatch)
    unfolding pending_flushed read_stored
    read_stored-other r k =
        let g = flush H io w repo.disk in
        let sum = compute_checksum H (pack_body w.next_pack_id w.buffer) in
        let file : read_file g.disk (pack_filename w.next_pack_id)
            ≡ some (pack_body w.next_pack_id ((hash, bytes) ∷ later) ++ sum) =
          k.files (pack_filename w.next_pack_id)
          ∙ rw (eq_bytes_refl (pack_filename w.next_pack_id))
              (ap (λ b. some (pack_body w.next_pack_id b ++ sum)) is_buffer) in
        let failed : Reader.read_chunk H g.disk w.next_pack_id header_size other
            ≡ err hash_mismatch =
          read_chunk-other g.disk w.next_pack_id hash bytes other later sum file first-IsChunk
            first_differs in
        rw (at_id, at_start) (rw (failed, pos_ne_zero w.next_pack_id pos) refl)

    after_flush :
        (res : Result FlushStep (Option FlushResult))
        → (flush H io w repo.disk).result ≡ res
        → (pending_flushed H io repo (flush H io w repo.disk) res).1 ≡ ok tt
        → read_chunk H (pending_flushed H io repo (flush H io w repo.disk) res).0 other
          ≡ err (pack_failed hash_mismatch)
    unfolding pending_flushed read_chunk
    after_flush (err step) e done = cc
    after_flush (ok none) e done =
        let (empty, same_writer, same_disk) =
          subst (Outcome H w repo.disk (flush H io w repo.disk)) e
            (flush-Outcome H io w repo.disk) in
        absurd (cc)
    after_flush (ok (some r)) e done =
        let k : Written H w repo.disk (flush H io w repo.disk) r =
          subst (Outcome H w repo.disk (flush H io w repo.disk)) e
            (flush-Outcome H io w repo.disk) in
        let g = flush H io w repo.disk in
        let after = (pending_flushed H io repo g (ok (some r))).0 in
        let nothing_left : pending after other ≡ none =
          unfold pending get_pending find_pending in rw k.buffer refl in
        let kept : get after.index other ≡ some meta =
          get-relocate r.pack_id r.chunk_locations repo.index other
          ∙ rw found (
              ap some (
                find_pending-unplaced H g.disk r.pack_id other r.chunk_locations w.buffer meta
                  (read_chunk-flush H io w repo.disk r fits e chunks) absent)) in
        rw (nothing_left, kept, read_chunk) (read_stored-other r k)

    pub flush_pending-other :
        (flush_pending H io repo).1 ≡ ok tt
        → read_chunk H (flush_pending H io repo).0 other ≡ err (pack_failed hash_mismatch)
    unfolding flush_pending pending_flushed
    flush_pending-other = rw (p, flush_pending) (after_flush (flush H io w repo.disk).result refl)

  -- Let the next pack id of the repository's writer be the one behind the largest on disk, as it
  -- is after `open`, and below 2^64; let the writer hold pending chunks under their own hashes,
  -- not the repaired one, whose hash is in the index. If `write_repaired_chunk` succeeds and then
  -- `flush_pending` succeeds, `read_chunk` of the repaired hash fails with a hash mismatch.
  pub repaired_chunk_lost :
      (io later_io : Io) (save_fails : Bool) (repo : Repository) (w : PackWriter)
      (hash bytes repaired_hash repaired_bytes : Bytes) (later : List Chunk) (meta : ChunkMeta)
      → repo.pack_writer ≡ some w
      → w.next_pack_id ≡ max_pack_id repo.disk + 1
      → w.next_pack_id < 2 ^ 64
      → w.buffer ≡ (hash, bytes) ∷ later
      → All (IsChunk H) w.buffer
      → find_pending repaired_hash w.buffer ≡ none
      → get repo.index repaired_hash ≡ some meta
      → (write_repaired_chunk H io save_fails repo repaired_hash repaired_bytes).1 ≡ ok tt
      → (flush_pending H later_io
          (write_repaired_chunk H io save_fails repo repaired_hash repaired_bytes).0).1
        ≡ ok tt
      → read_chunk H
          (flush_pending H later_io
            (write_repaired_chunk H io save_fails repo repaired_hash repaired_bytes).0).0
          repaired_hash
        ≡ err (pack_failed hash_mismatch)
  unfolding place
  repaired_chunk_lost io later_io save_fails repo w hash bytes repaired_hash repaired_bytes later
        meta p same_id fits is_buffer chunks absent found done flushed =
      let (hashed, r, e, is_repaired) =
        written_repaired H io repo repaired_hash repaired_bytes save_fails
          (omega (arith, same_id, fits)) done in
      let after = (write_repaired_chunk H io save_fails repo repaired_hash repaired_bytes).0 in
      let placed = place (max_pack_id repo.disk + 1) header_size (length repaired_bytes) in
      let entry_after : get after.index repaired_hash ≡ some (placed meta) = rw is_repaired (
        rw (get-modify repo.index repaired_hash repaired_hash placed, eq_bytes_refl repaired_hash)
          (rw found refl)) in
      flush_pending-other later_io after w hash bytes repaired_hash later (placed meta)
        (ap (λ t. t.pack_writer) is_repaired ∙ p) is_buffer chunks fits (omega (arith, same_id))
        absent entry_after (sym same_id) refl flushed
