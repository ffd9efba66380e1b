-- ===== src/Repository/Rewritten.antt =====
-- `write_repaired_chunk`, failures included, on the chunks that stand in packs.
use backup_shield.Base.{
  ℕ, ◌+◌, ◌^◌, ◌≤◌, ◌<◌, ◌≡◌, refl, sym, ap, ◌∙◌, inl, inr, Bool, true, false, Option, none, some,
  if◌then◌else◌, length, Bytes, eq_bytes, eq_of_eq_bytes, arith, Bool-cases, Option-cases,
}
use backup_shield.Base.Result.{Result, ok, err}
use backup_shield.Hash.{Hashes, compute_hash}
use backup_shield.Pack.Name.{pack_filename}
use backup_shield.Pack.Name.Distinct.{temp_ne_pack}
use backup_shield.Pack.Disk.{Disk, read_file}
use backup_shield.Pack.Format.{locations, header_size}
use backup_shield.Pack.Writer.{PackWriter, FlushResult, FlushStep, Io, add_chunk, new_writer, flush}
use backup_shield.Pack.Writer.Atomic.{Outcome, flush-Outcome}
use backup_shield.Pack.Reader as Reader
use backup_shield.Pack.Reader.{max_pack_id}
use backup_shield.Pack.Reader.Ids.{le-max_pack_id}
use backup_shield.Pack.Reader.Bound.{max_pack_id-flush}
use backup_shield.Pack.Stored.{other_packs-flush}
use backup_shield.Repository.{
  Repository, RepositoryError, list_failed, repaired_mismatch, place, save_index, repaired_flushed,
  write_repaired_chunk,
}
use backup_shield.Repository.Index.{ChunkMeta, ChunkIndex, new_index, get, modify, get-modify}
use backup_shield.Repository.Repair.{own, f, repaired_stored, write_repaired_chunk_by}

-- The index that the next `open` loads.
abbrev pub last_saved : Option ChunkIndex → ChunkIndex
last_saved none = new_index
last_saved (some index) = index

module _ (H : Hashes) where
  -- The entry of the chunk leads to its bytes in a pack.
  abbrev pub StandsIn : Disk → ChunkIndex → Bytes → Type 0
  StandsIn disk index h =
      (meta : ChunkMeta) × (get index h ≡ some meta)
      × (0 < meta.pack_id)
      × (meta.pack_id < 2 ^ 64)
      × (bytes : Bytes) × (Reader.read_chunk H disk meta.pack_id meta.pack_offset h ≡ ok bytes)

  -- Through the index in memory and through the saved one.
  abbrev pub Stands : Repository → Bytes → Type 0
  Stands repo h =
      StandsIn repo.disk repo.index h × StandsIn repo.disk (last_saved repo.saved_index) h

  read_chunk-same :
      (before after : Disk) (pack_id offset : ℕ) (h : Bytes)
      → read_file after (pack_filename pack_id) ≡ read_file before (pack_filename pack_id)
      → Reader.read_chunk H after pack_id offset h ≡ Reader.read_chunk H before pack_id offset h
  unfolding Reader.read_chunk
  read_chunk-same before after pack_id offset h e = rw e

  -- A chunk that is read stands in a pack that the listing finds.
  pack_listed :
      (disk : Disk) (pack_id offset : ℕ) (h bytes : Bytes)
      → pack_id < 2 ^ 64
      → Reader.read_chunk H disk pack_id offset h ≡ ok bytes
      → pack_id ≤ max_pack_id disk
  unfolding Reader.read_chunk
  pack_listed disk pack_id offset h bytes fits e =
      elim (Option-cases (read_file disk (pack_filename pack_id))) [
        | inl gone ↦ absurd (ground (arith, gone))
        | inr (content, there) ↦ le-max_pack_id disk pack_id content fits there
      ]

  pack_kept :
      (io : Io) (w : PackWriter) (disk : Disk) (res : Result FlushStep (Option FlushResult))
      → (flush H io w disk).result ≡ res
      → Outcome H w disk (flush H io w disk) res
      → w.next_pack_id < 2 ^ 64
      → (pack_id : ℕ) → pack_id < w.next_pack_id
      → read_file (flush H io w disk).disk (pack_filename pack_id)
        ≡ read_file disk (pack_filename pack_id)
  pack_kept io w disk (err step) e k fits pack_id below =
      k.files (pack_filename pack_id) (temp_ne_pack w.next_pack_id pack_id (omega arith))
  pack_kept io w disk (ok none) e k fits pack_id below =
      ap (λ d. read_file d (pack_filename pack_id)) k.2
  pack_kept io w disk (ok (some r)) e k fits pack_id below =
      other_packs-flush H io w disk r fits e pack_id (omega arith) (omega arith)

  flush-StandsIn :
      (io : Io) (w : PackWriter) (disk : Disk) (index : ChunkIndex) (h : Bytes)
      → w.next_pack_id ≡ max_pack_id disk + 1
      → w.next_pack_id < 2 ^ 64
      → StandsIn disk index h
      → StandsIn (flush H io w disk).disk index h
  flush-StandsIn io w disk index h next fits (meta, found, pos, small, bytes, e) =
      let listed = pack_listed disk meta.pack_id meta.pack_offset h bytes small e in
      (
        meta,
        found,
        pos,
        small,
        bytes,
        read_chunk-same disk (flush H io w disk).disk meta.pack_id meta.pack_offset h (
              pack_kept io w disk (flush H io w disk).result refl (flush-Outcome H io w disk) fits
                meta.pack_id (omega (arith, listed, next)))
            ∙ e,
      )

  place-StandsIn :
      (disk : Disk) (index : ChunkIndex) (hash bytes h : Bytes) (pack_id : ℕ)
      → 0 < pack_id
      → pack_id < 2 ^ 64
      → Reader.read_chunk H disk pack_id header_size hash ≡ ok bytes
      → StandsIn disk index h
      → StandsIn disk (modify index hash (place pack_id header_size (length bytes))) h
  unfolding place
  place-StandsIn disk index hash bytes h pack_id pos small stored
        (meta, found, m_pos, m_small, b, e) =
      elim (Bool-cases (eq_bytes hash h)) [
        | inl same ↦ (
          place pack_id header_size (length bytes) meta,
          rw (get-modify index hash h (place pack_id header_size (length bytes)), same)
              (rw found refl),
          pos,
          small,
          bytes,
          ap (λ k. Reader.read_chunk H disk pack_id header_size k) (sym (eq_of_eq_bytes _ _ same))
              ∙ stored,
        )
        | inr other ↦ (
          meta,
          rw (get-modify index hash h (place pack_id header_size (length bytes)), other) found,
          m_pos,
          m_small,
          b,
          e,
        )
      ]

  pub save_index-Stands :
      (fails : Bool) (repo : Repository) (h : Bytes)
      → Stands repo h
      → Stands (save_index fails repo).0 h
  unfolding save_index
  save_index-Stands true repo h s = s
  save_index-Stands false repo h s = (s.0, s.0)

  -- One repair, of bytes that have the hash.
  module _ (io : Io) (save_fails : Bool) (repo : Repository) (hash bytes : Bytes)
      (fits : max_pack_id repo.disk + 1 < 2 ^ 64) (small : length bytes < 2 ^ 32) where
    own_next : (own H io repo hash bytes).next_pack_id ≡ max_pack_id repo.disk + 1
    unfolding add_chunk new_writer
    own_next = refl

    -- The files after it, and the two indexes as they were.
    after_flush :
        (h : Bytes)
        → Stands repo h
        → Stands (record repo { disk = (f H io repo hash bytes).disk }) h
    after_flush h s = (
      flush-StandsIn io (own H io repo hash bytes) repo.disk repo.index h own_next
          (omega (arith, own_next)) s.0,
      flush-StandsIn io (own H io repo hash bytes) repo.disk (last_saved repo.saved_index) h
          own_next (omega (arith, own_next)) s.1,
    )

    flushed-Stands :
        (h : Bytes) (res : Result FlushStep (Option FlushResult))
        → (f H io repo hash bytes).result ≡ res
        → Outcome H (own H io repo hash bytes) repo.disk (f H io repo hash bytes) res
        → compute_hash H bytes ≡ hash
        → Stands repo h
        → Stands (repaired_flushed H io save_fails repo hash bytes (f H io repo hash bytes) res).0 h
    unfolding repaired_flushed locations add_chunk new_writer
    flushed-Stands h (err step) e k hashed s = after_flush h s
    flushed-Stands h (ok none) e k hashed s = save_index-Stands save_fails _ h (after_flush h s)
    flushed-Stands h (ok (some r)) e k hashed s =
        let kept = after_flush h s in
        let disk = (f H io repo hash bytes).disk in
        let stored : Reader.read_chunk H disk (max_pack_id repo.disk + 1) header_size hash
            ≡ ok bytes =
          repaired_stored H io repo hash bytes r e fits small hashed in
        rw (k.chunk_locations, k.pack_id)
          (save_index-Stands save_fails _ h (
            place-StandsIn disk repo.index hash bytes h (max_pack_id repo.disk + 1) (omega arith)
                fits stored kept.0,
            kept.1,
          ))

    -- The two guards leave the repository as it is.
    guarded-Stands :
        (same unlisted : Bool) (rest : Repository × Result RepositoryError (Unit {0})) (h : Bytes)
        → Stands repo h
        → (same ≡ true → Stands rest.0 h)
        → Stands
            (if same
              then if unlisted then (repo, err list_failed) else rest
              else (repo, err repaired_mismatch)).0
            h
    guarded-Stands true true rest h s later = s
    guarded-Stands true false rest h s later = later refl
    guarded-Stands false unlisted rest h s later = s

    pub write_repaired_chunk-Stands :
        (h : Bytes)
        → Stands repo h
        → Stands (write_repaired_chunk H io save_fails repo hash bytes).0 h
    write_repaired_chunk-Stands h s =
        rw (write_repaired_chunk_by H io repo hash bytes save_fails fits) (
          guarded-Stands (eq_bytes (compute_hash H bytes) hash) io.list_fails _ h s λ same.
            flushed-Stands h (f H io repo hash bytes).result refl
              (flush-Outcome H io (own H io repo hash bytes) repo.disk) (eq_of_eq_bytes _ _ same) s)

    repaired_disk :
        (res : Result FlushStep (Option FlushResult))
        → (repaired_flushed H io save_fails repo hash bytes (f H io repo hash bytes) res).0.disk
          ≡ (f H io repo hash bytes).disk
    unfolding repaired_flushed save_index
    repaired_disk (err step) = refl
    repaired_disk (ok none) = elim (Bool-cases save_fails) [
      | inl failed ↦ rw failed refl
      | inr saved ↦ rw saved refl
    ]
    repaired_disk (ok (some r)) = elim (Bool-cases save_fails) [
      | inl failed ↦ rw failed refl
      | inr saved ↦ rw saved refl
    ]

    guarded_bound :
        (same unlisted : Bool) (rest : Repository × Result RepositoryError (Unit {0})) (n : ℕ)
        → max_pack_id repo.disk ≤ n
        → max_pack_id rest.0.disk ≤ n
        → max_pack_id
            (if same
              then if unlisted then (repo, err list_failed) else rest
              else (repo, err repaired_mismatch)).0.disk
          ≤ n
    guarded_bound true true rest n before after = before
    guarded_bound true false rest n before after = after
    guarded_bound false unlisted rest n before after = before

    pub max_pack_id-write_repaired_chunk :
        max_pack_id (write_repaired_chunk H io save_fails repo hash bytes).0.disk
        ≤ max_pack_id repo.disk + 1
    max_pack_id-write_repaired_chunk =
        rw (write_repaired_chunk_by H io repo hash bytes save_fails fits) (
          guarded_bound (eq_bytes (compute_hash H bytes) hash) io.list_fails _
            (max_pack_id repo.disk + 1) (omega arith)
            (rw (repaired_disk (f H io repo hash bytes).result) (
              omega (
                arith,
                own_next,
                max_pack_id-flush H io (own H io repo hash bytes) repo.disk
                    (omega (arith, own_next)),
              ))))
