-- ===== src/Repository/Repair.antt =====
-- `write_repaired_chunk`: what it writes, and what is read after it.
use backup_shield.Base.{
  ℕ, ◌+◌, ◌%◌, ◌^◌, ◌<◌, ◌≡◌, ◌==◌, refl, sym, ap, ◌∙◌, subst, Bool, true, false, Option, none,
  some, [], ◌∷◌, if◌then◌else◌, length, Bytes, eq_bytes, eq_of_eq_bytes, eq_bytes_refl, arith,
}
use backup_shield.Base.Result.{Result, ok, err}
use backup_shield.Hash.{Hashes, compute_hash}
use backup_shield.Pack.Format.{locations, header_size, default_pack_size}
use backup_shield.Pack.Writer.{
  PackWriter, FlushResult, FlushStep, Io, Flushed, add_chunk, new_writer, flush,
}
use backup_shield.Pack.Writer.Atomic.{Outcome, Written, flush-Outcome}
use backup_shield.Pack.Reader as Reader
use backup_shield.Pack.Reader.{max_pack_id}
use backup_shield.Pack.RoundTrip.{Located}
use backup_shield.Pack.Stored.{read_chunk-flush}
use backup_shield.Repository.{
  Repository, RepositoryError, list_failed, repaired_mismatch, place, save_index, pending,
  read_stored, read_chunk, repaired_flushed, write_repaired_chunk,
}
use backup_shield.Repository.Index.{ChunkMeta, get, modify, get-modify}

pub suc_ne_zero : (n : ℕ) → (n + 1 == 0) ≡ false
suc_ne_zero n = ground arith

-- A repair that succeeds passes both tests.
guarded_ok :
    (same unlisted : Bool) (repo : Repository)
    (rest : Repository × Result RepositoryError (Unit {0}))
    → (if same
        then if unlisted then (repo, err list_failed) else rest
        else (repo, err repaired_mismatch)).1
      ≡ ok tt
    → (same ≡ true)
      × ((if same
            then if unlisted then (repo, err list_failed) else rest
            else (repo, err repaired_mismatch))
          ≡ rest)
guarded_ok true true repo rest done = cc
guarded_ok true false repo rest done = (refl, refl)
guarded_ok false unlisted repo rest done = cc

module _ (H : Hashes) where
  module _ (io : Io) (repo : Repository) (hash bytes : Bytes) where
    abbrev pub id : ℕ
    id = max_pack_id repo.disk + 1

    -- The writer of the repaired chunk.
    abbrev pub own : PackWriter
    own = (add_chunk (new_writer id default_pack_size) hash bytes).0

    abbrev pub f : Flushed
    f = flush H io own repo.disk

    own_buffer : own.buffer ≡ (hash, bytes) ∷ []
    unfolding add_chunk new_writer
    own_buffer = refl

    own_id : own.next_pack_id ≡ id
    unfolding add_chunk new_writer
    own_id = refl

    -- The repository that holds the repaired chunk.
    abbrev pub repaired : Repository
    repaired =
        let index = modify repo.index hash (place id header_size (length bytes)) in
        record repo { disk = f.disk; index = index; saved_index = some index }

    flushed_repaired :
        (save_fails : Bool) (res : Result FlushStep (Option FlushResult))
        → f.result ≡ res
        → (repaired_flushed H io save_fails repo hash bytes f res).1 ≡ ok tt
        → (r : FlushResult) × (res ≡ ok (some r))
          × ((repaired_flushed H io save_fails repo hash bytes f res).0 ≡ repaired)
    unfolding repaired_flushed save_index locations
    flushed_repaired save_fails (err step) e done = cc
    flushed_repaired save_fails (ok none) e done =
        let (empty, same_writer, same_disk) =
          subst (Outcome H own repo.disk f) e (flush-Outcome H io own repo.disk) in
        absurd (cc (sym own_buffer ∙ empty))
    flushed_repaired true (ok (some r)) e done = cc
    flushed_repaired false (ok (some r)) e done =
        let k : Written H own repo.disk f r =
          subst (Outcome H own repo.disk f) e (flush-Outcome H io own repo.disk) in
        let here : r.chunk_locations ≡ locations header_size ((hash, bytes) ∷ []) =
          k.chunk_locations ∙ ap (locations header_size) own_buffer in
        (r, refl, rw (here, k.pack_id, own_id) refl)

    -- The branches, where the largest id on disk leaves one.
    pub write_repaired_chunk_by :
        (save_fails : Bool)
        → max_pack_id repo.disk + 1 < 2 ^ 64
        → write_repaired_chunk H io save_fails repo hash bytes ≡ (
            if eq_bytes (compute_hash H bytes) hash
            then if io.list_fails
              then (repo, err list_failed)
              else repaired_flushed H io save_fails repo hash bytes f f.result
            else (repo, err repaired_mismatch))
    unfolding write_repaired_chunk
    write_repaired_chunk_by save_fails fits =
        let same : (max_pack_id repo.disk + 1) % 2 ^ 64 ≡ id = omega (arith, fits) in rw same refl

    pub written_repaired :
        (save_fails : Bool)
        → max_pack_id repo.disk + 1 < 2 ^ 64
        → (write_repaired_chunk H io save_fails repo hash bytes).1 ≡ ok tt
        → (compute_hash H bytes ≡ hash)
          × (r : FlushResult) × (f.result ≡ ok (some r))
          × ((write_repaired_chunk H io save_fails repo hash bytes).0 ≡ repaired)
    written_repaired save_fails fits done =
        let by = write_repaired_chunk_by save_fails fits in
        let (same, is_flushed) =
          guarded_ok (eq_bytes (compute_hash H bytes) hash) io.list_fails repo _
            (sym (ap (λ t. t.1) by) ∙ done) in
        let (r, written, is_repaired) =
          flushed_repaired save_fails f.result refl
            (sym (ap (λ t. t.1) (by ∙ is_flushed)) ∙ done) in
        (eq_of_eq_bytes _ _ same, r, written, ap (λ t. t.0) (by ∙ is_flushed) ∙ is_repaired)

    pub repaired_stored :
        (r : FlushResult)
        → f.result ≡ ok (some r)
        → id < 2 ^ 64
        → length bytes < 2 ^ 32
        → compute_hash H bytes ≡ hash
        → Reader.read_chunk H f.disk id header_size hash ≡ ok bytes
    unfolding locations add_chunk new_writer
    repaired_stored r e fits small hashed =
        let k : Written H own repo.disk f r =
          subst (Outcome H own repo.disk f) e (flush-Outcome H io own repo.disk) in
        let located : Located H f.disk r.pack_id r.chunk_locations own.buffer =
          read_chunk-flush H io own repo.disk r fits e ((sym hashed, small), tt) in
        let at_id : Located H f.disk id r.chunk_locations own.buffer =
          subst (λ i. Located H f.disk i r.chunk_locations own.buffer) k.pack_id located in
        let at_start : Located H f.disk id (locations header_size own.buffer) own.buffer =
          subst (λ l. Located H f.disk id l own.buffer) k.chunk_locations at_id in
        at_start.2

    read_chunk-repaired :
        (meta : ChunkMeta)
        → get repo.index hash ≡ some meta
        → pending repo hash ≡ none
        → Reader.read_chunk H f.disk id header_size hash ≡ ok bytes
        → read_chunk H repaired hash ≡ ok bytes
    unfolding read_chunk read_stored place
    read_chunk-repaired meta found not_pending e =
        let still_not : pending repaired hash ≡ none = unfold pending in not_pending in
        let placed : get repaired.index hash ≡ some (place id header_size (length bytes) meta) =
          rw
            (
              get-modify repo.index hash hash (place id header_size (length bytes)),
              eq_bytes_refl hash,
            )
            (rw found refl) in
        rw (still_not, placed, read_chunk) (rw (e, suc_ne_zero (max_pack_id repo.disk)) refl)

  -- Let the index hold the hash, let no such chunk be pending, let the ids of the packs on disk
  -- leave one below 2^64, and let the bytes be fewer than 2^32. If `write_repaired_chunk`
  -- succeeds, the bytes have the hash, and `read_chunk` returns them at once.
  pub read-write_repaired_chunk :
      (io : Io) (save_fails : Bool) (repo : Repository) (hash bytes : Bytes) (meta : ChunkMeta)
      → max_pack_id repo.disk + 1 < 2 ^ 64
      → length bytes < 2 ^ 32
      → get repo.index hash ≡ some meta
      → pending repo hash ≡ none
      → (write_repaired_chunk H io save_fails repo hash bytes).1 ≡ ok tt
      → (read_chunk H (write_repaired_chunk H io save_fails repo hash bytes).0 hash ≡ ok bytes)
        × (compute_hash H bytes ≡ hash)
  read-write_repaired_chunk io save_fails repo hash bytes meta fits small found not_pending done =
      let (hashed, r, e, is_repaired) = written_repaired io repo hash bytes save_fails fits done in
      (
        ap (λ t. read_chunk H t hash) is_repaired
            ∙ read_chunk-repaired io repo hash bytes meta found not_pending
                (repaired_stored io repo hash bytes r e fits small hashed),
        hashed,
      )
