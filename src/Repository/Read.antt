-- ===== src/Repository/Read.antt =====
-- What `read_chunk` returns.
use backup_shield.Base.{
  ℕ, ◌+◌, ◌^◌, ◌<◌, ◌≡◌, refl, sym, ◌∙◌, inl, inr, true, Option, none, some, List, [], ◌∷◌, length,
  Bytes, eq_bytes, eq_of_eq_bytes, eq_bytes_refl, arith, Bool-cases, Option-cases, All,
}
use backup_shield.Base.Result.{Result, ok, err}
use mathlib.Core.Option.{some-injective}
use backup_shield.Hash.{Hashes, compute_hash}
use backup_shield.Pack.Format.{Chunk}
use backup_shield.Pack.Writer.{
  PackWriter, FlushResult, FlushStep, Io, Flushed, find_pending, get_pending, add_chunk,
}
use backup_shield.Pack.Reader.{PackError}
use backup_shield.Pack.RoundTrip.{IsChunk}
use backup_shield.Pack.Sound.{read_chunk_sound}
use backup_shield.Repository.{
  Repository, RepositoryError, enter_at, store_flushed, store_new, store_chunk, pending,
  read_stored, read_chunk, pack_result, new_meta,
}
use backup_shield.Repository.Index.{
  ChunkMeta, ChunkIndex, get, modify, contains, upsert, bump_refs, entered, get-modify, get-upsert,
}
use backup_shield.Repository.Sound.{IsSound}
use backup_shield.Repository.Operations.{SoundRepository, store_chunk-SoundRepository}

module _ (H : Hashes) where
  find_pending_hash :
      (h : Bytes) (buffer : List Chunk) (bytes : Bytes)
      → All (IsChunk H) buffer
      → find_pending h buffer ≡ some bytes
      → compute_hash H bytes ≡ h
  unfolding find_pending
  find_pending_hash h [] bytes c found = cc
  find_pending_hash h ((k, b) ∷ buffer) bytes c found = elim (Bool-cases (eq_bytes k h)) [
    | inl same ↦
        let here : bytes ≡ b = some-injective _ _ (sym (rw (same, find_pending) at found)) in
        rw here (sym c.0.0 ∙ eq_of_eq_bytes k h same)
    | inr other ↦ find_pending_hash h buffer bytes c.1 (rw (other, find_pending) at found)
  ]

  pack_result_ok :
      (r : Result PackError Bytes) (bytes : Bytes) → pack_result r ≡ ok bytes → r ≡ ok bytes
  pack_result_ok (ok b) bytes e = cc
  pack_result_ok (err x) bytes e = cc

  -- In a repository that has a writer and satisfies the invariant, `read_chunk` succeeds for
  -- every hash that the index holds, and the bytes that it returns have that hash.
  pub read_chunk_total :
      (repo : Repository) (h : Bytes) (meta : ChunkMeta)
      → SoundRepository H repo
      → get repo.index h ≡ some meta
      → (bytes : Bytes) × (read_chunk H repo h ≡ ok bytes) × (compute_hash H bytes ≡ h)
  unfolding read_chunk read_stored pending get_pending
  read_chunk_total repo h meta (w, p, s) found = elim (Option-cases (find_pending h w.buffer)) [
    | inr (bytes, here) ↦ (
      bytes,
      rw (p, read_chunk, pending) (rw here),
      find_pending_hash h w.buffer bytes s.chunks here,
    )
    | inl absent ↦ elim (s.entries h meta found) [
      | inl (zero_id, b, here) ↦ absurd (cc)
      | inr (pos, below, bytes, readable) ↦ (
        bytes,
        ground arith,
        read_chunk_sound H repo.disk meta.pack_id meta.pack_offset h bytes readable,
      )
    ]
  ]

  upsert-found :
      (index : ChunkIndex) (meta : ChunkMeta)
      → (m : ChunkMeta) × (get (upsert index meta) meta.hash ≡ some m)
  upsert-found index meta =
      rw (get-upsert index meta meta.hash, eq_bytes_refl meta.hash) (go (get index meta.hash))
    where
      go : (o : Option ChunkMeta) → (m : ChunkMeta) × (entered meta o ≡ some m)
      go none = (meta, refl)
      go (some old) = (bump_refs old, refl)

  -- The hash that an operation returned is in the index that it left.
  abbrev Entered : Bytes → Repository × Result RepositoryError Bytes → Type 0
  Entered hash r =
      (h : Bytes) → r.1 ≡ ok h → (h ≡ hash) × (m : ChunkMeta) × (get r.0.index h ≡ some m)

  same_hash : (hash h : Bytes) → ◌≡◌ {A = Result RepositoryError Bytes} (ok hash) (ok h) → h ≡ hash
  same_hash hash h e = cc

  enter_at-Entered :
      (repo : Repository) (hash bytes : Bytes) (pack_id : ℕ) (o : Option ℕ)
      → Entered hash (enter_at repo hash bytes pack_id o)
  unfolding enter_at new_meta
  enter_at-Entered repo hash bytes pack_id none h e =
      let (m, found) = upsert-found repo.index _ in rw (same_hash hash h e) (refl, m, found)
  enter_at-Entered repo hash bytes pack_id (some offset) h e =
      let (m, found) = upsert-found repo.index _ in rw (same_hash hash h e) (refl, m, found)

  store_flushed-Entered :
      (repo : Repository) (hash bytes : Bytes) (f : Flushed)
      (res : Result FlushStep (Option FlushResult))
      → Entered hash (store_flushed repo hash bytes f res)
  unfolding store_flushed
  store_flushed-Entered repo hash bytes f (err step) h e = cc
  store_flushed-Entered repo hash bytes f (ok none) h e = enter_at-Entered _ hash bytes 0 none h e
  store_flushed-Entered repo hash bytes f (ok (some r)) h e =
      enter_at-Entered _ hash bytes r.pack_id _ h e

  store_new-Entered :
      (io : Io) (repo : Repository) (hash bytes : Bytes) (w : PackWriter)
      → Entered hash (store_new H io repo hash bytes w)
  unfolding store_new
  store_new-Entered io repo hash bytes w = elim (Bool-cases (add_chunk w hash bytes).1) [
    | inl full ↦ rw full (store_flushed-Entered repo hash bytes _ _)
    | inr room ↦ rw room (enter_at-Entered _ hash bytes 0 none)
  ]

  modify-found :
      (index : ChunkIndex) (hash : Bytes)
      → contains index hash ≡ true
      → (m : ChunkMeta) × (get (modify index hash bump_refs) hash ≡ some m)
  unfolding contains
  modify-found index hash known = elim (Option-cases (get index hash)) [
    | inl absent ↦ absurd (ground arith)
    | inr (m, found) ↦
        (bump_refs m, rw (get-modify index hash hash bump_refs, eq_bytes_refl hash) (rw found))
  ]

  store_chunk-Entered :
      (io : Io) (repo : Repository) (bytes : Bytes)
      → Entered (compute_hash H bytes) (store_chunk H io repo bytes)
  unfolding store_chunk
  store_chunk-Entered io repo bytes =
      elim (Bool-cases (contains repo.index (compute_hash H bytes))) [
        | inl known ↦ rw known λ h e.
            let (m, found) = modify-found repo.index (compute_hash H bytes) known in
            rw (same_hash (compute_hash H bytes) h e) (refl, m, found)
        | inr new ↦ rw new (elim (Option-cases repo.pack_writer) [
          | inl no_writer ↦ rw (no_writer, store_chunk) (λ h e. cc)
          | inr (w, p) ↦
              rw (p, store_chunk) (store_new-Entered io repo (compute_hash H bytes) bytes w)
        ])
      ]

  -- Let a repository satisfy the invariant `IsSound`, let the id behind its writer's next pack id
  -- be below 2^64, and let the bytes be fewer than 2^32. If `store_chunk` returns a hash, it is
  -- the hash of the bytes, and `read_chunk` on the repository that it leaves returns bytes with
  -- that same hash, whatever the file system answered.
  pub read-store_chunk :
      (io : Io) (repo : Repository) (w : PackWriter) (bytes h : Bytes)
      → repo.pack_writer ≡ some w
      → w.next_pack_id + 1 < 2 ^ 64
      → length bytes < 2 ^ 32
      → IsSound H repo.index repo.disk w
      → (store_chunk H io repo bytes).1 ≡ ok h
      → (h ≡ compute_hash H bytes)
        × (b : Bytes) × (read_chunk H (store_chunk H io repo bytes).0 h ≡ ok b)
        × (compute_hash H b ≡ compute_hash H bytes)
  read-store_chunk io repo w bytes h p fits small s e =
      let (same, m, found) = store_chunk-Entered io repo bytes h e in
      let (b, readable, hashed) =
        read_chunk_total (store_chunk H io repo bytes).0 h m
          (store_chunk-SoundRepository H io repo w bytes p fits small s) found in
      (same, b, readable, hashed ∙ same)
