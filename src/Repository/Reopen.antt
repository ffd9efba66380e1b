-- ===== src/Repository/Reopen.antt =====
-- A repository that was flushed and saved opens again with all its chunks.
use backup_shield.Base.{
  ℕ, ◌+◌, ◌%◌, ◌^◌, ◌≤◌, ◌<◌, ◌≡◌, refl, sym, ap, ◌∙◌, subst, inl, inr, false, Option, none, some,
  [], Bytes, arith, Option-cases,
}
use backup_shield.Base.Result.{Result, ok, err}
use mathlib.Core.Option.{some-injective}
use backup_shield.Hash.{Hashes}
use backup_shield.Pack.Name.{pack_filename}
use backup_shield.Pack.Disk.{Disk, read_file}
use backup_shield.Pack.Writer.{
  PackWriter, FlushResult, FlushStep, Io, find_pending, flush, new_writer,
}
use backup_shield.Pack.Writer.Atomic.{Outcome, Written, flush-Outcome}
use backup_shield.Pack.Reader as Reader
use backup_shield.Pack.Reader.{max_pack_id}
use backup_shield.Pack.Reader.Ids.{le-max_pack_id}
use backup_shield.Repository.{
  Repository, flush_pending, pending_flushed, save_index, load_index, open_repository,
}
use backup_shield.Repository.Index.{ChunkIndex}
use backup_shield.Repository.Sound.{IsSound}
use backup_shield.Repository.Operations.{SoundRepository, flush_pending-SoundRepository}

module _ (H : Hashes) where
  -- The file of a pack that was read from is there.
  file_of_read :
      (disk : Disk) (pack_id offset : ℕ) (h bytes : Bytes)
      → Reader.read_chunk H disk pack_id offset h ≡ ok bytes
      → (content : Bytes) × (read_file disk (pack_filename pack_id) ≡ some content)
  unfolding Reader.read_chunk
  file_of_read disk pack_id offset h bytes e =
      elim (Option-cases (read_file disk (pack_filename pack_id))) [
        | inl absent ↦ absurd (ground arith)
        | inr found ↦ found
      ]

  -- With nothing pending the invariant holds for a fresh writer behind the packs on disk.
  fresh_writer-IsSound :
      (index : ChunkIndex) (disk : Disk) (w : PackWriter) (size : ℕ)
      → w.buffer ≡ []
      → w.next_pack_id ≤ 2 ^ 64
      → max_pack_id disk + 1 < 2 ^ 64
      → IsSound H index disk w
      → IsSound H index disk (new_writer ((max_pack_id disk + 1) % 2 ^ 64) size)
  unfolding new_writer
  fresh_writer-IsSound index disk w size empty fits headroom s = record {
    chunks = tt;
    id_pos = omega arith;
    entries = λ h meta found. elim (s.entries h meta found) [
      | inl (zero_id, b, pending) ↦
          let gone : find_pending h [] ≡ some b =
            subst (λ t. find_pending h t ≡ some b) empty pending in
          absurd (unfold find_pending in cc gone)
      | inr (pos, below, b, readable) ↦
          let (content, there) = file_of_read disk meta.pack_id meta.pack_offset h b readable in
          inr (
            pos,
            omega (arith, le-max_pack_id disk meta.pack_id content (omega arith) there),
            b,
            readable,
          )
    ];
  }

  pending_flushed-empty :
      (io : Io) (repo : Repository) (w : PackWriter) (res : Result FlushStep (Option FlushResult))
      → (flush H io w repo.disk).result ≡ res
      → (pending_flushed H io repo (flush H io w repo.disk) res).1 ≡ ok tt
      → ((flush H io w repo.disk).writer.buffer ≡ [])
        × ((flush H io w repo.disk).writer.next_pack_id ≤ w.next_pack_id + 1)
        × ((pending_flushed H io repo (flush H io w repo.disk) res).0.pack_writer
            ≡ some (flush H io w repo.disk).writer)
  unfolding pending_flushed
  pending_flushed-empty io repo w (err step) e h = cc
  pending_flushed-empty io repo w (ok none) e h =
      let (empty, same_writer, same_disk) =
        subst (Outcome H w repo.disk (flush H io w repo.disk)) e (flush-Outcome H io w repo.disk) in
      (rw same_writer empty, rw same_writer (omega arith), refl)
  pending_flushed-empty io repo w (ok (some r)) e h =
      let k : Written H w repo.disk (flush H io w repo.disk) r =
        subst (Outcome H w repo.disk (flush H io w repo.disk)) e (flush-Outcome H io w repo.disk) in
      (k.buffer, omega (arith, k.next_pack_id), refl)

  abbrev pub saved : Io → Repository → Repository
  saved io repo = (save_index false (flush_pending H io repo).0).0

  module _ (io : Io) (repo : Repository) (w : PackWriter) (p : repo.pack_writer ≡ some w)
      (fits : w.next_pack_id + 1 < 2 ^ 64) (s : IsSound H repo.index repo.disk w)
      (done : (flush_pending H io repo).1 ≡ ok tt) where
    flush_pending_by :
        flush_pending H io repo
        ≡ pending_flushed H io repo (flush H io w repo.disk) (flush H io w repo.disk).result
    unfolding flush_pending pending_flushed
    flush_pending_by = rw (p, flush_pending) refl

    -- The writer that `flush_pending` leaves has nothing pending.
    flushed_writer :
        (w' : PackWriter) × (w'.buffer ≡ [])
        × (w'.next_pack_id ≤ 2 ^ 64)
        × IsSound H (flush_pending H io repo).0.index (flush_pending H io repo).0.disk w'
    flushed_writer =
        let (empty, small, is_writer) =
          pending_flushed-empty io repo w _ refl (sym (ap (λ t. t.1) flush_pending_by) ∙ done) in
        let (w', is_w', sound) = flush_pending-SoundRepository H io repo w p fits s in
        let same : (flush H io w repo.disk).writer ≡ w' =
          some-injective _ _
            (sym is_writer ∙ sym (ap (λ t. t.0.pack_writer) flush_pending_by) ∙ is_w') in
        (
          w',
          subst (λ v. v.buffer ≡ []) same empty,
          subst (λ v. v.next_pack_id ≤ 2 ^ 64) same (omega (arith, small, fits)),
          sound,
        )

    -- Let a repository satisfy the invariant, let the id behind its writer's next pack id be
    -- below 2^64, and let its `flush_pending` succeed. After a `save_index` that does not fail,
    -- `open` on the files that are then on disk, when no other process holds the lock, the packs
    -- can be listed and their ids leave one below 2^64, returns a repository with the same index
    -- that satisfies the invariant again.
    pub reopen-SoundRepository :
        (size : ℕ)
        → max_pack_id (flush_pending H io repo).0.disk + 1 < 2 ^ 64
        → (opened : Repository) × (open_repository
              (some size)
              false
              false
              (saved io repo).disk
              (saved io repo).saved_index
            ≡ ok opened)
          × (opened.index ≡ (flush_pending H io repo).0.index)
          × SoundRepository H opened
    unfolding open_repository load_index save_index
    reopen-SoundRepository size headroom =
        let (w', empty, small, sound) = flushed_writer in
        (_, refl, refl, (_, refl, fresh_writer-IsSound _ _ w' size empty small headroom sound))
