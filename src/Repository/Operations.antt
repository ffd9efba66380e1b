-- ===== src/Repository/Operations.antt =====
-- The operations of a repository keep its invariant, whatever the file system answers.
use backup_shield.Base.{
  ℕ, ◌+◌, ◌^◌, ◌<◌, ◌≡◌, refl, sym, ◌∙◌, subst, inl, inr, Bool, true, false, Option, none, some, [],
  if◌then◌else◌, length, Bytes, eq_bytes, eq_of_eq_bytes, arith, Bool-cases,
}
use backup_shield.Base.Result.{Result, ok, err}
use mathlib.Core.Option.{some-injective}
use backup_shield.Hash.{Hashes, compute_hash}
use backup_shield.Pack.Disk.{Disk}
use backup_shield.Pack.Writer.{
  PackWriter, FlushResult, FlushStep, Io, Flushed, find_pending, add_chunk, flush,
}
use backup_shield.Pack.Writer.Atomic.{Outcome, Written, flush-Outcome}
use backup_shield.Pack.Reader as Reader
use backup_shield.Pack.Stored.{read_chunk-flush}
use backup_shield.Repository.{
  Repository, new_meta, enter_at, store_flushed, store_new, store_chunk, flush_pending,
  pending_flushed,
}
use backup_shield.Repository.Index.{
  ChunkMeta, ChunkIndex, get, modify, contains, upsert, bump_refs, map_meta, entered, get-modify,
  get-upsert,
}
use backup_shield.Repository.Relocate.{find_location-Placed}
use backup_shield.Repository.Sound.{
  Readable, IsSound, add_chunk-IsSound, failed_flush-IsSound, written_flush-IsSound,
  find_pending_last,
}

module _ (H : Hashes) where
  -- A repository that has a writer and satisfies the invariant.
  abbrev pub SoundRepository : Repository → Type 0
  SoundRepository repo =
      (w : PackWriter) × (repo.pack_writer ≡ some w) × IsSound H repo.index repo.disk w

  pub IsSound-writer :
      (repo : Repository) (w : PackWriter)
      → repo.pack_writer ≡ some w
      → SoundRepository repo
      → IsSound H repo.index repo.disk w
  IsSound-writer repo w p (v, q, s) =
      subst (IsSound H repo.index repo.disk) (some-injective _ _ (sym q ∙ p)) s

  bump-Readable :
      (disk : Disk) (w : PackWriter) (h : Bytes) (meta : ChunkMeta)
      → Readable H disk w h meta
      → Readable H disk w h (bump_refs meta)
  unfolding bump_refs
  bump-Readable disk w h meta r = r

  modify-IsSound :
      (index : ChunkIndex) (disk : Disk) (w : PackWriter) (hash : Bytes)
      → IsSound H index disk w
      → IsSound H (modify index hash bump_refs) disk w
  modify-IsSound index disk w hash s = record {
    chunks = s.chunks;
    id_pos = s.id_pos;
    entries = λ h meta found.
        go h meta (eq_bytes hash h) (get index h) refl
          (sym (get-modify index hash h bump_refs) ∙ found);
  }
    where
      go :
          (h : Bytes) (meta : ChunkMeta) (b : Bool) (o : Option ChunkMeta)
          → get index h ≡ o
          → (if b then map_meta bump_refs o else o) ≡ some meta
          → Readable H disk w h meta
      go h meta true none was now = cc
      go h meta true (some old) was now =
          subst (Readable H disk w h) (some-injective _ _ now)
            (bump-Readable disk w h old (s.entries h old was))
      go h meta false o was now = s.entries h meta (was ∙ now)

  upsert-IsSound :
      (index : ChunkIndex) (disk : Disk) (w : PackWriter) (meta : ChunkMeta)
      → IsSound H index disk w
      → Readable H disk w meta.hash meta
      → IsSound H (upsert index meta) disk w
  upsert-IsSound index disk w new s readable = record {
    chunks = s.chunks;
    id_pos = s.id_pos;
    entries = λ h meta found.
        go h meta (eq_bytes new.hash h) (get index h) refl refl
          (sym (get-upsert index new h) ∙ found);
  }
    where
      go :
          (h : Bytes) (meta : ChunkMeta) (b : Bool) (o : Option ChunkMeta)
          → eq_bytes new.hash h ≡ b
          → get index h ≡ o
          → (if b then entered new o else o) ≡ some meta
          → Readable H disk w h meta
      go h meta true none same was now =
          subst (λ k. Readable H disk w k meta) (eq_of_eq_bytes new.hash h same)
            (subst (Readable H disk w new.hash) (some-injective _ _ now) readable)
      go h meta true (some old) same was now =
          subst (Readable H disk w h) (some-injective _ _ now)
            (bump-Readable disk w h old (s.entries h old was))
      go h meta false o same was now = s.entries h meta (was ∙ now)

  -- The chunk is in the buffer, or at the offset that is at hand.
  abbrev At : Disk → PackWriter → Bytes → ℕ → Option ℕ → Type 0
  At disk w hash pack_id none = (b : Bytes) × (find_pending hash w.buffer ≡ some b)
  At disk w hash pack_id (some offset) =
      (0 < pack_id)
      × (pack_id < w.next_pack_id)
      × (b : Bytes) × (Reader.read_chunk H disk pack_id offset hash ≡ ok b)

  enter_at-SoundRepository :
      (repo : Repository) (w : PackWriter) (hash bytes : Bytes) (pack_id : ℕ) (o : Option ℕ)
      → repo.pack_writer ≡ some w
      → IsSound H repo.index repo.disk w
      → At repo.disk w hash pack_id o
      → SoundRepository (enter_at repo hash bytes pack_id o).0
  unfolding enter_at new_meta
  enter_at-SoundRepository repo w hash bytes pack_id none p s (b, pending) =
      (w, p, upsert-IsSound repo.index repo.disk w _ s (inl (refl, b, pending)))
  enter_at-SoundRepository repo w hash bytes pack_id (some offset) p s r =
      (w, p, upsert-IsSound repo.index repo.disk w _ s (inr r))

  module _ (io : Io) (repo : Repository) (w : PackWriter) (bytes : Bytes)
      (p : repo.pack_writer ≡ some w) (fits : w.next_pack_id + 1 < 2 ^ 64)
      (small : length bytes < 2 ^ 32) (s : IsSound H repo.index repo.disk w) where
    abbrev hash : Bytes
    hash = compute_hash H bytes

    abbrev w' : PackWriter
    w' = (add_chunk w hash bytes).0

    abbrev f : Flushed
    f = flush H io w' repo.disk

    added : IsSound H repo.index repo.disk w'
    added = add_chunk-IsSound H repo.index repo.disk w hash bytes (refl, small) s

    pending_own : (b : Bytes) × (find_pending hash w'.buffer ≡ some b)
    pending_own = unfold add_chunk in find_pending_last H hash w.buffer bytes

    fits' : w'.next_pack_id + 1 < 2 ^ 64
    fits' = unfold add_chunk in fits

    store_flushed-SoundRepository :
        (res : Result FlushStep (Option FlushResult))
        → f.result ≡ res
        → SoundRepository (store_flushed repo hash bytes f res).0
    unfolding store_flushed
    store_flushed-SoundRepository (err step) e =
        (f.writer, refl, failed_flush-IsSound H io repo.index repo.disk w' added fits' step e)
    store_flushed-SoundRepository (ok none) e =
        let (empty, same_writer, same_disk) =
          subst (Outcome H w' repo.disk f) e (flush-Outcome H io w' repo.disk) in
        let (b, pending) = pending_own in
        let gone : find_pending hash [] ≡ some b =
          subst (λ t. find_pending hash t ≡ some b) empty pending in
        absurd (unfold find_pending in cc gone)
    store_flushed-SoundRepository (ok (some r)) e =
        let k : Written H w' repo.disk f r =
          subst (Outcome H w' repo.disk f) e (flush-Outcome H io w' repo.disk) in
        let (b, pending) = pending_own in
        let (offset, here, c, readable) =
          find_location-Placed H f.disk r.pack_id hash r.chunk_locations w'.buffer b
            (read_chunk-flush H io w' repo.disk r (omega (arith, fits')) e added.chunks) pending in
        rw here (
          enter_at-SoundRepository _ f.writer hash bytes r.pack_id (some offset) refl
            (written_flush-IsSound H io repo.index repo.disk w' added fits' r e)
            (
              omega (arith, k.pack_id, added.id_pos),
              omega (arith, k.pack_id, k.next_pack_id, fits'),
              c,
              readable,
            ))

    store_new-SoundRepository : SoundRepository (store_new H io repo hash bytes w).0
    unfolding store_new
    store_new-SoundRepository = elim (Bool-cases (add_chunk w hash bytes).1) [
      | inl full ↦ rw full (store_flushed-SoundRepository f.result refl)
      | inr room ↦ rw room (enter_at-SoundRepository _ w' hash bytes 0 none refl added pending_own)
    ]

    -- Whatever the file system answers to the calls of a flush, `store_chunk` keeps the invariant
    -- `IsSound` of a repository with a writer: every chunk that the index names is in the buffer,
    -- or is read from a pack that the writer will not write again. The id behind the writer's
    -- next pack id is below 2^64, and the bytes are fewer than 2^32.
    pub store_chunk-SoundRepository : SoundRepository (store_chunk H io repo bytes).0
    unfolding store_chunk
    store_chunk-SoundRepository = elim (Bool-cases (contains repo.index hash)) [
      | inl known ↦ rw known (w, p, modify-IsSound repo.index repo.disk w hash s)
      | inr new ↦ rw new (rw (p, store_chunk) store_new-SoundRepository)
    ]

  module _ (io : Io) (repo : Repository) (w : PackWriter) (p : repo.pack_writer ≡ some w)
      (fits : w.next_pack_id + 1 < 2 ^ 64) (s : IsSound H repo.index repo.disk w) where
    abbrev g : Flushed
    g = flush H io w repo.disk

    pending_flushed-SoundRepository :
        (res : Result FlushStep (Option FlushResult))
        → g.result ≡ res
        → SoundRepository (pending_flushed H io repo g res).0
    unfolding pending_flushed
    pending_flushed-SoundRepository (err step) e =
        (g.writer, refl, failed_flush-IsSound H io repo.index repo.disk w s fits step e)
    pending_flushed-SoundRepository (ok none) e =
        let (empty, same_writer, same_disk) =
          subst (Outcome H w repo.disk g) e (flush-Outcome H io w repo.disk) in
        (g.writer, refl, rw (same_writer, same_disk) s)
    pending_flushed-SoundRepository (ok (some r)) e =
        (g.writer, refl, written_flush-IsSound H io repo.index repo.disk w s fits r e)

    -- Whatever the file system answers to the calls of the flush, `flush_pending` keeps the
    -- invariant `IsSound` of a repository with a writer. The id behind the writer's next pack id
    -- is below 2^64.
    pub flush_pending-SoundRepository : SoundRepository (flush_pending H io repo).0
    unfolding flush_pending
    flush_pending-SoundRepository =
        rw (p, flush_pending) (pending_flushed-SoundRepository g.result refl)
