-- ===== src/Repository/Sound.antt =====
-- The invariant of a repository: every chunk that the index names can be read.
use backup_shield.Base.{
  ℕ, ◌+◌, ◌^◌, ◌<◌, ◌≡◌, refl, sym, ◌∙◌, subst, ◌⊎◌, inl, inr, Option, none, some, List, [], ◌∷◌,
  ◌++◌, Bytes, eq_bytes, eq_bytes_refl, arith, Bool-cases, Option-cases, All, All-append,
}
use backup_shield.Base.Result.{ok, err}
use mathlib.Core.Option.{some-injective}
use backup_shield.Hash.{Hashes}
use backup_shield.Pack.Name.{pack_filename}
use backup_shield.Pack.Name.Distinct.{temp_ne_pack}
use backup_shield.Pack.Disk.{Disk, read_file}
use backup_shield.Pack.Format.{Chunk}
use backup_shield.Pack.Writer.{
  PackWriter, FlushResult, FlushStep, Io, Flushed, find_pending, add_chunk, flush,
}
use backup_shield.Pack.Writer.Atomic.{Outcome, Kept, Written, flush-Outcome}
use backup_shield.Pack.Reader as Reader
use backup_shield.Pack.RoundTrip.{Located, IsChunk}
use backup_shield.Pack.Stored.{read_chunk-flush, other_packs-flush}
use backup_shield.Repository.{relocate}
use backup_shield.Repository.Index.{ChunkMeta, ChunkIndex, get, map_meta}
use backup_shield.Repository.Relocate.{
  relocated, get-relocate, find_pending-Placed, find_pending-unplaced,
}

module _ (H : Hashes) where
  -- The entry `meta` of the chunk `h` leads to bytes: in the buffer, or in a pack that the writer
  -- will not write again.
  abbrev pub Readable : Disk → PackWriter → Bytes → ChunkMeta → Type 0
  Readable disk w h meta =
      ((meta.pack_id ≡ 0) × (bytes : Bytes) × (find_pending h w.buffer ≡ some bytes))
      ⊎ ((0 < meta.pack_id)
          × (meta.pack_id < w.next_pack_id)
          × (bytes : Bytes) × (Reader.read_chunk H disk meta.pack_id meta.pack_offset h ≡ ok bytes))

  pub record IsSound (index : ChunkIndex) (disk : Disk) (w : PackWriter) : Type 0 where
    pub chunks : All (IsChunk H) w.buffer
    pub id_pos : 0 < w.next_pack_id
    pub entries : (h : Bytes) (meta : ChunkMeta) → get index h ≡ some meta → Readable disk w h meta

  find_pending-append :
      (h : Bytes) (buffer later : List Chunk) (bytes : Bytes)
      → find_pending h buffer ≡ some bytes
      → find_pending h (buffer ++ later) ≡ some bytes
  unfolding find_pending
  find_pending-append h [] later bytes found = cc
  find_pending-append h ((k, b) ∷ buffer) later bytes found =
      ground (arith, find_pending-append h buffer later bytes)

  pub find_pending_last :
      (h : Bytes) (buffer : List Chunk) (b : Bytes)
      → (bytes : Bytes) × (find_pending h (buffer ++ (h, b) ∷ []) ≡ some bytes)
  unfolding find_pending
  find_pending_last h [] b = (b, rw (eq_bytes_refl h))
  find_pending_last h ((k, c) ∷ buffer) b = elim (Bool-cases (eq_bytes k h)) [
    | inl same ↦ (c, rw same)
    | inr other ↦ let (bytes, found) = find_pending_last h buffer b in (bytes, rw other found)
  ]

  pub add_chunk-IsSound :
      (index : ChunkIndex) (disk : Disk) (w : PackWriter) (hash bytes : Bytes)
      → IsChunk H (hash, bytes)
      → IsSound index disk w
      → IsSound index disk (add_chunk w hash bytes).0
  unfolding add_chunk
  add_chunk-IsSound index disk w hash bytes c s = record {
    chunks = All-append (IsChunk H) w.buffer _ s.chunks (c, tt);
    id_pos = s.id_pos;
    entries = λ h meta e. elim (s.entries h meta e) [
      | inl (zero_id, b, found) ↦ inl (zero_id, b, find_pending-append h w.buffer _ b found)
      | inr stored ↦ inr stored
    ];
  }

  -- A pack below the writer's next id reads the same where its file is the same.
  read_chunk_same :
      (before after : Disk) (pack_id offset : ℕ) (h : Bytes)
      → read_file after (pack_filename pack_id) ≡ read_file before (pack_filename pack_id)
      → Reader.read_chunk H after pack_id offset h ≡ Reader.read_chunk H before pack_id offset h
  unfolding Reader.read_chunk
  read_chunk_same before after pack_id offset h e = rw e

  module _ (io : Io) (index : ChunkIndex) (disk : Disk) (w : PackWriter) (s : IsSound index disk w)
      (fits : w.next_pack_id + 1 < 2 ^ 64) where
    abbrev f : Flushed
    f = flush H io w disk

    pub failed_flush-IsSound :
        (step : FlushStep) → f.result ≡ err step → IsSound index f.disk f.writer
    failed_flush-IsSound step e =
        let k : Kept w disk f = subst (Outcome H w disk f) e (flush-Outcome H io w disk) in
        record {
          chunks = rw k.buffer s.chunks;
          id_pos = omega (arith, k.next_pack_id);
          entries = λ h meta found. elim (s.entries h meta found) [
            | inl (zero_id, b, pending) ↦ inl (zero_id, b, rw k.buffer pending)
            | inr (pos, below, b, readable) ↦ inr (
              pos,
              omega (arith, k.next_pack_id),
              b,
              read_chunk_same disk f.disk meta.pack_id meta.pack_offset h (
                    k.files (pack_filename meta.pack_id)
                      (temp_ne_pack w.next_pack_id meta.pack_id (omega arith)))
                  ∙ readable,
            )
          ];
        }

    module _ (r : FlushResult) (e : f.result ≡ ok (some r)) where
      k : Written H w disk f r
      k = subst (Outcome H w disk f) e (flush-Outcome H io w disk)

      located : Located H f.disk r.pack_id r.chunk_locations w.buffer
      located = read_chunk-flush H io w disk r (omega (arith, fits)) e s.chunks

      -- What was readable before the flush is readable after it, at the relocated entry.
      entry_after :
          (h : Bytes) (old : ChunkMeta)
          → get index h ≡ some old
          → Readable f.disk f.writer h (relocated r.pack_id r.chunk_locations h old)
      entry_after h old was = elim (Option-cases (find_pending h w.buffer)) [
        | inr (bytes, pending) ↦
            let (id, b, readable) =
              find_pending-Placed H f.disk r.pack_id h r.chunk_locations w.buffer old bytes located
                pending in
            inr (
              omega (arith, k.pack_id, s.id_pos),
              omega (arith, k.pack_id, k.next_pack_id),
              b,
              rw id readable,
            )
        | inl absent ↦
            rw
              (find_pending-unplaced H f.disk r.pack_id h r.chunk_locations w.buffer old located
                absent)
              (elim (s.entries h old was) [
                | inl (zero_id, b, pending) ↦ absurd (cc)
                | inr (pos, below, b, readable) ↦ inr (
                  pos,
                  omega (arith, k.next_pack_id),
                  b,
                  read_chunk_same disk f.disk old.pack_id old.pack_offset h (
                        other_packs-flush H io w disk r (omega (arith, fits)) e old.pack_id
                          (omega arith) (omega arith))
                      ∙ readable,
                )
              ])
      ]

      pub written_flush-IsSound :
          IsSound (relocate r.pack_id r.chunk_locations index) f.disk f.writer
      written_flush-IsSound = record {
        chunks = rw k.buffer tt;
        id_pos = omega (arith, k.next_pack_id);
        entries = λ h meta found.
            from_old h meta (get index h) refl
              (sym (get-relocate r.pack_id r.chunk_locations index h) ∙ found);
      }
        where
          from_old :
              (h : Bytes) (meta : ChunkMeta) (o : Option ChunkMeta)
              → get index h ≡ o
              → map_meta (relocated r.pack_id r.chunk_locations h) o ≡ some meta
              → Readable f.disk f.writer h meta
          from_old h meta none was now = cc
          from_old h meta (some old) was now =
              subst (Readable f.disk f.writer h) (some-injective _ _ now) (entry_after h old was)
