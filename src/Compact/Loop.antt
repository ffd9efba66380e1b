-- ===== src/Compact/Loop.antt =====
-- The second loop of `compact_packs` as a whole, with its last flush.
use backup_shield.Base.{
  ℕ, ◌+◌, ◌^◌, ◌≤◌, ◌<◌, ◌≡◌, refl, sym, subst, inl, inr, List, [], ◌∷◌, ◌++◌, append-nil,
  append_assoc, length, length-append, All, All-append, Any-append, Any-append_left,
  Any-append_right, Bytes, arith, Bool-cases,
}
use backup_shield.Base.Result.{Result, ok, err, ◌>>=◌}
use backup_shield.Hash.{Hashes}
use backup_shield.Pack.Disk.{Disk}
use backup_shield.Pack.Format.{Chunk}
use backup_shield.Pack.Writer.{PackWriter, Io, new_writer, add_chunk, flush, finish}
use backup_shield.Pack.RoundTrip.{IsChunk}
use backup_shield.Compact.{
  CompactError, Rewrite, record_flush, rewrite_chunk, rewrite_chunks, rewrite_packs,
}
use backup_shield.Compact.Packs.{
  Among, Moved, OldKept, InNewPack, Progress, Step, flush-Step, flush_empties,
}

module _ (H : Hashes) (io : ℕ → Io) (old : Disk) (first total : ℕ)
    (room : first + total < 2 ^ 64) where
  abbrev added : Rewrite → Chunk → PackWriter
  added s (hash, bytes) = (add_chunk s.writer hash bytes).0

  add_chunk-Progress :
      (done : List Chunk) (s : Rewrite) (hash bytes : Bytes)
      → Progress H old first total room done s
      → IsChunk H (hash, bytes)
      → length done + 1 ≤ total
      → Progress H old first total room
          (done ++ (hash, bytes) ∷ [])
          (record s { writer = (add_chunk s.writer hash bytes).0 })
  unfolding add_chunk
  add_chunk-Progress done s hash bytes h chunk few = record {
    floor = h.floor;
    ceiling = omega (
      arith,
      h.ceiling,
      length-append s.writer.buffer ((hash, bytes) ∷ []),
      length-append done ((hash, bytes) ∷ []),
    );
    few = omega (arith, few, length-append done ((hash, bytes) ∷ []));
    buffered = All-append (IsChunk H) s.writer.buffer ((hash, bytes) ∷ []) h.buffered (chunk, tt);
    old_kept = h.old_kept;
    placed = h.placed;
    reached = λ x among. elim (Any-append (λ c. c.0 ≡ x) done ((hash, bytes) ∷ []) among) [
      | inl before ↦ elim (h.reached x before) [
        | inl buffered ↦
            inl (Any-append_left (λ c. c.0 ≡ x) s.writer.buffer ((hash, bytes) ∷ []) buffered)
        | inr moved ↦ inr moved
      ]
      | inr now ↦ inl (Any-append_right (λ c. c.0 ≡ x) s.writer.buffer ((hash, bytes) ∷ []) now)
    ];
  }

  rewrite_chunk-Step :
      (done : List Chunk) (s : Rewrite) (chunk : Chunk)
      → Progress H old first total room done s
      → IsChunk H chunk
      → length done + 1 ≤ total
      → Step H old first total room (done ++ chunk ∷ []) (rewrite_chunk H io chunk s)
  unfolding rewrite_chunk
  rewrite_chunk-Step done s (hash, bytes) h chunk few =
      let w = (add_chunk s.writer hash bytes).0 in
      let grown = add_chunk-Progress done s hash bytes h chunk few in
      elim (Bool-cases (add_chunk s.writer hash bytes).1) [
        | inl full ↦
            rw (full, rewrite_chunk)
              (flush-Step H old first total room (io w.next_pack_id) (done ++ (hash, bytes) ∷ []) s
                w grown (flush H (io w.next_pack_id) w s.disk).result refl)
        | inr open_buffer ↦ rw (open_buffer, rewrite_chunk) grown
      ]

  rewrite_chunks-Step :
      (chunks done : List Chunk) (s : Rewrite)
      → Progress H old first total room done s
      → All (IsChunk H) chunks
      → length done + length chunks ≤ total
      → Step H old first total room (done ++ chunks) (rewrite_chunks H io chunks s)
  unfolding rewrite_chunks
  rewrite_chunks-Step [] done s h all few =
      subst (λ t. Progress H old first total room t s) (sym (append-nil done)) h
  rewrite_chunks-Step (chunk ∷ chunks) done s h all few =
      go (rewrite_chunks-Step chunks) (rewrite_chunk H io chunk s)
        (rewrite_chunk-Step done s chunk h all.0 (omega arith))
    where
      go :
          ((done : List Chunk) (s : Rewrite)
            → Progress H old first total room done s
            → All (IsChunk H) chunks
            → length done + length chunks ≤ total
            → Step H old first total room (done ++ chunks) (rewrite_chunks H io chunks s))
          → (res : Result (CompactError × Disk) Rewrite)
          → Step H old first total room (done ++ chunk ∷ []) res
          → Step H old first total room
              (done ++ chunk ∷ chunks)
              (res >>= λ s'. rewrite_chunks H io chunks s')
      go later (err (e, disk)) k = k
      go later (ok s') k =
          subst (λ t. Step H old first total room t (rewrite_chunks H io chunks s'))
            (append_assoc done (chunk ∷ []) chunks)
            (later (done ++ chunk ∷ []) s' k all.1
              (omega (arith, few, length-append done (chunk ∷ []))))

  -- The packs that are written hold all the chunks, or the old packs are as they were.
  abbrev pub Settled : List Chunk → Result (CompactError × Disk) Rewrite → Type 0
  Settled chunks (err (e, disk)) = OldKept H old first total room disk
  Settled chunks (ok s) =
      OldKept H old first total room s.disk
      × All (InNewPack H old first total room s.disk s.writer.next_pack_id) s.new_locations
      × (s.writer.next_pack_id ≤ first + total)
      × ((h : Bytes) → Among h chunks → Moved h s.new_locations)

  pub rewrite_packs-Settled :
      (pack_target_size : ℕ) (chunks : List Chunk)
      → All (IsChunk H) chunks
      → length chunks ≤ total
      → Settled chunks (rewrite_packs H io first pack_target_size old chunks)
  unfolding rewrite_packs
  rewrite_packs-Settled pack_target_size chunks all few =
      go (rewrite_chunks H io chunks start)
        (rewrite_chunks-Step chunks [] start start_progress all (omega (arith, few)))
    where
      start : Rewrite
      start = record {
        writer = new_writer first pack_target_size;
        disk = old;
        new_pack_ids = [];
        new_locations = [];
      }

      start_progress : Progress H old first total room [] start
      start_progress =
          unfold new_writer in
          record {
            floor = omega arith;
            ceiling = omega arith;
            few = omega arith;
            buffered = tt;
            old_kept = λ id low. refl;
            placed = tt;
            reached = λ x among. absurd among;
          }

      last_flush : Rewrite → Result (CompactError × Disk) Rewrite
      last_flush s =
          let f = finish H (io s.writer.next_pack_id) s.writer s.disk in
          record_flush s f.writer f.disk f.result

      emptied :
          (s : Rewrite) (res : Result (CompactError × Disk) Rewrite)
          → last_flush s ≡ res
          → Progress H old first total room chunks s
          → Step H old first total room chunks res
          → Settled chunks res
      emptied s (err (e, disk)) same h k = k
      emptied s (ok after) same h k =
          let empty =
            flush_empties H old first total room (io s.writer.next_pack_id) chunks s s.writer h
              (flush H (io s.writer.next_pack_id) s.writer s.disk).result after refl
              (unfold finish in same) in
          (
            k.old_kept,
            k.placed,
            omega (arith, k.ceiling, k.few),
            λ x among. elim (k.reached x among) [
              | inl buffered ↦ absurd (subst (Among x) empty buffered)
              | inr moved ↦ moved
            ],
          )

      go :
          (res : Result (CompactError × Disk) Rewrite)
          → Step H old first total room chunks res
          → Settled chunks (res >>= last_flush)
      go (err (e, disk)) k = k
      go (ok s) k = emptied s (last_flush s) refl k (
          unfold finish in
          flush-Step H old first total room (io s.writer.next_pack_id) chunks s s.writer k
            (flush H (io s.writer.next_pack_id) s.writer s.disk).result refl)
