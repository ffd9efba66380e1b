-- ===== src/Compact/Packs.antt =====
-- The second loop of `compact_packs`: the new packs, and the old ones that it leaves alone.
use backup_shield.Base.{
  ℕ, ◌+◌, ◌^◌, ◌≤◌, ◌<◌, ◌≡◌, ◌⊎◌, sym, ap, ◌∙◌, subst, inl, inr, Option, none, some, List, [], ◌∷◌,
  ◌++◌, leb, length, All, All-append, Any, Any-append_left, Any-append_right, Bytes, arith,
  Bool-cases,
}
use backup_shield.Base.Result.{Result, ok, err}
use backup_shield.Hash.{Hashes}
use backup_shield.Pack.Name.{pack_filename}
use backup_shield.Pack.Name.Distinct.{temp_ne_pack}
use backup_shield.Pack.Disk.{Disk, read_file}
use backup_shield.Pack.Format.{Chunk, Location}
use backup_shield.Pack.Writer.{PackWriter, FlushResult, FlushStep, Flushed, Io, flush}
use backup_shield.Pack.Writer.Atomic.{Kept, Written, Outcome, flush-Outcome}
use backup_shield.Pack.Reader.{read_chunk}
use backup_shield.Pack.RoundTrip.{IsChunk, Located}
use backup_shield.Pack.Stored.{read_chunk-flush, other_packs-flush}
use backup_shield.Compact.{CompactError, Rewrite, NewLocation, in_pack, record_flush}

-- The chunk of the hash is among them.
abbrev pub Among : Bytes → List Chunk → Type 0
Among h chunks = Any (λ c. c.0 ≡ h) chunks

abbrev pub Moved : Bytes → List NewLocation → Type 0
Moved h locs = Any (λ loc. loc.0 ≡ h) locs

pub flush_not_empty :
    (H : Hashes) (io : Io) (w : PackWriter) (disk : Disk) (r : FlushResult)
    → (flush H io w disk).result ≡ ok (some r)
    → 0 < length w.buffer
unfolding flush
flush_not_empty H io w disk r e = elim (Bool-cases (leb (length w.buffer) 0)) [
  | inl empty ↦ absurd (cc (rw (empty, flush) at e))
  | inr full ↦ ground (arith, full)
]

pub read_chunk-same :
    (H : Hashes) (before after : Disk) (pack_id offset : ℕ) (h : Bytes)
    → read_file after (pack_filename pack_id) ≡ read_file before (pack_filename pack_id)
    → read_chunk H after pack_id offset h ≡ read_chunk H before pack_id offset h
unfolding read_chunk
read_chunk-same H before after pack_id offset h e = rw e

module _ (H : Hashes) (old : Disk) (first total : ℕ) (room : first + total < 2 ^ 64) where
  -- The packs with an id below the first new one are as they were.
  abbrev pub OldKept : Disk → Type 0
  OldKept disk =
      (id : ℕ) → id < first → read_file disk (pack_filename id) ≡ read_file old (pack_filename id)

  -- The place is in a new pack, from which the chunk is read.
  abbrev pub InNewPack : Disk → ℕ → NewLocation → Type 0
  InNewPack disk next loc =
      (first ≤ loc.1)
      × (loc.1 < next)
      × (bytes : Bytes) × (read_chunk H disk loc.1 loc.2 loc.0 ≡ ok bytes)

  -- What holds after the chunks `done`.
  pub record Progress (done : List Chunk) (s : Rewrite) : Type 0 where
    pub floor : first ≤ s.writer.next_pack_id
    pub ceiling : s.writer.next_pack_id + length s.writer.buffer ≤ first + length done
    pub few : length done ≤ total
    pub buffered : All (IsChunk H) s.writer.buffer
    pub old_kept : OldKept s.disk
    pub placed : All (InNewPack s.disk s.writer.next_pack_id) s.new_locations
    pub reached : (h : Bytes) → Among h done → Among h s.writer.buffer ⊎ Moved h s.new_locations

  placed_again :
      (before after : Disk) (next next' : ℕ) (locs : List NewLocation)
      → next ≤ next'
      → ((id : ℕ)
          → id < next
          → read_file after (pack_filename id) ≡ read_file before (pack_filename id))
      → All (InNewPack before next) locs
      → All (InNewPack after next') locs
  placed_again before after next next' [] up same h = tt
  placed_again before after next next' (loc ∷ locs) up same h =
      let (low, high, bytes, readable) = h.0 in
      (
        (
          low,
          omega arith,
          bytes,
          read_chunk-same H before after loc.1 loc.2 loc.0 (same loc.1 high) ∙ readable,
        ),
        placed_again before after next next' locs up same h.1,
      )

  placed_now :
      (disk : Disk) (pack_id next : ℕ) (locs : List Location) (buffer : List Chunk)
      → first ≤ pack_id
      → pack_id < next
      → Located H disk pack_id locs buffer
      → All (InNewPack disk next) (in_pack pack_id locs)
  unfolding in_pack
  placed_now disk pack_id next [] buffer low high l = tt
  placed_now disk pack_id next (loc ∷ locs) [] low high l = absurd l
  placed_now disk pack_id next ((hash, offset, size) ∷ locs) ((h, bytes) ∷ buffer) low high l =
      ((low, high, bytes, l.2), placed_now disk pack_id next locs buffer low high l.3)

  Moved-now :
      (disk : Disk) (pack_id : ℕ) (h : Bytes) (locs : List Location) (buffer : List Chunk)
      → Located H disk pack_id locs buffer
      → Among h buffer
      → Moved h (in_pack pack_id locs)
  unfolding in_pack
  Moved-now disk pack_id h locs [] l among = absurd among
  Moved-now disk pack_id h [] (c ∷ buffer) l among = absurd l
  Moved-now disk pack_id h ((hash, offset, size) ∷ locs) ((k, bytes) ∷ buffer) l (inl same) =
      inl (l.0 ∙ same)
  Moved-now disk pack_id h ((hash, offset, size) ∷ locs) ((k, bytes) ∷ buffer) l (inr later) =
      inr (Moved-now disk pack_id h locs buffer l.3 later)

  -- A step either keeps the old packs and fails, or goes on.
  abbrev pub Step : List Chunk → Result (CompactError × Disk) Rewrite → Type 0
  Step done (err (e, disk)) = OldKept disk
  Step done (ok s) = Progress done s

  module _ (io : Io) (done : List Chunk) (s : Rewrite) (w : PackWriter)
      (h : Progress done (record s { writer = w })) where
    abbrev pub f : Flushed
    f = flush H io w s.disk

    fits : w.next_pack_id < 2 ^ 64
    fits = omega (arith, h.ceiling, h.few, room)

    failed_flush : (step : FlushStep) → f.result ≡ err step → OldKept f.disk
    failed_flush step e id low =
        let k : Kept w s.disk f = subst (Outcome H w s.disk f) e (flush-Outcome H io w s.disk) in
        k.files (pack_filename id)
          (temp_ne_pack w.next_pack_id id (omega (arith, low, h.floor, fits)))
        ∙ h.old_kept id low

    empty_flush : f.result ≡ ok none → Progress done (record s { writer = f.writer; disk = f.disk })
    empty_flush e =
        let k : Outcome H w s.disk f (ok none) =
          subst (Outcome H w s.disk f) e (flush-Outcome H io w s.disk) in
        subst (λ x. Progress done (record s { writer = f.writer; disk = x })) (sym k.2)
          (subst (λ x. Progress done (record s { writer = x })) (sym k.1) h)

    written_flush :
        (r : FlushResult)
        → f.result ≡ ok (some r)
        → Progress done (record {
          writer = f.writer;
          disk = f.disk;
          new_pack_ids = s.new_pack_ids ++ r.pack_id ∷ [];
          new_locations = s.new_locations ++ in_pack r.pack_id r.chunk_locations;
        })
    written_flush r e =
        let k : Written H w s.disk f r =
          subst (Outcome H w s.disk f) e (flush-Outcome H io w s.disk) in
        let located = read_chunk-flush H io w s.disk r fits e h.buffered in
        let others = other_packs-flush H io w s.disk r fits e in
        let full = flush_not_empty H io w s.disk r e in
        record {
          floor = omega (arith, k.next_pack_id, h.floor);
          ceiling = omega (arith, k.next_pack_id, h.ceiling, full, ap length k.buffer);
          few = h.few;
          buffered = subst (All (IsChunk H)) (sym k.buffer) tt;
          old_kept = λ id low.
              others id (omega (arith, low, h.floor, fits))
                (λ same. omega (arith, low, same, h.floor))
              ∙ h.old_kept id low;
          placed =
              All-append (InNewPack f.disk f.writer.next_pack_id) s.new_locations
                (in_pack r.pack_id r.chunk_locations)
                (placed_again s.disk f.disk w.next_pack_id f.writer.next_pack_id s.new_locations
                  (omega (arith, k.next_pack_id))
                  (λ id low.
                    others id (omega (arith, low, fits)) (λ same. omega (arith, low, same)))
                  h.placed)
                (placed_now f.disk r.pack_id f.writer.next_pack_id r.chunk_locations w.buffer
                  (omega (arith, k.pack_id, h.floor)) (omega (arith, k.pack_id, k.next_pack_id))
                  located);
          reached = λ x among. inr (elim (h.reached x among) [
            | inl buffered ↦
                Any-append_right (λ loc. loc.0 ≡ x) s.new_locations
                  (in_pack r.pack_id r.chunk_locations)
                  (Moved-now f.disk r.pack_id x r.chunk_locations w.buffer located buffered)
            | inr moved ↦
                Any-append_left (λ loc. loc.0 ≡ x) s.new_locations
                  (in_pack r.pack_id r.chunk_locations) moved
          ]);
        }

    pub flush-Step :
        (res : Result FlushStep (Option FlushResult))
        → f.result ≡ res
        → Step done (record_flush s f.writer f.disk res)
    unfolding record_flush
    flush-Step (err step) e = failed_flush step e
    flush-Step (ok none) e = empty_flush e
    flush-Step (ok (some r)) e = written_flush r e

    -- After the last flush nothing is left in the buffer.
    pub flush_empties :
        (res : Result FlushStep (Option FlushResult)) (after : Rewrite)
        → f.result ≡ res
        → record_flush s f.writer f.disk res ≡ ok after
        → after.writer.buffer ≡ []
    unfolding record_flush
    flush_empties (err step) after e left = absurd (cc)
    flush_empties (ok none) after e left =
        let k : Outcome H w s.disk f (ok none) =
          subst (Outcome H w s.disk f) e (flush-Outcome H io w s.disk) in
        cc (k.0, ap (λ x. x.buffer) k.1, left)
    flush_empties (ok (some r)) after e left =
        let k : Written H w s.disk f r =
          subst (Outcome H w s.disk f) e (flush-Outcome H io w s.disk) in
        cc (k.buffer, left)
