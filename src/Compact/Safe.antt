-- ===== src/Compact/Safe.antt =====
-- Wherever `compact_packs` stops, the chunks in use can be read through the index on disk.
use backup_shield.Base.{
  ℕ, ◌+◌, ◌%◌, ◌^◌, ◌≤◌, ◌<◌, ◌≡◌, ◌⊎◌, refl, ap, ◌∙◌, subst, inl, inr, Bool, true, false, Option,
  none, some, List, [], if◌then◌else◌, ◌∷◌, length, All, Any, Bytes, arith, Bool-cases,
  Option-cases, eq_bytes, eq_of_eq_bytes,
}
use backup_shield.Base.Result.{Result, ok, err, ok_or, >>=-eq-ok}
use backup_shield.Hash.{Hashes}
use backup_shield.Pack.Name.{pack_filename}
use backup_shield.Pack.Name.Distinct.{pack_filename-injective}
use backup_shield.Pack.Disk.{Disk, read_file, remove_file, read-remove}
use backup_shield.Pack.Format.{Location}
use backup_shield.Pack.Writer.{Io}
use backup_shield.Pack.Reader.{
  read_chunk, list_chunks, list_pack_ids, largest, max_pack_id, no_file,
}
use backup_shield.Pack.Reader.Ids.{le-max_pack_id}
use backup_shield.Repository.Index.{ChunkMeta, ChunkIndex, get}
use backup_shield.Compact.{
  CompactError, packs_unlisted, index_unreadable, index_unsaved, Gathered, nothing_gathered,
  gather_packs, Rewrite, NewLocation, rewrite_packs, IndexIo, delete_packs, save_compacted,
  compact_index, finish_compaction, index_and_delete, after_rewrite, after_gather, compact_ids,
  compact_packs,
}
use backup_shield.Compact.Packs.{Among, InNewPack, read_chunk-same}
use backup_shield.Compact.Gather.{FilesOfBytes, Listed, ListedIn, gather_packs-Grown}
use backup_shield.Compact.Loop.{Settled, rewrite_packs-Settled}
use backup_shield.Compact.Entries.{get-compact_index, list_pack_ids-Any}

delete_packs-kept :
    (io : IndexIo) (ids : List ℕ) (disk : Disk) (x : ℕ)
    → x < 2 ^ 64
    → All (λ id. (id < 2 ^ 64) × (id < x)) ids
    → read_file (delete_packs io ids disk).0 (pack_filename x) ≡ read_file disk (pack_filename x)
unfolding delete_packs
delete_packs-kept io [] disk x fits others = refl
delete_packs-kept io (id ∷ ids) disk x fits others = elim (Bool-cases (io.pack_stat_fails id)) [
  | inl unasked ↦ rw unasked (delete_packs-kept io ids disk x fits others.1)
  | inr asked ↦ elim (Option-cases (read_file disk (pack_filename id))) [
    | inl absent ↦
        rw asked (rw (absent, delete_packs) (delete_packs-kept io ids disk x fits others.1))
    | inr (content, there) ↦ elim (Bool-cases (io.delete_fails id)) [
      | inl failed ↦ rw asked (rw (there, delete_packs) (rw failed refl))
      | inr deleted ↦ rw asked (
          rw (there, delete_packs)
            (rw deleted (
              delete_packs-kept io ids (remove_file disk (pack_filename id)) x fits others.1
              ∙ (read-remove disk (pack_filename id) (pack_filename x) ∙ rw other_name refl))))
    ]
  ]
]
  where
    other_name : eq_bytes (pack_filename id) (pack_filename x) ≡ false
    other_name = elim (Bool-cases (eq_bytes (pack_filename id) (pack_filename x))) [
      | inl same ↦ absurd (
          omega (
            arith,
            others.0.1,
            pack_filename-injective id x others.0.0 fits (eq_of_eq_bytes _ _ same),
          ))
      | inr other ↦ other
    ]

below_largest :
    (ids : List ℕ) (bound : ℕ)
    → largest ids < bound
    → bound < 2 ^ 64
    → (x : ℕ) → bound ≤ x
    → All (λ id. (id < 2 ^ 64) × (id < x)) ids
unfolding largest
below_largest [] bound small fits x above = tt
below_largest (id ∷ ids) bound small fits x above = (
  (omega (arith, small, fits), omega (arith, small, above)),
  below_largest ids bound (omega (arith, small)) fits x above,
)

pub save_cases :
    (io : IndexIo) (live : Bytes → Bool) (locs : List NewLocation) (index : ChunkIndex)
    → io.stat_fails ≡ false
    → ((e : CompactError) × (save_compacted io live locs (some index) ≡ err e))
      ⊎ (save_compacted io live locs (some index) ≡ ok (some (compact_index live locs index)))
unfolding save_compacted
save_cases io live locs index asked = elim (Bool-cases io.read_fails) [
  | inl unread ↦ inl (index_unreadable, ground (arith, asked, unread))
  | inr was_read ↦ elim (Bool-cases io.save_fails) [
    | inl unsaved ↦ inl (index_unsaved, ground (arith, asked, was_read, unsaved))
    | inr saved ↦ inr (ground (arith, asked, was_read, saved))
  ]
]

le-largest_id :
    (disk : Disk) (id : ℕ) (content : Bytes)
    → id < 2 ^ 64
    → read_file disk (pack_filename id) ≡ some content
    → id ≤ largest (list_pack_ids disk)
unfolding max_pack_id
le-largest_id = le-max_pack_id

module _ (H : Hashes) where
  -- The index has an entry for the hash, and the chunk is read from the place that it names.
  abbrev pub ReadableAt : Disk → Option ChunkIndex → Bytes → Type 0
  ReadableAt disk saved h =
      (index : ChunkIndex) × (meta : ChunkMeta) × (bytes : Bytes) × (saved ≡ some index)
      × (get index h ≡ some meta)
      × (read_chunk H disk meta.pack_id meta.pack_offset h ≡ ok bytes)

  finish-ReadableAt :
      (g : Gathered) (packs_before packs_after : ℕ) (saved : Option ChunkIndex) (h : Bytes)
      (deleted : Disk × Result CompactError (Unit {0}))
      → ReadableAt deleted.0 saved h
      → let after = finish_compaction g packs_before packs_after saved deleted in
        ReadableAt after.disk after.saved_index h
  unfolding finish_compaction
  finish-ReadableAt g packs_before packs_after saved h (disk, err e) r = r
  finish-ReadableAt g packs_before packs_after saved h (disk, ok u) r = r

  -- So it is, and the pack lists the chunk.
  pub record InPack (disk : Disk) (index : ChunkIndex) (h : Bytes) : Type 0 where
    pub meta : ChunkMeta
    pub bytes : Bytes
    pub chunk_list : List Location
    pub entry : get index h ≡ some meta
    pub fits : meta.pack_id < 2 ^ 64
    pub readable : read_chunk H disk meta.pack_id meta.pack_offset h ≡ ok bytes
    pub listing : list_chunks disk meta.pack_id ≡ ok chunk_list
    pub listed : Listed h chunk_list

  pack_file :
      (disk : Disk) (pack_id offset : ℕ) (h bytes : Bytes)
      → read_chunk H disk pack_id offset h ≡ ok bytes
      → (content : Bytes) × (read_file disk (pack_filename pack_id) ≡ some content)
  unfolding read_chunk
  pack_file disk pack_id offset h bytes read =
      let (file, found, rest) =
        >>=-eq-ok (ok_or (read_file disk (pack_filename pack_id)) no_file) _ read in
      (file, is_some (read_file disk (pack_filename pack_id)) file found)
    where
      is_some : (o : Option Bytes) (file : Bytes) → ok_or o no_file ≡ ok file → o ≡ some file
      is_some none file e = absurd (cc)
      is_some (some f) file e = cc

  module _ (disk : Disk) (index : ChunkIndex) (h : Bytes) (was : InPack disk index h) where
    abbrev first_new : ℕ
    first_new = largest (list_pack_ids disk) + 1

    own_pack_below : was.meta.pack_id < first_new
    own_pack_below =
        let (content, found) =
          pack_file disk was.meta.pack_id was.meta.pack_offset h was.bytes was.readable in
        omega (arith, le-largest_id disk was.meta.pack_id content was.fits found)

    still_readable :
        (after : Disk)
        → ((id : ℕ)
            → id < first_new
            → read_file after (pack_filename id) ≡ read_file disk (pack_filename id))
        → ReadableAt after (some index) h
    still_readable after kept = (
      index,
      was.meta,
      was.bytes,
      refl,
      was.entry,
      read_chunk-same H disk after was.meta.pack_id was.meta.pack_offset h
            (kept was.meta.pack_id own_pack_below)
          ∙ was.readable,
    )

    listed_in : ListedIn disk h (list_pack_ids disk)
    listed_in =
        let (content, found) =
          pack_file disk was.meta.pack_id was.meta.pack_offset h was.bytes was.readable in
        at_own (list_pack_ids disk) (list_pack_ids-Any disk was.meta.pack_id content was.fits found)
      where
        at_own : (ids : List ℕ) → Any (λ i. i ≡ was.meta.pack_id) ids → ListedIn disk h ids
        at_own [] among = absurd among
        at_own (id ∷ ids) (inl same) =
            inl (was.chunk_list, ap (list_chunks disk) same ∙ was.listing, was.listed)
        at_own (id ∷ ids) (inr later) = inr (at_own ids later)

    module _ (live : Bytes → Bool) (used : live h ≡ true) (io : IndexIo)
        (asked : io.stat_fails ≡ false) (g : Gathered)
        (room : first_new + length g.live_chunks < 2 ^ 64) where
      -- A new place, read from whatever the deletion leaves.
      at_new_places :
          (s : Rewrite) (disk' : Disk)
          → ((id : ℕ)
              → first_new ≤ id
              → id < 2 ^ 64
              → read_file disk' (pack_filename id) ≡ read_file s.disk (pack_filename id))
          → s.writer.next_pack_id ≤ first_new + length g.live_chunks
          → (locs : List NewLocation)
          → All
              (InNewPack H disk first_new (length g.live_chunks) room s.disk s.writer.next_pack_id)
              locs
          → All
              (λ loc. loc.0 ≡ h → (bytes : Bytes) × (read_chunk H disk' loc.1 loc.2 h ≡ ok bytes))
              locs
      at_new_places s disk' same below [] placed = tt
      at_new_places s disk' same below (loc ∷ locs) placed =
          let (low, high, bytes, readable) = placed.0 in
          (
            λ own. (
              bytes,
              subst (λ t. read_chunk H disk' loc.1 loc.2 t ≡ ok bytes) own
                  (read_chunk-same H s.disk disk' loc.1 loc.2 loc.0
                      (same loc.1 low (omega (arith, high, below, room)))
                    ∙ readable),
            ),
            at_new_places s disk' same below locs placed.1,
          )

      deleted_same :
          (s : Rewrite) (id : ℕ)
          → first_new ≤ id
          → id < 2 ^ 64
          → read_file (delete_packs io (list_pack_ids disk) s.disk).0 (pack_filename id)
            ≡ read_file s.disk (pack_filename id)
      deleted_same s id low fits =
          delete_packs-kept io (list_pack_ids disk) s.disk id fits (
            below_largest (list_pack_ids disk) first_new (omega arith) (omega (arith, room)) id low)

      rewritten-ReadableAt :
          (r : Result (CompactError × Disk) Rewrite) (flush_io : ℕ → Io)
          → Settled H flush_io disk first_new (length g.live_chunks) room g.live_chunks r
          → Among h g.live_chunks
          → let after = after_rewrite H flush_io io live (list_pack_ids disk) g (some index) r in
            ReadableAt after.disk after.saved_index h
      unfolding after_rewrite index_and_delete
      rewritten-ReadableAt (err (e, disk')) flush_io k among = still_readable disk' k
      rewritten-ReadableAt (ok s) flush_io k among =
          elim (save_cases io live s.new_locations index asked) [
            | inl (e, unsaved) ↦ rw (unsaved, index_and_delete) (still_readable s.disk k.0)
            | inr saved ↦
                rw (saved, index_and_delete)
                  (finish-ReadableAt g (length (list_pack_ids disk)) (length s.new_pack_ids)
                    (some (compact_index live s.new_locations index)) h
                    (delete_packs io (list_pack_ids disk) s.disk) moved_on)
          ]
        where
          moved_on :
              ReadableAt
                (delete_packs io (list_pack_ids disk) s.disk).0
                (some (compact_index live s.new_locations index))
                h
          moved_on =
              let disk' = (delete_packs io (list_pack_ids disk) s.disk).0 in
              let (meta', entry, (bytes, readable)) =
                get-compact_index
                  (λ id offset. (bytes : Bytes) × (read_chunk H disk' id offset h ≡ ok bytes)) live
                  h s.new_locations index was.meta used
                  (at_new_places s disk' (deleted_same s) k.2 s.new_locations k.1) was.entry
                  (k.3 h among) in
              (compact_index live s.new_locations index, meta', bytes, refl, entry, readable)

      gathered-ReadableAt :
          (flush_io : ℕ → Io) (pack_target_size : ℕ)
          → FilesOfBytes H disk
          → gather_packs H live disk (list_pack_ids disk) nothing_gathered ≡ ok g
          → let after =
              after_rewrite H flush_io io live
                (list_pack_ids disk)
                g
                (some index)
                (rewrite_packs H flush_io first_new pack_target_size disk g.live_chunks) in
            ReadableAt after.disk after.saved_index h
      gathered-ReadableAt flush_io pack_target_size files gathered =
          let (grown, kept) =
            gather_packs-Grown H live disk files (list_pack_ids disk) nothing_gathered g gathered in
          rewritten-ReadableAt
            (rewrite_packs H flush_io first_new pack_target_size disk g.live_chunks) flush_io
            (rewrite_packs-Settled H flush_io disk first_new (length g.live_chunks) room
              pack_target_size g.live_chunks (grown.chunks tt) (omega arith))
            (kept h used listed_in)

  -- Whatever the file system answers to the calls of the flushes, to the listing of the packs, to
  -- the reading and the saving of the index and to the tests and deletions of old packs in
  -- `compact_packs`, provided that `exists` on the saved index does not fail, and whether the
  -- function succeeds or stops with an error at any of these points: a chunk in use that the
  -- saved index places in a pack below 2^64 from which it is read and in whose list it stands can
  -- afterwards be read from the files on disk at the place that the index on disk names. The
  -- files are made of bytes, and the ids of the packs leave one below 2^64 for every chunk that
  -- is kept.
  pub compact_packs-ReadableAt :
      (flush_io : ℕ → Io) (io : IndexIo) (live : Bytes → Bool) (locked : Bool)
      (pack_target_size : ℕ) (disk : Disk) (index : ChunkIndex) (h : Bytes)
      → FilesOfBytes H disk
      → ((g : Gathered)
          → gather_packs H live disk (list_pack_ids disk) nothing_gathered ≡ ok g
          → largest (list_pack_ids disk) + 1 + length g.live_chunks < 2 ^ 64)
      → io.stat_fails ≡ false
      → live h ≡ true
      → InPack disk index h
      → let after = compact_packs H flush_io io live locked pack_target_size disk (some index) in
        ReadableAt after.disk after.saved_index h
  unfolding compact_packs compact_ids after_gather
  compact_packs-ReadableAt flush_io io live locked pack_target_size disk index h files room asked
        used was =
      elim (Bool-cases locked) [
        | inl in_use ↦ rw (in_use, compact_packs) unchanged
        | inr free ↦ rw (free, compact_packs) (by_listing io.list_fails)
      ]
    where
      unchanged : ReadableAt disk (some index) h
      unchanged = (index, was.meta, was.bytes, refl, was.entry, was.readable)

      gathered :
          (r : Result CompactError Gathered)
          → gather_packs H live disk (list_pack_ids disk) nothing_gathered ≡ r
          → let after =
              after_gather H flush_io io live pack_target_size disk
                (some index)
                (list_pack_ids disk)
                r in
            ReadableAt after.disk after.saved_index h
      gathered (err e) same = unchanged
      gathered (ok g) same =
          let next : (largest (list_pack_ids disk) + 1) % 2 ^ 64
              ≡ largest (list_pack_ids disk) + 1 =
            omega (arith, room g same) in
          rw next (
            gathered-ReadableAt disk index h was live used io asked g (room g same) flush_io
              pack_target_size files same)

      by_ids :
          (ids : List ℕ)
          → list_pack_ids disk ≡ ids
          → let after = compact_ids H flush_io io live pack_target_size disk (some index) ids in
            ReadableAt after.disk after.saved_index h
      by_ids [] same = unchanged
      by_ids (first ∷ others) same =
          subst
            (λ ids.
              let after =
                after_gather H flush_io io live pack_target_size disk (some index) ids
                  (gather_packs H live disk ids nothing_gathered) in
              ReadableAt after.disk after.saved_index h)
            same (gathered (gather_packs H live disk (list_pack_ids disk) nothing_gathered) refl)

      by_listing :
          (unlisted : Bool)
          → let after =
              if unlisted
              then record { disk = disk; saved_index = some index; result = err packs_unlisted }
              else compact_ids H flush_io io live pack_target_size disk
                  (some index)
                  (list_pack_ids disk) in
            ReadableAt after.disk after.saved_index h
      by_listing true = unchanged
      by_listing false = by_ids (list_pack_ids disk) refl
