-- ===== src/Compact/Cleaned.antt =====
-- What is gone after a `compact_packs` that succeeds.
use backup_shield.Base.{
  ℕ, ◌+◌, ◌%◌, ◌^◌, ◌≡◌, ◌≢◌, ◌⊎◌, refl, sym, ap, ◌∙◌, subst, inl, inr, Bool, true, false, Option,
  none, some, List, [], ◌∷◌, if◌then◌else◌, length, All, Any, Bytes, arith, Bool-cases,
  Option-cases, eq_bytes, eq_bytes_refl, eq_bytes_iff,
}
use backup_shield.Base.Result.{Result, ok, err}
use backup_shield.Hash.{Hashes}
use backup_shield.Pack.Name.{pack_filename}
use backup_shield.Pack.Disk.{Disk, read_file, remove_file, read-remove}
use backup_shield.Pack.Writer.{Io}
use backup_shield.Pack.Reader.{list_pack_ids, largest}
use backup_shield.Repository.Index.{
  ChunkMeta, ChunkIndex, get, remove, get-remove, get-cons, get-new_index,
}
use backup_shield.Compact.{
  CompactError, packs_unlisted, pack_not_deleted, CompactResult, Gathered, Rewrite, IndexIo,
  NewLocation, rewrite_packs, delete_packs, save_compacted, move_entries, orphans, remove_entries,
  compact_index, finish_compaction, index_and_delete, after_rewrite, after_gather, compact_ids,
  compact_packs,
}
use backup_shield.Compact.Safe.{save_cases}

delete_packs-none :
    (io : IndexIo) (ids : List ℕ) (disk : Disk) (name : Bytes)
    → read_file disk name ≡ none
    → read_file (delete_packs io ids disk).0 name ≡ none
unfolding delete_packs
delete_packs-none io [] disk name gone = gone
delete_packs-none io (id ∷ ids) disk name gone = elim (Bool-cases (io.pack_stat_fails id)) [
  | inl unasked ↦ rw unasked (delete_packs-none io ids disk name gone)
  | inr asked ↦ elim (Option-cases (read_file disk (pack_filename id))) [
    | inl absent ↦ rw asked (rw (absent, delete_packs) (delete_packs-none io ids disk name gone))
    | inr (content, there) ↦ elim (Bool-cases (io.delete_fails id)) [
      | inl failed ↦ rw asked (rw (there, delete_packs) (rw failed gone))
      | inr deleted ↦ rw asked (
          rw (there, delete_packs)
            (rw deleted (
              delete_packs-none io ids (remove_file disk (pack_filename id)) name
                (read-remove disk (pack_filename id) name ∙ ground (arith, gone)))))
    ]
  ]
]

-- The file of every pack in the list is gone.
abbrev pub Gone : Disk → List ℕ → Type 0
Gone disk ids = All (λ id. read_file disk (pack_filename id) ≡ none) ids

skipped :
    (io : IndexIo) (id : ℕ) (ids : List ℕ) (disk : Disk)
    → io.pack_stat_fails id ≡ false
    → read_file disk (pack_filename id) ≡ none
    → delete_packs io (id ∷ ids) disk ≡ delete_packs io ids disk
unfolding delete_packs
skipped io id ids disk asked absent = rw asked (rw (absent, delete_packs) refl)

removed :
    (io : IndexIo) (id : ℕ) (ids : List ℕ) (disk : Disk) (content : Bytes)
    → io.pack_stat_fails id ≡ false
    → read_file disk (pack_filename id) ≡ some content
    → io.delete_fails id ≡ false
    → delete_packs io (id ∷ ids) disk ≡ delete_packs io ids (remove_file disk (pack_filename id))
unfolding delete_packs
removed io id ids disk content asked there deleted =
    rw asked (rw (there, delete_packs) (rw deleted refl))

stopped :
    (io : IndexIo) (id : ℕ) (ids : List ℕ) (disk : Disk) (content : Bytes)
    → io.pack_stat_fails id ≡ false
    → read_file disk (pack_filename id) ≡ some content
    → io.delete_fails id ≡ true
    → delete_packs io (id ∷ ids) disk ≡ (disk, err (pack_not_deleted id))
unfolding delete_packs
stopped io id ids disk content asked there failed =
    rw asked (rw (there, delete_packs) (rw failed refl))

delete_packs-Gone :
    (io : IndexIo) (ids : List ℕ) (disk : Disk)
    → ((id : ℕ) → io.pack_stat_fails id ≡ false)
    → (delete_packs io ids disk).1 ≡ ok tt
    → Gone (delete_packs io ids disk).0 ids
delete_packs-Gone io [] disk asked done = tt
delete_packs-Gone io (id ∷ ids) disk asked done =
    elim (Option-cases (read_file disk (pack_filename id))) [
      | inl absent ↦
          let step = skipped io id ids disk (asked id) absent in
          after disk step absent
            (delete_packs-Gone io ids disk asked (ap (λ t. t.1) (sym step) ∙ done))
      | inr (content, there) ↦ elim (Bool-cases (io.delete_fails id)) [
        | inl failed ↦
            absurd
              (cc (ap (λ t. t.1) (stopped io id ids disk content (asked id) there failed), done))
        | inr deleted ↦
            let step = removed io id ids disk content (asked id) there deleted in
            after (remove_file disk (pack_filename id)) step
              (read-remove disk (pack_filename id) (pack_filename id)
                ∙ rw (eq_bytes_refl (pack_filename id)) refl)
              (delete_packs-Gone io ids (remove_file disk (pack_filename id)) asked
                (ap (λ t. t.1) (sym step) ∙ done))
      ]
    ]
  where
    after :
        (disk' : Disk)
        → delete_packs io (id ∷ ids) disk ≡ delete_packs io ids disk'
        → read_file disk' (pack_filename id) ≡ none
        → Gone (delete_packs io ids disk').0 ids
        → Gone (delete_packs io (id ∷ ids) disk).0 (id ∷ ids)
    after disk' step gone rest =
        subst (λ t. Gone t.0 (id ∷ ids)) (sym step)
          (delete_packs-none io ids disk' (pack_filename id) gone, rest)

remove_entries-none :
    (h : Bytes) (hashes : List Bytes) (index : ChunkIndex)
    → (get index h ≡ none) ⊎ Any (λ hash. hash ≡ h) hashes
    → get (remove_entries hashes index) h ≡ none
unfolding remove_entries
remove_entries-none h [] index (inl gone) = gone
remove_entries-none h [] index (inr among) = absurd among
remove_entries-none h (hash ∷ hashes) index (inl gone) =
    remove_entries-none h hashes (remove index hash)
      (inl (get-remove index hash h ∙ ground (arith, gone)))
remove_entries-none h (hash ∷ hashes) index (inr (inl same)) =
    remove_entries-none h hashes (remove index hash)
      (inl (get-remove index hash h ∙ ground (arith, eq_bytes_iff hash h, same)))
remove_entries-none h (hash ∷ hashes) index (inr (inr later)) =
    remove_entries-none h hashes (remove index hash) (inr later)

orphan_or_none :
    (live : Bytes → Bool) (h : Bytes) (entries : List (Bytes × ChunkMeta))
    → live h ≡ false
    → (get (record { entries = entries }) h ≡ none) ⊎ Any (λ hash. hash ≡ h) (orphans live entries)
unfolding orphans
orphan_or_none live h [] unused = inl (get-new_index h)
orphan_or_none live h ((hash, meta) ∷ entries) unused = elim (Bool-cases (eq_bytes hash h)) [
  | inl same ↦
      let own : hash ≡ h = (eq_bytes_iff hash h).0 same in
      rw ((ap live own ∙ unused), orphans) (inr (inl own))
  | inr other ↦ elim (orphan_or_none live h entries unused) [
    | inl gone ↦ inl (get-cons hash h meta entries ∙ rw other gone)
    | inr among ↦ inr (later (live hash) among)
  ]
]
  where
    later :
        (used : Bool)
        → Any (λ x. x ≡ h) (orphans live entries)
        → Any (λ x. x ≡ h) (if used then orphans live entries else hash ∷ orphans live entries)
    later true among = among
    later false among = inr among

get-compact_index-none :
    (live : Bytes → Bool) (h : Bytes) (locs : List NewLocation) (index : ChunkIndex)
    → live h ≡ false
    → get (compact_index live locs index) h ≡ none
unfolding compact_index
get-compact_index-none live h locs index unused =
    remove_entries-none h (orphans live (move_entries locs index).entries) (move_entries locs index)
      (orphan_or_none live h (move_entries locs index).entries unused)

-- No pack of the list is left, and the saved index has entries for chunks in use only.
abbrev pub Cleaned : (Bytes → Bool) → List ℕ → Disk → Option ChunkIndex → Type 0
Cleaned live ids disk saved =
    Gone disk ids
    × (index : ChunkIndex) × (saved ≡ some index)
    × ((h : Bytes) → live h ≡ false → get index h ≡ none)

module _ (H : Hashes) (flush_io : ℕ → Io) (io : IndexIo) (live : Bytes → Bool) (index : ChunkIndex)
    (asked : io.stat_fails ≡ false) (packs_asked : (id : ℕ) → io.pack_stat_fails id ≡ false) where
  finish-Cleaned :
      (g : Gathered) (packs_before packs_after : ℕ) (locs : List NewLocation) (ids : List ℕ)
      (r : CompactResult) (deleted : Disk × Result CompactError (Unit {0}))
      → (deleted.1 ≡ ok tt → Gone deleted.0 ids)
      → (finish_compaction g packs_before packs_after
          (some (compact_index live locs index))
          deleted).result
        ≡ ok r
      → let after =
          finish_compaction g packs_before packs_after
            (some (compact_index live locs index))
            deleted in
        Cleaned live ids after.disk after.saved_index
  unfolding finish_compaction
  finish-Cleaned g a b locs ids r (disk, err e) gone done = absurd (cc)
  finish-Cleaned g a b locs ids r (disk, ok tt) gone done = (
    gone refl,
    compact_index live locs index,
    refl,
    λ h unused. get-compact_index-none live h locs index unused,
  )

  rewritten-Cleaned :
      (ids : List ℕ) (g : Gathered) (s : Rewrite) (r : CompactResult)
      → (index_and_delete io ids g s
          (some index)
          (save_compacted io live s.new_locations (some index))).result
        ≡ ok r
      → let after =
          index_and_delete io ids g s
            (some index)
            (save_compacted io live s.new_locations (some index)) in
        Cleaned live ids after.disk after.saved_index
  unfolding index_and_delete
  rewritten-Cleaned ids g s r done = elim (save_cases io live s.new_locations index asked) [
    | inl (e, unsaved) ↦ absurd (cc (rw (unsaved, index_and_delete) at done))
    | inr saved ↦
        rw (saved, index_and_delete)
          (finish-Cleaned g (length ids) (length s.new_pack_ids) s.new_locations ids r
            (delete_packs io ids s.disk) (delete_packs-Gone io ids s.disk packs_asked)
            (rw (saved, index_and_delete) at done))
  ]

  after_rewrite-Cleaned :
      (ids : List ℕ) (g : Gathered) (r : CompactResult) (res : Result (CompactError × Disk) Rewrite)
      → (after_rewrite H flush_io io live ids g (some index) res).result ≡ ok r
      → let after = after_rewrite H flush_io io live ids g (some index) res in
        Cleaned live ids after.disk after.saved_index
  unfolding after_rewrite
  after_rewrite-Cleaned ids g r (err (e, disk)) done = absurd (cc)
  after_rewrite-Cleaned ids g r (ok s) done = rewritten-Cleaned ids g s r done

  after_gather-Cleaned :
      (pack_target_size : ℕ) (disk : Disk) (ids : List ℕ) (r : CompactResult)
      (res : Result CompactError Gathered)
      → (after_gather H flush_io io live pack_target_size disk (some index) ids res).result ≡ ok r
      → let after = after_gather H flush_io io live pack_target_size disk (some index) ids res in
        Cleaned live ids after.disk after.saved_index
  unfolding after_gather
  after_gather-Cleaned target disk ids r (err e) done = absurd (cc)
  after_gather-Cleaned target disk ids r (ok g) done =
      after_rewrite-Cleaned ids g r
        (rewrite_packs H flush_io ((largest ids + 1) % 2 ^ 64) target disk g.live_chunks) done

  compact_ids-Cleaned :
      (pack_target_size : ℕ) (disk : Disk) (ids : List ℕ) (r : CompactResult)
      → ids ≢ []
      → (compact_ids H flush_io io live pack_target_size disk (some index) ids).result ≡ ok r
      → let after = compact_ids H flush_io io live pack_target_size disk (some index) ids in
        Cleaned live ids after.disk after.saved_index
  unfolding compact_ids
  compact_ids-Cleaned target disk [] r some_pack done = absurd (some_pack refl)
  compact_ids-Cleaned target disk (id ∷ ids) r some_pack done =
      after_gather-Cleaned target disk (id ∷ ids) r _ done

  by_listing :
      (unlisted : Bool) (pack_target_size : ℕ) (disk : Disk) (r : CompactResult)
      → list_pack_ids disk ≢ []
      → (if unlisted
          then record { disk = disk; saved_index = some index; result = err packs_unlisted }
          else compact_ids H flush_io io live pack_target_size disk
              (some index)
              (list_pack_ids disk)).result
        ≡ ok r
      → let after =
          if unlisted
          then record { disk = disk; saved_index = some index; result = err packs_unlisted }
          else compact_ids H flush_io io live pack_target_size disk
              (some index)
              (list_pack_ids disk) in
        Cleaned live (list_pack_ids disk) after.disk after.saved_index
  by_listing true target disk r some_pack done = absurd (cc done)
  by_listing false target disk r some_pack done =
      compact_ids-Cleaned target disk (list_pack_ids disk) r some_pack done

  -- After a `compact_packs` that succeeds on a directory with a pack and a saved index, where no
  -- call of `exists` fails, on the saved index or on a pack, the file of every old pack is gone,
  -- and the saved index has no entry for a chunk that is not in use.
  pub compact_packs-Cleaned :
      (locked : Bool) (pack_target_size : ℕ) (disk : Disk) (r : CompactResult)
      → list_pack_ids disk ≢ []
      → (compact_packs H flush_io io live locked pack_target_size disk (some index)).result ≡ ok r
      → let after = compact_packs H flush_io io live locked pack_target_size disk (some index) in
        Cleaned live (list_pack_ids disk) after.disk after.saved_index
  unfolding compact_packs
  compact_packs-Cleaned locked target disk r some_pack done = elim (Bool-cases locked) [
    | inl in_use ↦ absurd (cc (rw (in_use, compact_packs) at done))
    | inr free ↦
        rw (free, compact_packs)
          (by_listing io.list_fails target disk r some_pack (rw (free, compact_packs) at done))
  ]
