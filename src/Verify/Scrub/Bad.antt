-- ===== src/Verify/Scrub/Bad.antt =====
-- The hashes that a scrub finds bad are hashes of the index, also in the groups to be repaired.
use backup_shield.Base.{
  ℕ, ◌≤◌, ◌≡◌, refl, subst, inl, inr, true, some, List, [], ◌∷◌, ◌==◌, length, length-take, All,
  All-append, for_each, for_each-keeps_all, Bytes, eq_bytes, eq_bytes_refl, eq_of_eq_bytes,
  Bool-cases, Option-cases, arith,
}
use backup_shield.Base.Result.{Result, ok, err}
use backup_shield.Hash.{Hashes, compute_hash}
use backup_shield.Pack.Disk.{Disk}
use backup_shield.Repository.Index.{ChunkMeta, ChunkIndex, get, get-cons}
use backup_shield.Ecc.Parity.{ParityIndex, has_hash, find_group_by_hash}
use backup_shield.Verify.Report.{VerifyError}
use backup_shield.Verify.Chunks.{ReadError, read_chunk_from_index}
use backup_shield.Verify.Checker.{all_hashes}
use backup_shield.Verify.Scrub.{
  ScrubProgress, ScrubState, report_bad, scrub_read, scrub_chunk, scrub_chunks,
}
use backup_shield.Verify.Scrub.Repair.{BadGroups, push_bad, group_bad, cut_to_size}

abbrev pub InIndex : ChunkIndex → Bytes → Type 0
InIndex index h = (meta : ChunkMeta) × (get index h ≡ some meta)

InIndex-cons :
    (k h : Bytes) (meta : ChunkMeta) (l : List (Bytes × ChunkMeta))
    → InIndex (record { entries = l }) h
    → InIndex (record { entries = (k, meta) ∷ l }) h
InIndex-cons k h meta l (old, found) = elim (Bool-cases (eq_bytes k h)) [
  | inl same ↦ (meta, rw (get-cons k h meta l, same) refl)
  | inr other ↦ (old, rw (get-cons k h meta l, other) found)
]

All-InIndex-cons :
    (k : Bytes) (meta : ChunkMeta) (l : List (Bytes × ChunkMeta)) (hs : List Bytes)
    → All (InIndex (record { entries = l })) hs
    → All (InIndex (record { entries = (k, meta) ∷ l })) hs
All-InIndex-cons k meta l [] a = tt
All-InIndex-cons k meta l (h ∷ hs) a =
    (InIndex-cons k h meta l a.0, All-InIndex-cons k meta l hs a.1)

pub all_hashes-InIndex :
    (l : List (Bytes × ChunkMeta))
    → All (InIndex (record { entries = l })) (all_hashes (record { entries = l }))
unfolding all_hashes
all_hashes-InIndex [] = tt
all_hashes-InIndex ((k, meta) ∷ l) = (
  (meta, rw (get-cons k k meta l, eq_bytes_refl k) refl),
  All-InIndex-cons k meta l (all_hashes (record { entries = l })) (all_hashes-InIndex l),
)

module _ (index : ChunkIndex) where
  abbrev pub BadIn : ScrubState → Type 0
  BadIn s = All (InIndex index) s.bad_hashes

  scrub_read-BadIn :
      (H : Hashes) (disk : Disk) (hash : Bytes) (r : Result ReadError Bytes) (s : ScrubState)
      → InIndex index hash
      → BadIn s
      → BadIn (scrub_read H disk index hash r s)
  unfolding scrub_read report_bad
  scrub_read-BadIn H disk hash (err e) s here bad =
      All-append (InIndex index) s.bad_hashes (hash ∷ []) bad (here, tt)
  scrub_read-BadIn H disk hash (ok bytes) s here bad =
      elim (Bool-cases (eq_bytes (compute_hash H bytes) hash)) [
        | inl same ↦ rw same bad
        | inr other ↦ rw other (All-append (InIndex index) s.bad_hashes (hash ∷ []) bad (here, tt))
      ]

  pub scrub_chunks-BadIn :
      (H : Hashes) (disk : Disk) (errors : List VerifyError) (progress : ScrubProgress)
      → BadIn (scrub_chunks H disk index errors progress)
  unfolding scrub_chunks scrub_chunk
  scrub_chunks-BadIn H disk errors progress =
      for_each-keeps_all (scrub_chunk H disk index) (InIndex index) BadIn
        (λ hash s here bad.
          scrub_read-BadIn H disk hash (read_chunk_from_index H disk index hash) s here bad)
        (all_hashes index) _ (all_hashes-InIndex index.entries) tt

  -- All hashes of the groups are in the index.
  abbrev pub GroupsIn : BadGroups → Type 0
  GroupsIn = All (λ group. All (InIndex index) group.1)

  push_bad-GroupsIn :
      (id : ℕ) (hash : Bytes) (groups : BadGroups)
      → InIndex index hash
      → GroupsIn groups
      → GroupsIn (push_bad id hash groups)
  unfolding push_bad
  push_bad-GroupsIn id hash [] here all = ((here, tt), tt)
  push_bad-GroupsIn id hash ((g, hashes) ∷ groups) here all = elim (Bool-cases (g == id)) [
    | inl same ↦ rw same (All-append (InIndex index) hashes (hash ∷ []) all.0 (here, tt), all.1)
    | inr other ↦ rw other (all.0, push_bad-GroupsIn id hash groups here all.1)
  ]

  group_bad-GroupsIn :
      (parity : ParityIndex) (hash : Bytes) (groups : BadGroups)
      → InIndex index hash
      → GroupsIn groups
      → GroupsIn (group_bad parity hash groups)
  unfolding group_bad
  group_bad-GroupsIn parity hash groups here all =
      elim (Option-cases (find_group_by_hash parity hash)) [
        | inl none_found ↦ rw (none_found, group_bad) all
        | inr (g, found) ↦ rw (found, group_bad) (push_bad-GroupsIn g.group_id hash groups here all)
      ]

  pub all_groups-GroupsIn :
      (parity : ParityIndex) (bad : List Bytes)
      → All (InIndex index) bad
      → GroupsIn (for_each (group_bad parity) bad [])
  all_groups-GroupsIn parity bad all =
      for_each-keeps_all (group_bad parity) (InIndex index) GroupsIn (group_bad-GroupsIn parity) bad
        [] all tt

  pub has_hash-InIndex :
      (hash : Bytes) (bad : List Bytes)
      → has_hash hash bad ≡ true
      → All (InIndex index) bad
      → InIndex index hash
  unfolding has_hash
  has_hash-InIndex hash [] found all = cc
  has_hash-InIndex hash (k ∷ bad) found all = elim (Bool-cases (eq_bytes k hash)) [
    | inl same ↦ subst (InIndex index) (eq_of_eq_bytes k hash same) all.0
    | inr other ↦ has_hash-InIndex hash bad (rw other at found) all.1
  ]

pub length-cut_to_size :
    (meta : ChunkMeta) (shard : Bytes) → length (cut_to_size (some meta) shard) ≤ meta.size
unfolding cut_to_size
length-cut_to_size meta shard = ground (arith, length-take meta.size shard)
