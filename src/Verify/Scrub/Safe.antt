-- ===== src/Verify/Scrub/Safe.antt =====
-- `scrub_and_repair` loses no chunk, whatever fails.
use backup_shield.Base.{
  ℕ, suc, ◌+◌, ◌^◌, ◌≤◌, ◌<◌, ◌≡◌, refl, ap, inl, inr, Option, none, some, List, [], ◌∷◌, ◌++◌, ltb,
  length, get_or, All, for_each, Bytes, eq_bytes, Bool-cases, Option-cases, arith,
}
use backup_shield.Base.Result.{Result, ok, err}
use backup_shield.Hash.{Hashes, compute_hash}
use backup_shield.Pack.Reader.{max_pack_id}
use backup_shield.Repository.{Repository, RepositoryError, write_repaired_chunk}
use backup_shield.Repository.Index.{ChunkMeta, ChunkIndex, get}
use backup_shield.Repository.Rewritten.{
  Stands, write_repaired_chunk-Stands, max_pack_id-write_repaired_chunk,
}
use backup_shield.Ecc.Parity.{
  ParityGroup, ParityIndex, ParityError, ParityManager, total_chunks, has_hash, find_group,
  repair_chunks,
}
use backup_shield.Verify.Scrub.Repair.{
  RepairIo, RepairState, BadGroups, enumerate, cut_to_size, gather_available, count_repaired,
  write_back, repair_one, repair_all, repair_known, repair_group,
}
use backup_shield.Verify.Scrub.Bad.{InIndex, GroupsIn, has_hash-InIndex, length-cut_to_size}

-- How many chunks the groups have: so many ids of packs are used at most.
unfoldable pub room_known : Option ParityGroup → ℕ
room_known none = 0
room_known (some group) = length (group.data_chunk_hashes ++ group.parity_chunk_hashes)

unfoldable pub room : ParityIndex → BadGroups → ℕ
room parity [] = 0
room parity ((group_id, bad) ∷ groups) =
    room_known (find_group parity group_id) + room parity groups

length-enumerate : (idx : ℕ) (hashes : List Bytes) → length (enumerate idx hashes) ≡ length hashes
unfolding enumerate
length-enumerate idx [] = refl
length-enumerate idx (hash ∷ hashes) = ap suc (length-enumerate (suc idx) hashes)

-- The sizes of the index are below 2^32.
abbrev pub SmallSizes : ChunkIndex → Type 0
SmallSizes index =
    (hash : Bytes) (meta : ChunkMeta) → get index hash ≡ some meta → meta.size < 2 ^ 32

module _ (H : Hashes) (io : RepairIo) (index : ChunkIndex) (sizes : SmallSizes index)
    (h : Bytes) where
  -- The chunk stands, and `n` ids of packs are free.
  pub record Good (n : ℕ) (s : RepairState) : Type 0 where
    pub stands : Stands H s.repo h
    pub free : max_pack_id s.repo.disk + n < 2 ^ 64

  fewer : (n m : ℕ) (s : RepairState) → m ≤ n → Good n s → Good m s
  fewer n m s le g = record { stands = g.stands; free = omega (arith, g.free) }

  repo-count_repaired :
      (count : ℕ) (w : Repository × Result RepositoryError (Unit {0}))
      → (count_repaired H io index count w).repo ≡ w.0
  unfolding count_repaired
  repo-count_repaired count (repo, ok done) = refl
  repo-count_repaired count (repo, err e) = refl

  write_back-Good :
      (n : ℕ) (hash bytes : Bytes) (s : RepairState)
      → length bytes < 2 ^ 32
      → Good (suc n) s
      → Good n (write_back H io index hash bytes s)
  unfolding write_back
  write_back-Good n hash bytes s small g =
      elim (Bool-cases (eq_bytes (compute_hash H bytes) hash)) [
        | inl same ↦
            let fits : max_pack_id s.repo.disk + 1 < 2 ^ 64 = omega (arith, g.free) in
            rw same (record {
              stands = rw (repo-count_repaired s.repaired_count written) (
                  write_repaired_chunk-Stands H (io.flush_io hash) (io.save_fails hash) s.repo hash
                    bytes fits small h g.stands);
              free = rw (repo-count_repaired s.repaired_count written) (
                  omega (
                    arith,
                    g.free,
                    max_pack_id-write_repaired_chunk H (io.flush_io hash) (io.save_fails hash)
                        s.repo hash bytes fits small,
                  ));
            })
        | inr other ↦ rw other (fewer (suc n) n s (omega arith) g)
      ]
    where
      written : Repository × Result RepositoryError (Unit {0})
      written = write_repaired_chunk H (io.flush_io hash) (io.save_fails hash) s.repo hash bytes

  repair_one-Good :
      (n : ℕ) (bad shards : List Bytes) (idx : ℕ) (hash : Bytes) (s : RepairState)
      → All (InIndex index) bad
      → Good (suc n) s
      → Good n (repair_one H io index bad shards (idx, hash) s)
  unfolding repair_one
  repair_one-Good n bad shards idx hash s all g = elim (Bool-cases (has_hash hash bad)) [
    | inr fine ↦ rw fine (fewer (suc n) n s (omega arith) g)
    | inl is_bad ↦ elim (Bool-cases (ltb idx (length shards))) [
      | inr outside ↦ rw (is_bad, outside) (fewer (suc n) n s (omega arith) g)
      | inl inside ↦
          let (meta, found) = has_hash-InIndex index hash bad is_bad all in
          rw (is_bad, inside, found)
            (write_back-Good n hash (cut_to_size (some meta) (get_or shards idx [])) s
              (omega (arith, sizes hash meta found, length-cut_to_size meta (get_or shards idx [])))
              g)
    ]
  ]

  repair_list-Good :
      (n : ℕ) (bad shards : List Bytes) (hashes : List (ℕ × Bytes)) (s : RepairState)
      → All (InIndex index) bad
      → Good (length hashes + n) s
      → Good n (for_each (repair_one H io index bad shards) hashes s)
  unfolding for_each
  repair_list-Good n bad shards [] s all g = fewer (0 + n) n s (omega arith) g
  repair_list-Good n bad shards ((idx, hash) ∷ hashes) s all g =
      repair_list-Good n bad shards hashes (repair_one H io index bad shards (idx, hash) s) all (
        repair_one-Good (length hashes + n) bad shards idx hash s all
          (fewer (suc (length hashes) + n) (suc (length hashes + n)) s (omega arith) g))

  repair_all-Good :
      (n : ℕ) (bad hashes : List Bytes) (res : Result ParityError (List Bytes)) (s : RepairState)
      → All (InIndex index) bad
      → Good (length hashes + n) s
      → Good n (repair_all H io index bad hashes res s)
  unfolding repair_all
  repair_all-Good n bad hashes (err e) s all g = fewer (length hashes + n) n s (omega arith) g
  repair_all-Good n bad hashes (ok shards) s all g =
      repair_list-Good n bad shards (enumerate 0 hashes) s all (
        fewer (length hashes + n) (length (enumerate 0 hashes) + n) s
          (omega (arith, length-enumerate 0 hashes)) g)

  repair_group-Good :
      (n : ℕ) (pm : ParityManager) (parity : ParityIndex) (id : ℕ) (bad : List Bytes)
      (s : RepairState)
      → All (InIndex index) bad
      → Good (room_known (find_group parity id) + n) s
      → Good n (repair_group H io index pm parity (id, bad) s)
  unfolding repair_group repair_known room_known
  repair_group-Good n pm parity id bad s all g = elim (Option-cases (find_group parity id)) [
    | inl unknown ↦ rw (unknown, repair_group) (fewer _ n s (omega arith) g)
    | inr (group, found) ↦
        let hashes = group.data_chunk_hashes ++ group.parity_chunk_hashes in
        let here : Good (length hashes + n) s = rw (found, room_known) at g in
        let available = gather_available H io index s.repo.disk bad (enumerate 0 hashes) in
        rw (found, repair_group)
          (elim (Bool-cases (ltb (length available) (length group.data_chunk_hashes))) [
            | inl too_few ↦ rw too_few (fewer (length hashes + n) n s (omega arith) here)
            | inr enough ↦ rw enough (
                repair_all-Good n bad hashes
                  (repair_chunks pm available (total_chunks group) group.chunk_size) s all here)
          ])
  ]

  pub repair_groups-Good :
      (pm : ParityManager) (parity : ParityIndex) (groups : BadGroups) (s : RepairState)
      → GroupsIn index groups
      → Good (room parity groups) s
      → Good 0 (for_each (repair_group H io index pm parity) groups s)
  unfolding for_each room
  repair_groups-Good pm parity [] s all g = g
  repair_groups-Good pm parity ((id, bad) ∷ groups) s all g =
      repair_groups-Good pm parity groups (repair_group H io index pm parity (id, bad) s) all.1
        (repair_group-Good (room parity groups) pm parity id bad s all.0 g)
