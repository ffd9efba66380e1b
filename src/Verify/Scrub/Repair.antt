-- ===== src/Verify/Scrub/Repair.antt =====
-- `scrub_and_repair` of verify/src/scrub.rs: the chunks that a scrub finds bad are reconstructed
-- from their parity group and written again.
use backup_shield.Base.{
  ℕ, suc, Bool, true, Option, none, some, List, [], ◌∷◌, ◌++◌, ◌==◌, ◌&&◌, leb, ltb, if◌then◌else◌,
  length, take, get_or, for_each, Bytes, eq_bytes,
}
use backup_shield.Base.Result.{Result, ok, err, ok_or, ◌>>=◌}
use backup_shield.Hash.{Hashes, compute_hash}
use backup_shield.Pack.Disk.{Disk}
use backup_shield.Pack.Writer.{Io}
use backup_shield.Repository.{
  Repository, RepositoryError, write_repaired_chunk, save_index, open_repository,
}
use backup_shield.Repository.Index.{ChunkMeta, ChunkIndex, get}
use backup_shield.Ecc.Parity.{
  ParityGroup, ParityIndex, ParityError, ParityManager, total_chunks, has_hash, find_group,
  find_group_by_hash, new_parity_manager, repair_chunks,
}
use backup_shield.Verify.Report.{
  VerifyFailure, JsonFile, absent, unreadable, parsed, load_index, increment,
}
use backup_shield.Verify.Chunks.{read_chunk_from_index}
use backup_shield.Verify.Scrub.{ScrubProgress, ScrubResult, ScrubState, scrub_chunks}

pub data ScrubFailure : Type 0 where
  no_index : VerifyFailure → ScrubFailure
  parity_unreadable no_config : ScrubFailure
  no_manager : ParityError → ScrubFailure
  not_opened not_saved : RepositoryError → ScrubFailure

unfoldable pub load_parity_index : JsonFile ParityIndex → Result ScrubFailure ParityIndex
load_parity_index absent = ok (record { groups = [] })
load_parity_index unreadable = err parity_unreadable
load_parity_index (parsed index) = ok index

-- What the file system answers: to the repair of a chunk, by its hash, and to the save at the end.
pub record RepairIo : Type 0 where
  pub flush_io : Bytes → Io
  pub save_fails : Bytes → Bool
  pub last_save_fails : Bool

-- `groups_to_repair`: the bad hashes by the id of their group.
abbrev pub BadGroups : Type 0
BadGroups = List (ℕ × List Bytes)

-- `entry(group_id).or_default().push(hash)`
unfoldable pub push_bad : ℕ → Bytes → BadGroups → BadGroups
push_bad group_id hash [] = (group_id, hash ∷ []) ∷ []
push_bad group_id hash ((id, hashes) ∷ groups) =
    let rest = push_bad group_id hash groups in
    if id == group_id then (id, hashes ++ hash ∷ []) ∷ groups else (id, hashes) ∷ rest

unfoldable pub group_bad : ParityIndex → Bytes → BadGroups → BadGroups
group_bad parity hash groups = elim (find_group_by_hash parity hash) [
  | none ↦ groups
  | some group ↦ push_bad group.group_id hash groups
]

-- `iter().enumerate()`, from an index on
unfoldable pub enumerate : ℕ → List Bytes → List (ℕ × Bytes)
enumerate idx [] = []
enumerate idx (hash ∷ hashes) = (idx, hash) ∷ enumerate (suc idx) hashes

-- The reconstructed shard, cut to the size of the chunk.
unfoldable pub cut_to_size : Option ChunkMeta → Bytes → Bytes
cut_to_size none shard = shard
cut_to_size (some meta) shard = if leb meta.size (length shard) then take meta.size shard else shard

-- The opened repository and the number of repaired chunks.
pub record RepairState : Type 0 where
  pub repo : Repository
  pub repaired_count : ℕ

module _ (H : Hashes) (io : RepairIo) (index : ChunkIndex) where
  -- The chunks of a group that can still be read, with their positions.
  unfoldable pub gather_available : Disk → List Bytes → List (ℕ × Bytes) → List (ℕ × Bytes)
  gather_available disk bad [] = []
  gather_available disk bad ((idx, hash) ∷ hashes) =
      let rest = gather_available disk bad hashes in
      if has_hash hash bad then rest else elim (read_chunk_from_index H disk index hash) [
        | ok bytes ↦ (idx, bytes) ∷ rest
        | err e ↦ rest
      ]

  -- The count after a write of a repaired chunk.
  unfoldable pub count_repaired : ℕ → Repository × Result RepositoryError (Unit {0}) → RepairState
  unfolding increment
  count_repaired count (repo, ok done) = record { repo = repo; repaired_count = increment count }
  count_repaired count (repo, err e) = record { repo = repo; repaired_count = count }

  unfoldable pub write_back : Bytes → Bytes → RepairState → RepairState
  write_back hash bytes s =
      let written =
        write_repaired_chunk H (io.flush_io hash) (io.save_fails hash) s.repo hash bytes in
      if eq_bytes (compute_hash H bytes) hash then count_repaired s.repaired_count written else s

  unfoldable pub repair_one : List Bytes → List Bytes → ℕ × Bytes → RepairState → RepairState
  repair_one bad reconstructed (idx, hash) s =
      if has_hash hash bad && ltb idx (length reconstructed)
      then write_back hash (cut_to_size (get index hash) (get_or reconstructed idx [])) s
      else s

  -- A group with its reconstruction at hand.
  unfoldable pub repair_all :
      List Bytes → List Bytes → Result ParityError (List Bytes) → RepairState → RepairState
  repair_all bad hashes (err e) s = s
  repair_all bad hashes (ok reconstructed) s =
      for_each (repair_one bad reconstructed) (enumerate 0 hashes) s

  unfoldable pub repair_known : ParityManager → ParityGroup → List Bytes → RepairState → RepairState
  repair_known pm group bad s =
      let hashes = group.data_chunk_hashes ++ group.parity_chunk_hashes in
      let available = gather_available s.repo.disk bad (enumerate 0 hashes) in
      if ltb (length available) (length group.data_chunk_hashes)
      then s
      else repair_all bad hashes (repair_chunks pm available (total_chunks group) group.chunk_size)
          s

  unfoldable pub repair_group :
      ParityManager → ParityIndex → ℕ × List Bytes → RepairState → RepairState
  repair_group pm parity (group_id, bad) s = elim (find_group parity group_id) [
    | none ↦ s
    | some group ↦ repair_known pm group bad s
  ]

-- What `scrub_and_repair` leaves: the progress, the repository if it was opened, and the result.
pub record Scrubbed : Type 0 where
  pub progress : ScrubProgress
  pub repo : Option Repository
  pub result : Result ScrubFailure ScrubResult

-- The fields of `config.toml` that count here.
pub record ScrubConfig : Type 0 where
  pub ecc_data_shards : ℕ
  pub ecc_parity_shards : ℕ
  pub pack_target_size : ℕ

-- What stands on disk.
pub record ScrubInput : Type 0 where
  pub disk : Disk
  pub index_file : JsonFile ChunkIndex
  pub parity_file : JsonFile ParityIndex
  pub config : Option ScrubConfig
  pub locked : Bool
  pub list_fails : Bool

unfoldable pub lift_index : Result VerifyFailure ChunkIndex → Result ScrubFailure ChunkIndex
lift_index (ok index) = ok index
lift_index (err e) = err (no_index e)

unfoldable pub lift_manager : Result ParityError ParityManager → Result ScrubFailure ParityManager
lift_manager (ok pm) = ok pm
lift_manager (err e) = err (no_manager e)

-- What is read before the progress starts.
unfoldable pub prepare :
    ScrubInput → Result ScrubFailure (ChunkIndex × ParityIndex × ScrubConfig × ParityManager)
prepare input = do
  index ← lift_index (load_index input.index_file)
  parity ← load_parity_index input.parity_file
  config ← ok_or input.config no_config
  pm ← lift_manager (new_parity_manager config.ecc_data_shards config.ecc_parity_shards)
  ok (index, parity, config, pm)

-- The saved index that `Repository::open` loads.
unfoldable pub saved_in : JsonFile ChunkIndex → Option ChunkIndex
saved_in absent = none
saved_in unreadable = none
saved_in (parsed index) = some index

unfoldable pub finish_scrub : ScrubState → Option Repository → ℕ → Scrubbed
finish_scrub s repo count =
    let done : ScrubProgress = record s.progress { is_complete = true } in
    record {
      progress = done;
      repo = repo;
      result =
          ok (record { progress = done; errors_found = s.errors_found; repaired_count = count });
    }

unfoldable pub save_repaired :
    ScrubState → ℕ → Repository × Result RepositoryError (Unit {0}) → Scrubbed
save_repaired s count (repo, ok done) = finish_scrub s (some repo) count
save_repaired s count (repo, err e) = record {
  progress = s.progress;
  repo = some repo;
  result = err (not_saved e);
}

module _ (H : Hashes) (io : RepairIo) (order : BadGroups → BadGroups) where
  -- The groups in the order of the `HashMap`, which promises none.
  unfoldable pub repair_groups :
      ChunkIndex → ParityIndex → ParityManager → List Bytes → Repository → RepairState
  repair_groups index parity pm bad repo =
      for_each (repair_group H io index pm parity) (order (for_each (group_bad parity) bad []))
        (record { repo = repo; repaired_count = 0 })

  unfoldable pub repair_opened :
      ChunkIndex
      → ParityIndex
      → ParityManager
      → ScrubState
      → Result RepositoryError Repository
      → Scrubbed
  repair_opened index parity pm s (err e) = record {
    progress = s.progress;
    repo = none;
    result = err (not_opened e);
  }
  repair_opened index parity pm s (ok repo) =
      let after = repair_groups index parity pm s.bad_hashes repo in
      save_repaired s after.repaired_count (save_index io.last_save_fails after.repo)

  -- Phase 2, which opens no repository where nothing is bad.
  unfoldable pub repair_bad :
      ScrubInput → ChunkIndex → ParityIndex → ScrubConfig → ParityManager → ScrubState → Scrubbed
  repair_bad input index parity config pm s = elim s.bad_hashes [
    | [] ↦ finish_scrub s none 0
    | hash ∷ hashes ↦ repair_opened index parity pm s (
        open_repository (some config.pack_target_size) input.locked input.list_fails input.disk
          (saved_in input.index_file))
  ]

  unfoldable pub scrub_prepared :
      ScrubInput
      → ScrubProgress
      → Result ScrubFailure (ChunkIndex × ParityIndex × ScrubConfig × ParityManager)
      → Scrubbed
  scrub_prepared input progress (err e) = record {
    progress = progress;
    repo = none;
    result = err e;
  }
  scrub_prepared input progress (ok (index, parity, config, pm)) =
      repair_bad input index parity config pm (scrub_chunks H input.disk index [] progress)

  unfoldable pub scrub_and_repair : ScrubInput → ScrubProgress → Scrubbed
  scrub_and_repair input progress = scrub_prepared input progress (prepare input)
