-- ===== src/Verify/Scrub/Kept.antt =====
-- `scrub_and_repair` as a whole: every chunk that can be read stays readable.
use backup_shield.Base.{
  ℕ, Bool, ◌+◌, ◌^◌, ◌<◌, ◌≡◌, refl, sym, ap, ◌∙◌, subst, true, false, Option, none, some, List, [],
  ◌∷◌, for_each, Bytes,
}
use backup_shield.Base.Result.{Result, ok, err, ok_or, >>=-eq-ok}
use mathlib.Core.Option.{some-injective}
use backup_shield.Hash.{Hashes}
use backup_shield.Pack.Reader.{max_pack_id}
use backup_shield.Repository as Store
use backup_shield.Repository.{Repository, RepositoryError, save_index, open_repository}
use backup_shield.Repository.Index.{ChunkIndex, new_index}
use backup_shield.Repository.Rewritten.{StandsIn, Stands, last_saved, save_index-Stands}
use backup_shield.Ecc.Parity.{ParityIndex, ParityManager}
use backup_shield.Verify.Report.{VerifyFailure, JsonFile, absent, unreadable, parsed, load_index}
use backup_shield.Verify.Scrub.{ScrubProgress, ScrubState, scrub_chunks}
use backup_shield.Verify.Scrub.Repair.{
  RepairIo, BadGroups, ScrubFailure, ScrubConfig, ScrubInput, group_bad, load_parity_index,
  lift_index, lift_manager, prepare, saved_in, finish_scrub, save_repaired, repair_groups,
  repair_opened, repair_bad, scrub_prepared, scrub_and_repair,
}
use backup_shield.Verify.Scrub.Bad.{GroupsIn, scrub_chunks-BadIn, all_groups-GroupsIn}
use backup_shield.Verify.Scrub.Safe.{room, SmallSizes, Good, repair_groups-Good}

lift_index-eq-ok :
    (r : Result VerifyFailure ChunkIndex) (index : ChunkIndex)
    → lift_index r ≡ ok index
    → r ≡ ok index
unfolding lift_index
lift_index-eq-ok (ok i) index h = cc
lift_index-eq-ok (err e) index h = cc

-- What was loaded, where `prepare` succeeds.
prepare_loaded :
    (input : ScrubInput) (index : ChunkIndex) (parity : ParityIndex) (config : ScrubConfig)
    (pm : ParityManager)
    → prepare input ≡ ok (index, parity, config, pm)
    → (load_index input.index_file ≡ ok index) × (load_parity_index input.parity_file ≡ ok parity)
unfolding prepare
prepare_loaded input index parity config pm h =
    let (i, at_i, h1) = >>=-eq-ok (lift_index (load_index input.index_file)) _ h in
    let (p, at_p, h2) = >>=-eq-ok (load_parity_index input.parity_file) _ h1 in
    let (c, at_c, h3) = >>=-eq-ok (ok_or input.config _) _ h2 in
    let (m, at_m, h4) = >>=-eq-ok (lift_manager _) _ h3 in (lift_index-eq-ok _ index (cc), cc)

saved-eq-loaded :
    (file : JsonFile ChunkIndex) (index : ChunkIndex)
    → load_index file ≡ ok index
    → last_saved (saved_in file) ≡ index
unfolding load_index saved_in
saved-eq-loaded absent index h = cc
saved-eq-loaded unreadable index h = cc
saved-eq-loaded (parsed i) index h = cc

-- The repository that `open` returns.
abbrev or_else : Repository → Result RepositoryError Repository → Repository
or_else other (ok repo) = repo
or_else other (err e) = other

loaded_index :
    (saved : Option ChunkIndex) → elim saved [ none ↦ new_index | some i ↦ i ] ≡ last_saved saved
loaded_index none = refl
loaded_index (some i) = refl

opened :
    (target : ℕ) (input : ScrubInput) (index : ChunkIndex) (repo : Repository)
    (locked list_fails : Bool)
    → load_index input.index_file ≡ ok index
    → open_repository (some target) locked list_fails input.disk (saved_in input.index_file)
      ≡ ok repo
    → (repo.disk ≡ input.disk) × (repo.index ≡ index) × (last_saved repo.saved_index ≡ index)
unfolding open_repository Store.load_index
opened target input index repo true list_fails loaded h = cc
opened target input index repo false true loaded h = cc
opened target input index repo false false loaded h =
    let is = ap (or_else repo) h in
    let from_file = saved-eq-loaded input.index_file index loaded in
    (
      sym (ap (λ r. r.disk) is),
      sym (ap (λ r. r.index) is) ∙ (loaded_index (saved_in input.index_file) ∙ from_file),
      sym (ap (λ r. last_saved r.saved_index) is) ∙ from_file,
    )

module _ (H : Hashes) where
  opened-Stands :
      (target : ℕ) (input : ScrubInput) (index : ChunkIndex) (repo : Repository) (h : Bytes)
      → load_index input.index_file ≡ ok index
      → open_repository
          (some target)
          input.locked
          input.list_fails
          input.disk
          (saved_in input.index_file)
        ≡ ok repo
      → StandsIn H input.disk index h
      → Stands H repo h
  opened-Stands target input index repo h loaded e s =
      let (disk, now, saved) =
        opened target input index repo input.locked input.list_fails loaded e in
      (rw (disk, now) s, rw (disk, saved) s)

  -- The bad chunks by their groups, as phase 2 visits them.
  abbrev pub visited :
      (BadGroups → BadGroups) → ScrubInput → ChunkIndex → ParityIndex → ScrubProgress → BadGroups
  visited order input index parity progress =
      order
        (for_each (group_bad parity) (scrub_chunks H input.disk index [] progress).bad_hashes [])

  -- An order of the groups that makes up none.
  abbrev pub Orders : (BadGroups → BadGroups) → Type 0
  Orders order =
      (index : ChunkIndex) (groups : BadGroups)
      → GroupsIn index groups
      → GroupsIn index (order groups)

  module _ (io : RepairIo) (order : BadGroups → BadGroups) (orders : Orders order)
      (input : ScrubInput) (progress : ScrubProgress) (index : ChunkIndex) (parity : ParityIndex)
      (h : Bytes) (loaded : load_index input.index_file ≡ ok index) (sizes : SmallSizes index)
      (free : max_pack_id input.disk + room parity (visited order input index parity progress)
        < 2 ^ 64)
      (stands : StandsIn H input.disk index h) where
    s : ScrubState
    s = scrub_chunks H input.disk index [] progress

    save_repaired-Stands :
        (count : ℕ) (repo : Repository) (w : Repository × Result RepositoryError (Unit {0}))
        → Stands H w.0 h
        → (save_repaired s count w).repo ≡ some repo
        → Stands H repo h
    unfolding save_repaired finish_scrub
    save_repaired-Stands count repo (after, ok done) k e =
        subst (λ r. Stands H r h) (some-injective _ _ e) k
    save_repaired-Stands count repo (after, err failure) k e =
        subst (λ r. Stands H r h) (some-injective _ _ e) k

    repair_opened-Stands :
        (config : ScrubConfig) (pm : ParityManager) (repo : Repository)
        (res : Result RepositoryError Repository)
        → open_repository
            (some config.pack_target_size)
            input.locked
            input.list_fails
            input.disk
            (saved_in input.index_file)
          ≡ res
        → (repair_opened H io order index parity pm s res).repo ≡ some repo
        → Stands H repo h
    unfolding repair_opened repair_groups s
    repair_opened-Stands config pm repo (err failure) at e = cc
    repair_opened-Stands config pm repo (ok start) at e =
        let begun = opened-Stands config.pack_target_size input index start h loaded at stands in
        let (disk, now, saved) =
          opened config.pack_target_size input index start input.locked input.list_fails loaded
            at in
        let groups = visited order input index parity progress in
        let good : Good H io index sizes h (room parity groups)
            (record { repo = start; repaired_count = 0 }) =
          record { stands = begun; free = rw disk free } in
        let all = orders index _ (
          all_groups-GroupsIn index parity s.bad_hashes
            (scrub_chunks-BadIn index H input.disk [] progress)) in
        let after =
          repair_groups-Good H io index sizes h pm parity groups
            (record { repo = start; repaired_count = 0 }) all good in
        save_repaired-Stands _ repo _ (save_index-Stands H io.last_save_fails _ h after.stands) e

    repair_bad-Stands :
        (config : ScrubConfig) (pm : ParityManager) (repo : Repository) (bad : List Bytes)
        → s.bad_hashes ≡ bad
        → (repair_bad H io order input index parity config pm s).repo ≡ some repo
        → Stands H repo h
    unfolding repair_bad finish_scrub
    repair_bad-Stands config pm repo [] is e = cc (rw (is, repair_bad) at e)
    repair_bad-Stands config pm repo (hash ∷ hashes) is e =
        repair_opened-Stands config pm repo _ refl (rw (is, repair_bad) at e)

    prepared-Stands :
        (repo : Repository)
        (p : Result ScrubFailure (ChunkIndex × ParityIndex × ScrubConfig × ParityManager))
        → prepare input ≡ p
        → load_parity_index input.parity_file ≡ ok parity
        → (scrub_prepared H io order input progress p).repo ≡ some repo
        → Stands H repo h
    unfolding scrub_prepared s
    prepared-Stands repo (err failure) at with_parity e = cc
    prepared-Stands repo (ok (i, p, config, pm)) at with_parity e =
        let (got_index, got_parity) = prepare_loaded input i p config pm at in
        let same_index : i ≡ index = cc (sym got_index ∙ loaded) in
        let same_parity : p ≡ parity = cc (sym got_parity ∙ with_parity) in
        repair_bad-Stands config pm repo s.bad_hashes refl (rw (same_index, same_parity) at e)

    -- Whatever the file system answers to the writes of `scrub_and_repair`, whatever the parity
    -- groups hold, in any order of the groups that makes up no hash: if it opens the repository,
    -- then a chunk that the loaded index places in a pack below 2^64 from which it is read can
    -- afterwards be read through the index of the repository and through the saved index. The
    -- index and the parity groups load, the sizes in the index are below 2^32, and the ids of the
    -- packs leave one below 2^64 for every chunk of the groups that are visited.
    pub scrub_and_repair-Stands :
        (repo : Repository)
        → load_parity_index input.parity_file ≡ ok parity
        → (scrub_and_repair H io order input progress).repo ≡ some repo
        → Stands H repo h
    unfolding scrub_and_repair
    scrub_and_repair-Stands repo with_parity = prepared-Stands repo (prepare input) refl with_parity
