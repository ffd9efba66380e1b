-- ===== src/Verify/Scrub/Agrees.antt =====
-- A scrub finds what a full verification finds in packs and chunks.
use backup_shield.Base.{
  ◌+◌, ◌%◌, ◌^◌, ◌≡◌, refl, sym, ap, ◌∙◌, inl, inr, true, false, List, [], ◌∷◌, ◌++◌, length,
  for_each, for_each-keeps, Bytes, eq_bytes, Bool-cases, arith,
}
use backup_shield.Base.Result.{Result, ok, err}
use mathlib.Core.List.{Permᴰ}
use backup_shield.Hash.{Hashes, compute_hash}
use backup_shield.Pack.Disk.{Disk}
use backup_shield.Repository.Index.{ChunkIndex}
use backup_shield.Verify.Report.{
  full, VerifyError, chunk_corrupt, chunk_missing, VerifyResult, JsonFile, total_chunk_errors,
  load_index, increment,
}
use backup_shield.Verify.Chunks.{
  Tally, ReadError, tally_ok, tally_missing, read_chunk_from_index, check_read, check_chunk,
  check_chunks,
}
use backup_shield.Verify.Files.{load_snapshots, bad_hashes, check_files}
use backup_shield.Verify.Checker.{
  Stored, all_hashes, start, report, check_packs, hashes_to_verify, deep_verify, verify_at, verify,
}
use backup_shield.Verify.Scrub.{
  ScrubProgress, ScrubResult, ScrubState, start_progress, increment_progress, report_bad,
  scrub_read, scrub_chunk, scrub_chunks, scrub,
}
use backup_shield.Verify.Scrub.Order.{SameMap, scrub_chunks-SameFindings}
use backup_shield.Verify.Scrub.Extends.{Extends, Later, load_snapshots-Extends, check_files-Later}

-- The checker's tally and the scrubber's state after the same chunks.
record Same (t : Tally) (s : ScrubState) : Type 0 where
  errors : t.errors ≡ s.errors_found
  scanned : t.chunks_checked ≡ s.progress.chunks_scanned
  fine : t.chunks_ok ≡ s.progress.chunks_ok
  wrong : (t.chunks_corrupt + t.chunks_missing) % 2 ^ 64 ≡ s.progress.chunks_errors

module _ (H : Hashes) (disk : Disk) (index : ChunkIndex) where
  check_read-Same :
      (hash : Bytes) (r : Result ReadError Bytes) (t : Tally) (s : ScrubState)
      → Same t s
      → Same
          (check_read H disk hash r (record t { chunks_checked = increment t.chunks_checked }))
          (scrub_read H disk index hash r s)
  unfolding check_read scrub_read report_bad tally_ok tally_missing increment_progress increment
  check_read-Same hash (err e) t s h = record {
    errors = ap (λ l. l ++ chunk_missing hash ∷ []) h.errors;
    scanned = ap (λ n. (n + 1) % 2 ^ 64) h.scanned;
    fine = h.fine;
    wrong = omega (arith, h.wrong);
  }
  check_read-Same hash (ok bytes) t s h = elim (Bool-cases (eq_bytes (compute_hash H bytes) hash)) [
    | inl same ↦ rw same (record {
      errors = h.errors;
      scanned = ap (λ n. (n + 1) % 2 ^ 64) h.scanned;
      fine = ap (λ n. (n + 1) % 2 ^ 64) h.fine;
      wrong = h.wrong;
    })
    | inr other ↦ rw other (record {
      errors = ap (λ l. l ++ chunk_corrupt hash hash (compute_hash H bytes) ∷ []) h.errors;
      scanned = ap (λ n. (n + 1) % 2 ^ 64) h.scanned;
      fine = h.fine;
      wrong = omega (arith, h.wrong);
    })
  ]

  check_chunks-Same :
      (hashes : List Bytes) (t : Tally) (s : ScrubState)
      → Same t s
      → Same (check_chunks H disk index hashes t) (for_each (scrub_chunk H disk index) hashes s)
  unfolding check_chunks check_chunk scrub_chunk for_each
  check_chunks-Same [] t s h = h
  check_chunks-Same (hash ∷ hashes) t s h =
      check_chunks-Same hashes (check_chunk H disk index hash t) (scrub_chunk H disk index hash s)
        (check_read-Same hash (read_chunk_from_index H disk index hash) t s h)

  scanned_all :
      (hashes : List Bytes) (s : ScrubState)
      → s.progress.chunks_scanned % 2 ^ 64 ≡ s.progress.chunks_scanned
      → ((for_each (scrub_chunk H disk index) hashes s).progress.chunks_scanned
          ≡ (s.progress.chunks_scanned + length hashes) % 2 ^ 64)
        × ((for_each (scrub_chunk H disk index) hashes s).progress.chunks_total
            ≡ s.progress.chunks_total)
  unfolding for_each scrub_read report_bad scrub_chunk
  scanned_all [] s h = (omega arith, refl)
  scanned_all (hash ∷ hashes) s h =
      let step = one_scanned hash (read_chunk_from_index H disk index hash) s in
      let later = scanned_all hashes (scrub_chunk H disk index hash s) (omega (arith, step.0)) in
      (omega (arith, step.0, later.0), later.1 ∙ step.1)
    where
      one_scanned :
          (hash : Bytes) (r : Result ReadError Bytes) (s : ScrubState)
          → ((scrub_read H disk index hash r s).progress.chunks_scanned
              ≡ (s.progress.chunks_scanned + 1) % 2 ^ 64)
            × ((scrub_read H disk index hash r s).progress.chunks_total ≡ s.progress.chunks_total)
      one_scanned hash (err e) s = (refl, refl)
      one_scanned hash (ok bytes) s = (ground arith, ground arith)

-- What the result `v` of a full verification and that of a scrub have in common.
pub record IsAgreed (v : VerifyResult) (s : ScrubResult) : Type 0 where
  pub found : List VerifyError
  pub same_errors : Permᴰ s.errors_found found
  pub errors : Extends found v.errors
  pub scanned : v.chunks_checked ≡ s.progress.chunks_scanned
  pub total : s.progress.chunks_total ≡ s.progress.chunks_scanned
  pub fine : v.chunks_ok ≡ s.progress.chunks_ok
  pub wrong : total_chunk_errors v ≡ s.progress.chunks_errors
  pub complete : s.progress.is_complete ≡ true

module _ (H : Hashes) (shuffle : List Bytes → List Bytes) (st : Stored) where
  deep_verify-Extends :
      (index : ChunkIndex)
      → Extends
          (check_chunks H st.disk index
            (all_hashes index)
            (start (check_packs H shuffle st))).errors
          (deep_verify H shuffle st full index).errors
  unfolding deep_verify report hashes_to_verify
  deep_verify-Extends index =
      let before =
        (check_chunks H st.disk index (all_hashes index)
          (start (check_packs H shuffle st))).errors in
      let loaded = load_snapshots st.snapshot_files before in
      for_each-keeps (check_files H (bad_hashes loaded.1)) (Later H (bad_hashes loaded.1) before)
        (check_files-Later H (bad_hashes loaded.1) before) loaded.0
        (record { files_checked = 0; errors = loaded.1 })
        (load_snapshots-Extends st.snapshot_files before)

  -- The scrubber's state after all chunks.
  scrubbed : ChunkIndex → ScrubProgress → ScrubState
  unfolding scrub_chunks check_packs
  scrubbed index progress = scrub_chunks H st.disk index (check_packs H shuffle st) progress

  scrub_result : ScrubState → ScrubResult
  scrub_result s = record {
    progress = record s.progress { is_complete = true };
    errors_found = s.errors_found;
    repaired_count = 0;
  }

  scrubbed-Same :
      (index : ChunkIndex) (progress : ScrubProgress)
      → Same
          (check_chunks H st.disk index (all_hashes index) (start (check_packs H shuffle st)))
          (scrubbed index progress)
  unfolding scrubbed start_progress
  scrubbed-Same index progress =
      check_chunks-Same H st.disk index (all_hashes index) (start (check_packs H shuffle st)) _
        (record { errors = refl; scanned = refl; fine = refl; wrong = omega arith })

  scrubbed-total :
      (index : ChunkIndex) (progress : ScrubProgress)
      → (scrubbed index progress).progress.chunks_total
        ≡ (scrubbed index progress).progress.chunks_scanned
  unfolding scrubbed start_progress
  scrubbed-total index progress =
      let all =
        scanned_all H st.disk index (all_hashes index)
          (record {
            progress = start_progress (length (all_hashes index)) progress;
            bad_hashes = [];
            errors_found = check_packs H shuffle st;
          })
          refl in
      omega (arith, all.0, all.1)

  scrub-IsAgreed :
      (index other : ChunkIndex) (progress : ScrubProgress)
      → SameMap index other
      → IsAgreed (deep_verify H shuffle st full index) (scrub_result (scrubbed other progress))
  unfolding scrub_result scrubbed deep_verify report hashes_to_verify total_chunk_errors
  scrub-IsAgreed index other progress same_map =
      let same = scrubbed-Same index progress in
      let more = deep_verify-Extends index in
      let reordered =
        scrub_chunks-SameFindings H st.disk index other same_map (check_packs H shuffle st)
          progress in
      let back : (scrubbed index progress).progress ≡ (scrubbed other progress).progress =
        sym reordered.1 in
      record {
        found = (scrubbed index progress).errors_found;
        same_errors = reordered.0;
        errors = (more.0, more.1 ∙ ap (λ l. l ++ more.0) same.errors);
        scanned = same.scanned ∙ ap (λ p. p.chunks_scanned) back;
        total = scrubbed-total other progress;
        fine = same.fine ∙ ap (λ p. p.chunks_ok) back;
        wrong = same.wrong ∙ ap (λ p. p.chunks_errors) back;
        complete = refl;
      }

  -- Where both load the same index, each with an iteration order of its own, and both list the
  -- packs, `scrub` and a full `verify` both return. The errors of `scrub` are, in some order, the
  -- first errors of `verify`; the chunks scanned are those checked and are all chunks, the fine
  -- and the bad ones are equally many, and the progress of `scrub` is complete and is what its
  -- result holds.
  pub scrub-verify :
      (index other : ChunkIndex) (scrub_file : JsonFile ChunkIndex) (progress : ScrubProgress)
      → load_index st.index_file ≡ ok index
      → load_index scrub_file ≡ ok other
      → SameMap index other
      → st.list_fails ≡ false
      → (v : VerifyResult) × (s : ScrubResult) × (verify H shuffle st full ≡ ok v)
        × (scrub H st.disk false scrub_file progress ≡ ok (s.progress, s))
        × IsAgreed v s
  unfolding verify verify_at scrub scrubbed scrub_result check_packs
  scrub-verify index other scrub_file progress loaded scrub_loaded same_map packs_listed = (
    deep_verify H shuffle st full index,
    scrub_result (scrubbed other progress),
    rw (loaded, verify) (ground (arith, packs_listed)),
    rw (scrub_loaded, scrub) refl,
    scrub-IsAgreed index other progress same_map,
  )
