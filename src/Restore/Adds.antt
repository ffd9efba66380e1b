-- ===== src/Restore/Adds.antt =====
-- What `restore_file` adds to the counters of a restore, on every way out.
use backup_shield.Base.{
  ℕ, ◌+◌, ◌%◌, ◌^◌, ◌≡◌, inl, inr, Bool, true, false, not, ◌&&◌, if◌then◌else◌, Bytes, Bool-cases,
  Option-cases, eq_bytes, arith,
}
use backup_shield.Base.Result.{Result, ok, err}
use backup_shield.Hash.{Hashes}
use backup_shield.Restore.Entries.{Files}
use backup_shield.Repository.{RepositoryError}
use backup_shield.Snapshot.Node.{SnapshotFile}
use backup_shield.Verify.Files.{compute_file_hash}
use backup_shield.Restore.{RestoreError, RestoreOptions, RestoreState, RestoreIo, Crates, add_u64}
use backup_shield.Restore.Paths.{join}
use backup_shield.Restore.File.{
  processed, skipped, count_restored, fail, set_permissions, verify_file_hash, fail_write,
  write_target, parent_of, store_file, restore_content, restore_file,
}

-- The files counted, processed, and restored or skipped, from one state to another, modulo 2^64.
pub record Adds (a b c : ℕ) (s s' : RestoreState) : Type 0 where
  pub total : s'.stats.files_total % 2 ^ 64 ≡ (s.stats.files_total + a) % 2 ^ 64
  pub done : s'.stats.files_processed % 2 ^ 64 ≡ (s.stats.files_processed + b) % 2 ^ 64
  pub handled :
      (s'.result.files_restored + s'.result.files_skipped) % 2 ^ 64
      ≡ (s.result.files_restored + s.result.files_skipped + c) % 2 ^ 64

pub Adds-self : (s : RestoreState) → Adds 0 0 0 s s
Adds-self s = record { total = omega arith; done = omega arith; handled = omega arith }

pub Adds-trans :
    (a b c a' b' c' : ℕ) {s t u : RestoreState}
    → Adds a b c s t
    → Adds a' b' c' t u
    → Adds (a + a') (b + b') (c + c') s u
Adds-trans a b c a' b' c' h k = record {
  total = omega (arith, h.total, k.total);
  done = omega (arith, h.done, k.done);
  handled = omega (arith, h.handled, k.handled);
}

pub Adds-from : (n : ℕ) {s t u : RestoreState} → Adds 0 0 0 s t → Adds n n n t u → Adds n n n s u
Adds-from n h k = record {
  total = omega (arith, h.total, k.total);
  done = omega (arith, h.done, k.done);
  handled = omega (arith, h.handled, k.handled);
}

module _ (f : SnapshotFile) (s t : RestoreState) where
  pub processed-Adds : (a c : ℕ) → Adds a 0 c s t → Adds a 1 c s (processed f t)
  unfolding processed add_u64
  processed-Adds a c h = record {
    total = h.total;
    done = omega (arith, h.done);
    handled = h.handled;
  }

  pub skipped-Adds : (a : ℕ) → Adds a 0 0 s t → Adds a 1 1 s (skipped f t)
  unfolding skipped processed add_u64
  skipped-Adds a h = record {
    total = h.total;
    done = omega (arith, h.done);
    handled = omega (arith, h.handled);
  }

pub count_restored-Adds :
    (bytes : Bytes) (a : ℕ) (s t : RestoreState)
    → Adds a 0 0 s t
    → Adds a 0 1 s (count_restored bytes t)
unfolding count_restored add_u64
count_restored-Adds bytes a s t h = record {
  total = h.total;
  done = h.done;
  handled = omega (arith, h.handled);
}

pub fail-Adds :
    (e : RestoreError) (a b c : ℕ) (s t : RestoreState) → Adds a b c s t → Adds a b c s (fail e t)
unfolding fail
fail-Adds e a b c s t h = record { total = h.total; done = h.done; handled = h.handled }

pub files-Adds :
    (files : Files) (a b c : ℕ) (s t : RestoreState)
    → Adds a b c s t
    → Adds a b c s (record t { files = files })
files-Adds files a b c s t h = record { total = h.total; done = h.done; handled = h.handled }

pub if-Adds :
    (test : Bool) (a b c : ℕ) (s t u : RestoreState)
    → Adds a b c s t
    → Adds a b c s u
    → Adds a b c s (if test then t else u)
if-Adds true a b c s t u h k = h
if-Adds false a b c s t u h k = k

module _ (H : Hashes) (crates : Crates) (io : RestoreIo) (options : RestoreOptions)
    (read_chunk : Bytes → Result RepositoryError Bytes) where
  pub set_permissions-Adds :
      (path : Bytes) (a b c : ℕ) (s t : RestoreState)
      → Adds a b c s t
      → Adds a b c s (set_permissions H crates io options read_chunk path t)
  unfolding set_permissions
  set_permissions-Adds path a b c s t h =
      elim (Bool-cases (options.preserve_permissions && io.set_permissions_fails path)) [
        | inl failed ↦ rw failed (fail-Adds _ a b c s t h)
        | inr fine ↦ rw fine h
      ]

  pub verify_file_hash-Adds :
      (path : Bytes) (f : SnapshotFile) (a b c : ℕ) (s t : RestoreState)
      → Adds a b c s t
      → Adds a b c s (verify_file_hash H crates io options read_chunk path f t)
  unfolding verify_file_hash
  verify_file_hash-Adds path f a b c s t h =
      elim (Bool-cases
        (options.verify && not (eq_bytes (compute_file_hash H f.chunk_hashes) f.file_hash))) [
          | inl wrong ↦ rw wrong (fail-Adds _ a b c s t h)
          | inr right ↦ rw right h
        ]

  fail_write-Adds :
      (f : SnapshotFile) (target : Bytes) (files : Files) (s t : RestoreState)
      → Adds 1 0 0 s t
      → Adds 1 1 1 s (fail_write H crates io options read_chunk f target files t)
  unfolding fail_write
  fail_write-Adds f target files s t h =
      skipped-Adds f s _ 1 (fail-Adds _ 1 0 0 s _ (files-Adds files 1 0 0 s t h))

  pub write_target-Adds :
      (f : SnapshotFile) (target tmp bytes : Bytes) (s t : RestoreState)
      → Adds 1 0 0 s t
      → Adds 1 1 1 s (write_target H crates io options read_chunk f target tmp bytes t)
  unfolding write_target
  write_target-Adds f target tmp bytes s t h = elim (Option-cases (io.resolve t.files tmp)) [
    | inl nowhere ↦ rw (nowhere, write_target) (fail_write-Adds f target _ s t h)
    | inr (real, leads) ↦
        rw (leads, write_target)
          (if-Adds (io.write_fails target) 1 1 1 s _ _ (fail_write-Adds f target _ s t h) (
            if-Adds (io.rename_fails target) 1 1 1 s _ _ (fail_write-Adds f target _ s t h) (
              processed-Adds f s _ 1 1 (
                set_permissions-Adds target 1 0 1 s _
                  (count_restored-Adds bytes 1 s _ (files-Adds _ 1 0 0 s t h))))))
  ]

  pub store_file-Adds :
      (f : SnapshotFile) (rel_path bytes : Bytes) (s t : RestoreState)
      → Adds 1 0 0 s t
      → Adds 1 1 1 s (store_file H crates io options read_chunk f rel_path bytes t)
  unfolding store_file
  store_file-Adds f rel_path bytes s t h =
      if-Adds options.dry_run 1 1 1 s _ _
        (processed-Adds f s _ 1 1 (count_restored-Adds bytes 1 s t h))
        (if-Adds (io.create_dir_fails (parent_of H crates io options read_chunk rel_path)) 1 1 1 s _
          _ (skipped-Adds f s _ 1 (fail-Adds _ 1 0 0 s t h)) (write_target-Adds f _ _ bytes s t h))

  pub restore_content-Adds :
      (f : SnapshotFile) (rel_path : Bytes) (r : Result RestoreError Bytes) (s t : RestoreState)
      → Adds 1 0 0 s t
      → Adds 1 1 1 s (restore_content H crates io options read_chunk f rel_path r t)
  unfolding restore_content
  restore_content-Adds f rel_path (err e) s t h = skipped-Adds f s _ 1 (fail-Adds e 1 0 0 s t h)
  restore_content-Adds f rel_path (ok bytes) s t h =
      store_file-Adds f rel_path bytes s _
        (verify_file_hash-Adds (join rel_path f.name) f 1 0 0 s t h)

  pub restore_file-Adds :
      (f : SnapshotFile) (rel_path : Bytes) (s : RestoreState)
      → Adds 1 1 1 s (restore_file H crates io options read_chunk f rel_path s)
  unfolding restore_file add_u64
  restore_file-Adds f rel_path s =
      let counted : RestoreState = record s {
        stats = record s.stats {
          files_total = add_u64 s.stats.files_total 1;
          bytes_total = add_u64 s.stats.bytes_total f.size;
        };
      } in
      let h : Adds 1 0 0 s counted = record {
        total = omega arith;
        done = omega arith;
        handled = omega arith;
      } in
      if-Adds _ 1 1 1 s _ _ (skipped-Adds f s counted 1 h) (
        if-Adds _ 1 1 1 s _ _ (skipped-Adds f s _ 1 (fail-Adds _ 1 0 0 s counted h))
          (restore_content-Adds f rel_path _ s counted h))
