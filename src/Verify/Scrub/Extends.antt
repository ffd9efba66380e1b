-- ===== src/Verify/Scrub/Extends.antt =====
-- The errors of a verification only grow.
use backup_shield.Base.{
  ◌≡◌, sym, ap, ◌∙◌, inl, inr, not, Option, none, some, List, [], ◌∷◌, ◌++◌, ◌&&◌, append-nil,
  append_assoc, for_each-keeps, Bytes, eq_bytes, Bool-cases,
}
use backup_shield.Base.Result.{Result, ok, err}
use backup_shield.Hash.{Hashes}
use backup_shield.Snapshot.{Snapshot}
use backup_shield.Snapshot.Node.{SnapshotFile}
use backup_shield.Verify.Report.{VerifyError}
use backup_shield.Verify.Files.{
  SnapshotFiles, FileTally, is_json, load_entry, load_snapshots, any_bad, compute_file_hash,
  collect_files, check_file, check_files,
}

abbrev pub Extends : List VerifyError → List VerifyError → Type 0
Extends before after = (later : List VerifyError) × (after ≡ before ++ later)

Extends-self : (errors : List VerifyError) → Extends errors errors
Extends-self errors = ([], sym (append-nil errors))

Extends-push :
    (before after : List VerifyError) (e : VerifyError)
    → Extends before after
    → Extends before (after ++ e ∷ [])
Extends-push before after e (later, h) =
    (later ++ e ∷ [], ap (λ t. t ++ e ∷ []) h ∙ append_assoc before later (e ∷ []))

load_entry-Extends :
    (before : List VerifyError) (entry : Bytes × Result Bytes Snapshot)
    (s : List Snapshot × List VerifyError)
    → Extends before s.1
    → Extends before (load_entry entry s).1
unfolding load_entry
load_entry-Extends before (name, ok snap) (snapshots, errors) h = elim (Bool-cases (is_json name)) [
  | inl json ↦ rw json h
  | inr other ↦ rw other h
]
load_entry-Extends before (name, err reason) (snapshots, errors) h =
    elim (Bool-cases (is_json name)) [
      | inl json ↦ rw json (Extends-push before errors _ h)
      | inr other ↦ rw other h
    ]

pub load_snapshots-Extends :
    (files : Option SnapshotFiles) (errors : List VerifyError)
    → Extends errors (load_snapshots files errors).1
unfolding load_snapshots
load_snapshots-Extends none errors = Extends-self errors
load_snapshots-Extends (some files) errors =
    for_each-keeps load_entry (λ s. Extends errors s.1) (load_entry-Extends errors) files
      ([], errors) (Extends-self errors)

module _ (H : Hashes) (bad : List Bytes) (before : List VerifyError) where
  abbrev pub Later : FileTally → Type 0
  Later t = Extends before t.errors

  check_file-Later :
      (entry : Bytes × SnapshotFile) (t : FileTally) → Later t → Later (check_file H bad entry t)
  unfolding check_file
  check_file-Later (path, f) t h =
      elim (Bool-cases (
        not (any_bad bad f.chunk_hashes)
        && not (eq_bytes (compute_file_hash H f.chunk_hashes) f.file_hash))) [
          | inl flagged ↦ rw flagged (Extends-push before t.errors _ h)
          | inr passed ↦ rw passed h
        ]

  pub check_files-Later :
      (snap : Snapshot) (t : FileTally) → Later t → Later (check_files H bad snap t)
  unfolding check_files
  check_files-Later snap t =
      for_each-keeps (check_file H bad) Later check_file-Later (collect_files snap.root [] []) t
