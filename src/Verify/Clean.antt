-- ===== src/Verify/Clean.antt =====
-- When the checks of packs, chunks, snapshots and files add no error.
use backup_shield.Base.{
  ℕ, ◌≡◌, ◌↔◌, refl, inl, inr, true, false, not, List, [], ◌∷◌, ◌++◌, ◌&&◌, arith, Bytes, eq_bytes,
  eq_bytes_iff, Bool-cases,
}
use backup_shield.Base.Result.{Result, ok, err, Result-cases}
use backup_shield.Hash.{Hashes, compute_hash}
use backup_shield.Pack.Disk.{Disk}
use backup_shield.Pack.Reader.{verify_pack}
use backup_shield.Repository.Index.{ChunkIndex}
use backup_shield.Snapshot.{Snapshot, is_among}
use backup_shield.Snapshot.Node.{SnapshotFile}
use backup_shield.Verify.Report.{VerifyError}
use backup_shield.Verify.Chunks.{
  Tally, ReadError, tally_ok, tally_missing, check_pack, read_chunk_from_index, check_read,
  check_chunk,
}
use backup_shield.Verify.Files.{
  FileTally, is_json, load_entry, any_bad, compute_file_hash, check_file,
}

pub append_ne_nil : (errors : List VerifyError) (e : VerifyError) → errors ++ e ∷ [] ≡ [] → ⊥
append_ne_nil [] e h = absurd (cc)
append_ne_nil (d ∷ errors) e h = absurd (cc)

module _ (H : Hashes) where
  -- The read gives bytes, and they have the hash.
  abbrev pub Reads : Bytes → Result ReadError Bytes → Type 0
  Reads hash r = (bytes : Bytes) × (r ≡ ok bytes) × (compute_hash H bytes ≡ hash)

  abbrev pub Readable : Disk → ChunkIndex → Bytes → Type 0
  Readable disk index hash = Reads hash (read_chunk_from_index H disk index hash)

  pub check_pack-clean :
      (disk : Disk) (pack_id : ℕ) (errors : List VerifyError)
      → (check_pack H disk pack_id errors ≡ [])
        ↔ ((errors ≡ []) × (verify_pack H disk pack_id ≡ ok tt))
  unfolding check_pack
  check_pack-clean disk pack_id errors = elim (Result-cases (verify_pack H disk pack_id)) [
    | inl (e, refused) ↦ (
      λ h. absurd (append_ne_nil errors _ (rw (refused, check_pack) at h)),
      λ h. absurd (ground (arith, refused, h.1)),
    )
    | inr (tt, accepted) ↦
        (λ h. (rw (accepted, check_pack) at h, accepted), λ h. rw (accepted, check_pack) (h.0))
  ]

  check_read-clean :
      (disk : Disk) (hash : Bytes) (r : Result ReadError Bytes) (t : Tally)
      → ((check_read H disk hash r t).errors ≡ []) ↔ ((t.errors ≡ []) × Reads hash r)
  unfolding check_read tally_missing tally_ok
  check_read-clean disk hash (err e) t =
      (λ h. absurd (append_ne_nil t.errors _ h), λ h. absurd (ground (arith, h.1.1)))
  check_read-clean disk hash (ok bytes) t =
      elim (Bool-cases (eq_bytes (compute_hash H bytes) hash)) [
        | inl same ↦ rw same (λ h. (h, (bytes, refl, (eq_bytes_iff _ _).0 same)), λ h. h.0)
        | inr other ↦ rw other (
          λ h. absurd (append_ne_nil t.errors _ h),
          λ h.
              absurd
                (ground (arith, other, eq_bytes_iff (compute_hash H bytes) hash, h.1.1, h.1.2)),
        )
      ]

  pub check_chunk-clean :
      (disk : Disk) (index : ChunkIndex) (hash : Bytes) (t : Tally)
      → ((check_chunk H disk index hash t).errors ≡ [])
        ↔ ((t.errors ≡ []) × Readable disk index hash)
  unfolding check_chunk
  check_chunk-clean disk index hash t = check_read-clean disk hash _ _

-- A file of the directory of snapshots is a snapshot, or is not named as one.
abbrev pub Parses : Bytes × Result Bytes Snapshot → Type 0
Parses (name, loaded) = is_json name ≡ true → (snap : Snapshot) × (loaded ≡ ok snap)

pub load_entry-clean :
    (entry : Bytes × Result Bytes Snapshot) (s : List Snapshot × List VerifyError)
    → ((load_entry entry s).1 ≡ []) ↔ ((s.1 ≡ []) × Parses entry)
unfolding load_entry
load_entry-clean (name, ok snap) (snapshots, errors) = elim (Bool-cases (is_json name)) [
  | inl json ↦ rw json (λ h. (h, λ _. (snap, refl)), λ h. h.0)
  | inr other ↦ rw other (λ h. (h, λ _. (snap, refl)), λ h. h.0)
]
load_entry-clean (name, err reason) (snapshots, errors) = elim (Bool-cases (is_json name)) [
  | inl json ↦
      rw json (λ h. absurd (append_ne_nil errors _ h), λ h. absurd (ground (arith, (h.1 refl).1)))
  | inr other ↦ rw other (λ h. (h, λ impossible. absurd (cc)), λ h. h.0)
]

any_bad-nil : (hashes : List Bytes) → any_bad [] hashes ≡ false
unfolding any_bad is_among
any_bad-nil [] = refl
any_bad-nil (hash ∷ hashes) = any_bad-nil hashes

module _ (H : Hashes) where
  -- The hash of the file is that of its chunks' hashes.
  abbrev pub FileHashed : Bytes × SnapshotFile → Type 0
  FileHashed entry = compute_file_hash H entry.1.chunk_hashes ≡ entry.1.file_hash

  pub check_file-clean :
      (entry : Bytes × SnapshotFile) (t : FileTally)
      → ((check_file H [] entry t).errors ≡ []) ↔ ((t.errors ≡ []) × FileHashed entry)
  unfolding check_file
  check_file-clean (path, f) t =
      elim (Bool-cases (eq_bytes (compute_file_hash H f.chunk_hashes) f.file_hash)) [
        | inl same ↦
            rw (same, any_bad-nil f.chunk_hashes) (λ h. (h, (eq_bytes_iff _ _).0 same), λ h. h.0)
        | inr other ↦
            rw (other, any_bad-nil f.chunk_hashes)
              (
                λ h. absurd (append_ne_nil t.errors _ h),
                λ h. absurd (
                    ground (
                      arith,
                      other,
                      eq_bytes_iff (compute_file_hash H f.chunk_hashes) f.file_hash,
                      h.1,
                    )),
              )
      ]

  -- An error that is there stays.
  pub check_file-back :
      (bad : List Bytes) (entry : Bytes × SnapshotFile) (t : FileTally)
      → (check_file H bad entry t).errors ≡ []
      → t.errors ≡ []
  unfolding check_file
  check_file-back bad (path, f) t h =
      elim (Bool-cases (
        not (any_bad bad f.chunk_hashes)
        && not (eq_bytes (compute_file_hash H f.chunk_hashes) f.file_hash))) [
          | inl flagged ↦ absurd (append_ne_nil t.errors _ (rw flagged at h))
          | inr passed ↦ rw passed at h
        ]
