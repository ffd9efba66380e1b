-- ===== src/Verify/Scrub/Order.antt =====
-- Two loads of one index hold its entries in orders of their own: what a scrub makes of them.
use backup_shield.Base.{
  suc, ◌≡◌, refl, sym, ap, ◌∙◌, subst, inl, inr, Bool, true, false, List, [], ◌∷◌, ◌++◌,
  if◌then◌else◌, length, append_assoc, append-nil, for_each, Bytes, eq_bytes, Bool-cases,
}
use backup_shield.Base.Result.{Result, ok, err}
use mathlib.Core.List.Permᴰ as Permᴰ
use mathlib.Core.List.{Permᴰ}
use backup_shield.Hash.{Hashes, compute_hash}
use backup_shield.Pack.Disk.{Disk}
use backup_shield.Repository.Index.{ChunkMeta, ChunkIndex, get}
use backup_shield.Verify.Report.{VerifyError, chunk_corrupt, chunk_missing}
use backup_shield.Verify.Chunks.{ReadError, read_chunk_from_index}
use backup_shield.Verify.Checker.{all_hashes}
use backup_shield.Verify.Scrub.{
  ScrubProgress, ScrubState, increment_progress, report_bad, scrub_read, scrub_chunk, scrub_chunks,
}

-- The same `HashMap`, whose iteration may take another order.
pub record SameMap (index other : ChunkIndex) : Type 0 where
  pub entries : Permᴰ other.entries index.entries
  pub lookup : (h : Bytes) → get other h ≡ get index h

abbrev pub SameFindings : ScrubState → ScrubState → Type 0
SameFindings s t = Permᴰ s.errors_found t.errors_found × (s.progress ≡ t.progress)

SameFindings-trans : (s t u : ScrubState) → SameFindings s t → SameFindings t u → SameFindings s u
SameFindings-trans s t u a b = (Permᴰ.trans a.0 b.0, a.1 ∙ b.1)

increment_progress-swap :
    (a b : Bool) (p : ScrubProgress)
    → increment_progress a (increment_progress b p) ≡ increment_progress b (increment_progress a p)
unfolding increment_progress
increment_progress-swap true true p = refl
increment_progress-swap true false p = refl
increment_progress-swap false true p = refl
increment_progress-swap false false p = refl

append-swap : (l a b : List VerifyError) → Permᴰ ((l ++ a) ++ b) ((l ++ b) ++ a)
append-swap l a b =
    subst (λ t. Permᴰ t ((l ++ b) ++ a)) (sym (append_assoc l a b))
      (subst (Permᴰ (l ++ (a ++ b))) (sym (append_assoc l b a))
        (Permᴰ.append_left l (Permᴰ.append_comm a b)))

module _ (H : Hashes) (disk : Disk) (index : ChunkIndex) where
  -- Whether the read gives the chunk, and what is reported of it.
  is_fine : Bytes → Result ReadError Bytes → Bool
  is_fine hash (ok bytes) = eq_bytes (compute_hash H bytes) hash
  is_fine hash (err e) = false

  reported : Bytes → Result ReadError Bytes → List VerifyError
  reported hash (err e) = chunk_missing hash ∷ []
  reported hash (ok bytes) =
      if eq_bytes (compute_hash H bytes) hash
      then []
      else chunk_corrupt hash hash (compute_hash H bytes) ∷ []

  scrub_read_by :
      (hash : Bytes) (r : Result ReadError Bytes) (s : ScrubState)
      → ((scrub_read H disk index hash r s).errors_found ≡ s.errors_found ++ reported hash r)
        × ((scrub_read H disk index hash r s).progress
            ≡ increment_progress (is_fine hash r) s.progress)
  unfolding scrub_read report_bad reported is_fine
  scrub_read_by hash (err e) s = (refl, refl)
  scrub_read_by hash (ok bytes) s = elim (Bool-cases (eq_bytes (compute_hash H bytes) hash)) [
    | inl same ↦ rw same (sym (append-nil s.errors_found), refl)
    | inr other ↦ rw other (refl, refl)
  ]

  abbrev read : Bytes → Result ReadError Bytes
  read = read_chunk_from_index H disk index

  step_by :
      (hash : Bytes) (s : ScrubState)
      → ((scrub_chunk H disk index hash s).errors_found
          ≡ s.errors_found ++ reported hash (read hash))
        × ((scrub_chunk H disk index hash s).progress
            ≡ increment_progress (is_fine hash (read hash)) s.progress)
  unfolding scrub_chunk
  step_by hash s = scrub_read_by hash (read hash) s

  step-SameFindings :
      (hash : Bytes) (s t : ScrubState)
      → SameFindings s t
      → SameFindings (scrub_chunk H disk index hash s) (scrub_chunk H disk index hash t)
  step-SameFindings hash s t same =
      let (es, ps) = step_by hash s in
      let (et, pt) = step_by hash t in
      (
        rw (es, et) (Permᴰ.append_right (reported hash (read hash)) same.0),
        ps ∙ (ap (increment_progress (is_fine hash (read hash))) same.1 ∙ sym pt),
      )

  swap-SameFindings :
      (a b : Bytes) (s : ScrubState)
      → SameFindings
          (scrub_chunk H disk index b (scrub_chunk H disk index a s))
          (scrub_chunk H disk index a (scrub_chunk H disk index b s))
  swap-SameFindings a b s =
      let (ea, pa) = step_by a s in
      let (eb, pb) = step_by b s in
      let (eab, pab) = step_by b (scrub_chunk H disk index a s) in
      let (eba, pba) = step_by a (scrub_chunk H disk index b s) in
      (
        rw (eab, eba, ea, eb)
            (append-swap s.errors_found (reported a (read a)) (reported b (read b))),
        pab
            ∙ (ap (increment_progress (is_fine b (read b))) pa
                ∙ (increment_progress-swap (is_fine b (read b)) (is_fine a (read a)) s.progress
                    ∙ sym (pba ∙ ap (increment_progress (is_fine a (read a))) pb))),
      )

  loop-SameFindings :
      (hashes : List Bytes) (s t : ScrubState)
      → SameFindings s t
      → SameFindings
          (for_each (scrub_chunk H disk index) hashes s)
          (for_each (scrub_chunk H disk index) hashes t)
  unfolding for_each
  loop-SameFindings [] s t same = same
  loop-SameFindings (hash ∷ hashes) s t same =
      loop-SameFindings hashes (scrub_chunk H disk index hash s) (scrub_chunk H disk index hash t)
        (step-SameFindings hash s t same)

  pub reordered-SameFindings :
      {xs ys : List Bytes}
      → Permᴰ xs ys
      → (s : ScrubState)
      → SameFindings
          (for_each (scrub_chunk H disk index) xs s)
          (for_each (scrub_chunk H disk index) ys s)
  unfolding for_each
  reordered-SameFindings Permᴰ.nil s = (Permᴰ.refl s.errors_found, refl)
  reordered-SameFindings (Permᴰ.cons {a} {b} {l₁} {l₂} e d) s =
      subst
        (λ h.
          SameFindings (for_each (scrub_chunk H disk index) l₁ (scrub_chunk H disk index a s))
            (for_each (scrub_chunk H disk index) l₂ (scrub_chunk H disk index h s)))
        e (reordered-SameFindings d (scrub_chunk H disk index a s))
  reordered-SameFindings (Permᴰ.swap {a} {b} {a'} {b'} {l} e f) s =
      rw (sym e, sym f)
        (loop-SameFindings l (scrub_chunk H disk index b (scrub_chunk H disk index a s))
          (scrub_chunk H disk index a (scrub_chunk H disk index b s)) (swap-SameFindings a b s))
  reordered-SameFindings (Permᴰ.trans {l₁} {l₂} {l₃} d e) s =
      SameFindings-trans (for_each (scrub_chunk H disk index) l₁ s)
        (for_each (scrub_chunk H disk index) l₂ s) (for_each (scrub_chunk H disk index) l₃ s)
        (reordered-SameFindings d s) (reordered-SameFindings e s)

module _ (H : Hashes) (disk : Disk) (index other : ChunkIndex) (same : SameMap index other) where
  scrub_read-other :
      (hash : Bytes) (r : Result ReadError Bytes) (s : ScrubState)
      → scrub_read H disk other hash r s ≡ scrub_read H disk index hash r s
  unfolding scrub_read report_bad
  scrub_read-other hash (err e) s = refl
  scrub_read-other hash (ok bytes) s = refl

  scrub_chunk-other :
      (hash : Bytes) (s : ScrubState)
      → scrub_chunk H disk other hash s ≡ scrub_chunk H disk index hash s
  unfolding scrub_chunk read_chunk_from_index
  scrub_chunk-other hash s = rw (same.lookup hash) (scrub_read-other hash _ s)

  loop-other :
      (hashes : List Bytes) (s : ScrubState)
      → for_each (scrub_chunk H disk other) hashes s ≡ for_each (scrub_chunk H disk index) hashes s
  unfolding for_each
  loop-other [] s = refl
  loop-other (hash ∷ hashes) s =
      loop-other hashes (scrub_chunk H disk other hash s)
      ∙ ap (for_each (scrub_chunk H disk index) hashes) (scrub_chunk-other hash s)

  length-Perm : {xs ys : List Bytes} → Permᴰ xs ys → length xs ≡ length ys
  length-Perm Permᴰ.nil = refl
  length-Perm (Permᴰ.cons e d) = ap suc (length-Perm d)
  length-Perm (Permᴰ.swap e f) = refl
  length-Perm (Permᴰ.trans d e) = length-Perm d ∙ length-Perm e

  -- A scrub that loads the other order finds the same errors, in some order, and the same counts.
  pub scrub_chunks-SameFindings :
      (errors : List VerifyError) (progress : ScrubProgress)
      → SameFindings
          (scrub_chunks H disk other errors progress)
          (scrub_chunks H disk index errors progress)
  unfolding scrub_chunks all_hashes
  scrub_chunks-SameFindings errors progress =
      let hashes : Permᴰ (all_hashes other) (all_hashes index) =
        Permᴰ.map (λ (e : Bytes × ChunkMeta). e.0) same.entries in
      rw (length-Perm hashes)
        (rw (loop-other (all_hashes other) _) (reordered-SameFindings H disk index hashes _))
