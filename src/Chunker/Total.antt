-- ===== src/Chunker/Total.antt =====
-- `chunk_data` returns for every target up to 2 ^ 32, and divides by zero above.
use backup_shield.Base.{
  ℕ, ◌+◌, ◌^◌, ◌≤◌, ◌<◌, ◌≡◌, ◌≢◌, refl, ◌∙◌, inl, inr, Bool, true, false, List, [], ◌∷◌, ◌++◌,
  length, ltb, Bool-cases, tests, length-append, Bytes, arith,
}
use backup_shield.Base.Result.{Result, ok, err}
use backup_shield.Chunker.{
  Buzhash, Chunker, Panic, remainder_by_zero, at_boundary, update, reset, chunk_data, new_buzhash,
  new_chunker,
}
use backup_shield.Chunker.Reference.{ends, remainder, split, chunk_data-eq-split}
use backup_shield.Chunker.Sizes.{IsValid}
use backup_shield.Chunker.Mask.{derive_mask-ne-zero, derive_mask_truncated, new_chunker-IsValid}

returns : (r : Result Panic Bool) → r ≢ err remainder_by_zero → (hit : Bool) × (r ≡ ok hit)
returns (ok hit) h = (hit, refl)
returns (err remainder_by_zero) h = absurd (h refl)

ends_total :
    (c : Chunker) (bh : Buzhash) (n : ℕ) → c.mask ≢ 0 → (hit : Bool) × (ends c bh n ≡ ok hit)
unfolding ends at_boundary
ends_total c bh n h = returns (ends c bh n) (ground arith)

split_total :
    (c : Chunker) (bh : Buzhash) (open_chunk rest : Bytes)
    → c.mask ≢ 0
    → (chunks : List Bytes) × (split c bh open_chunk rest ≡ ok chunks)
unfolding split
split_total c bh open_chunk [] h = (remainder open_chunk, refl)
split_total c bh open_chunk (byte ∷ rest) h =
    let (hit, e) = ends_total c (update bh byte) (length open_chunk + 1) h in
    go hit e (split_total c (reset (update bh byte)) [] rest h)
      (split_total c (update bh byte) (open_chunk ++ byte ∷ []) rest h)
  where
    go :
        (hit : Bool)
        → ends c (update bh byte) (length open_chunk + 1) ≡ ok hit
        → (later : List Bytes) × (split c (reset (update bh byte)) [] rest ≡ ok later)
        → (chunks : List Bytes) × (split c (update bh byte) (open_chunk ++ byte ∷ []) rest
            ≡ ok chunks)
        → (chunks : List Bytes) × (split c bh open_chunk (byte ∷ rest) ≡ ok chunks)
    go true e (later, p) f = ((open_chunk ++ byte ∷ []) ∷ later, rw (e, p))
    go false e t (chunks, p) = (chunks, rw (e, p))

-- A chunker that `Chunker::new` made for a target of at most 2^32 returns chunks for every input:
-- it never panics.
pub chunk_data_total :
    (a b t : ℕ) (c : Chunker) (bytes : Bytes)
    → new_chunker a b t ≡ ok c
    → t ≤ 2 ^ 32
    → (chunks : List Bytes) × (chunk_data c bytes ≡ ok chunks)
chunk_data_total a b t c bytes made fits =
    let (v, target, mask) = new_chunker-IsValid a b t c made in
    let works : c.mask ≢ 0 = rw mask (derive_mask-ne-zero t (omega arith) fits) in
    rw (chunk_data-eq-split c bytes) (split_total c new_buzhash [] bytes works)

split_panics :
    (c : Chunker) (bh : Buzhash) (open_chunk rest : Bytes)
    → IsValid c
    → c.mask ≡ 0
    → length open_chunk < c.min_size
    → c.min_size ≤ length open_chunk + length rest
    → split c bh open_chunk rest ≡ err remainder_by_zero
unfolding split ends at_boundary
split_panics c bh open_chunk [] v zero_mask short long = absurd (omega arith)
split_panics c bh open_chunk (byte ∷ rest) v zero_mask short long =
    elim (Bool-cases (ltb (length open_chunk + 1) c.min_size)) [
      | inl early ↦ rw early (
          split_panics c (update bh byte) (open_chunk ++ byte ∷ []) rest v zero_mask
            (omega (tests, length-append open_chunk (byte ∷ [])))
            (omega (arith, length-append open_chunk (byte ∷ []))))
      | inr reached ↦ rw reached (ground arith)
    ]

-- A chunker that `Chunker::new` made for a target above 2^32 and up to 2^63 panics, with a
-- remainder by zero, on every input of `min_size` bytes or more.
pub chunk_data_panics :
    (a b t : ℕ) (c : Chunker) (bytes : Bytes)
    → new_chunker a b t ≡ ok c
    → 2 ^ 32 < t
    → t ≤ 2 ^ 63
    → c.min_size ≤ length bytes
    → chunk_data c bytes ≡ err remainder_by_zero
chunk_data_panics a b t c bytes made big fits long =
    let (v, target, mask) = new_chunker-IsValid a b t c made in
    rw (chunk_data-eq-split c bytes) (
      split_panics c new_buzhash [] bytes v (mask ∙ derive_mask_truncated t big fits) (v.min_pos)
        (omega arith))
