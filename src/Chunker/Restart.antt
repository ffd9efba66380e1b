-- ===== src/Chunker/Restart.antt =====
-- After a cut the chunker has forgotten what stood before it, so equal tails that begin at a cut
-- have equal chunks: what deduplication rests on.
use backup_shield.Base.{
  ℕ, ◌+◌, ◌≡◌, refl, ◌∙◌, inl, inr, List, [], ◌∷◌, ◌++◌, flatten, length, Bytes,
}
use backup_shield.Base.Result.{ok}
use backup_shield.Chunker.{Buzhash, Chunker, update, reset, chunk_data, new_buzhash}
use backup_shield.Chunker.Reference.{ends, remainder, split, chunk_data-eq-split}
use backup_shield.Chunker.Sizes.{branch_cases, flatten-split, flatten-chunk_data}

reset-update : (bh : Buzhash) (byte : ℕ) → reset (update bh byte) ≡ reset bh
unfolding reset update
reset-update bh byte = refl

reset-new : reset new_buzhash ≡ new_buzhash
unfolding reset new_buzhash
reset-new = refl

tail_of : {x y : Bytes} {xs ys : List Bytes} → x ∷ xs ≡ y ∷ ys → xs ≡ ys
tail_of e = cc

remainder_tail :
    (open_chunk x : Bytes) (later : List Bytes) → remainder open_chunk ≡ x ∷ later → later ≡ []
unfolding remainder
remainder_tail [] x later h = cc
remainder_tail (b ∷ bs) x later h = cc

split_restart :
    (c : Chunker) (bh : Buzhash) (open_chunk rest x : Bytes) (later : List Bytes)
    → reset bh ≡ new_buzhash
    → split c bh open_chunk rest ≡ ok (x ∷ later)
    → split c new_buzhash [] (flatten later) ≡ ok later
unfolding split
split_restart c bh open_chunk [] x later fresh h =
    rw (remainder_tail open_chunk x later (cc)) (unfold flatten remainder in refl)
split_restart c bh open_chunk (byte ∷ rest) x later fresh h =
    elim (branch_cases (ends c (update bh byte) (length open_chunk + 1)) _ _
      (open_chunk ++ byte ∷ []) (x ∷ later) h) [
        | inl (hit, later', e, p) ↦
            let same : later ≡ later' = tail_of p in
            let start : reset (update bh byte) ≡ new_buzhash = reset-update bh byte ∙ fresh in
            rw (same, flatten-split c (reset (update bh byte)) [] rest later' e) (rw start at e)
        | inr (miss, e) ↦
            split_restart c (update bh byte) (open_chunk ++ byte ∷ []) rest x later
              (reset-update bh byte ∙ fresh) e
      ]

-- Where the chunks of some bytes split into `before` and `later`, the bytes of `later` alone have
-- the chunks `later`: where a chunk starts, nothing of what stands before it matters.
pub chunk_data_restart :
    (c : Chunker) (bytes : Bytes) (before later : List Bytes)
    → chunk_data c bytes ≡ ok (before ++ later)
    → chunk_data c (flatten later) ≡ ok later
chunk_data_restart c bytes [] later h = rw (flatten-chunk_data c bytes later h) h
chunk_data_restart c bytes (x ∷ before) later h =
    chunk_data_restart c (flatten (before ++ later)) before later (
      rw (chunk_data-eq-split c (flatten (before ++ later))) (
        split_restart c new_buzhash [] bytes x (before ++ later) reset-new
          (rw (← chunk_data-eq-split c bytes) h)))
