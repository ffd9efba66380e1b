-- ===== src/Chunker/Sizes.antt =====
-- What the chunks are: a partition of the bytes, within the sizes that the chunker was made with.
use backup_shield.Base.{
  ℕ, ◌+◌, ◌≤◌, ◌<◌, ◌≡◌, refl, ap, ◌∙◌, ◌⊎◌, inl, inr, Bool, true, false, List, [], ◌∷◌, ◌++◌,
  flatten, append-nil, append_assoc, length, length-append, Bytes, arith,
}
use backup_shield.Base.Result.{Result, ok, err, ◌>>=◌}
use backup_shield.Chunker.{Buzhash, Chunker, Panic, update, reset, chunk_data, new_buzhash}
use backup_shield.Chunker.Reference.{ends, remainder, split, chunk_data-eq-split}

abbrev pub branch :
    Result Panic Bool
    → Result Panic (List Bytes)
    → Result Panic (List Bytes)
    → Bytes
    → Result Panic (List Bytes)
branch r t f x = r >>= λ hit. elim hit [ true ↦ (do later ← t; ok (x ∷ later)) | false ↦ f ]

pub branch_cases :
    (r : Result Panic Bool) (t f : Result Panic (List Bytes)) (x : Bytes) (chunks : List Bytes)
    → branch r t f x ≡ ok chunks
    → ((r ≡ ok true) × (later : List Bytes) × (t ≡ ok later) × (chunks ≡ x ∷ later))
      ⊎ ((r ≡ ok false) × (f ≡ ok chunks))
branch_cases (err e) t f x chunks h = cc
branch_cases (ok true) (ok later) f x chunks h = inl (refl, later, refl, (cc))
branch_cases (ok true) (err e) f x chunks h = cc
branch_cases (ok false) t f x chunks h = inr (refl, h)

flatten-remainder : (open_chunk : Bytes) → flatten (remainder open_chunk) ≡ open_chunk
unfolding remainder flatten
flatten-remainder [] = refl
flatten-remainder (b ∷ bs) = append-nil (b ∷ bs)

ok-injective : {xs ys : List Bytes} → ◌≡◌ {A = Result Panic (List Bytes)} (ok xs) (ok ys) → ys ≡ xs
ok-injective h = cc

pub flatten-split :
    (c : Chunker) (bh : Buzhash) (open_chunk rest : Bytes) (chunks : List Bytes)
    → split c bh open_chunk rest ≡ ok chunks
    → flatten chunks ≡ open_chunk ++ rest
unfolding split flatten
flatten-split c bh open_chunk [] chunks h =
    rw (ok-injective h, append-nil open_chunk) (flatten-remainder open_chunk)
flatten-split c bh open_chunk (byte ∷ rest) chunks h =
    let longer : Bytes = open_chunk ++ byte ∷ [] in
    let regroup : (longer ++ rest) ≡ open_chunk ++ byte ∷ rest =
      append_assoc open_chunk (byte ∷ []) rest in
    elim (branch_cases (ends c (update bh byte) (length open_chunk + 1)) _ _ longer chunks h) [
      | inl (hit, later, e, p) ↦ rw p (
          ap (λ t. longer ++ t) (flatten-split c (reset (update bh byte)) [] rest later e)
          ∙ regroup)
      | inr (miss, e) ↦ flatten-split c (update bh byte) longer rest chunks e ∙ regroup
    ]

-- The conditions that `Chunker::new` checks.
pub record IsValid (c : Chunker) : Type 0 where
  pub min_pos : 0 < c.min_size
  pub min_lt_max : c.min_size < c.max_size
  pub target_ge_min : c.min_size ≤ c.target_size
  pub target_le_max : c.target_size ≤ c.max_size

-- Every chunk but the last has at least `min_size` bytes; none is empty or above `max_size`.
abbrev pub Sized : Chunker → List Bytes → Type 0
Sized c [] = Unit
Sized c (x ∷ []) = (0 < length x) × (length x ≤ c.max_size)
Sized c (x ∷ y ∷ rest) = (c.min_size ≤ length x) × (length x ≤ c.max_size) × Sized c (y ∷ rest)

Sized-cons :
    (c : Chunker) (x : Bytes) (later : List Bytes)
    → IsValid c
    → c.min_size ≤ length x
    → length x ≤ c.max_size
    → Sized c later
    → Sized c (x ∷ later)
Sized-cons c x [] v h k s = omega arith
Sized-cons c x (y ∷ rest) v h k s = (h, k, s)

ends-true : (c : Chunker) (bh : Buzhash) (n : ℕ) → ends c bh n ≡ ok true → c.min_size ≤ n
unfolding ends
ends-true c bh n h = ground arith

ends-false :
    (c : Chunker) (bh : Buzhash) (n : ℕ) → IsValid c → ends c bh n ≡ ok false → n < c.max_size
unfolding ends
ends-false c bh n v h = ground arith

remainder-Sized :
    (c : Chunker) (open_chunk : Bytes)
    → length open_chunk < c.max_size
    → Sized c (remainder open_chunk)
unfolding remainder
remainder-Sized c [] h = tt
remainder-Sized c (b ∷ bs) h = omega arith

split-Sized :
    (c : Chunker) (bh : Buzhash) (open_chunk rest : Bytes) (chunks : List Bytes)
    → IsValid c
    → length open_chunk < c.max_size
    → split c bh open_chunk rest ≡ ok chunks
    → Sized c chunks
unfolding split
split-Sized c bh open_chunk [] chunks v fits h =
    rw (ok-injective h) (remainder-Sized c open_chunk fits)
split-Sized c bh open_chunk (byte ∷ rest) chunks v fits h =
    let longer : Bytes = open_chunk ++ byte ∷ [] in
    let n : length longer ≡ length open_chunk + 1 = length-append open_chunk (byte ∷ []) in
    elim (branch_cases (ends c (update bh byte) (length open_chunk + 1)) _ _ longer chunks h) [
      | inl (hit, later, e, p) ↦ rw p (
          Sized-cons c longer later v
            (omega (arith, ends-true c (update bh byte) (length open_chunk + 1) hit)) (omega arith)
            (split-Sized c (reset (update bh byte)) [] rest later v (omega arith) e))
      | inr (miss, e) ↦
          split-Sized c (update bh byte) longer rest chunks v
            (omega (arith, ends-false c (update bh byte) (length open_chunk + 1) v miss)) e
    ]

-- Whenever `chunk_data` returns, its chunks, put one after the other, are the bytes that were
-- given.
pub flatten-chunk_data :
    (c : Chunker) (bytes : Bytes) (chunks : List Bytes)
    → chunk_data c bytes ≡ ok chunks
    → flatten chunks ≡ bytes
flatten-chunk_data c bytes chunks h =
    flatten-split c new_buzhash [] bytes chunks (rw (← chunk_data-eq-split c bytes) h)

-- For a chunker whose `min_size` is positive and below its `max_size`, and whose `target_size` is
-- between the two: whenever `chunk_data` returns, no chunk is longer than `max_size`, every chunk
-- but the last has `min_size` bytes at least, and the last is not empty.
pub chunk_data-Sized :
    (c : Chunker) (bytes : Bytes) (chunks : List Bytes)
    → IsValid c
    → chunk_data c bytes ≡ ok chunks
    → Sized c chunks
chunk_data-Sized c bytes chunks v h =
    split-Sized c new_buzhash [] bytes chunks v (omega arith) (rw (← chunk_data-eq-split c bytes) h)
