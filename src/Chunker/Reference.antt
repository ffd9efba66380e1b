-- ===== src/Chunker/Reference.antt =====
-- What `chunk_data` computes, as a recursion on the bytes that carries the open chunk.
use backup_shield.Base.{
  ℕ, ◌+◌, ◌-◌, ◌≡◌, refl, ap, ◌∙◌, Bool, true, false, List, [], ◌∷◌, ◌++◌, append-nil, append_assoc,
  ltb, leb, if◌then◌else◌, length, length-append, drop_append, take_append, Bytes, arith,
}
use backup_shield.Base.Result.{Result, ok, err, ◌>>=◌, bind_assoc}
use backup_shield.Chunker.{
  Buzhash, Chunker, ChunkState, Panic, at_boundary, hash_value, update, reset, slice_to, cut,
  chunk_step, chunk_loop, last_chunk, chunk_data, new_buzhash,
}

-- Whether a chunk of `n` bytes ends at the byte that was just slid into `bh`.
unfoldable pub ends : Chunker → Buzhash → ℕ → Result Panic Bool
ends c bh n =
    if ltb n c.min_size
    then ok false
    else if leb c.max_size n
    then ok true
    else at_boundary c (hash_value bh)

unfoldable pub remainder : Bytes → List Bytes
remainder [] = []
remainder (b ∷ bs) = (b ∷ bs) ∷ []

unfoldable pub split : Chunker → Buzhash → Bytes → Bytes → Result Panic (List Bytes)
split c bh open_chunk [] = ok (remainder open_chunk)
split c bh open_chunk (byte ∷ rest) = do
  hit ← ends c (update bh byte) (length open_chunk + 1)
  elim hit [
    | true ↦ do
      later ← split c (reset (update bh byte)) [] rest
      ok ((open_chunk ++ byte ∷ []) ∷ later)
    | false ↦ split c (update bh byte) (open_chunk ++ byte ∷ []) rest
  ]

-- One step, where the open chunk stands between `before` and `rest`.
abbrev state : Buzhash → List Bytes → ℕ → ChunkState
state bh chunks start = record { buzhash = bh; chunks = chunks; chunk_start = start }

slice_lem :
    (before open_chunk rest : Bytes) (byte : ℕ)
    → slice_to
        (before ++ (open_chunk ++ byte ∷ rest))
        (length before)
        (length before + length open_chunk)
      ≡ open_chunk ++ byte ∷ []
unfolding slice_to
slice_lem before open_chunk rest byte =
    rw (drop_append before, ← append_assoc open_chunk (byte ∷ []) rest)
      (rw size_eq (take_append (open_chunk ++ byte ∷ []) rest))
  where
    size_eq :
        length before + length open_chunk + 1 - length before ≡ length (open_chunk ++ byte ∷ [])
    size_eq = omega (arith, length-append open_chunk (byte ∷ []))

module _ (before open_chunk rest : Bytes) (byte : ℕ) where
  cut_lem :
      (bh : Buzhash) (chunks : List Bytes)
      → cut
          (before ++ (open_chunk ++ byte ∷ rest))
          (length before + length open_chunk)
          (state bh chunks (length before))
        ≡ state
            (reset bh)
            (chunks ++ (open_chunk ++ byte ∷ []) ∷ [])
            (length before + length open_chunk + 1)
  unfolding cut
  cut_lem bh chunks = rw (slice_lem before open_chunk rest byte)

  chunk_step_lem :
      (c : Chunker) (bh : Buzhash) (chunks : List Bytes)
      → chunk_step c
          (before ++ (open_chunk ++ byte ∷ rest))
          (length before + length open_chunk)
          byte
          (state bh chunks (length before))
        ≡ (ends c (update bh byte) (length open_chunk + 1) >>= λ hit. ok (
            if hit
            then state
                (reset (update bh byte))
                (chunks ++ (open_chunk ++ byte ∷ []) ∷ [])
                (length before + length open_chunk + 1)
            else state (update bh byte) chunks (length before)))
  unfolding chunk_step ends
  chunk_step_lem c bh chunks = rw (cut_lem (update bh byte) chunks, offset) (ground arith)
    where
      offset : length before + length open_chunk - length before ≡ length open_chunk
      offset = omega arith

chunk_step_at :
    (c : Chunker) (bytes : Bytes) (i start : ℕ) (before open_chunk rest : Bytes) (byte : ℕ)
    (bh : Buzhash) (chunks : List Bytes)
    → bytes ≡ before ++ (open_chunk ++ byte ∷ rest)
    → i ≡ length before + length open_chunk
    → start ≡ length before
    → chunk_step c bytes i byte (state bh chunks start) ≡ (
        ends c (update bh byte) (length open_chunk + 1) >>= λ hit. ok (
          if hit
          then state
              (reset (update bh byte))
              (chunks ++ (open_chunk ++ byte ∷ []) ∷ [])
              (length before + length open_chunk + 1)
          else state (update bh byte) chunks (length before)))
chunk_step_at c bytes i start before open_chunk rest byte bh chunks e p q =
    rw (e, p, q) (chunk_step_lem before open_chunk rest byte c bh chunks)

-- Two loops that take the same decision agree if they agree after it.
bind_branch :
    {S X Y : Type 0} (r : Result Panic Bool) (a b : S) (k : S → Result Panic X)
    (t f : Result Panic Y) (g : Y → Result Panic X)
    → k a ≡ (t >>= g)
    → k b ≡ (f >>= g)
    → ((r >>= λ hit. ok (if hit then a else b)) >>= k)
      ≡ ((r >>= λ hit. elim hit [ true ↦ t | false ↦ f ]) >>= g)
bind_branch (err e) a b k t f g p q = refl
bind_branch (ok true) a b k t f g p q = p
bind_branch (ok false) a b k t f g p q = q

abbrev finish : Bytes → Result Panic ChunkState → Result Panic (List Bytes)
finish bytes r = r >>= λ st. ok (last_chunk bytes st)

abbrev after : List Bytes → Result Panic (List Bytes) → Result Panic (List Bytes)
after chunks r = r >>= λ later. ok (chunks ++ later)

last_chunk_lem :
    (before open_chunk : Bytes) (bh : Buzhash) (chunks : List Bytes)
    → last_chunk (before ++ open_chunk) (state bh chunks (length before))
      ≡ chunks ++ remainder open_chunk
unfolding last_chunk remainder
last_chunk_lem before [] bh chunks = ground (arith, length-append before [], append-nil chunks)
last_chunk_lem before (b ∷ bs) bh chunks =
    ground (arith, length-append before (b ∷ bs), drop_append before (b ∷ bs))

after-after :
    (xs : List Bytes) (x : Bytes) (r : Result Panic (List Bytes))
    → after (xs ++ x ∷ []) r ≡ after xs (r >>= λ later. ok (x ∷ later))
after-after xs x (ok a) = ap ok (append_assoc xs (x ∷ []) a)
after-after xs x (err e) = refl

chunk_loop-split :
    (c : Chunker) (rest before open_chunk : Bytes) (bh : Buzhash) (chunks : List Bytes)
    (bytes : Bytes) (i start : ℕ)
    → bytes ≡ before ++ (open_chunk ++ rest)
    → i ≡ length before + length open_chunk
    → start ≡ length before
    → finish bytes (chunk_loop c bytes i rest (state bh chunks start))
      ≡ after chunks (split c bh open_chunk rest)
unfolding chunk_loop split
chunk_loop-split c [] before open_chunk bh chunks bytes i start e p q =
    rw (e, q, append-nil open_chunk) (ap ok (last_chunk_lem before open_chunk bh chunks))
chunk_loop-split c (byte ∷ rest) before open_chunk bh chunks bytes i start e p q =
    rw (bind_assoc, chunk_step_at c bytes i start before open_chunk rest byte bh chunks e p q)
      (bind_branch (ends c (update bh byte) (length open_chunk + 1))
        (state (reset (update bh byte)) (chunks ++ (open_chunk ++ byte ∷ []) ∷ [])
          (length before + length open_chunk + 1))
        (state (update bh byte) chunks (length before)) _ _ _ (λ later. ok (chunks ++ later))
        (chunk_loop-split c rest (before ++ (open_chunk ++ byte ∷ [])) [] (reset (update bh byte))
            (chunks ++ (open_chunk ++ byte ∷ []) ∷ []) bytes (i + 1)
            (length before + length open_chunk + 1) (e ∙ simp append_assoc) (omega (arith, longer))
            (omega (arith, longer))
          ∙ after-after chunks _ _)
        (chunk_loop-split c rest before (open_chunk ++ byte ∷ []) (update bh byte) chunks bytes
          (i + 1) (length before) (e ∙ simp append_assoc)
          (omega (arith, length-append open_chunk (byte ∷ []))) refl))
  where
    longer : length (before ++ (open_chunk ++ byte ∷ [])) ≡ length before + length open_chunk + 1
    longer = omega (
      arith,
      length-append before (open_chunk ++ byte ∷ []),
      length-append open_chunk (byte ∷ []),
    )

-- On every input and every chunker, panics included, the loop of `chunk_data` over positions
-- computes what the recursion computes that carries the bytes of the open chunk and ends it after
-- a byte where the sizes or the rolling hash say so.
pub chunk_data-eq-split :
    (c : Chunker) (bytes : Bytes) → chunk_data c bytes ≡ split c new_buzhash [] bytes
unfolding chunk_data
chunk_data-eq-split c [] = unfold split remainder in refl
chunk_data-eq-split c (byte ∷ rest) =
    chunk_loop-split c (byte ∷ rest) [] [] new_buzhash [] (byte ∷ rest) 0 0 refl refl refl
    ∙ unit (split c new_buzhash [] (byte ∷ rest))
  where
    unit : (r : Result Panic (List Bytes)) → after [] r ≡ r
    unit (ok a) = refl
    unit (err e) = refl
