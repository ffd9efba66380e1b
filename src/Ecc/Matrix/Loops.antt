-- ===== src/Ecc/Matrix/Loops.antt =====
-- The counted loops of the matrix code.
use backup_shield.Base.{
  ℕ, zero, suc, ◌+◌, ◌≤◌, ◌<◌, ◌≡◌, ap, subst, ◌==◌, ◌&&◌, leb, ltb, if◌then◌else◌, arith,
}
use backup_shield.Ecc.Matrix.{Matrix, for_range, put, new_matrix}
use backup_shield.Ecc.Matrix.Cells.{Shows, Shows-congruent, put-Shows, new_matrix-Shows, changed}

for_range_invariant {ℓ κ} :
    {A : Type ℓ} (P : ℕ → A → Type κ) (rounds from : ℕ) (body : ℕ → A → A) (a : A)
    → ((i : ℕ) (a : A) → from ≤ i → i < from + rounds → P i a → P (i + 1) (body i a))
    → P from a
    → P (from + rounds) (for_range rounds from body a)
unfolding for_range
for_range_invariant P zero from body a keep h = subst (λ t. P t a) (omega arith) h
for_range_invariant P (suc rounds) from body a keep h =
    subst (λ t. P t (for_range rounds (from + 1) body (body from a))) (omega arith)
      (for_range_invariant P rounds (from + 1) body (body from a)
        (λ i a p q. keep i a (omega arith) (omega arith))
        (keep from a (omega arith) (omega arith) h))

pub loop_invariant {ℓ κ} :
    {A : Type ℓ} (P : ℕ → A → Type κ) (rounds : ℕ) (body : ℕ → A → A) (a : A)
    → ((i : ℕ) (a : A) → i < rounds → P i a → P (i + 1) (body i a))
    → P 0 a
    → P rounds (for_range rounds 0 body a)
loop_invariant P rounds body a keep h =
    subst (λ t. P t (for_range rounds 0 body a)) (omega arith)
      (for_range_invariant P rounds 0 body a (λ i a p q. keep i a (omega arith)) h)

-- The first `done` entries of one row are new.
abbrev pub row_changed : ℕ → ℕ → (ℕ → ℕ) → (ℕ → ℕ → ℕ) → ℕ → ℕ → ℕ
row_changed done row new f r c = if r == row && ltb c done then new c else f r c

-- A loop that writes one row, where what it writes in a column does not depend on the columns
-- that it has written.
pub row_loop-Shows :
    (rows width count row : ℕ) (new : ℕ → ℕ) (value : ℕ → Matrix → ℕ) (f : ℕ → ℕ → ℕ) (m : Matrix)
    → row < rows
    → count ≤ width
    → ((j : ℕ) (m : Matrix)
        → j < count
        → Shows rows width (row_changed j row new f) m
        → value j m ≡ new j)
    → Shows rows width f m
    → Shows rows width
        (row_changed count row new f)
        (for_range count 0 (λ j m. put row j (value j m) m) m)
row_loop-Shows rows width count row new value f m p fits same s =
    loop_invariant (λ j m. Shows rows width (row_changed j row new f) m) count
      (λ j m. put row j (value j m) m) m
      (λ j m high before.
        Shows-congruent rows width (changed row j (value j m) (row_changed j row new f))
          (row_changed (j + 1) row new f) (put row j (value j m) m)
          (put-Shows rows width row j (value j m) (row_changed j row new f) m before p
            (omega arith))
          (λ r c below small. ground (arith, same j m (omega arith) before)))
      (Shows-congruent rows width f (row_changed 0 row new f) m s (λ r c below small. ground arith))

-- The rows from `first` on, `count` of them, are new.
abbrev pub rows_changed : ℕ → ℕ → (ℕ → ℕ → ℕ) → (ℕ → ℕ → ℕ) → ℕ → ℕ → ℕ
rows_changed first count new f r c = if leb first r && ltb r (first + count) then new r c else f r c

-- A loop that writes one row after the other, every row over its whole width.
pub rows_loop-Shows :
    (rows width count first : ℕ) (place : ℕ → ℕ) (value new f : ℕ → ℕ → ℕ) (m : Matrix)
    → ((i : ℕ) → place i ≡ first + i)
    → first + count ≤ rows
    → ((i j : ℕ) → i < count → j < width → value i j ≡ new (place i) j)
    → Shows rows width f m
    → Shows rows width
        (rows_changed first count new f)
        (for_range count 0 (λ i. for_range width 0 (λ j. put (place i) j (value i j))) m)
rows_loop-Shows rows width count first place value new f m at fits same s =
    loop_invariant (λ i m. Shows rows width (rows_changed first i new f) m) count
      (λ i. for_range width 0 (λ j. put (place i) j (value i j))) m
      (λ i m small before.
        Shows-congruent rows width
          (row_changed width (place i) (new (place i)) (rows_changed first i new f))
          (rows_changed first (i + 1) new f) _
          (row_loop-Shows rows width width (place i) (new (place i)) (λ j m. value i j)
            (rows_changed first i new f) m (omega (arith, at i)) (omega arith)
            (λ j m low there. same i j small low) before)
          (λ r c below inside. ground (arith, at i, ap (λ t. new t c) {x = r} {y = place i})))
      (Shows-congruent rows width f (rows_changed first 0 new f) m s
        (λ r c below inside. ground arith))

-- A new matrix of which every row is written.
pub fill_loop-Shows :
    (rows width : ℕ) (value : ℕ → ℕ → ℕ) (new : ℕ → ℕ → ℕ)
    → ((i j : ℕ) → i < rows → j < width → value i j ≡ new i j)
    → Shows rows width new (
        for_range rows 0
          (λ i. for_range width 0 (λ j. put i j (value i j)))
          (new_matrix rows width))
fill_loop-Shows rows width value new same =
    Shows-congruent rows width (rows_changed 0 rows new (λ r c. 0)) new _
      (rows_loop-Shows rows width rows 0 (λ i. i) value new (λ r c. 0) _ (λ i. omega arith)
        (omega arith) same (new_matrix-Shows rows width))
      (λ r c below inside. ground arith)
