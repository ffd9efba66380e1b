-- ===== src/Ecc/Matrix/Rows.antt =====
-- The three row operations of the elimination, on the function that a matrix shows.
use backup_shield.Base.{
  ℕ, ◌+◌, ◌<◌, ◌≡◌, ◌≢◌, sym, ap, ◌∙◌, inl, inr, true, ◌==◌, ◌&&◌, ◌||◌, not, ltb, if◌then◌else◌,
  bit_xor, arith, Bool-cases, eq_or_ne,
}
use backup_shield.Base.Bits.{xor_zero_right}
use backup_shield.Ecc.Field.{new_gf256, gf_mul}
use backup_shield.Ecc.Field.Laws.{mul, mul_zero}
use backup_shield.Ecc.Matrix.{Matrix, get, put, swap_rows, scale_row, eliminate_row}
use backup_shield.Ecc.Matrix.Cells.{Shows, Shows-congruent, put-Shows, changed}
use backup_shield.Ecc.Matrix.Loops.{loop_invariant, row_loop-Shows, row_changed}

-- Two rows are exchanged in the columns before `done`.
abbrev swapped_before : ℕ → ℕ → ℕ → (ℕ → ℕ → ℕ) → ℕ → ℕ → ℕ
swapped_before done a b f r c =
    if ltb c done then (if r == a then f b c else if r == b then f a c else f r c) else f r c

abbrev pub swapped : ℕ → ℕ → (ℕ → ℕ → ℕ) → ℕ → ℕ → ℕ
swapped a b f r c = if r == a then f b c else if r == b then f a c else f r c

module _ (rows width : ℕ) (f : ℕ → ℕ → ℕ) where
  swap_step :
      (a b j : ℕ) (m : Matrix)
      → a < rows
      → b < rows
      → b ≢ a
      → j < width
      → Shows rows width (swapped_before j a b f) m
      → Shows rows width
          (swapped_before (j + 1) a b f)
          (put b j (get m a j) (put a j (get m b j) m))
  swap_step a b j m p q distinct small s =
      Shows-congruent rows width
        (changed b j (get m a j) (changed a j (get m b j) (swapped_before j a b f)))
        (swapped_before (j + 1) a b f) _
        (put-Shows rows width b j (get m a j) _ _
          (put-Shows rows width a j (get m b j) _ m s p small) q small)
        (λ r c below inside. ground (arith, s.entries a j p small, s.entries b j q small))

  pub swap_rows-Shows :
      (a b : ℕ) (m : Matrix)
      → a < rows
      → b < rows
      → Shows rows width f m
      → Shows rows width (swapped a b f) (swap_rows width a b m)
  unfolding swap_rows
  swap_rows-Shows a b m p q s = elim (Bool-cases (b == a)) [
    | inl same ↦ rw same (
        Shows-congruent rows width f (swapped a b f) m s (λ r c below inside.
          ground (arith, same, ap (λ t. f t c) {x = r} {y = b}, ap (λ t. f t c) {x = r} {y = a})))
    | inr distinct ↦ rw distinct (
        Shows-congruent rows width (swapped_before width a b f) (swapped a b f) _
          (loop_invariant (λ j m. Shows rows width (swapped_before j a b f) m) width
            (λ j m. put b j (get m a j) (put a j (get m b j) m)) m
            (λ j m small before. swap_step a b j m p q (ground (arith, distinct)) small before)
            (Shows-congruent rows width f (swapped_before 0 a b f) m s
              (λ r c below inside. ground arith)))
          (λ r c below inside. ground arith))
  ]

  at_own : (new : ℕ → ℕ) (row j : ℕ) → row_changed j row new f row j ≡ f row j
  at_own new row j = ground arith

  not_done : (new : ℕ → ℕ) (row col j : ℕ) → col ≢ row → row_changed j row new f col j ≡ f col j
  not_done new row col j other = ground (arith, other)

  pub scale_row-Shows :
      (col inverse : ℕ) (m : Matrix)
      → col < rows
      → Shows rows width f m
      → Shows rows width
          (row_changed width col (λ j. mul (f col j) inverse) f)
          (scale_row width col inverse m)
  unfolding scale_row
  scale_row-Shows col inverse m p s =
      row_loop-Shows rows width width col (λ j. mul (f col j) inverse)
        (λ j m. gf_mul new_gf256 (get m col j) inverse) f m p (omega arith)
        (λ j m small before.
          ap (λ t. mul t inverse) (before.entries col j p (omega arith) ∙ ground arith))
        s

  -- The row `row`, if it is not the row `col`, plus its multiple of the row `col`.
  abbrev pub cleared : ℕ → ℕ → ℕ → ℕ → ℕ
  cleared row col r c =
      if r == row && not (r == col) then bit_xor (f r c) (mul (f r col) (f col c)) else f r c

  skipped : (col row r c : ℕ) → (row == col || f row col == 0) ≡ true → f r c ≡ cleared row col r c
  skipped col row r c skip = elim (eq_or_ne r row) [
    | inl same ↦ ground (
      arith,
      skip,
      same,
      ap (λ t. f t col) same,
      mul_zero (f r col) (f col c),
      xor_zero_right (f r c),
    )
    | inr other ↦ ground (arith, other)
  ]

  pub eliminate_row-Shows :
      (col row : ℕ) (m : Matrix)
      → col < width
      → col < rows
      → row < rows
      → Shows rows width f m
      → Shows rows width (cleared row col) (eliminate_row width col row m)
  unfolding eliminate_row
  eliminate_row-Shows col row m in_width in_rows p s =
      let factor : get m row col ≡ f row col = s.entries row col p in_width in
      elim (Bool-cases (row == col || get m row col == 0)) [
        | inl skip ↦ rw skip (
            Shows-congruent rows width f (cleared row col) m s (λ r c below inside.
              skipped col row r c (ap (λ t. row == col || t == 0) (sym factor) ∙ skip)))
        | inr work ↦ rw work (
            Shows-congruent rows width
              (row_changed width row (λ j. bit_xor (f row j) (mul (f row col) (f col j))) f)
              (cleared row col) _
              (row_loop-Shows rows width width row
                (λ j. bit_xor (f row j) (mul (f row col) (f col j)))
                (λ j m'. bit_xor (get m' row j) (gf_mul new_gf256 (get m row col) (get m' col j))) f
                m p (omega arith)
                (λ j m' small before. cc (
                  factor,
                  before.entries row j p small,
                  before.entries col j in_rows small,
                  at_own _ row j,
                  not_done _ row col j (λ e. ground (arith, work, e)),
                ))
                s)
              (λ r c below inside. ground (
                arith,
                work,
                ap (λ t. f t c) {x = r} {y = row},
                ap (λ t. f t col) {x = r} {y = row},
              )))
      ]
