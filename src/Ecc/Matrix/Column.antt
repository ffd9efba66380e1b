-- ===== src/Ecc/Matrix/Column.antt =====
-- One column of the elimination, and all of them.
use backup_shield.Base.{
  ℕ, zero, suc, ◌+◌, ◌-◌, ◌*◌, ◌≤◌, ◌<◌, ◌≡◌, refl, sym, ap, ◌∙◌, subst, inl, inr, some, arith,
  Option-cases,
}
use backup_shield.Base.Result.{Result, ok, err, >>=-eq-ok}
use backup_shield.Ecc.Field.{EccError, new_gf256, gf_inv}
use backup_shield.Ecc.Field.Laws.{mul}
use backup_shield.Ecc.Field.Sums.{inverse_byte, inverse_lem}
use backup_shield.Ecc.Matrix.{
  Matrix, singular, for_range, get, find_pivot, swap_rows, scale_row, eliminate_row,
  eliminate_column, eliminate,
}
use backup_shield.Ecc.Matrix.Cells.{Shows, Shows-congruent}
use backup_shield.Ecc.Matrix.Loops.{loop_invariant, row_changed}
use backup_shield.Ecc.Matrix.Rows.{
  swapped, cleared, swap_rows-Shows, scale_row-Shows, eliminate_row-Shows,
}
use backup_shield.Ecc.Matrix.Reduced.{
  Reduced, all_cleared, swapped-Reduced, scaled-Reduced, cleared-Reduced,
}

find_pivot_bounds :
    (rounds row col p : ℕ) (m : Matrix)
    → find_pivot rounds row col m ≡ some p
    → (row ≤ p) × (p < row + rounds)
unfolding find_pivot
find_pivot_bounds zero row col p m e = absurd (cc)
find_pivot_bounds (suc rounds) row col p m e =
    ground (arith, find_pivot_bounds rounds (row + 1) col p m)

module _ (n width : ℕ) where
  clear_rows-Shows :
      (k : ℕ) (f : ℕ → ℕ → ℕ) (m : Matrix)
      → k < n
      → k < width
      → Shows n width f m
      → Shows n width (all_cleared n k f) (for_range n 0 (λ row. eliminate_row width k row) m)
  clear_rows-Shows k f m in_n in_width s =
      loop_invariant (λ i m. Shows n width (all_cleared i k f) m) n
        (λ row. eliminate_row width k row) m
        (λ i m small before.
          Shows-congruent n width (cleared n width (all_cleared i k f) i k)
            (all_cleared (i + 1) k f) _
            (eliminate_row-Shows n width (all_cleared i k f) k i m in_width in_n small before)
            (λ r c below inside. ground arith))
        (Shows-congruent n width f (all_cleared 0 k f) m s (λ r c below inside. ground arith))

at_pivot :
    (n k inverse : ℕ) (f : ℕ → ℕ → ℕ)
    → k < 2 * n
    → row_changed (2 * n) k (λ j. mul (f k j) inverse) f k k ≡ mul (f k k) inverse
at_pivot n k inverse f small = ground (arith, small)

-- What a column whose pivot has an inverse becomes.
scaled_cases :
    (n k : ℕ) (m next : Matrix) (inverted : Result EccError ℕ)
    → elim inverted [
      | err e ↦ err (singular k)
      | ok inverse ↦
          ok (for_range n 0 (λ row. eliminate_row (2 * n) k row) (scale_row (2 * n) k inverse m))
    ]
      ≡ ok next
    → (inverse : ℕ) × (inverted ≡ ok inverse)
      × (for_range n 0 (λ row. eliminate_row (2 * n) k row) (scale_row (2 * n) k inverse m) ≡ next)
scaled_cases n k m next (err e) made = absurd (cc)
scaled_cases n k m next (ok inverse) made = (inverse, refl, cc)

module _ (n : ℕ) (z : ℕ → ℕ) (z_bytes : (j : ℕ) → z j < 256) where
  -- The matrix shows a function that is reduced in the columns before `done`.
  abbrev pub Eliminated : ℕ → Matrix → Type 0
  Eliminated done m = (f : ℕ → ℕ → ℕ) × Shows n (2 * n) f m × Reduced n (2 * n) z done f

  pivot_column :
      (k inverse : ℕ) (f : ℕ → ℕ → ℕ) (m : Matrix)
      → k < n
      → Shows n (2 * n) f m
      → Reduced n (2 * n) z k f
      → gf_inv new_gf256 (get m k k) ≡ ok inverse
      → Eliminated
          (k + 1)
          (for_range n 0 (λ row. eliminate_row (2 * n) k row) (scale_row (2 * n) k inverse m))
  pivot_column k inverse f m in_n s h found =
      let in_width : k < 2 * n = omega arith in
      let scaled = row_changed (2 * n) k (λ j. mul (f k j) inverse) f in
      let pivot = s.entries k k in_n in_width in
      let found_f = ap (gf_inv new_gf256) (sym pivot) ∙ found in
      let byte = h.bytes k k in_n in_width in
      let one : scaled k k ≡ 1 =
        at_pivot n k inverse f in_width ∙ inverse_lem (f k k) inverse byte found_f in
      (
        all_cleared n k scaled,
        clear_rows-Shows n (2 * n) k scaled _ in_n in_width
            (scale_row-Shows n (2 * n) f k inverse m in_n s),
        cleared-Reduced n (2 * n) z z_bytes k scaled in_n in_width one (
            scaled-Reduced n (2 * n) z z_bytes k inverse f in_n in_width
              (inverse_byte (f k k) inverse found_f) h),
      )

  eliminate_column-Eliminated :
      (k : ℕ) (m next : Matrix)
      → k < n
      → eliminate_column n k m ≡ ok next
      → Eliminated k m
      → Eliminated (k + 1) next
  unfolding eliminate_column
  eliminate_column-Eliminated k m next in_n done (f, s, h) =
      elim (Option-cases (find_pivot (n - k) k k m)) [
        | inl none_left ↦ absurd (ground (arith, none_left, done))
        | inr (p, found) ↦
            let (after, before) = find_pivot_bounds (n - k) k k p m found in
            let in_p : p < n = omega (arith, before) in
            let (inverse, inverted, made) =
              scaled_cases n k (swap_rows (2 * n) k p m) next _
                (rw (found, eliminate_column) at done) in
            subst (λ t. Eliminated (k + 1) t) made
              (pivot_column k inverse (swapped k p f) (swap_rows (2 * n) k p m) in_n
                (swap_rows-Shows n (2 * n) f k p m in_n in_p s)
                (swapped-Reduced n (2 * n) z z_bytes k p f in_n in_p after h) inverted)
      ]

  pub eliminate-Eliminated :
      (rounds k : ℕ) (m after : Matrix)
      → k + rounds ≡ n
      → eliminate n rounds k m ≡ ok after
      → Eliminated k m
      → Eliminated n after
  unfolding eliminate
  eliminate-Eliminated zero k m after count done h =
      subst (λ t. Eliminated n t) (cc) (subst (λ t. Eliminated t m) (omega arith) h)
  eliminate-Eliminated (suc rounds) k m after count done h =
      let (next, one, later) = >>=-eq-ok (eliminate_column n k m) _ done in
      eliminate-Eliminated rounds (k + 1) next after (omega arith) later
        (eliminate_column-Eliminated k m next (omega arith) one h)
