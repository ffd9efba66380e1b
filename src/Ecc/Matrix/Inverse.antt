-- ===== src/Ecc/Matrix/Inverse.antt =====
-- `Matrix::invert`: what it returns solves the equations of the matrix.
use backup_shield.Base.{
  ℕ, ◌+◌, ◌-◌, ◌*◌, ◌<◌, ◌≡◌, ◌≢◌, refl, sym, ap, ◌∙◌, subst, inl, inr, ◌==◌, ltb, if◌then◌else◌,
  bit_xor, arith, Bool-cases,
}
use backup_shield.Base.Bits.{xor_self, xor_cancel, xor_zero_right}
use backup_shield.Base.Result.{ok, >>=-eq-ok}
use backup_shield.Ecc.Field.Laws.{mul, mul_zero}
use backup_shield.Ecc.Field.Sums.{sum, sum_congruent, sum-add, sum_of_one, sum_shift, one_mul}
use backup_shield.Ecc.Matrix.{
  Matrix, for_range, new_matrix, get, put, augment, eliminate, right_half, invert,
}
use backup_shield.Ecc.Matrix.Cells.{Shows, Shows-congruent, new_matrix-Shows, put-Shows, changed}
use backup_shield.Ecc.Matrix.Loops.{fill_loop-Shows, loop_invariant, row_loop-Shows, row_changed}
use backup_shield.Ecc.Matrix.Reduced.{Reduced, row_sum}
use backup_shield.Ecc.Matrix.Column.{eliminate-Eliminated}

-- The rows before `done` of a matrix with the identity at its right.
abbrev augmented : ℕ → ℕ → (ℕ → ℕ → ℕ) → ℕ → ℕ → ℕ
augmented n done f r c =
    if ltb r done then (if ltb c n then f r c else if c == n + r then 1 else 0) else 0

augment-Shows : (n : ℕ) (m : Matrix) → Shows n (2 * n) (augmented n n (get m)) (augment m n)
unfolding augment
augment-Shows n m =
    loop_invariant (λ i aug. Shows n (2 * n) (augmented n i (get m)) aug) n
      (λ i aug. put i (n + i) 1 (for_range n 0 (λ j. put i j (get m i j)) aug))
      (new_matrix n (2 * n))
      (λ i aug small before.
        Shows-congruent n (2 * n)
          (changed i (n + i) 1 (row_changed n i (get m i) (augmented n i (get m))))
          (augmented n (i + 1) (get m)) _
          (put-Shows n (2 * n) i (n + i) 1 _ _
            (row_loop-Shows n (2 * n) n i (get m i) (λ j aug. get m i j) (augmented n i (get m)) aug
              small (omega arith) (λ j aug low at. refl) before)
            small (omega arith))
          (λ r c below inside. ground (arith, ap (λ t. get m t c) {x = r} {y = i})))
      (Shows-congruent n (2 * n) (λ r c. 0) (augmented n 0 (get m)) _ (new_matrix-Shows n (2 * n))
        (λ r c below inside. ground arith))

right_half-Shows : (n : ℕ) (aug : Matrix) → Shows n n (λ r c. get aug r (n + c)) (right_half n aug)
unfolding right_half
right_half-Shows n aug =
    fill_loop-Shows n n (λ i j. get aug i (n + j)) (λ r c. get aug r (n + c))
      (λ i j small low. refl)

xor_zero : (a b : ℕ) → bit_xor a b ≡ 0 → b ≡ a
xor_zero a b e = sym (xor_cancel a b) ∙ (ap (bit_xor a) e ∙ xor_zero_right a)

off_diagonal : (d j : ℕ) → j ≢ d → ◌≡◌ {A = ℕ} (if d == j then 1 else 0) 0
off_diagonal d j other = ground (arith, other)

pub invert_cases :
    (n : ℕ) (m inv : Matrix)
    → m.rows ≡ n
    → invert m ≡ ok inv
    → (aug : Matrix) × (eliminate n n 0 (augment m n) ≡ ok aug)
      × (right_half n aug ≡ inv)
      × (m.cols ≡ n)
unfolding invert
invert_cases n m inv rows done = elim (Bool-cases (m.rows == m.cols)) [
  | inl square ↦
      let (aug, eliminated, made) =
        >>=-eq-ok (eliminate m.rows m.rows 0 (augment m m.rows)) _ (rw (square, invert) at done) in
      subst
        (λ k.
          (aug : Matrix) × (eliminate k k 0 (augment m k) ≡ ok aug)
          × (right_half k aug ≡ inv)
          × (m.cols ≡ k))
        rows (aug, eliminated, cc, ground (arith, square))
  | inr other ↦ absurd (ground (arith, other, done))
]

-- x, then y
abbrev joined : ℕ → (ℕ → ℕ) → (ℕ → ℕ) → ℕ → ℕ
joined n x y j = if ltb j n then x j else y (j - n)

module _ (n : ℕ) (x y : ℕ → ℕ) (x_bytes : (j : ℕ) → x j < 256) (y_bytes : (j : ℕ) → y j < 256) where
  joined_bytes : (j : ℕ) → joined n x y j < 256
  joined_bytes j = ground (arith, x_bytes j, y_bytes (j - n))

  -- The sum of a row is that of its left half and that of its right half.
  halves :
      (f : ℕ → ℕ)
      → row_sum n (2 * n) (joined n x y) f
        ≡ bit_xor (sum n 0 (λ j. mul (f j) (x j))) (sum n 0 (λ j. mul (f (n + j)) (y j)))
  halves f =
      ap (λ k. sum k 0 term) {x = 2 * n} {y = n + n} (omega arith)
      ∙ (sum-add n n 0 term
          ∙ (ap (λ t. bit_xor t (sum n (0 + n) term))
                (sum_congruent n 0 term (λ j. mul (f j) (x j))
                  (λ j low high. ap (mul (f j)) (ground arith)))
              ∙ ap (bit_xor (sum n 0 (λ j. mul (f j) (x j)))) (
                  sum_shift n 0 n term
                  ∙ sum_congruent n 0 (λ j. term (n + j)) (λ j. mul (f (n + j)) (y j))
                      (λ j low high. ap (mul (f (n + j))) (right j)))))
    where
      term : ℕ → ℕ
      term j = mul (f j) (joined n x y j)

      right : (j : ℕ) → joined n x y (n + j) ≡ y j
      right j = ground (arith, ap y {x = n + j - n} {y = j} (omega arith))

  augmented_null :
      (f : ℕ → ℕ → ℕ) (r : ℕ)
      → r < n
      → sum n 0 (λ j. mul (f r j) (x j)) ≡ y r
      → row_sum n (2 * n) (joined n x y) (augmented n n f r) ≡ 0
  augmented_null f r below solved =
      halves (augmented n n f r)
      ∙ (ap (λ t. bit_xor t (sum n 0 (λ j. mul (augmented n n f r (n + j)) (y j))))
            (sum_congruent n 0 (λ j. mul (augmented n n f r j) (x j)) (λ j. mul (f r j) (x j))
                (λ j low high. ap (λ t. mul t (x j)) (ground (arith, below)))
              ∙ solved)
          ∙ (ap (bit_xor (y r)) (
                sum_of_one n 0 r (λ j. mul (augmented n n f r (n + j)) (y j)) (omega arith)
                  (omega arith) (λ j low high other. mul_zero _ (y j) (ground (arith, other)))
                ∙ (ap (λ t. mul t (y r)) {x = augmented n n f r (n + r)} {y = 1} (ground arith)
                    ∙ one_mul (y r) (y_bytes r)))
              ∙ xor_self (y r)))

  solution :
      (f : ℕ → ℕ → ℕ) (d : ℕ)
      → d < n
      → Reduced n (2 * n) (joined n x y) n f
      → sum n 0 (λ j. mul (f d (n + j)) (y j)) ≡ x d
  solution f d below h = xor_zero (x d) _ (
      ap (λ t. bit_xor t (sum n 0 (λ j. mul (f d (n + j)) (y j)))) (sym left)
      ∙ (sym (halves (f d)) ∙ h.null d below))
    where
      left : sum n 0 (λ j. mul (f d j) (x j)) ≡ x d
      left =
          sum_of_one n 0 d (λ j. mul (f d j) (x j)) (omega arith) (omega arith)
            (λ j low high other.
              mul_zero _ (x j) (h.unit d j below (omega arith) ∙ off_diagonal d j other))
          ∙ (ap (λ t. mul t (x d)) (h.unit d d below below ∙ ground arith)
              ∙ one_mul (x d) (x_bytes d))

augmented_bytes :
    (n : ℕ) (m : Matrix) (r c : ℕ)
    → ((r c : ℕ) → r < n → c < n → get m r c < 256)
    → r < n
    → augmented n n (get m) r c < 256
augmented_bytes n m r c bytes below = ground (arith, bytes r c)

-- The matrix that `invert` returns takes y to x if the matrix takes x to y.
pub invert_solves :
    (n : ℕ) (m inv : Matrix) (x y : ℕ → ℕ)
    → m.rows ≡ n
    → ((r c : ℕ) → r < n → c < n → get m r c < 256)
    → ((j : ℕ) → x j < 256)
    → ((j : ℕ) → y j < 256)
    → ((r : ℕ) → r < n → sum n 0 (λ j. mul (get m r j) (x j)) ≡ y r)
    → invert m ≡ ok inv
    → (d : ℕ) → d < n
    → sum n 0 (λ j. mul (get inv d j) (y j)) ≡ x d
invert_solves n m inv x y rows bytes x_bytes y_bytes solved done d below =
    let (aug, eliminated, made, square) = invert_cases n m inv rows done in
    let (f, s, h) =
      eliminate-Eliminated n (joined n x y) (joined_bytes n x y x_bytes y_bytes) n 0 (augment m n)
        aug (omega arith) eliminated (augmented n n (get m), augment-Shows n m, start) in
    sum_congruent n 0 (λ j. mul (get inv d j) (y j)) (λ j. mul (f d (n + j)) (y j))
      (λ j low high.
        ap (λ t. mul t (y j))
          (ap (λ t. get t d j) (sym made)
            ∙ ((right_half-Shows n aug).entries d j below (omega arith)
                ∙ s.entries d (n + j) below (omega arith))))
    ∙ solution n x y x_bytes y_bytes f d below h
  where
    start : Reduced n (2 * n) (joined n x y) 0 (augmented n n (get m))
    start = record {
      bytes = λ r c p q. augmented_bytes n m r c bytes p;
      null = λ r p. augmented_null n x y x_bytes y_bytes (get m) r p (solved r p);
      unit = λ r c p q. absurd (omega arith);
    }

pub invert-Shows :
    (n : ℕ) (m inv : Matrix)
    → m.rows ≡ n
    → invert m ≡ ok inv
    → (m.cols ≡ n) × Shows n n (get inv) inv
invert-Shows n m inv rows done =
    let (aug, eliminated, made, square) = invert_cases n m inv rows done in
    (
      square,
      subst (λ t. Shows n n (get t) t) made
          (Shows-congruent n n _ (get (right_half n aug)) _ (right_half-Shows n aug)
            (λ r c p q. sym ((right_half-Shows n aug).entries r c p q))),
    )
