-- ===== src/Ecc/Matrix/Product.antt =====
-- `Matrix::multiply` by what `Matrix::invert` returns.
use backup_shield.Base.{
  ℕ, zero, suc, ◌+◌, ◌<◌, ◌≡◌, refl, sym, ap, ◌∙◌, true, some, ◌==◌, ltb, if◌then◌else◌, bit_xor,
  arith,
}
use backup_shield.Base.Bits.{xor_assoc, xor_zero_right, xor_zero_left}
use backup_shield.Base.Result.{ok}
use backup_shield.Ecc.Field.{new_gf256, gf_mul}
use backup_shield.Ecc.Field.Laws.{mul, mul_zero_right}
use backup_shield.Ecc.Field.Sums.{sum, sum_congruent, sum_of_one, mul_byte, mul_one, xor_byte}
use backup_shield.Ecc.Matrix.{Matrix, for_range, new_matrix, get, put, multiply, invert}
use backup_shield.Ecc.Matrix.Cells.{Shows}
use backup_shield.Ecc.Matrix.Loops.{fill_loop-Shows}
use backup_shield.Ecc.Matrix.Inverse.{invert_solves, invert-Shows}

-- The innermost loop of `multiply`.
accumulate-sum :
    (rounds from acc : ℕ) (term : ℕ → ℕ)
    → acc < 256
    → ((k : ℕ) → term k < 256)
    → for_range rounds from (λ k total. bit_xor (gf_mul new_gf256 total 1) (term k)) acc
      ≡ bit_xor acc (sum rounds from term)
unfolding for_range sum
accumulate-sum zero from acc term byte bytes = sym (xor_zero_right acc)
accumulate-sum (suc rounds) from acc term byte bytes =
    ap
      (λ t.
        for_range rounds (from + 1) (λ k total. bit_xor (mul total 1) (term k))
          (bit_xor t (term from)))
      (mul_one acc byte)
    ∙ (accumulate-sum rounds (from + 1) (bit_xor acc (term from)) term
          (xor_byte acc (term from) byte (bytes from)) bytes
        ∙ xor_assoc acc (term from) (sum rounds (from + 1) term))

-- The entries of a product.
abbrev pub dot : ℕ → Matrix → Matrix → ℕ → ℕ → ℕ
dot n a b r c = sum n 0 (λ k. mul (get a r k) (get b k c))

entry : ℕ → Matrix → Matrix → ℕ → ℕ → ℕ
entry inner a b i j =
    for_range inner 0
      (λ k total. bit_xor (gf_mul new_gf256 total 1) (gf_mul new_gf256 (get a i k) (get b k j))) 0

-- The loops of `multiply`, with the three bounds as arguments.
product : ℕ → ℕ → ℕ → Matrix → Matrix → Matrix
product rows inner cols a b =
    for_range rows 0 (λ i. for_range cols 0 (λ j. put i j (entry inner a b i j)))
      (new_matrix rows cols)

entry-dot : (n : ℕ) (a b : Matrix) (i j : ℕ) → entry n a b i j ≡ dot n a b i j
unfolding entry
entry-dot n a b i j =
    accumulate-sum n 0 0 (λ k. mul (get a i k) (get b k j)) (omega arith)
      (λ k. mul_byte (get a i k) (get b k j))
    ∙ xor_zero_left (dot n a b i j)

product-Shows : (n : ℕ) (a b : Matrix) → Shows n n (dot n a b) (product n n n a b)
unfolding product
product-Shows n a b =
    fill_loop-Shows n n (entry n a b) (dot n a b) (λ i j small low. entry-dot n a b i j)

multiply-eq-product :
    (n : ℕ) (a b : Matrix)
    → a.rows ≡ n
    → a.cols ≡ n
    → b.rows ≡ n
    → b.cols ≡ n
    → multiply a b ≡ some (product n n n a b)
unfolding multiply product entry
multiply-eq-product n a b a_tall a_wide b_tall b_wide =
    let fits : (a.cols == b.rows) ≡ true = ground arith in
    rw fits refl
    ∙ (ap (λ t. some (product t a.cols b.cols a b)) a_tall
        ∙ (ap (λ t. some (product n t b.cols a b)) a_wide
            ∙ ap (λ t. some (product n n t a b)) b_wide))

unit_vector : ℕ → ℕ → ℕ
unit_vector c j = if j == c then 1 else 0

dot_unit :
    (n : ℕ) (f : ℕ → ℕ) (c : ℕ)
    → c < n
    → f c < 256
    → sum n 0 (λ j. mul (f j) (unit_vector c j)) ≡ f c
unfolding unit_vector
dot_unit n f c small byte =
    sum_of_one n 0 c (λ j. mul (f j) (unit_vector c j)) (omega arith) (omega arith)
      (λ j low high other. mul_zero_right (f j) (unit_vector c j) (ground (arith, other)))
    ∙ (ap (mul (f c)) {x = unit_vector c c} {y = 1} (ground arith) ∙ mul_one (f c) byte)

unit_vector_lem : (c j : ℕ) → unit_vector c j ≡ (if j == c then 1 else 0)
unfolding unit_vector
unit_vector_lem c j = refl

unit_vector_bytes : (c j : ℕ) → unit_vector c j < 256
unfolding unit_vector
unit_vector_bytes c j = ground arith

column_bytes :
    (m : Matrix) (j c : ℕ)
    → ((r c : ℕ) → r < m.rows → c < m.rows → get m r c < 256)
    → c < m.rows
    → (if ltb j m.rows then get m j c else 0) < 256
column_bytes m j c bytes inside = ground (arith, bytes j c)

-- Where `invert` of a matrix of bytes returns a matrix, `multiply` of it by the given one returns
-- the identity.
pub invert-multiply :
    (m inv : Matrix)
    → ((r c : ℕ) → r < m.rows → c < m.rows → get m r c < 256)
    → invert m ≡ ok inv
    → (p : Matrix) × (multiply inv m ≡ some p)
      × (p.rows ≡ m.rows)
      × (p.cols ≡ m.rows)
      × ((r c : ℕ) → r < m.rows → c < m.rows → get p r c ≡ (if r == c then 1 else 0))
invert-multiply m inv bytes done =
    let (wide, inv_shape) = invert-Shows m.rows m inv refl done in
    let shape = product-Shows m.rows inv m in
    (
      product m.rows m.rows m.rows inv m,
      multiply-eq-product m.rows inv m inv_shape.as_tall inv_shape.as_wide refl wide,
      shape.as_tall,
      shape.as_wide,
      λ r c below inside. shape.entries r c below inside ∙ solved r c below inside,
    )
  where
    column : ℕ → ℕ → ℕ
    column c j = if ltb j m.rows then get m j c else 0

    solved : (r c : ℕ) → r < m.rows → c < m.rows → dot m.rows inv m r c ≡ (if r == c then 1 else 0)
    solved r c below inside =
        sum_congruent m.rows 0 (λ k. mul (get inv r k) (get m k c))
          (λ k. mul (get inv r k) (column c k))
          (λ k low high. ap (mul (get inv r k)) (ground arith))
        ∙ (invert_solves m.rows m inv (unit_vector c) (column c) refl bytes (unit_vector_bytes c)
              (λ j. column_bytes m j c bytes inside)
              (λ i small.
                dot_unit m.rows (get m i) c inside (bytes i c small inside) ∙ ground (arith, small))
              done r below
            ∙ unit_vector_lem c r)
