-- ===== src/Ecc/Matrix.antt =====
-- `Matrix`: matrices over GF(256), row after row in one vector.
pub mod Cells
pub mod Loops
pub mod Rows
pub mod Reduced
pub mod Column
pub mod Inverse
pub mod Product
pub mod Encoding
use backup_shield.Base.{
  ℕ, zero, suc, ◌+◌, ◌-◌, ◌*◌, ◌%◌, bit_xor, Option, none, some, ◌==◌, ◌||◌, if◌then◌else◌, get_or,
  set, replicate, Bytes,
}
use backup_shield.Base.Result.{Result, ok, err, ◌>>=◌}
use backup_shield.Ecc.Field.{new_gf256, gf_mul, gf_inv}

-- `for i in from..from + rounds`
unfoldable pub for_range {ℓ} : {A : Type ℓ} → ℕ → ℕ → (ℕ → A → A) → A → A
for_range zero from body a = a
for_range (suc rounds) from body a = for_range rounds (from + 1) body (body from a)

-- The field of the matrix is always that of `Gf256::new`.
pub record Matrix : Type 0 where
  pub rows : ℕ
  pub cols : ℕ
  pub cells : Bytes

unfoldable pub new_matrix : ℕ → ℕ → Matrix
new_matrix rows cols = record { rows = rows; cols = cols; cells = replicate (rows * cols) 0 }

unfoldable pub get : Matrix → ℕ → ℕ → ℕ
get m row col = get_or m.cells (row * m.cols + col) 0

unfoldable pub put : ℕ → ℕ → ℕ → Matrix → Matrix
put row col val m = record m { cells = set m.cells (row * m.cols + col) val }

-- Where the dimensions do not fit, `multiply` panics.
unfoldable pub multiply : Matrix → Matrix → Option Matrix
multiply m other =
    if m.cols == other.rows
    then some (
        for_range m.rows 0
          (λ i. for_range other.cols 0 λ j. put i j (
            for_range m.cols 0
              (λ k sum.
                bit_xor (gf_mul new_gf256 sum 1) (gf_mul new_gf256 (get m i k) (get other k j)))
              0))
          (new_matrix m.rows other.cols))
    else none

pub data InvertError : Type 0 where
  non_square : InvertError
  singular : ℕ → InvertError

-- [self | I]
unfoldable pub augment : Matrix → ℕ → Matrix
augment m n =
    for_range n 0 (λ i aug. put i (n + i) 1 (for_range n 0 (λ j. put i j (get m i j)) aug))
      (new_matrix n (2 * n))

-- The first row from `row` on whose entry in the column is not 0.
unfoldable pub find_pivot : ℕ → ℕ → ℕ → Matrix → Option ℕ
find_pivot zero row col aug = none
find_pivot (suc rounds) row col aug =
    let later = find_pivot rounds (row + 1) col aug in
    if get aug row col == 0 then later else some row

unfoldable pub swap_rows : ℕ → ℕ → ℕ → Matrix → Matrix
swap_rows width col pivot_row aug =
    if pivot_row == col
    then aug
    else for_range width 0
        (λ j m. let tmp = get m col j in put pivot_row j tmp (put col j (get m pivot_row j) m)) aug

unfoldable pub scale_row : ℕ → ℕ → ℕ → Matrix → Matrix
scale_row width col pivot_inv =
    for_range width 0 λ j m. put col j (gf_mul new_gf256 (get m col j) pivot_inv) m

unfoldable pub eliminate_row : ℕ → ℕ → ℕ → Matrix → Matrix
eliminate_row width col row aug =
    let factor = get aug row col in
    if row == col || factor == 0
    then aug
    else for_range width 0
        (λ j m. put row j (bit_xor (get m row j) (gf_mul new_gf256 factor (get m col j))) m) aug

-- One column of the elimination.
unfoldable pub eliminate_column : ℕ → ℕ → Matrix → Result InvertError Matrix
eliminate_column n col aug = elim (find_pivot (n - col) col col aug) [
  | none ↦ err (singular col)
  | some pivot_row ↦
      let swapped = swap_rows (2 * n) col pivot_row aug in
      elim (gf_inv new_gf256 (get swapped col col)) [
        | err e ↦ err (singular col)
        | ok pivot_inv ↦ ok (
            for_range n 0 (λ row. eliminate_row (2 * n) col row)
              (scale_row (2 * n) col pivot_inv swapped))
      ]
]

unfoldable pub eliminate : ℕ → ℕ → ℕ → Matrix → Result InvertError Matrix
eliminate n zero col aug = ok aug
eliminate n (suc rounds) col aug =
    eliminate_column n col aug >>= λ next. eliminate n rounds (col + 1) next

unfoldable pub right_half : ℕ → Matrix → Matrix
right_half n aug =
    for_range n 0 (λ i. for_range n 0 (λ j. put i j (get aug i (n + j)))) (new_matrix n n)

unfoldable pub invert : Matrix → Result InvertError Matrix
invert m =
    if m.rows == m.cols
    then (eliminate m.rows m.rows 0 (augment m m.rows) >>= λ aug. ok (right_half m.rows aug))
    else err non_square

-- `vandermonde`: the entry at (i, j) is a power of 2.
unfoldable pub vandermonde : ℕ → ℕ → Matrix
vandermonde rows cols =
    for_range rows 0
      (λ i.
        for_range cols 0 λ j.
          put i j (if i == 0 || j == 0 then 1 else get_or new_gf256.exp_table ((i * j) % 255) 0))
      (new_matrix rows cols)

-- `build_encoding_matrix`: the identity over rows of `vandermonde`.
unfoldable pub build_encoding_matrix : ℕ → ℕ → Matrix
build_encoding_matrix data_shards parity_shards =
    let total = data_shards + parity_shards in
    let vand = vandermonde total data_shards in
    let top =
      for_range data_shards 0 (λ i. for_range data_shards 0 λ j. put i j (if i == j then 1 else 0))
        (new_matrix total data_shards) in
    for_range parity_shards 0
      (λ i. for_range data_shards 0 λ j. put (data_shards + i) j (get vand (data_shards + i) j)) top
