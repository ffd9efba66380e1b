-- ===== src/Ecc/Matrix/Cells.antt =====
-- A matrix in one vector, read as a function of the row and the column.
use backup_shield.Base.{
  ℕ, zero, suc, ◌+◌, ◌*◌, ◌≤◌, ◌<◌, ◌≡◌, ◌≢◌, ◌⊎◌, refl, sym, ap, ◌∙◌, inl, inr, ◌==◌, ◌&&◌, ltb,
  if◌then◌else◌, get_or, get_or-set_self, get_or-set_ne, length, length-set, length-replicate,
  replicate, arith, Bool-cases, eq_or_ne,
}
use backup_shield.Ecc.Matrix.{Matrix, get, put, new_matrix}

-- The matrix has `rows` rows and `width` columns, and the entries that the function gives.
pub record Shows (rows width : ℕ) (f : ℕ → ℕ → ℕ) (m : Matrix) : Type 0 where
  pub as_tall : m.rows ≡ rows
  pub as_wide : m.cols ≡ width
  pub as_long : length m.cells ≡ rows * width
  pub entries : (r c : ℕ) → r < rows → c < width → get m r c ≡ f r c

pub Shows-congruent :
    (rows width : ℕ) (f g : ℕ → ℕ → ℕ) (m : Matrix)
    → Shows rows width f m
    → ((r c : ℕ) → r < rows → c < width → f r c ≡ g r c)
    → Shows rows width g m
Shows-congruent rows width f g m s h = record {
  as_tall = s.as_tall;
  as_wide = s.as_wide;
  as_long = s.as_long;
  entries = λ r c p q. s.entries r c p q ∙ h r c p q;
}

index_in_range : (r c rows width : ℕ) → r < rows → c < width → r * width + c < rows * width
index_in_range r c rows width p q = grind arith

lt_or_ge : (a b : ℕ) → (a < b) ⊎ (b ≤ a)
lt_or_ge a b = elim (Bool-cases (ltb a b)) [
  | inl before ↦ inl (ground (arith, before))
  | inr later ↦ inr (ground (arith, later))
]

-- Two places with one index are the same place.
index_row_le : (r c i j width : ℕ) → c < width → r < i → r * width + c < i * width + j
index_row_le r c i j width p q = grind arith

index_same_row : (r c i j width : ℕ) → c < width → j < width → r * width + c ≡ i * width + j → r ≡ i
index_same_row r c i j width p q e = elim (lt_or_ge r i) [
  | inl before ↦ absurd (omega (arith, e, index_row_le r c i j width p before))
  | inr later ↦ elim (lt_or_ge i r) [
    | inl after ↦ absurd (omega (arith, e, index_row_le i j r c width q after))
    | inr equal ↦ omega (arith, later, equal)
  ]
]

-- The entry of one place is changed.
abbrev pub changed : ℕ → ℕ → ℕ → (ℕ → ℕ → ℕ) → ℕ → ℕ → ℕ
changed row col val f r c = if r == row && c == col then val else f r c

get-put_self :
    (m : Matrix) (rows row col val : ℕ)
    → length m.cells ≡ rows * m.cols
    → row < rows
    → col < m.cols
    → get (put row col val m) row col ≡ val
unfolding get put
get-put_self m rows row col val long p q =
    get_or-set_self m.cells (row * m.cols + col) val 0
      (omega (arith, long, index_in_range row col rows m.cols p q))

get-put_ne :
    (m : Matrix) (row col val r c : ℕ)
    → row * m.cols + col ≢ r * m.cols + c
    → get (put row col val m) r c ≡ get m r c
unfolding get put
get-put_ne m row col val r c other =
    get_or-set_ne m.cells (row * m.cols + col) (r * m.cols + c) val 0 other

get-put :
    (m : Matrix) (rows row col val r c : ℕ)
    → length m.cells ≡ rows * m.cols
    → row < rows
    → col < m.cols
    → c < m.cols
    → get (put row col val m) r c ≡ changed row col val (get m) r c
get-put m rows row col val r c long p q small = elim (eq_or_ne r row) [
  | inl same_row ↦ elim (eq_or_ne c col) [
    | inl same_col ↦
        ap (λ t. get (put row col val m) t c) same_row
        ∙ (ap (get (put row col val m) row) same_col
            ∙ (get-put_self m rows row col val long p q ∙ ground (arith, same_row, same_col)))
    | inr other_col ↦
        get-put_ne m row col val r c
          (λ e. absurd (omega (arith, e, ap (λ (t : ℕ). t * m.cols) same_row, other_col)))
        ∙ ground (arith, other_col)
  ]
  | inr other_row ↦
      get-put_ne m row col val r c
        (λ e. other_row (sym (index_same_row row col r c m.cols q small e)))
      ∙ ground (arith, other_row)
]

pub put-Shows :
    (rows width row col val : ℕ) (f : ℕ → ℕ → ℕ) (m : Matrix)
    → Shows rows width f m
    → row < rows
    → col < width
    → Shows rows width (changed row col val f) (put row col val m)
put-Shows rows width row col val f m s p q = record {
  as_tall = unfold put in s.as_tall;
  as_wide = unfold put in s.as_wide;
  as_long = unfold put in length-set m.cells (row * m.cols + col) val ∙ s.as_long;
  entries = λ r c below small.
      get-put m rows row col val r c (s.as_long ∙ ap (λ (t : ℕ). rows * t) (sym s.as_wide)) p
        (omega (arith, s.as_wide)) (omega (arith, s.as_wide))
      ∙ ap (λ t. if r == row && c == col then val else t) (s.entries r c below small);
}

get_or-replicate : (n i : ℕ) → get_or {A = ℕ} (replicate n 0) i 0 ≡ 0
get_or-replicate zero i = refl
get_or-replicate (suc n) zero = refl
get_or-replicate (suc n) (suc i) = get_or-replicate n i

pub new_matrix-Shows : (rows width : ℕ) → Shows rows width (λ r c. 0) (new_matrix rows width)
unfolding new_matrix get
new_matrix-Shows rows width = record {
  as_tall = refl;
  as_wide = refl;
  as_long = length-replicate (rows * width) 0;
  entries = λ r c p q. get_or-replicate (rows * width) (r * width + c);
}
