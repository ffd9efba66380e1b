-- ===== src/Ecc/Matrix/Reduced.antt =====
-- What the elimination keeps: every row stays an equation between the same unknowns, and the
-- columns that are done are those of the identity.
use backup_shield.Base.{
  ℕ, ◌+◌, ◌≤◌, ◌<◌, ◌≡◌, sym, ap, ◌∙◌, inl, inr, ◌==◌, ◌&&◌, not, ltb, if◌then◌else◌, bit_xor,
  arith, eq_or_ne,
}
use backup_shield.Base.Bits.{xor_zero_right, xor_zero_left, xor_self}
use backup_shield.Ecc.Field.Laws.{mul, mul_zero, mul_zero_right, gf_mul_comm, gf_mul_assoc}
use backup_shield.Ecc.Field.Distributive.{gf_mul_distrib}
use backup_shield.Ecc.Field.Sums.{sum, sum_congruent, sum-xor, sum-mul, mul_byte, mul_one, xor_byte}
use backup_shield.Ecc.Matrix.Loops.{row_changed}
use backup_shield.Ecc.Matrix.Rows.{swapped}

module _ (n width : ℕ) (z : ℕ → ℕ) where
  abbrev pub row_sum : (ℕ → ℕ) → ℕ
  row_sum f = sum width 0 (λ j. mul (f j) (z j))

  pub record Reduced (done : ℕ) (f : ℕ → ℕ → ℕ) : Type 0 where
    pub bytes : (r c : ℕ) → r < n → c < width → f r c < 256
    pub null : (r : ℕ) → r < n → row_sum (f r) ≡ 0
    pub unit : (r c : ℕ) → r < n → c < done → f r c ≡ (if r == c then 1 else 0)

-- Every row but `k` plus its multiple of the row `k`, in which the entry of the column is 1.
abbrev pub all_cleared : ℕ → ℕ → (ℕ → ℕ → ℕ) → ℕ → ℕ → ℕ
all_cleared done k f r c =
    if ltb r done && not (r == k) then bit_xor (f r c) (mul (f r k) (f k c)) else f r c

module _ (n width : ℕ) (z : ℕ → ℕ) (z_bytes : (j : ℕ) → z j < 256) where
  -- A row is replaced by another one of the same equation.
  sum_row_congruent :
      (f g : ℕ → ℕ) → ((j : ℕ) → j < width → f j ≡ g j) → row_sum n width z f ≡ row_sum n width z g
  sum_row_congruent f g h =
      sum_congruent width 0 (λ j. mul (f j) (z j)) (λ j. mul (g j) (z j))
        (λ j low high. ap (λ t. mul t (z j)) (h j (omega arith)))

  row_sum-scale :
      (f : ℕ → ℕ) (a : ℕ)
      → a < 256
      → row_sum n width z (λ j. mul (f j) a) ≡ mul a (row_sum n width z f)
  row_sum-scale f a byte =
      sum_congruent width 0 (λ j. mul (mul (f j) a) (z j)) (λ j. mul a (mul (f j) (z j)))
        (λ j low high. ap (λ t. mul t (z j)) (gf_mul_comm (f j) a) ∙ gf_mul_assoc a (f j) (z j))
      ∙ sum-mul width 0 a (λ j. mul (f j) (z j)) byte (λ j. mul_byte (f j) (z j))

  row_sum-xor :
      (f g : ℕ → ℕ)
      → ((j : ℕ) → j < width → f j < 256)
      → ((j : ℕ) → j < width → g j < 256)
      → row_sum n width z (λ j. bit_xor (f j) (g j))
        ≡ bit_xor (row_sum n width z f) (row_sum n width z g)
  row_sum-xor f g p q =
      sum_congruent width 0 (λ j. mul (bit_xor (f j) (g j)) (z j))
        (λ j. bit_xor (mul (f j) (z j)) (mul (g j) (z j)))
        (λ j low high.
          (gf_mul_distrib (z j) (f j) (g j) (z_bytes j) (p j (omega arith)) (q j (omega arith))).1)
      ∙ sum-xor width 0 (λ j. mul (f j) (z j)) (λ j. mul (g j) (z j))

  swapped_null :
      (k p r : ℕ) (f : ℕ → ℕ → ℕ)
      → row_sum n width z (f k) ≡ 0
      → row_sum n width z (f p) ≡ 0
      → row_sum n width z (f r) ≡ 0
      → row_sum n width z (swapped k p f r) ≡ 0
  swapped_null k p r f at_k at_p at_r = elim (eq_or_ne r k) [
    | inl same ↦ sum_row_congruent (swapped k p f r) (f p) (λ j low. ground (arith, same)) ∙ at_p
    | inr other ↦ elim (eq_or_ne r p) [
      | inl same ↦
          sum_row_congruent (swapped k p f r) (f k) (λ j low. ground (arith, same, other)) ∙ at_k
      | inr third ↦
          sum_row_congruent (swapped k p f r) (f r) (λ j low. ground (arith, third, other)) ∙ at_r
    ]
  ]

  scaled_null :
      (k a r : ℕ) (f : ℕ → ℕ → ℕ)
      → a < 256
      → row_sum n width z (f k) ≡ 0
      → row_sum n width z (f r) ≡ 0
      → row_sum n width z (row_changed width k (λ j. mul (f k j) a) f r) ≡ 0
  scaled_null k a r f byte at_k at_r = elim (eq_or_ne r k) [
    | inl same ↦
        sum_row_congruent (row_changed width k (λ j. mul (f k j) a) f r) (λ j. mul (f k j) a)
          (λ j low. ground (arith, same))
        ∙ (row_sum-scale (f k) a byte ∙ mul_zero_right a (row_sum n width z (f k)) at_k)
    | inr other ↦
        sum_row_congruent (row_changed width k (λ j. mul (f k j) a) f r) (f r)
          (λ j low. ground (arith, other))
        ∙ at_r
  ]

  row_sum-add :
      (f g : ℕ → ℕ) (a : ℕ)
      → a < 256
      → ((j : ℕ) → j < width → f j < 256)
      → row_sum n width z f ≡ 0
      → row_sum n width z g ≡ 0
      → row_sum n width z (λ j. bit_xor (f j) (mul a (g j))) ≡ 0
  row_sum-add f g a byte bytes at_f at_g =
      row_sum-xor f (λ j. mul a (g j)) bytes (λ j low. mul_byte a (g j))
      ∙ (ap (λ t. bit_xor t (row_sum n width z (λ j. mul a (g j)))) at_f
          ∙ (xor_zero_left (row_sum n width z (λ j. mul a (g j)))
              ∙ (sum_row_congruent (λ j. mul a (g j)) (λ j. mul (g j) a)
                    (λ j low. gf_mul_comm a (g j))
                  ∙ (row_sum-scale g a byte ∙ mul_zero_right a (row_sum n width z g) at_g))))

  pub swapped-Reduced :
      (k p : ℕ) (f : ℕ → ℕ → ℕ)
      → k < n
      → p < n
      → k ≤ p
      → Reduced n width z k f
      → Reduced n width z k (swapped k p f)
  swapped-Reduced k p f in_k in_p after h = record {
    bytes = λ r c below small.
        ground (arith, h.bytes r c below small, h.bytes k c in_k small, h.bytes p c in_p small);
    null = λ r below. swapped_null k p r f (h.null k in_k) (h.null p in_p) (h.null r below);
    unit = λ r c below done.
        ground (arith, h.unit r c below done, h.unit k c in_k done, h.unit p c in_p done);
  }

  -- The row `k` times a byte.
  pub scaled-Reduced :
      (k a : ℕ) (f : ℕ → ℕ → ℕ)
      → k < n
      → k < width
      → a < 256
      → Reduced n width z k f
      → Reduced n width z k (row_changed width k (λ j. mul (f k j) a) f)
  scaled-Reduced k a f in_k in_width byte h = record {
    bytes = λ r c below small. ground (arith, h.bytes r c below small, mul_byte (f k c) a);
    null = λ r below. scaled_null k a r f byte (h.null k in_k) (h.null r below);
    unit = λ r c below done.
        ground (arith, h.unit r c below done, h.unit k c in_k done, mul_zero (f k c) a);
  }

  cleared_null :
      (k r : ℕ) (f : ℕ → ℕ → ℕ)
      → Reduced n width z k f
      → k < n
      → k < width
      → r < n
      → row_sum n width z (all_cleared n k f r) ≡ 0
  cleared_null k r f h in_k in_width below = elim (eq_or_ne r k) [
    | inl same ↦
        sum_row_congruent (all_cleared n k f r) (f r) (λ j low. ground (arith, same))
        ∙ h.null r below
    | inr other ↦
        sum_row_congruent (all_cleared n k f r) (λ j. bit_xor (f r j) (mul (f r k) (f k j)))
          (λ j low. ground (arith, other, below))
        ∙ row_sum-add (f r) (f k) (f r k) (h.bytes r k below in_width)
            (λ j low. h.bytes r j below low) (h.null r below) (h.null k in_k)
  ]

  cleared_pivot :
      (k r : ℕ) (f : ℕ → ℕ → ℕ)
      → Reduced n width z k f
      → k < n
      → k < width
      → f k k ≡ 1
      → r < n
      → all_cleared n k f r k ≡ (if r == k then 1 else 0)
  cleared_pivot k r f h in_k in_width one below = ground (
    arith,
    ap (λ t. f t k) {x = r} {y = k},
    ap (mul (f r k)) one,
    mul_one (f r k) (h.bytes r k below in_width),
    xor_self (f r k),
  )

  cleared_unit :
      (k r c : ℕ) (f : ℕ → ℕ → ℕ)
      → Reduced n width z k f
      → k < n
      → k < width
      → f k k ≡ 1
      → r < n
      → c < k + 1
      → all_cleared n k f r c ≡ (if r == c then 1 else 0)
  cleared_unit k r c f h in_k in_width one below done = elim (eq_or_ne c k) [
    | inl same ↦
        ap (all_cleared n k f r) same
        ∙ (cleared_pivot k r f h in_k in_width one below
            ∙ ap (λ t. if r == t then 1 else 0) (sym same))
    | inr other ↦ ground (
      arith,
      h.unit r c below (omega (arith, other)),
      h.unit k c in_k (omega (arith, other)),
      mul_zero_right (f r k) (f k c),
      xor_zero_right (f r c),
    )
  ]

  pub cleared-Reduced :
      (k : ℕ) (f : ℕ → ℕ → ℕ)
      → k < n
      → k < width
      → f k k ≡ 1
      → Reduced n width z k f
      → Reduced n width z (k + 1) (all_cleared n k f)
  cleared-Reduced k f in_k in_width one h = record {
    bytes = λ r c below small. ground (
      arith,
      h.bytes r c below small,
      xor_byte (f r c) (mul (f r k) (f k c)) (h.bytes r c below small) (mul_byte (f r k) (f k c)),
    );
    null = λ r below. cleared_null k r f h in_k in_width below;
    unit = λ r c below done. cleared_unit k r c f h in_k in_width one below done;
  }
