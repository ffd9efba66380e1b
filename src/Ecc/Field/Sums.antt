-- ===== src/Ecc/Field/Sums.antt =====
-- Sums over GF(256): the exclusive or of the products that the matrix code adds up.
use backup_shield.Base.{
  ℕ, zero, suc, ◌+◌, ◌-◌, ◌≤◌, ◌<◌, ◌≡◌, ◌≢◌, refl, sym, ap, ◌∙◌, inl, inr, bit_xor, arith,
  eq_or_ne,
}
use backup_shield.Base.Bits.{
  xor-lt-pow, xor_swap_inner, xor_zero_left, xor_zero_right, xor_assoc, xor_self,
}
use backup_shield.Base.Result.{ok}
use backup_shield.Ecc.Field.{new_gf256, gf_inv}
use backup_shield.Ecc.Field.Tables.{power, log, power-log, log-power, log_one, power_255}
use backup_shield.Ecc.Field.Laws.{
  mul, mul-power, mul_pos, mul_zero, mul_zero_right, zero_or_pos, gf_mul_comm, gf_inv-gf_mul,
}
use backup_shield.Ecc.Field.Distributive.{gf_mul_distrib}

pub mul_byte : (a b : ℕ) → mul a b < 256
mul_byte a b = elim (zero_or_pos a) [
  | inl e ↦ omega (arith, mul_zero a b e)
  | inr p ↦ elim (zero_or_pos b) [
    | inl e ↦ omega (arith, mul_zero_right a b e)
    | inr q ↦ (mul_pos a b p q).1
  ]
]

pub mul_one : (a : ℕ) → a < 256 → mul a 1 ≡ a
mul_one a byte = elim (zero_or_pos a) [
  | inl e ↦ mul_zero a 1 e ∙ sym e
  | inr p ↦
      let (back, small) = power-log a p byte in
      mul-power a 1 p (omega arith) ∙ (ap power (omega (arith, log_one, small)) ∙ back)
]

pub one_mul : (a : ℕ) → a < 256 → mul 1 a ≡ a
one_mul a byte = gf_mul_comm 1 a ∙ mul_one a byte

pub xor_byte : (a b : ℕ) → a < 256 → b < 256 → bit_xor a b < 256
xor_byte a b p q = xor-lt-pow 8 a b p q

-- f from + f (from + 1) + …, of `rounds` terms
unfoldable pub sum : ℕ → ℕ → (ℕ → ℕ) → ℕ
sum zero from f = 0
sum (suc rounds) from f = bit_xor (f from) (sum rounds (from + 1) f)

pub sum_congruent :
    (rounds from : ℕ) (f g : ℕ → ℕ)
    → ((j : ℕ) → from ≤ j → j < from + rounds → f j ≡ g j)
    → sum rounds from f ≡ sum rounds from g
unfolding sum
sum_congruent zero from f g h = refl
sum_congruent (suc rounds) from f g h =
    ap (λ t. bit_xor t (sum rounds (from + 1) f)) (h from (omega arith) (omega arith))
    ∙ ap (bit_xor (g from))
        (sum_congruent rounds (from + 1) f g (λ j p q. h j (omega arith) (omega arith)))

pub sum_of_zeros :
    (rounds from : ℕ) (f : ℕ → ℕ)
    → ((j : ℕ) → from ≤ j → j < from + rounds → f j ≡ 0)
    → sum rounds from f ≡ 0
unfolding sum
sum_of_zeros zero from f h = refl
sum_of_zeros (suc rounds) from f h =
    ap (λ t. bit_xor t (sum rounds (from + 1) f)) (h from (omega arith) (omega arith))
    ∙ (xor_zero_left (sum rounds (from + 1) f)
        ∙ sum_of_zeros rounds (from + 1) f (λ j p q. h j (omega arith) (omega arith)))

pub sum_byte : (rounds from : ℕ) (f : ℕ → ℕ) → ((j : ℕ) → f j < 256) → sum rounds from f < 256
unfolding sum
sum_byte zero from f h = omega arith
sum_byte (suc rounds) from f h =
    xor_byte (f from) (sum rounds (from + 1) f) (h from) (sum_byte rounds (from + 1) f h)

pub sum-xor :
    (rounds from : ℕ) (f g : ℕ → ℕ)
    → sum rounds from (λ j. bit_xor (f j) (g j)) ≡ bit_xor (sum rounds from f) (sum rounds from g)
unfolding sum
sum-xor zero from f g = sym (xor_self 0)
sum-xor (suc rounds) from f g =
    ap (bit_xor (bit_xor (f from) (g from))) (sum-xor rounds (from + 1) f g)
    ∙ xor_swap_inner (f from) (g from) (sum rounds (from + 1) f) (sum rounds (from + 1) g)

pub sum-mul :
    (rounds from a : ℕ) (f : ℕ → ℕ)
    → a < 256
    → ((j : ℕ) → f j < 256)
    → sum rounds from (λ j. mul a (f j)) ≡ mul a (sum rounds from f)
unfolding sum
sum-mul zero from a f byte bytes = sym (mul_zero_right a 0 refl)
sum-mul (suc rounds) from a f byte bytes =
    ap (bit_xor (mul a (f from))) (sum-mul rounds (from + 1) a f byte bytes)
    ∙ sym (
        (gf_mul_distrib a (f from) (sum rounds (from + 1) f) byte (bytes from)
          (sum_byte rounds (from + 1) f bytes)).0)

pub sum-add :
    (n m from : ℕ) (f : ℕ → ℕ) → sum (n + m) from f ≡ bit_xor (sum n from f) (sum m (from + n) f)
unfolding sum
sum-add zero m from f =
    ap (λ k. sum k from f) {x = 0 + m} {y = m} (omega arith)
    ∙ (ap (λ t. sum m t f) {x = from} {y = from + 0} (omega arith)
        ∙ sym (xor_zero_left (sum m (from + 0) f)))
sum-add (suc n) m from f =
    ap (λ k. sum k from f) {x = suc n + m} {y = suc (n + m)} (omega arith)
    ∙ (ap (bit_xor (f from)) (
          sum-add n m (from + 1) f
          ∙ ap (λ t. bit_xor (sum n (from + 1) f) (sum m t f)) {x = from + 1 + n} {y = from + suc n}
              (omega arith))
        ∙ sym (xor_assoc (f from) (sum n (from + 1) f) (sum m (from + suc n) f)))

-- Only one term is not 0.
pub sum_of_one :
    (rounds from at : ℕ) (f : ℕ → ℕ)
    → from ≤ at
    → at < from + rounds
    → ((j : ℕ) → from ≤ j → j < from + rounds → j ≢ at → f j ≡ 0)
    → sum rounds from f ≡ f at
unfolding sum
sum_of_one zero from at f low high h = absurd (omega arith)
sum_of_one (suc rounds) from at f low high h = elim (eq_or_ne from at) [
  | inl here ↦
      ap (bit_xor (f from)) (
        sum_of_zeros rounds (from + 1) f
          (λ j p q. h j (omega arith) (omega arith) (λ e. omega (arith, here, e))))
      ∙ (xor_zero_right (f from) ∙ ap f here)
  | inr later ↦
      ap (λ t. bit_xor t (sum rounds (from + 1) f)) (h from (omega arith) (omega arith) later)
      ∙ (xor_zero_left (sum rounds (from + 1) f)
          ∙ sum_of_one rounds (from + 1) at f (omega (arith, later)) (omega arith)
              (λ j p q. h j (omega arith) (omega arith)))
]

pub sum_shift :
    (rounds from k : ℕ) (f : ℕ → ℕ) → sum rounds (from + k) f ≡ sum rounds from (λ j. f (k + j))
unfolding sum
sum_shift zero from k f = refl
sum_shift (suc rounds) from k f =
    ap (λ t. bit_xor (f t) (sum rounds (from + k + 1) f)) {x = from + k} {y = k + from}
      (omega arith)
    ∙ ap (bit_xor (f (k + from))) (
        ap (λ t. sum rounds t f) {x = from + k + 1} {y = from + 1 + k} (omega arith)
        ∙ sum_shift rounds (from + 1) k f)

ok_power : (a b : ℕ) → 0 < a → gf_inv new_gf256 a ≡ ok b → b ≡ power (255 - log a)
unfolding gf_inv
ok_power a b p e = ground arith

pub inverse_byte : (a b : ℕ) → gf_inv new_gf256 a ≡ ok b → b < 256
unfolding gf_inv
inverse_byte a b e = elim (zero_or_pos a) [
  | inl none ↦ absurd (ground (arith, none, e))
  | inr p ↦ elim (zero_or_pos (log a)) [
    | inl low ↦ omega (
      arith,
      ok_power a b p e,
      ap power {x = 255 - log a} {y = 255} (omega (arith, low)),
      power_255,
    )
    | inr high ↦ omega (arith, ok_power a b p e, (log-power (255 - log a) (omega (arith, high))).2)
  ]
]

pub inverse_lem : (a b : ℕ) → a < 256 → gf_inv new_gf256 a ≡ ok b → mul a b ≡ 1
unfolding gf_inv
inverse_lem a b byte e = elim (zero_or_pos a) [
  | inl none ↦ absurd (ground (arith, none, e))
  | inr p ↦
      let (c, found, one) = gf_inv-gf_mul a byte (λ z. omega (arith, z, p)) in
      ap (mul a) (ok_power a b p e ∙ sym (ok_power a c p found)) ∙ one
]
