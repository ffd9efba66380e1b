-- ===== src/Ecc/Field/Laws.antt =====
-- The laws of multiplication in GF(256), from its two tables.
use backup_shield.Base.{
  ℕ, zero, suc, ◌+◌, ◌-◌, ◌*◌, ◌%◌, ◌<◌, ◌≡◌, ◌≢◌, ◌⊎◌, refl, sym, ap, ◌∙◌, inl, inr, arith,
}
use backup_shield.Base.Result.{ok}
use native.Mathlib.Nat.{mul-suc, mul-zero}
use backup_shield.Ecc.Field.{new_gf256, gf_mul, gf_div, gf_inv, gf_pow}
use backup_shield.Ecc.Field.Tables.{power, log, log-power, power-log, power_255, log_one}

-- The product in the field of the program.
abbrev pub mul : ℕ → ℕ → ℕ
mul a b = gf_mul new_gf256 a b

pub mul-power : (a b : ℕ) → 0 < a → 0 < b → mul a b ≡ power ((log a + log b) % 255)
unfolding gf_mul
mul-power a b p q = ground arith

pub zero_or_pos : (a : ℕ) → (a ≡ 0) ⊎ (0 < a)
zero_or_pos zero = inl refl
zero_or_pos (suc a) = inr (omega arith)

pub mul_zero : (a b : ℕ) → a ≡ 0 → mul a b ≡ 0
unfolding gf_mul
mul_zero a b e = ground arith

pub mul_zero_right : (a b : ℕ) → b ≡ 0 → mul a b ≡ 0
unfolding gf_mul
mul_zero_right a b e = ground arith

pub mul_pos :
    (a b : ℕ)
    → 0 < a
    → 0 < b
    → (0 < mul a b) × (mul a b < 256) × (log (mul a b) ≡ (log a + log b) % 255)
mul_pos a b p q =
    let product = mul-power a b p q in
    let (same, pos, byte) = log-power ((log a + log b) % 255) (omega arith) in
    (omega (arith, product, pos), omega (arith, product, byte), ap log product ∙ same)

pub gf_mul_comm : (a b : ℕ) → mul a b ≡ mul b a
gf_mul_comm a b = elim (zero_or_pos a) [
  | inl e ↦ mul_zero a b e ∙ sym (mul_zero_right b a e)
  | inr p ↦ elim (zero_or_pos b) [
    | inl e ↦ mul_zero_right a b e ∙ sym (mul_zero b a e)
    | inr q ↦ mul-power a b p q ∙ (ap power (omega arith) ∙ sym (mul-power b a q p))
  ]
]

mul_assoc_pos : (a b c : ℕ) → 0 < a → 0 < b → 0 < c → mul (mul a b) c ≡ mul a (mul b c)
mul_assoc_pos a b c p q r =
    let (pos_ab, byte_ab, log_ab) = mul_pos a b p q in
    let (pos_bc, byte_bc, log_bc) = mul_pos b c q r in
    mul-power (mul a b) c pos_ab r
    ∙ (ap power (omega (arith, log_ab, log_bc)) ∙ sym (mul-power a (mul b c) p pos_bc))

-- The multiplication `gf_mul` with the tables of `Gf256::new` is associative.
pub gf_mul_assoc :
    (a b c : ℕ)
    → gf_mul new_gf256 (gf_mul new_gf256 a b) c ≡ gf_mul new_gf256 a (gf_mul new_gf256 b c)
gf_mul_assoc a b c = elim (zero_or_pos a) [
  | inl e ↦ mul_zero _ c (mul_zero a b e) ∙ sym (mul_zero a (mul b c) e)
  | inr p ↦ elim (zero_or_pos b) [
    | inl e ↦ mul_zero _ c (mul_zero_right a b e) ∙ sym (mul_zero_right a _ (mul_zero b c e))
    | inr q ↦ elim (zero_or_pos c) [
      | inl e ↦ mul_zero_right (mul a b) c e ∙ sym (mul_zero_right a _ (mul_zero_right b c e))
      | inr r ↦ mul_assoc_pos a b c p q r
    ]
  ]
]

div-power :
    (a b : ℕ) → 0 < a → 0 < b → gf_div new_gf256 a b ≡ ok (power ((log a + 255 - log b) % 255))
unfolding gf_div
div-power a b p q = ground arith

div_zero : (a b : ℕ) → a ≡ 0 → 0 < b → gf_div new_gf256 a b ≡ ok 0
unfolding gf_div
div_zero a b e q = ground arith

div_mul_pos : (a b : ℕ) → 0 < a → a < 256 → 0 < b → b < 256 → gf_div new_gf256 (mul a b) b ≡ ok a
div_mul_pos a b p byte_a q byte_b =
    let (pos, byte, log_ab) = mul_pos a b p q in
    let (a_back, low_a) = power-log a p byte_a in
    let (b_back, low_b) = power-log b q byte_b in
    div-power (mul a b) b pos q ∙ ap ok (ap power (omega (arith, log_ab, low_a, low_b)) ∙ a_back)

mul_div_pos :
    (a b : ℕ) → 0 < a → a < 256 → 0 < b → b < 256 → mul (power ((log a + 255 - log b) % 255)) b ≡ a
mul_div_pos a b p byte_a q byte_b =
    let (a_back, low_a) = power-log a p byte_a in
    let (b_back, low_b) = power-log b q byte_b in
    let (log_q, pos, byte) = log-power ((log a + 255 - log b) % 255) (omega arith) in
    mul-power (power ((log a + 255 - log b) % 255)) b pos q
    ∙ (ap power (omega (arith, log_q, low_a, low_b)) ∙ a_back)

-- For bytes a and b, b not 0: `gf_div` of the product by b returns a, and `gf_div` of a by b
-- returns a quotient whose product with b is a.
pub gf_div-gf_mul :
    (a b : ℕ)
    → a < 256
    → b < 256
    → b ≢ 0
    → (gf_div new_gf256 (gf_mul new_gf256 a b) b ≡ ok a)
      × ((q : ℕ) × (gf_div new_gf256 a b ≡ ok q) × (gf_mul new_gf256 q b ≡ a))
gf_div-gf_mul a b byte_a byte_b nonzero =
    let q : 0 < b = omega (arith, nonzero) in
    elim (zero_or_pos a) [
      | inl e ↦ (
        div_zero (mul a b) b (mul_zero a b e) q ∙ ap ok (sym e),
        (0, div_zero a b e q, mul_zero 0 b refl ∙ sym e),
      )
      | inr p ↦ (
        div_mul_pos a b p byte_a q byte_b,
        (_, div-power a b p q, mul_div_pos a b p byte_a q byte_b),
      )
    ]

inv-power : (a : ℕ) → 0 < a → gf_inv new_gf256 a ≡ ok (power (255 - log a))
unfolding gf_inv
inv-power a p = ground arith

power_zero : power 0 ≡ 1
power_zero = ap power (sym log_one) ∙ (power-log 1 (omega arith) (omega arith)).0

mul_inv_pos : (a : ℕ) → 0 < a → a < 256 → mul a (power (255 - log a)) ≡ 1
mul_inv_pos a p byte = elim (zero_or_pos (log a)) [
  | inl e ↦
      let inverse : power (255 - log a) ≡ 1 = ap power (omega (arith, e)) ∙ power_255 in
      ap (mul a) inverse
      ∙ (mul-power a 1 p (omega arith) ∙ (ap power (omega (arith, e, log_one)) ∙ power_zero))
  | inr low ↦
      let (a_back, high) = power-log a p byte in
      let (log_b, pos, small) = log-power (255 - log a) (omega arith) in
      mul-power a (power (255 - log a)) p pos ∙ (ap power (omega (arith, log_b, high)) ∙ power_zero)
]

-- For a byte a that is not 0, `gf_inv` returns a number whose product with a is 1.
pub gf_inv-gf_mul :
    (a : ℕ) → a < 256 → a ≢ 0 → (b : ℕ) × (gf_inv new_gf256 a ≡ ok b) × (gf_mul new_gf256 a b ≡ 1)
gf_inv-gf_mul a byte nonzero =
    let p : 0 < a = omega (arith, nonzero) in
    (power (255 - log a), inv-power a p, mul_inv_pos a p byte)

pow_of_zero : (a n : ℕ) → a ≡ 0 → gf_pow new_gf256 a (n + 1) ≡ 0
unfolding gf_pow
pow_of_zero a n e = ground arith

pow-power : (a n : ℕ) → 0 < a → gf_pow new_gf256 a n ≡ power ((log a * n) % 255)
unfolding gf_pow
pow-power a zero p = sym power_zero ∙ ap power (omega (arith, mul-zero (log a)))
pow-power a (suc n) p = ground arith

-- `gf_pow` is repeated multiplication: the power n + 1 of a is the product of a and the power n.
pub gf_pow-suc : (a n : ℕ) → gf_pow new_gf256 a (n + 1) ≡ gf_mul new_gf256 a (gf_pow new_gf256 a n)
gf_pow-suc a n = elim (zero_or_pos a) [
  | inl e ↦ pow_of_zero a n e ∙ sym (mul_zero a (gf_pow new_gf256 a n) e)
  | inr p ↦
      let (same, pos, small) = log-power ((log a * n) % 255) (omega arith) in
      pow-power a (n + 1) p
      ∙ (ap power (omega (arith, same, mul-suc (log a) n))
          ∙ sym (ap (mul a) (pow-power a n p) ∙ mul-power a (power ((log a * n) % 255)) p pos))
]
