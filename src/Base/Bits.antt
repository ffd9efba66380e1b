-- ===== src/Base/Bits.antt =====
-- `^` on unsigned integers, at every width: the laws of exclusive or from its binary digits.
use Prim.Native.Nat.{ℕ, zero, suc, ◌+◌, ◌*◌, ◌/◌, ◌%◌, ◌^◌, ◌≤◌, ◌<◌, bit_xor}
use Prim.Native.Nat.{digits, differ, bit_xor-bitwise}
use mathlib.Core.Path.{◌≡◌, refl, ap}
use native.Mathlib.Omega.{arith}
use native.Mathlib.Nat.{pow-suc, div-one, mul-one, div-div-eq-div-mul}

abbrev xor_digits : ℕ → ℕ → ℕ → ℕ
xor_digits n a b = digits (λ c. c) differ n a b

-- Two amounts of fuel, both enough for the first number.
xor_digits_fuel : (a b r s : ℕ) → a ≤ r → a ≤ s → xor_digits r a b ≡ xor_digits s a b
xor_digits_fuel zero b zero zero enough also = refl
xor_digits_fuel zero zero zero (suc s) enough also = refl
xor_digits_fuel zero (suc b) zero (suc s) enough also = refl
xor_digits_fuel zero b (suc r) zero enough also = refl
xor_digits_fuel zero b (suc r) (suc s) enough also = refl
xor_digits_fuel (suc a) b zero s enough also = absurd (omega arith)
xor_digits_fuel (suc a) b (suc r) zero enough also = absurd (omega arith)
xor_digits_fuel (suc a) b (suc r) (suc s) enough also =
    rw (xor_digits_fuel (suc a / 2) (b / 2) r s (omega arith) (omega arith))

differ_bits : (a b : ℕ) → a < 2 → b < 2 → differ a b ≡ (a + b) % 2
differ_bits zero b p q = omega arith
differ_bits (suc zero) zero p q = refl
differ_bits (suc zero) (suc zero) p q = refl
differ_bits (suc zero) (suc (suc b)) p q = absurd (omega arith)
differ_bits (suc (suc a)) b p q = absurd (omega arith)

zero-bit_xor : (b : ℕ) → bit_xor 0 b ≡ b
zero-bit_xor b = bit_xor-bitwise 0 b

-- One digit more than the halves have.
pub bit_xor_step : (a b : ℕ) → bit_xor a b ≡ bit_xor (a / 2) (b / 2) * 2 + (a + b) % 2
bit_xor_step zero b = omega (arith, zero-bit_xor b, zero-bit_xor (b / 2))
bit_xor_step (suc a) b = omega (
  arith,
  bit_xor-bitwise (suc a) b,
  bit_xor-bitwise (suc a / 2) (b / 2),
  differ_bits (suc a % 2) (b % 2) (omega arith) (omega arith),
  xor_digits_fuel (suc a / 2) (b / 2) a (suc a / 2) (omega arith) (omega arith),
)

pub xor-half : (a b : ℕ) → bit_xor a b / 2 ≡ bit_xor (a / 2) (b / 2)
xor-half a b = omega (arith, bit_xor_step a b)

pub xor_parity : (a b : ℕ) → bit_xor a b % 2 ≡ (a + b) % 2
xor_parity a b = omega (arith, bit_xor_step a b)

eq_of_digits : (a b : ℕ) → a / 2 ≡ b / 2 → a % 2 ≡ b % 2 → a ≡ b
eq_of_digits a b p q = omega arith

double-half : (a : ℕ) → a * 2 / 2 ≡ a
double-half a = omega arith

pub xor_zero_left : (b : ℕ) → bit_xor 0 b ≡ b
xor_zero_left = zero-bit_xor

xor_comm_fuel : (n a b : ℕ) → a + b ≤ n → bit_xor a b ≡ bit_xor b a
xor_comm_fuel zero zero zero h = refl
xor_comm_fuel zero zero (suc b) h = absurd (omega arith)
xor_comm_fuel zero (suc a) b h = absurd (omega arith)
xor_comm_fuel (suc n) a b h =
    omega (arith, bit_xor_step a b, bit_xor_step b a, xor_comm_fuel n (a / 2) (b / 2) (omega arith))

pub xor_comm : (a b : ℕ) → bit_xor a b ≡ bit_xor b a
xor_comm a b = xor_comm_fuel (a + b) a b (omega arith)

pub xor_zero_right : (a : ℕ) → bit_xor a 0 ≡ a
xor_zero_right a = omega (arith, xor_comm a 0, zero-bit_xor a)

xor_self_fuel : (n a : ℕ) → a ≤ n → bit_xor a a ≡ 0
xor_self_fuel zero zero h = refl
xor_self_fuel zero (suc a) h = absurd (omega arith)
xor_self_fuel (suc n) a h = omega (arith, bit_xor_step a a, xor_self_fuel n (a / 2) (omega arith))

pub xor_self : (a : ℕ) → bit_xor a a ≡ 0
xor_self a = xor_self_fuel a a (omega arith)

xor_assoc_fuel : (n a b c : ℕ) → a + b + c ≤ n → bit_xor (bit_xor a b) c ≡ bit_xor a (bit_xor b c)
xor_assoc_fuel zero zero zero zero h = refl
xor_assoc_fuel zero zero zero (suc c) h = absurd (omega arith)
xor_assoc_fuel zero zero (suc b) c h = absurd (omega arith)
xor_assoc_fuel zero (suc a) b c h = absurd (omega arith)
xor_assoc_fuel (suc n) a b c h =
    eq_of_digits (bit_xor (bit_xor a b) c) (bit_xor a (bit_xor b c))
      (rw (xor-half, xor-half, xor-half, xor-half)
        (xor_assoc_fuel n (a / 2) (b / 2) (c / 2) (omega arith)))
      (omega (
        arith,
        xor_parity (bit_xor a b) c,
        xor_parity a b,
        xor_parity a (bit_xor b c),
        xor_parity b c,
      ))

pub xor_assoc : (a b c : ℕ) → bit_xor (bit_xor a b) c ≡ bit_xor a (bit_xor b c)
xor_assoc a b c = xor_assoc_fuel (a + b + c) a b c (omega arith)

-- A sum of numbers below a power of two, without carries, stays below it.
pub xor-lt-pow : (k a b : ℕ) → a < 2 ^ k → b < 2 ^ k → bit_xor a b < 2 ^ k
xor-lt-pow zero zero zero h q = omega (arith, zero-bit_xor 0)
xor-lt-pow zero zero (suc b) h q = absurd (omega arith)
xor-lt-pow zero (suc a) b h q = absurd (omega arith)
xor-lt-pow (suc k) a b h q = omega (
  arith,
  pow-suc 2 k,
  bit_xor_step a b,
  xor-lt-pow k (a / 2) (b / 2) (omega (arith, pow-suc 2 k)) (omega (arith, pow-suc 2 k)),
)

pow_suc_left : (k : ℕ) → 2 ^ suc k ≡ 2 * 2 ^ k
pow_suc_left k = omega (arith, pow-suc 2 k)

mul_pow_suc : (a k : ℕ) → a * 2 ^ suc k ≡ a * 2 ^ k * 2
mul_pow_suc a k = omega (arith, ap (λ (t : ℕ). a * t) (pow-suc 2 k))

xor_double : (a b : ℕ) → bit_xor (a * 2) (b * 2) ≡ bit_xor a b * 2
xor_double a b =
    eq_of_digits (bit_xor (a * 2) (b * 2)) (bit_xor a b * 2)
      (rw xor-half (rw (double-half a, double-half b, double-half (bit_xor a b))))
      (omega (arith, xor_parity (a * 2) (b * 2)))

-- Exclusive or goes under a shift to the right, under a shift to the left and under a low mask.
pub xor-div-pow : (k a b : ℕ) → bit_xor a b / 2 ^ k ≡ bit_xor (a / 2 ^ k) (b / 2 ^ k)
xor-div-pow zero a b = simp div-one
xor-div-pow (suc k) a b =
    rw (pow_suc_left k, ← div-div-eq-div-mul (bit_xor a b) 2 (2 ^ k), xor-half)
      (rw (← div-div-eq-div-mul a 2 (2 ^ k), ← div-div-eq-div-mul b 2 (2 ^ k))
        (xor-div-pow k (a / 2) (b / 2)))

pub xor-mul-pow : (k a b : ℕ) → bit_xor (a * 2 ^ k) (b * 2 ^ k) ≡ bit_xor a b * 2 ^ k
xor-mul-pow zero a b = simp mul-one
xor-mul-pow (suc k) a b =
    rw (mul_pow_suc a k, mul_pow_suc b k, mul_pow_suc (bit_xor a b) k)
      (rw xor_double (ap (λ t. t * 2) (xor-mul-pow k a b)))

pub xor_left_comm : (a b c : ℕ) → bit_xor a (bit_xor b c) ≡ bit_xor b (bit_xor a c)
xor_left_comm a b c = cc (xor_assoc a b c, xor_assoc b a c, xor_comm a b)

-- What is added twice cancels.
pub xor_cancel : (a b : ℕ) → bit_xor a (bit_xor a b) ≡ b
xor_cancel a b = cc (xor_assoc a a b, xor_self a, xor_zero_left b)

-- (a ^ b) ^ (c ^ d) in the other grouping
pub xor_swap_inner :
    (a b c d : ℕ) → bit_xor (bit_xor a b) (bit_xor c d) ≡ bit_xor (bit_xor a c) (bit_xor b d)
xor_swap_inner a b c d =
    cc (xor_assoc a b (bit_xor c d), xor_left_comm b c d, xor_assoc a c (bit_xor b d))
