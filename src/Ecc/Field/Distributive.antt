-- ===== src/Ecc/Field/Distributive.antt =====
-- Multiplication in GF(256) distributes over the exclusive or.
use backup_shield.Base.{
  ℕ, zero, suc, ◌*◌, ◌/◌, ◌%◌, ◌<◌, ◌≡◌, refl, sym, ap, ◌∙◌, Bool, true, false, ltb, ◌==◌,
  if◌then◌else◌, bit_xor, arith,
}
use backup_shield.Base.Bits.{
  xor-half, xor_parity, xor-lt-pow, xor_swap_inner, xor_self, xor_zero_left, xor_zero_right,
}
use backup_shield.Ecc.Field.{Gf256, new_gf256, fill_tables, repeat_powers, next_power, gf_mul}
use backup_shield.Ecc.Field.Laws.{gf_mul_comm}

all_below : ℕ → (ℕ → Bool) → Bool
all_below zero test = true
all_below (suc n) test = let rest = all_below n test in if test n then rest else false

all_below-at : (n : ℕ) (test : ℕ → Bool) (x : ℕ) → all_below n test ≡ true → x < n → test x ≡ true
unfolding all_below
all_below-at zero test x h small = absurd (omega arith)
all_below-at (suc n) test x h small = ground (arith, all_below-at n test x)

-- Multiplication by 2.
twice : ℕ → ℕ
twice x = let doubled = x * 2 in if ltb doubled 256 then doubled else bit_xor doubled 0x11d

-- The product by shifts and additions, over the lowest `n` bits of `b`.
slow : ℕ → ℕ → ℕ → ℕ
slow zero a b = 0
slow (suc n) a b = let rest = slow n a (b / 2) in bit_xor (twice rest) (if b % 2 == 0 then 0 else a)

twice_checked :
    all_below 256 (λ x. all_below 256 (λ y. twice (bit_xor x y) == bit_xor (twice x) (twice y)))
    ≡ true
unfolding all_below twice
twice_checked = refl

slow_agrees : Gf256 → Bool
unfolding all_below
slow_agrees gf = all_below 256 (λ a. all_below 256 (λ b. gf_mul gf a b == slow 8 a b))

slow_checked : slow_agrees new_gf256 ≡ true
unfolding slow_agrees all_below slow twice gf_mul new_gf256 fill_tables repeat_powers next_power
slow_checked = refl

==-eq : (a b : ℕ) → (a == b) ≡ true → a ≡ b
==-eq a b h = ground arith

twice_xor : (x y : ℕ) → x < 256 → y < 256 → twice (bit_xor x y) ≡ bit_xor (twice x) (twice y)
twice_xor x y p q = ==-eq (twice (bit_xor x y)) (bit_xor (twice x) (twice y)) (
    all_below-at 256 (λ y. twice (bit_xor x y) == bit_xor (twice x) (twice y)) y
      (all_below-at 256
        (λ x. all_below 256 (λ y. twice (bit_xor x y) == bit_xor (twice x) (twice y))) x
        twice_checked p)
      q)

gf_mul-eq-slow : (a b : ℕ) → a < 256 → b < 256 → gf_mul new_gf256 a b ≡ slow 8 a b
gf_mul-eq-slow a b p q = ==-eq (gf_mul new_gf256 a b) (slow 8 a b) (
    all_below-at 256 (λ b. gf_mul new_gf256 a b == slow 8 a b) b
      (all_below-at 256 (λ a. all_below 256 (λ b. gf_mul new_gf256 a b == slow 8 a b)) a
        (unfold slow_agrees in slow_checked) p)
      q)

bytes_checked : all_below 256 (λ x. ltb (twice x) 256) ≡ true
unfolding all_below twice
bytes_checked = refl

lt_of_test : (a : ℕ) → ltb a 256 ≡ true → a < 256
lt_of_test a h = ground arith

twice_byte : (x : ℕ) → x < 256 → twice x < 256
twice_byte x h = lt_of_test (twice x) (all_below-at 256 (λ x. ltb (twice x) 256) x bytes_checked h)

slow_byte : (n a b : ℕ) → a < 256 → slow n a b < 256
unfolding slow
slow_byte zero a b h = omega arith
slow_byte (suc n) a b h =
    xor-lt-pow 8 (twice (slow n a (b / 2))) (if b % 2 == 0 then 0 else a)
      (twice_byte (slow n a (b / 2)) (slow_byte n a (b / 2) h)) (ground arith)

digit_xor :
    (a b c : ℕ)
    → (if bit_xor b c % 2 == 0 then 0 else a)
      ≡ bit_xor (if b % 2 == 0 then 0 else a) (if c % 2 == 0 then 0 else a)
digit_xor a b c =
    ground (arith, xor_parity b c, xor_self a, xor_zero_left a, xor_zero_right a, xor_self 0)

slow_xor : (n a b c : ℕ) → a < 256 → slow n a (bit_xor b c) ≡ bit_xor (slow n a b) (slow n a c)
unfolding slow
slow_xor zero a b c h = sym (xor_self 0)
slow_xor (suc n) a b c h =
    let halves : slow n a (bit_xor b c / 2) ≡ bit_xor (slow n a (b / 2)) (slow n a (c / 2)) =
      ap (slow n a) (xor-half b c) ∙ slow_xor n a (b / 2) (c / 2) h in
    let doubled =
      ap twice halves
      ∙ twice_xor (slow n a (b / 2)) (slow n a (c / 2)) (slow_byte n a (b / 2) h)
          (slow_byte n a (c / 2) h) in
    ap (λ t. bit_xor t (if bit_xor b c % 2 == 0 then 0 else a)) doubled
    ∙ (ap (bit_xor _) (digit_xor a b c) ∙ xor_swap_inner _ _ _ _)

-- On bytes, `gf_mul` with the tables of `Gf256::new` distributes over the exclusive or, on either
-- side.
pub gf_mul_distrib :
    (a b c : ℕ)
    → a < 256
    → b < 256
    → c < 256
    → (gf_mul new_gf256 a (bit_xor b c) ≡ bit_xor (gf_mul new_gf256 a b) (gf_mul new_gf256 a c))
      × (gf_mul new_gf256 (bit_xor b c) a ≡ bit_xor (gf_mul new_gf256 b a) (gf_mul new_gf256 c a))
gf_mul_distrib a b c p q r = (left, right)
  where
    left : gf_mul new_gf256 a (bit_xor b c) ≡ bit_xor (gf_mul new_gf256 a b) (gf_mul new_gf256 a c)
    left =
        gf_mul-eq-slow a (bit_xor b c) p (xor-lt-pow 8 b c q r)
        ∙ (slow_xor 8 a b c p
            ∙ sym (
                ap (λ t. bit_xor t (gf_mul new_gf256 a c)) (gf_mul-eq-slow a b p q)
                ∙ ap (bit_xor (slow 8 a b)) (gf_mul-eq-slow a c p r)))

    right : gf_mul new_gf256 (bit_xor b c) a ≡ bit_xor (gf_mul new_gf256 b a) (gf_mul new_gf256 c a)
    right =
        gf_mul_comm (bit_xor b c) a
        ∙ (left
            ∙ (ap (λ t. bit_xor t (gf_mul new_gf256 a c)) (gf_mul_comm a b)
                ∙ ap (bit_xor (gf_mul new_gf256 b a)) (gf_mul_comm a c)))
