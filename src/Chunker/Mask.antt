-- ===== src/Chunker/Mask.antt =====
-- The mask of `Chunker::new`, and when the chunker can run.
use backup_shield.Base.{
  ℕ, zero, suc, ◌+◌, ◌-◌, ◌*◌, ◌/◌, ◌^◌, ◌≤◌, ◌<◌, ◌≡◌, ◌≢◌, ap, ◌∙◌, inl, inr, leb, leb→le,
  Bool-cases, arith,
}
use backup_shield.Base.Result.{ok}
use backup_shield.Chunker.{Chunker, new_chunker, derive_mask, power_from, next_power_of_two}
use backup_shield.Chunker.Sizes.{IsValid}
use native.Mathlib.Nat.{
  pow-suc, add-zero, add_assoc, add_comm, add-suc, mul_assoc, one-le-pow, mod-eq_of_lt,
  pow-le-pow_right,
}
use native.Mathlib.Decide.{dec_lt}
use native.Mathlib.Numerals.{add-one}

pow_suc_left : (k : ℕ) → 2 ^ (k + 1) ≡ 2 ^ k * 2
pow_suc_left k = ap (λ t. 2 ^ t) (add-one k) ∙ pow-suc 2 k

-- From `2 ^ e` on, with enough rounds, the search stops at the least power that is not below `n`.
power_from_lem :
    (rounds e n : ℕ)
    → 2 ^ e < n * 2
    → n ≤ 2 ^ (e + rounds)
    → (k : ℕ) × (power_from (suc rounds) (2 ^ e) n ≡ 2 ^ k) × (n ≤ 2 ^ k) × (2 ^ k < n * 2)
unfolding power_from
power_from_lem zero e n below above =
    let enough : n ≤ 2 ^ e = rw (add-zero e) at above in (e, ground arith, enough, below)
power_from_lem (suc rounds) e n below above = elim (Bool-cases (leb n (2 ^ e))) [
  | inl done ↦ (e, rw done, leb→le _ _ done, below)
  | inr more ↦
      let larger : 2 ^ e < n = ground arith in
      let (k, found, big, small) =
        power_from_lem rounds (e + 1) n (omega (arith, pow_suc_left e))
          (rw (add_assoc e 1 rounds, add_comm 1 rounds, add-one rounds) above) in
      (k, rw more (rw (← pow_suc_left e) found), big, small)
]

next_power_of_two_lem :
    (n : ℕ)
    → 0 < n
    → n ≤ 2 ^ 63
    → (k : ℕ) × (next_power_of_two n ≡ 2 ^ k) × (n ≤ 2 ^ k) × (2 ^ k < n * 2)
unfolding next_power_of_two
next_power_of_two_lem n pos fits = power_from_lem 63 0 n (omega arith) fits

pow_lt : (a b : ℕ) → 2 ^ a < 2 ^ b → a < b
pow_lt a b h = elim (dec_lt a b) [
  | yes p ↦ p
  | no p ↦
      absurd (omega (arith, pow-le-pow_right {n = 2} (omega arith) {i = b} {j = a} (omega arith)))
]

pow_add : (a b : ℕ) → 2 ^ (a + b) ≡ 2 ^ a * 2 ^ b
pow_add a zero = rw add-zero (omega arith)
pow_add a (suc b) = rw (add-suc, pow-suc, pow-suc, pow_add a b) (mul_assoc (2 ^ a) (2 ^ b) 2)

-- Half of the next power of two, when the target is at least 2.
half_power :
    (t : ℕ)
    → 1 < t
    → t ≤ 2 ^ 63
    → (j : ℕ) × (next_power_of_two t / 2 ≡ 2 ^ j) × (2 ^ j < t) × (t ≤ 2 ^ (j + 1))
half_power t big fits =
    let (k, found, above, below) = next_power_of_two_lem t (omega arith) fits in
    go k found above below
  where
    go :
        (k : ℕ)
        → next_power_of_two t ≡ 2 ^ k
        → t ≤ 2 ^ k
        → 2 ^ k < t * 2
        → (j : ℕ) × (next_power_of_two t / 2 ≡ 2 ^ j) × (2 ^ j < t) × (t ≤ 2 ^ (j + 1))
    go zero found above below = absurd (omega arith)
    go (suc j) found above below = (
      j,
      omega (arith, pow-suc 2 j),
      omega (arith, pow-suc 2 j),
      omega (arith, pow-suc 2 j, pow_suc_left j),
    )

-- For a target from 2 to 2^32 the mask is the largest power of two that is strictly below the
-- target: for a target that is itself a power of two, half of it.
pub derive_mask_lem :
    (t : ℕ)
    → 1 < t
    → t ≤ 2 ^ 32
    → (j : ℕ) × (derive_mask t ≡ 2 ^ j) × (2 ^ j < t) × (t ≤ 2 ^ (j + 1))
unfolding derive_mask
derive_mask_lem t big fits =
    let (j, half, below, above) = half_power t big (omega arith) in
    (
      j,
      rw half (ground (arith, one-le-pow j 2, mod-eq_of_lt {n = 2 ^ j} {m = 2 ^ 32} (omega arith))),
      below,
      above,
    )

-- Above 2 ^ 32 the cast to `u32` leaves nothing of the mask.
pub derive_mask_truncated : (t : ℕ) → 2 ^ 32 < t → t ≤ 2 ^ 63 → derive_mask t ≡ 0
unfolding derive_mask
derive_mask_truncated t big fits =
    let (j, half, below, above) = half_power t (omega arith) fits in
    let shift : 32 < j + 1 = pow_lt 32 (j + 1) (omega arith) in
    let split_power : 2 ^ j ≡ 2 ^ 32 * 2 ^ (j - 32) =
      ap (λ e. 2 ^ e) (omega arith) ∙ pow_add 32 (j - 32) in
    rw half (ground (arith, one-le-pow j 2))

-- A target of at most 2 ^ 32 leaves a mask to divide by.
pub derive_mask-ne-zero : (t : ℕ) → 0 < t → t ≤ 2 ^ 32 → derive_mask t ≢ 0
derive_mask-ne-zero zero pos fits = elim pos [ ]
derive_mask-ne-zero (suc zero) pos fits = unfold derive_mask next_power_of_two in ground arith
derive_mask-ne-zero (suc (suc t)) pos fits =
    let (j, mask, below, above) = derive_mask_lem (suc (suc t)) (omega arith) fits in
    omega (arith, one-le-pow j 2)

-- What an accepted set of sizes gives.
pub new_chunker-IsValid :
    (a b t : ℕ) (c : Chunker)
    → new_chunker a b t ≡ ok c
    → IsValid c × (c.target_size ≡ t) × (c.mask ≡ derive_mask t)
unfolding new_chunker
new_chunker-IsValid a b t c h = ground arith
