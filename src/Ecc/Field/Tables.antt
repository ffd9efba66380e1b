-- ===== src/Ecc/Field/Tables.antt =====
-- The two tables of `Gf256::new` are inverse to each other.
use backup_shield.Base.{
  ℕ, zero, suc, ◌+◌, ◌<◌, ◌≡◌, refl, sym, ap, ◌∙◌, Bool, true, not, ◌&&◌, [], ◌∷◌, ltb, ◌==◌,
  get_or, length, take, Bytes, arith,
}
use backup_shield.Ecc.Field.{new_gf256, fill_tables, repeat_powers, next_power}

-- From position `i` on, `logs` at the entry is the position, and no entry is 0.
powers_ok : Bytes → ℕ → Bytes → Bool
powers_ok logs i [] = true
powers_ok logs i (x ∷ xs) =
    let rest = powers_ok logs (i + 1) xs in
    (get_or logs x 0 == i) && (not (x == 0) && (ltb x 256 && rest))

logs_ok : Bytes → ℕ → Bytes → Bool
logs_ok powers a [] = true
logs_ok powers a (i ∷ is) =
    let rest = logs_ok powers (a + 1) is in (get_or powers i 0 == a) && (ltb i 255 && rest)

drop_one : Bytes → Bytes
drop_one [] = []
drop_one (x ∷ xs) = xs

powers_checked : powers_ok new_gf256.log_table 0 (take 255 new_gf256.exp_table) ≡ true
unfolding powers_ok new_gf256 fill_tables repeat_powers next_power
powers_checked = refl

logs_checked : logs_ok new_gf256.exp_table 1 (drop_one new_gf256.log_table) ≡ true
unfolding logs_ok drop_one new_gf256 fill_tables repeat_powers next_power
logs_checked = refl

powers_ok_at :
    (logs xs : Bytes) (i k : ℕ)
    → powers_ok logs i xs ≡ true
    → k < length xs
    → (get_or logs (get_or xs k 0) 0 ≡ i + k) × (0 < get_or xs k 0) × (get_or xs k 0 < 256)
unfolding powers_ok
powers_ok_at logs [] i k h small = absurd (omega arith)
powers_ok_at logs (x ∷ xs) i zero h small = ground arith
powers_ok_at logs (x ∷ xs) i (suc k) h small =
    let rest : powers_ok logs (i + 1) xs ≡ true = ground arith in
    let (at_k, pos, byte) = powers_ok_at logs xs (i + 1) k rest (omega arith) in
    (omega (arith, at_k), pos, byte)

logs_ok_at :
    (powers is : Bytes) (a k : ℕ)
    → logs_ok powers a is ≡ true
    → k < length is
    → (get_or powers (get_or is k 0) 0 ≡ a + k) × (get_or is k 0 < 255)
unfolding logs_ok
logs_ok_at powers [] a k h small = absurd (omega arith)
logs_ok_at powers (i ∷ is) a zero h small = ground arith
logs_ok_at powers (i ∷ is) a (suc k) h small =
    let rest : logs_ok powers (a + 1) is ≡ true = ground arith in
    let (at_k, low) = logs_ok_at powers is (a + 1) k rest (omega arith) in
    (omega (arith, at_k), low)

get_or-take : (n k : ℕ) (xs : Bytes) → k < n → get_or (take n xs) k 0 ≡ get_or xs k 0
get_or-take zero k xs h = absurd (omega arith)
get_or-take (suc n) k [] h = ground arith
get_or-take (suc n) zero (x ∷ xs) h = refl
get_or-take (suc n) (suc k) (x ∷ xs) h = get_or-take n k xs (omega arith)

get_or-drop_one : (k : ℕ) (xs : Bytes) → get_or (drop_one xs) k 0 ≡ get_or xs (suc k) 0
unfolding drop_one
get_or-drop_one k [] = refl
get_or-drop_one k (x ∷ xs) = refl

-- The power and the logarithm of the field.
abbrev pub power : ℕ → ℕ
power k = get_or new_gf256.exp_table k 0

abbrev pub log : ℕ → ℕ
log a = get_or new_gf256.log_table a 0

sizes :
    (length (take 255 new_gf256.exp_table) ≡ 255) × (length (drop_one new_gf256.log_table) ≡ 255)
unfolding drop_one new_gf256 fill_tables repeat_powers next_power
sizes = (refl, refl)

pub log-power : (k : ℕ) → k < 255 → (log (power k) ≡ k) × (0 < power k) × (power k < 256)
log-power k small =
    let same = get_or-take 255 k new_gf256.exp_table small in
    let (at_k, pos, byte) =
      powers_ok_at new_gf256.log_table (take 255 new_gf256.exp_table) 0 k powers_checked
        (omega (arith, sizes.0)) in
    (ap log (sym same) ∙ (at_k ∙ omega arith), omega (arith, same, pos), omega (arith, same, byte))

pub power-log : (a : ℕ) → 0 < a → a < 256 → (power (log a) ≡ a) × (log a < 255)
power-log zero pos byte = absurd (omega arith)
power-log (suc k) pos byte =
    let same = get_or-drop_one k new_gf256.log_table in
    let (at_k, low) =
      logs_ok_at new_gf256.exp_table (drop_one new_gf256.log_table) 1 k logs_checked
        (omega (arith, sizes.1)) in
    (ap power (sym same) ∙ (at_k ∙ omega arith), omega (arith, same, low))

pub power_255 : power 255 ≡ 1
unfolding new_gf256 fill_tables repeat_powers next_power
power_255 = refl

pub log_one : log 1 ≡ 0
unfolding new_gf256 fill_tables repeat_powers next_power
log_one = refl
