-- ===== src/Ecc/Field.antt =====
-- `Gf256`: the tables of GF(256), and the arithmetic on them.
pub mod Tables
pub mod Laws
pub mod Distributive
pub mod Sums
use backup_shield.Base.{
  ℕ, zero, suc, ◌+◌, ◌-◌, ◌*◌, ◌%◌, ◌^◌, bit_xor, List, [], ◌∷◌, ltb, ◌==◌, ◌||◌, if◌then◌else◌,
  get_or, set, replicate, Bytes,
}
use backup_shield.Base.Result.{Result, ok, err}

pub record Gf256 : Type 0 where
  pub exp_table : Bytes
  pub log_table : Bytes

pub data EccError : Type 0 where
  division_by_zero inverse_of_zero : EccError

-- `x <<= 1; if x >= 256 { x ^= GF_POLY; }` on a `u16`
unfoldable pub next_power : ℕ → ℕ
next_power x =
    let doubled = x * 2 % 2 ^ 16 in if ltb doubled 256 then doubled else bit_xor doubled 0x11d

-- The first loop of `new`: the rounds left, the index and the power.
unfoldable pub fill_tables : ℕ → ℕ → ℕ → Gf256 → Gf256
fill_tables zero i x gf = gf
fill_tables (suc rounds) i x gf =
    fill_tables rounds (i + 1) (next_power x) (record {
      exp_table = set gf.exp_table i (x % 256);
      log_table = set gf.log_table x (i % 256);
    })

-- The second loop: every entry from 255 on is the one 255 places before.
unfoldable pub repeat_powers : ℕ → ℕ → Bytes → Bytes
repeat_powers zero i exp_table = exp_table
repeat_powers (suc rounds) i exp_table =
    repeat_powers rounds (i + 1) (set exp_table i (get_or exp_table (i - 255) 0))

unfoldable pub new_gf256 : Gf256
unfolding fill_tables repeat_powers next_power
new_gf256 =
    let filled =
      fill_tables 255 0 1 (record { exp_table = replicate 512 0; log_table = replicate 256 0 }) in
    record filled { exp_table = repeat_powers 257 255 filled.exp_table }

unfoldable pub gf_mul : Gf256 → ℕ → ℕ → ℕ
gf_mul gf a b =
    if a == 0 || b == 0
    then 0
    else get_or gf.exp_table ((get_or gf.log_table a 0 + get_or gf.log_table b 0) % 255) 0

unfoldable pub gf_div : Gf256 → ℕ → ℕ → Result EccError ℕ
gf_div gf a b =
    if b == 0
    then err division_by_zero
    else if a == 0
    then ok 0
    else ok
        (get_or gf.exp_table ((get_or gf.log_table a 0 + 255 - get_or gf.log_table b 0) % 255) 0)

unfoldable pub gf_inv : Gf256 → ℕ → Result EccError ℕ
gf_inv gf a =
    if a == 0
    then err inverse_of_zero
    else ok (get_or gf.exp_table (255 - get_or gf.log_table a 0) 0)

unfoldable pub gf_pow : Gf256 → ℕ → ℕ → ℕ
gf_pow gf a n =
    if n == 0
    then 1
    else if a == 0
    then 0
    else get_or gf.exp_table ((get_or gf.log_table a 0 * n) % 255) 0
