-- ===== src/Base/Utf8.antt =====
-- `std::str::from_utf8`: which byte strings are UTF-8.
use backup_shield.Base.{
  ℕ, ◌-◌, ◌<◌, ◌≡◌, refl, Bool, true, false, Option, none, some, [], ◌∷◌, ◌&&◌, leb, ltb, ◌==◌,
  if◌then◌else◌, All, Bytes, arith,
}

-- How many bytes of the character are missing, and the range of the next one.
pub record Utf8State : Type 0 where
  pub missing : ℕ
  pub low : ℕ
  pub high : ℕ

abbrev pub between : Utf8State
between = record { missing = 0; low = 0x80; high = 0xbf }

-- The first byte of a character. Overlong forms, surrogates and what is above U+10FFFF are refused.
lead : ℕ → Option Utf8State
lead b =
    if ltb b 0x80
    then some between
    else if ltb b 0xc2
    then none
    else if leb b 0xdf
    then some (record { missing = 1; low = 0x80; high = 0xbf })
    else if leb b 0xef
    then some (record {
      missing = 2;
      low = (if b == 0xe0 then 0xa0 else 0x80);
      high = (if b == 0xed then 0x9f else 0xbf);
    })
    else if leb b 0xf4
    then some (record {
      missing = 3;
      low = (if b == 0xf0 then 0x90 else 0x80);
      high = (if b == 0xf4 then 0x8f else 0xbf);
    })
    else none

utf8_step : Utf8State → ℕ → Option Utf8State
unfolding lead
utf8_step st b =
    if st.missing == 0
    then lead b
    else if leb st.low b && leb b st.high
    then some (record { missing = st.missing - 1; low = 0x80; high = 0xbf })
    else none

utf8_from : Utf8State → Bytes → Bool
utf8_from st [] = st.missing == 0
utf8_from st (b ∷ rest) = elim (utf8_step st b) [ none ↦ false | some st' ↦ utf8_from st' rest ]

unfoldable pub is_utf8 : Bytes → Bool
unfolding utf8_from utf8_step
is_utf8 bytes = utf8_from between bytes

step_ascii : (b : ℕ) → b < 128 → utf8_step between b ≡ some between
unfolding utf8_step
step_ascii b h = ground arith

utf8_from_ascii : (bytes : Bytes) → All (λ c. c < 128) bytes → utf8_from between bytes ≡ true
unfolding utf8_from
utf8_from_ascii [] h = refl
utf8_from_ascii (b ∷ rest) h = rw (step_ascii b h.0, utf8_from) (utf8_from_ascii rest h.1)

pub is_utf8-ascii : (bytes : Bytes) → All (λ c. c < 128) bytes → is_utf8 bytes ≡ true
unfolding is_utf8
is_utf8-ascii = utf8_from_ascii
