-- ===== src/Hash/Toy.antt =====
-- A function of the same shape as SHA-256, on which the tests run: the sum and the length of its input.
use backup_shield.Base.{
  ℕ, ◌+◌, ◌*◌, ◌%◌, ◌/◌, ◌<◌, ◌≡◌, refl, [], ◌∷◌, length, All, Bytes, ltb, if◌then◌else◌, arith,
}
use backup_shield.Hash.{Hashes}

abbrev sum_bytes : Bytes → ℕ
sum_bytes [] = 0
sum_bytes (b ∷ bytes) = (b + 3 * sum_bytes bytes) % 256

abbrev zeros : Bytes
zeros =
    0 ∷ 0 ∷ 0 ∷ 0 ∷ 0 ∷ 0 ∷ 0 ∷ 0 ∷ 0 ∷ 0 ∷ 0 ∷ 0 ∷ 0 ∷ 0 ∷ 0 ∷ 0 ∷ 0 ∷ 0 ∷ 0 ∷ 0 ∷ 0 ∷ 0 ∷ 0 ∷ 0
    ∷ 0 ∷ 0 ∷ 0 ∷ 0 ∷ 0 ∷ 0 ∷ []

abbrev digit : ℕ → ℕ
digit n = if ltb (n % 16) 10 then 48 + n % 16 else 87 + n % 16

abbrev toy_sha : Bytes → Bytes
toy_sha bytes = sum_bytes bytes ∷ length bytes % 256 ∷ zeros

abbrev toy_hex : Bytes → Bytes
toy_hex [] = []
toy_hex (b ∷ bytes) = digit (b / 16) ∷ digit b ∷ toy_hex bytes

pub length-toy_hex : (bytes : Bytes) → length (toy_hex bytes) ≡ 2 * length bytes
length-toy_hex [] = refl
length-toy_hex (b ∷ bytes) = omega (arith, length-toy_hex bytes)

digit_ascii : (n : ℕ) → digit n < 128
digit_ascii n = ground arith

pub toy_hex_ascii : (bytes : Bytes) → All (λ c. c < 128) (toy_hex bytes)
toy_hex_ascii [] = tt
toy_hex_ascii (b ∷ bytes) = (digit_ascii (b / 16), (digit_ascii b, toy_hex_ascii bytes))

abbrev pub toy : Hashes
toy = record {
  sha256 = toy_sha;
  hex = toy_hex;
  length_sha256 = λ bytes. refl;
  length_hex = length-toy_hex;
  hex_ascii = toy_hex_ascii;
}
