-- ===== src/Pack/Name.antt =====
-- Names of pack files: `pack_filename` and the parsing of `list_pack_ids`.
pub mod RoundTrip
pub mod Distinct
use backup_shield.Base.{
  ℕ, zero, suc, ◌+◌, ◌-◌, ◌*◌, ◌/◌, ◌%◌, ◌^◌, Bool, Option, none, some, [], ◌∷◌, ◌++◌, ◌&&◌, leb,
  ltb, ◌==◌, if◌then◌else◌, length, take, drop, replicate, Bytes,
}
use backup_shield.Base.{eq_bytes}

-- The decimal digits of a number below 10 ^ (rounds + 1), in ASCII.
unfoldable pub decimal : ℕ → ℕ → Bytes
decimal zero n = (48 + n % 10) ∷ []
decimal (suc rounds) n =
    let front = decimal rounds (n / 10) in
    if ltb n 10 then (48 + n) ∷ [] else front ++ (48 + n % 10) ∷ []

-- `{:06}`
unfoldable pub pad_six : Bytes → Bytes
pad_six digits = replicate (6 - length digits) 48 ++ digits

-- "pack-"
abbrev pub prefix : Bytes
prefix = b'p' ∷ b'a' ∷ b'c' ∷ b'k' ∷ b'-' ∷ []

-- ".pack"
abbrev pub suffix : Bytes
suffix = b'.' ∷ b'p' ∷ b'a' ∷ b'c' ∷ b'k' ∷ []

-- ".tmp", which `with_extension("pack.tmp")` leaves behind the name
abbrev pub temp_suffix : Bytes
temp_suffix = b'.' ∷ b't' ∷ b'm' ∷ b'p' ∷ []

-- A `u64` has at most 20 digits.
unfoldable pub pack_filename : ℕ → Bytes
unfolding decimal pad_six
pack_filename pack_id = prefix ++ (pad_six (decimal 19 pack_id) ++ suffix)

unfoldable pub temp_filename : ℕ → Bytes
temp_filename pack_id = pack_filename pack_id ++ temp_suffix

-- `str::parse::<u64>`: digits, with an overflow check after each, and one `+` before them at most.
unfoldable pub parse_digits : ℕ → Bytes → Option ℕ
parse_digits acc [] = some acc
parse_digits acc (c ∷ rest) =
    if leb 48 c && (leb c 57 && ltb (acc * 10 + (c - 48)) (2 ^ 64))
    then parse_digits (acc * 10 + (c - 48)) rest
    else none

unfoldable pub parse_u64 : Bytes → Option ℕ
unfolding parse_digits
parse_u64 [] = none
parse_u64 (c ∷ []) = if c == b'+' then none else parse_digits 0 (c ∷ [])
parse_u64 (c ∷ d ∷ rest) =
    if c == b'+' then parse_digits 0 (d ∷ rest) else parse_digits 0 (c ∷ d ∷ rest)

unfoldable pub starts_with : Bytes → Bytes → Bool
starts_with name front = eq_bytes (take (length front) name) front

unfoldable pub ends_with : Bytes → Bytes → Bool
ends_with name back =
    leb (length back) (length name) && eq_bytes (drop (length name - length back) name) back

-- The id in a file name of the data directory, if it is the name of a pack. A name with both ends
-- has ten bytes at least, so the slice between them is in range.
unfoldable pub pack_id_of : Bytes → Option ℕ
unfolding starts_with ends_with parse_u64
pack_id_of name =
    if starts_with name prefix && ends_with name suffix
    then parse_u64 (take (length name - 5 - 5) (drop 5 name))
    else none
