-- ===== src/Pack/Name/RoundTrip.antt =====
-- The id that `list_pack_ids` reads from the name of a pack is the id that named it.
use backup_shield.Base.{
  ℕ, zero, suc, ◌+◌, ◌-◌, ◌*◌, ◌/◌, ◌%◌, ◌^◌, ◌≤◌, ◌<◌, ◌≡◌, refl, ap, ◌∙◌, true, some, [], ◌∷◌,
  ◌++◌, append_assoc, ltb, tests, inl, inr, Bool-cases, length, length-append, length-replicate,
  take, drop, take_append, drop_append, replicate, All, All-append, Bytes, arith, eq_bytes_refl,
}
use backup_shield.Pack.Name.{
  decimal, pad_six, prefix, suffix, pack_filename, parse_digits, parse_u64, starts_with, ends_with,
  pack_id_of,
}
use native.Mathlib.Nat.{pow-suc}

abbrev IsDigit : ℕ → Type 0
IsDigit c = (48 ≤ c) × (c ≤ 57)

-- The number that the digits stand for, behind `acc`.
value : ℕ → Bytes → ℕ
value acc [] = acc
value acc (c ∷ rest) = value (acc * 10 + (c - 48)) rest

le-value : (acc : ℕ) (ds : Bytes) → acc ≤ value acc ds
unfolding value
le-value acc [] = omega arith
le-value acc (c ∷ rest) = omega (arith, le-value (acc * 10 + (c - 48)) rest)

parse_digits-eq-value :
    (acc : ℕ) (ds : Bytes)
    → All IsDigit ds
    → value acc ds < 2 ^ 64
    → parse_digits acc ds ≡ some (value acc ds)
unfolding value parse_digits
parse_digits-eq-value acc [] h fits = refl
parse_digits-eq-value acc (c ∷ rest) h fits = ground (
  arith,
  le-value (acc * 10 + (c - 48)) rest,
  parse_digits-eq-value (acc * 10 + (c - 48)) rest h.1 fits,
)

value-append : (acc c : ℕ) (ds : Bytes) → value acc (ds ++ c ∷ []) ≡ value acc ds * 10 + (c - 48)
unfolding value
value-append acc c [] = refl
value-append acc c (d ∷ rest) = value-append (acc * 10 + (d - 48)) c rest

value-zeros : (k : ℕ) (ds : Bytes) → value 0 (replicate k 48 ++ ds) ≡ value 0 ds
unfolding value
value-zeros zero ds = refl
value-zeros (suc k) ds = value-zeros k ds

value_single : (m : ℕ) → value 0 ((48 + m) ∷ []) ≡ m
unfolding value
value_single m = omega arith

value-decimal : (rounds n : ℕ) → n < 10 ^ suc rounds → value 0 (decimal rounds n) ≡ n
unfolding decimal
value-decimal zero n h = omega (arith, value_single (n % 10))
value-decimal (suc rounds) n h = ground (
  arith,
  value-append 0 (48 + n % 10) (decimal rounds (n / 10)),
  value-decimal rounds (n / 10) (omega (arith, pow-suc 10 (suc rounds))),
  value_single n,
)

decimal-IsDigit : (rounds n : ℕ) → All IsDigit (decimal rounds n)
unfolding decimal
decimal-IsDigit zero n = omega arith
decimal-IsDigit (suc rounds) n = elim (Bool-cases (ltb n 10)) [
  | inl small ↦ rw small (omega (tests))
  | inr large ↦ rw large (
      All-append IsDigit (decimal rounds (n / 10)) _ (decimal-IsDigit rounds (n / 10))
        (omega arith))
]

zeros-IsDigit : (k : ℕ) → All IsDigit (replicate k 48)
zeros-IsDigit zero = tt
zeros-IsDigit (suc k) = ((omega arith, omega arith), zeros-IsDigit k)

digits_of : ℕ → Bytes
digits_of id = pad_six (decimal 19 id)

digits_of-IsDigit : (id : ℕ) → All IsDigit (digits_of id)
unfolding digits_of pad_six
digits_of-IsDigit id =
    All-append IsDigit _ (decimal 19 id) (zeros-IsDigit (6 - length (decimal 19 id)))
      (decimal-IsDigit 19 id)

value-digits_of : (id : ℕ) → id < 2 ^ 64 → value 0 (digits_of id) ≡ id
unfolding digits_of pad_six
value-digits_of id fits =
    value-zeros (6 - length (decimal 19 id)) (decimal 19 id) ∙ value-decimal 19 id (omega arith)

le-length-digits_of : (id : ℕ) → 6 ≤ length (digits_of id)
unfolding digits_of pad_six
le-length-digits_of id = omega (
  arith,
  length-append (replicate (6 - length (decimal 19 id)) 48) (decimal 19 id),
  length-replicate {A = ℕ} (6 - length (decimal 19 id)) 48,
)

-- A string of digits is parsed with no sign.
parse_u64-digits :
    (ds : Bytes)
    → All IsDigit ds
    → 0 < length ds
    → value 0 ds < 2 ^ 64
    → parse_u64 ds ≡ some (value 0 ds)
unfolding parse_u64
parse_u64-digits [] h pos fits = elim pos [ ]
parse_u64-digits (c ∷ []) h pos fits = ground (arith, parse_digits-eq-value 0 (c ∷ []) h fits)
parse_u64-digits (c ∷ d ∷ rest) h pos fits =
    ground (arith, parse_digits-eq-value 0 (c ∷ d ∷ rest) h fits)

pack_filename_lem : (id : ℕ) → pack_filename id ≡ prefix ++ (digits_of id ++ suffix)
unfolding digits_of pack_filename
pack_filename_lem id = refl

pub starts_with-append : (front rest : Bytes) → starts_with (front ++ rest) front ≡ true
unfolding starts_with
starts_with-append front rest = rw (take_append front rest) (eq_bytes_refl front)

pub ends_with-append : (rest back : Bytes) → ends_with (rest ++ back) back ≡ true
unfolding ends_with
ends_with-append rest back =
    rw (length-append rest back, cut, drop_append rest back) (ground (arith, eq_bytes_refl back))
  where
    cut : length rest + length back - length back ≡ length rest
    cut = omega arith

middle :
    (ds : Bytes)
    → take (length (prefix ++ (ds ++ suffix)) - 5 - 5) (drop 5 (prefix ++ (ds ++ suffix))) ≡ ds
middle ds = rw cut (take_append ds suffix)
  where
    cut : length (prefix ++ (ds ++ suffix)) - 5 - 5 ≡ length ds
    cut = omega (arith, length-append ds suffix)

framed : (ds : Bytes) → pack_id_of (prefix ++ (ds ++ suffix)) ≡ parse_u64 ds
unfolding pack_id_of
framed ds = rw (starts_with-append prefix (ds ++ suffix), middle ds) (rw ends refl)
  where
    ends : ends_with (prefix ++ (ds ++ suffix)) suffix ≡ true
    ends = rw (← append_assoc prefix ds suffix) (ends_with-append (prefix ++ ds) suffix)

-- The scan of `list_pack_ids` reads back the id from the name of every pack, for every id below
-- 2^64.
pub pack_id_of-pack_filename : (id : ℕ) → id < 2 ^ 64 → pack_id_of (pack_filename id) ≡ some id
pack_id_of-pack_filename id fits =
    rw (pack_filename_lem id, framed (digits_of id)) (rw parsed (ap some (value-digits_of id fits)))
  where
    parsed : parse_u64 (digits_of id) ≡ some (value 0 (digits_of id))
    parsed =
        parse_u64-digits (digits_of id) (digits_of-IsDigit id)
          (omega (arith, le-length-digits_of id)) (omega (arith, value-digits_of id fits))
