-- ===== src/Ecc/Codec/Codeword.antt =====
-- What `encode` returns, with the shards it was given: every shard is the sum that its row of the
-- encoding matrix gives.
use backup_shield.Base.{
  ℕ, zero, suc, ◌+◌, ◌-◌, ◌≤◌, ◌<◌, ◌≡◌, refl, sym, ap, ◌∙◌, subst, inl, inr, Bool, true, false,
  List, [], ◌∷◌, ◌++◌, ◌==◌, ltb, get_or, length, length-append, replicate, Bytes, arith,
  Bool-cases,
}
use backup_shield.Base.Result.{ok, ensure, >>=-eq-ok}
use backup_shield.Ecc.Field.Laws.{mul, mul_zero}
use backup_shield.Ecc.Field.Sums.{sum, sum_of_one, one_mul}
use backup_shield.Ecc.Matrix.{get, build_encoding_matrix}
use backup_shield.Ecc.Matrix.Encoding.{encoding_entry, build_encoding_matrix-Shows}
use backup_shield.Ecc.Codec.{
  ReedSolomon, CodecError, wrong_shard_count, unequal_lengths, all_of_length, first_length, encode,
}
use backup_shield.Ecc.Codec.Lengths.{OfLength, parity_of, parity_of-OfLength}
use backup_shield.Ecc.Codec.Combine.{combine-sum, combine_rows_at}

-- Every byte of the shards is below 256.
abbrev pub AreBytes : List Bytes → Type 0
AreBytes shards = (j b : ℕ) → get_or (get_or shards j []) b 0 < 256

-- All shards, of the data and of the parity, in the order of the rows of the matrix.
pub record Codeword (n p size : ℕ) (shards all : List Bytes) : Type 0 where
  pub count : length shards ≡ n
  pub total : length all ≡ n + p
  pub first : (r : ℕ) → r < n → get_or all r [] ≡ get_or shards r []
  pub sizes : (r : ℕ) → r < n + p → length (get_or all r []) ≡ size
  pub sums :
      (r b : ℕ)
      → r < n + p
      → b < size
      → get_or (get_or all r []) b 0
        ≡ sum n 0 (λ j. mul (get (build_encoding_matrix n p) r j) (get_or (get_or shards j []) b 0))

get_or-append_left {ℓ} :
    {A : Type ℓ} (xs ys : List A) (i : ℕ) (d : A)
    → i < length xs
    → get_or (xs ++ ys) i d ≡ get_or xs i d
get_or-append_left [] ys i d h = absurd (omega arith)
get_or-append_left (x ∷ xs) ys zero d h = refl
get_or-append_left (x ∷ xs) ys (suc i) d h = get_or-append_left xs ys i d (omega arith)

get_or-append_right {ℓ} :
    {A : Type ℓ} (xs ys : List A) (i : ℕ) (d : A)
    → get_or (xs ++ ys) (length xs + i) d ≡ get_or ys i d
get_or-append_right [] ys i d = ap (λ t. get_or ys t d) (omega arith)
get_or-append_right (x ∷ xs) ys i d =
    ap (λ t. get_or (x ∷ xs ++ ys) t d) {x = suc (length xs) + i} {y = suc (length xs + i)}
      (omega arith)
    ∙ get_or-append_right xs ys i d

OfLength-at :
    (size : ℕ) (shards : List Bytes) (i : ℕ)
    → OfLength size shards
    → i < length shards
    → length (get_or shards i []) ≡ size
OfLength-at size [] i h small = absurd (omega arith)
OfLength-at size (s ∷ shards) zero h small = h.0
OfLength-at size (s ∷ shards) (suc i) h small = OfLength-at size shards i h.1 (omega arith)

all_of_length-OfLength :
    (size : ℕ) (shards : List Bytes) → all_of_length size shards ≡ true → OfLength size shards
unfolding all_of_length
all_of_length-OfLength size [] h = tt
all_of_length-OfLength size (s ∷ shards) h =
    (ground (arith, h), all_of_length-OfLength size shards (ground (arith, h)))

get_or-empty : (k i : ℕ) → get_or {A = Bytes} (replicate k []) i [] ≡ []
get_or-empty zero i = refl
get_or-empty (suc k) zero = refl
get_or-empty (suc k) (suc i) = get_or-empty k i

-- The sum of a row of the identity is the byte of that shard.
identity_sum :
    (n p r : ℕ) (x : ℕ → ℕ)
    → r < n
    → x r < 256
    → sum n 0 (λ j. mul (get (build_encoding_matrix n p) r j) (x j)) ≡ x r
unfolding encoding_entry
identity_sum n p r x small byte =
    let entries = (build_encoding_matrix-Shows n p).entries in
    sum_of_one n 0 r (λ j. mul (get (build_encoding_matrix n p) r j) (x j)) (omega arith)
      (omega arith)
      (λ j low high other.
        mul_zero _ (x j) (entries r j (omega arith) (omega arith) ∙ ground (arith, other, small)))
    ∙ (ap (λ t. mul t (x r)) (entries r r (omega arith) small ∙ ground (arith, small))
        ∙ one_mul (x r) byte)

ensure-true : (test : Bool) (e : CodecError) (u : Unit {0}) → ensure test e ≡ ok u → test ≡ true
ensure-true true e u done = refl
ensure-true false e u done = absurd (cc)

-- What `new` makes of counts that it accepts.
abbrev pub codec : ℕ → ℕ → ReedSolomon
codec n p = record {
  data_shards = n;
  parity_shards = p;
  encoding_matrix = build_encoding_matrix n p;
}

module _ (n p : ℕ) (shards : List Bytes) (bytes : AreBytes shards) where
  Codeword-append :
      (size : ℕ) (parity : List Bytes)
      → length shards ≡ n
      → length parity ≡ p
      → OfLength size shards
      → OfLength size parity
      → ((i b : ℕ)
          → i < p
          → b < size
          → get_or (get_or parity i []) b 0
            ≡ sum n 0 (λ j.
              mul (get (build_encoding_matrix n p) (n + i) j) (get_or (get_or shards j []) b 0)))
      → Codeword n p size shards (shards ++ parity)
  Codeword-append size parity count parity_count same same_parity made = record {
    count = count;
    total = length-append shards parity ∙ omega (arith, count, parity_count);
    first = λ r small. at_left r small;
    sizes = λ r small. elim (Bool-cases (ltb r n)) [
      | inl low ↦
          ap length (at_left r (ground (arith, low)))
          ∙ OfLength-at size shards r same (ground (arith, low, count))
      | inr high ↦
          ap length (at_right r (ground (arith, high)))
          ∙ OfLength-at size parity (r - n) same_parity (ground (arith, high, parity_count))
    ];
    sums = λ r b small inside. elim (Bool-cases (ltb r n)) [
      | inl low ↦
          ap (λ t. get_or t b 0) (at_left r (ground (arith, low)))
          ∙ sym (
              identity_sum n p r (λ j. get_or (get_or shards j []) b 0) (ground (arith, low))
                (bytes r b))
      | inr high ↦
          ap (λ t. get_or t b 0) (at_right r (ground (arith, high)))
          ∙ (made (r - n) b (ground (arith, high)) inside
              ∙ ap
                  (λ t. sum n 0 (λ j.
                    mul (get (build_encoding_matrix n p) t j) (get_or (get_or shards j []) b 0)))
                  {x = n + (r - n)} {y = r} (ground (arith, high)))
    ];
  }
    where
      at_left : (r : ℕ) → r < n → get_or (shards ++ parity) r [] ≡ get_or shards r []
      at_left r small = get_or-append_left shards parity r [] (omega (arith, count))

      at_right : (r : ℕ) → n ≤ r → get_or (shards ++ parity) r [] ≡ get_or parity (r - n) []
      at_right r large =
          ap (λ t. get_or (shards ++ parity) t []) {x = r} {y = length shards + (r - n)}
            (omega (arith, count))
          ∙ get_or-append_right shards parity (r - n) []

  encode_parts :
      (parity : List Bytes)
      → encode (codec n p) shards ≡ ok parity
      → (length shards ≡ n)
        × OfLength (first_length shards) shards
        × (parity_of (codec n p) shards ≡ parity)
  unfolding encode
  encode_parts parity done =
      let (u, right_count, aligned) =
        >>=-eq-ok (ensure (length shards == n) wrong_shard_count) _ done in
      let (v, same, made) =
        >>=-eq-ok (ensure (all_of_length (first_length shards) shards) unequal_lengths) _ aligned in
      (
        ground (arith, ensure-true _ _ _ right_count),
        all_of_length-OfLength (first_length shards) shards (ensure-true _ _ _ same),
        cc,
      )

  pub encode-Codeword :
      (parity : List Bytes)
      → encode (codec n p) shards ≡ ok parity
      → Codeword n p (first_length shards) shards (shards ++ parity)
  encode-Codeword parity done =
      let (count, same, made) = encode_parts parity done in
      let (parity_count, same_parity) = parity_of-OfLength (codec n p) shards in
      subst (λ t. Codeword n p (first_length shards) shards (shards ++ t)) made
        (Codeword-append (first_length shards) (parity_of (codec n p) shards) count parity_count
          same same_parity (parity_sum count))
    where
      parity_sum :
          length shards ≡ n
          → (i b : ℕ) → i < p
          → b < first_length shards
          → get_or (get_or (parity_of (codec n p) shards) i []) b 0
            ≡ sum n 0 (λ j.
              mul (get (build_encoding_matrix n p) (n + i) j) (get_or (get_or shards j []) b 0))
      parity_sum count i b small inside =
          let full : (first_length shards == 0) ≡ false = ground arith in
          rw full (
            ap (λ t. get_or t b 0)
              (combine_rows_at (build_encoding_matrix n p) (first_length shards) p n i shards small)
            ∙ combine-sum (build_encoding_matrix n p) (n + i) n (first_length shards) b shards count
                inside)
