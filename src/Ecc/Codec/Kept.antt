-- ===== src/Ecc/Codec/Kept.antt =====
-- What `reconstruct` does to the shards that are present.
use backup_shield.Base.{
  ℕ, zero, suc, ◌+◌, ◌<◌, ◌≡◌, ◌≢◌, ◌⊎◌, refl, sym, ap, subst, ◌∙◌, inl, inr, Bool, true, false,
  Option, none, some, List, [], ◌∷◌, ◌==◌, get_or, set, get_or-set_ne, length, take, Bytes, All,
  arith, Bool-cases, Option-cases,
}
use backup_shield.Base.Result.{Result, ok, err, >>=-eq-ok}
use backup_shield.Ecc.Matrix.{Matrix, InvertError}
use backup_shield.Ecc.Codec.{
  ReedSolomon, CodecError, indices_of, check_present, fill_missing, fill_data, combine_rows,
  contents, shard_length, not_invertible, recover, reconstruct,
}

not_missing :
    (flags : List Bool) (i k : ℕ)
    → get_or flags k false ≡ true
    → All (λ j. j ≢ i + k) (indices_of false i flags)
unfolding indices_of
not_missing [] i k h = tt
not_missing (true ∷ flags) i zero h = later flags i (i + 1) (omega arith)
  where
    later :
        (flags : List Bool) (i from : ℕ)
        → i < from
        → All (λ j. j ≢ i + 0) (indices_of false from flags)
    later [] i from h = tt
    later (true ∷ flags) i from h = later flags i (from + 1) (omega arith)
    later (false ∷ flags) i from h =
        ((λ e. omega (arith, e)), later flags i (from + 1) (omega arith))
not_missing (false ∷ flags) i zero h = absurd (cc)
not_missing (true ∷ flags) i (suc k) h =
    subst (λ t. All (λ j. j ≢ t) (indices_of false (i + 1) flags)) (omega arith)
      (not_missing flags (i + 1) k h)
not_missing (false ∷ flags) i (suc k) h = (
  (λ e. omega (arith, e)),
  subst (λ t. All (λ j. j ≢ t) (indices_of false (i + 1) flags)) (omega arith)
      (not_missing flags (i + 1) k h),
)

first_checked :
    (shards : List (Option Bytes)) (n i : ℕ) (is : List ℕ)
    → check_present n shards (i ∷ is) ≡ ok tt
    → (content : Bytes) × (get_or shards i none ≡ some content)
      × (length content ≡ n)
      × (check_present n shards is ≡ ok tt)
unfolding check_present
first_checked shards n i is checked = elim (Option-cases (get_or shards i none)) [
  | inl absent ↦ absurd (ground arith)
  | inr (content, there) ↦
      let after = rw (there, check_present) at checked in
      elim (Bool-cases (length content == n)) [
        | inl same ↦ (content, there, ground (arith, same), ground (arith, same, after))
        | inr other ↦ absurd (ground (arith, other, after))
      ]
]

present_has_data :
    (shards : List (Option Bytes)) (shard_len : ℕ) (flags : List Bool) (i k : ℕ)
    → check_present shard_len shards (indices_of true i flags) ≡ ok tt
    → get_or flags k false ≡ true
    → (content : Bytes) × (get_or shards (i + k) none ≡ some content) × (length content ≡ shard_len)
unfolding indices_of check_present
present_has_data shards n [] i k checked h = absurd (cc)
present_has_data shards n (true ∷ flags) i zero checked h =
    let (content, there, size, rest) =
      first_checked shards n i (indices_of true (i + 1) flags) checked in
    (content, ap (λ t. get_or shards t none) (omega arith) ∙ there, size)
present_has_data shards n (true ∷ flags) i (suc k) checked h =
    let (c, there, size, rest) = first_checked shards n i (indices_of true (i + 1) flags) checked in
    let (content, found, fits) = present_has_data shards n flags (i + 1) k rest h in
    (content, ap (λ t. get_or shards t none) (omega arith) ∙ found, fits)
present_has_data shards n (false ∷ flags) i zero checked h = absurd (cc)
present_has_data shards n (false ∷ flags) i (suc k) checked h =
    let (content, found, fits) = present_has_data shards n flags (i + 1) k checked h in
    (content, ap (λ t. get_or shards t none) (omega arith) ∙ found, fits)

fill_missing-kept :
    (encoding : Matrix) (shard_len : ℕ) (recovered : List Bytes) (missing : List ℕ)
    (shards : List (Option Bytes)) (i : ℕ)
    → All (λ j. j ≢ i) missing
    → get_or (fill_missing encoding shard_len recovered missing shards) i none
      ≡ get_or shards i none
unfolding fill_missing
fill_missing-kept encoding n recovered [] shards i h = refl
fill_missing-kept encoding n recovered (idx ∷ is) shards i h =
    fill_missing-kept encoding n recovered is _ i h.1 ∙ get_or-set_ne shards idx i _ none h.0

pub fill_data-kept :
    (d : ℕ) (recovered : List Bytes) (shards : List (Option Bytes)) (i : ℕ) (content : Bytes)
    → get_or shards i none ≡ some content
    → get_or (fill_data d recovered shards) i none ≡ some content
unfolding fill_data
fill_data-kept d [] shards i content h = h
fill_data-kept d (r ∷ later) shards i content h = elim (Option-cases (get_or shards d none)) [
  | inr (c, there) ↦ rw (there, fill_data) (fill_data-kept (d + 1) later shards i content h)
  | inl absent ↦
      let other : d ≢ i = λ e. absurd (cc (sym absent ∙ (ap (λ t. get_or shards t none) e ∙ h))) in
      rw (absent, fill_data)
        (fill_data-kept (d + 1) later (set shards d (some r)) i content
          (get_or-set_ne shards d i (some r) none other ∙ h))
]

pub ok_injective :
    (xs ys : List (Option Bytes))
    → ◌≡◌ {A = Result CodecError (List (Option Bytes))} (ok xs) (ok ys)
    → xs ≡ ys
ok_injective xs ys e = cc

recover-kept :
    (rs : ReedSolomon) (shards after : List (Option Bytes)) (flags : List Bool) (i : ℕ)
    → recover rs shards (indices_of true 0 flags) (indices_of false 0 flags) ≡ ok after
    → get_or flags i false ≡ true
    → get_or after i none ≡ get_or shards i none
unfolding recover
recover-kept rs shards after flags i done h =
    let (u, checked, inverted) =
      >>=-eq-ok (check_present (shard_length shards present) shards present) _ done in
    let (content, there, size) =
      present_has_data shards (shard_length shards present) flags 0 i checked h in
    filled _ content (ap (λ t. get_or shards t none) (omega arith) ∙ there) inverted
  where
    present : List ℕ
    present = indices_of true 0 flags

    missing : List ℕ
    missing = indices_of false 0 flags

    used : List ℕ
    used = take rs.data_shards present

    filled :
        (r : Result InvertError Matrix) (content : Bytes)
        → get_or shards i none ≡ some content
        → elim r [
          | err e ↦ err (not_invertible e)
          | ok inv ↦
              let recovered =
                combine_rows inv
                  (shard_length shards present)
                  rs.data_shards
                  0
                  (contents shards used) in
              ok (
                fill_data 0 recovered (
                  fill_missing rs.encoding_matrix
                    (shard_length shards present)
                    recovered
                    missing
                    shards))
        ]
          ≡ ok after
        → get_or after i none ≡ get_or shards i none
    filled (err e) content there t = absurd (cc)
    filled (ok inv) content there t =
        let recovered =
          combine_rows inv (shard_length shards present) rs.data_shards 0 (contents shards used) in
        let through = fill_data-kept 0 recovered _ i content (
          fill_missing-kept rs.encoding_matrix (shard_length shards present) recovered missing
            shards i (subst (λ t. All (λ j. j ≢ t) missing) (omega arith) (not_missing flags 0 i h))
          ∙ there) in
        ap (λ x. get_or x i none) (sym (ok_injective _ _ t)) ∙ (through ∙ sym there)

-- A reconstruction that succeeds had nothing to do, or recovered the missing shards.
pub reconstruct_cases :
    (rs : ReedSolomon) (shards after : List (Option Bytes)) (flags : List Bool)
    → reconstruct rs shards flags ≡ ok after
    → (((length (indices_of false 0 flags) == 0) ≡ true) × (shards ≡ after))
      ⊎ (recover rs shards (indices_of true 0 flags) (indices_of false 0 flags) ≡ ok after)
unfolding reconstruct
reconstruct_cases rs shards after flags done = ground arith

-- A `reconstruct` that succeeds leaves every shard that is flagged as present as it was.
pub reconstruct-kept :
    (rs : ReedSolomon) (shards after : List (Option Bytes)) (shard_present : List Bool) (i : ℕ)
    → reconstruct rs shards shard_present ≡ ok after
    → get_or shard_present i false ≡ true
    → get_or after i none ≡ get_or shards i none
reconstruct-kept rs shards after shard_present i done h =
    elim (reconstruct_cases rs shards after shard_present done) [
      | inl (nothing_missing, same) ↦ ap (λ t. get_or t i none) (sym same)
      | inr recovered ↦ recover-kept rs shards after shard_present i recovered h
    ]
