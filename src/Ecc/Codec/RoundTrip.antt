-- ===== src/Ecc/Codec/RoundTrip.antt =====
-- `encode`, the loss of shards, and `reconstruct`.
use backup_shield.Base.{
  ℕ, zero, suc, ◌+◌, ◌≤◌, ◌<◌, ◌≡◌, ◌⊎◌, sym, ap, ◌∙◌, subst, inl, inr, Bool, true, false, Option,
  none, some, List, [], ◌++◌, ◌==◌, ltb, get_or, length, length-take, take, replicate, map, Bytes,
  All, arith, Bool-cases,
}
use backup_shield.Base.Result.{Result-cases, ok, err}
use backup_shield.Ecc.Matrix.{
  Matrix, InvertError, singular, invert, eliminate, eliminate_column, augment,
  build_encoding_matrix,
}
use backup_shield.Ecc.Codec.{
  ReedSolomon, not_invertible, new_reed_solomon, indices_of, shard_length, check_present, contents,
  combine, combine_rows, fill_missing, fill_data, recover, reconstruct, encode, first_length,
}
use backup_shield.Ecc.Codec.Filled.{none-Within}
use backup_shield.Ecc.Codec.Lengths.{combine_rows-OfLength}
use backup_shield.Ecc.Codec.Combine.{list_ext, combine_rows_at}
use backup_shield.Ecc.Codec.Codeword.{Codeword, AreBytes, codec, encode-Codeword}
use backup_shield.Ecc.Codec.Correct.{
  All-take, Intact, check_present-ok, shard_length_lem, selected, recovered_at, selected_square,
}
use backup_shield.Ecc.Codec.Restored.{Right, all-Right, present-Intact, present_or_missing, filled}

eliminate_column_error :
    (n col : ℕ) (aug : Matrix) (e : InvertError)
    → eliminate_column n col aug ≡ err e
    → (c : ℕ) × (e ≡ singular c)
unfolding eliminate_column
eliminate_column_error n col aug e failed = (col, ground arith)

eliminate_error :
    (n rounds col : ℕ) (aug : Matrix) (e : InvertError)
    → eliminate n rounds col aug ≡ err e
    → (c : ℕ) × (e ≡ singular c)
unfolding eliminate
eliminate_error n zero col aug e failed = absurd (cc)
eliminate_error n (suc rounds) col aug e failed = elim (Result-cases (eliminate_column n col aug)) [
  | inl (first, stopped) ↦
      let (c, same) = eliminate_column_error n col aug first stopped in
      (c, cc (rw (stopped, eliminate) at failed, same))
  | inr (next, went) ↦ eliminate_error n rounds (col + 1) next e (rw (went, eliminate) at failed)
]

-- A square matrix fails only by a column without a pivot.
invert_error :
    (m : Matrix) (e : InvertError) → m.rows ≡ m.cols → invert m ≡ err e → (c : ℕ) × (e ≡ singular c)
unfolding invert
invert_error m e square failed =
    let same : (m.rows == m.cols) ≡ true = ground arith in
    elim (Result-cases (eliminate m.rows m.rows 0 (augment m m.rows))) [
      | inl (first, stopped) ↦
          let (c, at) = eliminate_error m.rows m.rows 0 (augment m m.rows) first stopped in
          (c, cc (rw (stopped) at (rw (same, invert) at failed), at))
      | inr (aug, went) ↦ absurd (cc (rw (went) at (rw (same, invert) at failed)))
    ]

module _ (n p size : ℕ) (shards all : List Bytes) (word : Codeword n p size shards all)
    (bytes : AreBytes shards) (damaged : List (Option Bytes)) (flags : List Bool)
    (slots : length damaged ≡ n + p) (flag_count : length flags ≡ n + p)
    (intact : (i : ℕ) → get_or flags i false ≡ true → Right all i damaged) (some_data : 0 < n)
    (enough : n ≤ length (indices_of true 0 flags)) where
  abbrev used : List ℕ
  used = take n (indices_of true 0 flags)

  All-Intact : All (Intact n p size shards all word damaged) (indices_of true 0 flags)
  All-Intact = present-Intact n p size shards all word bytes damaged flags slots flag_count intact

  used_count : length used ≡ n
  used_count = length-take n (indices_of true 0 flags) ∙ omega (arith, enough)

  used-Intact : All (Intact n p size shards all word damaged) used
  used-Intact =
      All-take (Intact n p size shards all word damaged) n (indices_of true 0 flags) All-Intact

  checked : check_present size damaged (indices_of true 0 flags) ≡ ok tt
  checked = check_present-ok n p size shards all word damaged (indices_of true 0 flags) All-Intact

  sized : shard_length damaged (indices_of true 0 flags) ≡ size
  sized =
      shard_length_lem n p size shards all word damaged (indices_of true 0 flags)
        (omega (arith, enough, some_data)) All-Intact

  checked_at_length :
      check_present
        (shard_length damaged (indices_of true 0 flags))
        damaged
        (indices_of true 0 flags)
      ≡ ok tt
  checked_at_length = ap (λ k. check_present k damaged (indices_of true 0 flags)) sized ∙ checked

  recovered_lem :
      (inv : Matrix)
      → invert (selected n p used) ≡ ok inv
      → combine_rows inv size n 0 (contents damaged used) ≡ shards
  recovered_lem inv done =
      list_ext [] (combine_rows inv size n 0 (contents damaged used)) shards (made ∙ sym word.count)
        (λ i small.
          let inside : i < n = omega (arith, small, made) in
          combine_rows_at inv size n 0 i (contents damaged used) inside
          ∙ (ap (λ t. combine inv t 0 (contents damaged used) (replicate size 0)) {x = 0 + i}
                {y = i} (omega arith)
              ∙ recovered_at n p size shards all word damaged bytes used used_count used-Intact inv
                  i done inside))
    where
      made : length (combine_rows inv size n 0 (contents damaged used)) ≡ n
      made = (combine_rows-OfLength inv size n 0 (contents damaged used)).0

  recover-Outcome :
      (recover (codec n p) damaged (indices_of true 0 flags) (indices_of false 0 flags)
        ≡ ok (map some all))
      ⊎ ((c : ℕ) × (recover (codec n p) damaged (indices_of true 0 flags) (indices_of false 0 flags)
            ≡ err (not_invertible (singular c))))
  unfolding recover
  recover-Outcome = elim (Result-cases (invert (selected n p used))) [
    | inl (e, failed) ↦ inr (
        let (c, kind) =
          invert_error (selected n p used) e
            (selected_square n p size shards all word damaged bytes used used_count used-Intact)
            failed in
        (c, rw (checked_at_length, failed, recover) (ap (λ t. err (not_invertible t)) kind)))
    | inr (inv, done) ↦ inl (
        rw (checked_at_length, done, recover)
          (ap
              (λ k. ok (
                fill_data 0 (combine_rows inv k n 0 (contents damaged used)) (
                  fill_missing (build_encoding_matrix n p) k
                    (combine_rows inv k n 0 (contents damaged used)) (indices_of false 0 flags)
                    damaged)))
              sized
            ∙ ap
                (λ r. ok (
                  fill_data 0 r (
                    fill_missing (build_encoding_matrix n p) size r (indices_of false 0 flags)
                      damaged)))
                (recovered_lem inv done)
            ∙ ap ok (filled n p size shards all word bytes damaged flags slots flag_count intact)))
  ]

  reconstruct_outcome :
      (reconstruct (codec n p) damaged flags ≡ ok (map some all))
      ⊎ ((c : ℕ) × (reconstruct (codec n p) damaged flags ≡ err (not_invertible (singular c))))
  unfolding reconstruct
  reconstruct_outcome =
      let counted : (length damaged == n + p) ≡ true = ground arith in
      let flagged : (length flags == n + p) ≡ true = ground arith in
      let data_left : ltb (length (indices_of true 0 flags)) n ≡ false = ground arith in
      elim (Bool-cases (length (indices_of false 0 flags) == 0)) [
        | inl whole ↦ inl (rw (counted, flagged, data_left, whole) (ap ok (nothing_lost whole)))
        | inr lost ↦ rw (counted, flagged, data_left, lost) recover-Outcome
      ]
    where
      nothing_lost : (length (indices_of false 0 flags) == 0) ≡ true → damaged ≡ map some all
      nothing_lost whole = all-Right all damaged (slots ∙ sym word.total) (λ i small.
          elim (present_or_missing n p size shards all word bytes damaged flags slots flag_count
            intact i (omega (arith, small, word.total))) [
              | inl lost ↦ absurd (none-Within i (indices_of false 0 flags) whole lost)
              | inr right ↦ right
            ])

pub new_codec :
    (n p : ℕ) (rs : ReedSolomon) → new_reed_solomon n p ≡ ok rs → (0 < n) × (codec n p ≡ rs)
unfolding new_reed_solomon
new_codec n p rs done = ground arith

-- Let `new` accept the counts, let `encode` return the parity of shards of bytes, and let as many
-- shards as there are data shards at least be flagged as present, each of them unchanged, in
-- lists of the right lengths. Then `reconstruct` returns all the shards that `encode` was given
-- and all that it returned, whatever stands at the other positions, or it fails because a matrix
-- is singular; it fails in no other way.
pub reconstruct-encode :
    (n p : ℕ) (rs : ReedSolomon) (shards parity : List Bytes) (damaged : List (Option Bytes))
    (shard_present : List Bool)
    → new_reed_solomon n p ≡ ok rs
    → AreBytes shards
    → encode rs shards ≡ ok parity
    → length damaged ≡ n + p
    → length shard_present ≡ n + p
    → n ≤ length (indices_of true 0 shard_present)
    → ((i : ℕ)
        → get_or shard_present i false ≡ true
        → get_or damaged i none ≡ some (get_or (shards ++ parity) i []))
    → (reconstruct rs damaged shard_present ≡ ok (map some (shards ++ parity)))
      ⊎ ((c : ℕ) × (reconstruct rs damaged shard_present ≡ err (not_invertible (singular c))))
reconstruct-encode n p rs shards parity damaged flags made bytes encoded slots flag_count enough
      intact =
    let (some_data, same) = new_codec n p rs made in
    subst
      (λ t.
        (reconstruct t damaged flags ≡ ok (map some (shards ++ parity)))
        ⊎ ((c : ℕ) × (reconstruct t damaged flags ≡ err (not_invertible (singular c)))))
      same
      (reconstruct_outcome n p (first_length shards) shards (shards ++ parity)
        (encode-Codeword n p shards bytes parity
          (subst (λ t. encode t shards ≡ ok parity) (sym same) encoded))
        bytes damaged flags slots flag_count intact some_data enough)
