-- ===== src/Ecc/Codec/Filled.antt =====
-- What `reconstruct` does to the shards that are missing.
use backup_shield.Base.{
  ℕ, zero, suc, ◌+◌, ◌<◌, ◌≡◌, ◌⊎◌, sym, ap, subst, ◌∙◌, inl, inr, Bool, true, false, Option, none,
  some, List, [], ◌∷◌, ◌==◌, get_or, set, get_or-set_ne, get_or-set_self, length, length-set,
  length-replicate, take, replicate, Bytes, arith, eq_or_ne,
}
use backup_shield.Base.Result.{Result, ok, err, >>=-eq-ok}
use backup_shield.Ecc.Matrix.{Matrix, InvertError}
use backup_shield.Ecc.Codec.{
  ReedSolomon, indices_of, check_present, fill_missing, fill_data, combine, combine_rows, contents,
  shard_length, not_invertible, recover, reconstruct,
}
use backup_shield.Ecc.Codec.Kept.{fill_data-kept, ok_injective, reconstruct_cases}
use backup_shield.Ecc.Codec.Lengths.{length-combine}

-- The shard at `i` holds `n` bytes.
abbrev pub Holds : ℕ → ℕ → List (Option Bytes) → Type 0
Holds n i shards = (content : Bytes) × (get_or shards i none ≡ some content) × (length content ≡ n)

set-Holds :
    (n i j : ℕ) (shards : List (Option Bytes)) (content : Bytes)
    → length content ≡ n
    → i < length shards
    → (i ≡ j) ⊎ Holds n i shards
    → Holds n i (set shards j (some content))
set-Holds n i j shards content size within before = elim (eq_or_ne i j) [
  | inl same ↦ (
    content,
    ap (λ t. get_or (set shards t (some content)) i none) (sym same)
        ∙ get_or-set_self shards i (some content) none within,
    size,
  )
  | inr other ↦ elim before [
    | inl same ↦ absurd (other same)
    | inr (c, there, fits) ↦
        (c, get_or-set_ne shards j i (some content) none (λ e. other (sym e)) ∙ there, fits)
  ]
]

-- The index is in the list.
abbrev pub Within : ℕ → List ℕ → Type 0
Within i [] = ⊥
Within i (j ∷ js) = (i ≡ j) ⊎ Within i js

pub Within-indices_of :
    (flags : List Bool) (from k : ℕ)
    → k < length flags
    → get_or flags k true ≡ false
    → Within (from + k) (indices_of false from flags)
unfolding indices_of
Within-indices_of [] from k small h = absurd (omega arith)
Within-indices_of (true ∷ flags) from zero small h = absurd (cc)
Within-indices_of (false ∷ flags) from zero small h = inl (omega arith)
Within-indices_of (true ∷ flags) from (suc k) small h =
    subst (λ t. Within t (indices_of false (from + 1) flags)) (omega arith)
      (Within-indices_of flags (from + 1) k (omega arith) h)
Within-indices_of (false ∷ flags) from (suc k) small h = inr (
    subst (λ t. Within t (indices_of false (from + 1) flags)) (omega arith)
      (Within-indices_of flags (from + 1) k (omega arith) h))

fill_missing-Holds :
    (encoding : Matrix) (n : ℕ) (recovered : List Bytes) (missing : List ℕ)
    (shards : List (Option Bytes)) (i : ℕ)
    → i < length shards
    → Within i missing ⊎ Holds n i shards
    → Holds n i (fill_missing encoding n recovered missing shards)
unfolding fill_missing
fill_missing-Holds encoding n recovered [] shards i small (inl w) = absurd w
fill_missing-Holds encoding n recovered [] shards i small (inr held) = held
fill_missing-Holds encoding n recovered (idx ∷ is) shards i small before =
    fill_missing-Holds encoding n recovered is (set shards idx (some made)) i
      (omega (arith, length-set shards idx (some made), small)) (go before)
  where
    made : Bytes
    made = combine encoding idx 0 recovered (replicate n 0)

    size : length made ≡ n
    size = length-combine encoding idx 0 recovered (replicate n 0) ∙ length-replicate n 0

    go :
        Within i (idx ∷ is) ⊎ Holds n i shards
        → Within i is ⊎ Holds n i (set shards idx (some made))
    go (inl (inl same)) = inr (set-Holds n i idx shards made size small (inl same))
    go (inl (inr later)) = inl later
    go (inr held) = inr (set-Holds n i idx shards made size small (inr held))

recover-Holds :
    (rs : ReedSolomon) (shards after : List (Option Bytes)) (flags : List Bool) (i : ℕ)
    → recover rs shards (indices_of true 0 flags) (indices_of false 0 flags) ≡ ok after
    → i < length shards
    → i < length flags
    → get_or flags i true ≡ false
    → Holds (shard_length shards (indices_of true 0 flags)) i after
unfolding recover
recover-Holds rs shards after flags i done small inside h =
    let (u, checked, inverted) = >>=-eq-ok (check_present n shards present) _ done in
    filled _ inverted
  where
    present : List ℕ
    present = indices_of true 0 flags

    missing : List ℕ
    missing = indices_of false 0 flags

    used : List ℕ
    used = take rs.data_shards present

    n : ℕ
    n = shard_length shards present

    filled :
        (r : Result InvertError Matrix)
        → elim r [
          | err e ↦ err (not_invertible e)
          | ok inv ↦
              let recovered = combine_rows inv n rs.data_shards 0 (contents shards used) in
              ok
                (fill_data 0 recovered (fill_missing rs.encoding_matrix n recovered missing shards))
        ]
          ≡ ok after
        → Holds n i after
    filled (err e) t = absurd (cc)
    filled (ok inv) t =
        let recovered = combine_rows inv n rs.data_shards 0 (contents shards used) in
        let (content, there, size) =
          fill_missing-Holds rs.encoding_matrix n recovered missing shards i small (
            inl (
              subst (λ t. Within t missing) (omega arith)
                (Within-indices_of flags 0 i inside h))) in
        (
          content,
          ap (λ x. get_or x i none) (sym (ok_injective _ _ t))
              ∙ fill_data-kept 0 recovered _ i content there,
          size,
        )

pub none-Within : (i : ℕ) (js : List ℕ) → (length js == 0) ≡ true → Within i js → ⊥
none-Within i [] h w = w
none-Within i (j ∷ js) h w = absurd (ground (arith, h))

-- After a `reconstruct` that succeeds, every position that is in range and flagged as missing
-- holds a shard of the length of the first present one.
pub reconstruct-Holds :
    (rs : ReedSolomon) (shards after : List (Option Bytes)) (shard_present : List Bool) (i : ℕ)
    → reconstruct rs shards shard_present ≡ ok after
    → i < length shards
    → i < length shard_present
    → get_or shard_present i true ≡ false
    → Holds (shard_length shards (indices_of true 0 shard_present)) i after
reconstruct-Holds rs shards after shard_present i done small inside missing =
    elim (reconstruct_cases rs shards after shard_present done) [
      | inl (nothing_missing, same) ↦ absurd (
          none-Within (0 + i) _ nothing_missing
            (Within-indices_of shard_present 0 i inside missing))
      | inr recovered ↦ recover-Holds rs shards after shard_present i recovered small inside missing
    ]
