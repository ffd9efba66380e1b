-- ===== src/Ecc/Codec/Restored.antt =====
-- `reconstruct` undoes the loss of shards that `encode` has protected.
use backup_shield.Base.{
  ℕ, zero, suc, ◌+◌, ◌≤◌, ◌<◌, ◌≡◌, ◌⊎◌, refl, sym, ap, ◌∙◌, subst, inl, inr, Bool, true, false,
  Option, none, some, List, [], ◌∷◌, get_or, set, get_or-set_ne, get_or-set_self, length,
  length-set, replicate, map, Bytes, All, arith, Bool-cases, Option-cases, eq_or_ne,
}
use backup_shield.Ecc.Matrix.{Matrix, build_encoding_matrix}
use backup_shield.Ecc.Codec.{indices_of, combine, fill_missing, fill_data}
use backup_shield.Ecc.Codec.Kept.{fill_data-kept}
use backup_shield.Ecc.Codec.Filled.{Within, Within-indices_of}
use backup_shield.Ecc.Codec.Combine.{list_ext, combine_unique}
use backup_shield.Ecc.Codec.Codeword.{Codeword, AreBytes}
use backup_shield.Ecc.Codec.Correct.{indices_of-All, Intact}

pub missing_in_range :
    (total : ℕ) (flags : List Bool) (from : ℕ)
    → from + length flags ≤ total
    → All (λ j. j < total) (indices_of false from flags)
unfolding indices_of
missing_in_range total [] from h = tt
missing_in_range total (true ∷ flags) from h = missing_in_range total flags (from + 1) (omega arith)
missing_in_range total (false ∷ flags) from h =
    (omega arith, missing_in_range total flags (from + 1) (omega arith))

length-fill_missing :
    (encoding : Matrix) (size : ℕ) (recovered : List Bytes) (missing : List ℕ)
    (shards : List (Option Bytes))
    → length (fill_missing encoding size recovered missing shards) ≡ length shards
unfolding fill_missing
length-fill_missing encoding size recovered [] shards = refl
length-fill_missing encoding size recovered (idx ∷ is) shards =
    length-fill_missing encoding size recovered is _ ∙ length-set shards idx _

length-fill_data :
    (d : ℕ) (recovered : List Bytes) (shards : List (Option Bytes))
    → length (fill_data d recovered shards) ≡ length shards
unfolding fill_data
length-fill_data d [] shards = refl
length-fill_data d (r ∷ later) shards = elim (Option-cases (get_or shards d none)) [
  | inl absent ↦
      rw (absent, fill_data) (length-fill_data (d + 1) later _ ∙ length-set shards d (some r))
  | inr (content, there) ↦ rw (there, fill_data) (length-fill_data (d + 1) later shards)
]

get_or-map-some :
    (all : List Bytes) (i : ℕ)
    → i < length all
    → get_or (map some all) i none ≡ some (get_or all i [])
get_or-map-some [] i h = absurd (omega arith)
get_or-map-some (x ∷ all) zero h = refl
get_or-map-some (x ∷ all) (suc i) h = get_or-map-some all i (omega arith)

length-map-some : (all : List Bytes) → length (map {B = Option Bytes} some all) ≡ length all
length-map-some [] = refl
length-map-some (x ∷ all) = ap suc (length-map-some all)

flag_default :
    (flags : List Bool) (i : ℕ) → i < length flags → get_or flags i false ≡ get_or flags i true
flag_default [] i h = absurd (omega arith)
flag_default (flag ∷ flags) zero h = refl
flag_default (flag ∷ flags) (suc i) h = flag_default flags i (omega arith)

-- The shard at `i` is the one of the list.
abbrev pub Right : List Bytes → ℕ → List (Option Bytes) → Type 0
Right all i shards = get_or shards i none ≡ some (get_or all i [])

pub all-Right :
    (all : List Bytes) (shards : List (Option Bytes))
    → length shards ≡ length all
    → ((i : ℕ) → i < length all → Right all i shards)
    → shards ≡ map some all
all-Right all shards size h =
    list_ext none shards (map some all) (size ∙ sym (length-map-some all)) (λ i small.
      h i (omega (arith, small, size)) ∙ sym (get_or-map-some all i (omega (arith, small, size))))

module _ (n p size : ℕ) (shards all : List Bytes) (word : Codeword n p size shards all) where
  made_right :
      (idx : ℕ)
      → idx < n + p
      → combine (build_encoding_matrix n p) idx 0 shards (replicate size 0) ≡ get_or all idx []
  made_right idx small =
      combine_unique (build_encoding_matrix n p) idx n size shards (get_or all idx []) word.count
        (word.sizes idx small) (λ b inside. word.sums idx b small inside)

  set-Right :
      (idx i : ℕ) (now : List (Option Bytes))
      → idx < n + p
      → i < length now
      → (i ≡ idx) ⊎ Right all i now
      → Right all i
          (set now idx (some (combine (build_encoding_matrix n p) idx 0 shards (replicate size 0))))
  set-Right idx i now small inside before = elim (eq_or_ne i idx) [
    | inl same ↦
        ap
          (λ t.
            get_or
              (set now t
                (some (combine (build_encoding_matrix n p) idx 0 shards (replicate size 0))))
              i none)
          (sym same)
        ∙ (get_or-set_self now i _ none inside
            ∙ ap some (made_right idx small ∙ ap (λ t. get_or all t []) (sym same)))
    | inr other ↦ elim before [
      | inl same ↦ absurd (other same)
      | inr held ↦ get_or-set_ne now idx i _ none (λ e. other (sym e)) ∙ held
    ]
  ]

  fill_missing-Right :
      (missing : List ℕ) (now : List (Option Bytes)) (i : ℕ)
      → All (λ j. j < n + p) missing
      → i < length now
      → Within i missing ⊎ Right all i now
      → Right all i (fill_missing (build_encoding_matrix n p) size shards missing now)
  unfolding fill_missing
  fill_missing-Right [] now i range small (inl w) = absurd w
  fill_missing-Right [] now i range small (inr held) = held
  fill_missing-Right (idx ∷ is) now i range small before =
      fill_missing-Right is (set now idx made) i range.1
        (omega (arith, length-set now idx made, small)) (go before)
    where
      made : Option Bytes
      made = some (combine (build_encoding_matrix n p) idx 0 shards (replicate size 0))

      go : Within i (idx ∷ is) ⊎ Right all i now → Within i is ⊎ Right all i (set now idx made)
      go (inl (inl same)) = inr (set-Right idx i now range.0 small (inl same))
      go (inl (inr later)) = inl later
      go (inr held) = inr (set-Right idx i now range.0 small (inr held))

  module _ (bytes : AreBytes shards) (damaged : List (Option Bytes)) (flags : List Bool)
      (slots : length damaged ≡ n + p) (flag_count : length flags ≡ n + p)
      (intact : (i : ℕ) → get_or flags i false ≡ true → Right all i damaged) where
    pub present-Intact : All (Intact n p size shards all word damaged) (indices_of true 0 flags)
    present-Intact =
        indices_of-All (Intact n p size shards all word damaged) flags 0 (λ k small flagged. (
          omega (arith, flag_count, small),
          subst (λ t. Right all t damaged) (omega arith) (intact k flagged),
        ))

    pub present_or_missing :
        (i : ℕ) → i < n + p → Within i (indices_of false 0 flags) ⊎ Right all i damaged
    present_or_missing i small = elim (Bool-cases (get_or flags i true)) [
      | inl flagged ↦
          inr (intact i (flag_default flags i (omega (arith, small, flag_count)) ∙ flagged))
      | inr lost ↦ inl (
          subst (λ t. Within t (indices_of false 0 flags)) (omega arith)
            (Within-indices_of flags 0 i (omega (arith, flag_count)) lost))
    ]

    pub filled :
        fill_data 0 shards
          (fill_missing (build_encoding_matrix n p) size shards (indices_of false 0 flags) damaged)
        ≡ map some all
    filled =
        all-Right all _
          (length-fill_data 0 shards _
            ∙ (length-fill_missing (build_encoding_matrix n p) size shards
                  (indices_of false 0 flags) damaged
                ∙ (slots ∙ sym word.total)))
          (λ i small. fill_data-kept 0 shards _ i (get_or all i []) (
            fill_missing-Right (indices_of false 0 flags) damaged i
              (missing_in_range (n + p) flags 0 (omega (arith, flag_count)))
              (omega (arith, small, slots, word.total))
              (present_or_missing i (omega (arith, small, word.total)))))
