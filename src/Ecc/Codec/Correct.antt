-- ===== src/Ecc/Codec/Correct.antt =====
-- `reconstruct` on what is left of the shards of `encode`.
use backup_shield.Base.{
  ℕ, zero, suc, ◌+◌, ◌-◌, ◌≤◌, ◌<◌, ◌≡◌, refl, sym, ap, ◌∙◌, subst, inl, inr, Bool, true, false,
  Option, none, some, List, [], ◌∷◌, ◌==◌, ltb, if◌then◌else◌, get_or, length, take, replicate,
  Bytes, All, arith, Bool-cases,
}
use backup_shield.Base.Result.{ok}
use backup_shield.Ecc.Field.Laws.{mul}
use backup_shield.Ecc.Field.Sums.{sum, sum_congruent, sum_byte, mul_byte}
use backup_shield.Ecc.Matrix.{Matrix, new_matrix, get, invert, build_encoding_matrix}
use backup_shield.Ecc.Matrix.Cells.{Shows, Shows-congruent, new_matrix-Shows}
use backup_shield.Ecc.Matrix.Loops.{row_loop-Shows, row_changed}
use backup_shield.Ecc.Matrix.Encoding.{encoding_entry_byte, build_encoding_matrix-Shows}
use backup_shield.Ecc.Matrix.Inverse.{invert_solves}
use backup_shield.Ecc.Codec.{indices_of, shard_length, check_present, sub_matrix, contents, combine}
use backup_shield.Ecc.Codec.Combine.{combine_unique}
use backup_shield.Ecc.Codec.Codeword.{Codeword, AreBytes}

-- The rows of `sub_matrix` are those of the indices.
sub_matrix-Shows :
    (encoding : Matrix) (n out_row : ℕ) (rows : List ℕ) (f : ℕ → ℕ → ℕ) (m : Matrix)
    → out_row + length rows ≡ n
    → Shows n n f m
    → Shows n n
        (λ r c. if ltb r out_row then f r c else get encoding (get_or rows (r - out_row) 0) c)
        (sub_matrix encoding n out_row rows m)
unfolding sub_matrix
sub_matrix-Shows encoding n out_row [] f m count s =
    Shows-congruent n n f _ m s (λ r c below inside. ground arith)
sub_matrix-Shows encoding n out_row (src ∷ rows) f m count s =
    Shows-congruent n n _ _ _
      (sub_matrix-Shows encoding n (out_row + 1) rows (row_changed n out_row (get encoding src) f) _
        (omega arith)
        (row_loop-Shows n n n out_row (get encoding src) (λ col m. get encoding src col) f m
          (omega arith) (omega arith) (λ j m small before. refl) s))
      (λ r c below inside. ground (
        arith,
        ap (λ t. get encoding (get_or (src ∷ rows) t 0) c) {x = r - out_row} {y = 0},
        ap (λ t. get encoding (get_or (src ∷ rows) t 0) c) {x = r - out_row}
            {y = suc (r - (out_row + 1))},
      ))

pub All-take {ℓ κ} :
    {A : Type ℓ} (P : A → Type κ) (k : ℕ) (xs : List A) → All P xs → All P (take k xs)
All-take P zero xs h = tt
All-take P (suc k) [] h = tt
All-take P (suc k) (x ∷ xs) h = (h.0, All-take P k xs h.1)

get_or_out {ℓ} : {A : Type ℓ} (xs : List A) (i : ℕ) (d : A) → length xs ≤ i → get_or xs i d ≡ d
get_or_out [] i d h = refl
get_or_out (x ∷ xs) zero d h = absurd (omega arith)
get_or_out (x ∷ xs) (suc i) d h = get_or_out xs i d (omega arith)

All_at {κ} : (P : ℕ → Type κ) (xs : List ℕ) (k : ℕ) → All P xs → k < length xs → P (get_or xs k 0)
All_at P [] k h small = absurd (omega arith)
All_at P (x ∷ xs) zero h small = h.0
All_at P (x ∷ xs) (suc k) h small = All_at P xs k h.1 (omega arith)

pub indices_of-All {κ} :
    (P : ℕ → Type κ) (flags : List Bool) (from : ℕ)
    → ((k : ℕ) → k < length flags → get_or flags k false ≡ true → P (from + k))
    → All P (indices_of true from flags)
unfolding indices_of
indices_of-All P [] from h = tt
indices_of-All P (true ∷ flags) from h = (
  subst P (omega arith) (h 0 (omega arith) refl),
  indices_of-All P flags (from + 1)
      (λ k small flagged. subst P (omega arith) (h (suc k) (omega arith) flagged)),
)
indices_of-All P (false ∷ flags) from h =
    indices_of-All P flags (from + 1)
      (λ k small flagged. subst P (omega arith) (h (suc k) (omega arith) flagged))

-- The matrix whose inverse is taken.
abbrev pub selected : ℕ → ℕ → List ℕ → Matrix
selected n p used = sub_matrix (build_encoding_matrix n p) n 0 used (new_matrix n n)

module _ (n p size : ℕ) (shards all : List Bytes) (word : Codeword n p size shards all)
    (damaged : List (Option Bytes)) where
  -- The shard is in the list, unchanged.
  abbrev pub Intact : ℕ → Type 0
  Intact i = (i < n + p) × (get_or damaged i none ≡ some (get_or all i []))

  pub check_present-ok : (is : List ℕ) → All Intact is → check_present size damaged is ≡ ok tt
  unfolding check_present
  check_present-ok [] h = refl
  check_present-ok (i ∷ is) h =
      let fits : (length (get_or all i []) == size) ≡ true = ground (arith, word.sizes i h.0.0) in
      rw (h.0.1, check_present) (rw fits (check_present-ok is h.1))

  pub shard_length_lem :
      (is : List ℕ) → 0 < length is → All Intact is → shard_length damaged is ≡ size
  unfolding shard_length
  shard_length_lem [] some_left h = absurd (omega arith)
  shard_length_lem (i ∷ is) some_left h = rw (h.0.1, shard_length) (word.sizes i h.0.0)

  contents_at :
      (is : List ℕ) (k : ℕ)
      → All Intact is
      → k < length is
      → get_or (contents damaged is) k [] ≡ get_or all (get_or is k 0) []
  unfolding contents
  contents_at [] k h small = absurd (omega arith)
  contents_at (i ∷ is) zero h small = rw (h.0.1) refl
  contents_at (i ∷ is) (suc k) h small = contents_at is k h.1 (omega arith)

  pub length-contents : (is : List ℕ) → length (contents damaged is) ≡ length is
  unfolding contents
  length-contents [] = refl
  length-contents (i ∷ is) = ap suc (length-contents is)

  module _ (bytes : AreBytes shards) (used : List ℕ) (used_count : length used ≡ n)
      (used-Intact : All Intact used) where
    selected_entry :
        (r c : ℕ)
        → r < n
        → c < n
        → get (selected n p used) r c ≡ get (build_encoding_matrix n p) (get_or used r 0) c
    selected_entry r c below inside =
        (sub_matrix-Shows (build_encoding_matrix n p) n 0 used (λ r c. 0) _
            (omega (arith, used_count)) (new_matrix-Shows n n)).entries
          r c below inside
        ∙ ground (
          arith,
          ap (λ t. get (build_encoding_matrix n p) (get_or used t 0) c) {x = r - 0} {y = r},
        )

    row_in_range : (r : ℕ) → r < n → get_or used r 0 < n + p
    row_in_range r below = (All_at Intact used r used-Intact (omega (arith, used_count))).0

    selected_bytes : (r c : ℕ) → r < n → c < n → get (selected n p used) r c < 256
    selected_bytes r c below inside =
        subst (λ t. t < 256)
          (sym (
            selected_entry r c below inside
            ∙ (build_encoding_matrix-Shows n p).entries (get_or used r 0) c (row_in_range r below)
                inside))
          (encoding_entry_byte n (get_or used r 0) c)

    used_bytes : (b j : ℕ) → b < size → get_or (get_or (contents damaged used) j []) b 0 < 256
    used_bytes b j inside = elim (Bool-cases (ltb j n)) [
      | inl low ↦
          let small : j < n = ground (arith, low) in
          subst (λ t. t < 256)
            (sym (
              ap (λ t. get_or t b 0)
                (contents_at used j used-Intact (omega (arith, small, used_count)))
              ∙ word.sums (get_or used j 0) b (row_in_range j small) inside))
            (sum_byte n 0 _ (λ k. mul_byte _ _))
      | inr high ↦
          subst (λ t. t < 256)
            (sym (
              ap (λ t. get_or t b 0)
                (get_or_out (contents damaged used) j []
                  (ground (arith, high, used_count, length-contents used)))))
            (omega arith)
    ]

    pub selected_tall : (selected n p used).rows ≡ n
    selected_tall =
        (sub_matrix-Shows (build_encoding_matrix n p) n 0 used (λ r c. 0) _
          (omega (arith, used_count)) (new_matrix-Shows n n)).as_tall

    pub selected_square : (selected n p used).rows ≡ (selected n p used).cols
    selected_square =
        selected_tall
        ∙ sym (
            (sub_matrix-Shows (build_encoding_matrix n p) n 0 used (λ r c. 0) _
              (omega (arith, used_count)) (new_matrix-Shows n n)).as_wide)

    row_solved :
        (b r : ℕ)
        → b < size
        → r < n
        → sum n 0 (λ j. mul (get (selected n p used) r j) (get_or (get_or shards j []) b 0))
          ≡ get_or (get_or (contents damaged used) r []) b 0
    row_solved b r inside small =
        sum_congruent n 0 _
          (λ j.
            mul (get (build_encoding_matrix n p) (get_or used r 0) j)
              (get_or (get_or shards j []) b 0))
          (λ j low high.
            ap (λ t. mul t (get_or (get_or shards j []) b 0))
              (selected_entry r j small (omega arith)))
        ∙ (sym (word.sums (get_or used r 0) b (row_in_range r small) inside)
            ∙ sym (
                ap (λ t. get_or t b 0)
                  (contents_at used r used-Intact (omega (arith, small, used_count)))))

    -- What the inverse makes of the used shards.
    pub recovered_at :
        (inv : Matrix) (d : ℕ)
        → invert (selected n p used) ≡ ok inv
        → d < n
        → combine inv d 0 (contents damaged used) (replicate size 0) ≡ get_or shards d []
    recovered_at inv d done below =
        combine_unique inv d n size (contents damaged used) (get_or shards d [])
          (length-contents used ∙ used_count)
          (ap length (sym (word.first d below)) ∙ word.sizes d (omega arith))
          (λ b inside. sym (
            invert_solves n (selected n p used) inv (λ j. get_or (get_or shards j []) b 0)
              (λ j. get_or (get_or (contents damaged used) j []) b 0) selected_tall selected_bytes
              (λ j. bytes j b) (λ j. used_bytes b j inside) (λ r small. row_solved b r inside small)
              done d below))
