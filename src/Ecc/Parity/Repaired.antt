-- ===== src/Ecc/Parity/Repaired.antt =====
-- `compute_parity`, the loss of chunks, and `repair_chunks`.
use backup_shield.Base.{
  ℕ, zero, suc, ◌+◌, ◌<◌, ◌≡◌, refl, sym, ap, ◌∙◌, inl, inr, Bool, true, false, Option, none, some,
  List, [], ◌∷◌, ◌++◌, ◌==◌, leb, get_or, set, get_or-set_ne, get_or-set_self, length, length-set,
  length-replicate, replicate, map, Bytes, All, arith, eq_or_ne,
}
use backup_shield.Base.Result.{ok, ensure, >>=-eq-ok}
use backup_shield.Ecc.Codec.{new_reed_solomon, indices_of, encode}
use backup_shield.Ecc.Parity.{
  ParityManager, invalid_input, new_parity_manager, compute_parity, max_length, place_chunks,
  resize, lift_error, or_empty,
}
use backup_shield.Ecc.Parity.Available.{Absent, lift_error_ok}

-- No index twice.
abbrev pub Distinct : List (ℕ × Bytes) → Type 0
Distinct [] = Unit
Distinct (c ∷ chunks) = Absent c.0 chunks × Distinct chunks

-- Every chunk of the list, at the shard length, is the shard of its index.
abbrev pub Undamaged : ℕ → List Bytes → List (ℕ × Bytes) → Type 0
Undamaged shard_len all chunks =
    All (λ c. (c.0 < length all) × (resize shard_len c.1 ≡ get_or all c.0 [])) chunks

set_count :
    (flags : List Bool) (from i : ℕ)
    → i < length flags
    → get_or flags i false ≡ false
    → length (indices_of true from (set flags i true)) ≡ length (indices_of true from flags) + 1
unfolding indices_of
set_count [] from i small free = absurd (omega arith)
set_count (true ∷ flags) from zero small free = absurd (cc)
set_count (false ∷ flags) from zero small free = omega (arith, shift_count flags (from + 1) from)
  where
    shift_count :
        (flags : List Bool) (a b : ℕ)
        → length (indices_of true a flags) ≡ length (indices_of true b flags)
    shift_count [] a b = refl
    shift_count (true ∷ flags) a b = ap suc (shift_count flags (a + 1) (b + 1))
    shift_count (false ∷ flags) a b = shift_count flags (a + 1) (b + 1)
set_count (true ∷ flags) from (suc i) small free =
    omega (arith, set_count flags (from + 1) i (omega arith) free)
set_count (false ∷ flags) from (suc i) small free = set_count flags (from + 1) i (omega arith) free

module _ (shard_len : ℕ) (all : List Bytes) where
  -- The flagged positions hold the shards, and none is one of the chunks that come later.
  pub record Placed (later : List (ℕ × Bytes)) (shards : List (Option Bytes)) (present : List Bool)
      : Type 0 where
    pub slots : length shards ≡ length all
    pub flag_count : length present ≡ length all
    pub right :
        (i : ℕ) → get_or present i false ≡ true → get_or shards i none ≡ some (get_or all i [])
    pub free : All (λ c. get_or present c.0 false ≡ false) later
    pub distinct : Distinct later
    pub undamaged : Undamaged shard_len all later

  All-free :
      (i : ℕ) (present : List Bool) (later : List (ℕ × Bytes))
      → Absent i later
      → All (λ c. get_or present c.0 false ≡ false) later
      → All (λ c. get_or (set present i true) c.0 false ≡ false) later
  All-free i present [] absent h = tt
  All-free i present (c ∷ later) absent h = (
    get_or-set_ne present i c.0 true false (λ e. absent.0 (sym e)) ∙ h.0,
    All-free i present later absent.1 h.1,
  )

  place_one :
      (i : ℕ) (content : Bytes) (later : List (ℕ × Bytes)) (shards : List (Option Bytes))
      (present : List Bool)
      → Placed ((i, content) ∷ later) shards present
      → Placed later (set shards i (some (resize shard_len content))) (set present i true)
  place_one i content later shards present h = record {
    slots = length-set shards i _ ∙ h.slots;
    flag_count = length-set present i true ∙ h.flag_count;
    right = λ j flagged. elim (eq_or_ne i j) [
      | inl same ↦
          ap (λ t. get_or (set shards i (some (resize shard_len content))) t none) (sym same)
          ∙ (get_or-set_self shards i (some (resize shard_len content)) none
                (omega (arith, h.undamaged.0.0, h.slots))
              ∙ (ap some h.undamaged.0.1 ∙ ap (λ t. some (get_or all t [])) same))
      | inr other ↦
          get_or-set_ne shards i j (some (resize shard_len content)) none other
          ∙ h.right j (sym (get_or-set_ne present i j true false other) ∙ flagged)
    ];
    free = All-free i present later h.distinct.0 h.free.1;
    distinct = h.distinct.1;
    undamaged = h.undamaged.1;
  }

  pub place_chunks-Placed :
      (later : List (ℕ × Bytes)) (shards : List (Option Bytes)) (present : List Bool)
      → Placed later shards present
      → (after : List (Option Bytes)) × (flags : List Bool) × (place_chunks
            (length all)
            shard_len
            later
            shards
            present
          ≡ ok (after, flags))
        × Placed [] after flags
        × (length (indices_of true 0 flags) ≡ length (indices_of true 0 present) + length later)
  unfolding place_chunks
  place_chunks-Placed [] shards present h = (shards, present, refl, h, omega arith)
  place_chunks-Placed ((i, content) ∷ later) shards present h =
      let within : leb (length all) i ≡ false = ground (arith, h.undamaged.0.0) in
      let (after, flags, done, placed, count) =
        place_chunks-Placed later (set shards i (some (resize shard_len content)))
          (set present i true) (place_one i content later shards present h) in
      (
        after,
        flags,
        rw (within) done,
        placed,
        omega (
          arith,
          count,
          set_count present 0 i (omega (arith, h.undamaged.0.0, h.flag_count)) h.free.0,
        ),
      )

get_or-nothing : (n i : ℕ) → get_or (replicate {A = Bool} n false) i false ≡ false
get_or-nothing zero i = refl
get_or-nothing (suc n) zero = refl
get_or-nothing (suc n) (suc i) = get_or-nothing n i

pub nothing_present : (n from : ℕ) → length (indices_of true from (replicate n false)) ≡ 0
unfolding indices_of
nothing_present zero from = refl
nothing_present (suc n) from = nothing_present n (from + 1)

pub none-Placed :
    (shard_len total : ℕ) (all : List Bytes) (available : List (ℕ × Bytes))
    → length all ≡ total
    → Distinct available
    → Undamaged shard_len all available
    → Placed shard_len all available (replicate total none) (replicate total false)
none-Placed shard_len total all available size distinct undamaged = record {
  slots = length-replicate total none ∙ sym size;
  flag_count = length-replicate total false ∙ sym size;
  right = λ i flagged. absurd (cc (get_or-nothing total i, flagged));
  free = all_free available;
  distinct = distinct;
  undamaged = undamaged;
}
  where
    all_free :
        (later : List (ℕ × Bytes))
        → All (λ c. get_or (replicate {A = Bool} total false) c.0 false ≡ false) later
    all_free [] = tt
    all_free (c ∷ later) = (get_or-nothing total c.0, all_free later)

pub or_empty-some : (all : List Bytes) → map or_empty (map some all) ≡ all
or_empty-some [] = refl
or_empty-some (x ∷ all) = ap (◌∷◌ x) (or_empty-some all)

pub manager_parts :
    (n p : ℕ) (pm : ParityManager)
    → new_parity_manager n p ≡ ok pm
    → (new_reed_solomon n p ≡ ok pm.rs) × (pm.data_shards ≡ n) × (pm.parity_shards ≡ p)
unfolding new_parity_manager
manager_parts n p pm made =
    let (rs, lifted, rest) = >>=-eq-ok (lift_error (new_reed_solomon n p)) _ made in
    let same : record { rs = rs; data_shards = n; parity_shards = p } ≡ pm = cc rest in
    (
      lift_error_ok (new_reed_solomon n p) rs lifted ∙ ap (λ t. ok t) (ap (λ m. m.rs) same),
      sym (ap (λ m. m.data_shards) same),
      sym (ap (λ m. m.parity_shards) same),
    )

pub parity_encoded :
    (pm : ParityManager) (chunks parity : List Bytes)
    → compute_parity pm chunks ≡ ok parity
    → encode pm.rs (map (resize (max_length chunks)) chunks) ≡ ok parity
unfolding compute_parity
parity_encoded pm chunks parity done =
    let (u, counted, lifted) =
      >>=-eq-ok (ensure (length chunks == pm.data_shards) invalid_input) _ done in
    lift_error_ok (encode pm.rs (map (resize (max_length chunks)) chunks)) parity lifted

-- The chunks at the length of the longest, and their parity.
abbrev pub stored_shards : List Bytes → List Bytes → List Bytes
stored_shards chunks parity = map (resize (max_length chunks)) chunks ++ parity
