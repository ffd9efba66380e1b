-- ===== src/Ecc/Parity/Available.antt =====
-- What `repair_chunks` returns for the chunks that were available.
use backup_shield.Base.{
  ℕ, zero, suc, ◌+◌, ◌≡◌, ◌≢◌, refl, sym, ap, ◌∙◌, inl, inr, Bool, true, false, Option, none, some,
  List, [], ◌∷◌, ◌++◌, ◌==◌, leb, get_or, set, get_or-set_ne, get_or-set_self, length, length-set,
  length-replicate, replicate, map, Bytes, All, arith, Bool-cases,
}
use backup_shield.Base.Result.{Result, ok, err, ensure, >>=-eq-ok}
use backup_shield.Ecc.Codec.{CodecError, reconstruct}
use backup_shield.Ecc.Codec.Kept.{reconstruct-kept}
use backup_shield.Ecc.Parity.{
  ParityManager, invalid_input, place_chunks, resize, repair_chunks, lift_error, or_empty,
}

-- The index `i` is not among those of the list.
abbrev pub Absent : ℕ → List (ℕ × Bytes) → Type 0
Absent i chunks = All (λ c. c.0 ≢ i) chunks

module _ (total shard_len : ℕ) where
  -- What the loop leaves at `i` when no later chunk has that index.
  place_chunks-kept :
      (later : List (ℕ × Bytes)) (shards after : List (Option Bytes)) (present flags : List Bool)
      (i : ℕ)
      → place_chunks total shard_len later shards present ≡ ok (after, flags)
      → Absent i later
      → (get_or after i none ≡ get_or shards i none)
        × (get_or flags i false ≡ get_or present i false)
  unfolding place_chunks
  place_chunks-kept [] shards after present flags i e h = (cc, cc)
  place_chunks-kept ((idx, content) ∷ later) shards after present flags i e h =
      elim (Bool-cases (leb total idx)) [
        | inl out ↦ absurd (ground (arith, out, e))
        | inr within ↦
            let rest = rw (within, place_chunks) at e in
            let (kept, flagged) = place_chunks-kept later _ after _ flags i rest h.1 in
            (
              kept ∙ get_or-set_ne shards idx i (some (resize shard_len content)) none h.0,
              flagged ∙ get_or-set_ne present idx i true false h.0,
            )
      ]

  place_chunks-at :
      (before later : List (ℕ × Bytes)) (idx : ℕ) (content : Bytes)
      (shards after : List (Option Bytes)) (present flags : List Bool)
      → place_chunks total shard_len (before ++ (idx, content) ∷ later) shards present
        ≡ ok (after, flags)
      → Absent idx later
      → length shards ≡ total
      → length present ≡ total
      → (get_or after idx none ≡ some (resize shard_len content)) × (get_or flags idx false ≡ true)
  unfolding place_chunks
  place_chunks-at [] later idx content shards after present flags e h size_s size_p =
      elim (Bool-cases (leb total idx)) [
        | inl out ↦ absurd (ground (arith, out, e))
        | inr within ↦
            let rest = rw (within, place_chunks) at e in
            let (kept, flagged) = place_chunks-kept later _ after _ flags idx rest h in
            (
              kept
                  ∙ get_or-set_self shards idx (some (resize shard_len content)) none
                      (ground (arith, within, size_s)),
              flagged ∙ get_or-set_self present idx true false (ground (arith, within, size_p)),
            )
      ]
  place_chunks-at ((j, c) ∷ before) later idx content shards after present flags e h size_s size_p =
      elim (Bool-cases (leb total j)) [
        | inl out ↦ absurd (ground (arith, out, e))
        | inr within ↦
            place_chunks-at before later idx content (set shards j (some (resize shard_len c)))
              after (set present j true) flags (rw (within, place_chunks) at e) h
              (length-set shards j _ ∙ size_s) (length-set present j _ ∙ size_p)
      ]

get_or-map :
    (after : List (Option Bytes)) (i : ℕ)
    → get_or (map or_empty after) i [] ≡ or_empty (get_or after i none)
get_or-map [] i = refl
get_or-map (o ∷ after) zero = refl
get_or-map (o ∷ after) (suc i) = get_or-map after i

pub lift_error_ok : {A : Type 0} (r : Result CodecError A) (a : A) → lift_error r ≡ ok a → r ≡ ok a
unfolding lift_error
lift_error_ok (ok b) a e = cc
lift_error_ok (err x) a e = absurd (cc)

-- If `repair_chunks` succeeds, it returns at the index of an available chunk that chunk, cut or
-- filled with zeros to the shard length. No later chunk of the list has the same index.
pub repair_chunks-available :
    (pm : ParityManager) (before later : List (ℕ × Bytes)) (idx total shard_len : ℕ)
    (content : Bytes) (chunks : List Bytes)
    → repair_chunks pm (before ++ (idx, content) ∷ later) total shard_len ≡ ok chunks
    → Absent idx later
    → get_or chunks idx [] ≡ resize shard_len content
unfolding repair_chunks
repair_chunks-available pm before later idx total shard_len content chunks done h =
    let (u, right_total, placing) =
      >>=-eq-ok (ensure (total == pm.data_shards + pm.parity_shards) invalid_input) _ done in
    let ((shards, present), placed, repairing) =
      >>=-eq-ok
        (place_chunks total shard_len (before ++ (idx, content) ∷ later) (replicate total none)
          (replicate total false))
        _ placing in
    let (after, lifted, finished) =
      >>=-eq-ok (lift_error (reconstruct pm.rs shards present)) _ repairing in
    let (there, flagged) =
      place_chunks-at total shard_len before later idx content _ shards _ present placed h
        (length-replicate total none) (length-replicate total false) in
    let kept =
      reconstruct-kept pm.rs shards after present idx (lift_error_ok _ after lifted) flagged in
    let results : map or_empty after ≡ chunks = cc finished in
    ap (λ t. get_or t idx []) (sym results)
    ∙ (get_or-map after idx ∙ (ap or_empty kept ∙ ap or_empty there))
