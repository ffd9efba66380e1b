-- ===== src/Repository/Index.antt =====
-- `ChunkMeta` and `ChunkIndex` of core/src/repository.rs. A `HashMap` is an association list.
use backup_shield.Base.{
  ℕ, ◌+◌, ◌-◌, ◌%◌, ◌^◌, ◌≡◌, refl, Bool, true, false, Option, none, some, List, [], ◌∷◌, ◌==◌,
  if◌then◌else◌, length, Bytes, eq_bytes, eq_bytes_iff, arith,
}

pub record ChunkMeta : Type 0 where
  pub hash : Bytes
  pub size : ℕ
  pub compressed_size : ℕ
  pub refs : ℕ
  pub parity_group : ℕ
  pub pack_id : ℕ
  pub pack_offset : ℕ

pub record ChunkIndex : Type 0 where
  pub entries : List (Bytes × ChunkMeta)

abbrev pub new_index : ChunkIndex
new_index = record { entries = [] }

-- `HashMap::get`
find : Bytes → List (Bytes × ChunkMeta) → Option ChunkMeta
find k [] = none
find k ((j, m) ∷ l) = if eq_bytes j k then some m else find k l

-- `HashMap::get_mut`, and a write through the reference
change : Bytes → (ChunkMeta → ChunkMeta) → List (Bytes × ChunkMeta) → List (Bytes × ChunkMeta)
change k f [] = []
change k f ((j, m) ∷ l) = let rest = change k f l in (j, if eq_bytes j k then f m else m) ∷ rest

-- `HashMap::remove`
drop_key : Bytes → List (Bytes × ChunkMeta) → List (Bytes × ChunkMeta)
drop_key k [] = []
drop_key k ((j, m) ∷ l) = let rest = drop_key k l in if eq_bytes j k then rest else (j, m) ∷ rest

unfoldable pub get : ChunkIndex → Bytes → Option ChunkMeta
unfolding find
get index hash = find hash index.entries

unfoldable pub modify : ChunkIndex → Bytes → (ChunkMeta → ChunkMeta) → ChunkIndex
unfolding change
modify index hash f = record { entries = change hash f index.entries }

unfoldable pub contains : ChunkIndex → Bytes → Bool
contains index hash = elim (get index hash) [ none ↦ false | some m ↦ true ]

-- `refs += 1` on a `u64`, which wraps in a release build
unfoldable pub bump_refs : ChunkMeta → ChunkMeta
bump_refs m = record m { refs = (m.refs + 1) % 2 ^ 64 }

unfoldable pub upsert : ChunkIndex → ChunkMeta → ChunkIndex
unfolding contains
upsert index meta =
    if contains index meta.hash
    then modify index meta.hash bump_refs
    else record { entries = (meta.hash, meta) ∷ index.entries }

-- `saturating_sub(1)` is the subtraction on ℕ.
unfoldable pub lower_refs : ChunkMeta → ChunkMeta
lower_refs m = record m { refs = m.refs - 1 }

unfoldable pub decrement_ref : ChunkIndex → Bytes → ChunkIndex × Bool
unfolding get modify lower_refs
decrement_ref index hash = elim (get index hash) [
  | none ↦ (index, false)
  | some m ↦ (modify index hash lower_refs, (lower_refs m).refs == 0)
]

unfoldable pub remove : ChunkIndex → Bytes → ChunkIndex
unfolding drop_key
remove index hash = record { entries = drop_key hash index.entries }

unfoldable pub size_of : ChunkIndex → ℕ
size_of index = length index.entries

abbrev pub map_meta : (ChunkMeta → ChunkMeta) → Option ChunkMeta → Option ChunkMeta
map_meta f none = none
map_meta f (some m) = some (f m)

find-change :
    (k j : Bytes) (f : ChunkMeta → ChunkMeta) (l : List (Bytes × ChunkMeta))
    → find j (change k f l) ≡ (if eq_bytes k j then map_meta f (find j l) else find j l)
unfolding find change
find-change k j f [] = ground arith
find-change k j f ((i, m) ∷ l) =
    ground (arith, eq_bytes_iff i j, eq_bytes_iff i k, eq_bytes_iff k j, find-change k j f l)

find-drop_key :
    (k j : Bytes) (l : List (Bytes × ChunkMeta))
    → find j (drop_key k l) ≡ (if eq_bytes k j then none else find j l)
unfolding find drop_key
find-drop_key k j [] = ground arith
find-drop_key k j ((i, m) ∷ l) =
    ground (arith, eq_bytes_iff i j, eq_bytes_iff i k, eq_bytes_iff k j, find-drop_key k j l)

pub get-modify :
    (index : ChunkIndex) (k j : Bytes) (f : ChunkMeta → ChunkMeta)
    → get (modify index k f) j ≡ (if eq_bytes k j then map_meta f (get index j) else get index j)
unfolding get modify
get-modify index k j f = find-change k j f index.entries

pub get-remove :
    (index : ChunkIndex) (k j : Bytes)
    → get (remove index k) j ≡ (if eq_bytes k j then none else get index j)
unfolding get remove
get-remove index k j = find-drop_key k j index.entries

pub get-cons :
    (k j : Bytes) (meta : ChunkMeta) (l : List (Bytes × ChunkMeta))
    → get (record { entries = (k, meta) ∷ l }) j
      ≡ (if eq_bytes k j then some meta else get (record { entries = l }) j)
unfolding get find
get-cons k j meta l = refl

pub get-new_index : (j : Bytes) → get new_index j ≡ none
unfolding get find
get-new_index j = refl

abbrev pub entered : ChunkMeta → Option ChunkMeta → Option ChunkMeta
entered meta none = some meta
entered meta (some old) = some (bump_refs old)

get-enter :
    (index : ChunkIndex) (meta : ChunkMeta) (j : Bytes)
    → get (record { entries = (meta.hash, meta) ∷ index.entries }) j
      ≡ (if eq_bytes meta.hash j then some meta else get index j)
unfolding get find
get-enter index meta j = refl

-- After `upsert`, a hash that the index did not hold has the new entry, a hash that it held has
-- its old entry with one reference more, and every other hash has what it had.
pub get-upsert :
    (index : ChunkIndex) (meta : ChunkMeta) (j : Bytes)
    → get (upsert index meta) j
      ≡ (if eq_bytes meta.hash j then entered meta (get index j) else get index j)
unfolding upsert contains
get-upsert index meta j = ground (
  arith,
  eq_bytes_iff meta.hash j,
  get-enter index meta j,
  get-modify index meta.hash j bump_refs,
)
