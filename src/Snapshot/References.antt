-- ===== src/Snapshot/References.antt =====
-- Removing snapshots leaves every chunk of the other snapshots in the index.
use backup_shield.Base.{
  ℕ, ◌+◌, ◌-◌, ◌≤◌, ◌<◌, ◌≡◌, refl, sym, ap, ◌∙◌, inl, inr, true, false, Option, none, some, List,
  [], ◌∷◌, if◌then◌else◌, Bytes, eq_bytes, eq_bytes_iff, eq_of_eq_bytes, All, arith, Bool-cases,
  Option-cases,
}
use mathlib.Core.Option.{some-injective}
use backup_shield.Repository.Index.{
  ChunkMeta, ChunkIndex, get, modify, contains, decrement_ref, lower_refs, get-modify, get-remove,
}
use backup_shield.Snapshot.{
  Snapshot, Store, all_chunk_hashes, release, release_all, remove_snapshot, drop_snapshot,
  find_by_id, delete_loop, delete_snapshots,
}

-- How often a hash is in a list.
unfoldable pub count : Bytes → List Bytes → ℕ
count h [] = 0
count h (k ∷ ks) = (if eq_bytes k h then 1 else 0) + count h ks

-- The references of a hash in the index.
abbrev pub refs_in : Option ChunkMeta → ℕ
refs_in none = 0
refs_in (some m) = m.refs

abbrev pub refs_of : ChunkIndex → Bytes → ℕ
refs_of index h = refs_in (get index h)

-- How often the snapshots name a hash.
unfoldable pub uses : Bytes → List Snapshot → ℕ
uses h [] = 0
uses h (snap ∷ snaps) = count h (all_chunk_hashes snap) + uses h snaps

refs_of-release :
    (index : ChunkIndex) (k h : Bytes)
    → refs_of (release index k) h ≡ refs_of index h - (if eq_bytes k h then 1 else 0)
unfolding release decrement_ref lower_refs
refs_of-release index k h = elim (Option-cases (get index k)) [
  | inl absent ↦ ground (arith, absent, eq_bytes_iff k h)
  | inr (m, found) ↦ ground (
    arith,
    found,
    eq_bytes_iff k h,
    get-modify index k h lower_refs,
    get-remove (modify index k lower_refs) k h,
  )
]

refs_of-release_all :
    (ks : List Bytes) (index : ChunkIndex) (h : Bytes)
    → refs_of (release_all index ks) h ≡ refs_of index h - count h ks
unfolding release_all count
refs_of-release_all [] index h = omega arith
refs_of-release_all (k ∷ ks) index h =
    omega (arith, refs_of-release_all ks (release index k) h, refs_of-release index k h)

remove_snapshot-le :
    (id : Bytes) (snaps : List Snapshot) (h : Bytes)
    → uses h (remove_snapshot id snaps) ≤ uses h snaps
unfolding uses remove_snapshot
remove_snapshot-le id [] h = omega arith
remove_snapshot-le id (s ∷ snaps) h = ground (arith, remove_snapshot-le id snaps h)

uses-remove_snapshot :
    (snaps : List Snapshot) (snap : Snapshot) (id h : Bytes)
    → find_by_id id snaps ≡ some snap
    → uses h (remove_snapshot id snaps) + count h (all_chunk_hashes snap) ≤ uses h snaps
unfolding uses remove_snapshot find_by_id
uses-remove_snapshot [] snap id h found = absurd (cc)
uses-remove_snapshot (s ∷ snaps) snap id h found = elim (Bool-cases (eq_bytes s.id id)) [
  | inl same ↦
      let this : s ≡ snap = some-injective _ _ (rw (same, find_by_id) at found) in
      rw same
        (omega (arith, remove_snapshot-le id snaps h, ap (λ t. count h (all_chunk_hashes t)) this))
  | inr other ↦
      rw other
        (omega (arith, uses-remove_snapshot snaps snap id h (rw (other, find_by_id) at found)))
]

pub find-remove_snapshot :
    (id other : Bytes) (snaps : List Snapshot)
    → eq_bytes id other ≡ false
    → find_by_id other (remove_snapshot id snaps) ≡ find_by_id other snaps
unfolding find_by_id remove_snapshot
find-remove_snapshot id other [] differ = refl
find-remove_snapshot id other (s ∷ snaps) differ = ground (
  arith,
  eq_bytes_iff id other,
  eq_bytes_iff s.id id,
  eq_bytes_iff s.id other,
  find-remove_snapshot id other snaps differ,
)

find-id :
    (id : Bytes) (snaps : List Snapshot) (snap : Snapshot)
    → find_by_id id snaps ≡ some snap
    → snap.id ≡ id
unfolding find_by_id
find-id id [] snap found = absurd (cc)
find-id id (s ∷ snaps) snap found = elim (Bool-cases (eq_bytes s.id id)) [
  | inl same ↦
      let this : s ≡ snap = some-injective _ _ (rw (same, find_by_id) at found) in
      sym (ap (λ t. t.id) this) ∙ eq_of_eq_bytes s.id id same
  | inr other ↦ find-id id snaps snap (rw (other, find_by_id) at found)
]

-- Every chunk has at least as many references in the index as the snapshots have uses of it.
abbrev pub Covered : Store → Type 0
Covered st = (h : Bytes) → uses h st.snapshots ≤ refs_of st.index h

pub drop_snapshot-Covered :
    (snap : Snapshot) (st : Store)
    → find_by_id snap.id st.snapshots ≡ some snap
    → Covered st
    → Covered (drop_snapshot snap st)
unfolding drop_snapshot
drop_snapshot-Covered snap st found covered h = omega (
  arith,
  covered h,
  uses-remove_snapshot st.snapshots snap snap.id h found,
  refs_of-release_all (all_chunk_hashes snap) st.index h,
)

-- No id is given twice.
abbrev pub Distinct : List Bytes → Type 0
Distinct [] = Unit
Distinct (id ∷ ids) = All (λ k. eq_bytes id k ≡ false) ids × Distinct ids

-- What was listed before the loop is still there.
abbrev Listed : List Snapshot → List Bytes → Store → Type 0
Listed listed ids st = All (λ id. find_by_id id listed ≡ find_by_id id st.snapshots) ids

Listed-drop_snapshot :
    (listed : List Snapshot) (ids : List Bytes) (snap : Snapshot) (st : Store)
    → All (λ k. eq_bytes snap.id k ≡ false) ids
    → Listed listed ids st
    → Listed listed ids (drop_snapshot snap st)
unfolding drop_snapshot
Listed-drop_snapshot listed [] snap st differ l = tt
Listed-drop_snapshot listed (id ∷ ids) snap st differ l = (
  l.0 ∙ sym (find-remove_snapshot snap.id id st.snapshots differ.0),
  Listed-drop_snapshot listed ids snap st differ.1 l.1,
)

delete_loop-Covered :
    (listed : List Snapshot) (ids : List Bytes) (st : Store)
    → Distinct ids
    → Listed listed ids st
    → Covered st
    → Covered (delete_loop listed ids st).0
unfolding delete_loop
delete_loop-Covered listed [] st d l covered = covered
delete_loop-Covered listed (id ∷ ids) st d l covered = elim (Option-cases (find_by_id id listed)) [
  | inl absent ↦ rw (absent, delete_loop) (delete_loop-Covered listed ids st d.1 l.1 covered)
  | inr (snap, found) ↦
      let is_id : snap.id ≡ id = find-id id listed snap found in
      rw (found, delete_loop)
        (delete_loop-Covered listed ids (drop_snapshot snap st) d.1
          (Listed-drop_snapshot listed ids snap st (rw is_id d.0) l.1)
          (drop_snapshot-Covered snap st
            (ap (λ i. find_by_id i st.snapshots) is_id ∙ (sym l.0 ∙ found)) covered))
]

Listed-self : (ids : List Bytes) (st : Store) → Listed st.snapshots ids st
Listed-self [] st = tt
Listed-self (id ∷ ids) st = (refl, Listed-self ids st)

-- If the index counts at least as many references of every chunk as the snapshots have uses of
-- it, and no id is given twice, then the same holds after `delete_snapshots`, for the snapshots
-- that are left.
pub delete_snapshots-Covered :
    (ids : List Bytes) (st : Store)
    → Distinct ids
    → Covered st
    → Covered (delete_snapshots ids st).0
unfolding delete_snapshots
delete_snapshots-Covered ids st d covered =
    delete_loop-Covered st.snapshots ids st d (Listed-self ids st) covered

contains_of_refs : (index : ChunkIndex) (h : Bytes) → 0 < refs_of index h → contains index h ≡ true
unfolding contains
contains_of_refs index h pos = elim (Option-cases (get index h)) [
  | inl absent ↦ absurd (ground arith)
  | inr (m, found) ↦ rw (found, contains) refl
]

-- If the index counts at least as many references of every chunk as the snapshots have uses of
-- it, and no id is given twice, then every chunk that a snapshot uses which `delete_snapshots`
-- leaves is still in the index.
pub contains-delete_snapshots :
    (ids : List Bytes) (st : Store) (h : Bytes)
    → Distinct ids
    → Covered st
    → 0 < uses h (delete_snapshots ids st).0.snapshots
    → contains (delete_snapshots ids st).0.index h ≡ true
contains-delete_snapshots ids st h d covered used =
    contains_of_refs (delete_snapshots ids st).0.index h
      (omega (arith, delete_snapshots-Covered ids st d covered h, used))
