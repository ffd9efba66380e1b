-- ===== src/Compact/Entries.antt =====
-- The index that `compact_packs` saves, and the ids that it goes through.
use backup_shield.Base.{
  ℕ, ◌^◌, ◌<◌, ◌≡◌, ◌⊎◌, refl, sym, ap, ◌∙◌, inl, inr, Bool, true, false, some, List, [], ◌∷◌, leb,
  All, Any, Bytes, arith, Bool-cases, Option-cases, eq_bytes, eq_of_eq_bytes, eq_bytes_refl,
  eq_bytes_iff,
}
use backup_shield.Pack.Name.{pack_filename, pack_id_of}
use backup_shield.Pack.Name.RoundTrip.{pack_id_of-pack_filename}
use backup_shield.Pack.Disk.{Disk, read_file, file_names}
use backup_shield.Pack.Reader.{insert_id, sort_ids, ids_of, list_pack_ids}
use backup_shield.Repository.Index.{
  ChunkMeta, ChunkIndex, get, modify, remove, get-modify, get-remove,
}
use backup_shield.Compact.{NewLocation, moved, move_entries, orphans, remove_entries, compact_index}
use backup_shield.Compact.Packs.{Moved}

-- The entry of a chunk that was moved is one of its new places.
Moved-entry :
    (Q : ℕ → ℕ → Type 0) (h : Bytes) (locs : List NewLocation) (index : ChunkIndex)
    (meta : ChunkMeta)
    → All (λ loc. loc.0 ≡ h → Q loc.1 loc.2) locs
    → get index h ≡ some meta
    → Q meta.pack_id meta.pack_offset ⊎ Moved h locs
    → (meta' : ChunkMeta) × (get (move_entries locs index) h ≡ some meta')
      × Q meta'.pack_id meta'.pack_offset
unfolding move_entries
Moved-entry Q h [] index meta at found (inl q) = (meta, found, q)
Moved-entry Q h [] index meta at found (inr none_left) = absurd none_left
Moved-entry Q h ((hash, id, offset) ∷ locs) index meta at found before =
    elim (Bool-cases (eq_bytes hash h)) [
      | inl same ↦
          Moved-entry Q h locs (modify index hash (moved id offset)) (moved id offset meta) at.1
            (rw (get-modify index hash h (moved id offset)) (rw (same, found)))
            (inl (unfold moved in at.0 (eq_of_eq_bytes hash h same)))
      | inr other ↦
          Moved-entry Q h locs (modify index hash (moved id offset)) meta at.1
            (rw (get-modify index hash h (moved id offset)) (rw other found))
            (elim before [
              | inl q ↦ inl q
              | inr (inl same) ↦
                  absurd (cc (sym other ∙ (ap (λ t. eq_bytes t h) same ∙ eq_bytes_refl h)))
              | inr (inr later) ↦ inr later
            ])
    ]

orphans_unused :
    (live : Bytes → Bool) (entries : List (Bytes × ChunkMeta))
    → All (λ hash. live hash ≡ false) (orphans live entries)
unfolding orphans
orphans_unused live [] = tt
orphans_unused live ((hash, meta) ∷ entries) = elim (Bool-cases (live hash)) [
  | inl used ↦ rw (used, orphans) (orphans_unused live entries)
  | inr unused ↦ rw (unused, orphans) (unused, orphans_unused live entries)
]

remove_entries-kept :
    (live : Bytes → Bool) (h : Bytes) (hashes : List Bytes) (index : ChunkIndex)
    → live h ≡ true
    → All (λ hash. live hash ≡ false) hashes
    → get (remove_entries hashes index) h ≡ get index h
unfolding remove_entries
remove_entries-kept live h [] index l unused = refl
remove_entries-kept live h (hash ∷ hashes) index l unused =
    remove_entries-kept live h hashes (remove index hash) l unused.1
    ∙ (get-remove index hash h
        ∙ ground (arith, eq_bytes_iff hash h, ap live {x = hash} {y = h}, unused.0, l))

pub get-compact_index :
    (Q : ℕ → ℕ → Type 0) (live : Bytes → Bool) (h : Bytes) (locs : List NewLocation)
    (index : ChunkIndex) (meta : ChunkMeta)
    → live h ≡ true
    → All (λ loc. loc.0 ≡ h → Q loc.1 loc.2) locs
    → get index h ≡ some meta
    → Moved h locs
    → (meta' : ChunkMeta) × (get (compact_index live locs index) h ≡ some meta')
      × Q meta'.pack_id meta'.pack_offset
unfolding compact_index
get-compact_index Q live h locs index meta l at found moved_h =
    let (meta', entry, q) = Moved-entry Q h locs index meta at found (inr moved_h) in
    (
      meta',
      remove_entries-kept live h (orphans live (move_entries locs index).entries)
            (move_entries locs index) l (orphans_unused live (move_entries locs index).entries)
          ∙ entry,
      q,
    )

-- Every pack file is among those that are gone through.
insert_id-Any :
    (id x : ℕ) (ids : List ℕ)
    → (x ≡ id) ⊎ Any (λ i. i ≡ id) ids
    → Any (λ i. i ≡ id) (insert_id x ids)
unfolding insert_id
insert_id-Any id x [] (inl same) = inl same
insert_id-Any id x [] (inr h) = absurd h
insert_id-Any id x (y ∷ ids) h = elim (Bool-cases (leb x y)) [
  | inl first ↦ rw (first, insert_id) h
  | inr later ↦
      rw (later, insert_id)
        (elim h [
          | inl same ↦ inr (insert_id-Any id x ids (inl same))
          | inr (inl here) ↦ inl here
          | inr (inr behind) ↦ inr (insert_id-Any id x ids (inr behind))
        ])
]

sort_ids-Any : (id : ℕ) (ids : List ℕ) → Any (λ i. i ≡ id) ids → Any (λ i. i ≡ id) (sort_ids ids)
unfolding sort_ids
sort_ids-Any id [] h = h
sort_ids-Any id (x ∷ ids) (inl same) = insert_id-Any id x (sort_ids ids) (inl same)
sort_ids-Any id (x ∷ ids) (inr h) = insert_id-Any id x (sort_ids ids) (inr (sort_ids-Any id ids h))

ids_of-Any :
    (disk : Disk) (id : ℕ) (content : Bytes)
    → id < 2 ^ 64
    → read_file disk (pack_filename id) ≡ some content
    → Any (λ i. i ≡ id) (ids_of (file_names disk))
unfolding ids_of file_names read_file
ids_of-Any [] id content fits found = absurd (cc)
ids_of-Any ((n, c) ∷ disk) id content fits found =
    elim (Bool-cases (eq_bytes n (pack_filename id))) [
      | inl same ↦
          let parsed : pack_id_of n ≡ some id =
            ap pack_id_of (eq_of_eq_bytes n (pack_filename id) same)
            ∙ pack_id_of-pack_filename id fits in
          rw (parsed, ids_of) (inl refl)
      | inr other ↦
          let later = ids_of-Any disk id content fits (rw (other, read_file) at found) in
          elim (Option-cases (pack_id_of n)) [
            | inl skipped ↦ rw (skipped, ids_of) later
            | inr (x, parsed) ↦ rw (parsed, ids_of) (inr later)
          ]
    ]

pub list_pack_ids-Any :
    (disk : Disk) (id : ℕ) (content : Bytes)
    → id < 2 ^ 64
    → read_file disk (pack_filename id) ≡ some content
    → Any (λ i. i ≡ id) (list_pack_ids disk)
unfolding list_pack_ids
list_pack_ids-Any disk id content fits found =
    sort_ids-Any id (ids_of (file_names disk)) (ids_of-Any disk id content fits found)
