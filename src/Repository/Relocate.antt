-- ===== src/Repository/Relocate.antt =====
-- What the index says of a chunk after the entries of a flushed buffer have been placed.
use backup_shield.Base.{
  ℕ, ◌≡◌, refl, ◌∙◌, subst, inl, inr, Bool, true, false, Option, none, some, List, [], ◌∷◌,
  if◌then◌else◌, Bytes, eq_bytes, eq_of_eq_bytes, arith, Bool-cases,
}
use backup_shield.Base.Result.{ok}
use backup_shield.Hash.{Hashes}
use backup_shield.Pack.Disk.{Disk}
use backup_shield.Pack.Format.{Location, Chunk}
use backup_shield.Pack.Writer.{find_pending}
use backup_shield.Pack.Reader.{read_chunk}
use backup_shield.Pack.RoundTrip.{Located}
use backup_shield.Repository.{place, relocate, find_location}
use backup_shield.Repository.Index.{ChunkMeta, ChunkIndex, get, modify, map_meta, get-modify}

-- The entry of `h` after `relocate`.
pub relocated : ℕ → List Location → Bytes → ChunkMeta → ChunkMeta
relocated pack_id [] h meta = meta
relocated pack_id ((hash, offset, size) ∷ locs) h meta =
    relocated pack_id locs h (if eq_bytes hash h then place pack_id offset size meta else meta)

map_meta-map_meta :
    (f g : ChunkMeta → ChunkMeta) (o : Option ChunkMeta)
    → map_meta f (map_meta g o) ≡ map_meta (λ m. f (g m)) o
map_meta-map_meta f g none = refl
map_meta-map_meta f g (some m) = refl

pub get-relocate :
    (pack_id : ℕ) (locs : List Location) (index : ChunkIndex) (h : Bytes)
    → get (relocate pack_id locs index) h ≡ map_meta (relocated pack_id locs h) (get index h)
unfolding relocate relocated
get-relocate pack_id [] index h = same (get index h)
  where
    same : (o : Option ChunkMeta) → o ≡ map_meta (λ m. m) o
    same none = refl
    same (some m) = refl
get-relocate pack_id ((hash, offset, size) ∷ locs) index h =
    get-relocate pack_id locs (modify index hash (place pack_id offset size)) h
    ∙ rw (get-modify index hash h (place pack_id offset size))
        (step (eq_bytes hash h) (get index h))
  where
    step :
        (b : Bool) (o : Option ChunkMeta)
        → map_meta
            (relocated pack_id locs h)
            (if b then map_meta (place pack_id offset size) o else o)
          ≡ map_meta
              (λ meta.
                relocated pack_id locs h (if b then place pack_id offset size meta else meta))
              o
    step true none = refl
    step true (some m) = refl
    step false none = refl
    step false (some m) = refl

module _ (H : Hashes) (disk : Disk) (pack_id : ℕ) (h : Bytes) where
  -- The entry says where in the pack the chunk can be read.
  abbrev pub Placed : ChunkMeta → Type 0
  Placed meta =
      (meta.pack_id ≡ pack_id)
      × (bytes : Bytes) × (read_chunk H disk pack_id meta.pack_offset h ≡ ok bytes)

  -- The head of the list is the place of `h`.
  Placed-here :
      (hash bytes : Bytes) (offset size : ℕ) (meta : ChunkMeta)
      → eq_bytes hash h ≡ true
      → read_chunk H disk pack_id offset hash ≡ ok bytes
      → Placed (place pack_id offset size meta)
  unfolding place
  Placed-here hash bytes offset size meta same readable = (
    refl,
    bytes,
    subst (λ t. read_chunk H disk pack_id offset t ≡ ok bytes) (eq_of_eq_bytes hash h same)
        readable,
  )

  Placed-relocated :
      (locs : List Location) (buffer : List Chunk) (meta : ChunkMeta)
      → Located H disk pack_id locs buffer
      → Placed meta
      → Placed (relocated pack_id locs h meta)
  unfolding relocated
  Placed-relocated [] buffer meta l p = p
  Placed-relocated (loc ∷ locs) [] meta l p = absurd l
  Placed-relocated ((hash, offset, size) ∷ locs) ((k, bytes) ∷ buffer) meta l p =
      elim (Bool-cases (eq_bytes hash h)) [
        | inl same ↦
            rw (same, relocated)
              (Placed-relocated locs buffer (place pack_id offset size meta) l.3
                (Placed-here hash bytes offset size meta same l.2))
        | inr other ↦ rw (other, relocated) (Placed-relocated locs buffer meta l.3 p)
      ]

  pub find_pending-Placed :
      (locs : List Location) (buffer : List Chunk) (meta : ChunkMeta) (bytes : Bytes)
      → Located H disk pack_id locs buffer
      → find_pending h buffer ≡ some bytes
      → Placed (relocated pack_id locs h meta)
  unfolding relocated find_pending
  find_pending-Placed locs [] meta bytes l found = cc
  find_pending-Placed [] (chunk ∷ buffer) meta bytes l found = absurd l
  find_pending-Placed ((hash, offset, size) ∷ locs) ((k, b) ∷ buffer) meta bytes l found =
      elim (Bool-cases (eq_bytes hash h)) [
        | inl same ↦
            rw (same, relocated)
              (Placed-relocated locs buffer (place pack_id offset size meta) l.3
                (Placed-here hash b offset size meta same l.2))
        | inr other ↦
            rw (other, relocated)
              (find_pending-Placed locs buffer meta bytes l.3
                (rw (← l.0, other, find_pending) at found))
      ]

  -- So does the offset that is looked up in the list.
  pub find_location-Placed :
      (locs : List Location) (buffer : List Chunk) (bytes : Bytes)
      → Located H disk pack_id locs buffer
      → find_pending h buffer ≡ some bytes
      → (offset : ℕ) × (find_location h locs ≡ some offset)
        × (b : Bytes) × (read_chunk H disk pack_id offset h ≡ ok b)
  unfolding find_location find_pending
  find_location-Placed locs [] bytes l found = cc
  find_location-Placed [] (chunk ∷ buffer) bytes l found = absurd l
  find_location-Placed ((hash, offset, size) ∷ locs) ((k, b) ∷ buffer) bytes l found =
      elim (Bool-cases (eq_bytes hash h)) [
        | inl same ↦ (
          offset,
          rw same,
          b,
          subst (λ t. read_chunk H disk pack_id offset t ≡ ok b) (eq_of_eq_bytes hash h same) l.2,
        )
        | inr other ↦
            rw other (
              find_location-Placed locs buffer bytes l.3 (rw (← l.0, other, find_pending) at found))
      ]

  pub find_pending-unplaced :
      (locs : List Location) (buffer : List Chunk) (meta : ChunkMeta)
      → Located H disk pack_id locs buffer
      → find_pending h buffer ≡ none
      → relocated pack_id locs h meta ≡ meta
  unfolding relocated find_pending
  find_pending-unplaced [] buffer meta l absent = refl
  find_pending-unplaced (loc ∷ locs) [] meta l absent = absurd l
  find_pending-unplaced ((hash, offset, size) ∷ locs) ((k, b) ∷ buffer) meta l absent =
      ground (arith, l.0, find_pending-unplaced locs buffer meta l.3)
