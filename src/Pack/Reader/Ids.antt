-- ===== src/Pack/Reader/Ids.antt =====
-- `max_pack_id`: no pack of the directory has a larger id.
use backup_shield.Base.{
  ℕ, ◌≤◌, ◌<◌, ◌^◌, ◌≡◌, refl, ◌∙◌, ap, inl, inr, some, List, [], ◌∷◌, max, Bytes, eq_bytes,
  eq_of_eq_bytes, Bool-cases, Option-cases, arith,
}
use backup_shield.Pack.Name.{pack_filename, pack_id_of}
use backup_shield.Pack.Name.RoundTrip.{pack_id_of-pack_filename}
use backup_shield.Pack.Disk.{Disk, read_file, file_names}
use backup_shield.Pack.Reader.{insert_id, sort_ids, ids_of, list_pack_ids, largest, max_pack_id}

largest-insert_id : (id : ℕ) (ids : List ℕ) → largest (insert_id id ids) ≡ max id (largest ids)
unfolding largest insert_id
largest-insert_id id [] = refl
largest-insert_id id (x ∷ rest) = ground (arith, largest-insert_id id rest)

pub largest-sort_ids : (ids : List ℕ) → largest (sort_ids ids) ≡ largest ids
unfolding largest sort_ids
largest-sort_ids [] = refl
largest-sort_ids (id ∷ rest) =
    largest-insert_id id (sort_ids rest) ∙ ap (max id) (largest-sort_ids rest)

le-largest :
    (disk : Disk) (id : ℕ) (content : Bytes)
    → id < 2 ^ 64
    → read_file disk (pack_filename id) ≡ some content
    → id ≤ largest (ids_of (file_names disk))
unfolding largest ids_of file_names read_file pack_id_of eq_bytes
le-largest [] id content fits found = cc
le-largest ((n, c) ∷ disk) id content fits found =
    elim (Bool-cases (eq_bytes n (pack_filename id))) [
      | inl same ↦
          let parsed : pack_id_of n ≡ some id =
            ap pack_id_of (eq_of_eq_bytes n (pack_filename id) same)
            ∙ pack_id_of-pack_filename id fits in
          rw parsed (omega arith)
      | inr other ↦
          let later : id ≤ largest (ids_of (file_names disk)) =
            le-largest disk id content fits (rw (other, read_file) at found) in
          elim (Option-cases (pack_id_of n)) [
            | inl skipped ↦ rw skipped later
            | inr (x, parsed) ↦ rw parsed (omega arith)
          ]
    ]

-- The id of every pack file on disk, below 2^64, is at most `max_pack_id`.
pub le-max_pack_id :
    (disk : Disk) (id : ℕ) (content : Bytes)
    → id < 2 ^ 64
    → read_file disk (pack_filename id) ≡ some content
    → id ≤ max_pack_id disk
unfolding max_pack_id list_pack_ids
le-max_pack_id disk id content fits found =
    rw (largest-sort_ids (ids_of (file_names disk))) (le-largest disk id content fits found)
