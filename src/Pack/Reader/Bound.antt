-- ===== src/Pack/Reader/Bound.antt =====
-- How far `max_pack_id` can grow: only the names of packs count.
use backup_shield.Base.{
  ℕ, ◌≤◌, ◌<◌, ◌^◌, ◌≡◌, refl, sym, ◌∙◌, ap, inl, inr, true, Option, none, some, [], ◌∷◌, max,
  Bytes, eq_bytes, eq_of_eq_bytes, eq_bytes_refl, Bool-cases, Option-cases, arith,
}
use backup_shield.Base.Result.{Result, ok, err}
use mathlib.Core.Option.{some-injective}
use backup_shield.Hash.{Hashes}
use backup_shield.Pack.Name.{pack_filename, temp_filename, pack_id_of}
use backup_shield.Pack.Name.RoundTrip.{pack_id_of-pack_filename}
use backup_shield.Pack.Name.Distinct.{pack_id_of-temp_filename}
use backup_shield.Pack.Disk.{Disk, read_file, file_names}
use backup_shield.Pack.Reader.{ids_of, list_pack_ids, largest, max_pack_id}
use backup_shield.Pack.Reader.Ids.{largest-sort_ids}
use backup_shield.Pack.Writer.{PackWriter, FlushResult, FlushStep, Io, flush}
use backup_shield.Pack.Writer.Atomic.{Outcome, flush-Outcome}

abbrev pub Present : Disk → Bytes → Type 0
Present disk name = (content : Bytes) × (read_file disk name ≡ some content)

largest_ge :
    (disk : Disk) (name : Bytes) (id : ℕ)
    → pack_id_of name ≡ some id
    → Present disk name
    → id ≤ largest (ids_of (file_names disk))
unfolding largest ids_of file_names read_file pack_id_of eq_bytes
largest_ge [] name id parsed (content, found) = absurd (cc)
largest_ge ((n, c) ∷ disk) name id parsed (content, found) = elim (Bool-cases (eq_bytes n name)) [
  | inl same ↦
      let here : pack_id_of n ≡ some id = ap pack_id_of (eq_of_eq_bytes n name same) ∙ parsed in
      rw here (omega arith)
  | inr other ↦
      let later : id ≤ largest (ids_of (file_names disk)) =
        largest_ge disk name id parsed (content, rw (other, read_file) at found) in
      elim (Option-cases (pack_id_of n)) [
        | inl skipped ↦ rw skipped later
        | inr (x, is) ↦ rw is (omega arith)
      ]
]

largest_le :
    (disk : Disk) (bound : ℕ)
    → ((name : Bytes) (id : ℕ) → Present disk name → pack_id_of name ≡ some id → id ≤ bound)
    → largest (ids_of (file_names disk)) ≤ bound
unfolding largest ids_of file_names read_file pack_id_of eq_bytes
largest_le [] bound all = omega arith
largest_le ((n, c) ∷ disk) bound all =
    let later : largest (ids_of (file_names disk)) ≤ bound =
      largest_le disk bound (λ name id there parsed. all name id (behind name there) parsed) in
    elim (Option-cases (pack_id_of n)) [
      | inl skipped ↦ rw skipped later
      | inr (x, parsed) ↦
          rw parsed (omega (arith, later, all n x (c, rw (eq_bytes_refl n) refl) parsed))
    ]
  where
    behind : (name : Bytes) → Present disk name → Present ((n, c) ∷ disk) name
    behind name (content, found) = elim (Bool-cases (eq_bytes n name)) [
      | inl same ↦ (c, rw same refl)
      | inr other ↦ (content, rw other found)
    ]

-- A flush adds its own pack at most.
module _ (H : Hashes) (io : Io) (w : PackWriter) (disk : Disk) where
  Present-after :
      (res : Result FlushStep (Option FlushResult))
      → Outcome H w disk (flush H io w disk) res
      → (name : Bytes) (id : ℕ) → w.next_pack_id < 2 ^ 64
      → Present (flush H io w disk).disk name
      → pack_id_of name ≡ some id
      → id ≤ max (largest (ids_of (file_names disk))) w.next_pack_id
  Present-after (err step) k name id fits (content, found) parsed =
      elim (Bool-cases (eq_bytes (temp_filename w.next_pack_id) name)) [
        | inl temp ↦ absurd (not_temp name id temp parsed)
        | inr other ↦
            omega
              (arith, largest_ge disk name id parsed (content, sym (k.files name other) ∙ found))
      ]
    where
      not_temp :
          (name : Bytes) (id : ℕ)
          → eq_bytes (temp_filename w.next_pack_id) name ≡ true
          → pack_id_of name ≡ some id
          → ⊥
      not_temp name id temp parsed = cc (
          sym (pack_id_of-temp_filename w.next_pack_id)
          ∙ (ap pack_id_of (eq_of_eq_bytes (temp_filename w.next_pack_id) name temp) ∙ parsed))
  Present-after (ok none) k name id fits (content, found) parsed = omega (
    arith,
    largest_ge disk name id parsed (content, sym (ap (λ d. read_file d name) k.2) ∙ found),
  )
  Present-after (ok (some r)) k name id fits (content, found) parsed =
      elim (Bool-cases (eq_bytes (pack_filename w.next_pack_id) name)) [
        | inl pack ↦
            let is_own : id ≡ w.next_pack_id = some-injective _ _ (
              sym parsed
              ∙ (sym (ap pack_id_of (eq_of_eq_bytes _ _ pack))
                  ∙ pack_id_of-pack_filename w.next_pack_id fits)) in
            omega (arith, is_own)
        | inr other ↦ elim (Bool-cases (eq_bytes (temp_filename w.next_pack_id) name)) [
          | inl temp ↦ absurd (cc (sym (rw (other, temp) at (k.files name)) ∙ found))
          | inr neither ↦ omega (
            arith,
            largest_ge disk name id parsed
                (content, sym (rw (other, neither) at (k.files name)) ∙ found),
          )
        ]
      ]

  -- x
  pub max_pack_id-flush :
      w.next_pack_id < 2 ^ 64
      → max_pack_id (flush H io w disk).disk ≤ max (max_pack_id disk) w.next_pack_id
  unfolding max_pack_id list_pack_ids
  max_pack_id-flush fits = omega (
    arith,
    largest-sort_ids (ids_of (file_names (flush H io w disk).disk)),
    largest-sort_ids (ids_of (file_names disk)),
    largest_le (flush H io w disk).disk _ (λ name id.
        Present-after (flush H io w disk).result (flush-Outcome H io w disk) name id fits),
  )
