-- ===== src/Pack/Sound.antt =====
-- What the reader accepts, whatever the files hold.
use backup_shield.Base.{
  ℕ, ◌-◌, ◌≤◌, ◌≡◌, sym, ap, ◌∙◌, true, ◌++◌, leb, length, length-take, take, drop,
  take-append-drop, Bytes, arith, eq_bytes, eq_of_eq_bytes, tests, Option-cases, inl, inr, some,
}
use backup_shield.Base.Result.{ok, Post, Post-ok, post_rules}
use backup_shield.Hash.{Hashes, compute_checksum, compute_hash}
use backup_shield.Pack.Name.{pack_filename}
use backup_shield.Pack.Disk.{Disk, read_file}
use backup_shield.Pack.Format.{pack_magic}
use backup_shield.Pack.Reader.{read_entry, read_chunk, verify_file, verify_pack}

module _ (H : Hashes) where
  abbrev Hashed : Bytes → Bytes → Type 0
  Hashed hash bytes = compute_hash H bytes ≡ hash

  read_entry-Post : (at_offset hash : Bytes) → Post (Hashed hash) (read_entry H at_offset hash)
  unfolding read_entry
  read_entry-Post at_offset hash = search (post_rules, eq_of_eq_bytes) depth 20

  -- Whatever the disk holds: bytes that the pack reader returns for an expected hash have that
  -- hash.
  pub read_chunk_sound :
      (disk : Disk) (pack_id offset : ℕ) (hash bytes : Bytes)
      → read_chunk H disk pack_id offset hash ≡ ok bytes
      → compute_hash H bytes ≡ hash
  unfolding read_chunk
  read_chunk_sound disk pack_id offset hash bytes h =
      Post-ok {P = Hashed hash} {r = read_chunk H disk pack_id offset hash}
        (search (post_rules, read_entry-Post)) h

  -- A file that is the magic, eleven bytes or more, and the checksum of all that stands before it.
  abbrev pub IsPackFile : Bytes → Type 0
  IsPackFile file =
      (body : Bytes) × (file ≡ body ++ compute_checksum H body)
      × (take 4 file ≡ pack_magic)
      × (15 ≤ length body)

  accepted :
      (file : Bytes)
      → leb 47 (length file) ≡ true
      → eq_bytes (drop (length file - 32) file) (compute_checksum H (take (length file - 32) file))
        ≡ true
      → eq_bytes (take 4 file) pack_magic ≡ true
      → IsPackFile file
  accepted file large checked magic = (
    take (length file - 32) file,
    sym (take-append-drop (length file - 32) file)
        ∙ ap (λ t. take (length file - 32) file ++ t) (eq_of_eq_bytes _ _ checked),
    eq_of_eq_bytes _ _ magic,
    omega (tests, length-take (length file - 32) file),
  )

  verify_file_accepts : (file : Bytes) → verify_file H file ≡ ok tt → IsPackFile file
  unfolding verify_file
  verify_file_accepts file h = accepted file (ground arith) (ground arith) (ground arith)

  -- Whatever the disk holds: a pack that `verify_pack` accepts is there, starts with the magic,
  -- and ends with the checksum of all that stands before, which is 15 bytes at least.
  pub verify_pack_sound :
      (disk : Disk) (pack_id : ℕ)
      → verify_pack H disk pack_id ≡ ok tt
      → (file : Bytes) × (read_file disk (pack_filename pack_id) ≡ some file) × IsPackFile file
  unfolding verify_pack
  verify_pack_sound disk pack_id h = elim (Option-cases (read_file disk (pack_filename pack_id))) [
    | inl absent ↦ absurd (ground arith)
    | inr (file, found) ↦ (file, found, verify_file_accepts file (rw (found, verify_pack) at h))
  ]
