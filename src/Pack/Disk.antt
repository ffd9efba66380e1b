-- ===== src/Pack/Disk.antt =====
-- The files of the data directory, by name: `fs::read`, `fs::write`, `fs::rename`, `fs::remove_file`.
-- The order of the entries is that of `fs::read_dir`, which promises none.
use backup_shield.Base.{
  ◌≡◌, Option, none, some, List, [], ◌∷◌, if◌then◌else◌, Bytes, arith, eq_bytes, eq_bytes_iff,
}

abbrev pub Disk : Type 0
Disk = List (Bytes × Bytes)

unfoldable pub read_file : Disk → Bytes → Option Bytes
read_file [] name = none
read_file ((n, content) ∷ disk) name = if eq_bytes n name then some content else read_file disk name

unfoldable pub remove_file : Disk → Bytes → Disk
remove_file [] name = []
remove_file ((n, content) ∷ disk) name =
    let rest = remove_file disk name in if eq_bytes n name then rest else (n, content) ∷ rest

-- Creates the file, or replaces what it held.
unfoldable pub write_file : Disk → Bytes → Bytes → Disk
write_file disk name content = (name, content) ∷ remove_file disk name

-- The target is replaced, as on Unix.
unfoldable pub rename_file : Disk → Bytes → Bytes → Disk
rename_file disk from to = elim (read_file disk from) [
  | none ↦ disk
  | some content ↦ write_file (remove_file disk from) to content
]

unfoldable pub file_names : Disk → List Bytes
file_names [] = []
file_names ((n, content) ∷ disk) = n ∷ file_names disk

pub read-remove :
    (disk : Disk) (a b : Bytes)
    → read_file (remove_file disk a) b ≡ (if eq_bytes a b then none else read_file disk b)
unfolding read_file remove_file
read-remove [] a b = ground arith
read-remove ((n, content) ∷ disk) a b =
    ground (arith, eq_bytes_iff n a, eq_bytes_iff n b, eq_bytes_iff a b, read-remove disk a b)

pub read-write :
    (disk : Disk) (a b content : Bytes)
    → read_file (write_file disk a content) b
      ≡ (if eq_bytes a b then some content else read_file disk b)
unfolding read_file write_file
read-write disk a b content = ground (arith, read-remove disk a b)

pub read-rename :
    (disk : Disk) (from to b content : Bytes)
    → read_file disk from ≡ some content
    → read_file (rename_file disk from to) b
      ≡ (if eq_bytes to b then some content else if eq_bytes from b then none else read_file disk b)
unfolding rename_file
read-rename disk from to b content h =
    rw (h, rename_file)
      (ground (arith, read-write (remove_file disk from) to b content, read-remove disk from b))
