-- ===== src/Restore/Entries.antt =====
-- The files and symbolic links under a restore's target, by path, and the calls of `std::fs` that
-- restore/src/restore.rs makes of them. Directories are not among the entries.
use backup_shield.Base.{
  ◌≡◌, Option, none, some, List, [], ◌∷◌, if◌then◌else◌, Bytes, arith, eq_bytes, eq_bytes_iff,
}

-- A regular file with its bytes, or a link with the path that it names.
pub data Entry : Type 0 where
  regular link : Bytes → Entry

abbrev pub Files : Type 0
Files = List (Bytes × Entry)

-- `lstat`: the entry itself.
unfoldable pub entry_at : Files → Bytes → Option Entry
entry_at [] path = none
entry_at ((p, entry) ∷ files) path = if eq_bytes p path then some entry else entry_at files path

-- `unlink`: the entry itself, a link included.
unfoldable pub remove_entry : Files → Bytes → Files
remove_entry [] path = []
remove_entry ((p, entry) ∷ files) path =
    let rest = remove_entry files path in if eq_bytes p path then rest else (p, entry) ∷ rest

unfoldable pub put_entry : Files → Bytes → Entry → Files
put_entry files path entry = (path, entry) ∷ remove_entry files path

-- `rename`: the entry itself moves, a link included, and replaces what stands at the other path.
unfoldable pub rename_entry : Files → Bytes → Bytes → Files
rename_entry files from to = elim (entry_at files from) [
  | none ↦ files
  | some entry ↦ put_entry (remove_entry files from) to entry
]

pub entry-remove :
    (files : Files) (a b : Bytes)
    → entry_at (remove_entry files a) b ≡ (if eq_bytes a b then none else entry_at files b)
unfolding entry_at remove_entry
entry-remove [] a b = ground arith
entry-remove ((p, entry) ∷ files) a b =
    ground (arith, eq_bytes_iff p a, eq_bytes_iff p b, eq_bytes_iff a b, entry-remove files a b)

pub entry-put :
    (files : Files) (a b : Bytes) (entry : Entry)
    → entry_at (put_entry files a entry) b ≡ (if eq_bytes a b then some entry else entry_at files b)
unfolding entry_at put_entry
entry-put files a b entry = ground (arith, entry-remove files a b)

pub entry-rename :
    (files : Files) (from to b : Bytes) (entry : Entry)
    → entry_at files from ≡ some entry
    → entry_at (rename_entry files from to) b
      ≡ (if eq_bytes to b then some entry else if eq_bytes from b then none else entry_at files b)
unfolding rename_entry
entry-rename files from to b entry h =
    rw (h, rename_entry)
      (ground (arith, entry-put (remove_entry files from) to b entry, entry-remove files from b))
