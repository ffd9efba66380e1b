-- ===== src/Restore.antt =====
-- crates/restore/src/restore.rs, on a system with Unix links: the options, the result and what the
-- restore takes from elsewhere. A path is a text; names of a snapshot hold no separator.
pub mod Entries
pub mod Paths
pub mod File
pub mod Tree
pub mod Clobber
pub mod Adds
pub mod Counted
mod Tests
use backup_shield.Base.{
  ℕ, ◌+◌, ◌%◌, ◌^◌, Bool, true, false, not, Option, none, some, List, [], ◌∷◌, ◌++◌, ◌||◌,
  if◌then◌else◌, Bytes,
}
use backup_shield.Base.Result.{Result, ok, err}
use Entries.{Files}

-- The reason of an error is left out, and so is the name that `ChunkCorrupt` gives it.
pub data RestoreError : Type 0 where
  chunk_missing chunk_corrupt : Bytes → Bytes → RestoreError
  file_write_error directory_create_error permission_error file_exists : Bytes → RestoreError

-- The paths of the repository and the snapshot's query are arguments of `restore`.
pub record RestoreOptions : Type 0 where
  pub target_path : Bytes
  pub file_filter : Option (List Bytes)
  pub dry_run : Bool
  pub verify : Bool
  pub overwrite : Bool
  pub preserve_permissions : Bool
  pub encryption_key : Option Bytes
  pub compression_enabled : Bool

pub record RestoreResult : Type 0 where
  pub files_restored : ℕ
  pub files_skipped : ℕ
  pub bytes_restored : ℕ
  pub directories_created : ℕ
  pub symlinks_created : ℕ
  pub errors : List RestoreError

pub record RestoreStats : Type 0 where
  pub files_total : ℕ
  pub files_processed : ℕ
  pub bytes_total : ℕ
  pub bytes_processed : ℕ

-- The result, the progress, and the files and links under the target.
pub record RestoreState : Type 0 where
  pub result : RestoreResult
  pub stats : RestoreStats
  pub files : Files

-- What the file system answers, by path. `resolve` is where a path leads that is opened, every link
-- followed, or none where it leads nowhere; `locate` follows all links but that at the path itself.
-- A write that fails may have written a part: so many bytes, or `none` where the file was not opened.
pub record RestoreIo : Type 0 where
  pub resolve : Files → Bytes → Option Bytes
  pub locate : Files → Bytes → Bytes
  pub is_directory : Bytes → Bool
  pub create_dir_fails : Bytes → Bool
  pub write_fails : Bytes → Bool
  pub written : Bytes → Option ℕ
  pub rename_fails : Bytes → Bool
  pub set_permissions_fails : Bytes → Bool
  pub remove_fails : Bytes → Bool
  pub symlink_fails : Bytes → Bool

-- The crates: AES-GCM by a key, zstd, and `glob`, where `none` is a pattern that does not parse.
pub record Crates : Type 0 where
  pub decrypt_chunk : Bytes → Bytes → Option Bytes
  pub decompress_chunk : Bytes → Option Bytes
  pub glob : Bytes → Option (Bytes → Bool)

-- `+=` on a `u64`, which wraps in a release build
unfoldable pub add_u64 : ℕ → ℕ → ℕ
add_u64 a b = (a + b) % 2 ^ 64

unfoldable pub push_error : RestoreError → RestoreResult → RestoreResult
push_error e r = record r { errors = r.errors ++ e ∷ [] }
