-- ===== src/Verify/Report.antt =====
-- What a verification reports: the types of verify/src/checker.rs. The duration is left out, and
-- the reason of an error is the reader's error in place of its text.
use backup_shield.Base.{ℕ, ◌+◌, ◌%◌, ◌^◌, Bool, true, false, List, [], ◌∷◌, Bytes}
use backup_shield.Base.Result.{Result, ok, err}
use backup_shield.Pack.Reader.{PackError}
use backup_shield.Repository.Index.{ChunkIndex, new_index}

pub data VerifyLevel : Type 0 where
  quick full : VerifyLevel
  sample : ℕ → VerifyLevel

-- `chunk_corrupt` and `file_hash_mismatch` end with the expected and the actual hash.
pub data VerifyError : Type 0 where
  chunk_corrupt : Bytes → Bytes → Bytes → VerifyError
  chunk_missing : Bytes → VerifyError
  snapshot_corrupt : Bytes → Bytes → VerifyError
  file_hash_mismatch : Bytes → Bytes → Bytes → VerifyError
  pack_corrupt : ℕ → PackError → VerifyError

pub record VerifyResult : Type 0 where
  pub level : VerifyLevel
  pub chunks_checked : ℕ
  pub chunks_ok : ℕ
  pub chunks_corrupt : ℕ
  pub chunks_missing : ℕ
  pub snapshots_checked : ℕ
  pub files_checked : ℕ
  pub packs_checked : ℕ
  pub errors : List VerifyError

unfoldable pub no_errors : List VerifyError → Bool
no_errors [] = true
no_errors (e ∷ errors) = false

unfoldable pub is_ok : VerifyResult → Bool
unfolding no_errors
is_ok r = no_errors r.errors

unfoldable pub total_chunk_errors : VerifyResult → ℕ
total_chunk_errors r = (r.chunks_corrupt + r.chunks_missing) % 2 ^ 64

-- `+= 1` on a `u64`, which wraps in a release build
unfoldable pub increment : ℕ → ℕ
increment n = (n + 1) % 2 ^ 64

-- A JSON file that serde reads: not there, not readable or not the right JSON, or its content.
pub data JsonFile (A : Type 0) : Type 0 where
  absent unreadable : JsonFile A
  parsed : A → JsonFile A

pub data VerifyFailure : Type 0 where
  no_repository no_config index_unreadable packs_unlisted : VerifyFailure

-- `Verifier::new`, of whether the path and its `config.toml` exist
unfoldable pub new_verifier : Bool → Bool → Result VerifyFailure (Unit {0})
new_verifier false config_exists = err no_repository
new_verifier true false = err no_config
new_verifier true true = ok tt

unfoldable pub load_index : JsonFile ChunkIndex → Result VerifyFailure ChunkIndex
load_index absent = ok new_index
load_index unreadable = err index_unreadable
load_index (parsed index) = ok index
