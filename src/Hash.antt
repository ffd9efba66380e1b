-- ===== src/Hash.antt =====
-- What the code takes from the crates `sha2` and `hex`: a parameter of everything that hashes.
pub mod Toy
use backup_shield.Base.{◌*◌, ◌<◌, ◌≡◌, length, All, Bytes, arith}

-- SHA-256 gives 32 bytes, and `hex::encode` two ASCII digits for each byte. Nothing is assumed of
-- collisions.
pub record Hashes : Type 0 where
  pub sha256 : Bytes → Bytes
  pub hex : Bytes → Bytes
  pub length_sha256 : (bytes : Bytes) → length (sha256 bytes) ≡ 32
  pub length_hex : (bytes : Bytes) → length (hex bytes) ≡ 2 * length bytes
  pub hex_ascii : (bytes : Bytes) → All (λ c. c < 128) (hex bytes)

module _ (H : Hashes) where
  open H use {sha256, hex, length_sha256, length_hex, hex_ascii}

  -- `compute_checksum` of core/src/pack.rs
  unfoldable pub compute_checksum : Bytes → Bytes
  compute_checksum bytes = sha256 bytes

  -- `Repository::compute_hash`, and `hash_chunk` of ecc/src/repair.rs
  unfoldable pub compute_hash : Bytes → Bytes
  compute_hash bytes = hex (sha256 bytes)

  pub length-compute_checksum : (bytes : Bytes) → length (compute_checksum bytes) ≡ 32
  unfolding compute_checksum
  length-compute_checksum = length_sha256

  pub length-compute_hash : (bytes : Bytes) → length (compute_hash bytes) ≡ 64
  unfolding compute_hash
  length-compute_hash bytes = omega (arith, length_hex (sha256 bytes), length_sha256 bytes)

  pub compute_hash_ascii : (bytes : Bytes) → All (λ c. c < 128) (compute_hash bytes)
  unfolding compute_hash
  compute_hash_ascii bytes = hex_ascii (sha256 bytes)
