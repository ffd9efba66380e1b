-- ===== src/Pack.antt =====
-- core/src/pack.rs: pack files.
pub mod Name
pub mod Disk
pub mod Format
pub mod Writer
pub mod Reader
pub mod RoundTrip
pub mod Stored
pub mod Sound
mod Tests
