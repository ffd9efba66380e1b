-- ===== src/Verify.antt =====
-- crates/verify: the checker and the scrubber, which read a repository and report what is damaged.
pub mod Report
pub mod Chunks
pub mod Files
pub mod Checker
pub mod Scrub
pub mod Clean
pub mod Intact
pub mod Sound
pub mod Restorable
pub mod Counted
mod Tests
