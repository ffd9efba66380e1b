-- ===== src/Ecc.antt =====
-- crates/ecc/src: the Reed-Solomon codec over GF(256).
pub mod Field
pub mod Matrix
pub mod Codec
pub mod Parity
mod Tests
