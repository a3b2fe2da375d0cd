-- ===== src/Gen.antt =====
-- pkg/gen: generated and pseudonymized values.
pub mod Mask
pub mod Random
pub mod Values
