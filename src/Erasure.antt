-- ===== src/Erasure.antt =====
-- The erasure code of frontend/src/lib/erasure: the field and the code over it.
pub mod Outcome
pub mod Gf256
pub mod Matrix
pub mod ReedSolomon
pub mod Split
pub mod Tests
