-- ===== src/Analysis.antt =====
-- The comparison of builds that differ in a constant's value (src/codegen.py).
pub mod Ranges
pub mod Jump
pub mod Varying
pub mod Offsets
pub mod Compare
pub mod Reads
mod Tests
