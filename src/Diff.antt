-- ===== src/Diff.antt =====
-- The comparison of the disassemblies of two builds of the kernel (src/diff.py).
pub mod Functions
pub mod Lines
pub mod Signature
pub mod Filter
pub mod Instructions
pub mod Block
pub mod Offsets
pub mod LineSet
mod Tests
