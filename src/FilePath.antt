-- ===== src/FilePath.antt =====
-- The paths of src/path.cpp, on the systems whose separator is '/'.
pub mod Normalize
pub mod Parts
pub mod Pieces
pub mod Reduced
pub mod Canonical
pub mod Joined
pub mod Recombined
pub mod Idempotent
mod Tests
