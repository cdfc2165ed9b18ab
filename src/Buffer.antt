-- ===== src/Buffer.antt =====
-- Buffer (include/libnode/detail/buffer.h).
pub mod State
pub mod Ops
pub mod Splice
pub mod Copied
pub mod Slices
mod Tests
