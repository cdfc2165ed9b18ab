-- ===== src/Util.antt =====
-- The codecs of src/util.cpp.
pub mod Hex
pub mod Percent
pub mod Reference
pub mod Roundtrip
pub mod Extend
mod Tests
