-- ===== src/Querystring.antt =====
-- The query strings of src/querystring.cpp.
pub mod Parse
pub mod Print
pub mod Cutting
pub mod Fields
mod Tests
