-- ===== src/Http/Server.antt =====
-- http::Server (include/libnode/detail/http/server.h).
pub mod State
pub mod Ops
pub mod Finish
pub mod Kept
pub mod Added
pub mod Order
pub mod Aborted
mod Tests
