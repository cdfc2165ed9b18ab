-- ===== src/Net/Server.antt =====
-- net::Server (include/libnode/detail/net/server.h).
pub mod State
pub mod Ops
pub mod Counting
pub mod Connections
pub mod Called
pub mod Relisten
mod Tests
