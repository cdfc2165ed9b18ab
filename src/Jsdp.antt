-- ===== src/Jsdp.antt =====
-- jsdp::DiscoveryService (exts/jsdp/include/libnode/jsdp/detail/discovery_service.h).
pub mod State
pub mod Keys
pub mod Ops
pub mod Runs
pub mod Found
pub mod Discreet
pub mod Secrets
pub mod Exchange
pub mod Same
pub mod Timeouts
mod Tests
