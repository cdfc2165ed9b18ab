-- ===== src/Http/Agent.antt =====
-- http::Agent (include/libnode/detail/http/agent.h).
pub mod Pool
pub mod Fairness
mod Tests
