-- ===== src/Jsonrpc.antt =====
-- jsonrpc::Service (exts/jsonrpc/include/libnode/jsonrpc/detail/service.h).
pub mod State
pub mod Request
pub mod Service
pub mod Named
pub mod Responses
pub mod Counting
pub mod Once
pub mod Answers
pub mod Lifecycle
mod Tests
