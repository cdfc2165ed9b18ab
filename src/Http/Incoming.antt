-- ===== src/Http/Incoming.antt =====
-- http::IncomingMessage (include/libnode/detail/http/incoming_message.h) and the parser's callbacks
-- that fill it (include/libnode/detail/http/parser.h).
pub mod State
pub mod Stream
pub mod Lines
pub mod Parser
pub mod Chunks
pub mod Order
pub mod Awake
pub mod Joining
pub mod Trailers
pub mod Filling
pub mod Split
mod Tests
