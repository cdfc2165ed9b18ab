-- ===== src/Http/Message.antt =====
-- http::OutgoingMessage (include/libnode/detail/http/outgoing_message.h).
pub mod State
pub mod Ops
pub mod Head
pub mod Body
pub mod Framing
pub mod Told
pub mod Bodiless
pub mod Transfer
pub mod Response
pub mod Ending
pub mod Wire
pub mod Fields
pub mod Kept
mod Tests
