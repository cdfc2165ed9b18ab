-- ===== src/Datagram.antt =====
-- dgram::Socket (include/libnode/detail/dgram/socket.h).
pub mod State
pub mod Ops
pub mod Queue
pub mod Sending
pub mod Listening
pub mod Order
pub mod Closed
pub mod Refused
mod Tests
