-- ===== src/Net/Socket.antt =====
-- net::Socket (include/libnode/detail/net/socket.h): its state, the operations that write, end and
-- destroy, the callbacks that libuv makes, and what is proved of them.
pub mod State
pub mod Ops
pub mod Connect
pub mod Receive
pub mod Safety
pub mod Callbacks
pub mod ReceiveSafety
pub mod Reach
pub mod Lifecycle
pub mod Transfer
pub mod Ending
pub mod Accounting
pub mod Defects
mod Tests
