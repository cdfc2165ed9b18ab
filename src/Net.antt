-- ===== src/Net.antt =====
-- The network layer: net::Socket of include/libnode/detail/net/socket.h and net::Server of
-- include/libnode/detail/net/server.h.
pub mod Socket
pub mod Server
