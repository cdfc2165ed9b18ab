-- ===== src/Datagram/Order.antt =====
-- The messages of a dgram::Socket are looked up in the order of the calls of send().
use libnode.Buffer.State.{Buffer}
