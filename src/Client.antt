-- ===== src/Client.antt =====
-- The client package: a connection's table of replies, the calls, and the addresses of a cluster.
pub mod Conn
pub mod Link
pub mod Calls
pub mod Addrs
mod Tests
