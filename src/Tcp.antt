-- ===== src/Tcp.antt =====
-- The TCP classes of include/server.
pub mod Server
pub mod Socket
