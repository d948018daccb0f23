-- ===== src/Client.antt =====
-- The client of Socket.IO: the manager of a connection, and the sockets on it.
pub mod Backoff
pub mod Manager
pub mod Reconnect
pub mod Socket
pub mod PacketQueue
