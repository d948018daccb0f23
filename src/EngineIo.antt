-- ===== src/EngineIo.antt =====
-- The Engine.IO layer (engine.io/).
pub mod Packet
pub mod Payload
pub mod Frame
pub mod Ids
pub mod Socket
pub mod Server
pub mod ClientSocket
