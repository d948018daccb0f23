-- ===== src/Parser.antt =====
-- The Socket.IO packet parser (parser/ and parser/json/): the header in front of the JSON text, and
-- the stream of packets with their binary attachments.
pub mod Header
pub mod Decode
pub mod Stream
mod Samples
