-- ===== src/Server/Wire.antt =====
-- `sendBuffers` and `onEIOPacket` of server_conn.go: from the buffers of Socket.IO packets to
-- Engine.IO packets, and back.
pub mod Delivery
mod Tests
use socket_io.Base.{
  Option, List, [], ◌∷◌, ◌++◌, Bytes, Bool, true, false, if◌then◌else◌, Result, ok, err, ◌>>=◌,
}
use socket_io.EngineIo.Packet.{Packet, message, new_packet, is_message}
use socket_io.EngineIo.Packet
use socket_io.Parser.Header.{Fault}
use socket_io.Parser.Stream.{Parser, Finished, after, add}

attachment_packets : List Bytes → Result Packet.Error (List Packet)
attachment_packets [] = ok []
attachment_packets (attachment ∷ buffers) = do
  packet ← new_packet message true attachment
  packets ← attachment_packets buffers
  ok (packet ∷ packets)

-- The packets that are added to the queue of the connection.
unfoldable pub send_buffers : List Bytes → Result Packet.Error (List Packet)
unfolding attachment_packets
send_buffers [] = ok []
send_buffers (buf ∷ buffers) = do
  packet ← new_packet message false buf
  packets ← attachment_packets buffers
  ok (packet ∷ packets)

-- The parser takes the messages among the packets, up to the first that it refuses; where there is
-- one, the result is its error alone, without the packets before it, which were given on.
unfoldable pub on_eio_packet :
    (Bytes → Option (List Bytes)) → Parser → List Packet → Parser × Result Fault (List Finished)
on_eio_packet strings p [] = (p, ok [])
on_eio_packet strings p (packet ∷ packets) =
    let skipped = on_eio_packet strings p packets in
    if is_message packet.type
    then after (add strings p packet.body) (λ p'. on_eio_packet strings p' packets)
    else skipped
