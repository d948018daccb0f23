-- ===== src/EngineIo/ClientSocket/Tests.antt =====
-- Packets of a client, and its choice of a transport.
use Prim.Native.String.{String}
use socket_io.Base.{◌≡◌, refl, arith, Bool, true, false, Option, none, some, List, [], ◌∷◌, Bytes}
use socket_io.Base.Maps.{str_eq, str_elem}
use socket_io.EngineIo.Packet.{Packet, message, pong, upgrade}
use socket_io.EngineIo.ClientSocket.{
  HandshakeResponse, ClientSocket, sends, discards_transport, calls_upgrade_done, no_error,
  upgraded, connect, write_loop, write_writable_packets, maybe_upgrade, on_probe_packet, probe,
}
use socket_io.EngineIo.ClientSocket.Batches.{AreBatches, write_writable_packets-AreBatches}
use socket_io.EngineIo.ClientSocket.Chosen.{Chosen, maybe_upgrade-Chosen}

abbrev packet : Bytes → Packet
packet body = record { is_binary = false; type = message; body = body }

-- Two packets of two bytes, and one of three.
abbrev packets : List Packet
packets = packet (1 ∷ []) ∷ packet (2 ∷ []) ∷ packet (3 ∷ 4 ∷ []) ∷ []

write_writable_packets-AreBatches_example :
    AreBatches 5 packets (write_writable_packets 5 "polling" packets)
write_writable_packets-AreBatches_example =
    write_writable_packets-AreBatches 5 packets (omega arith)

-- With a limit of four bytes the second batch has six, with a separator.
too_large :
    write_loop 4 0 [] packets
    ≡ (packet (1 ∷ []) ∷ []) ∷ (packet (2 ∷ []) ∷ packet (3 ∷ 4 ∷ []) ∷ []) ∷ []
unfolding write_loop
too_large = refl

abbrev answers : String → Bool
answers name = str_eq name "websocket"

abbrev names : List String
names = "websocket" ∷ "webtransport" ∷ []

chosen : maybe_upgrade answers "polling" names names ≡ upgraded "websocket"
unfolding maybe_upgrade str_elem str_eq
chosen = refl

maybe_upgrade-Chosen_example : Chosen answers names names "websocket"
maybe_upgrade-Chosen_example = maybe_upgrade-Chosen answers "polling" names names "websocket" chosen

abbrev fresh : ClientSocket
fresh = record {
  transport = none;
  sid = "";
  upgrades = [];
  ping_interval = 0;
  ping_timeout = 0;
  max_payload = 0;
  closed = false;
}

abbrev response : HandshakeResponse
response = record {
  sid = "a";
  upgrades = names;
  ping_interval = 25;
  ping_timeout = 20;
  max_payload = 100;
}

abbrev only_polling : String → Option HandshakeResponse
only_polling name = if_polling (str_eq name "polling")
  where
    if_polling : Bool → Option HandshakeResponse
    if_polling true = some response
    if_polling false = none

-- The handshake of the first transport fails, and the second is used.
second :
    let r = connect only_polling ("websocket" ∷ "polling" ∷ "webtransport" ∷ []) fresh in
    (r.0.transport ≡ some "polling") × ((r.1.0 ≡ no_error) × (r.1.1 ≡ "webtransport" ∷ []))
unfolding connect str_eq
second = (refl, (refl, refl))

abbrev probed : Packet
probed = record { is_binary = false; type = pong; body = probe }

-- A second answer to a probe, in the same batch, discards the transport that was just taken.
two_answers :
    let first =
      (on_probe_packet "websocket" probed (record fresh { transport = some "polling" })).0 in
    (on_probe_packet "websocket" probed first).1
    ≡ discards_transport (some "websocket")
      ∷ sends (record { is_binary = false; type = upgrade; body = [] } ∷ [])
      ∷ calls_upgrade_done "websocket"
      ∷ []
unfolding on_probe_packet
two_answers = refl
