-- ===== src/EngineIo/Socket.antt =====
-- engine.io/server_socket.go: a socket of the Engine.IO server, with its transport and what is given
-- to that. Each method is one step; the goroutine that sends pings is at one of its waits.
pub mod Once
pub mod Upgraded
mod Tests
use Prim.Native.String.{String}
use socket_io.Base.{ℕ, Bool, true, false, not, ◌&&◌, ◌||◌, List, [], ◌∷◌, ◌++◌, if◌then◌else◌}
use socket_io.Base.Maps.{str_eq}
use socket_io.EngineIo.Packet.{
  Packet, PacketType, open_type, close_type, ping, pong, message, upgrade, noop,
}

pub data Reason : Type 0 where
  transport_close transport_error forced_close ping_timeout : Reason

-- `queued` are the packets that `QueuedPackets` gives, `sent` those that `Send` was called with.
pub record Transport : Type 0 where
  pub name : String
  pub queued : List Packet
  pub sent : List Packet

-- `closed` stands for the closed channel, which `closeOnce` closes; `pong_waits` for the channel of one
-- pong.
pub record ServerSocket : Type 0 where
  pub id : String
  pub transport : Transport
  pub closed : Bool
  pub pong_waits : Bool

pub data Effect : Type 0 where
  closes_transport discards_transport : String → Effect
  calls_on_packet : List Packet → Effect
  calls_on_close : Reason → Effect
  leaves_store : String → Effect

unfoldable pub new_server_socket : String → Transport → ServerSocket
new_server_socket id transport = record {
  id = id;
  transport = transport;
  closed = false;
  pong_waits = false;
}

abbrev pub is_noop : PacketType → Bool
is_noop noop = true
is_noop _ = false

abbrev pub without_noops : List Packet → List Packet
without_noops [] = []
without_noops (p ∷ packets) =
    let rest = without_noops packets in if not (is_noop p.type) then p ∷ rest else rest

unfoldable pub send : List Packet → ServerSocket → ServerSocket
send packets s = record s { transport = record s.transport { sent = s.transport.sent ++ packets } }

-- `upgradeTo`.
unfoldable pub upgrade_to : Transport → ServerSocket → ServerSocket × List Effect
upgrade_to t s = (
  record s { transport = record t { sent = t.sent ++ without_noops s.transport.queued } },
  discards_transport s.transport.name ∷ [],
)

abbrev pub is_of_transport : Reason → Bool
is_of_transport transport_close = true
is_of_transport transport_error = true
is_of_transport _ = false

unfoldable pub close : Reason → ServerSocket → ServerSocket × List Effect
close reason s = if s.closed then (s, []) else (
  record s { closed = true },
  (if not (is_of_transport reason) then closes_transport s.transport.name ∷ [] else [])
      ++ (calls_on_close reason ∷ leaves_store s.id ∷ []),
)

-- Whether the transport was closed with an error.
unfoldable pub on_transport_close : String → Bool → ServerSocket → ServerSocket × List Effect
unfolding close
on_transport_close name with_error s =
    if s.closed
    then (s, [])
    else if not (str_eq s.transport.name name)
    then (s, [])
    else close (if with_error then transport_error else transport_close) s

unfoldable pub handle_packet : PacketType → ServerSocket → ServerSocket × List Effect
handle_packet pong s = (record s { pong_waits = true }, [])
handle_packet close_type s = (s, closes_transport s.transport.name ∷ [])
handle_packet _ s = (s, [])

pub handle_packets : List Packet → ServerSocket → ServerSocket × List Effect
unfolding handle_packet
handle_packets [] s = (s, [])
handle_packets (p ∷ packets) s =
    let (s', effects) = handle_packet p.type s in
    let (end, rest) = handle_packets packets s' in (end, effects ++ rest)

unfoldable pub on_packet : List Packet → ServerSocket → ServerSocket × List Effect
unfolding handle_packets
on_packet packets s =
    let (s', effects) = handle_packets packets s in (s', calls_on_packet packets ∷ effects)

abbrev pub ping_packet : Packet
ping_packet = record { is_binary = false; type = ping; body = [] }

-- A round of `pingPong`: after the interval, and at its second wait, where a pong is there or the time
-- is over.
unfoldable pub send_ping : ServerSocket → ServerSocket
unfolding send
send_ping s = if s.closed then s else send (ping_packet ∷ []) s

unfoldable pub take_pong : ServerSocket → ServerSocket
take_pong s = record s { pong_waits = false }

unfoldable pub on_ping_timeout : ServerSocket → ServerSocket × List Effect
unfolding close
on_ping_timeout s = close ping_timeout s

-- What reaches a socket.
pub data Call : Type 0 where
  sends : List Packet → Call
  gets : List Packet → Call
  upgrades : Transport → Call
  transport_closes : String → Bool → Call
  server_closes pings takes_pong ping_times_out : Call

unfoldable pub step : Call → ServerSocket → ServerSocket × List Effect
unfolding send on_packet upgrade_to on_transport_close close send_ping take_pong on_ping_timeout
step (sends packets) s = (send packets s, [])
step (gets packets) s = on_packet packets s
step (upgrades t) s = upgrade_to t s
step (transport_closes name with_error) s = on_transport_close name with_error s
step server_closes s = close forced_close s
step pings s = (send_ping s, [])
step takes_pong s = (take_pong s, [])
step ping_times_out s = on_ping_timeout s

unfoldable pub steps : List Call → ServerSocket → ServerSocket × List Effect
unfolding step
steps [] s = (s, [])
steps (c ∷ calls) s =
    let (s', effects) = step c s in let (end, rest) = steps calls s' in (end, effects ++ rest)
