-- ===== src/Client/Socket/Life/Tests.antt =====
-- A socket that connects, loses its connection, and connects again.
use socket_io.Base.{
  ◌≡◌, true, false, none, some, List, [], ◌∷◌, refl, ◌&&◌, ◌||◌, length, if◌then◌else◌,
}
use socket_io.Base.Maps.{str_eq}
use socket_io.EngineIo.Packet.{Packet, message}
use socket_io.Client.Manager.{connected}
use socket_io.Client.Socket.{
  ClientSocket, ClientEvent, something, connect_pending, new_client_socket, has_pid,
}
use socket_io.Client.Socket.Life.{SidInfo, connect, on_close, accept}
use socket_io.Client.Socket.Buffers.Delivery.{Meanwhile, gets, sends}
use socket_io.Client.Socket.Life.Registered.{Reached, made, lost, opened, Reached-registered}
use socket_io.Client.Socket.Life.Registered
use socket_io.Client.Socket.Life.Recovery.{accept-recovered}

abbrev info : SidInfo
info = record { sid = "a"; pid = "p" }

abbrev online : ClientSocket
online = (connect connected new_client_socket).0

abbrev offline : ClientSocket
offline = (on_close online).0

reached_offline : Reached offline
unfolding new_client_socket
reached_offline = lost (Registered.connected connected refl made)

state-online : online.state ≡ connect_pending
unfolding connect new_client_socket
state-online = refl

Reached-registered_example : length offline.registered ≡ (if offline.active then 1 else 0)
Reached-registered_example = Reached-registered reached_offline

accept-recovered_example :
    (accept info offline).recovered
    ≡ (offline.recovered || (has_pid offline && str_eq offline.pid info.pid))
accept-recovered_example = accept-recovered info offline

abbrev hello : Packet
hello = record { is_binary = false; type = message; body = 50 ∷ 47 ∷ [] }

abbrev blob : Packet
blob = record { is_binary = true; type = message; body = 0 ∷ 255 ∷ [] }

abbrev told : ClientEvent
told = record {
  handler = record { number = 1; input_args = 1; ack = false; acknowledges = false };
  header_id = none;
  values = something ∷ [];
}

abbrev meanwhile : List Meanwhile
meanwhile =
    gets told ∷ sends none (hello ∷ blob ∷ []) ∷ gets told ∷ sends (some 1) (hello ∷ []) ∷ []
