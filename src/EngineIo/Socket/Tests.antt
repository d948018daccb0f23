-- ===== src/EngineIo/Socket/Tests.antt =====
-- A socket that is upgraded, and closed twice.
use socket_io.Base.{◌≡◌, refl, true, false, List, [], ◌∷◌, ◌++◌}
use socket_io.Base.Maps.{str_eq}
use socket_io.EngineIo.Packet.{Packet, message, noop}
use socket_io.EngineIo.Socket.{
  ServerSocket, Transport, new_server_socket, Call, gets, upgrades, transport_closes, server_closes,
  ping_times_out, pings, steps, send, upgrade_to, on_transport_close, without_noops,
}
use socket_io.EngineIo.Socket.Once.{count, is_close, is_leave, as_count, steps-close_once}
use socket_io.EngineIo.Socket.Upgraded.{upgrade_to-send}

abbrev hello : Packet
hello = record { is_binary = false; type = message; body = 50 ∷ [] }

abbrev nothing : Packet
nothing = record { is_binary = false; type = noop; body = [] }

abbrev polling : Transport
polling = record { name = "polling"; queued = nothing ∷ hello ∷ []; sent = [] }

abbrev websocket : Transport
websocket = record { name = "websocket"; queued = []; sent = [] }

abbrev socket : ServerSocket
socket = new_server_socket "a" polling

abbrev calls : List Call
calls =
    pings
    ∷ gets (hello ∷ [])
    ∷ upgrades websocket
    ∷ transport_closes "polling" true
    ∷ ping_times_out
    ∷ server_closes
    ∷ []

sent-steps : (steps calls socket).0.transport.sent ≡ hello ∷ []
unfolding new_server_socket steps str_eq
sent-steps = refl

steps-close_once_example :
    let r = steps calls socket in
    (count is_close r.1 ≡ as_count r.0.closed) × (count is_leave r.1 ≡ as_count r.0.closed)
unfolding new_server_socket
steps-close_once_example = steps-close_once calls socket refl

upgrade_to-send_example :
    let upgraded = send (hello ∷ []) (upgrade_to websocket socket).0 in
    (upgraded.transport.sent
      ≡ websocket.sent ++ (without_noops socket.transport.queued ++ (hello ∷ [])))
    × (on_transport_close socket.transport.name true upgraded ≡ (upgraded, []))
unfolding new_server_socket str_eq
upgrade_to-send_example = upgrade_to-send websocket (hello ∷ []) true socket refl
