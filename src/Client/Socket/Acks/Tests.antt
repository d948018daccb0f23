-- ===== src/Client/Socket/Acks/Tests.antt =====
-- A socket that has sent two packets before it is connected.
use socket_io.Base.{◌≡◌, refl, arith, true, false, none, some, [], ◌∷◌, ◌++◌, ok, err}
use socket_io.Handlers.Slices.{slice_bounds}
use socket_io.EngineIo.Packet.{Packet, message}
use socket_io.Client.Socket.{ClientSocket, new_client_socket}
use socket_io.Client.Socket.Buffers.{send_packets, keep}
use socket_io.Client.Socket.Acks.{keys, register_ack_handler, on_ack, on_timeout}
use socket_io.Client.Socket.Acks.Expired.{on_timeout-once, on_timeout-attachment}

abbrev hello : Packet
hello = record { is_binary = false; type = message; body = 50 ∷ 47 ∷ [] }

abbrev blob : Packet
blob = record { is_binary = true; type = message; body = 0 ∷ 255 ∷ [] }

abbrev waiting : ClientSocket
waiting = (send_packets false false (some 3) (hello ∷ []) new_client_socket).0

register-on_ack : (on_ack (some 0) (register_ack_handler new_client_socket).0).1 ≡ ([], true)
unfolding register_ack_handler on_ack new_client_socket
register-on_ack = refl

on_timeout-once_example :
    let sent = (send_packets false false (some 4) (hello ∷ []) waiting).0 in
    (on_timeout 4 (record sent { send_buffer = sent.send_buffer ++ (keep none blob ∷ []) })).1
    ≡ ok (keys waiting.send_buffer ++ keys (keep none blob ∷ []))
unfolding send_packets new_client_socket
on_timeout-once_example =
    on_timeout-once 4 hello waiting (keep none blob ∷ []) refl (omega arith, tt) (omega arith, tt)

on_timeout-attachment_example :
    (on_timeout 4 (send_packets false false (some 4) (hello ∷ blob ∷ []) waiting).0).1
    ≡ err slice_bounds
unfolding send_packets new_client_socket
on_timeout-attachment_example = on_timeout-attachment 4 hello blob waiting refl (omega arith, tt)
