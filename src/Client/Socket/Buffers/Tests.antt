-- ===== src/Client/Socket/Buffers/Tests.antt =====
-- A socket that gets two events and sends two packets before it is connected.
use socket_io.Base.{◌≤◌, ◌≡◌, refl, true, false, none, some, [], ◌∷◌, ◌++◌}
use socket_io.Base.Maps.{str_eq}
use socket_io.Client.Socket.{
  ClientSocket, ClientEvent, EventHandler, text, something, ack_function, joined, new_client_socket,
  calls_on_error, sends_ack,
}
use socket_io.Client.Socket.Buffers.{
  call, take_offset, on_event, emit_buffered, acks_now, has_ack_func,
}
use socket_io.Client.Socket.Buffers.Acknowledged.{
  count_acks, emit_buffered-acks_once, emit_buffered-stops,
}
use socket_io.Client.Socket.Buffers.Offset.{on_event-offset}

abbrev plain : EventHandler
plain = record { number = 1; input_args = 1; ack = false; acknowledges = false }

abbrev replies : EventHandler
replies = record { number = 2; input_args = 1; ack = true; acknowledges = true }

abbrev told : ClientEvent
told = record { handler = plain; header_id = none; values = something ∷ [] }

abbrev asked : ClientEvent
asked = record { handler = replies; header_id = some 7; values = ack_function ∷ [] }

abbrev said : ClientEvent
said = record { handler = plain; header_id = none; values = text "hello" ∷ [] }

abbrev asked_first : ClientSocket
asked_first = record new_client_socket { receive_buffer = asked ∷ told ∷ [] }

abbrev with_session : ClientSocket
with_session = record new_client_socket { state = joined; pid = "p" }

emit_buffered-acks_once_example : count_acks 7 (emit_buffered asked_first).1 ≤ 1
emit_buffered-acks_once_example = emit_buffered-acks_once 7 asked_first

emit_buffered-stops_example :
    ((emit_buffered asked_first).1
      ≡ call asked.handler (take_offset asked.values asked_first).1 ++ (sends_ack 7 ∷ []))
    × (((emit_buffered asked_first).0.receive_buffer ≡ asked_first.receive_buffer)
        × ((emit_buffered asked_first).0.send_buffer ≡ asked_first.send_buffer))
unfolding take_offset acks_now has_ack_func new_client_socket str_eq
emit_buffered-stops_example = emit_buffered-stops 7 asked (told ∷ []) asked_first refl refl refl

on_event-offset_example :
    ((on_event said false with_session).1.0 ≡ calls_on_error ∷ [])
    × ((on_event said false with_session).0.last_offset ≡ "hello")
unfolding new_client_socket str_eq
on_event-offset_example = on_event-offset said false "hello" with_session refl refl refl refl
