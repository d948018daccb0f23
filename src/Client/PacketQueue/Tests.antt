-- ===== src/Client/PacketQueue/Tests.antt =====
-- A queue of two packets, with one retry.
use socket_io.Base.{◌≡◌, refl, arith, true, false, Option, none, some, List, [], ◌∷◌}
use socket_io.Client.PacketQueue.{
  PacketQueue, Effect, sends, calls_ack, new_client_packet_queue, drain_queue, add_to_queue,
  replacement_ack,
}
use socket_io.Client.PacketQueue.Flight.{
  Reached, made, added, added_behind, Inv, Reached-one_flying,
}

abbrev one : PacketQueue
one = (add_to_queue true true new_client_packet_queue).0

abbrev two : PacketQueue
two = (add_to_queue true true one).0

abbrev answer : Option (PacketQueue × List Effect) → PacketQueue × List Effect
answer none = (new_client_packet_queue, [])
answer (some r) = r

sends-first : (add_to_queue true true new_client_packet_queue).1 ≡ sends 0 ∷ []
unfolding add_to_queue new_client_packet_queue
sends-first = refl

-- The first packet is answered, and the second is sent.
answered-first : (answer (replacement_ack 1 true false 0 two)).1 ≡ calls_ack 0 false ∷ sends 1 ∷ []
unfolding replacement_ack add_to_queue new_client_packet_queue
answered-first = refl

-- The first packet is sent again at a new connection, and answered there; the timeout of its first
-- sending then takes the second one out of the queue.
late-timeout :
    let again = (drain_queue true true two).0 in
    let answered = (answer (replacement_ack 1 true false 0 again)).0 in
    (answered.queued_packets ≡ 1 ∷ [])
    × ((answer (replacement_ack 1 true true 0 answered)).0.queued_packets ≡ [])
unfolding replacement_ack add_to_queue drain_queue new_client_packet_queue
late-timeout = (refl, refl)

reached : Reached 1 (some 0) two
unfolding add_to_queue new_client_packet_queue
reached = added_behind true true (omega arith) (added true true (omega arith) made)

Reached-one_flying_example : Inv 1 (some 0) two
Reached-one_flying_example = Reached-one_flying reached
