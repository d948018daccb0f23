-- ===== src/Server/Dispatch/Tests.antt =====
-- An event with two handlers that both answer, and an acknowledgement.
use socket_io.Base.{ℕ, ◌≡◌, refl, true, some, List, [], ◌∷◌}
use socket_io.Parser.Header.{event, ack}
use socket_io.Server.Dispatch.{
  EventHandler, calls_handler, calls_ack, calls_on_error, sends_ack, Around, on_packet,
}
use socket_io.Server.Dispatch.Answered.{sent_acks, as_count, any_answers, on_packet-sent_acks}

abbrev around : Around
around = record { decode = λ n. some n; accepts = true; connected = true }

abbrev handler : ℕ → EventHandler
handler id = record { id = id; input_args = 2; has_ack = true; answers = 10 ∷ 11 ∷ [] }

abbrev handlers : List EventHandler
handlers = handler 0 ∷ handler 1 ∷ []

first_answer :
    (on_packet around event (some 7) handlers []).1.1
    ≡ calls_handler 0 true ∷ sends_ack 7 10 ∷ calls_handler 1 true ∷ []
unfolding on_packet
first_answer = refl

on_packet-sent_acks_example :
    sent_acks (on_packet around event (some 7) handlers []).1.1
    ≡ as_count (any_answers around handlers (some 7))
on_packet-sent_acks_example = on_packet-sent_acks around (some 7) handlers []

-- A second acknowledgement of an id is an error.
acknowledged :
    let first = on_packet around ack (some 3) [] (record { id = 3; input_args = 1 } ∷ []) in
    (first.1.1 ≡ calls_ack 3 1 ∷ [])
    × ((on_packet around ack (some 3) [] first.1.0).1.1 ≡ calls_on_error ∷ [])
unfolding on_packet
acknowledged = (refl, refl)
