-- ===== src/Server/Dispatch.antt =====
-- onPacket, onEvent and onAck of server_socket.go: what a socket does with a packet of its client. The
-- values are given by their number, which decoding finds, and so is what the middlewares say. A
-- handler is seen with the answers that it gives to its acknowledgement function.
pub mod Answered
mod Tests
use socket_io.Base.{
  ℕ, Bool, true, false, not, ◌&&◌, ◌==◌, ltb, Option, none, some, List, [], ◌∷◌, ◌++◌,
  if◌then◌else◌,
}
use socket_io.Parser.Header.{
  PacketType, connect, disconnect, event, ack, connect_error, binary_event, binary_ack,
}

-- `input_args` is the number of its arguments, and `has_ack` says whether the last is a function.
pub record EventHandler : Type 0 where
  pub id : ℕ
  pub input_args : ℕ
  pub has_ack : Bool
  pub answers : List ℕ

pub data Effect : Type 0 where
  calls_on_error closes_socket : Effect
  calls_handler : ℕ → Bool → Effect
  calls_ack sends_ack : ℕ → ℕ → Effect

-- What surrounds the socket: the number of values that decoding gives for a number of arguments, the
-- middlewares, and whether it is connected.
pub record Around : Type 0 where
  pub decode : ℕ → Option ℕ
  pub accepts : Bool
  pub connected : Bool

-- `sendAck`, called with each answer; the flag is `sent`.
unfoldable pub send_acks : ℕ → List ℕ → Bool → Bool × List Effect
send_acks id [] sent = (sent, [])
send_acks id (answer ∷ answers) sent =
    let (end, rest) = send_acks id answers true in
    (end, if sent then rest else sends_ack id answer ∷ rest)

-- The handler's call.
unfoldable pub call_handler : EventHandler → Option ℕ → Bool → Bool × List Effect
unfolding send_acks
call_handler h none sent = (sent, calls_handler h.id false ∷ [])
call_handler h (some id) sent =
    let (end, acks) = send_acks id h.answers sent in
    if h.has_ack
    then (end, calls_handler h.id true ∷ acks)
    else (sent, calls_handler h.id false ∷ [])

abbrev pub is_number : ℕ → Option ℕ → Bool
is_number n none = false
is_number n (some m) = m == n

unfoldable pub on_event : Around → EventHandler → Option ℕ → Bool → Bool × List Effect
unfolding call_handler
on_event around h id sent =
    if not (is_number h.input_args (around.decode h.input_args))
    then (sent, calls_on_error ∷ [])
    else if not around.accepts
    then (sent, calls_on_error ∷ [])
    else if not around.connected
    then (sent, [])
    else call_handler h id sent

unfoldable pub on_events : Around → List EventHandler → Option ℕ → Bool → Bool × List Effect
unfolding on_event
on_events around [] id sent = (sent, [])
on_events around (h ∷ handlers) id sent =
    let (sent', effects) = on_event around h id sent in
    let (end, rest) = on_events around handlers id sent' in (end, effects ++ rest)

-- A function that waits for an acknowledgement; its values do not count the error that it takes first.
pub record Waiting : Type 0 where
  pub id : ℕ
  pub input_args : ℕ

abbrev pub find_ack : ℕ → List Waiting → Option Waiting
find_ack id [] = none
find_ack id (w ∷ acks) = let found = find_ack id acks in if w.id == id then some w else found

abbrev pub delete_ack : ℕ → List Waiting → List Waiting
delete_ack id [] = []
delete_ack id (w ∷ acks) = let rest = delete_ack id acks in if w.id == id then rest else w ∷ rest

unfoldable pub on_ack : Around → Option ℕ → List Waiting → List Waiting × List Effect
on_ack around none acks = (acks, calls_on_error ∷ [])
on_ack around (some id) acks = elim (find_ack id acks) [
  | none ↦ (acks, calls_on_error ∷ [])
  | some w ↦ (
    delete_ack id acks,
    (if is_number w.input_args (around.decode w.input_args)
        then calls_ack id w.input_args ∷ []
        else calls_on_error ∷ []),
  )
]

-- Whether the type is a good one comes with the functions that still wait and the effects.
unfoldable pub on_packet :
    Around
    → PacketType
    → Option ℕ
    → List EventHandler
    → List Waiting
    → Bool × (List Waiting × List Effect)
unfolding on_events on_ack
on_packet around event id handlers acks = (true, (acks, (on_events around handlers id false).1))
on_packet around binary_event id handlers acks =
    (true, (acks, (on_events around handlers id false).1))
on_packet around ack id handlers acks = (true, on_ack around id acks)
on_packet around binary_ack id handlers acks = (true, on_ack around id acks)
on_packet around disconnect id handlers acks = (true, (acks, closes_socket ∷ []))
on_packet around connect id handlers acks = (false, (acks, []))
on_packet around connect_error id handlers acks = (false, (acks, []))
