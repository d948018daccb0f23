-- ===== src/Client/Socket/Buffers.antt =====
-- What a socket keeps for later: packets until it is connected, and events until then.
pub mod Acknowledged
pub mod Delivery
pub mod Offset
mod Tests
use Prim.Native.String.{String}
use socket_io.Base.{
  ℕ, ◌+◌, Bool, true, false, not, ◌&&◌, ◌||◌, ◌==◌, Option, none, some, List, [], ◌∷◌, ◌++◌, Bytes,
  map, elem, length, if◌then◌else◌, Result, ok, err,
}
use socket_io.EngineIo.Packet.{Packet}
use socket_io.Server.Wire
use socket_io.Client.Socket.{
  ClientSocket, EventHandler, ClientEvent, SendBufferItem, Value, text, is_joined,
  is_connect_pending, has_pid, Effect, calls_on_error, gives_manager, calls_handler, sends_ack,
}

abbrev pub keep : Option ℕ → Packet → SendBufferItem
keep ack_id packet = record { ack_id = ack_id; packet = packet }

-- `_sendBuffers`, the packets being made.
unfoldable pub send_packets :
    Bool → Bool → Option ℕ → List Packet → ClientSocket → ClientSocket × List Effect
send_packets volatile force_send ack_id packets s =
    if (is_joined s.state || is_connect_pending s.state) || force_send
    then (s, gives_manager packets ∷ [])
    else if not volatile
    then (record s { send_buffer = s.send_buffer ++ map (keep ack_id) packets }, [])
    else (s, [])

-- `_sendBuffers`; the packets are made as on the side of the server.
unfoldable pub send_buffers :
    Bool → Bool → Option ℕ → List Bytes → ClientSocket → ClientSocket × List Effect
unfolding send_packets
send_buffers volatile force_send ack_id buffers s =
    if length buffers == 0 then (s, []) else elim (Wire.send_buffers buffers) [
      | ok packets ↦ send_packets volatile force_send ack_id packets s
      | err e ↦ (s, calls_on_error ∷ [])
    ]

-- The last value, if it is a string, and the values before it.
abbrev pub last_text : List Value → Option String
last_text [] = none
last_text (text offset ∷ []) = some offset
last_text (v ∷ []) = none
last_text (v ∷ w ∷ values) = last_text (w ∷ values)

abbrev pub without_last : List Value → List Value
without_last [] = []
without_last (v ∷ []) = []
without_last (v ∷ w ∷ values) = v ∷ without_last (w ∷ values)

-- The offset of an event, where the socket has a session.
unfoldable pub take_offset : List Value → ClientSocket → ClientSocket × List Value
take_offset values s =
    if has_pid s
    then elim (last_text values) [
      | none ↦ (s, values)
      | some offset ↦ (record s { last_offset = offset }, without_last values)
    ]
    else (s, values)

-- A handler is called with the number of values that it takes, or there is an error.
unfoldable pub call : EventHandler → List Value → List Effect
call handler values =
    if length values == handler.input_args
    then calls_handler handler.number values ∷ []
    else calls_on_error ∷ []

unfoldable pub has_ack_func : EventHandler → Option ℕ → Bool
has_ack_func handler none = false
has_ack_func handler (some id) = handler.ack

-- Whether the handler calls its acknowledgement function before it returns.
unfoldable pub acks_now : EventHandler → Option ℕ → List Value → Bool
unfolding has_ack_func
acks_now handler header_id values =
    has_ack_func handler header_id
    && (handler.acknowledges && (length values == handler.input_args))

-- A round of the loop in `emitBuffered` behind the call of the handler: what is sent, the
-- acknowledgements that count as sent, and whether the function returns.
pub record Answer : Type 0 where
  pub effects : List Effect
  pub sent : List ℕ
  pub returns : Bool

unfoldable pub answer_id : ℕ → Bool → Bool → List ℕ → Answer
answer_id id has_ack acks sent =
    let first = acks && not (elem id sent) in
    let sent' = if acks then id ∷ sent else sent in
    let effects = if first then sends_ack id ∷ [] else [] in
    if elem id sent' then record { effects = effects; sent = sent'; returns = true } else record {
      effects = effects ++ (if not has_ack then sends_ack id ∷ [] else []);
      sent = id ∷ sent';
      returns = false;
    }

unfoldable pub answer : Option ℕ → Bool → Bool → List ℕ → Answer
unfolding answer_id
answer none has_ack acks sent = record { effects = []; sent = sent; returns = false }
answer (some id) has_ack acks sent = answer_id id has_ack acks sent

-- The end of `emitBuffered`.
unfoldable pub flush : ClientSocket → ClientSocket × List Effect
flush s =
    let cleared = record s { receive_buffer = [] } in
    if length s.send_buffer == 0 then (cleared, []) else (
      record cleared { send_buffer = [] },
      gives_manager (map (λ (item : SendBufferItem). item.packet) s.send_buffer) ∷ [],
    )

unfoldable pub emit_events : List ClientEvent → List ℕ → ClientSocket → ClientSocket × List Effect
unfolding flush take_offset call acks_now answer
emit_events [] sent s = flush s
emit_events (event ∷ events) sent s =
    let (s', values) = take_offset event.values s in
    let called = call event.handler values in
    let replied =
      answer event.header_id (has_ack_func event.handler event.header_id)
        (acks_now event.handler event.header_id values) sent in
    let (end, rest) = emit_events events replied.sent s' in
    if replied.returns
    then (s', called ++ replied.effects)
    else (end, called ++ (replied.effects ++ rest))

unfoldable pub emit_buffered : ClientSocket → ClientSocket × List Effect
unfolding emit_events
emit_buffered s = emit_events s.receive_buffer [] s

-- What `sendAck` of an event that is not kept sends.
unfoldable pub send_ack : Bool → Option ℕ → List Effect
send_ack true (some id) = sends_ack id ∷ []
send_ack true none = []
send_ack false header_id = []

-- `callEvent` as `onEvent` calls it, with `sent` for an event that was answered.
unfoldable pub call_event : ClientEvent → Bool → ClientSocket → ClientSocket × (List Effect × Bool)
unfolding take_offset call acks_now send_ack
call_event event sent s =
    let (s', values) = take_offset event.values s in
    let acks = acks_now event.handler event.header_id values in
    (s', (call event.handler values ++ send_ack (acks && not sent) event.header_id, sent || acks))

-- `onEvent` for one handler, the values being decoded.
unfoldable pub on_event : ClientEvent → Bool → ClientSocket → ClientSocket × (List Effect × Bool)
unfolding call_event
on_event event sent s =
    if is_joined s.state
    then call_event event sent s
    else (record s { receive_buffer = s.receive_buffer ++ (event ∷ []) }, ([], sent))
