-- ===== src/Client/Socket/Buffers/Delivery.antt =====
-- What is kept for later is delivered in order.
use Prim.Native.String.{String}
use socket_io.Base.{
  ℕ, ◌≡◌, refl, sym, ap, ap₂, ◌∙◌, arith, Bool, true, false, not, ◌==◌, Option, none, some, List,
  [], ◌∷◌, ◌++◌, append_assoc, append-nil, map, length, All, if◌then◌else◌,
}
use socket_io.Base.Maps.{str_eq}
use socket_io.EngineIo.Packet.{Packet}
use socket_io.Client.Socket.{
  ClientSocket, ClientEvent, SendBufferItem, Value, left, has_pid, Effect, gives_manager,
}
use socket_io.Client.Socket.Buffers.{
  keep, send_packets, last_text, without_last, take_offset, call, has_ack_func, acks_now, answer,
  flush, emit_events, emit_buffered, on_event,
}
use socket_io.Client.Socket.Buffers.Offset.{take_offset-kept}

-- What happens to a socket before it is connected: an event reaches one of its handlers, or packets are
-- sent, not volatile.
pub data Meanwhile : Type 0 where
  gets : ClientEvent → Meanwhile
  sends : Option ℕ → List Packet → Meanwhile

pub run_all : List Meanwhile → ClientSocket → ClientSocket
run_all [] s = s
run_all (gets event ∷ calls) s = run_all calls (on_event event false s).0
run_all (sends ack_id packets ∷ calls) s =
    run_all calls (send_packets false false ack_id packets s).0

unfoldable pub events_of : List Meanwhile → List ClientEvent
events_of [] = []
events_of (gets event ∷ calls) = event ∷ events_of calls
events_of (sends ack_id packets ∷ calls) = events_of calls

unfoldable pub all_packets : List Meanwhile → List Packet
all_packets [] = []
all_packets (gets event ∷ calls) = all_packets calls
all_packets (sends ack_id packets ∷ calls) = packets ++ all_packets calls

pub items_of : List Meanwhile → List SendBufferItem
items_of [] = []
items_of (gets event ∷ calls) = items_of calls
items_of (sends ack_id packets ∷ calls) = map (keep ack_id) packets ++ items_of calls

-- The calls of the handlers, for a socket with this session.
unfoldable pub calls : ClientSocket → List ClientEvent → List Effect
calls s [] = []
calls s (event ∷ events) = call event.handler (take_offset event.values s).1 ++ calls s events

-- The packets, if there are any, in one call.
unfoldable pub gives : List Packet → List Effect
gives packets = if length packets == 0 then [] else gives_manager packets ∷ []

pub packets_of : List SendBufferItem → List Packet
packets_of items = map (λ (item : SendBufferItem). item.packet) items

packets_of-append :
    (items others : List SendBufferItem)
    → packets_of (items ++ others) ≡ packets_of items ++ packets_of others
unfolding packets_of
packets_of-append [] others = refl
packets_of-append (i ∷ items) others = ap (◌∷◌ i.packet) (packets_of-append items others)

packets_of-map :
    (ack_id : Option ℕ) (packets : List Packet) → packets_of (map (keep ack_id) packets) ≡ packets
unfolding packets_of
packets_of-map ack_id [] = refl
packets_of-map ack_id (p ∷ packets) = ap (◌∷◌ p) (packets_of-map ack_id packets)

length-packets_of : (items : List SendBufferItem) → length (packets_of items) ≡ length items
unfolding packets_of
length-packets_of [] = refl
length-packets_of (i ∷ items) = omega (arith, length-packets_of items)

flush-gives : (s : ClientSocket) → (flush s).1 ≡ gives (packets_of s.send_buffer)
unfolding flush gives packets_of
flush-gives s = ground (arith, length-packets_of s.send_buffer)

-- The offset of an event is read by the session alone.
record Same (s t : ClientSocket) : Type 0 where
  pid : s.pid ≡ t.pid
  send_buffer : s.send_buffer ≡ t.send_buffer

take_offset-Same :
    (values : List Value) (s t : ClientSocket) → Same s t → Same (take_offset values s).0 t
take_offset-Same values s t e =
    let same = take_offset-kept values s in
    record {
      pid = ap (λ (r : ClientSocket). r.pid) same ∙ e.pid;
      send_buffer = ap (λ (r : ClientSocket). r.send_buffer) same ∙ e.send_buffer;
    }

abbrev or_without : Option String → List Value → List Value
or_without none values = values
or_without (some offset) values = without_last values

-- The values that are left, by whether there is a session.
abbrev left_values : Bool → List Value → List Value
left_values true values = or_without (last_text values) values
left_values false values = values

take_offset-left_values :
    (values : List Value) (s : ClientSocket)
    → (take_offset values s).1 ≡ left_values (has_pid s) values
unfolding take_offset
take_offset-left_values values s = by_text (has_pid s) (last_text values) refl refl
  where
    by_text :
        (b : Bool) (o : Option String)
        → has_pid s ≡ b
        → last_text values ≡ o
        → (take_offset values s).1 ≡ left_values (has_pid s) values
    by_text true none p q = rw (p, q) refl
    by_text true (some offset) p q = rw (p, q) refl
    by_text false o p q = rw p refl

take_offset-values :
    (values : List Value) (s t : ClientSocket)
    → s.pid ≡ t.pid
    → (take_offset values s).1 ≡ (take_offset values t).1
take_offset-values values s t e =
    take_offset-left_values values s
    ∙ ap (λ pid. left_values (not (str_eq pid "")) values) e
    ∙ sym (take_offset-left_values values t)

pub calls-pid :
    (s t : ClientSocket) (events : List ClientEvent)
    → s.pid ≡ t.pid
    → calls s events ≡ calls t events
unfolding calls
calls-pid s t [] e = refl
calls-pid s t (event ∷ events) e =
    ap₂ (λ values rest. call event.handler values ++ rest) (take_offset-values event.values s t e)
      (calls-pid s t events e)

kept_packets :
    (ack_id : Option ℕ) (packets : List Packet) (s : ClientSocket)
    → s.state ≡ left
    → (send_packets false false ack_id packets s).0
      ≡ record s { send_buffer = s.send_buffer ++ map (keep ack_id) packets }
unfolding send_packets
kept_packets ack_id packets s e = rw e

kept_event :
    (event : ClientEvent) (s : ClientSocket)
    → s.state ≡ left
    → (on_event event false s).0 ≡ record s { receive_buffer = s.receive_buffer ++ (event ∷ []) }
unfolding on_event
kept_event event s e = rw e

abbrev pub with_kept : List SendBufferItem → List ClientEvent → ClientSocket → ClientSocket
with_kept items events s = record s {
  send_buffer = s.send_buffer ++ items;
  receive_buffer = s.receive_buffer ++ events;
}

-- All is kept of what reaches a socket that has no connection, and of what it sends.
pub run_all-kept :
    (calls : List Meanwhile) (s : ClientSocket)
    → s.state ≡ left
    → run_all calls s ≡ with_kept (items_of calls) (events_of calls) s
unfolding run_all items_of events_of
run_all-kept [] s e =
    ap₂ (λ items events. record s { send_buffer = items; receive_buffer = events })
      (sym (append-nil s.send_buffer)) (sym (append-nil s.receive_buffer))
run_all-kept (gets event ∷ calls) s e =
    ap (run_all calls) (kept_event event s e)
    ∙ run_all-kept calls (record s { receive_buffer = s.receive_buffer ++ (event ∷ []) }) e
    ∙ ap
        (λ events. record s {
          send_buffer = s.send_buffer ++ items_of calls;
          receive_buffer = events;
        })
        (append_assoc s.receive_buffer (event ∷ []) (events_of calls))
run_all-kept (sends ack_id packets ∷ calls) s e =
    let items = map (keep ack_id) packets in
    ap (run_all calls) (kept_packets ack_id packets s e)
    ∙ run_all-kept calls (record s { send_buffer = s.send_buffer ++ items }) e
    ∙ ap
        (λ all. record s {
          send_buffer = all;
          receive_buffer = s.receive_buffer ++ events_of calls;
        })
        (append_assoc s.send_buffer items (items_of calls))

pub packets_of-items_of : (calls : List Meanwhile) → packets_of (items_of calls) ≡ all_packets calls
unfolding items_of packets_of all_packets
packets_of-items_of [] = refl
packets_of-items_of (gets event ∷ calls) = packets_of-items_of calls
packets_of-items_of (sends ack_id packets ∷ calls) =
    packets_of-append (map (keep ack_id) packets) (items_of calls)
    ∙ ap₂ ◌++◌ (packets_of-map ack_id packets) (packets_of-items_of calls)

no_answer :
    (event : ClientEvent) (has_ack acks : Bool) (sent : List ℕ)
    → event.header_id ≡ none
    → answer event.header_id has_ack acks sent
      ≡ record { effects = []; sent = sent; returns = false }
unfolding answer
no_answer event has_ack acks sent e = rw e

-- Events that ask for no acknowledgement.
emit_events-no_ids :
    (events : List ClientEvent) (sent : List ℕ) (s t : ClientSocket)
    → Same s t
    → All (λ event. event.header_id ≡ none) events
    → (emit_events events sent s).1 ≡ calls t events ++ gives (packets_of t.send_buffer)
unfolding emit_events calls
emit_events-no_ids [] sent s t e n =
    flush-gives s ∙ ap (λ items. gives (packets_of items)) e.send_buffer
emit_events-no_ids (event ∷ events) sent s t e n =
    let s' = (take_offset event.values s).0 in
    let values = (take_offset event.values s).1 in
    let rest = emit_events-no_ids events sent s' t (take_offset-Same event.values s t e) n.1 in
    rw
      (no_answer event (has_ack_func event.handler event.header_id)
        (acks_now event.handler event.header_id values) sent n.0)
      (ap (λ effects. call event.handler values ++ effects) rest
        ∙ ap (λ v. call event.handler v ++ (calls t events ++ gives (packets_of t.send_buffer)))
            (take_offset-values event.values s t e.pid)
        ∙ sym (
            append_assoc (call event.handler (take_offset event.values t).1) (calls t events)
              (gives (packets_of t.send_buffer))))

-- What is delivered when a socket is connected, if no event asks for an acknowledgement.
pub emit_buffered-no_ids :
    (s : ClientSocket)
    → All (λ event. event.header_id ≡ none) s.receive_buffer
    → (emit_buffered s).1 ≡ calls s s.receive_buffer ++ gives (packets_of s.send_buffer)
unfolding emit_buffered
emit_buffered-no_ids s n =
    emit_events-no_ids s.receive_buffer [] s s (record { pid = refl; send_buffer = refl }) n
