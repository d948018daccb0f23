-- ===== src/Client/Socket/Buffers/Acknowledged.antt =====
-- The acknowledgements of the events that were kept.
use socket_io.Base.{
  ℕ, ◌+◌, ◌≤◌, ◌≡◌, refl, ap, ◌∙◌, arith, Bool, true, false, ◌==◌, Option, none, some, List, [],
  ◌∷◌, ◌++◌, elem, ==_refl, if◌then◌else◌,
}
use socket_io.Client.Socket.{ClientSocket, ClientEvent, EventHandler, Value, Effect, sends_ack}
use socket_io.Client.Socket.Buffers.{
  take_offset, call, has_ack_func, acks_now, answer_id, answer, flush, emit_events, emit_buffered,
}
use socket_io.Client.Socket.Buffers.Offset.{take_offset-kept}

abbrev pub is_ack : ℕ → Effect → ℕ
is_ack id (sends_ack i) = if i == id then 1 else 0
is_ack id e = 0

-- How often an id is acknowledged.
pub count_acks : ℕ → List Effect → ℕ
count_acks id [] = 0
count_acks id (e ∷ effects) = is_ack id e + count_acks id effects

count_acks-append :
    (id : ℕ) (xs ys : List Effect) → count_acks id (xs ++ ys) ≡ count_acks id xs + count_acks id ys
unfolding count_acks
count_acks-append id [] ys = omega arith
count_acks-append id (e ∷ xs) ys = omega (arith, count_acks-append id xs ys)

either : {A : Type 0} (P : A → Type 0) (b : Bool) {x y : A} → P x → P y → P (if b then x else y)
either P true px py = px
either P false px py = py

-- Whether an acknowledgement counts as sent.
abbrev counted : ℕ → List ℕ → ℕ
counted id sent = if elem id sent then 1 else 0

call-count_acks :
    (id : ℕ) (handler : EventHandler) (values : List Value)
    → count_acks id (call handler values) ≡ 0
unfolding call count_acks
call-count_acks id handler values = ground arith

flush-count_acks : (id : ℕ) (s : ClientSocket) → count_acks id (flush s).1 ≡ 0
unfolding flush count_acks
flush-count_acks id s = ground arith

answer-count_acks :
    (id : ℕ) (header_id : Option ℕ) (has_ack acks : Bool) (sent : List ℕ)
    → let r = answer header_id has_ack acks sent in
      count_acks id r.effects + counted id sent ≤ counted id r.sent
unfolding answer answer_id count_acks
answer-count_acks id none has_ack acks sent = omega arith
answer-count_acks id (some i) true true sent = ground arith
answer-count_acks id (some i) true false sent = ground arith
answer-count_acks id (some i) false true sent = ground arith
answer-count_acks id (some i) false false sent = ground arith

counted-le : (id : ℕ) (sent : List ℕ) → counted id sent ≤ 1
counted-le id sent = ground arith

emit_events-count_acks :
    (id : ℕ) (events : List ClientEvent) (sent : List ℕ) (s : ClientSocket)
    → count_acks id (emit_events events sent s).1 + counted id sent ≤ 1
unfolding emit_events
emit_events-count_acks id [] sent s = omega (arith, flush-count_acks id s, counted-le id sent)
emit_events-count_acks id (event ∷ events) sent s =
    let (s', values) = take_offset event.values s in
    let has_ack = has_ack_func event.handler event.header_id in
    let acks = acks_now event.handler event.header_id values in
    let called = call event.handler values in
    let replied = answer event.header_id has_ack acks sent in
    let none_called = call-count_acks id event.handler values in
    let first = answer-count_acks id event.header_id has_ack acks sent in
    let rest = emit_events-count_acks id events replied.sent s' in
    either (λ (r : ClientSocket × List Effect). count_acks id r.1 + counted id sent ≤ 1)
      replied.returns
      (omega (
        arith,
        first,
        none_called,
        counted-le id replied.sent,
        count_acks-append id called replied.effects,
      ))
      (omega (
        arith,
        first,
        none_called,
        rest,
        count_acks-append id called (replied.effects ++ (emit_events events replied.sent s').1),
        count_acks-append id replied.effects (emit_events events replied.sent s').1,
      ))

-- Whatever events were kept, and whatever their handlers do before they return, no id is acknowledged
-- more than once when they are delivered.
pub emit_buffered-acks_once : (id : ℕ) (s : ClientSocket) → count_acks id (emit_buffered s).1 ≤ 1
unfolding emit_buffered
emit_buffered-acks_once id s = omega (arith, emit_events-count_acks id s.receive_buffer [] s)

answered_first :
    (id : ℕ) (header_id : Option ℕ) (has_ack acks : Bool)
    → header_id ≡ some id
    → acks ≡ true
    → answer header_id has_ack acks []
      ≡ record { effects = sends_ack id ∷ []; sent = id ∷ []; returns = true }
unfolding answer answer_id
answered_first id header_id has_ack acks h a = rw (h, a, ==_refl id) refl

stops :
    (id : ℕ) (event : ClientEvent) (events : List ClientEvent) (s : ClientSocket)
    → answer event.header_id
        (has_ack_func event.handler event.header_id)
        (acks_now event.handler event.header_id (take_offset event.values s).1)
        []
      ≡ record { effects = sends_ack id ∷ []; sent = id ∷ []; returns = true }
    → emit_events (event ∷ events) [] s ≡ (
      (take_offset event.values s).0,
      call event.handler (take_offset event.values s).1 ++ (sends_ack id ∷ []),
    )
unfolding emit_events
stops id event events s a = rw a refl

-- If the handler of the first event that was kept acknowledges it before it returns, then that event
-- is the only one delivered, nothing that was kept to be sent is sent, and all of it is kept on, this
-- event included.
pub emit_buffered-stops :
    (id : ℕ) (event : ClientEvent) (events : List ClientEvent) (s : ClientSocket)
    → s.receive_buffer ≡ event ∷ events
    → event.header_id ≡ some id
    → acks_now event.handler event.header_id (take_offset event.values s).1 ≡ true
    → ((emit_buffered s).1
        ≡ call event.handler (take_offset event.values s).1 ++ (sends_ack id ∷ []))
      × (((emit_buffered s).0.receive_buffer ≡ s.receive_buffer)
          × ((emit_buffered s).0.send_buffer ≡ s.send_buffer))
unfolding emit_buffered
emit_buffered-stops id event events s e h a =
    let has_ack = has_ack_func event.handler event.header_id in
    let whole =
      ap (λ kept. emit_events kept [] s) e
      ∙ stops id event events s (answered_first id event.header_id has_ack _ h a) in
    let same = take_offset-kept event.values s in
    (
      ap (λ (r : ClientSocket × List Effect). r.1) whole,
      (
        ap (λ (r : ClientSocket × List Effect). r.0.receive_buffer) whole
            ∙ ap (λ (t : ClientSocket). t.receive_buffer) same,
        ap (λ (r : ClientSocket × List Effect). r.0.send_buffer) whole
            ∙ ap (λ (t : ClientSocket). t.send_buffer) same,
      ),
    )
