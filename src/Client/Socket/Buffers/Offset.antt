-- ===== src/Client/Socket/Buffers/Offset.antt =====
-- The offset that is read off an event.
use Prim.Native.String.{String}
use socket_io.Base.{
  ℕ, suc, ◌<◌, ◌≡◌, refl, ap, ◌∙◌, arith, Bool, true, false, ◌||◌, Option, none, some, List, [],
  ◌∷◌, length, if-true,
}
use socket_io.Client.Socket.{
  ClientSocket, ClientEvent, EventHandler, Value, joined, is_joined, has_pid, Effect,
  calls_on_error,
}
use socket_io.Client.Socket.Buffers.{
  last_text, without_last, take_offset, call, acks_now, has_ack_func, call_event, on_event,
  send_ack,
}

-- Reading the offset changes nothing else.
pub take_offset-kept :
    (values : List Value) (s : ClientSocket)
    → (take_offset values s).0 ≡ record s { last_offset = (take_offset values s).0.last_offset }
unfolding take_offset
take_offset-kept values s = by_text (has_pid s) (last_text values) refl refl
  where
    by_text :
        (b : Bool) (o : Option String)
        → has_pid s ≡ b
        → last_text values ≡ o
        → (take_offset values s).0 ≡ record s { last_offset = (take_offset values s).0.last_offset }
    by_text true none p q = rw (p, q) refl
    by_text true (some offset) p q = rw (p, q) refl
    by_text false o p q = rw p refl

length-without_last :
    (v : Value) (values : List Value)
    → suc (length (without_last (v ∷ values))) ≡ length (v ∷ values)
length-without_last v [] = omega arith
length-without_last v (w ∷ values) = omega (arith, length-without_last w values)

length-last_text :
    (values : List Value) (offset : String)
    → last_text values ≡ some offset
    → length (without_last values) < length values
length-last_text [] offset e = absurd (let q : none ≡ some offset = e in cc)
length-last_text (v ∷ values) offset e = omega (arith, length-without_last v values)

one_short :
    (handler : EventHandler) (values : List Value)
    → length values < handler.input_args
    → call handler values ≡ calls_on_error ∷ []
unfolding call
one_short handler values h = ground arith

taken :
    (values : List Value) (offset : String) (s : ClientSocket)
    → has_pid s ≡ true
    → last_text values ≡ some offset
    → take_offset values s ≡ (record s { last_offset = offset }, without_last values)
unfolding take_offset
taken values offset s p q = rw (p, q) refl

not_acked :
    (handler : EventHandler) (header_id : Option ℕ) (values : List Value)
    → length values < handler.input_args
    → acks_now handler header_id values ≡ false
unfolding acks_now has_ack_func
not_acked handler none values h = refl
not_acked handler (some id) values h = ground arith

joined_calls :
    (event : ClientEvent) (sent : Bool) (s : ClientSocket)
    → s.state ≡ joined
    → on_event event sent s ≡ call_event event sent s
unfolding on_event
joined_calls event sent s j = if-true _ (ap is_joined j)

call_event-short :
    (event : ClientEvent) (sent : Bool) (s s' : ClientSocket) (values : List Value)
    → take_offset event.values s ≡ (s', values)
    → length values < event.handler.input_args
    → call_event event sent s ≡ (s', (calls_on_error ∷ [], sent || false))
unfolding call_event
call_event-short event sent s s' values t h =
    rw
      (
        t,
        one_short event.handler values h,
        not_acked event.handler event.header_id values h,
        send_ack,
      )
      refl

-- A socket that is connected and has a session takes a string that is the last value of an event for
-- the offset, also where the handler takes that value: the handler is not called then, but the error
-- is reported, and the string becomes the offset.
pub on_event-offset :
    (event : ClientEvent) (sent : Bool) (offset : String) (s : ClientSocket)
    → s.state ≡ joined
    → has_pid s ≡ true
    → last_text event.values ≡ some offset
    → length event.values ≡ event.handler.input_args
    → ((on_event event sent s).1.0 ≡ calls_on_error ∷ [])
      × ((on_event event sent s).0.last_offset ≡ offset)
on_event-offset event sent offset s j p q n =
    let short =
      call_event-short event sent s (record s { last_offset = offset }) (without_last event.values)
        (taken event.values offset s p q)
        (omega (arith, length-last_text event.values offset q, n)) in
    let whole = joined_calls event sent s j ∙ short in
    (
      ap (λ (r : ClientSocket × (List Effect × Bool)). r.1.0) whole,
      ap (λ (r : ClientSocket × (List Effect × Bool)). r.0.last_offset) whole,
    )
