-- ===== src/Handlers/Ack.antt =====
-- `ackHandler` of handler.go, as a server socket uses it (server_socket.go): a function that is to be
-- called with the answer of the other side, or with an error when the time is over. A handler is seen
-- with its place in the map `acks` and with the goroutines that may call it; each of the pieces under a
-- mutex is one step. That ids differ is not part of this view: the map has one entry for the handler.
pub mod Once
mod Tests
use socket_io.Base.{ℕ, suc, ◌+◌, ◌≡◌, Bool, true, false, if◌then◌else◌}

pub record AckHandler : Type 0 where
  pub called : Bool
  pub timed_out : Bool

-- The handler; whether it is in the map; whether a goroutine has taken it from there to call it; whether
-- the goroutine that waits for its timeout has not woken yet; and how often the function was called.
pub record Pending : Type 0 where
  pub handler : AckHandler
  pub in_acks : Bool
  pub taken : Bool
  pub timer : Bool
  pub calls : ℕ

-- `registerAckHandler`, with a timeout or without.
unfoldable pub register_ack_handler : Bool → Pending
register_ack_handler with_timeout = record {
  handler = record { called = false; timed_out = false };
  in_acks = true;
  taken = false;
  timer = with_timeout;
  calls = 0;
}

-- `onAck`, the part under the mutex of the map: a handler that is there is taken out of it.
unfoldable pub take_ack : Pending → Pending
take_ack p = if p.in_acks then record p { in_acks = false; taken = true } else p

-- `onAck` ends early where the answer cannot be decoded or has the wrong number of values.
unfoldable pub drop_ack : Pending → Pending
drop_ack p = record p { taken = false }

-- `call`.
unfoldable pub call : Pending → Pending
call p = if p.handler.timed_out then record p { taken = false } else record p {
  handler = record p.handler { called = true };
  taken = false;
  calls = p.calls + 1;
}

-- The goroutine of `newAckHandlerWithTimeout` behind its sleep, with the function that takes the
-- handler out of the map.
unfoldable pub on_timeout : Pending → Pending
on_timeout p = if p.handler.called then record p { timer = false } else record p {
  handler = record p.handler { timed_out = true };
  in_acks = false;
  timer = false;
  calls = p.calls + 1;
}

-- What can happen to a registered handler, in any order.
pub data Reached (with_timeout : Bool) : Pending → Type 0 where
  registered : Reached with_timeout (register_ack_handler with_timeout)
  answered : {p : Pending} → Reached with_timeout p → Reached with_timeout (take_ack p)
  undecodable :
      {p : Pending} → p.taken ≡ true → Reached with_timeout p → Reached with_timeout (drop_ack p)
  called_back :
      {p : Pending} → p.taken ≡ true → Reached with_timeout p → Reached with_timeout (call p)
  woke :
      {p : Pending} → p.timer ≡ true → Reached with_timeout p → Reached with_timeout (on_timeout p)
