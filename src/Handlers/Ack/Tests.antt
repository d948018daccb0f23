-- ===== src/Handlers/Ack/Tests.antt =====
-- A handler that is answered twice and whose timeout is then over.
use socket_io.Base.{◌≤◌, ◌≡◌, refl, true, false}
use socket_io.Handlers.Ack.{
  Pending, register_ack_handler, take_ack, call, on_timeout, Reached, registered, answered,
  called_back, woke,
}
use socket_io.Handlers.Ack.Once.{Reached-called_once}

abbrev answered_twice : Pending
answered_twice = on_timeout (take_ack (call (take_ack (register_ack_handler true))))

reached : Reached true answered_twice
unfolding register_ack_handler take_ack call
reached = woke refl (answered (called_back refl (answered registered)))

calls-answered_twice : answered_twice.calls ≡ 1
unfolding register_ack_handler take_ack call on_timeout
calls-answered_twice = refl

Reached-called_once_example :
    (answered_twice.calls ≤ 1)
    × (true ≡ true → answered_twice.timer ≡ false → answered_twice.calls ≡ 1)
Reached-called_once_example = Reached-called_once true answered_twice reached
