-- ===== src/Client/Reconnect/Overlooked.antt =====
-- A call of `Close` that `reconnect` does not see.
use socket_io.Base.{◌≡◌, refl, arith, true, false, [], ◌∷◌}
use socket_io.Client.Manager.{Manager, reconnecting, finish_connect, close, on_close}
use socket_io.Client.Reconnect.{
  Input, idle, dialing, max_reached, look, wake, dial_done, advance, run,
}

fresh_below_max : (m : Manager) → max_reached (close m).0 ≡ false
unfolding max_reached close on_close
fresh_below_max m = ground arith

-- If `Close` is called while `reconnect` waits for a connection, and that one fails, `reconnect` ends
-- after its next sleep, and the manager is left in the state of reconnecting and with `skipReconnect`
-- set.
pub run-close_reconnecting :
    (i j k : Input) (m : Manager)
    → i.dialed ≡ false
    → let r = run (i ∷ j ∷ k ∷ []) (dialing true) (close m).0 in
      (r.0 ≡ idle) × ((r.1.0.state ≡ reconnecting) × (r.1.0.skip_reconnect ≡ true))
unfolding run advance look wake dial_done finish_connect close on_close
run-close_reconnecting i j k m e = rw (e, fresh_below_max m) (refl, (refl, refl))
