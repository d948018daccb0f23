-- ===== src/Client/Reconnect/Reach/Invariant.antt =====
-- What holds in all states that a manager reaches.
use socket_io.Base.{ℕ, ◌≡◌, refl, Bool, true, false, ◌||◌, inr, List, elem}
use socket_io.Client.Backoff.{Backoff}
use socket_io.Client.Manager.{
  disconnected, Effect, Manager, new_manager, on_close, close, on_engine_close,
}
use socket_io.Client.Reconnect.{
  Input, Phase, idle, looking, sleeping, announcing, attempting, dialing, advance,
}
use socket_io.Client.Reconnect.Reach.{
  is_reconnecting, overlooks, Reached, made, opened, entered, advanced, closed, lost, Fits, Inv,
}
use socket_io.Client.Reconnect.Reach.Flags.{either, quiet, on_close-Callbacks, on_close-Heard}
use socket_io.Client.Reconnect.Reach.Steps.{
  open_first-Inv, enter_reconnect-Inv, look-Inv, wake-Inv, announce-Inv, attempt-Inv, dial_done-Inv,
}

advance-Inv :
    (f : Bool) (i : Input) (p : Phase) (m : Manager)
    → Inv f p m
    → Inv f (advance i p m).0 (advance i p m).1.0
unfolding advance
advance-Inv f i idle m v = v
advance-Inv f i looking m v = look-Inv f i m v
advance-Inv f i sleeping m v = wake-Inv f m v
advance-Inv f i announcing m v = announce-Inv f m v
advance-Inv f i attempting m v = attempt-Inv f m v
advance-Inv f i (dialing r) m v = dial_done-Inv f r i.dialed m v

close-Inv : (f : Bool) (p : Phase) (m : Manager) → Inv f p m → Inv (f || overlooks p) p (close m).0
unfolding close on_close
close-Inv f p m v = (
  fits f p,
  (
    on_close-Callbacks (record m { state = disconnected; skip_reconnect = true }),
    on_close-Heard p true m v.1.0 v.1.1,
  ),
)
  where
    fits : (f : Bool) (p : Phase) → Fits (f || overlooks p) p (close m).0
    fits true (dialing r) = refl
    fits true idle = tt
    fits true looking = tt
    fits true sleeping = tt
    fits true announcing = tt
    fits true attempting = tt
    fits false idle = refl
    fits false looking = tt
    fits false sleeping = inr refl
    fits false announcing = inr refl
    fits false attempting = tt
    fits false (dialing true) = refl
    fits false (dialing false) = refl

-- A connection, or a call of `eio.Dial`, whose close gets through at any point.
on_engine_close-Inv :
    (f : Bool) (p : Phase) (connection : ℕ) (m : Manager)
    → Inv f p m
    → Inv f p (on_engine_close connection m).0
unfolding on_engine_close on_close
on_engine_close-Inv f p connection m v =
    either (λ (r : Manager × List Effect). Inv f p r.0) (elem connection m.active)
      (λ e. (fits f p v.0, (on_close-Callbacks m, on_close-Heard p m.skip_reconnect m v.1.0 v.1.1)))
      (λ e. v)
  where
    fits : (f : Bool) (p : Phase) → Fits f p m → Fits f p (on_close m).0
    fits true (dialing r) w = refl
    fits true idle w = tt
    fits true looking w = tt
    fits true sleeping w = tt
    fits true announcing w = tt
    fits true attempting w = tt
    fits false idle w = refl
    fits false looking w = (refl, w.1)
    fits false sleeping w = inr refl
    fits false announcing w = inr refl
    fits false attempting w = (refl, w.1)
    fits false (dialing true) w = (refl, w.1)
    fits false (dialing false) w = refl

new_manager-Inv : (n : Bool) (l : ℕ) (b : Backoff) → Inv false idle (new_manager n l b)
unfolding new_manager
new_manager-Inv n l b = (refl, (quiet _ refl refl, tt))

Reached-Inv : {f : Bool} {p : Phase} {m : Manager} → Reached f p m → Inv f p m
Reached-Inv (made n l b) = new_manager-Inv n l b
Reached-Inv (opened {f = f} {m = m} r) = open_first-Inv f m (Reached-Inv r)
Reached-Inv (entered {f = f} {m = m} r) = enter_reconnect-Inv f m (Reached-Inv r)
Reached-Inv (advanced {f = f} {p = p} {m = m} i r) = advance-Inv f i p m (Reached-Inv r)
Reached-Inv (closed {f = f} {p = p} {m = m} r) = close-Inv f p m (Reached-Inv r)
Reached-Inv (lost {f = f} {p = p} {m = m} connection r) =
    on_engine_close-Inv f p connection m (Reached-Inv r)

-- When no goroutine connects or reconnects, a manager does not say that it is reconnecting, if since
-- the last `open` no call of `Close` came between the last test of `skipReconnect` in a round of
-- `reconnect` and the next look at the state.
pub Reached-settled : {m : Manager} → Reached false idle m → is_reconnecting m.state ≡ false
Reached-settled r = (Reached-Inv r).0
