-- ===== src/Client/Reconnect/Reach/Steps.antt =====
-- The steps of the goroutine that connects or reconnects keep what is known at each point.
use socket_io.Base.{
  ◌+◌, ◌||◌, ◌∷◌, elem, ==_refl, ◌≡◌, refl, sym, ap, ◌∙◌, Bool, true, false, inl, inr,
}
use socket_io.Client.Backoff.{duration, reset}
use socket_io.Client.Manager.{
  ClientConnectionState, connecting, connected, reconnecting, disconnected, Manager, is_connected,
  is_disconnected, start_connect, finish_connect, on_reconnect, cleanup,
}
use socket_io.Client.Reconnect.{
  Input, Moved, idle, looking, sleeping, announcing, attempting, dialing, open_first,
  enter_reconnect, max_reached, look, wake, announce, attempt, dial_done,
}
use socket_io.Client.Reconnect.Reach.{is_reconnecting, Asleep, Fits, Heard, Inv}
use socket_io.Client.Reconnect.Reach.Flags.{
  either, quiet, kept, connected-Callbacks, not_dialed-Callbacks,
}

not_reconnecting : (s : ClientConnectionState) → is_connected s ≡ true → is_reconnecting s ≡ false
not_reconnecting connected e = refl
not_reconnecting connecting e = refl
not_reconnecting reconnecting e = sym e
not_reconnecting disconnected e = refl

not_connected : (s : ClientConnectionState) → is_disconnected s ≡ true → is_connected s ≡ false
not_connected connected e = sym e
not_connected connecting e = refl
not_connected reconnecting e = refl
not_connected disconnected e = refl

-- A manager that is to skip the reconnection was closed, one that is not is reconnecting.
skipped : (m : Manager) → Asleep m → m.skip_reconnect ≡ true → is_reconnecting m.state ≡ false
skipped m (inl (s, k)) e = absurd (let q : true ≡ false = sym e ∙ k in cc)
skipped m (inr s) e = ap is_reconnecting s

asleep : (m : Manager) → Asleep m → is_connected m.state ≡ false
asleep m (inl (s, k)) = ap is_connected s
asleep m (inr s) = ap is_connected s

-- A call of `eio.Dial` begins.
dials-Heard :
    (recursed k : Bool) (m : Manager)
    → Heard (dialing recursed) (record m {
      skip_reconnect = k;
      state = connecting;
      active = (m.dial + 1) ∷ m.active;
      dial = m.dial + 1;
    })
dials-Heard recursed k m = (refl, ap (λ b. b || elem (m.dial + 1) m.active) (==_refl (m.dial + 1)))

pub open_first-Inv :
    (f : Bool) (m : Manager) → Inv f idle m → Inv false (open_first m).0 (open_first m).1.0
unfolding open_first start_connect
open_first-Inv f m v = of_state (is_connected m.state) refl
  where
    of_state : (b : Bool) → is_connected m.state ≡ b → Inv false (open_first m).0 (open_first m).1.0
    of_state true e = rw e (not_reconnecting m.state e, (kept m m.backoff false v.1.0, tt))
    of_state false e = rw e (refl, (quiet _ refl (v.1.0.1 e), dials-Heard false false m))

pub enter_reconnect-Inv :
    (f : Bool) (m : Manager) → Inv f idle m → Inv f (enter_reconnect m).0 (enter_reconnect m).1.0
unfolding enter_reconnect
enter_reconnect-Inv true m v =
    either (λ (r : Moved). Inv true r.0 r.1.0) m.skip_reconnect (λ e. v) (λ e. v)
enter_reconnect-Inv false m v =
    either (λ (r : Moved). Inv false r.0 r.1.0) m.skip_reconnect (λ e. v) (λ e. ((v.0, e), v.1))

pub look-Inv :
    (f : Bool) (i : Input) (m : Manager)
    → Inv f looking m
    → Inv f (look i.chance m).0 (look i.chance m).1.0
unfolding look
look-Inv f i m v =
    either (λ (r : Moved). Inv f r.0 r.1.0) (is_disconnected m.state)
      (λ e.
        let none = v.1.0.1 (not_connected m.state e) in
        either (λ (r : Moved). Inv f r.0 r.1.0) (max_reached m)
          (λ _. (gives_up f, (quiet _ refl none, tt)))
          (λ _. (falls_asleep f v.0, (quiet _ refl none, tt))))
      (λ e. (leaves f v.0, v.1))
  where
    gives_up :
        (f : Bool) → Fits f idle (record m { state = disconnected; backoff = reset m.backoff })
    gives_up true = tt
    gives_up false = refl

    falls_asleep :
        (f : Bool)
        → Fits f looking m
        → Fits f sleeping
            (record m { state = reconnecting; backoff = (duration i.chance m.backoff).0 })
    falls_asleep true w = tt
    falls_asleep false w = inl (refl, w.1)

    leaves : (f : Bool) → Fits f looking m → Fits f idle m
    leaves true w = tt
    leaves false w = w.0

pub wake-Inv : (f : Bool) (m : Manager) → Inv f sleeping m → Inv f (wake m).0 (wake m).1.0
unfolding wake
wake-Inv true m v = either (λ (r : Moved). Inv true r.0 r.1.0) m.skip_reconnect (λ e. v) (λ e. v)
wake-Inv false m v =
    either (λ (r : Moved). Inv false r.0 r.1.0) m.skip_reconnect (λ e. (skipped m v.0 e, v.1))
      (λ e. v)

pub announce-Inv :
    (f : Bool) (m : Manager) → Inv f announcing m → Inv f (announce m).0 (announce m).1.0
unfolding announce
announce-Inv true m v =
    either (λ (r : Moved). Inv true r.0 r.1.0) m.skip_reconnect (λ e. v) (λ e. v)
announce-Inv false m v =
    either (λ (r : Moved). Inv false r.0 r.1.0) m.skip_reconnect (λ e. (skipped m v.0 e, v.1))
      (λ e. ((asleep m v.0, e), v.1))

pub attempt-Inv :
    (f : Bool) (m : Manager) → Inv f attempting m → Inv f (attempt m).0 (attempt m).1.0
unfolding attempt start_connect on_reconnect
attempt-Inv f m v = of_state f (is_connected m.state) refl v
  where
    of_state :
        (f : Bool) (b : Bool)
        → is_connected m.state ≡ b
        → Inv f attempting m
        → Inv f (attempt m).0 (attempt m).1.0
    of_state true true e v = rw e (tt, (kept m (reset m.backoff) m.skip_reconnect v.1.0, tt))
    of_state false true e v =
        rw e (not_reconnecting m.state e, (kept m (reset m.backoff) m.skip_reconnect v.1.0, tt))
    of_state true false e v =
        rw e (refl, (quiet _ refl (v.1.0.1 e), dials-Heard true m.skip_reconnect m))
    of_state false false e v =
        rw e ((refl, v.0.1), (quiet _ refl (v.1.0.1 e), dials-Heard true m.skip_reconnect m))

Fits-idle : (f : Bool) (m : Manager) → is_reconnecting m.state ≡ false → Fits f idle m
Fits-idle true m e = tt
Fits-idle false m e = e

pub dial_done-Inv :
    (f r d : Bool) (m : Manager)
    → Inv f (dialing r) m
    → Inv f (dial_done r d m).0 (dial_done r d m).1.0
unfolding dial_done finish_connect on_reconnect cleanup
dial_done-Inv f true true m v =
    let done = (finish_connect true m).0 in
    (
      Fits-idle f _ refl,
      (
        kept done (reset done.backoff) done.skip_reconnect (connected-Callbacks true m v.1.0 v.1.1),
        tt,
      ),
    )
dial_done-Inv f false true m v = (Fits-idle f _ refl, (connected-Callbacks false m v.1.0 v.1.1, tt))
dial_done-Inv true true false m v = (tt, (not_dialed-Callbacks true m v.1.0 v.1.1, tt))
dial_done-Inv false true false m v = ((refl, v.0.1), (not_dialed-Callbacks true m v.1.0 v.1.1, tt))
dial_done-Inv f false false m v = (Fits-idle f _ refl, (quiet _ refl refl, tt))
