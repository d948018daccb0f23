-- ===== src/Client/Reconnect/Tests.antt =====
-- A manager that gives up after two attempts, one that is closed, and one that connects again.
use socket_io.Base.{◌≡◌, refl, arith, true, false, none, List, [], ◌∷◌}
use socket_io.Client.Backoff.{Chance, new_backoff, duration, reset, plain_ms, deviated_ms}
use socket_io.Client.Manager.{
  Manager, new_manager, start_connect, finish_connect, close, on_close, on_engine_close, cleanup,
  without, reconnecting, disconnected,
}
use socket_io.Client.Reconnect.{
  Input, idle, looking, dialing, open_first, look, advance, run, max_reached, wake, announce,
  attempt, dial_done,
}
use socket_io.Client.Reconnect.Attempts.{GivesUp, run-GivesUp, count_dials}
use socket_io.Client.Reconnect.Overlooked.{run-close_reconnecting}
use socket_io.Client.Reconnect.Reach.{Reached, made, opened, advanced, lost, is_reconnecting}
use socket_io.Client.Reconnect.Reach.Invariant.{Reached-settled}

abbrev chance : Chance
chance = record { deviation = 0; up = false; too_large = 0 }

abbrev fails : Input
fails = record { chance = chance; dialed = false }

abbrev connects : Input
connects = record { chance = chance; dialed = true }

abbrev manager : Manager
manager = record {
  state = disconnected;
  eio = none;
  no_reconnection = false;
  reconnection_attempts = 2;
  skip_reconnect = false;
  backoff = record { min = 1000; max = 5000; factor = 2; jitter = false; num_attempts = 0 };
  active = [];
  subs = [];
  dial = 0;
}

abbrev failures : List Input
failures =
    fails ∷ fails ∷ fails ∷ fails ∷ fails ∷ fails ∷ fails ∷ fails ∷ fails ∷ fails ∷ fails ∷ []

run-failures : count_dials (run failures looking manager).1.1 ≡ 2
unfolding run advance look max_reached duration deviated_ms plain_ms wake announce attempt dial_done
    start_connect finish_connect cleanup without reset
run-failures = refl

run-GivesUp_example : GivesUp manager 2 (run failures looking manager)
run-GivesUp_example =
    run-GivesUp 2 failures manager (refl, refl) (omega arith) (omega arith) (omega arith)
      (refl, (refl, (refl, (refl, (refl, (refl, (refl, (refl, (refl, (refl, (refl, tt)))))))))))
      (omega arith)

run-close_reconnecting_example :
    let r = run (fails ∷ fails ∷ fails ∷ []) (dialing true) (close manager).0 in
    (r.0 ≡ idle) × ((r.1.0.state ≡ reconnecting) × (r.1.0.skip_reconnect ≡ true))
run-close_reconnecting_example = run-close_reconnecting fails fails fails manager refl

-- The first connection is lost, and another one is made.
abbrev first : Manager
first = new_manager false 2 (new_backoff 1000 5000 false)

abbrev online : Manager
online = (advance connects (dialing false) (open_first first).1.0).1.0

abbrev offline : Manager
offline = (on_engine_close 1 online).0

reached_online : Reached false idle online
unfolding new_manager open_first start_connect advance dial_done
reached_online = advanced connects (opened (made false 2 (new_backoff 1000 5000 false)))

reached_offline : Reached false idle offline
reached_offline = lost 1 reached_online

state-offline : offline.state ≡ disconnected
unfolding new_manager new_backoff open_first start_connect advance dial_done finish_connect cleanup
    without on_engine_close on_close reset
state-offline = refl

Reached-settled_example : is_reconnecting offline.state ≡ false
Reached-settled_example = Reached-settled reached_offline
