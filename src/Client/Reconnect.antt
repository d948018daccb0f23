-- ===== src/Client/Reconnect.antt =====
-- The goroutine that connects or reconnects, one at a time under `connectMu`. A step goes from one
-- point to the next at which the other goroutines of the program can come in between.
pub mod Attempts
pub mod Overlooked
pub mod Reach
mod Tests
use socket_io.Base.{
  ℕ, ◌-◌, ◌^◌, Bool, true, false, ◌&&◌, ◌||◌, ◌==◌, ltb, leb, List, [], ◌∷◌, ◌++◌, if◌then◌else◌,
}
use socket_io.Client.Backoff.{Chance, Backoff, attempts, duration, reset}
use socket_io.Client.Manager.{
  Manager, reconnecting, disconnected, is_disconnected, Effect, dials, resets_parser,
  calls_reconnect_error, calls_reconnect_failed, calls_reconnect_attempt, sleeps, start_connect,
  finish_connect, cleanup, maybe_reconnect_on_open, on_reconnect,
}

-- Where the goroutine is: there is none; `reconnect` is about to look at the state, asleep, about to
-- test `skipReconnect` again, or about to call `connect`; or `connect` waits for `eio.Dial`, called by
-- `reconnect` (`true`) or by `open`.
pub data Phase : Type 0 where
  idle looking sleeping announcing attempting : Phase
  dialing : Bool → Phase

-- What a step meets, where it is asked.
pub record Input : Type 0 where
  pub chance : Chance
  pub dialed : Bool

-- The goroutine, the manager and what was done.
abbrev pub Moved : Type 0
Moved = Phase × (Manager × List Effect)

-- `open` up to `eio.Dial`.
unfoldable pub open_first : Manager → Moved
unfolding start_connect
open_first m =
    let (started, goes) = start_connect false m in
    if goes then (dialing false, (started, dials ∷ [])) else (idle, (started, []))

-- `reconnect(false)` up to the look at the state.
unfoldable pub enter_reconnect : Manager → Moved
enter_reconnect m = if m.skip_reconnect then (idle, (m, [])) else (looking, (m, []))

unfoldable pub max_reached : Manager → Bool
max_reached m =
    (ltb 0 m.reconnection_attempts && leb m.reconnection_attempts (attempts m.backoff))
    || (m.reconnection_attempts == 0 && attempts m.backoff == 2 ^ 32 - 1)

-- `reconnect` from the look at the state to the sleep.
unfoldable pub look : Chance → Manager → Moved
unfolding max_reached reset
look chance m =
    let (counted, delay) = duration chance m.backoff in
    if is_disconnected m.state
    then (if max_reached m
        then (
          idle,
          (
            record m { state = disconnected; backoff = reset m.backoff },
            calls_reconnect_failed ∷ [],
          ),
        )
        else (sleeping, (record m { state = reconnecting; backoff = counted }, sleeps delay ∷ [])))
    else (idle, (m, []))

-- From the end of the sleep on; and behind the call of the handlers.
unfoldable pub wake : Manager → Moved
wake m =
    if m.skip_reconnect
    then (idle, (m, []))
    else (announcing, (m, calls_reconnect_attempt (attempts m.backoff) ∷ []))

unfoldable pub announce : Manager → Moved
announce m = if m.skip_reconnect then (idle, (m, [])) else (attempting, (m, []))

unfoldable pub attempt : Manager → Moved
unfolding start_connect on_reconnect
attempt m =
    let (started, goes) = start_connect true m in
    if goes then (dialing true, (started, dials ∷ [])) else (idle, on_reconnect started)

-- The end of `connect`, and what its callers do with its result.
unfoldable pub dial_done : Bool → Bool → Manager → Moved
unfolding finish_connect on_reconnect cleanup maybe_reconnect_on_open
dial_done recursed true m =
    let (done, effects) = finish_connect true m in
    if recursed
    then (idle, ((on_reconnect done).0, effects ++ (on_reconnect done).1))
    else (idle, (done, effects))
dial_done recursed false m =
    let (done, effects) = finish_connect false m in
    if recursed
    then (looking, (record done { state = disconnected }, effects ++ (calls_reconnect_error ∷ [])))
    else (idle, (cleanup done, effects ++ (resets_parser ∷ maybe_reconnect_on_open (cleanup done))))

unfoldable pub advance : Input → Phase → Manager → Moved
unfolding look wake announce attempt dial_done
advance input idle m = (idle, (m, []))
advance input looking m = look input.chance m
advance input sleeping m = wake m
advance input announcing m = announce m
advance input attempting m = attempt m
advance input (dialing recursed) m = dial_done recursed input.dialed m

-- The goroutine alone, as long as there is input.
unfoldable pub run : List Input → Phase → Manager → Moved
unfolding advance
run [] phase m = (phase, (m, []))
run (input ∷ inputs) phase m =
    let (next, (moved, effects)) = advance input phase m in
    let (end, (final, rest)) = run inputs next moved in (end, (final, effects ++ rest))
