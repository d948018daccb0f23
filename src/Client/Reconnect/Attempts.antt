-- ===== src/Client/Reconnect/Attempts.antt =====
-- With a limit on the attempts, `reconnect` comes to an end.
use socket_io.Base.{
  ℕ, zero, suc, ◌+◌, ◌*◌, ◌^◌, ◌<◌, ◌≡◌, refl, arith, true, false, List, [], ◌∷◌, All, length,
}
use socket_io.Client.Backoff.{Chance, Backoff, attempts, duration, reset}
use socket_io.Client.Manager.{
  Manager, reconnecting, disconnected, Effect, dials, resets_parser, calls_error,
  calls_reconnect_error, calls_reconnect_failed, calls_reconnect_attempt, sleeps, start_connect,
  finish_connect,
}
use socket_io.Client.Reconnect.{
  Input, Moved, idle, looking, sleeping, max_reached, look, wake, announce, attempt, dial_done,
  advance, run,
}

abbrev pub is_dial : Effect → ℕ
is_dial dials = 1
is_dial _ = 0

abbrev pub count_dials : List Effect → ℕ
count_dials [] = 0
count_dials (e ∷ es) = is_dial e + count_dials es

-- `reconnect` is about to look at the state, at the bottom of its recursion.
abbrev pub Waits : Manager → Type 0
Waits m = (m.state ≡ disconnected) × (m.skip_reconnect ≡ false)

abbrev failed_round : Chance → Manager → Manager
failed_round chance m = record m {
  state = disconnected;
  backoff = (duration chance m.backoff).0;
  active = (m.dial + 1) ∷ m.active;
  dial = m.dial + 1;
}

look_sleeps :
    (chance : Chance) (m : Manager)
    → m.state ≡ disconnected
    → max_reached m ≡ false
    → look chance m ≡ (
      sleeping,
      (
        record m { state = reconnecting; backoff = (duration chance m.backoff).0 },
        sleeps (duration chance m.backoff).1 ∷ [],
      ),
    )
unfolding look
look_sleeps chance m e f = rw (e, f)

-- Five steps without a connection.
round :
    (a b c d e : Input) (rest : List Input) (m : Manager)
    → Waits m
    → max_reached m ≡ false
    → e.dialed ≡ false
    → run (a ∷ b ∷ c ∷ d ∷ e ∷ rest) looking m ≡ (
      (run rest looking (failed_round a.chance m)).0,
      (
        (run rest looking (failed_round a.chance m)).1.0,
        sleeps (duration a.chance m.backoff).1
            ∷ calls_reconnect_attempt (duration a.chance m.backoff).0.num_attempts
            ∷ dials
            ∷ resets_parser
            ∷ calls_error
            ∷ calls_reconnect_error
            ∷ (run rest looking (failed_round a.chance m)).1.1,
      ),
    )
unfolding run advance wake announce attempt dial_done start_connect finish_connect
round a b c d e rest m (s, k) f g = rw (look_sleeps a.chance m s f, k, g)

below_max :
    (m : Manager)
    → attempts m.backoff < m.reconnection_attempts
    → m.reconnection_attempts < 2 ^ 32
    → max_reached m ≡ false
unfolding max_reached
below_max m h k = ground arith

at_max :
    (m : Manager)
    → attempts m.backoff ≡ m.reconnection_attempts
    → 0 < m.reconnection_attempts
    → max_reached m ≡ true
unfolding max_reached
at_max m h k = ground arith

run-idle : (inputs : List Input) (m : Manager) → run inputs idle m ≡ (idle, (m, []))
unfolding run advance
run-idle [] m = refl
run-idle (i ∷ inputs) m = rw (run-idle inputs m)

-- The last look, at the limit.
give_up :
    (a : Input) (rest : List Input) (m : Manager)
    → m.state ≡ disconnected
    → max_reached m ≡ true
    → run (a ∷ rest) looking m ≡ (
      idle,
      (record m { state = disconnected; backoff = reset m.backoff }, calls_reconnect_failed ∷ []),
    )
unfolding run advance look
give_up a rest m s f = rw (s, f, run-idle rest)

-- What the end of all attempts looks like.
pub record GivesUp (m : Manager) (dialed : ℕ) (r : Moved) : Type 0 where
  pub phase : r.0 ≡ idle
  pub state : r.1.0.state ≡ disconnected
  pub attempts : r.1.0.backoff.num_attempts ≡ 0
  pub dials : count_dials r.1.1 ≡ dialed

duration-counts :
    (chance : Chance) (b : Backoff) (limit : ℕ)
    → b.num_attempts < limit
    → limit < 2 ^ 32
    → (duration chance b).0.num_attempts ≡ b.num_attempts + 1
unfolding duration
duration-counts chance b limit h k = omega (arith, h, k)

-- If a limit is set and no dial succeeds, nothing closes the manager, and `reconnect` is about to look
-- at a disconnected manager, it ends after five steps for each attempt that is left and one more: it
-- has dialed once for each of them, and leaves the manager disconnected with its attempts at 0.
pub run-GivesUp :
    (k : ℕ) (inputs : List Input) (m : Manager)
    → Waits m
    → 0 < m.reconnection_attempts
    → m.reconnection_attempts < 2 ^ 32
    → attempts m.backoff + k ≡ m.reconnection_attempts
    → All (λ i. i.dialed ≡ false) inputs
    → 5 * k < length inputs
    → GivesUp m k (run inputs looking m)
unfolding reset
run-GivesUp zero [] m w h l s f n = absurd (omega (arith, n))
run-GivesUp zero (a ∷ rest) m w h l s f n =
    rw (give_up a rest m w.0 (at_max m (omega (arith, s)) h))
      (record { phase = refl; state = refl; attempts = refl; dials = refl })
run-GivesUp (suc k) (a ∷ b ∷ c ∷ d ∷ e ∷ rest) m w h l s f n =
    let left : attempts m.backoff < m.reconnection_attempts = omega (arith, s) in
    let counted = duration-counts a.chance m.backoff m.reconnection_attempts left l in
    let ends =
      run-GivesUp k rest (failed_round a.chance m) (refl, w.1) h l (omega (arith, counted, s))
        f.1.1.1.1.1 (omega (arith, n)) in
    rw (round a b c d e rest m w (below_max m left l) f.1.1.1.1.0) (record {
      phase = ends.phase;
      state = ends.state;
      attempts = ends.attempts;
      dials = omega (arith, ends.dials);
    })
run-GivesUp (suc k) [] m w h l s f n = absurd (omega (arith, n))
run-GivesUp (suc k) (a ∷ []) m w h l s f n = absurd (omega (arith, n))
run-GivesUp (suc k) (a ∷ b ∷ []) m w h l s f n = absurd (omega (arith, n))
run-GivesUp (suc k) (a ∷ b ∷ c ∷ []) m w h l s f n = absurd (omega (arith, n))
run-GivesUp (suc k) (a ∷ b ∷ c ∷ d ∷ []) m w h l s f n = absurd (omega (arith, n))
