-- ===== src/Client/Backoff/Tests.antt =====
-- The delays of the default configuration, a second to five seconds.
use socket_io.Base.{ℕ, ◌+◌, ◌-◌, ◌*◌, ◌^◌, ◌≡◌, refl, arith, true, false}
use socket_io.Client.Backoff.{
  Backoff, Chance, new_backoff, duration, plain_ms, deviated_ms, reset, smaller, to_float64,
}
use socket_io.Client.Backoff.Delay.{jittered, duration-jittered}

abbrev second : ℕ
second = 1_000_000_000

abbrev chance : Chance
chance = record { deviation = 400_000_000; up = false; too_large = 2 ^ 63 }

abbrev after : ℕ → Backoff
after n = record (new_backoff second (5 * second) true) { num_attempts = n }

duration-first : (duration chance (after 0)).1 ≡ 600_000_000
unfolding duration deviated_ms plain_ms new_backoff to_float64
duration-first = refl

-- The product leaves the int64 numbers, and the delay is the maximum.
duration-overflown : (duration chance (after 34)).1 ≡ 5 * second
unfolding duration deviated_ms plain_ms new_backoff to_float64
duration-overflown = refl

reset-duration : reset (duration chance (after 3)).0 ≡ after 0
unfolding reset duration new_backoff
reset-duration = refl

-- A float64 has 53 bits; a tie goes to the even one.
to_float64-ties :
    (to_float64 (2 ^ 53 + 1) ≡ 2 ^ 53)
    × ((to_float64 (2 ^ 53 + 3) ≡ 2 ^ 53 + 4) × (to_float64 (2 ^ 63 - 1) ≡ 2 ^ 63))
unfolding to_float64
to_float64-ties = (refl, (refl, refl))

duration-jittered_example :
    duration chance (record (new_backoff second (5 * second) true) { num_attempts = 2 }) ≡ (
      record (new_backoff second (5 * second) true) { num_attempts = 2 + 1 },
      smaller (jittered chance true (second * 2 ^ 2)) (5 * second),
    )
duration-jittered_example =
    duration-jittered chance second (5 * second) 2 true (omega arith) (omega arith) (omega arith)
      (omega arith)
