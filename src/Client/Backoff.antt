-- ===== src/Client/Backoff.antt =====
-- backoff.go: how long the client waits before it tries to connect again. Durations are int64 numbers of
-- nanoseconds, held here as their 64 bits; `min` and `max` are not negative.
pub mod Delay
mod Tests
use socket_io.Base.{
  ℕ, ◌+◌, ◌-◌, ◌*◌, ◌/◌, ◌%◌, ◌^◌, zero, suc, ◌==◌, Bool, true, false, ◌&&◌, ◌||◌, ltb, leb,
  if◌then◌else◌,
}

pub record Backoff : Type 0 where
  pub min : ℕ
  pub max : ℕ
  pub factor : ℕ
  pub jitter : Bool  -- whether it is above 0
  pub num_attempts : ℕ  -- uint32

-- What a call of `duration` meets: the deviation that the random number gives and its direction, both
-- without a meaning where there is no jitter, and what the machine makes of a float64 that is no
-- int64, which the language leaves to it.
pub record Chance : Type 0 where
  pub deviation : ℕ
  pub up : Bool
  pub too_large : ℕ

unfoldable pub new_backoff : ℕ → ℕ → Bool → Backoff
new_backoff min max jitter = record {
  min = min;
  max = max;
  factor = 2;
  jitter = jitter;
  num_attempts = 0;
}

abbrev pub attempts : Backoff → ℕ
attempts b = b.num_attempts

-- The conversion of a float64, here of a whole number, to an int64.
abbrev pub to_int64 : ℕ → ℕ → ℕ
to_int64 too_large n = if ltb n (2 ^ 63) then n else too_large

unfoldable pub plain_ms : Chance → Backoff → ℕ
plain_ms chance b = (b.min * to_int64 chance.too_large (b.factor ^ b.num_attempts)) % 2 ^ 64

unfoldable pub deviated_ms : Chance → Backoff → ℕ
unfolding plain_ms
deviated_ms chance b =
    let ms = plain_ms chance b in
    if b.jitter
    then (if chance.up
        then (ms + chance.deviation) % 2 ^ 64
        else (ms + (2 ^ 64 - chance.deviation % 2 ^ 64)) % 2 ^ 64)
    else ms

-- An int64 above 0, by its bits.
abbrev pub is_positive : ℕ → Bool
is_positive n = ltb 0 n && ltb n (2 ^ 63)

abbrev pub smaller : ℕ → ℕ → ℕ
smaller m n = if leb m n then m else n

-- The multiple of a unit that is next to a number, the even one of two.
unfoldable pub round_to : ℕ → ℕ → ℕ
round_to unit n =
    let q = n / unit in
    let r = n % unit in
    if ltb (2 * r) unit || (2 * r == unit && q % 2 == 0) then q * unit else (q + 1) * unit

-- The float64 next to a number, which has 53 bits; the unit is doubled until the number fits.
unfoldable pub float_from : ℕ → ℕ → ℕ → ℕ
unfolding round_to
float_from zero unit n = round_to unit n
float_from (suc doublings) unit n =
    let rest = float_from doublings (2 * unit) n in
    if ltb n (2 ^ 53 * unit) then round_to unit n else rest

-- The conversion of an int64 that is not negative.
unfoldable pub to_float64 : ℕ → ℕ
unfolding float_from
to_float64 n = if ltb n (2 ^ 53) then n else float_from 9 2 n

unfoldable pub duration : Chance → Backoff → Backoff × ℕ
unfolding deviated_ms to_float64
duration chance b =
    let ms = deviated_ms chance b in
    (
      record b { num_attempts = (b.num_attempts + 1) % 2 ^ 32 },
      if is_positive ms
          then to_int64 chance.too_large (smaller (to_float64 ms) (to_float64 b.max))
          else b.max,
    )

unfoldable pub reset : Backoff → Backoff
reset b = record b { num_attempts = 0 }
