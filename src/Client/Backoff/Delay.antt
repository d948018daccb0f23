-- ===== src/Client/Backoff/Delay.antt =====
-- The delays are what they are meant to be.
use native.Mathlib.Nat.{le-div_iff_mul-le, mul-le-mul, add-mul}
use socket_io.Base.{
  ℕ, zero, suc, ◌+◌, ◌-◌, ◌*◌, ◌/◌, ◌%◌, ◌^◌, ◌≤◌, ◌<◌, ◌≡◌, ◌∙◌, arith, Bool, true, false, ◌&&◌,
  ◌||◌, ltb, ◌==◌, if◌then◌else◌, ap, if-true, Bool-cases, inl, inr, ltb-false, ltb→lt,
}
use socket_io.Client.Backoff.{
  Backoff, Chance, new_backoff, plain_ms, deviated_ms, duration, to_int64, is_positive, smaller,
  round_to, float_from, to_float64,
}

-- A number of 53 bits is a float64.
float_exact : (n : ℕ) → n < 2 ^ 53 → to_float64 n ≡ n
unfolding to_float64
float_exact n h = ground arith

-- Rounding does not go below a power of two.
round_to-large : (unit n : ℕ) → 2 ≤ unit → 2 ^ 52 * unit ≤ n → 2 ^ 53 ≤ round_to unit n
unfolding round_to
round_to-large unit n h k =
    let q : 2 ^ 52 ≤ n / unit = (le-div_iff_mul-le (omega (arith, h))).1 k in
    let up : 2 ^ 52 * 2 ≤ n / unit * unit = mul-le-mul q h in
    large (ltb (2 * (n % unit)) unit || (2 * (n % unit) == unit && n / unit % 2 == 0)) up
  where
    large :
        (b : Bool)
        → 2 ^ 52 * 2 ≤ n / unit * unit
        → 2 ^ 53 ≤ (if b then n / unit * unit else (n / unit + 1) * unit)
    large true up = omega (arith, up)
    large false up = omega (arith, up, add-mul (n / unit) 1 unit)

float_from-large :
    (doublings unit n : ℕ) → 2 ≤ unit → 2 ^ 52 * unit ≤ n → 2 ^ 53 ≤ float_from doublings unit n
unfolding float_from
float_from-large zero unit n h k = round_to-large unit n h k
float_from-large (suc doublings) unit n h k = elim (Bool-cases (ltb n (2 ^ 53 * unit))) [
  | inl e ↦ rw e (round_to-large unit n h k)
  | inr e ↦ rw e (
      float_from-large doublings (2 * unit) n (omega (arith, h))
        (let l = ltb-false n (2 ^ 53 * unit) e in omega (arith, l)))
]

float_large : (n : ℕ) → 2 ^ 53 ≤ n → 2 ^ 53 ≤ to_float64 n
unfolding to_float64
float_large n h =
    let l = float_from-large 9 2 n (omega arith) (omega (arith, h)) in ground (arith, h, l)

-- By its maximum of 53 bits a delay is that of the whole numbers.
smaller-float :
    (large m n : ℕ)
    → n < 2 ^ 53
    → to_int64 large (smaller (to_float64 m) (to_float64 n)) ≡ smaller m n
smaller-float large m n h = rw (float_exact n h) (elim (Bool-cases (ltb m (2 ^ 53))) [
  | inl e ↦ rw (float_exact m (ltb→lt m (2 ^ 53) e)) (ground arith)
  | inr e ↦ let l = ltb-false m (2 ^ 53) e in let f = float_large m l in ground (arith, l, f)
])

below : (m p : ℕ) → 0 < m * p → p ≤ m * p
below zero p h = absurd (omega (arith, h))
below (suc m) p h = omega arith

converted : (large p : ℕ) → p < 2 ^ 63 → to_int64 large p ≡ p
converted large p h = ground arith

-- The delay that is meant: the product with the deviation, up or down.
abbrev pub jittered : Chance → Bool → ℕ → ℕ
jittered chance jitter p =
    if jitter then (if chance.up then p + chance.deviation else p - chance.deviation) else p

deviates :
    (chance : Chance) (jitter : Bool) (p : ℕ)
    → chance.deviation < p
    → p + chance.deviation < 2 ^ 63
    → (if jitter
        then (if chance.up
            then (p % 2 ^ 64 + chance.deviation) % 2 ^ 64
            else (p % 2 ^ 64 + (2 ^ 64 - chance.deviation % 2 ^ 64)) % 2 ^ 64)
        else p % 2 ^ 64)
      ≡ jittered chance jitter p
deviates chance jitter p d h = ground arith

chosen :
    (large m n : ℕ)
    → 0 < m
    → m < 2 ^ 63
    → n < 2 ^ 53
    → (if is_positive m then to_int64 large (smaller (to_float64 m) (to_float64 n)) else n)
      ≡ smaller m n
chosen large m n p h k =
    let positive : is_positive m ≡ true = ground arith in
    if-true n positive ∙ smaller-float large m n k

jittered-bounds :
    (chance : Chance) (jitter : Bool) (p : ℕ)
    → chance.deviation < p
    → p + chance.deviation < 2 ^ 63
    → (0 < jittered chance jitter p) × (jittered chance jitter p < 2 ^ 63)
jittered-bounds chance jitter p d h = ground arith

-- While the minimum times two to the number of attempts, with the deviation, is an int64, the
-- deviation is less than that product, and the maximum has 53 bits: the delay is that product, with
-- the deviation added or taken away where there is jitter, or the maximum where that is less; and the
-- attempt is counted.
pub duration-jittered :
    (chance : Chance) (min max n : ℕ) (jitter : Bool)
    → chance.deviation < min * 2 ^ n
    → min * 2 ^ n + chance.deviation < 2 ^ 63
    → max < 2 ^ 53
    → n < 2 ^ 32 - 1
    → duration chance (record (new_backoff min max jitter) { num_attempts = n }) ≡ (
      record (new_backoff min max jitter) { num_attempts = n + 1 },
      smaller (jittered chance jitter (min * 2 ^ n)) max,
    )
unfolding duration deviated_ms plain_ms new_backoff
duration-jittered chance min max n jitter d k m c =
    let p = min * 2 ^ n in
    let positive : 0 < p = omega (arith, d) in
    let fits : 2 ^ n < 2 ^ 63 = omega (arith, below min (2 ^ n) positive, k) in
    let counted : (n + 1) % 2 ^ 32 ≡ n + 1 = omega (arith, c) in
    let bounds = jittered-bounds chance jitter p d k in
    let next : ℕ → Backoff × ℕ = λ ms. (
      record (new_backoff min max jitter) { num_attempts = n + 1 },
      if is_positive ms
          then to_int64 chance.too_large (smaller (to_float64 ms) (to_float64 max))
          else max,
    ) in
    rw (counted, converted chance.too_large (2 ^ n) fits)
      (ap next (deviates chance jitter p d k)
        ∙ ap (λ ms. (record (new_backoff min max jitter) { num_attempts = n + 1 }, ms))
            (chosen chance.too_large (jittered chance jitter p) max bounds.0 bounds.1 m))
