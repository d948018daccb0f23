-- ===== src/Base/Decimal.antt =====
-- Decimal numbers as Go's strconv writes and reads them: `FormatUint(n, 10)`, and
-- `ParseUint(s, 10, 0)` on a 64-bit machine.
use Prim.Native.Nat.{ℕ, zero, suc, ◌+◌, ◌-◌, ◌*◌, ◌/◌, ◌%◌, ◌^◌, ◌≤◌, ◌<◌}
use mathlib.Core.Path.{◌≡◌, refl, ◌∙◌}
use mathlib.Core.Bool.{Bool, true, false, ◌&&◌}
use mathlib.Core.Logic.{◌≢◌, inl, inr}
use mathlib.Core.List.{[], ◌∷◌}
use native.Mathlib.Omega.{arith}
use socket_io.Base.Bools.{ltb, leb, if◌then◌else◌, Bool-cases, ltb→lt, ltb-false}
use socket_io.Base.Lists.{Bytes, All}
use socket_io.Base.Results.{Result, ok, err}

pub data NumError : Type 0 where
  syntax_error range_error : NumError

-- The digits of n above those written already; a round takes the last digit off.
pub digits_onto : ℕ → ℕ → Bytes → Bytes
digits_onto zero n out = out
digits_onto (suc fuel) n out = elim (ltb n 10) [
  | true ↦ (48 + n) ∷ out
  | false ↦ digits_onto fuel (n / 10) ((48 + n % 10) ∷ out)
]

-- The fuel is more than the number, for every n; twenty digits are enough below 2 ^ 64.
unfoldable pub format_uint : ℕ → Bytes
unfolding digits_onto
format_uint n = digits_onto (suc n) n []

abbrev pub max_uint64 : ℕ
max_uint64 = 2 ^ 64 - 1

unfoldable pub is_digit : ℕ → Bool
is_digit c = leb 48 c && leb c 57

parse_digits : Bytes → ℕ → Result NumError ℕ
unfolding is_digit
parse_digits [] n = ok n
parse_digits (c ∷ s) n =
    let rest = parse_digits s (n * 10 + (c - 48)) in
    if is_digit c
    then (if leb (max_uint64 / 10 + 1) n
        then err range_error
        else if ltb max_uint64 (n * 10 + (c - 48))
        then err range_error
        else rest)
    else err syntax_error

unfoldable pub parse_uint : Bytes → Result NumError ℕ
unfolding parse_digits
parse_uint [] = err syntax_error
parse_uint (c ∷ s) = parse_digits (c ∷ s) 0

abbrev pub IsDigit : ℕ → Type 0
IsDigit c = (48 ≤ c) × (c ≤ 57)

parse_digits_cons :
    (c m n : ℕ) (out : Bytes)
    → IsDigit c
    → m * 10 + (c - 48) ≡ n
    → n ≤ max_uint64
    → parse_digits (c ∷ out) m ≡ parse_digits out n
unfolding parse_digits
parse_digits_cons c m n out d e b = rw (← e) (ground arith)

-- What has been written in front of `out` is read back as the number n.
parse_digits_onto :
    (fuel n : ℕ) (out : Bytes)
    → n < fuel
    → n ≤ max_uint64
    → parse_digits (digits_onto fuel n out) 0 ≡ parse_digits out n
unfolding digits_onto
parse_digits_onto zero n out h b = absurd (omega arith)
parse_digits_onto (suc fuel) n out h b = elim (Bool-cases (ltb n 10)) [
  | inl e ↦
      rw (e, digits_onto)
        (parse_digits_cons (48 + n) 0 n out (omega (arith, ltb→lt n 10 e)) (omega arith) b)
  | inr e ↦
      let big = ltb-false n 10 e in
      rw (e, digits_onto)
        (parse_digits_onto fuel (n / 10) ((48 + n % 10) ∷ out) (omega arith) (omega arith)
          ∙ parse_digits_cons (48 + n % 10) (n / 10) n out (omega arith) (omega arith) b)
]

pub digits_onto-IsDigit :
    (fuel n : ℕ) (out : Bytes) → All IsDigit out → All IsDigit (digits_onto fuel n out)
unfolding digits_onto
digits_onto-IsDigit zero n out h = h
digits_onto-IsDigit (suc fuel) n out h =
    ground (arith, digits_onto-IsDigit fuel (n / 10) ((48 + n % 10) ∷ out))

digits_onto-ne-nil : (fuel n : ℕ) (c : ℕ) (out : Bytes) → digits_onto fuel n (c ∷ out) ≢ []
unfolding digits_onto
digits_onto-ne-nil zero n c out e = cc
digits_onto-ne-nil (suc fuel) n c out e =
    ground (arith, digits_onto-ne-nil fuel (n / 10) (48 + n % 10) (c ∷ out))

parse_uint_digits : (s : Bytes) → s ≢ [] → parse_uint s ≡ parse_digits s 0
unfolding parse_uint
parse_uint_digits [] h = absurd (h refl)
parse_uint_digits (c ∷ s) h = refl

pub format_uint-ne-nil : (n : ℕ) → format_uint n ≢ []
unfolding format_uint
format_uint-ne-nil n e = ground (arith, digits_onto-ne-nil n (n / 10) (48 + n % 10) [])

pub format_uint-IsDigit : (n : ℕ) → All IsDigit (format_uint n)
unfolding format_uint
format_uint-IsDigit n = digits_onto-IsDigit (suc n) n [] tt

-- Reading a written number gives it back, for every uint64.
pub parse_uint-format_uint : (n : ℕ) → n ≤ max_uint64 → parse_uint (format_uint n) ≡ ok n
parse_uint-format_uint n h =
    parse_uint_digits (format_uint n) (format_uint-ne-nil n)
    ∙ (unfold format_uint parse_digits in parse_digits_onto (suc n) n [] (omega arith) h)
