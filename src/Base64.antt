-- ===== src/Base64.antt =====
-- The standard base64 encoding of Go's encoding/base64 (`StdEncoding`), which engine.io/parser uses
-- for binary packets on a transport of text. The decoder's fast path reads no other language than
-- its slow one and is not repeated here.
pub mod RoundTrip
use mathlib.Core.Option
use socket_io.Base.{
  ℕ, ◌+◌, ◌-◌, ◌*◌, ◌/◌, ◌%◌, Bool, true, false, ◌||◌, ◌&&◌, Option, none, some, [], ◌∷◌, Bytes,
  ltb, leb, ◌==◌, if◌then◌else◌,
}

-- The alphabet: A-Z a-z 0-9 + /.
digit : ℕ → ℕ
digit v =
    if ltb v 26
    then v + 65
    else if ltb v 52
    then v + 71
    else if ltb v 62
    then v - 4
    else if v == 62
    then 43
    else 47

-- Its inverse, `none` for a byte outside of it.
digit_value : ℕ → Option ℕ
digit_value c =
    if leb 65 c && leb c 90
    then some (c - 65)
    else if leb 97 c && leb c 122
    then some (c - 71)
    else if leb 48 c && leb c 57
    then some (c + 4)
    else if c == 43
    then some 62
    else if c == 47
    then some 63
    else none

abbrev pad : ℕ
pad = b'='

-- `EncodedLen` of an encoding with padding.
unfoldable pub encoded_len : ℕ → ℕ
encoded_len n = (n + 2) / 3 * 4

unfoldable pub encode : Bytes → Bytes
unfolding digit
encode [] = []
encode (a ∷ []) = digit (a / 4) ∷ digit (a % 4 * 16) ∷ pad ∷ pad ∷ []
encode (a ∷ b ∷ []) = digit (a / 4) ∷ digit (a % 4 * 16 + b / 16) ∷ digit (b % 16 * 4) ∷ pad ∷ []
encode (a ∷ b ∷ c ∷ rest) =
    digit (a / 4)
    ∷ digit (a % 4 * 16 + b / 16)
    ∷ digit (b % 16 * 4 + c / 64)
    ∷ digit (c % 64)
    ∷ encode rest

-- The decoder skips line ends wherever they stand.
strip_newlines : Bytes → Bytes
strip_newlines [] = []
strip_newlines (c ∷ s) = if c == 10 || c == 13 then strip_newlines s else c ∷ strip_newlines s

abbrev byte_1 : ℕ → ℕ → ℕ
byte_1 x y = x * 4 + y / 16

abbrev byte_2 : ℕ → ℕ → ℕ
byte_2 y z = y % 16 * 16 + z / 4

abbrev byte_3 : ℕ → ℕ → ℕ
byte_3 z w = z % 4 * 64 + w

infixl 5 ◌>>=◌
abbrev ◌>>=◌ {ℓ κ} : {A : Type ℓ} {B : Type κ} → Option A → (A → Option B) → Option B
none >>= f = none
some a >>= f = f a

-- The end of the last quantum, which may be padded; x and y are its first two digits.
decode_end : ℕ → ℕ → ℕ → ℕ → Option Bytes
unfolding digit_value
decode_end x y c d = if c == pad then (if d == pad then some (byte_1 x y ∷ []) else none) else (do
  z ← digit_value c
  (if d == pad
      then some (byte_1 x y ∷ byte_2 y z ∷ [])
      else (do w ← digit_value d; some (byte_1 x y ∷ byte_2 y z ∷ byte_3 z w ∷ []))))

-- A quantum with something behind it has four digits.
decode_quanta : Bytes → Option Bytes
unfolding digit_value decode_end
decode_quanta [] = some []
decode_quanta (a ∷ b ∷ c ∷ d ∷ []) = do x ← digit_value a; y ← digit_value b; decode_end x y c d
decode_quanta (a ∷ b ∷ c ∷ d ∷ e ∷ rest) = do
  x ← digit_value a
  y ← digit_value b
  z ← digit_value c
  w ← digit_value d
  tail ← decode_quanta (e ∷ rest)
  some (byte_1 x y ∷ byte_2 y z ∷ byte_3 z w ∷ tail)
decode_quanta _ = none

-- `none` for Go's `CorruptInputError`.
unfoldable pub decode : Bytes → Option Bytes
unfolding strip_newlines decode_quanta
decode s = decode_quanta (strip_newlines s)
