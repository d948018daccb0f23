-- ===== src/Base64/RoundTrip.antt =====
-- Decoding undoes encoding; the length of an encoded text, and the bytes that it is made of.
use socket_io.Base.{
  ap₂, ℕ, ◌+◌, ◌*◌, ◌/◌, ◌%◌, ◌≤◌, ◌<◌, ◌≡◌, refl, ◌∙◌, ap, arith, false, Option, none, some, [],
  ◌∷◌, Bytes, length, AreBytes, All, ◌==◌,
}
use mathlib.Core.Option
use socket_io.Base64.{
  digit, digit_value, pad, encoded_len, encode, strip_newlines, byte_1, byte_2, byte_3, decode_end,
  decode_quanta, decode, ◌>>=◌,
}

-- What the encoder writes: no line end, no delimiter of payloads, and nothing but bytes.
abbrev pub IsText : ℕ → Type 0
IsText c = (43 ≤ c) × (c ≤ 122)

module _ (v : ℕ) (h : v < 64) where
  digit_value-digit : digit_value (digit v) ≡ some v
  unfolding digit digit_value
  digit_value-digit = ground arith

  digit-IsText : IsText (digit v)
  unfolding digit
  digit-IsText = ground arith

  digit-ne-pad : digit v == pad ≡ false
  unfolding digit
  digit-ne-pad = ground arith

pub encode-IsText : (s : Bytes) → AreBytes s → All IsText (encode s)
unfolding encode
encode-IsText [] h = tt
encode-IsText (a ∷ []) h = omega (arith, digit-IsText)
encode-IsText (a ∷ b ∷ []) h = omega (arith, digit-IsText)
encode-IsText (a ∷ b ∷ c ∷ rest) h =
    let x = digit-IsText (a / 4) (omega arith) in
    let y = digit-IsText (a % 4 * 16 + b / 16) (omega arith) in
    let z = digit-IsText (b % 16 * 4 + c / 64) (omega arith) in
    let w = digit-IsText (c % 64) (omega arith) in (x, (y, (z, (w, encode-IsText rest h.1.1.1))))

-- The length that `EncodedLen` states.
pub length-encode : (s : Bytes) → length (encode s) ≡ encoded_len (length s)
unfolding encode encoded_len
length-encode [] = refl
length-encode (a ∷ []) = refl
length-encode (a ∷ b ∷ []) = refl
length-encode (a ∷ b ∷ c ∷ rest) = omega (arith, length-encode rest)

strip_newlines_text : (s : Bytes) → All IsText s → strip_newlines s ≡ s
unfolding strip_newlines
strip_newlines_text [] h = refl
strip_newlines_text (c ∷ s) h = ground (arith, strip_newlines_text s h.1)

Option_map-bind : (f : Bytes → Bytes) (m : Option Bytes) → (m >>= λ t. some (f t)) ≡ Option.map f m
Option_map-bind f none = refl
Option_map-bind f (some t) = refl

module _ (x y z : ℕ) (hx : x < 64) (hy : y < 64) (hz : z < 64) where
  -- A quantum of four digits gives three bytes, whatever stands behind it.
  decode_quanta_four :
      (w : ℕ) (t : Bytes)
      → w < 64
      → decode_quanta (digit x ∷ digit y ∷ digit z ∷ digit w ∷ t)
        ≡ Option.map (λ tail. byte_1 x y ∷ byte_2 y z ∷ byte_3 z w ∷ tail) (decode_quanta t)
  unfolding decode_quanta
  decode_quanta_four w [] hw =
      rw (digit_value-digit x hx, digit_value-digit y hy)
        (unfold decode_end in
          rw (digit-ne-pad z hz, digit_value-digit z hz, digit-ne-pad w hw, digit_value-digit w hw))
  decode_quanta_four w (e ∷ t) hw =
      rw
        (
          digit_value-digit x hx,
          digit_value-digit y hy,
          digit_value-digit z hz,
          digit_value-digit w hw,
        )
        (Option_map-bind _ (decode_quanta (e ∷ t)))

  decode_quanta_three :
      decode_quanta (digit x ∷ digit y ∷ digit z ∷ pad ∷ []) ≡ some (byte_1 x y ∷ byte_2 y z ∷ [])
  unfolding decode_quanta decode_end
  decode_quanta_three =
      rw (digit_value-digit x hx, digit_value-digit y hy, digit-ne-pad z hz, digit_value-digit z hz)

  decode_quanta_two : decode_quanta (digit x ∷ digit y ∷ pad ∷ pad ∷ []) ≡ some (byte_1 x y ∷ [])
  unfolding decode_quanta decode_end
  decode_quanta_two = rw (digit_value-digit x hx, digit_value-digit y hy)

decode_quanta-encode : (s : Bytes) → AreBytes s → decode_quanta (encode s) ≡ some s
unfolding encode
decode_quanta-encode [] h = unfold decode_quanta in refl
decode_quanta-encode (a ∷ []) h =
    decode_quanta_two (a / 4) (a % 4 * 16) 0 (omega arith) (omega arith) (omega arith)
    ∙ ap (λ x. some (x ∷ [])) (omega arith)
decode_quanta-encode (a ∷ b ∷ []) h =
    decode_quanta_three (a / 4) (a % 4 * 16 + b / 16) (b % 16 * 4) (omega arith) (omega arith)
      (omega arith)
    ∙ ap₂ (λ x y. some (x ∷ y ∷ [])) (omega arith) (omega arith)
decode_quanta-encode (a ∷ b ∷ c ∷ rest) h =
    decode_quanta_four (a / 4) (a % 4 * 16 + b / 16) (b % 16 * 4 + c / 64) (omega arith)
      (omega arith) (omega arith) (c % 64) (encode rest) (omega arith)
    ∙ rw (decode_quanta-encode rest h.1.1.1) (ground arith)

-- Decoding an encoded byte string gives it back.
pub decode-encode : (s : Bytes) → AreBytes s → decode (encode s) ≡ some s
unfolding decode
decode-encode s h =
    ap decode_quanta (strip_newlines_text (encode s) (encode-IsText s h)) ∙ decode_quanta-encode s h
