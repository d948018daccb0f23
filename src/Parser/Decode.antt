-- ===== src/Parser/Decode.antt =====
-- `parseHeader` of parser/json/decode.go. The JSON serializer is another package's: `strings` reads a
-- text as a list of strings, or refuses it.
pub mod RoundTrip
pub mod Events
mod Tests
use socket_io.Base.{
  ℕ, ◌+◌, ◌-◌, Bool, true, false, not, ◌&&◌, ◌||◌, Option, none, some, List, [], ◌∷◌, ◌++◌, Bytes,
  ltb, leb, ◌==◌, if◌then◌else◌, Result, ok, err, ◌>>=◌, or_fail, map_err,
}
use socket_io.Base.Decimal.{NumError, parse_uint, is_digit}
use socket_io.Parser.Header.{
  PacketType, PacketHeader, Error, Fault, error, slice_bounds_out_of_range, invalid_packet_size,
  malformed_packet, number, serializer, from_char, is_binary, is_event,
}

-- The bytes before the first one that the test holds of, and the rest from there.
pub break : (ℕ → Bool) → Bytes → Bytes × Bytes
break stop [] = ([], [])
break stop (c ∷ s) =
    let (before, rest) = break stop s in if stop c then ([], c ∷ s) else (c ∷ before, rest)

-- The number of attachments, up to the dash. With nothing behind the dash, the dash stays.
after_dash : Bytes → Bytes
after_dash [] = b'-' ∷ []
after_dash (c ∷ s) = c ∷ s

read_count : Bytes × Bytes → Result Fault (ℕ × Bytes)
read_count (before, []) = err (error malformed_packet)
read_count (before, dash ∷ rest) = do
  count ← map_err (λ e. error (number e)) (parse_uint before)
  ok (count, after_dash rest)

parse_attachments : PacketType → Bytes → Result Fault (ℕ × Bytes)
parse_attachments t s = if is_binary t then read_count (break (λ c. c == b'-') s) else ok (0, s)

-- A namespace goes up to the comma; the slice behind the comma is out of range where there is none.
cut_namespace : Bytes × Bytes → Result Fault (Bytes × Bytes)
cut_namespace (before, []) = err slice_bounds_out_of_range
cut_namespace (before, comma ∷ rest) = ok (before, rest)

parse_namespace : Bytes → Result Fault (Bytes × Bytes)
parse_namespace [] = ok (b'/' ∷ [], [])
parse_namespace (c ∷ s) =
    if c == b'/' then cut_namespace (break (λ d. d == b',') (c ∷ s)) else ok (b'/' ∷ [], c ∷ s)

read_id : Bytes × Bytes → Result Fault (Option ℕ × Bytes)
read_id (digits, rest) = do
  id ← map_err (λ e. error (number e)) (parse_uint digits)
  ok (some id, rest)

parse_id : Bytes → Result Fault (Option ℕ × Bytes)
parse_id [] = ok (none, [])
parse_id (c ∷ s) =
    if is_digit c then read_id (break (λ d. not (is_digit d)) (c ∷ s)) else ok (none, c ∷ s)

-- The string literal from the first quote on: `prev` is the byte before, `out` what has been passed.
close_quote : ℕ → Bytes → Bytes → Option Bytes
close_quote prev [] out = none
close_quote prev (c ∷ s) out =
    let more = close_quote c s (out ++ (c ∷ [])) in
    if c == b'"' && not (prev == b'\\') then some (out ++ (c ∷ [])) else more

open_quote : Bytes → Option Bytes
open_quote [] = none
open_quote (c ∷ s) =
    let more = open_quote s in if c == b'"' then close_quote b'"' s (b'"' ∷ []) else more

single : List Bytes → Result Fault Bytes
single (name ∷ []) = ok name
single _ = err (error malformed_packet)

module _ (strings : Bytes → Option (List Bytes)) where
  -- The first string of the payload, read as the one member of an array.
  pub event_name : PacketType → Bytes → Result Fault Bytes
  event_name t s =
      if is_event t
      then (do
        literal ← or_fail (open_quote s) (error malformed_packet)
        names ← or_fail (strings (b'[' ∷ (literal ++ (b']' ∷ [])))) (error serializer)
        single names)
      else ok []

  pub parse_fields : PacketType → Bytes → Result Fault (PacketHeader × Bytes × Bytes)
  parse_fields t s = do
    (attachments, behind_count) ← parse_attachments t s
    (nsp, behind_nsp) ← parse_namespace behind_count
    (id, buf) ← parse_id behind_nsp
    name ← event_name t buf
    ok (record { type = t; nsp = nsp; id = id; attachments = attachments }, buf, name)

  unfoldable pub parse_header : Bytes → Result Fault (PacketHeader × Bytes × Bytes)
  unfolding parse_fields parse_attachments read_count after_dash parse_namespace cut_namespace
      parse_id read_id break is_digit event_name open_quote close_quote single
  parse_header [] = err (error invalid_packet_size)
  parse_header (c ∷ s) = do t ← from_char c; parse_fields t s
