-- ===== src/EngineIo/Packet.antt =====
-- engine.io/parser/packet.go: a packet, its encoding and its decoding. The writer of `Encode` accepts
-- every byte, so an encoding is the bytes that it writes; a reader is the bytes that it still holds.
pub mod RoundTrip
mod Tests
use socket_io.Base.{
  ℕ, ◌+◌, ◌-◌, Bool, true, false, not, ◌&&◌, ◌||◌, Option, none, some, [], ◌∷◌, Bytes, length, take,
  drop, ltb, ◌==◌, if◌then◌else◌, Result, ok, err, ◌>>=◌, or_fail,
}
use socket_io.Base64

pub data PacketType : Type 0 where
  open_type close_type ping pong message upgrade noop : PacketType

pub data Error : Type 0 where
  invalid_packet_size invalid_packet_type : Error
  -- of encoding/base64 and of io.ReadFull
  corrupt_input eof unexpected_eof : Error

-- The byte that a type is, by `iota`.
abbrev pub to_byte : PacketType → ℕ
to_byte open_type = 0
to_byte close_type = 1
to_byte ping = 2
to_byte pong = 3
to_byte message = 4
to_byte upgrade = 5
to_byte noop = 6

-- The conversion `PacketType(b)`, for the bytes that `FromChar` lets through.
of_byte : ℕ → PacketType
of_byte b =
    if b == 0
    then open_type
    else if b == 1
    then close_type
    else if b == 2
    then ping
    else if b == 3
    then pong
    else if b == 4
    then message
    else if b == 5
    then upgrade
    else noop

unfoldable pub to_char : PacketType → ℕ
to_char t = to_byte t + 48

unfoldable pub from_char : ℕ → Result Error PacketType
unfolding of_byte
from_char b =
    if ltb b 48 || ltb (48 + to_byte noop) b then err invalid_packet_type else ok (of_byte (b - 48))

abbrev pub is_message : PacketType → Bool
is_message message = true
is_message _ = false

pub record Packet : Type 0 where
  pub is_binary : Bool
  pub type : PacketType
  pub body : Bytes

unfoldable pub new_packet : PacketType → Bool → Bytes → Result Error Packet
new_packet t is_binary body =
    if not (is_message t) && is_binary
    then err invalid_packet_type
    else ok (record { is_binary = is_binary; type = t; body = body })

abbrev pub base64_prefix : ℕ
base64_prefix = b'b'

unfoldable pub encoded_len : Packet → Bool → ℕ
encoded_len p supports_binary =
    if p.is_binary
    then (if supports_binary then length p.body else 1 + Base64.encoded_len (length p.body))
    else 1 + length p.body

unfoldable pub encode : Packet → Bool → Bytes
unfolding to_char
encode p supports_binary =
    if p.is_binary
    then (if supports_binary then p.body else base64_prefix ∷ Base64.encode p.body)
    else to_char p.type ∷ p.body

-- What stands behind the first byte of a text frame.
decode_text : ℕ → Bytes → Result Error Packet
decode_text c body =
    if c == base64_prefix
    then (do
      decoded ← or_fail (Base64.decode body) corrupt_input
      ok (record { is_binary = true; type = message; body = decoded }))
    else (do t ← from_char c; ok (record { is_binary = false; type = t; body = body }))

decode_frame : Bytes → Result Error Packet
unfolding decode_text
decode_frame [] = err invalid_packet_size
decode_frame (c ∷ body) = decode_text c body

unfoldable pub decode : Bytes → Bool → Result Error Packet
unfolding decode_frame
decode frame binary_frame =
    if binary_frame
    then ok (record { is_binary = true; type = message; body = frame })
    else decode_frame frame

-- `io.ReadFull` of n bytes: the bytes read and what the reader still holds.
unfoldable pub read_full : ℕ → Bytes → Result Error (Bytes × Bytes)
read_full n r =
    if ltb (length r) n
    then err (if length r == 0 then eof else unexpected_eof)
    else ok (take n r, drop n r)

unfoldable pub decode_with_len : Bytes → Bool → ℕ → Result Error (Packet × Bytes)
unfolding read_full
decode_with_len r binary_frame n = do
  (frame, rest) ← read_full n r
  p ← decode frame binary_frame
  ok (p, rest)
