-- ===== src/Parser/Header.antt =====
-- parser/packet.go and `encodeString` of parser/json/encode.go: the header of a packet and its text.
-- A string is its bytes. An `int` is its 64-bit pattern: from 2 ^ 63 on it stands for a negative one.
use socket_io.Base.{
  ℕ, ◌+◌, ◌-◌, ◌^◌, Bool, true, false, ◌||◌, Option, none, some, [], ◌∷◌, ◌++◌, Bytes, ltb, ◌==◌,
  if◌then◌else◌, Result, ok, err, ◌>>=◌, or_fail,
}
use socket_io.Base.Decimal.{NumError, format_uint}

pub data PacketType : Type 0 where
  connect disconnect event ack connect_error binary_event binary_ack : PacketType

-- The errors of the parser, those of strconv and of the JSON serializer among them.
pub data Error : Type 0 where
  invalid_packet_type invalid_packet_size malformed_packet max_attachments_exceeded : Error
  number : NumError → Error
  serializer : Error

-- What ends a call without a result: a returned error, or a panic of the run-time system.
pub data Fault : Type 0 where
  error : Error → Fault
  slice_bounds_out_of_range : Fault

abbrev pub to_byte : PacketType → ℕ
to_byte connect = 0
to_byte disconnect = 1
to_byte event = 2
to_byte ack = 3
to_byte connect_error = 4
to_byte binary_event = 5
to_byte binary_ack = 6

of_byte : ℕ → PacketType
of_byte b =
    if b == 0
    then connect
    else if b == 1
    then disconnect
    else if b == 2
    then event
    else if b == 3
    then ack
    else if b == 4
    then connect_error
    else if b == 5
    then binary_event
    else binary_ack

unfoldable pub to_char : PacketType → ℕ
to_char t = to_byte t + 48

unfoldable pub from_char : ℕ → Result Fault PacketType
unfolding of_byte
from_char b =
    if ltb b 48 || ltb (48 + to_byte binary_ack) b
    then err (error invalid_packet_type)
    else ok (of_byte (b - 48))

pub record PacketHeader : Type 0 where
  pub type : PacketType
  pub nsp : Bytes
  pub id : Option ℕ
  pub attachments : ℕ

abbrev pub is_binary : PacketType → Bool
is_binary binary_event = true
is_binary binary_ack = true
is_binary _ = false

abbrev pub is_event : PacketType → Bool
is_event event = true
is_event binary_event = true
is_event _ = false

abbrev pub is_ack : PacketType → Bool
is_ack ack = true
is_ack binary_ack = true
is_ack _ = false

-- `strconv.Itoa`.
unfoldable pub itoa : ℕ → Bytes
itoa a = if ltb a (2 ^ 63) then format_uint a else b'-' ∷ format_uint (2 ^ 64 - a)

unfoldable pub is_root : Bytes → Bool
is_root [] = true
is_root (c ∷ []) = c == b'/'
is_root _ = false

unfoldable pub id_bytes : Option ℕ → Bytes
id_bytes none = []
id_bytes (some id) = format_uint id

-- What `encodeString` writes in front of the JSON text.
unfoldable pub header_bytes : PacketHeader → Bytes
unfolding to_char itoa is_root id_bytes
header_bytes h =
    to_char h.type
    ∷ ((if is_binary h.type then itoa h.attachments ++ (b'-' ∷ []) else [])
        ++ ((if is_root h.nsp then [] else h.nsp ++ (b',' ∷ [])) ++ id_bytes h.id))

-- The text without the line end that the serializer may put behind it.
strip_newline : Bytes → Bytes
strip_newline [] = []
strip_newline (c ∷ []) = if c == 10 then [] else c ∷ []
strip_newline (c ∷ d ∷ s) = c ∷ strip_newline (d ∷ s)

-- `none` stands for the empty placeholder, for which no JSON is written.
unfoldable pub encode_string :
    {V : Type 0} → (V → Option Bytes) → PacketHeader → Option V → Result Fault Bytes
unfolding strip_newline
encode_string json h none = ok (header_bytes h)
encode_string json h (some v) = do
  text ← or_fail (json v) (error serializer)
  ok (strip_newline (header_bytes h ++ text))
