-- ===== src/EngineIo/Frame.antt =====
-- engine.io/transport/webtransport/packet.go: a packet behind a header with its length.
pub mod Bits
pub mod RoundTrip
mod Tests
use Prim.Native.Nat.{bit_and, bit_or}
use socket_io.Base.{
  ℕ, ◌+◌, ◌*◌, ◌/◌, ◌%◌, ◌^◌, Bool, true, false, List, [], ◌∷◌, ◌++◌, Bytes, ltb, ◌==◌,
  if◌then◌else◌, Result, ok, err, ◌>>=◌,
}
use socket_io.EngineIo.Packet.{Packet, Error, encoded_len, encode, read_full, decode_with_len, eof}

-- `binary.BigEndian.PutUint16` and `PutUint64`.
abbrev pub put_uint16 : ℕ → Bytes
put_uint16 v = (v / 256 % 256) ∷ (v % 256) ∷ []

abbrev pub put_uint32 : ℕ → Bytes
put_uint32 v = (v / 2 ^ 24 % 256) ∷ (v / 2 ^ 16 % 256) ∷ (v / 256 % 256) ∷ (v % 256) ∷ []

abbrev pub put_uint64 : ℕ → Bytes
put_uint64 v = put_uint32 (v / 2 ^ 32) ++ put_uint32 v

-- `binary.BigEndian.Uint16` and `Uint32`: they read the first bytes of the slice and no others.
pub uint16 : Bytes → ℕ
uint16 (a ∷ b ∷ rest) = a * 256 + b
uint16 _ = 0

pub uint32 : Bytes → ℕ
uint32 (a ∷ b ∷ c ∷ d ∷ rest) = a * 2 ^ 24 + b * 2 ^ 16 + c * 256 + d
uint32 _ = 0

mark_binary : Bool → Bytes → Bytes
mark_binary true (h ∷ rest) = bit_or h 0x80 ∷ rest
mark_binary _ header = header

send_header : ℕ → Bytes
send_header n =
    if ltb n 126
    then (n % 256) ∷ []
    else if ltb n 65536
    then 126 ∷ put_uint16 (n % 65536)
    else 127 ∷ put_uint64 n

-- What `send` writes to the stream.
unfoldable pub send : Packet → Bytes
unfolding mark_binary send_header
send p = mark_binary p.is_binary (send_header (encoded_len p true)) ++ encode p true

-- The states of the loop in `nextPacket`; each ends by the call of the state that it sets.
read_payload : ℕ → Bool → Bytes → Result Error (Packet × Bytes)
read_payload expected_len is_binary r = decode_with_len r is_binary expected_len

read_extended_len_16 : Bool → Bytes → Result Error (Packet × Bytes)
unfolding read_payload uint16
read_extended_len_16 is_binary r = do
  (header, rest) ← read_full 2 r
  read_payload (uint16 header) is_binary rest

read_extended_len_64 : Bool → Bytes → Result Error (Packet × Bytes)
unfolding read_payload uint32
read_extended_len_64 is_binary r = do
  (header, rest) ← read_full 8 r
  read_payload (uint32 header) is_binary rest

choose_state : ℕ → Bool → Bytes → Result Error (Packet × Bytes)
choose_state expected_len is_binary r =
    if ltb expected_len 126
    then read_payload expected_len is_binary r
    else if expected_len == 126
    then read_extended_len_16 is_binary r
    else read_extended_len_64 is_binary r

read_header : ℕ → Bytes → Result Error (Packet × Bytes)
read_header first_byte r =
    choose_state (bit_and first_byte 0x7f) (bit_and first_byte 0x80 == 0x80) r

-- `nextPacket`: the packet, and what the stream still holds.
unfoldable pub next_packet : Bytes → Result Error (Packet × Bytes)
unfolding read_header choose_state read_payload read_extended_len_16 read_extended_len_64
next_packet [] = err eof
next_packet (first_byte ∷ r) = read_header first_byte r
