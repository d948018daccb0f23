-- ===== src/EngineIo/Frame/RoundTrip.antt =====
-- A framed packet is read back, as long as its length fits 16 bits; a longer one is not.
use Prim.Native.Nat.{bit_and}
use socket_io.Base.{
  ℕ, ◌+◌, ◌/◌, ◌^◌, ◌≤◌, ◌<◌, ◌≡◌, refl, ap, ap₂, ◌∙◌, arith, Bool, true, false, [], ◌∷◌, ◌++◌,
  append_assoc, Bytes, length, length-append, take-length_append, drop-length_append, AreBytes, ltb,
  ◌==◌, if◌then◌else◌, ok, err, Bool-cases, ltb→lt, ltb-false, inl, inr,
}
use socket_io.EngineIo.Packet.{
  Packet, message, encoded_len, encode, decode, read_full, decode_with_len, invalid_packet_size,
}
use socket_io.EngineIo.Packet.RoundTrip.{IsValid, decode-encode_packet, length-encode_packet}
use socket_io.EngineIo.Frame.{
  put_uint16, put_uint64, uint16, uint32, mark_binary, send_header, send, read_payload, read_header,
  choose_state, read_extended_len_16, read_extended_len_64, next_packet,
}
use socket_io.EngineIo.Frame.Bits.{bit_or_mark, bit_and_length, bit_and_flag}

read_full-append : (s rest : Bytes) → read_full (length s) (s ++ rest) ≡ ok (s, rest)
unfolding read_full
read_full-append s rest =
    rw (take-length_append s rest, drop-length_append s rest) (ground (arith, length-append s rest))

-- The first byte of a header: the length or the marker of a longer one, and the flag.
abbrev first_byte : Bool → ℕ → ℕ
first_byte b n = if b then n + 128 else n

header_length : (b : Bool) (n : ℕ) → n < 128 → bit_and (first_byte b n) 0x7f ≡ n
header_length true n h = bit_and_length (n + 128) (omega arith) ∙ omega arith
header_length false n h = bit_and_length n (omega arith) ∙ omega arith

header_flag : (b : Bool) (n : ℕ) → n < 128 → bit_and (first_byte b n) 0x80 == 0x80 ≡ b
header_flag true n h = ground (arith, bit_and_flag (n + 128))
header_flag false n h = ground (arith, bit_and_flag n)

read_header_first :
    (b : Bool) (n : ℕ) (r : Bytes) → n < 128 → read_header (first_byte b n) r ≡ choose_state n b r
unfolding read_header
read_header_first b n r h =
    ap₂ (λ l f. choose_state l f r) (header_length b n h) (header_flag b n h)

mark_binary_first :
    (b : Bool) (n : ℕ) (r : Bytes) → n < 128 → mark_binary b (n ∷ r) ≡ first_byte b n ∷ r
unfolding mark_binary
mark_binary_first true n r h = rw (bit_or_mark n h)
mark_binary_first false n r h = refl

next_packet_first :
    (b : Bool) (n : ℕ) (r : Bytes) → n < 128 → next_packet (first_byte b n ∷ r) ≡ choose_state n b r
unfolding next_packet
next_packet_first b n r h = read_header_first b n r h

-- The header that `send` writes for a length, by the length.
module _ (n : ℕ) where
  send_header_short : n < 126 → send_header n ≡ n ∷ []
  unfolding send_header
  send_header_short h = ground arith

  send_header_16 : 126 ≤ n → n < 65536 → send_header n ≡ 126 ∷ put_uint16 n
  unfolding send_header
  send_header_16 h k = ground arith

  send_header_64 : 65536 ≤ n → send_header n ≡ 127 ∷ put_uint64 n
  unfolding send_header
  send_header_64 h = ground arith

  uint16_put : n < 65536 → uint16 (put_uint16 n) ≡ n
  unfolding uint16
  uint16_put h = omega arith

  -- `Uint32` of eight bytes takes the upper half of the number.
  uint32_put : n < 2 ^ 64 → uint32 (put_uint64 n) ≡ n / 2 ^ 32
  unfolding uint32
  uint32_put h = omega arith

  -- What the reader makes of a header, with any bytes behind it.
  module _ (b : Bool) (r : Bytes) where
    next_packet_short :
        n < 126 → next_packet (mark_binary b (send_header n) ++ r) ≡ read_payload n b r
    next_packet_short h =
        rw (send_header_short h, mark_binary_first b n [] (omega arith))
          (next_packet_first b n r (omega arith) ∙ (unfold choose_state in ground arith))

    read_16 : n < 65536 → choose_state 126 b (put_uint16 n ++ r) ≡ read_payload n b r
    unfolding choose_state read_extended_len_16
    read_16 k = rw (read_full-append (put_uint16 n) r) (ap (λ l. read_payload l b r) (uint16_put k))

    read_64 : n < 2 ^ 64 → choose_state 127 b (put_uint64 n ++ r) ≡ read_payload (n / 2 ^ 32) b r
    unfolding choose_state read_extended_len_64
    read_64 k = rw (read_full-append (put_uint64 n) r) (ap (λ l. read_payload l b r) (uint32_put k))

    next_packet_16 :
        126 ≤ n → n < 65536 → next_packet (mark_binary b (send_header n) ++ r) ≡ read_payload n b r
    next_packet_16 h k =
        rw (send_header_16 h k, mark_binary_first b 126 (put_uint16 n) (omega arith))
          (next_packet_first b 126 (put_uint16 n ++ r) (omega arith) ∙ read_16 k)

    next_packet_64 :
        65536 ≤ n
        → n < 2 ^ 64
        → next_packet (mark_binary b (send_header n) ++ r) ≡ read_payload (n / 2 ^ 32) b r
    next_packet_64 h k =
        rw (send_header_64 h, mark_binary_first b 127 (put_uint64 n) (omega arith))
          (next_packet_first b 127 (put_uint64 n ++ r) (omega arith) ∙ read_64 k)

decode_with_len-append :
    (s rest : Bytes) (b : Bool) (p : Packet)
    → decode s b ≡ ok p
    → decode_with_len (s ++ rest) b (length s) ≡ ok (p, rest)
unfolding decode_with_len
decode_with_len-append s rest b p h = rw (read_full-append s rest, h)

read_payload-encode :
    (p : Packet) (rest : Bytes)
    → IsValid p
    → AreBytes p.body
    → read_payload (encoded_len p true) p.is_binary (encode p true ++ rest) ≡ ok (p, rest)
unfolding read_payload
read_payload-encode p rest v h =
    rw (← length-encode_packet p true)
      (decode_with_len-append (encode p true) rest p.is_binary p (decode-encode_packet p true v h))

-- A packet of fewer than 65536 encoded bytes is read from the stream as it was sent, and the reader
-- stops right behind it.
pub next_packet-send :
    (p : Packet) (rest : Bytes)
    → IsValid p
    → AreBytes p.body
    → encoded_len p true < 65536
    → next_packet (send p ++ rest) ≡ ok (p, rest)
unfolding send
next_packet-send p rest v h k = elim (Bool-cases (ltb (encoded_len p true) 126)) [
  | inl e ↦ rw append_assoc (
      next_packet_short (encoded_len p true) p.is_binary (encode p true ++ rest) (ltb→lt _ _ e)
      ∙ read_payload-encode p rest v h)
  | inr e ↦ rw append_assoc (
      next_packet_16 (encoded_len p true) p.is_binary (encode p true ++ rest) (ltb-false _ _ e) k
      ∙ read_payload-encode p rest v h)
]

-- What is read for a length of zero: no byte of the packet.
read_nothing :
    (b : Bool) (r : Bytes)
    → read_payload 0 b r ≡ (
        if b
        then ok (record { is_binary = true; type = message; body = [] }, r)
        else err invalid_packet_size)
unfolding read_payload decode decode_with_len
read_nothing true r = rw (decode_with_len, read_full-append [] r)
read_nothing false r = rw (decode_with_len, read_full-append [] r)

-- A packet of 65536 bytes or more, up to 4 GiB, is never read back: `nextPacket` takes the upper half
-- of the 64-bit length, which is 0. A text packet is an error, and a binary one is read as empty and
-- leaves its data in the stream.
pub next_packet-send_long :
    (p : Packet) (rest : Bytes)
    → 65536 ≤ encoded_len p true
    → encoded_len p true < 2 ^ 32
    → next_packet (send p ++ rest) ≡ (
        if p.is_binary
        then ok (record { is_binary = true; type = message; body = [] }, encode p true ++ rest)
        else err invalid_packet_size)
unfolding send
next_packet-send_long p rest h k = rw append_assoc (
    next_packet_64 (encoded_len p true) p.is_binary (encode p true ++ rest) h (omega arith)
    ∙ ap (λ n. read_payload n p.is_binary (encode p true ++ rest)) (omega arith)
    ∙ read_nothing p.is_binary (encode p true ++ rest))
