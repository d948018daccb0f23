-- ===== src/EngineIo/Packet/RoundTrip.antt =====
-- Packets survive their encoding, on a transport of text and on one that carries binary frames.
use socket_io.Base.{
  ℕ, Bool, true, false, ◌&&◌, ◌≡◌, refl, ◌↔◌, arith, [], ◌∷◌, Bytes, length, AreBytes, ok, ◌==◌,
}
use socket_io.Base64
use socket_io.Base64.RoundTrip.{decode-encode, length-encode}
use socket_io.EngineIo.Packet.{
  PacketType, open_type, close_type, ping, pong, message, upgrade, noop, Packet, to_char, from_char,
  new_packet, encoded_len, encode, decode, decode_text, base64_prefix,
}

-- What every packet that the program makes satisfies: only a message is binary.
abbrev pub IsValid : Packet → Type 0
IsValid p = p.is_binary ≡ true → p.type ≡ message

from_char-to_char : (t : PacketType) → from_char (to_char t) ≡ ok t
unfolding from_char to_char
from_char-to_char open_type = refl
from_char-to_char close_type = refl
from_char-to_char ping = refl
from_char-to_char pong = refl
from_char-to_char message = refl
from_char-to_char upgrade = refl
from_char-to_char noop = refl

to_char-from_char : (b : ℕ) (t : PacketType) → from_char b ≡ ok t → b ≡ to_char t
unfolding from_char to_char
to_char-from_char b t h = ground arith

-- A byte is read as a packet type exactly when it is the character of that type.
pub from_char_iff : (b : ℕ) (t : PacketType) → (from_char b ≡ ok t) ↔ (b ≡ to_char t)
from_char_iff b t = (to_char-from_char b t, λ e. rw e (from_char-to_char t))

-- `EncodedLen` is the number of bytes that `Encode` writes.
pub length-encode_packet : (p : Packet) (sb : Bool) → length (encode p sb) ≡ encoded_len p sb
unfolding encode encoded_len
length-encode_packet p sb = ground (arith, length-encode p.body)

to_char-ne-prefix : (t : PacketType) → to_char t == base64_prefix ≡ false
unfolding to_char
to_char-ne-prefix t = ground arith

module _ (t : PacketType) (body : Bytes) where
  decode_plain :
      decode (to_char t ∷ body) false ≡ ok (record { is_binary = false; type = t; body = body })
  unfolding decode
  decode_plain = rw (to_char-ne-prefix t, from_char-to_char t)

  decode_base64 :
      AreBytes body
      → decode (base64_prefix ∷ Base64.encode body) false
        ≡ ok (record { is_binary = true; type = message; body = body })
  unfolding decode
  decode_base64 h = rw (decode-encode body h)

&&-false : (sb : Bool) → (sb && false) ≡ false
&&-false true = refl
&&-false false = refl

decode-encode_by :
    (b sb : Bool) (t : PacketType) (body : Bytes)
    → (b ≡ true → t ≡ message)
    → AreBytes body
    → decode (encode (record { is_binary = b; type = t; body = body }) sb) (sb && b)
      ≡ ok (record { is_binary = b; type = t; body = body })
unfolding encode
decode-encode_by false sb t body v h = rw (&&-false sb) (decode_plain t body)
decode-encode_by true false t body v h = rw (v refl) (decode_base64 t body h)
decode-encode_by true true t body v h = rw (v refl) (unfold decode in refl)

-- Decoding undoes encoding for every valid packet, if the frame is declared binary exactly when the
-- packet is binary and the transport carries binary frames.
pub decode-encode_packet :
    (p : Packet) (sb : Bool)
    → IsValid p
    → AreBytes p.body
    → decode (encode p sb) (sb && p.is_binary) ≡ ok p
decode-encode_packet p sb v h = decode-encode_by p.is_binary sb p.type p.body v h

decode_text-IsValid : (c : ℕ) (body : Bytes) (p : Packet) → decode_text c body ≡ ok p → IsValid p
unfolding decode_text
decode_text-IsValid c body p h e = ground arith

decode-IsValid : (frame : Bytes) (bf : Bool) (p : Packet) → decode frame bf ≡ ok p → IsValid p
unfolding decode
decode-IsValid frame true p h e = ground arith
decode-IsValid [] false p h e = cc
decode-IsValid (c ∷ body) false p h e = decode_text-IsValid c body p h e

new_packet-IsValid :
    (t : PacketType) (b : Bool) (body : Bytes) (p : Packet) → new_packet t b body ≡ ok p → IsValid p
unfolding new_packet
new_packet-IsValid message b body p h e = ground arith
new_packet-IsValid _ b body p h e = ground arith

new_packet_fields :
    (t : PacketType) (b : Bool) (body : Bytes) (p : Packet)
    → new_packet t b body ≡ ok p
    → (p.type ≡ t) × (p.is_binary ≡ b) × (p.body ≡ body)
unfolding new_packet
new_packet_fields message b body p e = (ground arith, ground arith, ground arith)
new_packet_fields _ b body p e = (ground arith, ground arith, ground arith)

-- Whatever `NewPacket` makes comes back from a text transport, and it holds the type, the flag and the
-- data that were given.
pub new_packet_survives :
    (t : PacketType) (b : Bool) (body : Bytes) (p : Packet)
    → AreBytes body
    → new_packet t b body ≡ ok p
    → (decode (encode p false) false ≡ ok p) × (p.type ≡ t) × (p.is_binary ≡ b) × (p.body ≡ body)
new_packet_survives t b body p h e =
    let f = new_packet_fields t b body p e in
    (decode-encode_packet p false (new_packet-IsValid t b body p e) (rw f.2 h), f.0, f.1, f.2)

new_packet_valid :
    (t : PacketType) (b : Bool) (body : Bytes)
    → (b ≡ true → t ≡ message)
    → new_packet t b body ≡ ok (record { is_binary = b; type = t; body = body })
unfolding new_packet
new_packet_valid message b body v = ground arith
new_packet_valid _ b body v = ground arith

-- No input decodes to a packet that `NewPacket` would refuse.
pub decode_accepted :
    (frame : Bytes) (bf : Bool) (p : Packet)
    → decode frame bf ≡ ok p
    → new_packet p.type p.is_binary p.body ≡ ok p
decode_accepted frame bf p h =
    new_packet_valid p.type p.is_binary p.body (decode-IsValid frame bf p h)
