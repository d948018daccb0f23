-- ===== src/EngineIo/Packet/Tests.antt =====
-- Runs of the packet codec, and its theorems at concrete packets.
use socket_io.Base.{true, false, ◌≡◌, refl, [], ◌∷◌, ok, err, arith}
use socket_io.Base64
use socket_io.EngineIo.Packet.{
  message, Packet, encode, decode, invalid_packet_size, invalid_packet_type, corrupt_input,
  from_char,
}
use socket_io.EngineIo.Packet.RoundTrip.{decode-encode_packet}

abbrev hello : Packet
hello = record { is_binary = false; type = message; body = b'h' ∷ b'i' ∷ [] }

abbrev blob : Packet
blob = record { is_binary = true; type = message; body = 0 ∷ 30 ∷ 255 ∷ 7 ∷ [] }

encode-hello : encode hello true ≡ b'4' ∷ b'h' ∷ b'i' ∷ []
unfolding encode
encode-hello = refl

encode-blob : encode blob false ≡ b'b' ∷ b'A' ∷ b'B' ∷ b'7' ∷ b'/' ∷ b'B' ∷ b'w' ∷ b'=' ∷ b'=' ∷ []
unfolding encode Base64.encode
encode-blob = refl

decode_wrapped :
    decode (b'b' ∷ b'A' ∷ 10 ∷ b'B' ∷ b'7' ∷ b'/' ∷ 13 ∷ []) false
    ≡ ok (record { is_binary = true; type = message; body = 0 ∷ 30 ∷ 255 ∷ [] })
unfolding decode Base64.decode
decode_wrapped = refl

decode_empty : decode [] false ≡ err invalid_packet_size
unfolding decode
decode_empty = refl

decode_bad_type : decode (b'7' ∷ []) false ≡ err invalid_packet_type
unfolding decode from_char
decode_bad_type = refl

decode_unpadded : decode (b'b' ∷ b'A' ∷ b'B' ∷ []) false ≡ err corrupt_input
unfolding decode Base64.decode
decode_unpadded = refl

decode-encode_packet_example : decode (encode blob false) false ≡ ok blob
decode-encode_packet_example = decode-encode_packet blob false (λ _. refl) (omega arith)
