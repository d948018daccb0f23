-- ===== src/EngineIo/Payload/Tests.antt =====
-- Runs of the payload codec, and its theorems at concrete payloads.
use socket_io.Base.{true, false, ◌≡◌, refl, [], ◌∷◌, List, ok, err, arith, All}
use socket_io.Base64
use socket_io.EngineIo.Packet.{encoded_len, Packet, message, invalid_packet_size, decode}
use socket_io.EngineIo.Payload.{encode_payloads, decode_payloads, encoded_payloads_len, split_byte}
use socket_io.EngineIo.Payload.Split.{join, split_byte-join}
use socket_io.EngineIo.Payload.RoundTrip.{IsCarried, decode_payloads-encode_payloads}

abbrev hello : Packet
hello = record { is_binary = false; type = message; body = b'h' ∷ b'i' ∷ [] }

abbrev blob : Packet
blob = record { is_binary = true; type = message; body = 0 ∷ 30 ∷ 255 ∷ 7 ∷ [] }

abbrev two : List Packet
two = hello ∷ blob ∷ []

encoded_two : encoded_payloads_len two ≡ 13
unfolding encoded_payloads_len encoded_len Base64.encoded_len
encoded_two = refl

nothing_is_no_payload : decode_payloads (encode_payloads []) ≡ err invalid_packet_size
unfolding encode_payloads decode_payloads split_byte decode
nothing_is_no_payload = refl

split_byte_ends : split_byte (30 ∷ 7 ∷ 30 ∷ []) 30 ≡ [] ∷ (7 ∷ []) ∷ [] ∷ []
unfolding split_byte
split_byte_ends = refl

two-IsCarried : All IsCarried two
two-IsCarried = (
  record { valid = λ e. cc; bytes = omega arith; no_delimiter = λ e. omega arith },
  (record { valid = λ e. refl; bytes = omega arith; no_delimiter = λ e. cc }, tt),
)

decode_payloads-encode_payloads_example : decode_payloads (encode_payloads two) ≡ ok two
decode_payloads-encode_payloads_example = decode_payloads-encode_payloads two (cc) two-IsCarried

split_byte-join-two :
    split_byte (join 30 ((1 ∷ []) ∷ [] ∷ (2 ∷ []) ∷ [])) 30 ≡ (1 ∷ []) ∷ [] ∷ (2 ∷ []) ∷ []
split_byte-join-two = split_byte-join 30 (1 ∷ []) ([] ∷ (2 ∷ []) ∷ []) (omega arith)
