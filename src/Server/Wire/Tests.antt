-- ===== src/Server/Wire/Tests.antt =====
-- Two packets over a polling transport, the first of them with an attachment.
use socket_io.Base.{◌≡◌, refl, arith, Option, none, some, List, [], ◌∷◌, Bytes, map, All, ok, ◌>>=◌}
use socket_io.Base.Decimal.{parse_uint}
use socket_io.Parser.Header.{binary_event, connect, from_char}
use socket_io.Parser.Decode.{parse_header}
use socket_io.Parser.Stream.{exceeds}
use socket_io.Parser.Stream.Assembly.{Message, IsSent, idle, outcome}
use socket_io.EngineIo.Payload.{encode_payloads, decode_payloads}
use socket_io.Server.Wire.{on_eio_packet}
use socket_io.Server.Wire.Delivery.{OnWire, send_all, packets_of, delivered}

abbrev strings : Bytes → Option (List Bytes)
strings s = some ((b'h' ∷ []) ∷ [])

abbrev blob : Message
blob = record {
  text = b'5' ∷ b'1' ∷ b'-' ∷ b'[' ∷ b'"' ∷ b'h' ∷ b'"' ∷ b']' ∷ [];
  header = record { type = binary_event; nsp = b'/' ∷ []; id = none; attachments = 1 };
  buf = b'[' ∷ b'"' ∷ b'h' ∷ b'"' ∷ b']' ∷ [];
  name = b'h' ∷ [];
  attachments = (30 ∷ 255 ∷ []) ∷ [];
}

abbrev hello : Message
hello = record {
  text = b'0' ∷ [];
  header = record { type = connect; nsp = b'/' ∷ []; id = none; attachments = 0 };
  buf = [];
  name = [];
  attachments = [];
}

two-IsSent : All (IsSent strings 3) (blob ∷ hello ∷ [])
unfolding parse_header from_char exceeds parse_uint
two-IsSent = (
  record { parsed = refl; count = refl; bound = omega arith; allowed = refl },
  (record { parsed = refl; count = refl; bound = omega arith; allowed = refl }, tt),
)

two-OnWire : All OnWire (blob ∷ hello ∷ [])
two-OnWire = (
  record {
    text_bytes = omega arith;
    no_delimiter = omega arith;
    attachment_bytes = (omega arith, tt);
  },
  (record { text_bytes = omega arith; no_delimiter = omega arith; attachment_bytes = tt }, tt),
)

delivered_example :
    ((send_all (blob ∷ hello ∷ []) >>= λ packets. decode_payloads (encode_payloads packets))
      ≡ ok (packets_of (blob ∷ hello ∷ [])))
    × (on_eio_packet strings (idle 3) (packets_of (blob ∷ hello ∷ []))
        ≡ (idle 3, ok (map outcome (blob ∷ hello ∷ []))))
delivered_example = delivered strings 3 (blob ∷ hello ∷ []) (λ e. cc) two-IsSent two-OnWire
