-- ===== src/Parser/Decode/Tests.antt =====
-- Runs of the header's codec, and its theorems at concrete packets.
use socket_io.Base.{◌≡◌, refl, inr, arith, none, some, [], ◌∷◌, ◌++◌, Bytes, ok, err, ◌>>=◌}
use socket_io.Parser.Header.{
  binary_event, binary_ack, from_char, PacketHeader, error, malformed_packet, header_bytes, to_char,
  itoa, is_root, id_bytes,
}
use socket_io.Base.Decimal.{format_uint, parse_uint}
use socket_io.Parser.Samples.{quoted}
use socket_io.Parser.Decode.{parse_header, event_name}
use socket_io.Parser.Decode.RoundTrip.{IsWritable, normal, parse_header-header_bytes}
use socket_io.Parser.Decode.Events.{bracket-Follows, payload, parse_header_event}

-- `51-/a,7`: a binary event of the namespace `/a` with one attachment, to be acknowledged as 7.
abbrev pub blob : PacketHeader
blob = record { type = binary_event; nsp = b'/' ∷ b'a' ∷ []; id = some 7; attachments = 1 }

abbrev greeting : Bytes
greeting = b'h' ∷ b'i' ∷ []

header_bytes-blob : header_bytes blob ≡ b'5' ∷ b'1' ∷ b'-' ∷ b'/' ∷ b'a' ∷ b',' ∷ b'7' ∷ []
unfolding header_bytes to_char itoa is_root id_bytes format_uint
header_bytes-blob = refl

-- A binary packet that ends with its dash keeps the dash.
dash_only :
    parse_header quoted (b'6' ∷ b'1' ∷ b'-' ∷ [])
    ≡ ok (record { type = binary_ack; nsp = b'/' ∷ []; id = none; attachments = 1 }, b'-' ∷ [], [])
unfolding parse_header from_char parse_uint
dash_only = refl

unquoted_event : parse_header quoted (b'2' ∷ b'[' ∷ b'1' ∷ b']' ∷ []) ≡ err (error malformed_packet)
unfolding parse_header from_char
unquoted_event = refl

blob-IsWritable : IsWritable blob
blob-IsWritable = record {
  count = omega arith;
  nsp = inr (b'a' ∷ [], refl, (omega arith, tt));
  id = omega arith;
}

parse_header-header_bytes_example :
    parse_header quoted (header_bytes blob ++ payload greeting (b']' ∷ [])) ≡ (
      event_name quoted binary_event (payload greeting (b']' ∷ [])) >>= λ name.
      ok (normal blob, payload greeting (b']' ∷ []), name))
parse_header-header_bytes_example =
    parse_header-header_bytes quoted blob (payload greeting (b']' ∷ [])) blob-IsWritable
      (bracket-Follows binary_event _)

parse_header_event_example :
    parse_header quoted (header_bytes blob ++ payload greeting (b']' ∷ []))
    ≡ ok (normal blob, payload greeting (b']' ∷ []), greeting)
parse_header_event_example =
    parse_header_event quoted greeting (b']' ∷ []) blob blob-IsWritable refl (omega arith) refl
