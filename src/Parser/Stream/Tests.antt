-- ===== src/Parser/Stream/Tests.antt =====
-- Runs of the parser, and its theorem at two packets of which the first has an attachment.
use socket_io.Base.{◌≡◌, refl, arith, false, none, [], ◌∷◌, map, All, ok}
use socket_io.Parser.Header.{binary_event, connect, from_char}
use socket_io.Parser.Decode.{parse_header}
use socket_io.Parser.Stream.{add_messages, exceeds}
use socket_io.Parser.Stream.Assembly.{Message, IsSent, idle, messages, outcome, add_messages-sent}
use socket_io.Base.Decimal.{parse_uint}
use socket_io.Parser.Samples.{quoted}

abbrev blob : Message
blob = record {
  text = b'5' ∷ b'1' ∷ b'-' ∷ b'[' ∷ b'"' ∷ b'h' ∷ b'"' ∷ b']' ∷ [];
  header = record { type = binary_event; nsp = b'/' ∷ []; id = none; attachments = 1 };
  buf = b'[' ∷ b'"' ∷ b'h' ∷ b'"' ∷ b']' ∷ [];
  name = b'h' ∷ [];
  attachments = (0 ∷ 255 ∷ []) ∷ [];
}

abbrev hello : Message
hello = record {
  text = b'0' ∷ [];
  header = record { type = connect; nsp = b'/' ∷ []; id = none; attachments = 0 };
  buf = [];
  name = [];
  attachments = [];
}

two-IsSent : All (IsSent quoted 3) (blob ∷ hello ∷ [])
unfolding parse_header from_char exceeds parse_uint
two-IsSent = (
  record { parsed = refl; count = refl; bound = omega arith; allowed = refl },
  (record { parsed = refl; count = refl; bound = omega arith; allowed = refl }, tt),
)

-- With a limit of zero there is none.
unlimited : exceeds 1000 0 ≡ false
unfolding exceeds
unlimited = refl

add_messages-sent_example :
    add_messages quoted (idle 3) (messages (blob ∷ hello ∷ []))
    ≡ (idle 3, ok (map outcome (blob ∷ hello ∷ [])))
add_messages-sent_example = add_messages-sent quoted 3 (blob ∷ hello ∷ []) two-IsSent
