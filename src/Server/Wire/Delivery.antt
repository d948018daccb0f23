-- ===== src/Server/Wire/Delivery.antt =====
-- What is sent through a polling transport arrives.
use socket_io.Base.{
  ℕ, ◌≡◌, ◌≢◌, refl, ap, ◌∙◌, Bool, true, false, Option, List, [], ◌∷◌, ◌++◌, Bytes, AreBytes,
  Lacks, All, All-append, map, Result, ok, ◌>>=◌,
}
use socket_io.EngineIo.Packet.{Packet, Error, message, new_packet}
use socket_io.EngineIo.Payload.{encode_payloads, decode_payloads}
use socket_io.EngineIo.Payload.RoundTrip.{IsCarried, decode_payloads-encode_payloads}
use socket_io.Parser.Stream.{Parser, after, add, add_messages}
use socket_io.Parser.Stream.Assembly.{Message, IsSent, idle, messages, outcome, add_messages-sent}
use socket_io.Server.Wire.{attachment_packets, send_buffers, on_eio_packet}

-- The buffers of a packet: its text, and its attachments.
abbrev pub buffers : Message → List Bytes
buffers m = m.text ∷ m.attachments

-- The packets of all the messages, each from a call of `sendBuffers`.
unfoldable pub send_all : List Message → Result Error (List Packet)
send_all [] = ok []
send_all (m ∷ ms) = do packets ← send_buffers (buffers m); rest ← send_all ms; ok (packets ++ rest)

-- The text has no byte that a payload takes for a delimiter.
pub record OnWire (m : Message) : Type 0 where
  pub text_bytes : AreBytes m.text
  pub no_delimiter : Lacks 30 m.text
  pub attachment_bytes : All AreBytes m.attachments

abbrev as_packet : Bool → Bytes → Packet
as_packet is_binary body = record { is_binary = is_binary; type = message; body = body }

abbrev pub packets_of : List Message → List Packet
packets_of [] = []
packets_of (m ∷ ms) = as_packet false m.text ∷ (map (as_packet true) m.attachments ++ packets_of ms)

attachment_packets-ok : (l : List Bytes) → attachment_packets l ≡ ok (map (as_packet true) l)
unfolding attachment_packets new_packet
attachment_packets-ok [] = refl
attachment_packets-ok (b ∷ l) = rw (attachment_packets-ok l)

send_buffers-ok :
    (m : Message)
    → send_buffers (buffers m) ≡ ok (as_packet false m.text ∷ map (as_packet true) m.attachments)
unfolding send_buffers new_packet
send_buffers-ok m = rw (attachment_packets-ok m.attachments)

send_all-ok : (ms : List Message) → send_all ms ≡ ok (packets_of ms)
unfolding send_all
send_all-ok [] = refl
send_all-ok (m ∷ ms) = rw (send_buffers-ok m, send_all-ok ms)

attachments-IsCarried : (l : List Bytes) → All AreBytes l → All IsCarried (map (as_packet true) l)
attachments-IsCarried [] h = tt
attachments-IsCarried (b ∷ l) h =
    (record { valid = λ e. refl; bytes = h.0; no_delimiter = λ e. cc }, attachments-IsCarried l h.1)

packets_of-IsCarried : (ms : List Message) → All OnWire ms → All IsCarried (packets_of ms)
packets_of-IsCarried [] h = tt
packets_of-IsCarried (m ∷ ms) h = (
  record { valid = λ e. cc; bytes = h.0.text_bytes; no_delimiter = λ e. h.0.no_delimiter },
  All-append IsCarried (map (as_packet true) m.attachments) (packets_of ms)
      (attachments-IsCarried m.attachments h.0.attachment_bytes) (packets_of-IsCarried ms h.1),
)

packets_of-cons : (ms : List Message) → ms ≢ [] → packets_of ms ≢ []
packets_of-cons [] n = absurd (n refl)
packets_of-cons (m ∷ ms) n = λ e. cc

module _ (strings : Bytes → Option (List Bytes)) where
  -- Messages only.
  abbrev Bodies : List Packet → List Bytes → Type 0
  Bodies packets l = (p : Parser) → on_eio_packet strings p packets ≡ add_messages strings p l

  Bodies-cons :
      (is_binary : Bool) (body : Bytes) (packets : List Packet) (l : List Bytes)
      → Bodies packets l
      → Bodies (as_packet is_binary body ∷ packets) (body ∷ l)
  unfolding on_eio_packet add_messages
  Bodies-cons is_binary body packets l f p = ap (after (add strings p body)) (λ i q. f q i)

  Bodies-attachments :
      (attachments : List Bytes) (packets : List Packet) (l : List Bytes)
      → Bodies packets l
      → Bodies (map (as_packet true) attachments ++ packets) (attachments ++ l)
  Bodies-attachments [] packets l f = f
  Bodies-attachments (b ∷ attachments) packets l f =
      Bodies-cons true b _ _ (Bodies-attachments attachments packets l f)

  packets_of-Bodies : (ms : List Message) → Bodies (packets_of ms) (messages ms)
  unfolding on_eio_packet add_messages
  packets_of-Bodies [] p = refl
  packets_of-Bodies (m ∷ ms) p =
      Bodies-cons false m.text (map (as_packet true) m.attachments ++ packets_of ms)
        (m.attachments ++ messages ms)
        (Bodies-attachments m.attachments (packets_of ms) (messages ms) (packets_of-Bodies ms)) p

  -- Packets that are sent one after the other, whose texts parse as what they mean and are not
  -- mistaken for delimiters, pass through a payload of a polling transport and come out of the parser
  -- of the other side as they were meant: all of them, in order, each with its own attachments.
  pub delivered :
      (limit : ℕ) (ms : List Message)
      → ms ≢ []
      → All (IsSent strings limit) ms
      → All OnWire ms
      → ((send_all ms >>= λ packets. decode_payloads (encode_payloads packets))
          ≡ ok (packets_of ms))
        × (on_eio_packet strings (idle limit) (packets_of ms) ≡ (idle limit, ok (map outcome ms)))
  delivered limit ms n sent wire = (
    ap (λ r. r >>= λ packets. decode_payloads (encode_payloads packets)) (send_all-ok ms)
        ∙ decode_payloads-encode_payloads (packets_of ms) (packets_of-cons ms n)
            (packets_of-IsCarried ms wire),
    packets_of-Bodies ms (idle limit) ∙ add_messages-sent strings limit ms sent,
  )
