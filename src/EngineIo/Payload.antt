-- ===== src/EngineIo/Payload.antt =====
-- engine.io/parser/payload.go: several packets in one body of the polling transport.
pub mod Split
pub mod RoundTrip
mod Tests
use socket_io.Base.{
  ℕ, ◌+◌, ◌-◌, false, List, [], ◌∷◌, ◌++◌, Bytes, length, ◌==◌, if◌then◌else◌, Result, ok, ◌>>=◌,
}
use socket_io.EngineIo.Packet.{Packet, Error, encoded_len, encode, decode}

abbrev pub payload_delimiter : ℕ
payload_delimiter = 30

-- The loops count the packets; the last one is followed by no separator.
len_loop : ℕ → ℕ → List Packet → ℕ → ℕ
len_loop n i [] l = l
len_loop n i (p ∷ ps) l =
    len_loop n (i + 1) ps (l + encoded_len p false + (if i == n - 1 then 0 else 1))

unfoldable pub encoded_payloads_len : List Packet → ℕ
unfolding len_loop
encoded_payloads_len ps = len_loop (length ps) 0 ps 0

encode_loop : ℕ → ℕ → List Packet → Bytes → Bytes
encode_loop n i [] out = out
encode_loop n i (p ∷ ps) out =
    encode_loop n (i + 1) ps
      (out ++ (encode p false ++ (if i == n - 1 then [] else payload_delimiter ∷ [])))

unfoldable pub encode_payloads : List Packet → Bytes
unfolding encode_loop
encode_payloads ps = encode_loop (length ps) 0 ps []

-- `cur` is `buf[last:i]`, and the first argument is what the loop has not reached, `buf[i:]`.
split_loop : ℕ → Bytes → Bytes → List Bytes → List Bytes × Bytes
split_loop delim [] cur buffers = (buffers, cur)
split_loop delim (c ∷ rest) cur buffers =
    if c == delim
    then split_loop delim rest [] (buffers ++ (cur ∷ []))
    else split_loop delim rest (cur ++ (c ∷ [])) buffers

split_end : Bytes → List Bytes × Bytes → List Bytes
split_end buf ([], last) = buf ∷ []
split_end buf (b ∷ bs, last) = (b ∷ bs) ++ (last ∷ [])

unfoldable pub split_byte : Bytes → ℕ → List Bytes
unfolding split_loop split_end
split_byte buf delim = split_end buf (split_loop delim buf [] [])

-- The first piece that is no packet ends the loop.
decode_pieces : List Bytes → List Packet → Result Error (List Packet)
decode_pieces [] packets = ok packets
decode_pieces (sp ∷ rest) packets = do p ← decode sp false; decode_pieces rest (packets ++ (p ∷ []))

unfoldable pub decode_payloads : Bytes → Result Error (List Packet)
unfolding decode_pieces
decode_payloads buf = decode_pieces (split_byte buf payload_delimiter) []
