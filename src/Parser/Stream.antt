-- ===== src/Parser/Stream.antt =====
-- `Add` and `Reset` of parser/json/decode.go, and `addBuffer` of parser/json/binary.go: a packet
-- with its binary attachments is put together from one message each.
pub mod Assembly
mod Tests
use socket_io.Base.{
  ℕ, ◌+◌, ◌-◌, ◌%◌, ◌^◌, Bool, true, false, not, ◌&&◌, ◌||◌, Option, none, some, List, [], ◌∷◌,
  ◌++◌, Bytes, ltb, ◌==◌, if◌then◌else◌, Result, ok, err,
}
use socket_io.Parser.Header.{PacketHeader, Error, Fault, error, max_attachments_exceeded, is_binary}
use socket_io.Parser.Decode.{parse_header}

pub record Reconstructor : Type 0 where
  pub header : PacketHeader
  pub name : Bytes
  pub buffers : List Bytes
  pub remaining : ℕ

pub record Parser : Type 0 where
  pub r : Option Reconstructor
  pub max_attachments : ℕ

-- What `finish` is called with: the header, the event's name, and the buffers to decode.
pub record Finished : Type 0 where
  pub header : PacketHeader
  pub name : Bytes
  pub buffers : List Bytes

unfoldable pub reset : Parser → Parser
reset p = record p { r = none }

-- `remaining--` wraps as the pattern of an `int`.
add_buffer : Bytes → Reconstructor → Reconstructor × Bool
add_buffer buf r =
    let left = (r.remaining + (2 ^ 64 - 1)) % 2 ^ 64 in
    (record r { buffers = r.buffers ++ (buf ∷ []); remaining = left }, left == 0)

finished : Reconstructor → Finished
finished r = record { header = r.header; name = r.name; buffers = r.buffers }

-- A comparison of `int`s: no negative number exceeds the limit.
unfoldable pub exceeds : ℕ → ℕ → Bool
exceeds attachments limit = ltb 0 limit && (ltb attachments (2 ^ 63) && ltb limit attachments)

start : Parser → PacketHeader × Bytes × Bytes → Parser × Result Fault (Option Finished)
unfolding finished exceeds
start p (header, buf, name) =
    let r : Reconstructor = record {
      header = header;
      name = name;
      buffers = buf ∷ [];
      remaining = header.attachments;
    } in
    if exceeds header.attachments p.max_attachments
    then (record p { r = some r }, err (error max_attachments_exceeded))
    else if not (is_binary header.type) || header.attachments == 0
    then (record p { r = none }, ok (some (finished r)))
    else (record p { r = some r }, ok none)

begin :
    Parser → Result Fault (PacketHeader × Bytes × Bytes) → Parser × Result Fault (Option Finished)
unfolding start
begin p (ok parsed) = start p parsed
begin p (err e) = (p, err e)

continue : Parser → Reconstructor × Bool → Parser × Result Fault (Option Finished)
unfolding finished
continue p (r, true) = (record p { r = none }, ok (some (finished r)))
continue p (r, false) = (record p { r = some r }, ok none)

unfoldable pub deliver :
    Finished → Parser × Result Fault (List Finished) → Parser × Result Fault (List Finished)
deliver f (p, ok fs) = (p, ok (f ∷ fs))
deliver f (p, err e) = (p, err e)

unfoldable pub after :
    Parser × Result Fault (Option Finished)
    → (Parser → Parser × Result Fault (List Finished))
    → Parser × Result Fault (List Finished)
unfolding deliver
after (p, ok none) rest = rest p
after (p, ok (some f)) rest = deliver f (rest p)
after (p, err e) rest = (p, err e)

module _ (strings : Bytes → Option (List Bytes)) where
  unfoldable pub add : Parser → Bytes → Parser × Result Fault (Option Finished)
  unfolding begin continue add_buffer
  add p s = elim p.r [
    | none ↦ begin p (parse_header strings s)
    | some r ↦ continue p (add_buffer s r)
  ]

  -- The messages one after the other, up to the first that fails.
  unfoldable pub add_messages : Parser → List Bytes → Parser × Result Fault (List Finished)
  unfolding after
  add_messages p [] = (p, ok [])
  add_messages p (s ∷ messages) = after (add p s) (λ p'. add_messages p' messages)
