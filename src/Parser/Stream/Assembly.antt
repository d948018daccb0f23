-- ===== src/Parser/Stream/Assembly.antt =====
-- Packets come out of the stream one by one, each with its own attachments in their order.
use socket_io.Base.{
  ℕ, suc, ◌+◌, ◌-◌, ◌%◌, ◌^◌, ◌<◌, ◌≡◌, refl, ap, ◌∙◌, arith, Bool, true, false, not, ◌||◌, Option,
  none, some, List, [], ◌∷◌, ◌++◌, append_assoc, Bytes, length, map, All, ◌==◌, if◌then◌else◌,
  if-true, ok,
}
use socket_io.Parser.Header.{PacketHeader, is_binary}
use socket_io.Parser.Decode.{parse_header}
use socket_io.Parser.Stream.{
  Reconstructor, Parser, Finished, add_buffer, finished, exceeds, begin, start, continue, after,
  deliver, add, add_messages,
}

abbrev pub idle : ℕ → Parser
idle limit = record { r = none; max_attachments = limit }

-- A packet as its sender means it: the text and what it says, then the attachments.
pub record Message : Type 0 where
  pub text : Bytes
  pub header : PacketHeader
  pub buf : Bytes
  pub name : Bytes
  pub attachments : List Bytes

abbrev pub messages : List Message → List Bytes
messages [] = []
messages (m ∷ ms) = m.text ∷ (m.attachments ++ messages ms)

abbrev pub outcome : Message → Finished
outcome m = record { header = m.header; name = m.name; buffers = m.buf ∷ m.attachments }

module _ (strings : Bytes → Option (List Bytes)) (limit : ℕ) where
  -- The text says what is meant, as many attachments follow as it announces, and they are not too
  -- many.
  pub record IsSent (m : Message) : Type 0 where
    pub parsed : parse_header strings m.text ≡ ok (m.header, m.buf, m.name)
    pub count : length m.attachments ≡ (if is_binary m.header.type then m.header.attachments else 0)
    pub bound : m.header.attachments < 2 ^ 63
    pub allowed : exceeds m.header.attachments limit ≡ false

  collecting : Reconstructor → Parser
  collecting r = record { r = some r; max_attachments = limit }

  abbrev left : Reconstructor → ℕ
  left r = (r.remaining + (2 ^ 64 - 1)) % 2 ^ 64

  module _ (r : Reconstructor) (b : Bytes) where
    add_last :
        left r == 0 ≡ true
        → add strings (collecting r) b ≡ (
          idle limit,
          ok (some (record { header = r.header; name = r.name; buffers = r.buffers ++ (b ∷ []) })),
        )
    unfolding add collecting add_buffer finished
    add_last e = rw (e, continue)

    add_more :
        left r == 0 ≡ false
        → add strings (collecting r) b
          ≡ (collecting (record r { buffers = r.buffers ++ (b ∷ []); remaining = left r }), ok none)
    unfolding add collecting add_buffer
    add_more e = rw (e, continue)

  module _ (p p' : Parser) (s : Bytes) (rest : List Bytes) where
    add_messages-none :
        add strings p s ≡ (p', ok none)
        → add_messages strings p (s ∷ rest) ≡ add_messages strings p' rest
    unfolding add_messages
    add_messages-none e = ap (λ t. after t (λ q. add_messages strings q rest)) e

    add_messages-some :
        (f : Finished)
        → add strings p s ≡ (p', ok (some f))
        → add_messages strings p (s ∷ rest) ≡ deliver f (add_messages strings p' rest)
    unfolding add_messages
    add_messages-some f e = ap (λ t. after t (λ q. add_messages strings q rest)) e

  add_messages-buffers :
      (b : Bytes) (bs rest : List Bytes) (r : Reconstructor)
      → r.remaining ≡ length (b ∷ bs)
      → r.remaining < 2 ^ 63
      → add_messages strings (collecting r) ((b ∷ bs) ++ rest)
        ≡ deliver
            (record { header = r.header; name = r.name; buffers = r.buffers ++ (b ∷ bs) })
            (add_messages strings (idle limit) rest)
  add_messages-buffers b [] rest r e h =
      add_messages-some _ _ b rest _ (add_last r b (ground arith))
  add_messages-buffers b (c ∷ bs) rest r e h =
      add_messages-none _ _ b _ (add_more r b (ground arith))
      ∙ add_messages-buffers c bs rest _ (omega arith) (omega arith)
      ∙ ap
          (λ t.
            deliver (record { header = r.header; name = r.name; buffers = t })
              (add_messages strings (idle limit) rest))
          (append_assoc r.buffers (b ∷ []) (c ∷ bs))

  module _ (m : Message) (v : IsSent m) (rest : List Bytes) where
    abbrev opened : Reconstructor
    opened = record {
      header = m.header;
      name = m.name;
      buffers = m.buf ∷ [];
      remaining = m.header.attachments;
    }

    add_text : add strings (idle limit) m.text ≡ (
        if not (is_binary m.header.type) || m.header.attachments == 0
        then (
          idle limit,
          ok (some (record { header = m.header; name = m.name; buffers = m.buf ∷ [] })),
        )
        else (collecting opened, ok none))
    unfolding add start finished collecting
    add_text = ap (begin (idle limit)) v.parsed ∙ rw v.allowed

    abbrev done : Bool
    done = not (is_binary m.header.type) || m.header.attachments == 0

    none_expected : length m.attachments ≡ 0 → done ≡ true
    none_expected e = ground (arith, v.count)

    some_expected : {n : ℕ} → length m.attachments ≡ suc n → done ≡ false
    some_expected e = ground (arith, v.count)

    announced : {n : ℕ} → length m.attachments ≡ suc n → m.header.attachments ≡ suc n
    announced e = ground (arith, v.count)

    add_messages-attachments :
        (l : List Bytes)
        → m.attachments ≡ l
        → add_messages strings (idle limit) (m.text ∷ (l ++ rest))
          ≡ deliver
              (record { header = m.header; name = m.name; buffers = m.buf ∷ l })
              (add_messages strings (idle limit) rest)
    add_messages-attachments [] e =
        add_messages-some _ _ m.text rest _ (add_text ∙ if-true _ (none_expected (ap length e)))
    add_messages-attachments (b ∷ bs) e =
        let more = some_expected (ap length e) in
        add_messages-none _ _ m.text _ (add_text ∙ rw more)
        ∙ add_messages-buffers b bs rest opened (omega (arith, announced (ap length e))) v.bound

  -- From an idle parser the texts and attachments of any packets, in their order, give those packets:
  -- each once, with its own attachments in the order in which they came, and nothing is left behind.
  pub add_messages-sent :
      (ms : List Message)
      → All IsSent ms
      → add_messages strings (idle limit) (messages ms) ≡ (idle limit, ok (map outcome ms))
  unfolding add_messages deliver
  add_messages-sent [] h = refl
  add_messages-sent (m ∷ ms) h =
      add_messages-attachments m h.0 (messages ms) m.attachments refl
      ∙ ap (deliver (outcome m)) (add_messages-sent ms h.1)
