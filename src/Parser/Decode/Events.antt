-- ===== src/Parser/Decode/Events.antt =====
-- The name of an event, and the texts that `parseHeader` does not cope with.
use socket_io.Base.{
  ℕ, ◌≡◌, ◌≢◌, refl, ap, ◌∙◌, arith, true, false, Option, none, some, List, [], ◌∷◌, ◌++◌,
  append_assoc, Bytes, ◌==◌, ok, err, ◌>>=◌, All, Lacks, ==-false,
}
use socket_io.Base.Decimal.{is_digit}
use socket_io.Parser.Header.{
  PacketType, PacketHeader, error, malformed_packet, slice_bounds_out_of_range, to_char, is_binary,
  is_event, header_bytes,
}
use socket_io.Parser.Decode.{
  break, parse_attachments, cut_namespace, parse_namespace, event_name, open_quote, close_quote,
  single, parse_fields, parse_header,
}
use socket_io.Parser.Decode.RoundTrip.{
  IsWritable, Follows, normal, parse_header-header_bytes, parse_header_type,
}

-- A name that JSON writes as it is, as far as quotes go: it has no quote and no backslash.
abbrev pub IsPlain : Bytes → Type 0
IsPlain = All (λ c. (c ≢ b'"') × (c ≢ b'\\'))

close_quote-plain :
    (prev : ℕ) (name rest out : Bytes)
    → prev ≢ b'\\'
    → IsPlain name
    → close_quote prev (name ++ (b'"' ∷ rest)) out ≡ some (out ++ (name ++ (b'"' ∷ [])))
unfolding close_quote
close_quote-plain prev [] rest out p h = ground arith
close_quote-plain prev (c ∷ name) rest out p h = rw (==-false c b'"' h.0.0) (
    close_quote-plain c name rest (out ++ (c ∷ [])) h.0.1 h.1
    ∙ ap some (append_assoc out (c ∷ []) _))

break_no_comma : (s : Bytes) → Lacks b',' s → break (λ d. d == b',') s ≡ (s, [])
unfolding break
break_no_comma [] l = refl
break_no_comma (c ∷ s) l = rw (==-false c b',' l.0, break_no_comma s l.1)

-- The payload of an event: an array that begins with the event's name.
abbrev pub payload : Bytes → Bytes → Bytes
payload name rest = b'[' ∷ b'"' ∷ (name ++ (b'"' ∷ rest))

pub bracket-Follows : (t : PacketType) (s : Bytes) → Follows t (b'[' ∷ s)
unfolding is_digit
bracket-Follows t s = (refl, refl, λ _ e. cc)

module _ (strings : Bytes → Option (List Bytes)) (name rest : Bytes) where
  event_name-plain :
      (t : PacketType)
      → is_event t ≡ true
      → IsPlain name
      → strings (b'[' ∷ b'"' ∷ ((name ++ (b'"' ∷ [])) ++ (b']' ∷ []))) ≡ some (name ∷ [])
      → event_name strings t (payload name rest) ≡ ok name
  unfolding event_name open_quote
  event_name-plain t e h s =
      rw (e, close_quote-plain b'"' name rest (b'"' ∷ []) (λ q. absurd (omega arith)) h, s)
        (unfold single in refl)

  -- An event with such a header (its namespace that of the root or a name that begins with a slash and
  -- holds no comma, its id of 64 bits, its number of attachments no negative `int`), whose name has no
  -- quote and no backslash, is read back with its header, its name and its payload, if the serializer
  -- reads the quoted name as that name.
  pub parse_header_event :
      (h : PacketHeader)
      → IsWritable h
      → is_event h.type ≡ true
      → IsPlain name
      → strings (b'[' ∷ b'"' ∷ ((name ++ (b'"' ∷ [])) ++ (b']' ∷ []))) ≡ some (name ∷ [])
      → parse_header strings (header_bytes h ++ payload name rest)
        ≡ ok (normal h, payload name rest, name)
  parse_header_event h w e p s =
      parse_header-header_bytes strings h (payload name rest) w (bracket-Follows h.type _)
      ∙ ap (λ r. r >>= λ n. ok (normal h, payload name rest, n)) (event_name-plain h.type e p s)

-- The payload of an event whose name ends in a backslash, which JSON writes as two.
abbrev pub escaped_payload : Bytes → Bytes → Bytes
escaped_payload name rest = b'[' ∷ b'"' ∷ (name ++ (b'\\' ∷ b'\\' ∷ b'"' ∷ rest))

close_quote-Lacks :
    (prev : ℕ) (rest out : Bytes) → Lacks b'"' rest → close_quote prev rest out ≡ none
unfolding close_quote
close_quote-Lacks prev [] out l = refl
close_quote-Lacks prev (c ∷ rest) out l =
    rw (==-false c b'"' l.0) (close_quote-Lacks c rest (out ++ (c ∷ [])) l.1)

close_quote-escaped :
    (prev : ℕ) (name rest out : Bytes)
    → IsPlain name
    → Lacks b'"' rest
    → close_quote prev (name ++ (b'\\' ∷ b'\\' ∷ b'"' ∷ rest)) out ≡ none
unfolding close_quote
close_quote-escaped prev [] rest out h l = close_quote-Lacks b'"' rest _ l
close_quote-escaped prev (c ∷ name) rest out h l =
    rw (==-false c b'"' h.0.0) (close_quote-escaped c name rest (out ++ (c ∷ [])) h.1 l)

module _ (strings : Bytes → Option (List Bytes)) where
  event_name-escaped :
      (t : PacketType) (name rest : Bytes)
      → is_event t ≡ true
      → IsPlain name
      → Lacks b'"' rest
      → event_name strings t (escaped_payload name rest) ≡ err (error malformed_packet)
  unfolding event_name open_quote
  event_name-escaped t name rest e h l = rw (e, close_quote-escaped b'"' name rest (b'"' ∷ []) h l)

  -- An event whose name ends in a backslash is refused as malformed where no later argument has a
  -- quote: the quote behind the escaped backslash is taken for an escaped one.
  pub parse_header_escaped :
      (h : PacketHeader) (name rest : Bytes)
      → IsWritable h
      → is_event h.type ≡ true
      → IsPlain name
      → Lacks b'"' rest
      → parse_header strings (header_bytes h ++ escaped_payload name rest)
        ≡ err (error malformed_packet)
  parse_header_escaped h name rest w e p l =
      parse_header-header_bytes strings h (escaped_payload name rest) w (bracket-Follows h.type _)
      ∙ ap (λ r. r >>= λ n. ok (normal h, escaped_payload name rest, n))
          (event_name-escaped h.type name rest e p l)

  parse_fields_no_comma :
      (t : PacketType) (s : Bytes)
      → is_binary t ≡ false
      → Lacks b',' s
      → parse_fields strings t (b'/' ∷ s) ≡ err slice_bounds_out_of_range
  unfolding parse_fields parse_attachments parse_namespace cut_namespace break
  parse_fields_no_comma t s b l = rw (b, break_no_comma s l)

  -- A packet whose namespace is not closed by a comma makes `parseHeader` panic: it slices behind the
  -- end of the data.
  pub parse_header_no_comma :
      (t : PacketType) (s : Bytes)
      → is_binary t ≡ false
      → Lacks b',' s
      → parse_header strings (to_char t ∷ b'/' ∷ s) ≡ err slice_bounds_out_of_range
  parse_header_no_comma t s b l =
      parse_header_type strings t (b'/' ∷ s) ∙ parse_fields_no_comma t s b l
