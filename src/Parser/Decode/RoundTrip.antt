-- ===== src/Parser/Decode/RoundTrip.antt =====
-- A header is read back as it was written, and the text behind it is untouched.
use socket_io.Base.{
  ℕ, ◌^◌, ◌≤◌, ◌<◌, ◌≡◌, ◌≢◌, refl, ap, ◌∙◌, ◌⊎◌, inl, inr, arith, Bool, true, false, not, Option,
  none, some, List, [], ◌∷◌, ◌++◌, append_assoc, Bytes, if-true, ◌==◌, if◌then◌else◌, ok, ◌>>=◌,
  All, Lacks, ==-false, Bool-cases,
}
use socket_io.Base.Decimal.{
  is_digit, format_uint, max_uint64, IsDigit, format_uint-IsDigit, format_uint-ne-nil,
  parse_uint-format_uint,
}
use socket_io.Parser.Header.{
  PacketType, connect, disconnect, event, ack, connect_error, binary_event, binary_ack,
  PacketHeader, from_char, to_char, is_binary, is_root, id_bytes, itoa, header_bytes,
}
use socket_io.Parser.Decode.{
  break, after_dash, read_count, parse_attachments, cut_namespace, parse_namespace, read_id,
  parse_id, event_name, parse_fields, parse_header,
}

-- The text is empty, or its first byte passes the test.
abbrev pub Begins : (ℕ → Bool) → Bytes → Type 0
Begins test [] = Unit {0}
Begins test (c ∷ s) = test c ≡ true

break-append :
    (stop : ℕ → Bool) (s rest : Bytes)
    → All (λ c. stop c ≡ false) s
    → Begins stop rest
    → break stop (s ++ rest) ≡ (s, rest)
unfolding break
break-append stop [] [] h b = refl
break-append stop [] (c ∷ rest) h b = rw b
break-append stop (c ∷ s) rest h b = rw (break-append stop s rest h.1 b, h.0)

digits-dash : (s : Bytes) → All IsDigit s → All (λ c. c == b'-' ≡ false) s
digits-dash [] h = tt
digits-dash (c ∷ s) h = (ground arith, digits-dash s h.1)

digits-stop : (s : Bytes) → All IsDigit s → All (λ c. not (is_digit c) ≡ false) s
unfolding is_digit
digits-stop [] h = tt
digits-stop (c ∷ s) h = (ground arith, digits-stop s h.1)

pub not_comma : (s : Bytes) → Lacks b',' s → All (λ c. c == b',' ≡ false) s
not_comma [] h = tt
not_comma (c ∷ s) h = (==-false c b',' h.0, not_comma s h.1)

itoa-format_uint : (a : ℕ) → a < 2 ^ 63 → itoa a ≡ format_uint a
unfolding itoa
itoa-format_uint a h = ground arith

dashed : (s : Bytes) → s ≢ [] → after_dash s ≡ s
unfolding after_dash
dashed [] n = absurd (n refl)
dashed (c ∷ s) n = refl

read_count-itoa :
    (a : ℕ) (tail : Bytes)
    → a < 2 ^ 63
    → tail ≢ []
    → read_count (break (λ c. c == b'-') ((itoa a ++ (b'-' ∷ [])) ++ tail)) ≡ ok (a, tail)
read_count-itoa a tail h n =
    rw
      (
        itoa-format_uint a h,
        append_assoc,
        break-append (λ c. c == b'-') (format_uint a) (b'-' ∷ tail)
            (digits-dash _ (format_uint-IsDigit a)) refl,
      )
      (unfold read_count in rw (parse_uint-format_uint a (omega arith), dashed tail n))

parse_attachments-count :
    (t : PacketType) (a : ℕ) (tail : Bytes)
    → a < 2 ^ 63
    → (is_binary t ≡ true → tail ≢ [])
    → parse_attachments t ((if is_binary t then itoa a ++ (b'-' ∷ []) else []) ++ tail)
      ≡ ok ((if is_binary t then a else 0), tail)
unfolding parse_attachments
parse_attachments-count t a tail h n = elim (Bool-cases (is_binary t)) [
  | inl e ↦ rw e (read_count-itoa a tail h (n e))
  | inr e ↦ rw e
]

abbrev pub not_slash : ℕ → Bool
not_slash c = not (c == b'/')

-- What may stand behind a namespace that is written out: anything; behind none: no slash.
parse_namespace-root :
    (tail : Bytes) → Begins not_slash tail → parse_namespace tail ≡ ok (b'/' ∷ [], tail)
unfolding parse_namespace
parse_namespace-root [] b = refl
parse_namespace-root (c ∷ s) b = ground arith

-- A namespace that is written out begins with a slash and holds no comma.
abbrev pub IsName : Bytes → Type 0
IsName nsp = (s : Bytes) × (nsp ≡ b'/' ∷ s) × Lacks b',' s

parse_namespace-name :
    (s tail : Bytes)
    → Lacks b',' s
    → parse_namespace (((b'/' ∷ s) ++ (b',' ∷ [])) ++ tail) ≡ ok (b'/' ∷ s, tail)
unfolding parse_namespace cut_namespace
parse_namespace-name s tail h =
    ap (λ t. parse_namespace (b'/' ∷ t)) (append_assoc s (b',' ∷ []) tail)
    ∙ ap cut_namespace
        (break-append (λ c. c == b',') (b'/' ∷ s) (b',' ∷ tail) (refl, not_comma s h) refl)

normal_nsp : Bytes → Bytes
normal_nsp nsp = if is_root nsp then b'/' ∷ [] else nsp

parse_namespace-nsp :
    (nsp tail : Bytes)
    → ((is_root nsp ≡ true) ⊎ IsName nsp)
    → Begins not_slash tail
    → parse_namespace ((if is_root nsp then [] else nsp ++ (b',' ∷ [])) ++ tail)
      ≡ ok (normal_nsp nsp, tail)
unfolding normal_nsp
parse_namespace-nsp nsp tail (inl e) b = rw e (parse_namespace-root tail b)
parse_namespace-nsp nsp tail (inr (s, e, h)) b = elim (Bool-cases (is_root nsp)) [
  | inl r ↦ rw r (parse_namespace-root tail b)
  | inr r ↦ rw (r, e) (parse_namespace-name s tail h)
]

abbrev not_digit : ℕ → Bool
not_digit c = not (is_digit c)

parse_id-digits :
    (s rest : Bytes)
    → s ≢ []
    → All IsDigit s
    → Begins not_digit rest
    → parse_id (s ++ rest) ≡ read_id (s, rest)
unfolding parse_id
parse_id-digits [] rest n h b = absurd (n refl)
parse_id-digits (c ∷ s) rest n h b =
    let first : is_digit c ≡ true = unfold is_digit in ground arith in
    if-true _ first ∙ (ap read_id (break-append not_digit (c ∷ s) rest (digits-stop (c ∷ s) h) b))

-- An acknowledgement id, where there is one, is a uint64.
abbrev pub IsId : Option ℕ → Type 0
IsId none = Unit {0}
IsId (some n) = n ≤ max_uint64

parse_id-id_bytes :
    (id : Option ℕ) (body : Bytes)
    → IsId id
    → Begins not_digit body
    → parse_id (id_bytes id ++ body) ≡ ok (id, body)
unfolding id_bytes
parse_id-id_bytes none [] v b = unfold parse_id in refl
parse_id-id_bytes none (c ∷ body) v b = unfold parse_id in ground arith
parse_id-id_bytes (some n) body v b =
    parse_id-digits (format_uint n) body (format_uint-ne-nil n) (format_uint-IsDigit n) b
    ∙ (unfold read_id in rw (parse_uint-format_uint n v))

-- A header that can be written and read back. The namespace is the root's, spelled as "" or "/", or
-- a name; the number of attachments is no negative `int`.
pub record IsWritable (h : PacketHeader) : Type 0 where
  pub count : h.attachments < 2 ^ 63
  pub nsp : (is_root h.nsp ≡ true) ⊎ IsName h.nsp
  pub id : IsId h.id

-- A text that can stand behind a header: it begins with no digit and no slash, and a binary packet
-- has one.
abbrev pub Follows : PacketType → Bytes → Type 0
Follows t body =
    Begins (λ c. not (is_digit c)) body
    × Begins (λ c. not (c == b'/')) body
    × (is_binary t ≡ true → body ≢ [])

-- What reading makes of a header: the root namespace is "/", and only a binary packet has attachments.
pub normal : PacketHeader → PacketHeader
unfolding normal_nsp
normal h = record h {
  nsp = normal_nsp h.nsp;
  attachments = if is_binary h.type then h.attachments else 0;
}

from_char-to_char : (t : PacketType) → from_char (to_char t) ≡ ok t
unfolding from_char to_char
from_char-to_char connect = refl
from_char-to_char disconnect = refl
from_char-to_char event = refl
from_char-to_char ack = refl
from_char-to_char connect_error = refl
from_char-to_char binary_event = refl
from_char-to_char binary_ack = refl

digits-not_slash :
    (s body : Bytes) → All IsDigit s → Begins not_slash body → Begins not_slash (s ++ body)
digits-not_slash [] body h b = b
digits-not_slash (c ∷ s) body h b = ground arith

id_bytes-not_slash :
    (id : Option ℕ) (body : Bytes) → Begins not_slash body → Begins not_slash (id_bytes id ++ body)
unfolding id_bytes
id_bytes-not_slash none body b = b
id_bytes-not_slash (some n) body b = digits-not_slash (format_uint n) body (format_uint-IsDigit n) b

append-ne-nil : (s t : Bytes) → t ≢ [] → s ++ t ≢ []
append-ne-nil [] t n = n
append-ne-nil (c ∷ s) t n = λ e. cc e

header_parts :
    (h : PacketHeader) (body : Bytes)
    → header_bytes h ++ body
      ≡ to_char h.type
        ∷ ((if is_binary h.type then itoa h.attachments ++ (b'-' ∷ []) else [])
            ++ ((if is_root h.nsp then [] else h.nsp ++ (b',' ∷ [])) ++ (id_bytes h.id ++ body)))
unfolding header_bytes
header_parts h body = ap (◌∷◌ (to_char h.type)) (simp append_assoc)

module _ (strings : Bytes → Option (List Bytes)) where
  pub parse_fields_parts :
      (h : PacketHeader) (body : Bytes)
      → IsWritable h
      → Follows h.type body
      → parse_fields strings h.type (
          (if is_binary h.type then itoa h.attachments ++ (b'-' ∷ []) else [])
          ++ ((if is_root h.nsp then [] else h.nsp ++ (b',' ∷ [])) ++ (id_bytes h.id ++ body)))
        ≡ (event_name strings h.type body >>= λ name. ok (normal h, body, name))
  unfolding parse_fields normal
  parse_fields_parts h body w (d, l, n) = rw (
    parse_attachments-count h.type h.attachments _ w.count
        (λ e. append-ne-nil _ _ (append-ne-nil (id_bytes h.id) body (n e))),
    parse_namespace-nsp h.nsp (id_bytes h.id ++ body) w.nsp (id_bytes-not_slash h.id body l),
    parse_id-id_bytes h.id body w.id d,
  )

  parse_header_cons :
      (c : ℕ) (s : Bytes)
      → parse_header strings (c ∷ s) ≡ (from_char c >>= λ u. parse_fields strings u s)
  unfolding parse_header
  parse_header_cons c s = refl

  pub parse_header_type :
      (t : PacketType) (s : Bytes) → parse_header strings (to_char t ∷ s) ≡ parse_fields strings t s
  parse_header_type t s =
      parse_header_cons (to_char t) s
      ∙ ap (λ r. r >>= λ u. parse_fields strings u s) (from_char-to_char t)

  -- For a header whose namespace is that of the root or a name that begins with a slash and holds no
  -- comma, whose id has 64 bits and whose number of attachments is no negative `int`, and a text that
  -- begins with no digit and no slash, and is not empty behind a binary header: reading it gives the
  -- header back, the root namespace spelled "/" and the number of attachments of a packet that is not
  -- binary 0, and the text untouched; only the name of an event can still be refused.
  pub parse_header-header_bytes :
      (h : PacketHeader) (body : Bytes)
      → IsWritable h
      → Follows h.type body
      → parse_header strings (header_bytes h ++ body)
        ≡ (event_name strings h.type body >>= λ name. ok (normal h, body, name))
  parse_header-header_bytes h body w f =
      ap (parse_header strings) (header_parts h body)
      ∙ parse_header_type h.type _
      ∙ parse_fields_parts h body w f
