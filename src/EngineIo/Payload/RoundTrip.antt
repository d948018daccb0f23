-- ===== src/EngineIo/Payload/RoundTrip.antt =====
-- A payload holds the packets that were put into it, and has the length that was announced.
use socket_io.Base.{
  ℕ, ◌+◌, ◌-◌, ◌≡◌, ◌≢◌, refl, ap, ◌∙◌, arith, List, [], ◌∷◌, ◌++◌, append_assoc, append-nil, Bytes,
  length, length-append, All, Lacks, ◌==◌, if◌then◌else◌, true, false, Bool, Result-cases, inl, inr,
  ==_iff, ==-false, map, ok, AreBytes,
}
use socket_io.Base64
use socket_io.Base64.RoundTrip.{encode-IsText, IsText}
use socket_io.EngineIo.Packet.{Packet, PacketType, encode, decode}
use socket_io.EngineIo.Packet.RoundTrip.{IsValid, decode-encode_packet, length-encode_packet}
use socket_io.EngineIo.Payload.{
  len_loop, encoded_payloads_len, encode_loop, encode_payloads, decode_pieces, decode_payloads,
  split_byte,
}
use socket_io.EngineIo.Payload.Split.{join, occurrences, split_byte-join, length-split_byte}

-- The loops with their counter, as recursions on the list of packets.
encode_loop-join :
    (n i : ℕ) (p : Packet) (ps : List Packet) (out : Bytes)
    → n ≡ i + length (p ∷ ps)
    → encode_loop n i (p ∷ ps) out ≡ out ++ join 30 (map (λ q. encode q false) (p ∷ ps))
unfolding encode_loop
encode_loop-join n i p [] out h =
    let last = (==_iff i (n - 1)).1 (omega arith) in rw last (rw append-nil)
encode_loop-join n i p (q ∷ ps) out h =
    rw (==-false i (n - 1) (omega arith))
      (encode_loop-join n (i + 1) q ps _ (omega arith) ∙ simp append_assoc)

encode_payloads-join :
    (p : Packet) (ps : List Packet)
    → encode_payloads (p ∷ ps) ≡ join 30 (map (λ q. encode q false) (p ∷ ps))
unfolding encode_payloads
encode_payloads-join p ps = encode_loop-join _ 0 p ps [] (omega arith)

length-encode_loop :
    (n i : ℕ) (ps : List Packet) (out : Bytes)
    → length (encode_loop n i ps out) ≡ len_loop n i ps (length out)
unfolding encode_loop len_loop
length-encode_loop n i [] out = refl
length-encode_loop n i (p ∷ ps) out =
    length-encode_loop n (i + 1) ps _
    ∙ ap (len_loop n (i + 1) ps) (
        ground (
          arith,
          length-append out (encode p false ++ (if i == n - 1 then [] else 30 ∷ [])),
          length-append (encode p false) (if i == n - 1 then [] else 30 ∷ []),
          length-encode_packet p false,
        ))

-- `EncodedPayloadsLen` is the number of bytes that `EncodePayloads` writes.
pub length-encode_payloads :
    (ps : List Packet) → length (encode_payloads ps) ≡ encoded_payloads_len ps
unfolding encode_payloads encoded_payloads_len
length-encode_payloads ps = length-encode_loop (length ps) 0 ps []

-- A packet that a payload can carry: valid, made of bytes, and with no delimiter in its text.
pub record IsCarried (p : Packet) : Type 0 where
  pub valid : IsValid p
  pub bytes : AreBytes p.body
  pub no_delimiter : p.is_binary ≡ false → Lacks 30 p.body

IsText-Lacks : (s : Bytes) → All IsText s → Lacks 30 s
IsText-Lacks [] h = tt
IsText-Lacks (c ∷ s) h = (omega arith, IsText-Lacks s h.1)

encode-Lacks :
    (b : Bool) (t : PacketType) (body : Bytes)
    → AreBytes body
    → (b ≡ false → Lacks 30 body)
    → Lacks 30 (encode (record { is_binary = b; type = t; body = body }) false)
unfolding encode
encode-Lacks true t body h k =
    (omega arith, IsText-Lacks (Base64.encode body) (encode-IsText body h))
encode-Lacks false t body h k = (omega arith, k refl)

encodings-Lacks :
    (ps : List Packet) → All IsCarried ps → All (Lacks 30) (map (λ q. encode q false) ps)
encodings-Lacks [] h = tt
encodings-Lacks (p ∷ ps) h =
    (encode-Lacks p.is_binary p.type p.body h.0.bytes h.0.no_delimiter, encodings-Lacks ps h.1)

decode_pieces-encode :
    (ps acc : List Packet)
    → All IsCarried ps
    → decode_pieces (map (λ q. encode q false) ps) acc ≡ ok (acc ++ ps)
unfolding decode_pieces
decode_pieces-encode [] acc h = rw append-nil
decode_pieces-encode (p ∷ ps) acc h =
    rw (decode-encode_packet p false h.0.valid h.0.bytes)
      (decode_pieces-encode ps (acc ++ (p ∷ [])) h.1 ∙ rw append_assoc)

-- A payload of at least one packet, none of which holds the delimiter in its text, decodes to the
-- packets that were encoded, in their order.
pub decode_payloads-encode_payloads :
    (ps : List Packet) → ps ≢ [] → All IsCarried ps → decode_payloads (encode_payloads ps) ≡ ok ps
unfolding decode_payloads
decode_payloads-encode_payloads [] h k = absurd (h refl)
decode_payloads-encode_payloads (p ∷ ps) h k =
    rw
      (
        encode_payloads-join p ps,
        split_byte-join 30 (encode p false) (map (λ q. encode q false) ps)
            (encodings-Lacks (p ∷ ps) k),
      )
      (decode_pieces-encode (p ∷ ps) [] k)

length-decode_pieces :
    (bs : List Bytes) (acc ps : List Packet)
    → decode_pieces bs acc ≡ ok ps
    → length ps ≡ length acc + length bs
unfolding decode_pieces
length-decode_pieces [] acc ps h = ground arith
length-decode_pieces (b ∷ bs) acc ps h = elim (Result-cases (decode b false)) [
  | inl (p, e) ↦
      omega (
        arith,
        length-decode_pieces bs (acc ++ (p ∷ [])) ps (rw e at h),
        length-append acc (p ∷ []),
      )
  | inr (x, e) ↦ absurd (cc (rw e at h))
]

-- A payload is decoded as a whole or not at all: it gives one packet more than it has delimiters.
pub length-decode_payloads :
    (buf : Bytes) (ps : List Packet)
    → decode_payloads buf ≡ ok ps
    → length ps ≡ occurrences 30 buf + 1
unfolding decode_payloads
length-decode_payloads buf ps h =
    omega (arith, length-decode_pieces (split_byte buf 30) [] ps h, length-split_byte 30 buf)
