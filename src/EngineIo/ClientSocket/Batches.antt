-- ===== src/EngineIo/ClientSocket/Batches.antt =====
-- The batches in which packets are written to a polling transport.
use socket_io.Base.{
  ℕ, suc, ◌+◌, ◌≤◌, ◌<◌, ◌≡◌, refl, sym, ap, ◌∙◌, arith, subst, Bool, true, false, ◌&&◌, ltb, ◌==◌,
  zero, ltb-false, List, [], ◌∷◌, ◌++◌, append_assoc, All, length, if◌then◌else◌,
}
use socket_io.Base.Maps.{str_eq, str_eq_refl}
use socket_io.EngineIo.Packet.{Packet, encoded_len}
use socket_io.Base64
use socket_io.EngineIo.ClientSocket.{counted, write_loop, write_writable_packets}

-- The encoded size of packets with a separator before each.
pub size_behind : List Packet → ℕ
unfolding encoded_len
size_behind [] = 0
size_behind (p ∷ packets) = encoded_len p false + 1 + size_behind packets

-- How many of the packets have no data.
pub empties : List Packet → ℕ
empties [] = 0
empties (p ∷ packets) = (if length p.body == 0 then 1 else 0) + empties packets

-- A batch has a first packet, and those behind it, with the separators between them and without one
-- byte for each that has no data, are not larger than a payload may be.
pub Fits : ℕ → List Packet → Type 0
Fits max_payload [] = ⊥
Fits max_payload (p ∷ packets) = size_behind packets ≤ max_payload + 1 + empties packets

pub joined : List (List Packet) → List Packet
joined [] = []
joined (packets ∷ batches) = packets ++ joined batches

pub record AreBatches (max_payload : ℕ) (packets : List Packet) (batches : List (List Packet))
    : Type 0 where
  pub in_order : joined batches ≡ packets
  pub fit : All (Fits max_payload) batches

either :
    {A : Type 0} (P : A → Type 0) (b : Bool) {x y : A}
    → (b ≡ true → P x)
    → (b ≡ false → P y)
    → P (if b then x else y)
either P true px py = px refl
either P false px py = py refl

-- What the code counts for a packet, and the byte of one that has no data.
counted_lem : (p : Packet) → encoded_len p false ≡ counted p + (if length p.body == 0 then 1 else 0)
unfolding encoded_len counted Base64.encoded_len
counted_lem p = by_length (length p.body) p.is_binary
  where
    by_length :
        (n : ℕ) (b : Bool)
        → (if b then 1 + Base64.encoded_len n else 1 + n)
          ≡ (if ltb 0 n then (if b then 1 + Base64.encoded_len n else 1 + n) else 0)
            + (if n == 0 then 1 else 0)
    by_length zero true = refl
    by_length zero false = refl
    by_length (suc n) b = ground arith

size_behind-append :
    (ps qs : List Packet) → size_behind (ps ++ qs) ≡ size_behind ps + size_behind qs
unfolding size_behind
size_behind-append [] qs = omega arith
size_behind-append (p ∷ ps) qs = omega (arith, size_behind-append ps qs)

empties-append : (ps qs : List Packet) → empties (ps ++ qs) ≡ empties ps + empties qs
unfolding empties
empties-append [] qs = omega arith
empties-append (p ∷ ps) qs = omega (arith, empties-append ps qs)

cons-AreBatches :
    (max_payload : ℕ) (batch packets : List Packet) (batches : List (List Packet))
    → Fits max_payload batch
    → AreBatches max_payload packets batches
    → AreBatches max_payload (batch ++ packets) (batch ∷ batches)
unfolding joined
cons-AreBatches max_payload batch packets batches f v = record {
  in_order = ap (◌++◌ batch) v.in_order;
  fit = (f, v.fit);
}

nothing-AreBatches : (max_payload : ℕ) → AreBatches max_payload [] []
unfolding joined
nothing-AreBatches max_payload = record { in_order = refl; fit = tt }

one-AreBatches :
    (max_payload : ℕ) (batch : List Packet)
    → Fits max_payload batch
    → AreBatches max_payload (batch ++ []) (batch ∷ [])
one-AreBatches max_payload batch f =
    cons-AreBatches max_payload batch [] [] f (nothing-AreBatches max_payload)

-- The loop inside a batch, whose packets behind the first are counted.
write_loop-AreBatches :
    (max_payload size : ℕ) (p : Packet) (passed packets : List Packet)
    → size_behind passed ≤ size + empties passed
    → size_behind passed ≤ max_payload + 1 + empties passed
    → AreBatches max_payload
        ((p ∷ passed) ++ packets)
        (write_loop max_payload size (p ∷ passed) packets)
unfolding write_loop Fits size_behind empties
write_loop-AreBatches max_payload size p passed [] h f = one-AreBatches max_payload (p ∷ passed) f
write_loop-AreBatches max_payload size p passed (q ∷ packets) h f =
    either (AreBatches max_payload ((p ∷ passed) ++ (q ∷ packets)))
      (true && ltb max_payload (size + counted q))
      (λ _.
        cons-AreBatches max_payload (p ∷ passed) (q ∷ packets)
          (write_loop max_payload 0 (q ∷ []) packets) f
          (write_loop-AreBatches max_payload 0 q [] packets (omega arith) (omega arith)))
      (λ e.
        let small : size + counted q ≤ max_payload = ltb-false max_payload (size + counted q) e in
        let more = size_behind-append passed (q ∷ []) in
        let gone = empties-append passed (q ∷ []) in
        let exact = counted_lem q in
        subst
          (λ all.
            AreBatches max_payload all
              (write_loop max_payload (size + counted q + 1) (p ∷ (passed ++ (q ∷ []))) packets))
          (append_assoc (p ∷ passed) (q ∷ []) packets)
          (write_loop-AreBatches max_payload (size + counted q + 1) p (passed ++ (q ∷ [])) packets
            (omega (arith, more, gone, exact, h)) (omega (arith, more, gone, exact, h, small))))

single :
    (max_payload : ℕ) (p : Packet) (packets : List Packet)
    → 0 < max_payload
    → (ltb 0 max_payload && ltb 1 (suc (length packets))) ≡ false
    → AreBatches max_payload (p ∷ packets) ((p ∷ packets) ∷ [])
unfolding Fits size_behind empties
single max_payload p [] h e = one-AreBatches max_payload (p ∷ []) (omega arith)
single max_payload p (q ∷ packets) h e = absurd (ground (arith, h, e))

-- With a limit, packets for a polling transport are written in batches that are not empty and have them
-- all in order; and in each the packets behind the first, encoded and with the separators between them,
-- are not larger than the limit, but for one byte for each of them that has no data.
pub write_writable_packets-AreBatches :
    (max_payload : ℕ) (packets : List Packet)
    → 0 < max_payload
    → AreBatches max_payload packets (write_writable_packets max_payload "polling" packets)
unfolding write_writable_packets write_loop size_behind empties
write_writable_packets-AreBatches max_payload [] h =
    either (AreBatches max_payload [])
      (ltb 0 max_payload && (str_eq "polling" "polling" && ltb 1 0))
      (λ _. nothing-AreBatches max_payload) (λ _. nothing-AreBatches max_payload)
write_writable_packets-AreBatches max_payload (p ∷ packets) h =
    either (AreBatches max_payload (p ∷ packets))
      (ltb 0 max_payload && (str_eq "polling" "polling" && ltb 1 (suc (length packets))))
      (λ _.
        write_loop-AreBatches max_payload (0 + counted p + 1) p [] packets (omega arith)
          (omega arith))
      (λ e. single max_payload p packets h (polling e))
  where
    polling :
        (ltb 0 max_payload && (str_eq "polling" "polling" && ltb 1 (suc (length packets)))) ≡ false
        → (ltb 0 max_payload && ltb 1 (suc (length packets))) ≡ false
    polling e =
        ap (λ b. ltb 0 max_payload && (b && ltb 1 (suc (length packets))))
          (sym (str_eq_refl "polling"))
        ∙ e
