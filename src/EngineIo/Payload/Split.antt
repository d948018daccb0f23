-- ===== src/EngineIo/Payload/Split.antt =====
-- `splitByte` cuts at every delimiter, loses no byte, and undoes the joining of pieces.
use socket_io.Base.{
  ℕ, ◌+◌, ◌≡◌, refl, sym, ap, ◌∙◌, arith, List, [], ◌∷◌, ◌++◌, append_assoc, append-nil, Bytes,
  length, length-append, All, Lacks, ◌==◌, if◌then◌else◌, Bool-cases, inl, inr, ==_iff, ==_refl,
  ==-false,
}
use socket_io.EngineIo.Payload.{split_loop, split_end, split_byte}

module _ (d : ℕ) where
  -- The pieces with the delimiter between them.
  abbrev pub join : List Bytes → Bytes
  join [] = []
  join (p ∷ []) = p
  join (p ∷ q ∷ ps) = p ++ (d ∷ join (q ∷ ps))

  -- How often the delimiter occurs.
  abbrev pub occurrences : Bytes → ℕ
  occurrences [] = 0
  occurrences (c ∷ s) = (if c == d then 1 else 0) + occurrences s

  -- The pieces that the loop ends with.
  abbrev pieces : List Bytes × Bytes → List Bytes
  pieces r = r.0 ++ (r.1 ∷ [])

  split_loop-Lacks :
      (s rest cur : Bytes) (buffers : List Bytes)
      → Lacks d s
      → split_loop d (s ++ rest) cur buffers ≡ split_loop d rest (cur ++ s) buffers
  unfolding split_loop
  split_loop-Lacks [] rest cur buffers h = rw append-nil
  split_loop-Lacks (c ∷ s) rest cur buffers h =
      rw (==-false c d h.0)
        (split_loop-Lacks s rest (cur ++ (c ∷ [])) buffers h.1 ∙ rw append_assoc)

  split_loop_delimiter :
      (rest cur : Bytes) (buffers : List Bytes)
      → split_loop d (d ∷ rest) cur buffers ≡ split_loop d rest [] (buffers ++ (cur ∷ []))
  unfolding split_loop
  split_loop_delimiter rest cur buffers = rw (==_refl d)

  split_loop-join :
      (p : Bytes) (ps : List Bytes) (cur : Bytes) (buffers : List Bytes)
      → All (Lacks d) (p ∷ ps)
      → pieces (split_loop d (join (p ∷ ps)) cur buffers) ≡ buffers ++ ((cur ++ p) ∷ ps)
  split_loop-join p [] cur buffers h =
      ap (λ t. pieces (split_loop d t cur buffers)) (sym (append-nil p))
      ∙ ap pieces (split_loop-Lacks p [] cur buffers h.0)
      ∙ (unfold split_loop in refl)
  split_loop-join p (q ∷ ps) cur buffers h =
      rw (split_loop-Lacks p (d ∷ join (q ∷ ps)) cur buffers h.0, split_loop_delimiter)
        (split_loop-join q ps [] _ h.1 ∙ rw append_assoc)

  split_loop_count :
      (s cur : Bytes) (buffers : List Bytes)
      → length (split_loop d s cur buffers).0 ≡ length buffers + occurrences s
  unfolding split_loop
  split_loop_count [] cur buffers = omega arith
  split_loop_count (c ∷ s) cur buffers = ground (
    arith,
    split_loop_count s [] (buffers ++ (cur ∷ [])),
    split_loop_count s (cur ++ (c ∷ [])) buffers,
    length-append buffers (cur ∷ []),
  )

  split_loop_no_delimiter :
      (s cur : Bytes) (buffers : List Bytes)
      → occurrences s ≡ 0
      → split_loop d s cur buffers ≡ (buffers, cur ++ s)
  unfolding split_loop
  split_loop_no_delimiter [] cur buffers h = rw append-nil
  split_loop_no_delimiter (c ∷ s) cur buffers h = elim (Bool-cases (c == d)) [
    | inl e ↦ absurd (ground arith)
    | inr e ↦
        rw e (split_loop_no_delimiter s (cur ++ (c ∷ [])) buffers (ground arith) ∙ rw append_assoc)
  ]

  split_end-pieces :
      (s : Bytes) (r : List Bytes × Bytes) → split_loop d s [] [] ≡ r → split_end s r ≡ pieces r
  unfolding split_end
  split_end-pieces s ([], last) e =
      let none_cut : occurrences s ≡ 0 =
        omega (arith, split_loop_count s [] [], ap (λ (r : List Bytes × Bytes). length r.0) e) in
      ap (λ (r : List Bytes × Bytes). r.1 ∷ []) (sym (split_loop_no_delimiter s [] [] none_cut) ∙ e)
  split_end-pieces s (b ∷ bs, last) e = refl

  split_byte-pieces : (s : Bytes) → split_byte s d ≡ pieces (split_loop d s [] [])
  unfolding split_byte
  split_byte-pieces s = split_end-pieces s (split_loop d s [] []) refl

  join_last :
      (bs : List Bytes) (p q : Bytes)
      → join (bs ++ (p ∷ q ∷ [])) ≡ join (bs ++ ((p ++ (d ∷ q)) ∷ []))
  join_last [] p q = refl
  join_last (b ∷ []) p q = refl
  join_last (b ∷ b' ∷ bs) p q = ap (λ t. b ++ (d ∷ t)) (join_last (b' ∷ bs) p q)

  join-split_loop :
      (s cur : Bytes) (buffers : List Bytes)
      → join (pieces (split_loop d s cur buffers)) ≡ join (buffers ++ ((cur ++ s) ∷ []))
  unfolding split_loop
  join-split_loop [] cur buffers = rw append-nil
  join-split_loop (c ∷ s) cur buffers = elim (Bool-cases (c == d)) [
    | inl e ↦ rw e (
        join-split_loop s [] (buffers ++ (cur ∷ []))
        ∙ rw append_assoc (join_last buffers cur s ∙ rw ((==_iff c d).0 e) refl))
    | inr e ↦ rw e (join-split_loop s (cur ++ (c ∷ [])) buffers ∙ rw append_assoc)
  ]

  -- Joining the pieces gives the buffer back.
  pub join-split_byte : (s : Bytes) → join (split_byte s d) ≡ s
  join-split_byte s = ap join (split_byte-pieces s) ∙ join-split_loop s [] []

  -- There is one piece more than there are delimiters.
  pub length-split_byte : (s : Bytes) → length (split_byte s d) ≡ occurrences s + 1
  length-split_byte s = omega (
    arith,
    ap length (split_byte-pieces s),
    split_loop_count s [] [],
    length-append (split_loop d s [] []).0 ((split_loop d s [] []).1 ∷ []),
  )

  -- Pieces that hold no delimiter are what their join is split into.
  pub split_byte-join :
      (p : Bytes) (ps : List Bytes) → All (Lacks d) (p ∷ ps) → split_byte (join (p ∷ ps)) d ≡ p ∷ ps
  split_byte-join p ps h = split_byte-pieces (join (p ∷ ps)) ∙ split_loop-join p ps [] [] h
