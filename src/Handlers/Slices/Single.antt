-- ===== src/Handlers/Slices/Single.antt =====
-- When one handler is taken out of a slice.
use socket_io.Base.{
  subst, ℕ, suc, ◌+◌, ◌-◌, ◌≡◌, ◌≢◌, refl, sym, ap, ◌∙◌, inl, inr, arith, true, some, List, [], ◌∷◌,
  ◌++◌, length, drop, get_elem?, ltb, Lacks, ==-false, ==_refl, Bool-cases, ◌==◌, if◌then◌else◌,
  Result, ok, err, ◌>>=◌, length-append, take-length_append, drop-length_append, drop-add_at,
  take-length, get_elem?-drop, drop-suc, length-drop, All-drop, append_assoc, append-nil,
  All-append,
}
use socket_io.Handlers.Slices.{
  Panic, slice_bounds, Slice, of_list, contents, remove, remove_matching, off_loop, off_slice,
}

-- No handler stands twice in the slice.
abbrev pub Distinct : List ℕ → Type 0
Distinct [] = Unit {0}
Distinct (x ∷ xs) = Lacks x xs × Distinct xs

abbrev pub without : ℕ → List ℕ → List ℕ
without h [] = []
without h (x ∷ xs) = if x == h then without h xs else x ∷ without h xs

-- A list splits at the first place of a number.
pub data FirstOf (h : ℕ) : List ℕ → Type 0 where
  absent : {xs : List ℕ} → Lacks h xs → FirstOf h xs
  found : (before behind : List ℕ) → Lacks h before → FirstOf h (before ++ (h ∷ behind))

first_behind : {h : ℕ} {xs : List ℕ} (x : ℕ) → x ≢ h → FirstOf h xs → FirstOf h (x ∷ xs)
first_behind x n (absent l) = absent (n, l)
first_behind x n (found before behind l) = found (x ∷ before) behind (n, l)

pub first_of : (h : ℕ) (xs : List ℕ) → FirstOf h xs
first_of h [] = absent tt
first_of h (x ∷ xs) = elim (Bool-cases (x == h)) [
  | inl e ↦ subst (λ y. FirstOf h (y ∷ xs)) (sym (ground arith)) (found [] xs tt)
  | inr e ↦ first_behind x (ground arith) (first_of h xs)
]

without-Lacks : (h : ℕ) (xs : List ℕ) → Lacks h xs → without h xs ≡ xs
without-Lacks h [] l = refl
without-Lacks h (x ∷ xs) l = rw (==-false x h l.0, without-Lacks h xs l.1)

without-append :
    (h : ℕ) (before behind : List ℕ)
    → Lacks h before
    → Lacks h behind
    → without h (before ++ (h ∷ behind)) ≡ before ++ behind
without-append h [] behind b l = rw (==_refl h) (without-Lacks h behind l)
without-append h (x ∷ before) behind b l =
    rw (==-false x h b.0, without-append h before behind b.1 l)

behind-Lacks : (h : ℕ) (before behind : List ℕ) → Distinct (before ++ (h ∷ behind)) → Lacks h behind
behind-Lacks h [] behind d = d.0
behind-Lacks h (x ∷ before) behind d = behind-Lacks h before behind d.1

module _ (h : ℕ) where
  -- What the loop meets behind the place of a removed handler.
  last-Lacks :
      (behind : List ℕ)
      → Lacks h behind
      → Lacks h (drop 1 (behind ++ drop (length behind) (h ∷ behind)))
  last-Lacks [] l = tt
  last-Lacks (y ∷ ys) l = All-append _ ys _ l.1 (All-drop _ (length ys) (y ∷ ys) l)

  off_loop-miss :
      (i n x : ℕ) (s : Slice)
      → get_elem? s.cells i ≡ some x
      → x ≢ h
      → off_loop (h ∷ []) i (suc n) s ≡ off_loop (h ∷ []) (suc i) n s
  unfolding off_loop remove_matching
  off_loop-miss i n x s e ne = rw (e, ==-false x h ne)

  off_loop-hit :
      (i n : ℕ) (s s' : Slice)
      → get_elem? s.cells i ≡ some h
      → remove s i ≡ ok s'
      → off_loop (h ∷ []) i (suc n) s ≡ off_loop (h ∷ []) (suc i) n s'
  unfolding off_loop remove_matching
  off_loop-hit i n s s' e r = rw (e, ==_refl h, r)

  off_loop-beyond :
      (i n : ℕ) (s : Slice)
      → get_elem? s.cells i ≡ some h
      → remove s i ≡ err slice_bounds
      → off_loop (h ∷ []) i (suc n) s ≡ err slice_bounds
  unfolding off_loop remove_matching
  off_loop-beyond i n s e r = rw (e, ==_refl h, r)

  off_loop-at :
      (i j n m : ℕ) (s : Slice) → i ≡ j → n ≡ m → off_loop (h ∷ []) i n s ≡ off_loop (h ∷ []) j m s
  off_loop-at i j n m s p q = rw (p, q)

  -- The loop passes over handlers that are not meant.
  off_loop-Lacks :
      (i n : ℕ) (s : Slice) (xs ys : List ℕ)
      → drop i s.cells ≡ xs ++ ys
      → Lacks h xs
      → off_loop (h ∷ []) i (length xs + n) s ≡ off_loop (h ∷ []) (i + length xs) n s
  off_loop-Lacks i n s [] ys e l = off_loop-at i (i + 0) (0 + n) n s (omega arith) (omega arith)
  off_loop-Lacks i n s (x ∷ xs) ys e l =
      off_loop-at i i (suc (length xs) + n) (suc (length xs + n)) s refl (omega arith)
      ∙ off_loop-miss i (length xs + n) x s (get_elem?-drop i s.cells (xs ++ ys) x e) l.0
      ∙ off_loop-Lacks (suc i) n s xs ys (drop-suc i s.cells (xs ++ ys) x e) l.1
      ∙ off_loop-at (suc i + length xs) (i + suc (length xs)) n n s (omega arith) refl

  off_loop-end : (i : ℕ) (s : Slice) → off_loop (h ∷ []) i 0 s ≡ ok s
  unfolding off_loop
  off_loop-end i s = refl

  module _ (before behind : List ℕ) where
    abbrev whole : Slice
    whole = record { cells = before ++ (h ∷ behind); len = length (before ++ (h ∷ behind)) }

    abbrev last : List ℕ
    last = drop (whole.len - 1) whole.cells

    abbrev shifted : Slice
    shifted = record { cells = before ++ (behind ++ last); len = length before + length behind }

    length-whole : whole.len ≡ suc (length before + length behind)
    length-whole = omega (arith, length-append before (h ∷ behind))

    remove-whole : remove whole (length before) ≡ ok shifted
    unfolding remove
    remove-whole =
        let within : ltb (length before) whole.len ≡ true = ground (arith, length-whole) in
        let count : whole.len - suc (length before) ≡ length behind = omega (arith, length-whole) in
        let fewer : whole.len - 1 ≡ length before + length behind = omega (arith, length-whole) in
        rw (
          within,
          take-length_append before (h ∷ behind),
          count,
          drop-add_at (suc (length before)) 1 before (h ∷ behind) (omega arith),
          take-length behind,
          fewer,
        )

    contents-shifted : contents shifted ≡ before ++ behind
    unfolding contents
    contents-shifted =
        rw (sym (length-append before behind), sym (append_assoc before behind last))
          (take-length_append (before ++ behind) last)

    abbrev tail : List ℕ
    tail = drop 1 (behind ++ last)

    drop-shifted : drop (suc (length before)) shifted.cells ≡ tail
    drop-shifted = drop-add_at (suc (length before)) 1 before (behind ++ last) (omega arith)

    last_entry : last ≡ drop (length behind) (h ∷ behind)
    last_entry = drop-add_at _ (length behind) before _ (omega (arith, length-whole))

    length-last : length last ≡ 1
    length-last = ap length last_entry ∙ length-drop (length behind) (h ∷ behind) ∙ omega arith

    length-tail : length tail ≡ length behind
    length-tail =
        length-drop 1 (behind ++ last) ∙ omega (arith, length-append behind last, length-last)

    found_first :
        Lacks h before
        → off_loop (h ∷ []) 0 (length (before ++ (h ∷ behind))) whole
          ≡ off_loop (h ∷ []) (suc (length before)) (length behind) shifted
    found_first l =
        off_loop-at 0 0 whole.len (length before + suc (length behind)) whole refl
          (omega (arith, length-whole))
        ∙ off_loop-Lacks 0 (suc (length behind)) whole before (h ∷ behind) refl l
        ∙ off_loop-at (0 + length before) (length before) _ _ whole (omega arith) refl
        ∙ off_loop-hit (length before) (length behind) whole shifted
            (get_elem?-drop (length before) whole.cells behind h
              (drop-length_append before (h ∷ behind)))
            remove-whole

    rest-Lacks :
        Lacks h behind
        → off_loop (h ∷ []) (suc (length before)) (length behind) shifted ≡ ok shifted
    rest-Lacks l =
        off_loop-at _ _ (length behind) (length tail + 0) shifted refl (omega (arith, length-tail))
        ∙ off_loop-Lacks (suc (length before)) 0 shifted tail []
            (drop-shifted ∙ sym (append-nil tail)) tail-Lacks
        ∙ off_loop-end _ shifted
      where
        tail-Lacks : Lacks h tail
        tail-Lacks =
            subst (λ t. Lacks h (drop 1 (behind ++ t))) (sym last_entry) (last-Lacks behind l)

  abbrev decided : Result Panic Slice → Result Panic (List ℕ)
  decided r = r >>= λ s. ok (contents s)

  off_slice-decided :
      (funcs : List ℕ)
      → off_slice (h ∷ []) funcs ≡ decided (off_loop (h ∷ []) 0 (length funcs) (of_list funcs))
  unfolding off_slice
  off_slice-decided funcs = refl

  single_found :
      (funcs : List ℕ)
      → FirstOf h funcs
      → Distinct funcs
      → decided (off_loop (h ∷ []) 0 (length funcs) (of_list funcs)) ≡ ok (without h funcs)
  unfolding of_list
  single_found funcs (absent l) d =
      ap decided (
        off_loop-at 0 0 (length funcs) (length funcs + 0) _ refl (omega arith)
        ∙ off_loop-Lacks 0 0 _ funcs [] (sym (append-nil funcs)) l
        ∙ off_loop-end _ _)
      ∙ ap ok (unfold contents in take-length funcs ∙ sym (without-Lacks h funcs l))
  single_found funcs (found before behind l) d =
      let others = behind-Lacks h before behind d in
      ap decided (found_first before behind l ∙ rest-Lacks before behind others)
      ∙ ap ok (contents-shifted before behind ∙ sym (without-append h before behind l others))

  -- Taking one handler out of a slice in which none stands twice leaves the others, in their order,
  -- whether it was there or not: the loop does not panic.
  pub off_slice-single :
      (funcs : List ℕ) → Distinct funcs → off_slice (h ∷ []) funcs ≡ ok (without h funcs)
  off_slice-single funcs d = off_slice-decided funcs ∙ single_found funcs (first_of h funcs) d

  pub off_slice-once :
      (before behind : List ℕ)
      → Lacks h before
      → Lacks h behind
      → off_slice (h ∷ []) (before ++ (h ∷ behind)) ≡ ok (before ++ behind)
  unfolding of_list
  off_slice-once before behind l others =
      off_slice-decided (before ++ (h ∷ behind))
      ∙ ap decided (found_first before behind l ∙ rest-Lacks before behind others)
      ∙ ap ok (contents-shifted before behind)

  twice_loop :
      (before : List ℕ)
      → Lacks h before
      → off_loop (h ∷ []) 0 (length (before ++ (h ∷ h ∷ []))) (of_list (before ++ (h ∷ h ∷ [])))
        ≡ err slice_bounds
  unfolding of_list remove
  twice_loop before l =
      found_first before (h ∷ []) l
      ∙ off_loop-beyond (suc (length before)) 0 (shifted before (h ∷ []))
          (get_elem?-drop (suc (length before)) _ [] h
            (drop-shifted before (h ∷ []) ∙ last_entry before (h ∷ [])))
          (ground arith)

  -- The loop panics where the last handler is registered twice in a row: what is left behind the end
  -- of the slice is met once more.
  pub off_slice-twice :
      (before : List ℕ)
      → Lacks h before
      → off_slice (h ∷ []) (before ++ (h ∷ h ∷ [])) ≡ err slice_bounds
  off_slice-twice before l = off_slice-decided _ ∙ ap decided (twice_loop before l)
