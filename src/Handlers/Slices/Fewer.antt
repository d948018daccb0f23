-- ===== src/Handlers/Slices/Fewer.antt =====
-- Taking handlers out of a slice never adds one.
use socket_io.Base.{
  ℕ, zero, suc, ◌+◌, ◌-◌, ◌≤◌, ◌<◌, ◌≡◌, refl, ap, arith, List, [], ◌∷◌, ◌++◌, length, take, drop,
  get_elem?, ltb, inl, inr, Bool-cases, Option, some, none, subst, take-length, ◌==◌, if◌then◌else◌,
  Result, ok, err, ◌>>=◌, or_fail, length-append, length-drop,
}
use socket_io.Handlers.Slices.{
  Panic, index_bounds, Slice, of_list, contents, remove, remove_matching, off_loop, off_slice,
}

-- How often a handler occurs.
abbrev pub count : ℕ → List ℕ → ℕ
count h [] = 0
count h (x ∷ xs) = (if x == h then 1 else 0) + count h xs

pub count-append : (h : ℕ) (xs ys : List ℕ) → count h (xs ++ ys) ≡ count h xs + count h ys
count-append h [] ys = omega arith
count-append h (x ∷ xs) ys = omega (arith, count-append h xs ys)

-- The cells of a slice of `suc m` handlers after the removal at `i`, `k` places before its end.
abbrev shift : ℕ → ℕ → ℕ → List ℕ → List ℕ
shift i k m cells = take i cells ++ (take k (drop (suc i) cells) ++ drop m cells)

take-take : (m : ℕ) (xs ys : List ℕ) → m ≤ length xs → take m (take m xs ++ ys) ≡ take m xs
take-take zero xs ys h = refl
take-take (suc m) [] ys h = absurd (omega (arith, h))
take-take (suc m) (x ∷ xs) ys h = ap (◌∷◌ x) (take-take m xs ys (omega (arith, h)))

count-shift :
    (h i k m : ℕ) (cells : List ℕ)
    → m ≡ i + k
    → suc m ≤ length cells
    → count h (take m (shift i k m cells)) ≤ count h (take (suc m) cells)
count-shift h i k m [] e f = absurd (omega (arith, f))
count-shift h zero k m (x ∷ cells) e f =
    let q : k ≡ m = omega (arith, e) in
    rw (q, take-take m cells (drop m (x ∷ cells)) (omega (arith, f))) (omega arith)
count-shift h (suc i) k zero (x ∷ cells) e f = absurd (omega (arith, e))
count-shift h (suc i) k (suc m) (x ∷ cells) e f =
    omega (arith, count-shift h i k m cells (omega (arith, e)) (omega (arith, f)))

length-take : (k : ℕ) (xs : List ℕ) → k ≤ length xs → length (take k xs) ≡ k
length-take zero xs h = refl
length-take (suc k) [] h = absurd (omega (arith, h))
length-take (suc k) (x ∷ xs) h = omega (arith, length-take k xs (omega (arith, h)))

length-shift :
    (i k m : ℕ) (cells : List ℕ)
    → m ≡ i + k
    → suc m ≤ length cells
    → length (shift i k m cells) ≡ length cells
length-shift i k m [] e f = absurd (omega (arith, f))
length-shift zero k m (x ∷ cells) e f = omega (
  arith,
  e,
  f,
  length-append (take k cells) (drop m (x ∷ cells)),
  length-take k cells,
  length-drop m (x ∷ cells),
)
length-shift (suc i) k zero (x ∷ cells) e f = absurd (omega (arith, e))
length-shift (suc i) k (suc m) (x ∷ cells) e f =
    omega (arith, length-shift i k m cells (omega (arith, e)) (omega (arith, f)))

-- The slice is no longer than its array, and `n` handlers `h` at most are in it.
record Holds (h n : ℕ) (s : Slice) : Type 0 where
  fits : s.len ≤ length s.cells
  few : count h (contents s) ≤ n

-- What a loop that may panic ends with.
abbrev Keeps : ℕ → ℕ → Result Panic Slice → Type 0
Keeps h n (ok s) = Holds h n s
Keeps h n (err p) = Unit {0}

module _ (h n : ℕ) where
  Keeps-bind :
      (r : Result Panic Slice) (next : Slice → Result Panic Slice)
      → Keeps h n r
      → ((s : Slice) → Holds h n s → Keeps h n (next s))
      → Keeps h n (r >>= next)
  Keeps-bind (ok s) next v f = f s v
  Keeps-bind (err p) next v f = tt

  remove-Holds :
      (s : Slice) (i k m : ℕ)
      → Holds h n s
      → s.len ≡ suc m
      → m ≡ i + k
      → Holds h n (record { cells = shift i k m s.cells; len = m })
  unfolding contents
  remove-Holds s i k m v e f =
      let enough : suc m ≤ length s.cells = omega (arith, e, v.fits) in
      let before : count h (take (suc m) s.cells) ≤ n =
        subst (λ l. count h (take l s.cells) ≤ n) e v.few in
      record {
        fits = omega (arith, length-shift i k m s.cells f enough);
        few = omega (arith, count-shift h i k m s.cells f enough, before);
      }

  remove-Keeps : (s : Slice) (i : ℕ) → Holds h n s → Keeps h n (remove s i)
  unfolding remove
  remove-Keeps s i v = elim (Bool-cases (ltb i s.len)) [
    | inl e ↦
        let inside : i < s.len = ground arith in
        rw e (remove-Holds s i (s.len - suc i) (s.len - 1) v (omega arith) (omega arith))
    | inr e ↦ rw e tt
  ]

  remove_matching-Keeps :
      (i g : ℕ) (handlers : List ℕ) (s : Slice)
      → Holds h n s
      → Keeps h n (remove_matching i g handlers s)
  unfolding remove_matching
  remove_matching-Keeps i g [] s v = v
  remove_matching-Keeps i g (f ∷ handlers) s v = elim (Bool-cases (g == f)) [
    | inl e ↦
        rw e (Keeps-bind (remove s i) _ (remove-Keeps s i v) (remove_matching-Keeps i g handlers))
    | inr e ↦ rw e (remove_matching-Keeps i g handlers s v)
  ]

  read_cell :
      (o : Option ℕ) (next : ℕ → Result Panic Slice)
      → ((g : ℕ) → Keeps h n (next g))
      → Keeps h n (or_fail o index_bounds >>= next)
  read_cell none next f = tt
  read_cell (some g) next f = f g

  off_loop-Keeps :
      (handlers : List ℕ) (i k : ℕ) (s : Slice) → Holds h n s → Keeps h n (off_loop handlers i k s)
  unfolding off_loop
  off_loop-Keeps handlers i zero s v = v
  off_loop-Keeps handlers i (suc k) s v = read_cell (get_elem? s.cells i) _ (λ g.
      Keeps-bind (remove_matching i g handlers s) _ (remove_matching-Keeps i g handlers s v)
        (off_loop-Keeps handlers (suc i) k))

  contents-count :
      (r : Result Panic Slice) (left : List ℕ)
      → Keeps h n r
      → (r >>= λ s. ok (contents s)) ≡ ok left
      → count h left ≤ n
  contents-count (ok s) left v e = subst (λ xs. count h xs ≤ n) (cc) v.few
  contents-count (err p) left v e = cc

-- Whatever is to be removed, no handler occurs more often in what is left.
pub count-off_slice :
    (h : ℕ) (handlers funcs left : List ℕ)
    → off_slice handlers funcs ≡ ok left
    → count h left ≤ count h funcs
unfolding off_slice of_list
count-off_slice h handlers funcs left e =
    contents-count h (count h funcs) _ left
      (off_loop-Keeps h (count h funcs) handlers 0 (length funcs) _ (record {
        fits = omega arith;
        few = unfold contents in rw (take-length funcs) (omega arith);
      }))
      e
