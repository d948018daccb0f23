-- ===== src/Handlers/Slices.antt =====
-- The loops of store.go that take handlers out of a slice while they range over it. A handler is the
-- pointer it is compared by. Go evaluates the slice that is ranged over once: the loop runs over the
-- old length and reads the array that the removals shift under it.
pub mod Single
pub mod Fewer
mod Tests
use socket_io.Base.{
  ℕ, zero, suc, ◌+◌, ◌-◌, Bool, true, false, List, [], ◌∷◌, ◌++◌, length, get_elem?, take, drop,
  ltb, leb, ◌==◌, if◌then◌else◌, Result, ok, err, ◌>>=◌, or_fail,
}

-- How the run-time system ends a call.
pub data Panic : Type 0 where
  slice_bounds : Panic
  index_bounds : Panic

-- The array under a slice, as far as the first slice reached, and the slice's length now.
pub record Slice : Type 0 where
  pub cells : List ℕ
  pub len : ℕ

unfoldable pub of_list : List ℕ → Slice
of_list xs = record { cells = xs; len = length xs }

pub contents : Slice → List ℕ
contents s = take s.len s.cells

-- `append(slice[:s], slice[s+1:]...)`, in place; the second slice can be out of range.
unfoldable pub remove : Slice → ℕ → Result Panic Slice
remove s i =
    if ltb i s.len
    then ok (record {
      cells =
          take i s.cells
          ++ (take (s.len - suc i) (drop (suc i) s.cells) ++ drop (s.len - 1) s.cells);
      len = s.len - 1;
    })
    else err slice_bounds

-- The inner loop, over the handlers to be removed, for the one read at the index.
remove_matching : ℕ → ℕ → List ℕ → Slice → Result Panic Slice
remove_matching i h [] s = ok s
remove_matching i h (g ∷ handlers) s =
    if h == g
    then (do s' ← remove s i; remove_matching i h handlers s')
    else remove_matching i h handlers s

-- The outer loop from an index on, `count` steps to the end of the array.
off_loop : List ℕ → ℕ → ℕ → Slice → Result Panic Slice
unfolding remove_matching
off_loop handlers i zero s = ok s
off_loop handlers i (suc count) s = do
  h ← or_fail (get_elem? s.cells i) index_bounds
  s' ← remove_matching i h handlers s
  off_loop handlers (suc i) count s'

-- What is left of a slice of handlers, unless the loop panics.
unfoldable pub off_slice : List ℕ → List ℕ → Result Panic (List ℕ)
unfolding off_loop contents
off_slice handlers funcs = do
  s ← off_loop handlers 0 (length funcs) (of_list funcs)
  ok (contents s)
