-- ===== src/Handlers/Store/Once.antt =====
-- A handler that is registered for once is called at most once per registration.
use socket_io.Base.{
  subst, ℕ, ◌+◌, ◌≤◌, ◌≡◌, refl, arith, List, [], ◌∷◌, ◌++◌, Result-cases, inl, inr, ◌==◌,
  if◌then◌else◌, Result, ok, err, ◌>>=◌,
}
use socket_io.Handlers.Slices.{Panic, off_slice}
use socket_io.Handlers.Slices.Fewer.{count, count-append, count-off_slice}
use socket_io.Handlers.Store.{
  HandlerStore, on, on_sub_event, off_sub_event, off_sub_events, once, off, off_all, get_all,
  new_handler_store,
}

pub data Call : Type 0 where
  call_on call_on_sub_event call_off_sub_event call_once : ℕ → Call
  call_off : List ℕ → Call
  call_off_sub_events call_off_all call_get_all : Call

-- One call on the store, with the handlers it gives out.
unfoldable pub apply : Call → HandlerStore → Result Panic (List ℕ × HandlerStore)
apply (call_on h) e = ok ([], on h e)
apply (call_on_sub_event h) e = ok ([], on_sub_event h e)
apply (call_off_sub_event h) e = do e' ← off_sub_event h e; ok ([], e')
apply (call_once h) e = ok ([], once h e)
apply (call_off handlers) e = do e' ← off handlers e; ok ([], e')
apply call_off_sub_events e = ok ([], off_sub_events e)
apply call_off_all e = ok ([], off_all e)
apply call_get_all e = ok (get_all e)

-- The calls in their order, with everything they give out.
unfoldable pub run : List Call → HandlerStore → Result Panic (List ℕ × HandlerStore)
run [] e = ok ([], e)
run (c ∷ calls) e = do
  (given, e') ← apply c e
  (later, last) ← run calls e'
  ok (given ++ later, last)

-- How often the calls register a handler: for once, and for good.
abbrev pub registered : ℕ → List Call → ℕ
registered h [] = 0
registered h (call_once g ∷ calls) = (if g == h then 1 else 0) + registered h calls
registered h (c ∷ calls) = registered h calls

abbrev pub permanent : ℕ → List Call → ℕ
permanent h [] = 0
permanent h (call_on g ∷ calls) = (if g == h then 1 else 0) + permanent h calls
permanent h (call_on_sub_event g ∷ calls) = (if g == h then 1 else 0) + permanent h calls
permanent h (c ∷ calls) = permanent h calls

module _ (h : ℕ) where
  -- The handler is not registered for good.
  pub record Quiet (e : HandlerStore) : Type 0 where
    pub funcs : count h e.funcs ≡ 0
    pub subs : count h e.subs ≡ 0

  -- The handler is given out and still registered `n` times at most.
  abbrev Within : ℕ → List ℕ × HandlerStore → Type 0
  Within n (given, e) = Quiet e × (count h given + count h e.funcs_once ≤ n)

  abbrev Ends : ℕ → Result Panic (List ℕ × HandlerStore) → Type 0
  Ends n (ok end) = Within n end
  Ends n (err p) = Unit {0}

  Ends-later :
      (given : List ℕ) (n : ℕ) (r : Result Panic (List ℕ × HandlerStore))
      → Ends n r
      → Ends (count h given + n) (r >>= λ (later, last). ok (given ++ later, last))
  Ends-later given n (ok (later, last)) v = (v.0, omega (arith, v.1, count-append h given later))
  Ends-later given n (err p) v = tt

  Ends-weaker : (m n : ℕ) (r : Result Panic (List ℕ × HandlerStore)) → m ≤ n → Ends m r → Ends n r
  Ends-weaker m n (ok end) l v = (v.0, omega (arith, v.1, l))
  Ends-weaker m n (err p) l v = tt

  Ends-bind :
      (m k : ℕ) (r : Result Panic (List ℕ × HandlerStore))
      (next : HandlerStore → Result Panic (List ℕ × HandlerStore))
      → Ends m r
      → ((e : HandlerStore) → Quiet e → Ends (k + count h e.funcs_once) (next e))
      → Ends (m + k) (r >>= λ (given, e). next e >>= λ (later, last). ok (given ++ later, last))
  Ends-bind m k (ok (given, e)) next v f =
      Ends-weaker (count h given + (k + count h e.funcs_once)) (m + k) _ (omega (arith, v.1))
        (Ends-later given _ (next e) (f e v.0))
  Ends-bind m k (err p) next v f = tt

  off_sub_event-Ends :
      (g : ℕ) (e : HandlerStore)
      → Quiet e
      → Ends (0 + count h e.funcs_once) (off_sub_event g e >>= λ e'. ok ([], e'))
  unfolding off_sub_event
  off_sub_event-Ends g e q = elim (Result-cases (off_slice (g ∷ []) e.subs)) [
    | inl (left, eq) ↦
        let fewer = count-off_slice h (g ∷ []) e.subs left eq in
        rw eq (record { funcs = q.funcs; subs = omega (arith, q.subs, fewer) }, omega arith)
    | inr (p, eq) ↦ rw eq tt
  ]

  off-Ends :
      (handlers : List ℕ) (e : HandlerStore)
      → Quiet e
      → Ends (0 + count h e.funcs_once) (off handlers e >>= λ e'. ok ([], e'))
  unfolding off
  off-Ends [] e q = (record { funcs = refl; subs = q.subs }, omega arith)
  off-Ends (g ∷ handlers) e q = elim (Result-cases (off_slice (g ∷ handlers) e.funcs)) [
    | inl (left, eq) ↦ elim (Result-cases (off_slice (g ∷ handlers) e.funcs_once)) [
      | inl (left_once, eq_once) ↦
          let fewer = count-off_slice h (g ∷ handlers) e.funcs left eq in
          let fewer_once = count-off_slice h (g ∷ handlers) e.funcs_once left_once eq_once in
          rw (eq, eq_once)
            (
              record { funcs = omega (arith, q.funcs, fewer); subs = q.subs },
              omega (arith, fewer_once),
            )
      | inr (p, eq_once) ↦ rw (eq, eq_once) tt
    ]
    | inr (p, eq) ↦ rw eq tt
  ]

  apply-Ends :
      (c : Call) (e : HandlerStore)
      → permanent h (c ∷ []) ≡ 0
      → Quiet e
      → Ends (registered h (c ∷ []) + count h e.funcs_once) (apply c e)
  unfolding apply on on_sub_event off_sub_events once off_all get_all
  apply-Ends (call_on g) e n q = (
    record { funcs = omega (arith, n, q.funcs, count-append h e.funcs (g ∷ [])); subs = q.subs },
    omega arith,
  )
  apply-Ends (call_on_sub_event g) e n q = (
    record { funcs = q.funcs; subs = omega (arith, n, q.subs, count-append h e.subs (g ∷ [])) },
    omega arith,
  )
  apply-Ends (call_off_sub_event g) e n q = off_sub_event-Ends g e q
  apply-Ends (call_once g) e n q = (
    record { funcs = q.funcs; subs = q.subs },
    omega (arith, count-append h e.funcs_once (g ∷ [])),
  )
  apply-Ends (call_off handlers) e n q = off-Ends handlers e q
  apply-Ends call_off_sub_events e n q = (record { funcs = q.funcs; subs = refl }, omega arith)
  apply-Ends call_off_all e n q = (record { funcs = refl; subs = q.subs }, omega arith)
  apply-Ends call_get_all e n q = (
    record { funcs = q.funcs; subs = q.subs },
    omega (
      arith,
      q.funcs,
      q.subs,
      count-append h e.subs (e.funcs ++ e.funcs_once),
      count-append h e.funcs e.funcs_once,
    ),
  )

  permanent-cons :
      (c : Call) (calls : List Call)
      → permanent h (c ∷ calls) ≡ permanent h (c ∷ []) + permanent h calls
  permanent-cons (call_on g) calls = omega arith
  permanent-cons (call_on_sub_event g) calls = omega arith
  permanent-cons (call_off_sub_event g) calls = omega arith
  permanent-cons (call_once g) calls = omega arith
  permanent-cons (call_off handlers) calls = omega arith
  permanent-cons call_off_sub_events calls = omega arith
  permanent-cons call_off_all calls = omega arith
  permanent-cons call_get_all calls = omega arith

  registered-cons :
      (c : Call) (calls : List Call)
      → registered h (c ∷ calls) ≡ registered h (c ∷ []) + registered h calls
  registered-cons (call_on g) calls = omega arith
  registered-cons (call_on_sub_event g) calls = omega arith
  registered-cons (call_off_sub_event g) calls = omega arith
  registered-cons (call_once g) calls = omega arith
  registered-cons (call_off handlers) calls = omega arith
  registered-cons call_off_sub_events calls = omega arith
  registered-cons call_off_all calls = omega arith
  registered-cons call_get_all calls = omega arith

  run-Ends :
      (calls : List Call) (e : HandlerStore)
      → permanent h calls ≡ 0
      → Quiet e
      → Ends (registered h calls + count h e.funcs_once) (run calls e)
  unfolding run
  run-Ends [] e n q = (q, omega arith)
  run-Ends (c ∷ calls) e n q =
      let split = permanent-cons c calls in
      Ends-weaker _ _ _ (omega (arith, registered-cons c calls)) (
        Ends-bind (registered h (c ∷ []) + count h e.funcs_once) (registered h calls) (apply c e)
          (run calls) (apply-Ends c e (omega (arith, n, split)) q)
          (λ e' q'. run-Ends calls e' (omega (arith, n, split)) q'))

  -- In any sequence of calls on a new store that does not panic, a handler that is registered only
  -- with `once` is given out no more often than it was registered, also where it is taken out
  -- meanwhile; what it is still registered for counts as well.
  pub run-once :
      (calls : List Call) (given : List ℕ) (e : HandlerStore)
      → permanent h calls ≡ 0
      → run calls new_handler_store ≡ ok (given, e)
      → count h given + count h e.funcs_once ≤ registered h calls
  unfolding new_handler_store
  run-once calls given e n r =
      let ends =
        subst (Ends (registered h calls + 0)) r
          (run-Ends calls _ n (record { funcs = refl; subs = refl })) in
      omega (arith, ends.1)
