-- ===== src/EngineIo/Ids/Tries.antt =====
-- How many ids are tried.
use Prim.Native.String.{String}
use socket_io.Base.{
  ℕ, zero, suc, ◌+◌, ◌-◌, ◌≤◌, ◌<◌, ◌≡◌, sym, ap, ◌∙◌, arith, Bool, true, false, if-true, if-false,
  inl, inr, Bool-cases, ltb, ltb→lt, ltb-false, subst, Result, ok, err,
}
use socket_io.Base.Maps.{StringMap, lookup, is_some}
use socket_io.EngineIo.Ids.{Error, max_try_reached, base64_id_max_try, generate_from, generate_sid}

module _ {V : Type 0} (store : StringMap V) (sids : ℕ → String) where
  abbrev pub taken : ℕ → Bool
  taken i = is_some (lookup (sids i) store)

  abbrev pub draws : ℕ → Result Error String
  draws i = ok (sids i)

  -- The first id that is free, from the round before which `base64_id_max_try - left` were made.
  first_free :
      (left i k : ℕ)
      → i + left ≡ base64_id_max_try
      → ((j : ℕ) → i ≤ j → j < k → taken j ≡ true)
      → i ≤ k
      → k ≤ base64_id_max_try
      → taken k ≡ false
      → generate_from store draws left ≡ ok (sids k)
  unfolding generate_from
  first_free zero i k e before h l free =
      let last : base64_id_max_try ≡ k = omega (arith, e, h, l) in
      if-false _ (subst (λ n. taken n ≡ false) (sym last) free) ∙ ap (λ n. ok (sids n)) last
  first_free (suc left) i k e before h l free =
      let now : base64_id_max_try - suc left ≡ i = omega (arith, e) in
      elim (Bool-cases (ltb i k)) [
        | inl q ↦
            if-true _
              (subst (λ n. taken n ≡ true) (sym now) (before i (omega arith) (ltb→lt i k q)))
            ∙ first_free left (suc i) k (omega (arith, e)) (λ j p r. before j (omega (arith, p)) r)
                (ltb→lt i k q) l free
        | inr q ↦
            let here : base64_id_max_try - suc left ≡ k = omega (arith, now, h, ltb-false i k q) in
            if-false _ (subst (λ n. taken n ≡ false) (sym here) free) ∙ ap (λ n. ok (sids n)) here
      ]

  none_free :
      (left i : ℕ)
      → i + left ≡ base64_id_max_try
      → ((j : ℕ) → j ≤ base64_id_max_try → taken j ≡ true)
      → generate_from store draws left ≡ err max_try_reached
  unfolding generate_from
  none_free zero i e t = if-true _ (t base64_id_max_try (omega arith))
  none_free (suc left) i e t =
      if-true _ (t (base64_id_max_try - suc left) (omega arith))
      ∙ none_free left (suc i) (omega (arith, e)) t

  -- If crypto/rand does not fail, at most eleven ids are drawn: the first of them that no socket has is
  -- the result, and if all eleven are taken there is an error.
  pub generate_sid-first_free :
      ((k : ℕ)
        → k ≤ base64_id_max_try
        → ((j : ℕ) → j < k → taken j ≡ true)
        → taken k ≡ false
        → generate_sid store draws ≡ ok (sids k))
      × (((j : ℕ) → j ≤ base64_id_max_try → taken j ≡ true)
          → generate_sid store draws ≡ err max_try_reached)
  unfolding generate_sid
  generate_sid-first_free = (
    λ k l before free.
        first_free base64_id_max_try 0 k (omega arith) (λ j _ r. before j r) (omega arith) l free,
    λ all. none_free base64_id_max_try 0 (omega arith) all,
  )
