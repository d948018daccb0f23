-- ===== src/Client/Socket/Life/Again.antt =====
-- `Connect` on a socket that is active.
use socket_io.Base.{
  ℕ, ◌≡◌, ◌≢◌, refl, sym, ap, ap₂, subst, if-false, ◌∙◌, arith, Bool, true, false, not, ◌&&◌, some,
  List, [], ◌∷◌, ◌++◌, if◌then◌else◌,
}
use socket_io.Client.Manager.{ClientConnectionState, is_connected, without}
use socket_io.Client.Socket.{ClientSocket, connect_pending, is_joined, is_connect_pending, Effect}
use socket_io.Client.Socket.Life.{
  connect, disconnect, destroy, register_sub_events, deregister_sub_events, off_sub, on_close,
  open_func, joined_or_pending,
}

either : {A : Type 0} (P : A → Type 0) (b : Bool) {x y : A} → P x → P y → P (if b then x else y)
either P true px py = px
either P false px py = py

-- What a second registration looks like.
record Twice (s t : ClientSocket) : Type 0 where
  registered : t.registered ≡ s.registered ++ (s.next_sub ∷ [])
  sub_deregister : t.sub_deregister ≡ some s.next_sub

connect-Twice :
    (manager : ClientConnectionState) (s : ClientSocket)
    → is_joined s.state ≡ false
    → Twice s (connect manager s).0
unfolding connect register_sub_events
connect-Twice manager s j =
    subst (λ (r : ClientSocket × List Effect). Twice s r.0) (sym (if-false _ j))
      (either (λ (r : ClientSocket × List Effect). Twice s r.0)
        (is_connected manager && not (is_connect_pending s.state))
        (record { registered = refl; sub_deregister = refl })
        (record { registered = refl; sub_deregister = refl }))

-- What is registered is left registered but for the one function.
record Gone (s t : ClientSocket) : Type 0 where
  active : t.active ≡ false
  registered : t.registered ≡ off_sub s.sub_deregister s.registered
  state : joined_or_pending t ≡ false

disconnect-Gone :
    (manager : ClientConnectionState) (s : ClientSocket) → Gone s (disconnect manager s).0
unfolding disconnect destroy deregister_sub_events on_close
disconnect-Gone manager s = by_state (joined_or_pending s) refl
  where
    by_state : (b : Bool) → joined_or_pending s ≡ b → Gone s (disconnect manager s).0
    by_state true e = rw e (record { active = refl; registered = refl; state = refl })
    by_state false e = rw e (record { active = refl; registered = refl; state = e })

reopened :
    (s : ClientSocket) → joined_or_pending s ≡ false → (open_func s).0.state ≡ connect_pending
unfolding open_func
reopened s e = by_pending (is_connect_pending s.state) refl
  where
    by_pending :
        (b : Bool) → is_connect_pending s.state ≡ b → (open_func s).0.state ≡ connect_pending
    by_pending true f = absurd (ground (arith, e, f))
    by_pending false f = rw f refl

off_sub-other : (sub other : ℕ) → sub ≢ other → off_sub (some other) (sub ∷ (other ∷ [])) ≡ sub ∷ []
unfolding off_sub without
off_sub-other sub other n = ground arith

-- If `Connect` is called on a socket that is active and not connected, its functions are registered
-- a second time, and after `Disconnect` the first registration is still there, so that the socket,
-- not active any more, joins its namespace again when the manager opens.
pub disconnect-connect_twice :
    (before after : ClientConnectionState) (sub : ℕ) (s : ClientSocket)
    → is_joined s.state ≡ false
    → s.registered ≡ sub ∷ []
    → sub ≢ s.next_sub
    → let t = (disconnect after (connect before s).0).0 in
      (t.active ≡ false) × ((t.registered ≡ sub ∷ []) × ((open_func t).0.state ≡ connect_pending))
disconnect-connect_twice before after sub s j r n =
    let twice = connect-Twice before s j in
    let gone = disconnect-Gone after (connect before s).0 in
    (
      gone.active,
      (
        gone.registered
            ∙ ap₂ off_sub twice.sub_deregister
                (twice.registered ∙ ap (λ subs. subs ++ (s.next_sub ∷ [])) r)
            ∙ off_sub-other sub s.next_sub n,
        reopened (disconnect after (connect before s).0).0 gone.state,
      ),
    )
