-- ===== src/Client/Socket/Life/Registered.antt =====
-- The functions that a socket has registered with its manager.
use socket_io.Base.{
  ℕ, ◌≡◌, refl, sym, ap, ◌∙◌, arith, Bool, true, false, not, ◌&&◌, ◌==◌, Option, none, some, List,
  [], ◌∷◌, ◌++◌, length, if◌then◌else◌,
}
use Prim.Native.String.{String}
use socket_io.Base.Maps.{is_some, str_eq}
use socket_io.Client.Manager.{ClientConnectionState, is_connected, without}
use socket_io.Client.Socket.{
  ClientSocket, ClientEvent, Value, joined, new_client_socket, is_joined, is_connect_pending,
  Effect,
}
use socket_io.Client.Socket.Buffers.{
  take_offset, acks_now, has_ack_func, answer, flush, emit_events, emit_buffered,
}
use socket_io.Client.Socket.Buffers.Offset.{take_offset-kept}
use socket_io.Client.Socket.Life.{
  SidInfo, connect, disconnect, on_disconnect, on_connect_error, on_connect, accept, set_session,
  destroy, register_sub_events, deregister_sub_events, off_sub, on_close, open_func,
  joined_or_pending,
}

-- What can happen to a socket, in any order; `Connect` is called only while the socket is not active.
pub data Reached : ClientSocket → Type 0 where
  made : Reached new_client_socket
  connected :
      {s : ClientSocket} (manager : ClientConnectionState)
      → s.active ≡ false
      → Reached s
      → Reached (connect manager s).0
  opened : {s : ClientSocket} → Reached s → Reached (open_func s).0
  accepted : {s : ClientSocket} (info : Option SidInfo) → Reached s → Reached (on_connect info s).0
  refused : {s : ClientSocket} (decoded : Bool) → Reached s → Reached (on_connect_error decoded s).0
  lost : {s : ClientSocket} → Reached s → Reached (on_close s).0
  sent_away : {s : ClientSocket} → Reached s → Reached (on_disconnect s).0
  disconnected :
      {s : ClientSocket} (manager : ClientConnectionState)
      → Reached s
      → Reached (disconnect manager s).0

abbrev pub one_sub : Option ℕ → List ℕ
one_sub none = []
one_sub (some sub) = sub ∷ []

-- What is registered is what `sub_deregister` takes out, and a socket is active exactly while
-- something is.
pub record Tracked (s : ClientSocket) : Type 0 where
  pub registered : s.registered ≡ one_sub s.sub_deregister
  pub active : s.active ≡ is_some s.sub_deregister

either : {A : Type 0} (P : A → Type 0) (b : Bool) {x y : A} → P x → P y → P (if b then x else y)
either P true px py = px
either P false px py = py

-- What a step leaves of the registration.
abbrev Kept : ClientSocket → ClientSocket → Type 0
Kept s t =
    (t.registered ≡ s.registered) × ((t.sub_deregister ≡ s.sub_deregister) × (t.active ≡ s.active))

Kept-Tracked : (s t : ClientSocket) → Kept s t → Tracked s → Tracked t
Kept-Tracked s t (r, (d, a)) v = record {
  registered = r ∙ v.registered ∙ ap one_sub (sym d);
  active = a ∙ v.active ∙ ap is_some (sym d);
}

off_sub-one : (sub : Option ℕ) → off_sub sub (one_sub sub) ≡ []
unfolding off_sub without
off_sub-one none = refl
off_sub-one (some k) = ground arith

-- After `destroy` nothing is registered.
deregister-none : (s : ClientSocket) → Tracked s → (deregister_sub_events s).registered ≡ []
unfolding deregister_sub_events
deregister-none s v = ap (off_sub s.sub_deregister) v.registered ∙ off_sub-one s.sub_deregister

deregister-Tracked : (s : ClientSocket) → Tracked s → Tracked (deregister_sub_events s)
unfolding deregister_sub_events
deregister-Tracked s v = record { registered = deregister-none s v; active = refl }

register-Tracked :
    (s : ClientSocket) → s.active ≡ false → Tracked s → Tracked (register_sub_events s)
unfolding register_sub_events
register-Tracked s e v = record {
  registered =
      ap (λ subs. subs ++ (s.next_sub ∷ []))
        (v.registered ∙ empty s.sub_deregister (sym v.active ∙ e));
  active = refl;
}
  where
    empty : (sub : Option ℕ) → is_some sub ≡ false → one_sub sub ≡ []
    empty none f = refl
    empty (some k) f = cc

take_offset-Kept : (values : List Value) (s : ClientSocket) → Kept s (take_offset values s).0
take_offset-Kept values s =
    let same = take_offset-kept values s in
    (
      ap (λ (r : ClientSocket). r.registered) same,
      (ap (λ (r : ClientSocket). r.sub_deregister) same, ap (λ (r : ClientSocket). r.active) same),
    )

emit_events-Kept :
    (events : List ClientEvent) (sent : List ℕ) (s : ClientSocket)
    → Kept s (emit_events events sent s).0
unfolding emit_events flush
emit_events-Kept [] sent s =
    either (λ (r : ClientSocket × List Effect). Kept s r.0) (length s.send_buffer == 0)
      (refl, (refl, refl)) (refl, (refl, refl))
emit_events-Kept (event ∷ events) sent s =
    let (s', values) = take_offset event.values s in
    let replied =
      answer event.header_id (has_ack_func event.handler event.header_id)
        (acks_now event.handler event.header_id values) sent in
    let first = take_offset-Kept event.values s in
    let rest = emit_events-Kept events replied.sent s' in
    either (λ (r : ClientSocket × List Effect). Kept s r.0) replied.returns first
      (rest.0 ∙ first.0, (rest.1.0 ∙ first.1.0, rest.1.1 ∙ first.1.1))

set_session-Kept : (pid : String) (s : ClientSocket) → Kept s (set_session pid s)
unfolding set_session
set_session-Kept pid s = either (Kept s) (str_eq pid "") (refl, (refl, refl)) (refl, (refl, refl))

on_connect-Kept : (info : Option SidInfo) (s : ClientSocket) → Kept s (on_connect info s).0
unfolding on_connect accept emit_buffered
on_connect-Kept none s = (refl, (refl, refl))
on_connect-Kept (some info) s =
    let first = set_session-Kept info.pid s in
    let accepted = record (set_session info.pid s) { id = info.sid; state = joined } in
    let rest = emit_events-Kept accepted.receive_buffer [] accepted in
    either (λ (r : ClientSocket × List Effect). Kept s r.0) (str_eq info.sid "")
      (refl, (refl, refl)) (rest.0 ∙ first.0, (rest.1.0 ∙ first.1.0, rest.1.1 ∙ first.1.1))

connect-Tracked :
    (manager : ClientConnectionState) (s : ClientSocket)
    → s.active ≡ false
    → Tracked s
    → Tracked (connect manager s).0
unfolding connect
connect-Tracked manager s e v =
    let registered = register-Tracked s e v in
    either (λ (r : ClientSocket × List Effect). Tracked r.0) (is_joined s.state) v
      (either (λ (r : ClientSocket × List Effect). Tracked r.0)
        (is_connected manager && not (is_connect_pending s.state))
        (record { registered = registered.registered; active = registered.active }) registered)

on_close-Tracked : (s : ClientSocket) → Tracked s → Tracked (on_close s).0
unfolding on_close
on_close-Tracked s v = record { registered = v.registered; active = v.active }

open_func-Tracked : (s : ClientSocket) → Tracked s → Tracked (open_func s).0
unfolding open_func
open_func-Tracked s v =
    either (λ (r : ClientSocket × List Effect). Tracked r.0) (is_connect_pending s.state) v
      (record { registered = v.registered; active = v.active })

disconnect-Tracked :
    (manager : ClientConnectionState) (s : ClientSocket)
    → Tracked s
    → Tracked (disconnect manager s).0
unfolding disconnect destroy
disconnect-Tracked manager s v =
    let gone = deregister-Tracked s v in
    either (λ (r : ClientSocket × List Effect). Tracked r.0)
      (joined_or_pending (deregister_sub_events s))
      (on_close-Tracked (deregister_sub_events s) gone) gone

Reached-Tracked : {s : ClientSocket} → Reached s → Tracked s
unfolding new_client_socket on_connect_error on_disconnect destroy
Reached-Tracked made = record { registered = refl; active = refl }
Reached-Tracked (connected {s = s} manager e r) = connect-Tracked manager s e (Reached-Tracked r)
Reached-Tracked (opened {s = s} r) = open_func-Tracked s (Reached-Tracked r)
Reached-Tracked (accepted {s = s} info r) =
    Kept-Tracked s _ (on_connect-Kept info s) (Reached-Tracked r)
Reached-Tracked (refused {s = s} decoded r) = deregister-Tracked s (Reached-Tracked r)
Reached-Tracked (lost {s = s} r) = on_close-Tracked s (Reached-Tracked r)
Reached-Tracked (sent_away {s = s} r) =
    on_close-Tracked (deregister_sub_events s) (deregister-Tracked s (Reached-Tracked r))
Reached-Tracked (disconnected {s = s} manager r) = disconnect-Tracked manager s (Reached-Tracked r)

-- A socket on which `Connect` is called only while it is not active has, whatever else happened, its
-- functions registered with the manager once if it is active, and not at all if it is not.
pub Reached-registered :
    {s : ClientSocket} → Reached s → length s.registered ≡ (if s.active then 1 else 0)
Reached-registered {s = s} r =
    let v = Reached-Tracked r in
    ap length v.registered
    ∙ counted s.sub_deregister
    ∙ ap (λ active. if active then 1 else 0) (sym v.active)
  where
    counted : (sub : Option ℕ) → length (one_sub sub) ≡ (if is_some sub then 1 else 0)
    counted none = refl
    counted (some sub) = refl
