-- ===== src/Server/Namespace/Denied.antt =====
-- What adding a socket comes to, and a socket that is closed too early.
use Prim.Native.String.{String}
use socket_io.Base.{
  ◌≡◌, refl, sym, ap, ◌∙◌, Bool, true, false, not, ◌&&◌, ◌||◌, Option, none, some, List, [], ◌∷◌,
  if◌then◌else◌, subst, if-true, if-false,
}
use socket_io.Base.Maps.{lookup, insert, str_eq_refl, str_elem, lookup-insert}
use socket_io.Adapter.Sets.{Sets, Room}
use socket_io.Adapter.Memory.{InMemoryAdapter, add_all}
use socket_io.Adapter.Memory.Lemmas.{has}
use socket_io.Adapter.Memory.Invariant.{Inv}
use socket_io.Adapter.Memory.Runs.{
  adds_all, step, step-view, step-Inv, spec_step, spec_add_all, Membership,
}
use socket_io.Server.Namespace.{
  Socket, Session, Recovery, Reason, Nsp, Effect, join, new_server_socket, on_connect, do_connect,
  add, on_close,
}

either :
    {A : Type 0} (P : A → Type 0) (b : Bool) {x y : A}
    → (b ≡ true → P x)
    → (b ≡ false → P y)
    → P (if b then x else y)
either P true px py = px refl
either P false px py = py refl

module _ (S : Sets) where
  open S use {Set}

  add_all-has :
      (sid : String) (rooms : List Room) (a : InMemoryAdapter Set) (room : Room)
      → Inv S a
      → has S room sid (add_all S sid rooms a).rooms
        ≡ (str_elem room rooms || has S room sid a.rooms)
  unfolding step spec_step spec_add_all
  add_all-has sid rooms a room v =
      ap (λ (m : Membership). m.joined sid room) (step-view S (adds_all sid rooms) a v)
      ∙ ap (λ b. (b && str_elem room rooms) || has S room sid a.rooms) (str_eq_refl sid)

  join-has :
      (rooms : List Room) (s : Socket) (n : Nsp Set) (room : Room)
      → s.can_join ≡ true
      → Inv S n.adapter
      → has S room s.id (join S rooms s n).adapter.rooms
        ≡ (str_elem room rooms || has S room s.id n.adapter.rooms)
  unfolding join
  join-has rooms s n room e v =
      ap (λ (m : Nsp Set). has S room s.id m.adapter.rooms) (if-true _ e)
      ∙ add_all-has s.id rooms n.adapter room v

  -- A socket that has joined its namespace.
  pub record Joined (s : Socket) (n : Nsp Set) : Type 0 where
    pub connected : s.connected ≡ true
    pub found : lookup s.id n.sockets ≡ some s.id
    pub own_room : has S s.id s.id n.adapter.rooms ≡ true

  self_elem : (id : String) → str_elem id (id ∷ []) ≡ true
  unfolding str_elem
  self_elem id = ap (λ b. b || false) (str_eq_refl id)

  join-sockets :
      (rooms : List Room) (s : Socket) (n : Nsp Set) → (join S rooms s n).sockets ≡ n.sockets
  unfolding join
  join-sockets rooms s n =
      either (λ (m : Nsp Set). m.sockets ≡ n.sockets) s.can_join (λ _. refl) (λ _. refl)

  do_connect-Joined :
      (s : Socket) (n : Nsp Set)
      → s.can_join ≡ true
      → Inv S n.adapter
      → Joined (do_connect S s n).0 (do_connect S s n).1.0
  unfolding do_connect on_connect
  do_connect-Joined s n e v =
      let known = record n { sockets = insert s.id s.id n.sockets } in
      record {
        connected = refl;
        found =
            ap (lookup s.id) (join-sockets (s.id ∷ []) s known)
            ∙ lookup-insert s.id s.id s.id n.sockets
            ∙ if-true _ (str_eq_refl s.id);
        own_room =
            join-has (s.id ∷ []) s known s.id e v
            ∙ ap (λ b. b || has S s.id s.id n.adapter.rooms) (self_elem s.id);
      }

  -- The socket that is made can join, and its namespace keeps a good adapter.
  record Made (r : Socket × (Nsp Set × List Effect)) : Type 0 where
    can_join : r.0.can_join ≡ true
    adapter : Inv S r.1.0.adapter

  new_server_socket-Made :
      (recovery : Recovery) (session : Option Session) (id pid : String) (n : Nsp Set)
      → Inv S n.adapter
      → Made (new_server_socket S recovery session id pid n)
  unfolding new_server_socket join step
  new_server_socket-Made recovery none id pid n v = record { can_join = refl; adapter = v }
  new_server_socket-Made recovery (some session) id pid n v = record {
    can_join = refl;
    adapter = step-Inv S (adds_all session.sid session.rooms) n.adapter v;
  }

  -- What `add` comes to.
  abbrev pub Added : Option Socket × (Nsp Set × List Effect) → Type 0
  Added (none, r) = Unit {0}
  Added (some s, r) = Joined s r.0

  -- Whenever a namespace returns a socket, for a restored session or a new one, through its
  -- middlewares or around them, that socket is connected, the namespace has it, and it is in its own
  -- room.
  pub add-Joined :
      (recovery : Recovery) (session : Option Session) (id pid : String) (accepts : Bool)
      (n : Nsp Set)
      → Inv S n.adapter
      → Added (add S recovery session id pid accepts n)
  unfolding add
  add-Joined recovery session id pid accepts n v =
      let made = new_server_socket S recovery session id pid n in
      let good = new_server_socket-Made recovery session id pid n v in
      let joined = do_connect-Joined made.0 made.1.0 good.can_join good.adapter in
      either Added (recovery.enabled && (not recovery.use_middlewares && made.0.recovered))
        (λ _. joined) (λ _. either Added accepts (λ _. joined) (λ _. tt))

  -- Where middlewares are asked about restored sockets too, and one turns away a socket that was
  -- restored from a session, there is no socket and the namespace gets none, but the socket's id is in
  -- the rooms of the session, besides those that it was in before.
  pub add-turned_away :
      (recovery : Recovery) (session : Session) (id pid : String) (n : Nsp Set) (room : Room)
      → Inv S n.adapter
      → recovery.use_middlewares ≡ true
      → let r = add S recovery (some session) id pid false n in
        (r.0 ≡ none)
        × ((r.1.0.sockets ≡ n.sockets)
            × (has S room session.sid r.1.0.adapter.rooms
                ≡ (str_elem room session.rooms || has S room session.sid n.adapter.rooms)))
  unfolding add new_server_socket join
  add-turned_away recovery session id pid n room v e =
      subst
        (λ (r : Option Socket × (Nsp Set × List Effect)).
          (r.0 ≡ none)
          × ((r.1.0.sockets ≡ n.sockets)
              × (has S room session.sid r.1.0.adapter.rooms
                  ≡ (str_elem room session.rooms || has S room session.sid n.adapter.rooms))))
        (sym (if-false _ (through recovery.enabled recovery.use_middlewares e)))
        (refl, (refl, add_all-has session.sid session.rooms n.adapter room v))
    where
      through : (p q : Bool) → q ≡ true → (p && (not q && true)) ≡ false
      through true true f = refl
      through true false f = sym f
      through false q f = refl

  closed_early :
      (recovery : Recovery) (reason : Reason) (s : Socket) (n : Nsp Set)
      → s.connected ≡ false
      → s.closed ≡ false
      → on_close S recovery reason s n ≡ (record s { closed = true }, (n, []))
  unfolding on_close
  closed_early recovery reason s n c o = if-false _ o ∙ if-true _ (ap not c)

  stays :
      (recovery : Recovery) (reason : Reason) (s : Socket) (n : Nsp Set)
      → s.closed ≡ true
      → on_close S recovery reason s n ≡ (s, (n, []))
  unfolding on_close
  stays recovery reason s n c = if-true _ c

  -- If a socket is closed before it is connected, it cannot be closed any more: after `doConnect` a
  -- further call changes nothing, and it stays connected, in its namespace and in its own room.
  pub on_close-too_early :
      (recovery : Recovery) (first second : Reason) (s : Socket) (n : Nsp Set)
      → s.connected ≡ false
      → s.closed ≡ false
      → s.can_join ≡ true
      → Inv S n.adapter
      → let early = on_close S recovery first s n in
        let late = do_connect S early.0 early.1.0 in
        (on_close S recovery second late.0 late.1.0 ≡ (late.0, (late.1.0, [])))
        × Joined late.0 late.1.0
  unfolding do_connect on_connect
  on_close-too_early recovery first second s n c o j v =
      let early = closed_early recovery first s n c o in
      subst
        (λ (r : Socket × (Nsp Set × List Effect)).
          let late = do_connect S r.0 r.1.0 in
          (on_close S recovery second late.0 late.1.0 ≡ (late.0, (late.1.0, [])))
          × Joined late.0 late.1.0)
        (sym early)
        (
          stays recovery second (record s { connected = true; closed = true }) _ refl,
          do_connect-Joined (record s { closed = true }) n j v,
        )
