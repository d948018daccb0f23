-- ===== src/Server/Conn/Reach.antt =====
-- The states that a connection reaches, and what holds in all of them.
use Prim.Native.String.{String}
use socket_io.Base.{
  ◌≡◌, refl, sym, ap, ◌∙◌, arith, Bool, true, false, not, ◌&&◌, Option, none, some, List, length,
  ◌==◌, if◌then◌else◌, if-true, if-false, subst, Bool-cases, inl, inr, ◌||◌,
}
use socket_io.Base.Maps.{lookup, delete, lookup-insert, lookup-delete, str_eq, str_eq_iff, is_some}
use socket_io.Parser.Header.{PacketType}
use socket_io.Server.SocketStore.{
  ServerSocket, ServerSocketStore, get_and_remove_all, new_server_socket_store, get_by_id,
  get_by_nsp, remove_by_id,
}
use socket_io.Server.SocketStore.Consistent.{
  Consistent, get_by_nsp-set, get_by_nsp-remove_by_id, new_server_socket_store-Consistent,
  get_and_remove_all-Consistent, set-Consistent, remove_by_id-Consistent,
}
use socket_io.Server.Conn.{
  Server, ServerConn, Effect, Outcome, undecodable, denied, added, new_server_conn, on_close, close,
  join_namespace, connect_to, dispatch, root_if_empty, on_parser_finish, remove, disconnect_all,
  on_connect_timeout, is_connect, is_connect_error,
}

-- An id that is made is not one that a socket of the connection has.
abbrev pub IsFresh : ServerConn → Outcome → Type 0
IsFresh c undecodable = Unit {0}
IsFresh c denied = Unit {0}
IsFresh c (added id) = get_by_id id c.sockets ≡ none

-- Whether a goroutine has found no socket in the namespace, and will set one.
abbrev pub Joining : Type 0
Joining = String → Bool

abbrev pub none_joins : Joining
none_joins nsp = false

abbrev pub begins_joining : String → Joining → Joining
begins_joining nsp joining other = str_eq nsp other || joining other

abbrev pub ends_joining : String → Joining → Joining
ends_joining nsp joining other = not (str_eq nsp other) && joining other

-- The states that a connection reaches; the flag says whether all its sockets were disconnected by
-- `disconnectAll` on the way. A packet is handled in one step, or, if it asks for a namespace, in two
-- with any others in between, where no two packets ask for one namespace at a time. A socket that is
-- removed is one that the connection knows by its id, or it has an id that is not known.
pub data Reached : Bool → Joining → ServerConn → Type 0 where
  opened : Reached false none_joins new_server_conn
  received :
      {d : Bool} {j : Joining} {c : ServerConn} (server : Server) (t : PacketType) (nsp : String)
      (outcome : Outcome)
      → IsFresh c outcome
      → j (root_if_empty nsp) ≡ false
      → Reached d j c
      → Reached d j (on_parser_finish server c t nsp outcome).1.0
  began :
      {d : Bool} {j : Joining} {c : ServerConn} (nsp : String)
      → get_by_nsp nsp c.sockets ≡ none
      → j nsp ≡ false
      → Reached d j c
      → Reached d (begins_joining nsp j) c
  socket_set :
      {d : Bool} {j : Joining} {c : ServerConn} (nsp : String) (outcome : Outcome)
      → IsFresh c outcome
      → j nsp ≡ true
      → Reached d j c
      → Reached d (ends_joining nsp j) (join_namespace c nsp outcome).0
  removed :
      {d : Bool} {j : Joining} {c : ServerConn} (socket : ServerSocket)
      → ((other : ServerSocket) → get_by_id socket.id c.sockets ≡ some other → other ≡ socket)
      → Reached d j c
      → Reached d j (remove socket c)
  timed_out :
      {d : Bool} {j : Joining} {c : ServerConn}
      → Reached d j c
      → Reached d j (on_connect_timeout c).0
  lost : {d : Bool} {j : Joining} {c : ServerConn} → Reached d j c → Reached d j (on_close c).0
  closed_by_server :
      {d : Bool} {j : Joining} {c : ServerConn} → Reached d j c → Reached d j (close c).0
  disconnected :
      {d : Bool} {j : Joining} {c : ServerConn}
      → Reached d j c
      → Reached true j (disconnect_all c).0

-- The store is consistent; and while the connection is open and `disconnectAll` was not called, it
-- keeps the namespaces that it has a socket in.
pub record Inv (d : Bool) (c : ServerConn) : Type 0 where
  pub consistent : Consistent c.sockets
  pub joined :
      d ≡ false
      → c.closed ≡ false
      → (nsp : String) → is_some (lookup nsp c.nsps) ≡ is_some (get_by_nsp nsp c.sockets)

-- Both branches of a test have a property.
either : {A : Type 0} (P : A → Type 0) (b : Bool) {x y : A} → P x → P y → P (if b then x else y)
either P true px py = px
either P false px py = py

on_close-Inv : (d : Bool) (c : ServerConn) → Inv d c → Inv d (on_close c).0
unfolding on_close
on_close-Inv d c v =
    either (λ (r : ServerConn × List Effect). Inv d r.0) c.closed v
      (record { consistent = get_and_remove_all-Consistent c.sockets; joined = λ p q. cc })

close-Inv : (d : Bool) (c : ServerConn) → Inv d c → Inv d (close c).0
unfolding close
close-Inv d c v = on_close-Inv d c v

-- A key is there in both maps after an insertion into both, or in neither.
some_either :
    {A B : Type 0} (b : Bool) (x : A) (y : B) (o : Option A) (p : Option B)
    → is_some o ≡ is_some p
    → is_some (if b then some x else o) ≡ is_some (if b then some y else p)
some_either true x y o p e = refl
some_either false x y o p e = e

get_by_nsp-cleared :
    (nsp : String) (s : ServerSocketStore) → get_by_nsp nsp (get_and_remove_all s).1 ≡ none
unfolding get_and_remove_all get_by_nsp lookup
get_by_nsp-cleared nsp s = refl

none_either :
    {A B : Type 0} (b : Bool) (o : Option A) (p : Option B)
    → is_some o ≡ is_some p
    → is_some (if b then none else o) ≡ is_some (if b then none else p)
none_either true o p e = refl
none_either false o p e = e

join_namespace-Inv :
    (d : Bool) (c : ServerConn) (nsp : String) (outcome : Outcome)
    → IsFresh c outcome
    → get_by_nsp nsp c.sockets ≡ none
    → Inv d c
    → Inv d (join_namespace c nsp outcome).0
unfolding join_namespace
join_namespace-Inv d c nsp undecodable f free v = v
join_namespace-Inv d c nsp denied f free v = v
join_namespace-Inv d c nsp (added id) f free v = record {
  consistent = set-Consistent (record { id = id; nsp = nsp }) c.sockets v.consistent f free;
  joined = λ p q other.
      ap is_some (lookup-insert nsp other nsp c.nsps)
      ∙ some_either (str_eq nsp other) _ _ _ _ (v.joined p q other)
      ∙ sym (ap is_some (get_by_nsp-set (record { id = id; nsp = nsp }) other c.sockets));
}

remove_state :
    (c : ServerConn) (socket : ServerSocket)
    → remove socket c ≡ (
        if is_some (get_by_id socket.id c.sockets)
        then record c {
          sockets = remove_by_id socket.id c.sockets;
          nsps = delete socket.nsp c.nsps;
        }
        else c)
unfolding remove
remove_state c socket = refl

remove-Inv :
    (d : Bool) (c : ServerConn) (socket : ServerSocket)
    → ((other : ServerSocket) → get_by_id socket.id c.sockets ≡ some other → other ≡ socket)
    → Inv d c
    → Inv d (remove socket c)
remove-Inv d c socket known v = removed_or (get_by_id socket.id c.sockets) refl
  where
    removed_or :
        (o : Option ServerSocket) → get_by_id socket.id c.sockets ≡ o → Inv d (remove socket c)
    removed_or none e = subst (Inv d) (sym (remove_state c socket ∙ if-false _ (ap is_some e))) v
    removed_or (some other) e =
        let here : get_by_id socket.id c.sockets ≡ some socket = e ∙ ap some (known other e) in
        subst (Inv d) (sym (remove_state c socket ∙ if-true _ (ap is_some e))) (record {
          consistent = remove_by_id-Consistent socket.id c.sockets v.consistent;
          joined = λ p q nsp.
              ap is_some (lookup-delete socket.nsp nsp c.nsps)
              ∙ none_either (str_eq socket.nsp nsp) _ _ (v.joined p q nsp)
              ∙ sym (ap is_some (get_by_nsp-remove_by_id socket nsp c.sockets here));
        })

connect_to-Inv :
    (d : Bool) (server : Server) (c : ServerConn) (nsp : String) (outcome : Outcome)
    → IsFresh c outcome
    → get_by_nsp nsp c.sockets ≡ none
    → Inv d c
    → Inv d (connect_to server c nsp outcome).1.0
unfolding connect_to
connect_to-Inv d server c nsp outcome f free v =
    let joined = join_namespace-Inv d c nsp outcome f free v in
    either (λ (r : Server × (ServerConn × List Effect)). Inv d r.1.0) server.accept_any_namespace
      joined
      (either (λ (r : Server × (ServerConn × List Effect)). Inv d r.1.0)
        (is_some (lookup nsp server.namespaces)) joined v)

dispatch-Inv :
    (d : Bool) (server : Server) (c : ServerConn) (t : PacketType) (nsp : String)
    (outcome : Outcome) (o : Option ServerSocket)
    → get_by_nsp nsp c.sockets ≡ o
    → IsFresh c outcome
    → Inv d c
    → Inv d (dispatch server c t nsp outcome o).1.0
unfolding dispatch
dispatch-Inv d server c t nsp outcome none e f v =
    either (λ (r : Server × (ServerConn × List Effect)). Inv d r.1.0) (is_connect t)
      (connect_to-Inv d server c nsp outcome f e v) (close-Inv d c v)
dispatch-Inv d server c t nsp outcome (some socket) e f v =
    either (λ (r : Server × (ServerConn × List Effect)). Inv d r.1.0)
      (not (is_connect t) && not (is_connect_error t)) v (close-Inv d c v)

new_server_conn-Inv : Inv false new_server_conn
unfolding new_server_conn new_server_socket_store get_by_nsp lookup
new_server_conn-Inv = record {
  consistent = unfold new_server_socket_store in new_server_socket_store-Consistent;
  joined = λ p q nsp. refl;
}

disconnect_all-Inv : (c : ServerConn) (d : Bool) → Inv d c → Inv true (disconnect_all c).0
unfolding disconnect_all
disconnect_all-Inv c d v = record {
  consistent = get_and_remove_all-Consistent c.sockets;
  joined = λ p. cc;
}

-- A namespace that is joined has no socket yet.
abbrev pub Free : Joining → ServerConn → Type 0
Free j c = (nsp : String) → j nsp ≡ true → get_by_nsp nsp c.sockets ≡ none

contradiction : {b : Bool} → b ≡ true → b ≡ false → ⊥
contradiction p q = let e : true ≡ false = sym p ∙ q in cc

on_close-Free : (j : Joining) (c : ServerConn) → Free j c → Free j (on_close c).0
unfolding on_close
on_close-Free j c v =
    either (λ (r : ServerConn × List Effect). Free j r.0) c.closed v
      (λ nsp e. get_by_nsp-cleared nsp c.sockets)

-- A socket is set in a namespace that no other goroutine joins.
join_namespace-Free :
    (j : Joining) (c : ServerConn) (nsp : String) (outcome : Outcome)
    → ((other : String) → j other ≡ true → str_eq nsp other ≡ false)
    → Free j c
    → Free j (join_namespace c nsp outcome).0
unfolding join_namespace
join_namespace-Free j c nsp undecodable apart v = v
join_namespace-Free j c nsp denied apart v = v
join_namespace-Free j c nsp (added id) apart v = λ other e.
    get_by_nsp-set (record { id = id; nsp = nsp }) other c.sockets
    ∙ if-false _ (apart other e)
    ∙ v other e

both_none :
    {A : Type 0} (b : Bool)
    → (let nothing : Option A = none in (if b then nothing else nothing) ≡ nothing)
both_none true = refl
both_none false = refl

remove-Free :
    (j : Joining) (c : ServerConn) (socket : ServerSocket)
    → ((other : ServerSocket) → get_by_id socket.id c.sockets ≡ some other → other ≡ socket)
    → Free j c
    → Free j (remove socket c)
remove-Free j c socket known v = removed_or (get_by_id socket.id c.sockets) refl
  where
    removed_or :
        (o : Option ServerSocket) → get_by_id socket.id c.sockets ≡ o → Free j (remove socket c)
    removed_or none e = subst (Free j) (sym (remove_state c socket ∙ if-false _ (ap is_some e))) v
    removed_or (some other) e =
        let here : get_by_id socket.id c.sockets ≡ some socket = e ∙ ap some (known other e) in
        subst (Free j) (sym (remove_state c socket ∙ if-true _ (ap is_some e))) (λ nsp w.
          get_by_nsp-remove_by_id socket nsp c.sockets here
          ∙ ap (λ o. if str_eq socket.nsp nsp then none else o) (v nsp w)
          ∙ both_none (str_eq socket.nsp nsp))

dispatch-Free :
    (j : Joining) (server : Server) (c : ServerConn) (t : PacketType) (nsp : String)
    (outcome : Outcome) (o : Option ServerSocket)
    → j nsp ≡ false
    → Free j c
    → Free j (dispatch server c t nsp outcome o).1.0
unfolding dispatch connect_to close
dispatch-Free j server c t nsp outcome none f v =
    let set =
      join_namespace-Free j c nsp outcome
        (λ other e. elim (Bool-cases (str_eq nsp other)) [
          | inl same ↦ absurd (contradiction e (ap j (sym ((str_eq_iff nsp other).0 same)) ∙ f))
          | inr apart ↦ apart
        ])
        v in
    either (λ (r : Server × (ServerConn × List Effect)). Free j r.1.0) (is_connect t)
      (either (λ (r : Server × (ServerConn × List Effect)). Free j r.1.0)
        server.accept_any_namespace set
        (either (λ (r : Server × (ServerConn × List Effect)). Free j r.1.0)
          (is_some (lookup nsp server.namespaces)) set v))
      (on_close-Free j c v)
dispatch-Free j server c t nsp outcome (some socket) f v =
    either (λ (r : Server × (ServerConn × List Effect)). Free j r.1.0)
      (not (is_connect t) && not (is_connect_error t)) v (on_close-Free j c v)

Reached-Free : {d : Bool} {j : Joining} {c : ServerConn} → Reached d j c → Free j c
unfolding on_parser_finish on_connect_timeout close disconnect_all
Reached-Free opened = λ nsp e. absurd (contradiction refl (sym e))
Reached-Free {j = j} (received {c = c} server t nsp outcome f free r) =
    dispatch-Free j server c t (root_if_empty nsp) outcome _ free (Reached-Free r)
Reached-Free (began {j = j} {c = c} nsp free f r) = λ other e.
    elim (Bool-cases (str_eq nsp other)) [
      | inl same ↦ subst (λ n. get_by_nsp n c.sockets ≡ none) ((str_eq_iff nsp other).0 same) free
      | inr apart ↦ Reached-Free r other (ground (arith, apart, e))
    ]
Reached-Free (socket_set {j = j} {c = c} nsp outcome f w r) =
    join_namespace-Free (ends_joining nsp j) c nsp outcome (λ other e. ground (arith, e))
      (λ other e. Reached-Free r other (ground (arith, e)))
Reached-Free {j = j} (removed {c = c} socket known r) =
    remove-Free j c socket known (Reached-Free r)
Reached-Free {j = j} (timed_out {c = c} r) =
    either (λ (s : ServerConn × List Effect). Free j s.0) (length c.nsps == 0)
      (on_close-Free j c (Reached-Free r)) (Reached-Free r)
Reached-Free {j = j} (lost {c = c} r) = on_close-Free j c (Reached-Free r)
Reached-Free {j = j} (closed_by_server {c = c} r) = on_close-Free j c (Reached-Free r)
Reached-Free (disconnected {c = c} r) = λ nsp e. get_by_nsp-cleared nsp c.sockets

pub Reached-Inv : {d : Bool} {j : Joining} {c : ServerConn} → Reached d j c → Inv d c
unfolding on_parser_finish on_connect_timeout
Reached-Inv opened = new_server_conn-Inv
Reached-Inv {d = d} (received {c = c} server t nsp outcome f free r) =
    dispatch-Inv d server c t (root_if_empty nsp) outcome _ refl f (Reached-Inv r)
Reached-Inv (began nsp free f r) = Reached-Inv r
Reached-Inv {d = d} (socket_set {c = c} nsp outcome f w r) =
    join_namespace-Inv d c nsp outcome f (Reached-Free r nsp w) (Reached-Inv r)
Reached-Inv {d = d} (removed {c = c} socket known r) = remove-Inv d c socket known (Reached-Inv r)
Reached-Inv {d = d} (timed_out {c = c} r) =
    either (λ (s : ServerConn × List Effect). Inv d s.0) (length c.nsps == 0)
      (close-Inv d c (Reached-Inv r)) (Reached-Inv r)
Reached-Inv {d = d} (lost {c = c} r) = on_close-Inv d c (Reached-Inv r)
Reached-Inv {d = d} (closed_by_server {c = c} r) = close-Inv d c (Reached-Inv r)
Reached-Inv (disconnected {d = d} {c = c} r) = disconnect_all-Inv c d (Reached-Inv r)
