-- ===== src/Server/Namespace.antt =====
-- namespace.go and server_socket.go: a socket of a namespace, from its making to its closing, with the
-- namespace's sockets and its adapter, which is the one in memory. The ids that are drawn, a session
-- that is restored and what the middlewares say are given.
pub mod Denied
pub mod Left
pub mod Nowhere
pub mod Reach
mod Tests
use Prim.Native.String.{String}
use socket_io.Base.{
  ℕ, ◌+◌, ◌%◌, ◌^◌, Bool, true, false, not, ◌&&◌, Option, none, some, List, [], ◌∷◌, ◌++◌,
  if◌then◌else◌,
}
use socket_io.Base.Maps.{StringMap, lookup, insert, delete, is_some}
use socket_io.Adapter.Sets.{Sets, Room, SocketId}
use socket_io.Adapter.Memory.{
  InMemoryAdapter, new_adapter, add_all, delete_room, delete_all, socket_rooms,
}

pub data Reason : Type 0 where
  io_server_disconnect io_client_disconnect : Reason
  forced_close transport_close transport_error ping_timeout parse_error : Reason
  server_shutting_down forced_server_close : Reason
  client_namespace_disconnect server_namespace_disconnect : Reason

-- `recoverableDisconnectReasons`.
abbrev pub is_recoverable : Reason → Bool
is_recoverable transport_error = true
is_recoverable transport_close = true
is_recoverable forced_close = true
is_recoverable ping_timeout = true
is_recoverable server_shutting_down = true
is_recoverable forced_server_close = true
is_recoverable _ = false

-- `closed` says whether `closeOnce` was used, `can_join` whether `join` is still the first one.
pub record Socket : Type 0 where
  pub id : String
  pub pid : String
  pub recovered : Bool
  pub connected : Bool
  pub closed : Bool
  pub can_join : Bool

-- A session that was restored, with the number of packets that were missed.
pub record Session : Type 0 where
  pub sid : String
  pub pid : String
  pub rooms : List Room
  pub missed : ℕ

pub data Effect : Type 0 where
  resends : ℕ → Effect
  sends_connect : String → String → Effect
  sends_disconnect calls_connection : Effect
  calls_disconnecting calls_disconnect : Reason → Effect
  persists_session : String → String → List Room → Effect
  leaves_connection : String → Effect

-- `connectionStateRecovery` of the server.
pub record Recovery : Type 0 where
  pub enabled : Bool
  pub use_middlewares : Bool

pub record Nsp (Set : Type 0) : Type 0 where
  pub sockets : StringMap String
  pub adapter : InMemoryAdapter Set
  pub ack_id : ℕ

module _ (S : Sets) where
  open S use {Set, each}

  unfoldable pub new_namespace : Nsp Set
  new_namespace = record { sockets = []; adapter = new_adapter S; ack_id = 0 }

  -- `Join` behind its read of `s.join`, under a lock that it has left then.
  abbrev pub call_join : Bool → List Room → Socket → Nsp Set → Nsp Set
  call_join can_join rooms s n =
      if can_join then record n { adapter = add_all S s.id rooms n.adapter } else n

  -- `Join` where nothing comes in between.
  unfoldable pub join : List Room → Socket → Nsp Set → Nsp Set
  join rooms s n = call_join s.can_join rooms s n

  unfoldable pub leave : Room → Socket → Nsp Set → Nsp Set
  leave room s n = record n { adapter = delete_room S s.id room n.adapter }

  -- The private id is drawn where recovery is enabled.
  unfoldable pub new_server_socket :
      Recovery → Option Session → String → String → Nsp Set → Socket × (Nsp Set × List Effect)
  unfolding join
  new_server_socket recovery none id pid n = (
    record {
      id = id;
      pid = if recovery.enabled then pid else "";
      recovered = false;
      connected = false;
      closed = false;
      can_join = true;
    },
    (n, []),
  )
  new_server_socket recovery (some session) id pid n =
      let s : Socket = record {
        id = session.sid;
        pid = session.pid;
        recovered = true;
        connected = false;
        closed = false;
        can_join = true;
      } in
      (s, (join session.rooms s n, resends session.missed ∷ []))

  unfoldable pub on_connect : Socket → Nsp Set → Socket × (Nsp Set × List Effect)
  unfolding join
  on_connect s n =
      (record s { connected = true }, (join (s.id ∷ []) s n, sends_connect s.id s.pid ∷ []))

  unfoldable pub do_connect : Socket → Nsp Set → Socket × (Nsp Set × List Effect)
  unfolding on_connect
  do_connect s n =
      let (s', (n', effects)) = on_connect s (record n { sockets = insert s.id s.id n.sockets }) in
      (s', (n', effects ++ (calls_connection ∷ [])))

  -- `add`, the session being one only where recovery is enabled; `accepts` says whether all middlewares
  -- let the socket pass. There is no socket where they do not.
  unfoldable pub add :
      Recovery
      → Option Session
      → String
      → String
      → Bool
      → Nsp Set
      → Option Socket × (Nsp Set × List Effect)
  unfolding new_server_socket do_connect
  add recovery session id pid accepts n =
      let (s, (n', effects)) = new_server_socket recovery session id pid n in
      let (s', (n'', more)) = do_connect s n' in
      if (recovery.enabled && (not recovery.use_middlewares && s.recovered))
      then (some s', (n'', effects ++ more))
      else if accepts
      then (some s', (n'', effects ++ more))
      else (none, (n', effects))

  unfoldable pub remove : Socket → Nsp Set → Nsp Set
  remove s n =
      if is_some (lookup s.id n.sockets) then record n { sockets = delete s.id n.sockets } else n

  unfoldable pub next_ack_id : Nsp Set → Nsp Set × ℕ
  next_ack_id n = (record n { ack_id = (n.ack_id + 1) % 2 ^ 64 }, n.ack_id)

  -- The rooms that are persisted.
  unfoldable pub rooms_of : Socket → Nsp Set → List Room
  rooms_of s n = elim (socket_rooms S s.id n.adapter) [ none ↦ [] | some rooms ↦ each rooms ]

  -- What `closeOnce` runs.
  unfoldable pub close_connected :
      Recovery → Reason → Socket → Nsp Set → Socket × (Nsp Set × List Effect)
  unfolding remove rooms_of
  close_connected recovery reason s n = (
    record s { connected = false; closed = true; can_join = false },
    (
      remove s (record n { adapter = delete_all S s.id n.adapter }),
      calls_disconnecting reason
          ∷ ((if recovery.enabled && is_recoverable reason
                then persists_session s.id s.pid (rooms_of s n) ∷ []
                else [])
              ++ (leaves_connection s.id ∷ calls_disconnect reason ∷ [])),
    ),
  )

  unfoldable pub on_close : Recovery → Reason → Socket → Nsp Set → Socket × (Nsp Set × List Effect)
  unfolding close_connected
  on_close recovery reason s n =
      if s.closed
      then (s, (n, []))
      else if not s.connected
      then (record s { closed = true }, (n, []))
      else close_connected recovery reason s n

  -- `Disconnect(false)`.
  unfoldable pub disconnect : Recovery → Socket → Nsp Set → Socket × (Nsp Set × List Effect)
  unfolding on_close
  disconnect recovery s n =
      let (s', (n', effects)) = on_close recovery server_namespace_disconnect s n in
      if not s.connected then (s, (n, [])) else (s', (n', sends_disconnect ∷ effects))
