-- ===== src/Server/Conn.antt =====
-- server_conn.go: what a connection does with the packets of its client. A namespace is its name, and
-- of what `Namespace.add` and the decoding of the client's data come to, only the outcome is given.
-- Each of these calls is one step. A goroutine that joins a namespace may be stopped between its look at
-- the store and `join_namespace` (Conn.Reach).
pub mod Reach
mod Tests
use Prim.Native.String.{String}
use socket_io.Base.{
  ℕ, Bool, true, false, not, ◌&&◌, Option, none, some, List, [], ◌∷◌, ◌++◌, length, map, ◌==◌,
  if◌then◌else◌,
}
use socket_io.Base.Maps.{StringMap, lookup, insert, delete, str_eq, is_some}
use socket_io.Parser.Header.{PacketType, connect, connect_error}
use socket_io.Server.SocketStore.{
  ServerSocket, ServerSocketStore, new_server_socket_store, get_by_id, get_by_nsp, get_all,
  get_and_remove_all, set, remove_by_id,
}

-- `nspStore` of store.go.
abbrev pub NspStore : Type 0
NspStore = StringMap String

unfoldable pub get_or_create : String → NspStore → NspStore
get_or_create name nsps = elim (lookup name nsps) [ none ↦ insert name name nsps | some nsp ↦ nsps ]

-- What the connection reads of the server.
pub record Server : Type 0 where
  pub accept_any_namespace : Bool
  pub namespaces : NspStore

pub record ServerConn : Type 0 where
  pub sockets : ServerSocketStore
  pub nsps : NspStore
  pub closed : Bool

-- What the connection does outside its own state.
pub data Effect : Type 0 where
  sends_connect_error : String → Effect
  gives_packet : ServerSocket → PacketType → Effect
  calls_on_error calls_on_close calls_disconnect : ServerSocket → Effect
  closes_engine closes_packet_queue resets_parser : Effect

-- The client's data cannot be decoded, the namespace turns the client down, or a socket is made with
-- this id.
pub data Outcome : Type 0 where
  undecodable denied : Outcome
  added : String → Outcome

unfoldable pub new_server_conn : ServerConn
new_server_conn = record { sockets = new_server_socket_store; nsps = []; closed = false }

unfoldable pub on_fatal_error : ServerConn → List Effect
on_fatal_error c = map calls_on_error (get_all c.sockets) ++ (closes_engine ∷ [])

unfoldable pub on_close : ServerConn → ServerConn × List Effect
on_close c =
    let (sockets, store) = get_and_remove_all c.sockets in
    if c.closed then (c, []) else (
      record c { sockets = store; closed = true },
      map calls_on_close sockets ++ (closes_packet_queue ∷ resets_parser ∷ []),
    )

unfoldable pub close : ServerConn → ServerConn × List Effect
close c = let (c', effects) = on_close c in (c', closes_engine ∷ closes_packet_queue ∷ effects)

pub join_namespace : ServerConn → String → Outcome → ServerConn × List Effect
join_namespace c nsp undecodable = (c, on_fatal_error c)
join_namespace c nsp denied = (c, sends_connect_error nsp ∷ [])
join_namespace c nsp (added id) = (
  record c {
    sockets = set (record { id = id; nsp = nsp }) c.sockets;
    nsps = insert nsp nsp c.nsps;
  },
  [],
)

-- `connect`; the server's namespaces are changed where it creates one.
unfoldable pub connect_to :
    Server → ServerConn → String → Outcome → Server × (ServerConn × List Effect)
unfolding join_namespace
connect_to server c nsp outcome =
    if server.accept_any_namespace
    then (
      record server { namespaces = get_or_create nsp server.namespaces },
      join_namespace c nsp outcome,
    )
    else if is_some (lookup nsp server.namespaces)
    then (server, join_namespace c nsp outcome)
    else (server, (c, sends_connect_error nsp ∷ []))

abbrev pub is_connect : PacketType → Bool
is_connect connect = true
is_connect _ = false

abbrev pub is_connect_error : PacketType → Bool
is_connect_error connect_error = true
is_connect_error _ = false

pub root_if_empty : String → String
root_if_empty nsp = if str_eq nsp "" then "/" else nsp

-- The choice in `onParserFinish`, by the socket that the namespace has.
pub dispatch :
    Server
    → ServerConn
    → PacketType
    → String
    → Outcome
    → Option ServerSocket
    → Server × (ServerConn × List Effect)
dispatch server c t nsp outcome none =
    if is_connect t then connect_to server c nsp outcome else (server, close c)
dispatch server c t nsp outcome (some socket) =
    if not (is_connect t) && not (is_connect_error t)
    then (server, (c, gives_packet socket t ∷ []))
    else (server, close c)

unfoldable pub on_parser_finish :
    Server → ServerConn → PacketType → String → Outcome → Server × (ServerConn × List Effect)
unfolding dispatch root_if_empty
on_parser_finish server c t nsp outcome =
    let name = root_if_empty nsp in dispatch server c t name outcome (get_by_nsp name c.sockets)

unfoldable pub remove : ServerSocket → ServerConn → ServerConn
remove socket c =
    if is_some (get_by_id socket.id c.sockets)
    then record c { sockets = remove_by_id socket.id c.sockets; nsps = delete socket.nsp c.nsps }
    else c

unfoldable pub disconnect_all : ServerConn → ServerConn × List Effect
disconnect_all c =
    let (sockets, store) = get_and_remove_all c.sockets in
    (record c { sockets = store }, map calls_disconnect sockets)

-- The check after `connectTimeout`.
unfoldable pub on_connect_timeout : ServerConn → ServerConn × List Effect
on_connect_timeout c = if length c.nsps == 0 then close c else (c, [])
