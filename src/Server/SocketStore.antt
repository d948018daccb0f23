-- ===== src/Server/SocketStore.antt =====
-- `serverSocketStore` of store.go: the sockets of a connection, by their ids and by their namespaces.
-- Of a socket only these two are kept.
pub mod Consistent
mod Tests
use Prim.Native.String.{String}
use socket_io.Base.{Option, none, some, List, [], ◌∷◌}
use socket_io.Base.Maps.{StringMap, lookup, insert, delete}

pub record ServerSocket : Type 0 where
  pub id : String
  pub nsp : String

pub record ServerSocketStore : Type 0 where
  pub sockets_by_id : StringMap ServerSocket
  pub sockets_by_nsp : StringMap ServerSocket

unfoldable pub new_server_socket_store : ServerSocketStore
new_server_socket_store = record { sockets_by_id = []; sockets_by_nsp = [] }

unfoldable pub get_by_id : String → ServerSocketStore → Option ServerSocket
get_by_id sid s = lookup sid s.sockets_by_id

unfoldable pub get_by_nsp : String → ServerSocketStore → Option ServerSocket
get_by_nsp nsp s = lookup nsp s.sockets_by_nsp

pub sockets_of : StringMap ServerSocket → List ServerSocket
sockets_of [] = []
sockets_of ((key, socket) ∷ sockets) = socket ∷ sockets_of sockets

unfoldable pub get_all : ServerSocketStore → List ServerSocket
unfolding sockets_of
get_all s = sockets_of s.sockets_by_id

unfoldable pub get_and_remove_all : ServerSocketStore → List ServerSocket × ServerSocketStore
unfolding sockets_of
get_and_remove_all s =
    (sockets_of s.sockets_by_id, record { sockets_by_id = []; sockets_by_nsp = [] })

unfoldable pub set : ServerSocket → ServerSocketStore → ServerSocketStore
set socket s = record {
  sockets_by_id = insert socket.id socket s.sockets_by_id;
  sockets_by_nsp = insert socket.nsp socket s.sockets_by_nsp;
}

unfoldable pub remove_by_id : String → ServerSocketStore → ServerSocketStore
remove_by_id sid s = elim (lookup sid s.sockets_by_id) [
  | none ↦ s
  | some socket ↦ record {
    sockets_by_id = delete sid s.sockets_by_id;
    sockets_by_nsp = delete socket.nsp s.sockets_by_nsp;
  }
]
