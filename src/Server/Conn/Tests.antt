-- ===== src/Server/Conn/Tests.antt =====
-- A connection that joins a namespace, gives its socket a packet, and is refused another namespace.
use Prim.Native.String.{String}
use socket_io.Base.{◌≡◌, refl, false, [], ◌∷◌}
use socket_io.Base.Maps.{lookup, insert, str_eq}
use socket_io.Parser.Header.{connect, event}
use socket_io.Server.SocketStore.{ServerSocket, get_by_nsp, set, new_server_socket_store}
use socket_io.Server.Conn.{
  Server, ServerConn, gives_packet, sends_connect_error, added, denied, join_namespace,
  new_server_conn, connect_to, on_parser_finish,
}

abbrev server : Server
server = record { accept_any_namespace = false; namespaces = ("/chat", "/chat") ∷ [] }

abbrev socket : ServerSocket
socket = record { id = "s"; nsp = "/chat" }

abbrev in_chat : ServerConn
in_chat = (on_parser_finish server new_server_conn connect "/chat" (added "s")).1.0

gives_event :
    (on_parser_finish server in_chat event "/chat" (added "t")).1.1 ≡ gives_packet socket event ∷ []
unfolding on_parser_finish new_server_conn new_server_socket_store get_by_nsp lookup str_eq
    connect_to set insert
gives_event = refl

refuses_namespace :
    (on_parser_finish server in_chat connect "/news" (added "t")).1.1
    ≡ sends_connect_error "/news" ∷ []
unfolding on_parser_finish new_server_conn new_server_socket_store get_by_nsp lookup str_eq
    connect_to set insert
refuses_namespace = refl

-- The goroutine that joins "/chat" is overtaken by the handling of another packet.
abbrev overtaken : ServerConn
overtaken = (on_parser_finish server new_server_conn connect "/news" denied).1.0

abbrev set_late : ServerConn
set_late = (join_namespace overtaken "/chat" (added "s")).0
