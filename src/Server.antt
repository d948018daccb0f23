-- ===== src/Server.antt =====
-- A connection to the server and its sockets (server_conn.go, and the socket stores of store.go), and
-- the sockets of a namespace (server_socket.go, namespace.go).
pub mod SocketStore
pub mod Conn
pub mod Dispatch
pub mod Wire
pub mod Namespace
