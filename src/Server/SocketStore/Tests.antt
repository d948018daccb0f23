-- ===== src/Server/SocketStore/Tests.antt =====
-- The store at two sockets of one namespace.
use socket_io.Base.{◌≡◌, refl, false}
use socket_io.Base.Maps.{str_eq}
use socket_io.Server.SocketStore.{ServerSocket}

abbrev first : ServerSocket
first = record { id = "1"; nsp = "/chat" }

abbrev second : ServerSocket
second = record { id = "2"; nsp = "/chat" }

apart : str_eq first.id second.id ≡ false
unfolding str_eq
apart = refl
