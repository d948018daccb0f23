-- ===== src/EngineIo/Server/Serves.antt =====
-- What a request does to the sockets that are there, and who gets a new one.
use Prim.Native.String.{String}
use socket_io.Base.{◌≡◌, refl, sym, ap, ◌∙◌, true, none, some, List, subst, if-true}
use socket_io.Base.Maps.{lookup, str_eq, str_eq_refl, is_some, lookup-delete}
use socket_io.EngineIo.Server.{Server, Request, Response, internal_error, new_socket}

-- An id that is drawn is not one that a socket has.
abbrev pub IsFresh : Request → Server → Type 0
IsFresh r s = (sid : String) → r.drawn ≡ some sid → lookup sid s.store ≡ none

-- The sockets that were in the store are in it with the same transports.
abbrev pub Keeps : Server → Server × Response → Type 0
Keeps s r = (sid name : String) → lookup sid s.store ≡ some name → lookup sid r.0.store ≡ some name

-- The socket with this id is closed by the transport that serves the request.
abbrev pub Closes : Request → String → Type 0
Closes r sid = (r.closes ≡ true) × (str_eq r.sid sid ≡ true)

-- Where two handshakes have drawn the same id, the second does not only fail: the socket of the first
-- is no longer found.
pub new_socket-overlap :
    (sid name first : String) (upgrades : List String) (s : Server)
    → lookup sid s.store ≡ some first
    → ((new_socket sid name upgrades s).1 ≡ internal_error)
      × (lookup sid (new_socket sid name upgrades s).0.store ≡ none)
unfolding new_socket
new_socket-overlap sid name first upgrades s e =
    subst (λ (r : Server × Response). (r.1 ≡ internal_error) × (lookup sid r.0.store ≡ none))
      (sym (if-true _ (ap is_some e)))
      (refl, lookup-delete sid sid s.store ∙ if-true _ (str_eq_refl sid))
