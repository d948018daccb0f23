-- ===== src/EngineIo/Server/Tests.antt =====
-- A server with one socket.
use Prim.Native.String.{String}
use socket_io.Base.{◌*◌, ◌≡◌, refl, true, false, none, some, [], ◌∷◌}
use socket_io.Base.Maps.{lookup, delete, str_eq}
use socket_io.EngineIo.Server.{
  Server, Request, get_method, connect_method, new_server, run, poll_timeout, opens, internal_error,
  new_socket, serve_http, begins_upgrade, second,
}
use socket_io.EngineIo.Server.Authenticated.{is_opened, serve_http-unauthenticated}
use socket_io.EngineIo.Server.Serves.{new_socket-overlap}

abbrev empty : Server
empty = new_server (record {
  ping_interval = 0;
  ping_timeout = 0;
  upgrade_timeout = 0;
  max_buffer_size = 0;
  disable_max_buffer_size = false;
  web_transport_server = true;
})

run-defaults : run empty ≡ none
unfolding run new_server
run-defaults = refl

poll_timeout-defaults : poll_timeout empty ≡ 45 * second
unfolding poll_timeout new_server
poll_timeout-defaults = refl

abbrev server : Server
server = record empty { store = ("a", "polling") ∷ [] }

abbrev handshake : Request
handshake = record {
  proto_major = 1;
  version = some 4;
  sid = "";
  transport = "websocket";
  method = get_method;
  authenticated = true;
  drawn = some "b";
  handshakes = true;
  web_transport_sid = "";
  closes = false;
}

abbrev turned_down : Request
turned_down = record handshake { authenticated = false }

opens-handshake : (serve_http handshake server).1 ≡ opens "b" "websocket" ("webtransport" ∷ [])
unfolding serve_http new_server lookup str_eq
opens-handshake = refl

begins-upgrade :
    (serve_http (record handshake { sid = "a" }) server).1 ≡ begins_upgrade "a" "websocket"
unfolding serve_http new_server lookup str_eq
begins-upgrade = refl

-- The authenticator is not asked.
opens-web_transport :
    (serve_http
      (record turned_down { proto_major = 3; transport = ""; method = connect_method })
      server).1
    ≡ opens "b" "webtransport" []
unfolding serve_http new_server lookup str_eq
opens-web_transport = refl

-- A request of one socket, whose transport closes it.
abbrev last_post : Request
last_post = record handshake { drawn = none; sid = "b"; transport = "polling"; closes = true }

abbrev two_sockets : Server
two_sockets = record empty { store = ("a", "polling") ∷ ("b", "polling") ∷ [] }

leaves-b : lookup "b" (serve_http last_post two_sockets).0.store ≡ none
unfolding serve_http new_server lookup delete str_eq
leaves-b = refl

new_socket-overlap_example :
    ((new_socket "a" "websocket" [] server).1 ≡ internal_error)
    × (lookup "a" (new_socket "a" "websocket" [] server).0.store ≡ none)
unfolding lookup str_eq
new_socket-overlap_example = new_socket-overlap "a" "websocket" "polling" [] server refl

serve_http-unauthenticated_example : is_opened (serve_http turned_down server).1 ≡ false
serve_http-unauthenticated_example = serve_http-unauthenticated turned_down server refl refl
