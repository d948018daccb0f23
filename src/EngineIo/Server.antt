-- ===== src/EngineIo/Server.antt =====
-- engine.io/server.go: what the server does with a request. Of a transport there is its name; what its
-- handshake, the authenticator and crypto/rand come to is given with the request.
pub mod Authenticated
pub mod Serves
mod Tests
use Prim.Native.String.{String}
use socket_io.Base.{
  ℕ, ◌+◌, ◌*◌, Bool, true, false, not, ◌&&◌, ◌||◌, ◌==◌, ltb, Option, none, some, List, [], ◌∷◌,
  ◌++◌, if◌then◌else◌, Result, ok, err,
}
use socket_io.Base.Maps.{StringMap, lookup, insert, delete, str_eq, str_elem, is_some}
use socket_io.EngineIo.Packet.{Packet, PacketType, ping, pong, upgrade, noop}

-- Durations in nanoseconds, not negative.
pub record ServerConfig : Type 0 where
  pub ping_interval : ℕ
  pub ping_timeout : ℕ
  pub upgrade_timeout : ℕ
  pub max_buffer_size : ℕ
  pub disable_max_buffer_size : Bool
  pub web_transport_server : Bool  -- whether there is one

-- `store` has the names of the sockets' transports.
pub record Server : Type 0 where
  pub ping_interval : ℕ
  pub ping_timeout : ℕ
  pub upgrade_timeout : ℕ
  pub max_buffer_size : ℕ
  pub web_transport_server : Bool
  pub closed : Bool
  pub store : StringMap String

abbrev pub second : ℕ
second = 1_000_000_000

abbrev pub or_default : ℕ → ℕ → ℕ
or_default n default_value = if n == 0 then default_value else n

-- The defaults are those of engine.io/constants.go.
unfoldable pub new_server : ServerConfig → Server
new_server config = record {
  ping_interval = or_default config.ping_interval (25 * second);
  ping_timeout = or_default config.ping_timeout (20 * second);
  upgrade_timeout = or_default config.upgrade_timeout (10 * second);
  max_buffer_size =
      if config.disable_max_buffer_size then 0 else or_default config.max_buffer_size 1_000_000;
  web_transport_server = config.web_transport_server;
  closed = false;
  store = [];
}

-- `Run` refuses a server that was closed, and durations below a second.
pub data RunError : Type 0 where
  is_closed short_ping_interval short_ping_timeout short_upgrade_timeout : RunError

unfoldable pub run : Server → Option RunError
run s =
    if s.closed
    then some is_closed
    else if ltb s.ping_interval second
    then some short_ping_interval
    else if ltb s.ping_timeout second
    then some short_ping_timeout
    else if ltb s.upgrade_timeout second
    then some short_upgrade_timeout
    else none

unfoldable pub poll_timeout : Server → ℕ
poll_timeout s = s.ping_interval + s.ping_timeout

unfoldable pub http_write_timeout : Server → ℕ
unfolding poll_timeout
http_write_timeout s = poll_timeout s + 10 * second

pub data Method : Type 0 where
  get_method connect_method other_method : Method

-- A request. `version` is what `Atoi` makes of the parameter EIO, `drawn` what `generateSID` returns,
-- `handshakes` whether the transport's `Handshake` succeeds, `web_transport_sid` the id that the
-- one of WebTransport returns, and `closes` whether the transport that serves the request closes its
-- socket, as it does where a close packet or a bad payload is posted.
pub record Request : Type 0 where
  pub proto_major : ℕ
  pub version : Option ℕ
  pub sid : String
  pub transport : String
  pub method : Method
  pub authenticated : Bool
  pub drawn : Option String
  pub handshakes : Bool
  pub web_transport_sid : String
  pub closes : Bool

-- The errors that `writeServerError` writes.
pub data ServerError : Type 0 where
  unknown_transport unknown_sid bad_handshake_method : ServerError
  bad_request unsupported_protocol_version : ServerError

-- What a request comes to: a refusal, a request that the socket's transport serves, a new socket with
-- its transport and the upgrades that it is offered, or an upgrade that begins.
pub data Response : Type 0 where
  unavailable forbidden internal_error failed already_upgraded : Response
  refused : ServerError → Response
  serves : String → Response
  opens : String → String → List String → Response
  begins_upgrade : String → String → Response

abbrev pub protocol_version : ℕ
protocol_version = 4

-- `newSocket`; closing the socket that it does not keep runs its `onClose`, which is the store's
-- `delete`.
unfoldable pub new_socket : String → String → List String → Server → Server × Response
new_socket sid name upgrades s =
    if is_some (lookup sid s.store)
    then (record s { store = delete sid s.store }, internal_error)
    else (record s { store = insert sid name s.store }, opens sid name upgrades)

-- `maybeUpgrade` up to the first packet; the flag says whether there is a transport already.
unfoldable pub maybe_upgrade : String → String → Bool → Request → Response
maybe_upgrade sid upgrade_to has_transport r =
    if str_eq upgrade_to "websocket"
    then (if r.handshakes then begins_upgrade sid upgrade_to else failed)
    else if str_eq upgrade_to "webtransport"
    then (if has_transport then begins_upgrade sid upgrade_to else internal_error)
    else refused bad_request

-- A socket for the id that was drawn.
unfoldable pub open_drawn : Option String → String → List String → Server → Server × Response
unfolding new_socket
open_drawn none name upgrades s = (s, internal_error)
open_drawn (some sid) name upgrades s = new_socket sid name upgrades s

-- An upgrade of the socket with this id to WebTransport.
unfoldable pub join_web_transport : Option String → Request → Server → Server × Response
unfolding maybe_upgrade
join_web_transport none r s = (s, refused unknown_sid)
join_web_transport (some name) r s =
    if str_eq name "webtransport"
    then (s, already_upgraded)
    else (s, maybe_upgrade r.web_transport_sid "webtransport" true r)

unfoldable pub on_web_transport : Request → Server → Server × Response
unfolding open_drawn join_web_transport
on_web_transport r s =
    if not s.web_transport_server
    then (s, refused unknown_transport)
    else if not r.handshakes
    then (s, failed)
    else if str_eq r.web_transport_sid ""
    then open_drawn r.drawn "webtransport" [] s
    else join_web_transport (lookup r.web_transport_sid s.store) r s

abbrev pub web_transport_upgrade : Server → List String
web_transport_upgrade s = if s.web_transport_server then "webtransport" ∷ [] else []

-- The switch on the transport in `handleHandshake`, and what follows it.
unfoldable pub open_named : String → Request → Server → Server × Response
unfolding open_drawn
open_named sid r s =
    if str_eq r.transport "polling"
    then (if r.handshakes
        then open_drawn (some sid) "polling" ("websocket" ∷ web_transport_upgrade s) s
        else (s, failed))
    else if str_eq r.transport "websocket"
    then (if r.handshakes
        then open_drawn (some sid) "websocket" (web_transport_upgrade s) s
        else (s, failed))
    else (s, refused unknown_transport)

unfoldable pub open_by_name : Option String → Request → Server → Server × Response
unfolding open_named
open_by_name none r s = (s, internal_error)
open_by_name (some sid) r s = open_named sid r s

abbrev pub is_get : Method → Bool
is_get get_method = true
is_get _ = false

abbrev pub is_connect_method : Method → Bool
is_connect_method connect_method = true
is_connect_method _ = false

-- A request of WebTransport that names no transport.
abbrev pub asks_web_transport : Request → Bool
asks_web_transport r = is_connect_method r.method && (r.proto_major == 3 && str_eq r.transport "")

unfoldable pub handle_handshake : Request → Server → Server × Response
unfolding on_web_transport open_by_name
handle_handshake r s =
    if not (is_get r.method) && not (r.proto_major == 3)
    then (s, refused bad_handshake_method)
    else if asks_web_transport r
    then on_web_transport r s
    else if not r.authenticated
    then (s, forbidden)
    else open_by_name r.drawn r s

abbrev pub speaks : Option ℕ → Bool
speaks none = false
speaks (some version) = version == protocol_version

-- A request with the id of a socket. A socket that is closed leaves the store.
unfoldable pub serve_socket : Option String → Request → Server → Server × Response
unfolding maybe_upgrade
serve_socket none r s = (s, refused unknown_sid)
serve_socket (some name) r s =
    if not (str_eq name r.transport)
    then (s, maybe_upgrade r.sid r.transport false r)
    else (if r.closes then record s { store = delete r.sid s.store } else s, serves r.sid)

unfoldable pub serve_http : Request → Server → Server × Response
unfolding handle_handshake serve_socket
serve_http r s =
    if s.closed
    then (s, unavailable)
    else if not (r.proto_major == 3) && not (speaks r.version)
    then (s, refused unsupported_protocol_version)
    else if str_eq r.sid ""
    then handle_handshake r s
    else serve_socket (lookup r.sid s.store) r s

-- What `maybeUpgrade` does with the packets of the new transport until the socket has it.
pub data UpgradeEffect : Type 0 where
  sends_pong_probe forces_poll upgrades_socket closes_transport calls_on_error : UpgradeEffect

unfoldable pub on_upgrade_packet : PacketType → List UpgradeEffect
on_upgrade_packet ping = sends_pong_probe ∷ forces_poll ∷ []
on_upgrade_packet upgrade = upgrades_socket ∷ []
on_upgrade_packet _ = closes_transport ∷ calls_on_error ∷ []
