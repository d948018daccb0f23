-- ===== src/Client/Socket/Life.antt =====
-- client_socket.go: how a socket is connected, disconnected and destroyed.
pub mod Again
pub mod Kept
pub mod Registered
pub mod Recovery
mod Tests
use Prim.Native.String.{String}
use socket_io.Base.{
  ℕ, ◌+◌, Bool, true, false, not, ◌&&◌, ◌||◌, ◌==◌, Option, none, some, List, [], ◌∷◌, ◌++◌,
  if◌then◌else◌,
}
use socket_io.Base.Maps.{str_eq}
use socket_io.Client.Manager.{ClientConnectionState, is_connected, without}
use socket_io.Client.Reconnect.Reach.{is_reconnecting}
use socket_io.Client.Socket.{
  ClientSocket, joined, connect_pending, left, is_joined, is_connect_pending, has_pid, Effect,
  sends_connect, sends_disconnect, opens_manager, destroys_manager, drains_queue, calls_connect,
  calls_connect_error, calls_disconnect, calls_on_error,
}
use socket_io.Client.Socket.Buffers.{emit_buffered}

abbrev pub joined_or_pending : ClientSocket → Bool
joined_or_pending s = is_joined s.state || is_connect_pending s.state

unfoldable pub connected_or_connect_pending : ClientConnectionState → ClientSocket → Bool
connected_or_connect_pending manager s = is_connected manager && joined_or_pending s

-- `onOpen`: the packet has the session and its offset where the socket has one, and the data of `Auth`.
unfoldable pub on_open : ClientSocket → List Effect
on_open s = (if has_pid s then sends_connect s.pid s.last_offset else sends_connect "" "") ∷ []

unfoldable pub register_sub_events : ClientSocket → ClientSocket
register_sub_events s = record s {
  active = true;
  registered = s.registered ++ (s.next_sub ∷ []);
  sub_deregister = some s.next_sub;
  next_sub = s.next_sub + 1;
}

-- The functions that `subDeregister` takes out of the manager's stores.
unfoldable pub off_sub : Option ℕ → List ℕ → List ℕ
off_sub none registered = registered
off_sub (some sub) registered = without (sub ∷ []) registered

unfoldable pub deregister_sub_events : ClientSocket → ClientSocket
unfolding off_sub
deregister_sub_events s = record s {
  active = false;
  registered = off_sub s.sub_deregister s.registered;
  sub_deregister = none;
}

-- The three functions that are registered with the manager.
unfoldable pub open_func : ClientSocket → ClientSocket × List Effect
unfolding on_open
open_func s =
    if is_connect_pending s.state
    then (s, [])
    else (record s { state = connect_pending }, on_open s)

unfoldable pub error_func : ClientConnectionState → ClientSocket → List Effect
unfolding connected_or_connect_pending
error_func manager s =
    if not (connected_or_connect_pending manager s) then calls_connect_error ∷ [] else []

unfoldable pub on_close : ClientSocket → ClientSocket × List Effect
on_close s = (record s { state = left; id = "" }, calls_disconnect ∷ [])

unfoldable pub connect : ClientConnectionState → ClientSocket → ClientSocket × List Effect
unfolding register_sub_events on_open
connect manager s =
    let registered = register_sub_events s in
    let opens = if is_reconnecting manager then [] else opens_manager ∷ [] in
    if is_joined s.state
    then (s, [])
    else if is_connected manager && not (is_connect_pending s.state)
    then (record registered { state = connect_pending }, opens ++ on_open s)
    else (registered, opens)

unfoldable pub destroy : ClientSocket → ClientSocket × List Effect
unfolding deregister_sub_events
destroy s = (deregister_sub_events s, destroys_manager ∷ [])

unfoldable pub disconnect : ClientConnectionState → ClientSocket → ClientSocket × List Effect
unfolding destroy on_close connected_or_connect_pending
disconnect manager s =
    let sent = if connected_or_connect_pending manager s then sends_disconnect ∷ [] else [] in
    let (destroyed, effects) = destroy s in
    let (closed, more) = on_close destroyed in
    if joined_or_pending destroyed
    then (closed, sent ++ (effects ++ more))
    else (destroyed, sent ++ effects)

unfoldable pub on_disconnect : ClientSocket → ClientSocket × List Effect
unfolding destroy on_close
on_disconnect s =
    let (destroyed, effects) = destroy s in
    let (closed, more) = on_close destroyed in (closed, effects ++ more)

-- Whether the packet's data is an error as a server sends it.
unfoldable pub on_connect_error : Bool → ClientSocket → ClientSocket × List Effect
unfolding destroy
on_connect_error decoded s =
    let (destroyed, effects) = destroy s in
    (destroyed, effects ++ ((if decoded then calls_connect_error else calls_on_error) ∷ []))

-- `sidInfo` of server_socket.go.
pub record SidInfo : Type 0 where
  pub sid : String
  pub pid : String

-- What `onConnect` keeps of the session.
unfoldable pub set_session : String → ClientSocket → ClientSocket
set_session pid s =
    if str_eq pid ""
    then s
    else record s { pid = pid; recovered = s.recovered || (has_pid s && str_eq s.pid pid) }

unfoldable pub accept : SidInfo → ClientSocket → ClientSocket
unfolding set_session
accept info s = record (set_session info.pid s) { id = info.sid; state = joined }

-- The data is none where the packet holds none that can be read.
unfoldable pub on_connect : Option SidInfo → ClientSocket → ClientSocket × List Effect
unfolding accept
on_connect none s = (s, calls_connect_error ∷ [])
on_connect (some info) s =
    let (done, effects) = emit_buffered (accept info s) in
    if str_eq info.sid ""
    then (s, calls_connect_error ∷ [])
    else (done, effects ++ (calls_connect ∷ drains_queue ∷ []))
