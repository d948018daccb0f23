-- ===== src/Client/Socket.antt =====
-- client_socket.go: a socket of the client in one namespace. The state of its manager is given where a
-- method reads it. The functions that the socket registers with the manager, together, are a number.
pub mod Buffers
pub mod Acks
pub mod Life
use Prim.Native.String.{String}
use socket_io.Base.{
  ℕ, ◌+◌, ◌%◌, ◌^◌, Bool, true, false, not, ◌&&◌, ◌||◌, Option, none, some, List, [], ◌∷◌, ◌++◌,
  if◌then◌else◌,
}
use socket_io.Base.Maps.{str_eq}
use socket_io.EngineIo.Packet.{Packet}

pub data ClientSocketConnectionState : Type 0 where
  joined connect_pending left : ClientSocketConnectionState

-- A value that a handler is called with: a string, an acknowledgement function, or something else.
pub data Value : Type 0 where
  text : String → Value
  ack_function something : Value

-- A handler, by a number; how many arguments it has, whether the last is an acknowledgement function,
-- and whether it calls that one before it returns.
pub record EventHandler : Type 0 where
  pub number : ℕ
  pub input_args : ℕ
  pub ack : Bool
  pub acknowledges : Bool

pub record ClientEvent : Type 0 where
  pub handler : EventHandler
  pub header_id : Option ℕ
  pub values : List Value

pub record SendBufferItem : Type 0 where
  pub ack_id : Option ℕ
  pub packet : Packet

-- An empty `pid` is none. `registered` has what is in the manager's stores of the functions that
-- `sub_deregister` takes out one of.
pub record ClientSocket : Type 0 where
  pub id : String
  pub state : ClientSocketConnectionState
  pub pid : String
  pub last_offset : String
  pub recovered : Bool
  pub send_buffer : List SendBufferItem
  pub receive_buffer : List ClientEvent
  pub acks : List ℕ  -- the keys of the map
  pub ack_id : ℕ  -- uint64
  pub active : Bool
  pub sub_deregister : Option ℕ
  pub registered : List ℕ
  pub next_sub : ℕ

-- What the socket does outside its state.
pub data Effect : Type 0 where
  sends_connect : String → String → Effect  -- the session and the offset
  sends_disconnect opens_manager destroys_manager drains_queue : Effect
  calls_connect calls_connect_error calls_disconnect calls_on_error : Effect
  gives_manager : List Packet → Effect
  calls_handler : ℕ → List Value → Effect
  sends_ack : ℕ → Effect

unfoldable pub new_client_socket : ClientSocket
new_client_socket = record {
  id = "";
  state = left;
  pid = "";
  last_offset = "";
  recovered = false;
  send_buffer = [];
  receive_buffer = [];
  acks = [];
  ack_id = 0;
  active = false;
  sub_deregister = none;
  registered = [];
  next_sub = 0;
}

abbrev pub is_joined : ClientSocketConnectionState → Bool
is_joined joined = true
is_joined _ = false

abbrev pub is_connect_pending : ClientSocketConnectionState → Bool
is_connect_pending connect_pending = true
is_connect_pending _ = false

abbrev pub has_pid : ClientSocket → Bool
has_pid s = not (str_eq s.pid "")
