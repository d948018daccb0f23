-- ===== src/EngineIo/ClientSocket.antt =====
-- engine.io/client_socket.go: the socket of the Engine.IO client. A transport is its name; how its
-- handshake and its probe end is given. Each method is one step.
pub mod Batches
pub mod Chosen
mod Tests
use Prim.Native.String.{String}
use socket_io.Base.{
  ℕ, ◌+◌, Bool, true, false, not, ◌&&◌, ◌||◌, ◌==◌, ltb, Option, none, some, List, [], ◌∷◌, ◌++◌,
  Bytes, length, if◌then◌else◌,
}
use socket_io.Base.Maps.{str_eq, str_elem}
use socket_io.EngineIo.Packet.{Packet, PacketType, encoded_len, close_type, ping, pong, upgrade}
use socket_io.EngineIo.Socket.{
  Reason, transport_close, transport_error, forced_close, ping_timeout, is_of_transport,
}

pub record HandshakeResponse : Type 0 where
  pub sid : String
  pub upgrades : List String
  pub ping_interval : ℕ
  pub ping_timeout : ℕ
  pub max_payload : ℕ

-- `closed` stands for the closed channel, which `closeOnce` closes; a value put into `pingChan` is an
-- effect.
pub record ClientSocket : Type 0 where
  pub transport : Option String
  pub sid : String
  pub upgrades : List String
  pub ping_interval : ℕ
  pub ping_timeout : ℕ
  pub max_payload : ℕ
  pub closed : Bool

pub data Effect : Type 0 where
  sends : List Packet → Effect
  closes_transport discards_transport : Option String → Effect
  notes_ping calls_on_error : Effect
  calls_on_packet : List Packet → Effect
  calls_upgrade_done : String → Effect
  calls_on_close : Reason → Effect

-- The error of `connect`, if any.
pub data Outcome : Type 0 where
  no_error invalid_transport_name handshake_failed : Outcome

abbrev pub is_transport : String → Bool
is_transport name = str_eq name "polling" || (str_eq name "websocket" || str_eq name "webtransport")

abbrev accept : String → HandshakeResponse → ClientSocket → ClientSocket
accept name hr s = record s {
  transport = some name;
  sid = hr.sid;
  upgrades = hr.upgrades;
  ping_interval = hr.ping_interval;
  ping_timeout = hr.ping_timeout;
  max_payload = hr.max_payload;
}

-- `connect`, with the error so far; the names that are left are those for `maybeUpgrade`.
unfoldable pub connect_from :
    (String → Option HandshakeResponse)
    → Outcome
    → List String
    → ClientSocket
    → ClientSocket × (Outcome × List String)
connect_from handshake error [] s = (s, (error, []))
connect_from handshake error (name ∷ transports) s =
    let next =
      connect_from handshake handshake_failed transports (record s { transport = some name }) in
    if not (is_transport name)
    then (s, (invalid_transport_name, transports))
    else elim (handshake name) [
      | none ↦ next
      | some hr ↦ (accept name hr s, (no_error, transports))
    ]

unfoldable pub connect :
    (String → Option HandshakeResponse)
    → List String
    → ClientSocket
    → ClientSocket × (Outcome × List String)
unfolding connect_from
connect handshake transports s = connect_from handshake no_error transports s

-- What a packet adds to the size of a payload.
abbrev pub counted : Packet → ℕ
unfolding encoded_len
counted p = if ltb 0 (length p.body) then encoded_len p false else 0

abbrev pub is_empty : List Packet → Bool
is_empty [] = true
is_empty (p ∷ packets) = false

-- The loop of `writeWritablePackets`, with the packets of the batch that it has passed; the results are
-- the batches that are sent.
unfoldable pub write_loop : ℕ → ℕ → List Packet → List Packet → List (List Packet)
unfolding counted
write_loop max_payload size passed [] = if is_empty passed then [] else passed ∷ []
write_loop max_payload size passed (p ∷ packets) =
    let size' = size + counted p in
    let cut = write_loop max_payload 0 (p ∷ []) packets in
    let on = write_loop max_payload (size' + 1) (passed ++ (p ∷ [])) packets in
    if not (is_empty passed) && ltb max_payload size' then passed ∷ cut else on

unfoldable pub write_writable_packets : ℕ → String → List Packet → List (List Packet)
unfolding write_loop
write_writable_packets max_payload name packets =
    if ltb 0 max_payload && (str_eq name "polling" && ltb 1 (length packets))
    then write_loop max_payload 0 [] packets
    else if is_empty packets
    then []
    else packets ∷ []

-- The names are different from each other.
abbrev pub remove_first : String → List String → List String
remove_first name [] = []
remove_first name (n ∷ names) =
    let rest = remove_first name names in if str_eq n name then names else n ∷ rest

-- What `maybeUpgrade` comes to; a name that is no transport to upgrade to is a call on nil.
pub data Upgrade : Type 0 where
  stays : Upgrade
  upgraded : String → Upgrade
  nil_transport : Upgrade

abbrev pub is_done : String → List String → List String → Bool
is_done current transports upgrades =
    str_eq current "webtransport"
    || ((str_eq current "websocket" && not (str_elem "webtransport" upgrades))
        || ((not (str_elem "websocket" upgrades) && not (str_elem "webtransport" upgrades))
            || (not (str_elem "websocket" transports) && not (str_elem "webtransport" transports))))

abbrev pub prioritize : List String → List String
prioritize transports =
    if str_elem "webtransport" transports && str_elem "websocket" transports
    then "webtransport" ∷ remove_first "webtransport" transports
    else transports

-- `probes` says whether the probe of a transport is answered in time.
unfoldable pub try_upgrades : (String → Bool) → List String → List String → Upgrade
try_upgrades probes upgrades [] = stays
try_upgrades probes upgrades (name ∷ transports) =
    let next = try_upgrades probes upgrades transports in
    if not (str_elem name upgrades)
    then next
    else if not (str_eq name "websocket" || str_eq name "webtransport")
    then nil_transport
    else if probes name
    then upgraded name
    else next

unfoldable pub maybe_upgrade : (String → Bool) → String → List String → List String → Upgrade
unfolding try_upgrades
maybe_upgrade probes current transports upgrades =
    if is_done current transports upgrades
    then stays
    else try_upgrades probes upgrades (prioritize transports)

unfoldable pub finish_upgrade_to : String → ClientSocket → ClientSocket × List Effect
finish_upgrade_to name s = (
  record s { transport = some name },
  discards_transport s.transport
      ∷ sends (record { is_binary = false; type = upgrade; body = [] } ∷ [])
      ∷ calls_upgrade_done name
      ∷ [],
)

abbrev same_bytes : Bytes → Bytes → Bool
same_bytes [] [] = true
same_bytes (b ∷ bs) (c ∷ cs) = b == c && same_bytes bs cs
same_bytes _ _ = false

abbrev pub probe : Bytes
probe = b'p' ∷ b'r' ∷ b'o' ∷ b'b' ∷ b'e' ∷ []

-- `onPacket` of `tryUpgradeTo`, for a packet that arrives on the transport that is probed.
unfoldable pub on_probe_packet : String → Packet → ClientSocket → ClientSocket × List Effect
unfolding finish_upgrade_to
on_probe_packet name packet s = elim packet.type [
  | pong ↦
      (if same_bytes packet.body probe
        then finish_upgrade_to name s
        else (s, calls_on_error ∷ closes_transport (some name) ∷ []))
  | _ ↦ (s, closes_transport (some name) ∷ calls_on_error ∷ [])
]

abbrev written : List (List Packet) → List Effect
written [] = []
written (packets ∷ batches) = sends packets ∷ written batches

unfoldable pub send : List Packet → ClientSocket → List Effect
unfolding write_writable_packets
send packets s = elim s.transport [
  | none ↦ []
  | some name ↦ written (write_writable_packets s.max_payload name packets)
]

unfoldable pub handle_packet : Packet → ClientSocket → List Effect
unfolding send
handle_packet packet s = elim packet.type [
  | ping ↦ notes_ping ∷ send (record { is_binary = false; type = pong; body = packet.body } ∷ []) s
  | close_type ↦ closes_transport s.transport ∷ []
  | _ ↦ []
]

unfoldable pub handle_packets : List Packet → ClientSocket → List Effect
unfolding handle_packet
handle_packets [] s = []
handle_packets (p ∷ packets) s = handle_packet p s ++ handle_packets packets s

unfoldable pub on_packet : List Packet → ClientSocket → List Effect
unfolding handle_packets
on_packet packets s = calls_on_packet packets ∷ handle_packets packets s

unfoldable pub close : Reason → ClientSocket → ClientSocket × List Effect
close reason s = if s.closed then (s, []) else (
  record s { closed = true },
  (if not (is_of_transport reason)
        then elim s.transport [ none ↦ [] | some name ↦ closes_transport (some name) ∷ [] ]
        else [])
      ++ (calls_on_close reason ∷ []),
)

abbrev is_current : String → Option String → Bool
is_current name none = false
is_current name (some current) = str_eq current name

-- Whether the transport was closed with an error.
unfoldable pub on_transport_close : String → Bool → ClientSocket → ClientSocket × List Effect
unfolding close
on_transport_close name with_error s =
    if s.closed
    then (s, [])
    else if not (is_current name s.transport)
    then (s, [])
    else close (if with_error then transport_error else transport_close) s
