-- ===== src/Lib.antt =====
-- The Socket.IO server and client in Go, by its parts.
--
-- Packets go down through two protocols. A Socket.IO packet is a text header with JSON behind it and
-- binary attachments (parser/). Each of these messages becomes an Engine.IO packet (engine.io/parser/)
-- which is sent in a payload of a polling transport or in the frames of another one. On the server a
-- connection gives the packets of its client to the sockets of the namespaces (server_conn.go,
-- store.go); a namespace has an adapter that knows which socket is in which room (adapter/), and
-- handlers are called by name (store.go).
--
--   Base          shared names, lists, results, decimal numbers, maps with string keys
--   Base64        the standard encoding of encoding/base64
--   EngineIo      engine.io/parser/: Packet (packet.go: NewPacket, Encode, EncodedLen, DecodeWithLen,
--                 Decode) and Payload (payload.go: EncodePayloads, DecodePayloads, splitByte);
--                 Frame (engine.io/transport/webtransport/packet.go: send, nextPacket); Ids
--                 (base64id.go), Socket (server_socket.go), Server (server.go: ServeHTTP and what it
--                 calls), ClientSocket (client_socket.go)
--   Parser        parser/packet.go and parser/json/: Header (encodeString up to the JSON), Decode
--                 (parseHeader), Stream (Add, with reconstructor.addBuffer)
--   Adapter       adapter/: Sets (the sets of golang-set as an interface with laws), Memory
--                 (adapter_memory.go: AddAll, Delete, DeleteAll, SocketRooms, apply,
--                 computeExceptSids), SessionAware (adapter_session_aware.go: PersistSession,
--                 RestoreSession, Broadcast, the rounds of cleaner), Operator
--                 (broadcast_operator.go: To, Except, Compress, Local, Emit)
--   Handlers      store.go: Slices (the loops that remove handlers), Store (handlerStore), Events
--                 (eventHandlerStore), Ack (ackHandler of handler.go, as server_socket.go uses it)
--   Server        SocketStore (serverSocketStore of store.go), Conn (server_conn.go), Wire (its
--                 sendBuffers and onEIOPacket, which join the two protocols), Namespace (add,
--                 doConnect, remove and nextAckID of namespace.go; newServerSocket, Join, Leave,
--                 onConnect, onClose and Disconnect of server_socket.go), Dispatch (onPacket,
--                 onEvent and onAck of server_socket.go)
--   Client        Backoff (backoff.go), Manager (client_manager.go: open, onClose, Close, cleanup), with
--                 Reconnect (client_manager_conn.go: reconnect, connect); Socket (client_socket.go)
--                 with Socket.Life (Connect, Disconnect, onConnect and the like), Socket.Buffers
--                 (_sendBuffers, emitBuffered, onEvent, callEvent) and Socket.Acks (registerAckHandler,
--                 onAck); PacketQueue (client_packet_queue.go)
--   Queues        PacketQueue (packet_queue.go), PollQueue
--                 (engine.io/transport/polling/poll_queue.go)
--
-- How the code is rendered. A state is a record and an operation a function from the state before to
-- the state after, with what it returns; a returned error is a value of a result type, and so is a
-- panic where the code has one. A byte slice or string of the wire is the list of its bytes; where
-- bytes have to be below 256 a hypothesis says so. Unsigned numbers keep their width where it shows: decimal
-- numbers are read as 64-bit ones, the number of attachments is the 64-bit pattern of an int, a frame's
-- length fields have 16 and 64 bits. Names of sockets, rooms, namespaces and events are strings, maps
-- are association lists, and no theorem depends on their order. Handlers are compared as the
-- pointers that the code compares. The only fuel is that of writing a number in decimal digits
-- (Base.Decimal): it is more than the number, which has no more digits than that. All other loops are
-- recursions over the lists that they read; the loop that removes handlers while it ranges over them
-- counts the cells of the array, and the rounding to a float64 the doublings of its unit, of which nine
-- are enough for an int64.
--
-- What a mutex protects is one step. Queues are systems of steps of several goroutines, in any order,
-- and a server connection is a system of the calls that reach it, of which that of joining a namespace
-- may be interrupted. Calls on a socket of a namespace run to their end, which the theorem on a closed
-- socket says.
--
-- The goroutine of the client that connects is a machine of steps between the points at which others
-- come in; an Engine.IO socket is run through any list of calls. The ids of Engine.IO are drawn at most
-- eleven times, which the recursion counts.
--
-- Parameters stand for what other packages do: the sets of golang-set with their laws (Adapter.Sets,
-- met by lists), the JSON serializer as a function that reads a list of strings, the ids of yeast, the
-- clock and random numbers. What comes to pass outside a component is given to it as well: the outcome
-- of adding a socket to a namespace, of dialing, of a transport's handshake, of its probe and of a
-- request that it serves, and what the encoder leaves of a packet.
--
-- Not modelled: the transports' I/O, the walk of the parser over Go values by reflection, the Redis
-- adapter, the rest of the server socket, and namespaces' middlewares, which are given by what they
-- say; further the printing of packets, write errors of buffers in memory, and logs.
pub mod Adapter
pub mod Base
pub mod Base64
pub mod Client
pub mod EngineIo
pub mod Handlers
pub mod Parser
pub mod Queues
pub mod Server
