-- ===== src/Client/Socket/Acks.antt =====
-- client_socket.go: the acknowledgements that a socket waits for. What one handler goes through is in
-- Handlers.Ack; here are the ids, and the packets that a timeout takes out of the send buffer.
pub mod Expired
mod Tests
use socket_io.Base.{
  ℕ, suc, ◌+◌, ◌%◌, ◌^◌, Bool, true, false, Option, none, some, List, [], ◌∷◌, ◌++◌, map, elem,
  if◌then◌else◌, Result,
}
use socket_io.Handlers.Slices.{Panic, off_slice}
use socket_io.Client.Manager.{without}
use socket_io.Client.Socket.{ClientSocket, SendBufferItem, Effect, calls_on_error}

-- `nextAckID` and the entry in the map; the id is returned.
unfoldable pub register_ack_handler : ClientSocket → ClientSocket × ℕ
register_ack_handler s =
    (record s { ack_id = (s.ack_id + 1) % 2 ^ 64; acks = s.ack_id ∷ s.acks }, s.ack_id)

-- `onAck` until the handler is called; the flag says whether it is.
unfoldable pub on_ack : Option ℕ → ClientSocket → ClientSocket × (List Effect × Bool)
on_ack none s = (s, (calls_on_error ∷ [], false))
on_ack (some id) s =
    if elem id s.acks
    then (record s { acks = without (id ∷ []) s.acks }, ([], true))
    else (s, (calls_on_error ∷ [], false))

-- An item of the send buffer as the loop sees it: none, or its id.
abbrev pub key : SendBufferItem → ℕ
key item = elim item.ack_id [ none ↦ 0 | some id ↦ suc id ]

abbrev pub keys : List SendBufferItem → List ℕ
keys items = map key items

-- When a timeout is over: the map, and what is left in the send buffer, unless the loop panics.
unfoldable pub on_timeout : ℕ → ClientSocket → ClientSocket × Result Panic (List ℕ)
on_timeout id s =
    (record s { acks = without (id ∷ []) s.acks }, off_slice (suc id ∷ []) (keys s.send_buffer))
