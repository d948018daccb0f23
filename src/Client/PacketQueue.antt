-- ===== src/Client/PacketQueue.antt =====
-- client_packet_queue.go: the packets that a socket retries. A packet is the number of its `id`, and
-- the heap has what a pointer to it leads to. `drainQueue` sends in a goroutine of its own; what comes
-- back for a packet that was sent is a call of its replaced acknowledgement function.
pub mod Flight
mod Tests
use socket_io.Base.{
  ℕ, ◌+◌, ◌%◌, ◌^◌, Bool, true, false, not, ◌&&◌, ◌||◌, ◌==◌, ltb, Option, none, some, List, [],
  ◌∷◌, ◌++◌, if◌then◌else◌,
}

pub record QueuedPacket : Type 0 where
  pub have_ack : Bool
  pub try_count : ℕ
  pub pending : Bool

abbrev pub Heap : Type 0
Heap = ℕ → QueuedPacket

unfoldable pub update : ℕ → QueuedPacket → Heap → Heap
update id packet heap i = if i == id then packet else heap i

pub record PacketQueue : Type 0 where
  pub seq : ℕ  -- uint64
  pub queued_packets : List ℕ
  pub heap : Heap

pub data Effect : Type 0 where
  sends : ℕ → Effect
  -- the packet's own function, and whether it gets an error
  calls_ack : ℕ → Bool → Effect

abbrev pub new_packet : Bool → QueuedPacket
new_packet have_ack = record { have_ack = have_ack; try_count = 0; pending = false }

unfoldable pub new_client_packet_queue : PacketQueue
new_client_packet_queue = record { seq = 0; queued_packets = []; heap = λ id. new_packet false }

-- The first packet is sent unless it waits for an answer.
unfoldable pub drain_first : Bool → ℕ → PacketQueue → PacketQueue × List Effect
unfolding update
drain_first force id q =
    let packet = q.heap id in
    if packet.pending && not force then (q, []) else (
      record q {
        heap =
            update id (record packet { pending = true; try_count = packet.try_count + 1 }) q.heap;
      },
      sends id ∷ [],
    )

-- `drainQueue`, for a socket that is connected or not.
unfoldable pub drain_packets : Bool → Bool → List ℕ → PacketQueue → PacketQueue × List Effect
unfolding drain_first
drain_packets connected force [] q = (q, [])
drain_packets connected force (id ∷ ids) q =
    if not connected then (q, []) else drain_first force id q

unfoldable pub drain_queue : Bool → Bool → PacketQueue → PacketQueue × List Effect
unfolding drain_packets
drain_queue connected force q = drain_packets connected force q.queued_packets q

unfoldable pub add_to_queue : Bool → Bool → PacketQueue → PacketQueue × List Effect
unfolding drain_queue update
add_to_queue connected have_ack q = drain_queue connected false (record {
  seq = (q.seq + 1) % 2 ^ 64;
  queued_packets = q.queued_packets ++ (q.seq ∷ []);
  heap = update q.seq (new_packet have_ack) q.heap;
})

abbrev pub own_ack : QueuedPacket → ℕ → Bool → List Effect
own_ack packet id has_error = if packet.have_ack then calls_ack id has_error ∷ [] else []

-- The end of `replacementAck`.
unfoldable pub settle : Bool → ℕ → PacketQueue → PacketQueue × List Effect
unfolding drain_queue update
settle connected id q =
    drain_queue connected false
      (record q { heap = update id (record (q.heap id) { pending = false }) q.heap })

-- `queuedPackets[1:]`, with the own function called; there is none where the slice panics.
unfoldable pub drop_first :
    Bool → Bool → ℕ → List ℕ → PacketQueue → Option (PacketQueue × List Effect)
unfolding settle
drop_first connected has_error id [] q = none
drop_first connected has_error id (first ∷ rest) q =
    let (settled, effects) = settle connected id (record q { queued_packets = rest }) in
    some (settled, own_ack (q.heap id) id has_error ++ effects)

-- `replacementAck` of the packet `id`.
unfoldable pub replacement_ack :
    ℕ → Bool → Bool → ℕ → PacketQueue → Option (PacketQueue × List Effect)
unfolding drop_first settle
replacement_ack retries connected has_error id q =
    if has_error && not (ltb retries (q.heap id).try_count)
    then some (settle connected id q)
    else drop_first connected has_error id q.queued_packets q
