-- ===== src/Queues/PacketQueue.antt =====
-- packet_queue.go. A channel of capacity one is whether something is in it. A call of `add` is two
-- steps, under the mutex and behind it; `poll` is two steps as well, where it has to wait.
pub mod Delivery
mod Tests
use socket_io.Base.{
  ℕ, zero, suc, ◌+◌, ◌≡◌, ◌≢◌, Bool, true, false, List, [], ◌∷◌, ◌++◌, length, ◌==◌, if◌then◌else◌,
}

pub record PacketQueue (P : Type 0) : Type 0 where
  pub packets : List P
  pub ready : Bool
  pub has_reset : Bool
  pub has_close : Bool

module _ {P : Type 0} where
  unfoldable pub new_packet_queue : PacketQueue P
  new_packet_queue = record { packets = []; ready = false; has_reset = false; has_close = false }

  unfoldable pub get : PacketQueue P → List P × PacketQueue P
  get pq = (pq.packets, record pq { packets = [] })

  -- `add`, under the mutex.
  unfoldable pub add : List P → PacketQueue P → PacketQueue P
  add packets pq = record pq {
    packets = if length pq.packets == 0 then packets else pq.packets ++ packets;
  }

  -- `add`, behind the mutex: a send that does not block.
  unfoldable pub signal : PacketQueue P → PacketQueue P
  signal pq = record pq { ready = true }

  -- `poll`, when it has received from `ready`.
  unfoldable pub get_ready : PacketQueue P → List P × PacketQueue P
  unfolding get
  get_ready pq = get (record pq { ready = false })

  unfoldable pub reset : PacketQueue P → PacketQueue P
  reset pq = record pq { packets = []; has_reset = true }

  unfoldable pub close : PacketQueue P → PacketQueue P
  close pq = record pq { packets = []; has_close = true }

-- Where the loop of `pollAndSend` stands: before `poll`, in its `select`, or behind its return.
pub data Poller : Type 0 where
  polling selecting returned : Poller

-- The queue, those who add and have not signalled yet, the loop, what was added so far and what was
-- sent; and whether the queue was ever emptied by `reset` or `close`.
pub record System (P : Type 0) : Type 0 where
  pub queue : PacketQueue P
  pub adders : ℕ
  pub poller : Poller
  pub added : List P
  pub sent : List P
  pub cleared : Bool

module _ {P : Type 0} where
  unfoldable pub begins : System P
  unfolding new_packet_queue
  begins = record {
    queue = new_packet_queue;
    adders = 0;
    poller = polling;
    added = [];
    sent = [];
    cleared = false;
  }

  -- What the loop does next with the packets that it got: it sends them, if there are any.
  pub sends : List P × PacketQueue P → Poller → System P → System P
  sends (packets, pq) next s = record s { queue = pq; poller = next; sent = s.sent ++ packets }

  -- `poll` at its start: it goes on to its `select` only without a packet.
  pub polls : System P → System P
  unfolding sends get
  polls s = sends (get s.queue) (if length s.queue.packets == 0 then selecting else polling) s

  pub wakes : System P → System P
  unfolding sends get_ready
  wakes s = sends (get_ready s.queue) polling s

  -- One step of one of the goroutines.
  pub data Step (s : System P) : System P → Type 0 where
    adds :
        (packets : List P)
        → Step s (record s {
          queue = add packets s.queue;
          adders = suc s.adders;
          added = s.added ++ packets;
        })
    signals : (n : ℕ) → s.adders ≡ suc n → Step s (record s { queue = signal s.queue; adders = n })
    polled : s.poller ≡ polling → Step s (polls s)
    woken : s.poller ≡ selecting → s.queue.ready ≡ true → Step s (wakes s)
    stopped :
        s.poller ≡ selecting
        → s.queue.has_close ≡ true
        → Step s (record s { queue = record s.queue { has_close = false }; poller = returned })
    was_reset : Step s (record s { queue = reset s.queue; cleared = true })
    was_closed : Step s (record s { queue = close s.queue; cleared = true })

  pub data Steps (s : System P) : System P → Type 0 where
    start : Steps s s
    and_then : {t u : System P} → Steps s t → Step t u → Steps s u
