-- ===== src/Queues/PollQueue.antt =====
-- engine.io/transport/polling/poll_queue.go. The channel has no room: a signal is taken only by a
-- `poll` that stands in its `select`. A call of `add` is one step, under the mutex; `poll` is two, its
-- first `get` and its `select`.
pub mod Delivery
mod Tests
use socket_io.Base.{ℕ, ◌≡◌, Bool, true, false, List, [], ◌∷◌, ◌++◌, length, ◌==◌, if◌then◌else◌}

-- Where the one who polls stands: outside `poll`, behind its first `get`, in its `select`, or with the
-- signal received.
pub data Poller : Type 0 where
  outside checked selecting signalled : Poller

pub record PollQueue (P : Type 0) : Type 0 where
  pub packets : List P
  pub poller : Poller
  -- What was added so far, and what the calls of `poll` and `get` returned.
  pub added : List P
  pub given : List P

abbrev pub receives : Poller → Poller
receives selecting = signalled
receives p = p

module _ {P : Type 0} where
  unfoldable pub new_poll_queue : PollQueue P
  new_poll_queue = record { packets = []; poller = outside; added = []; given = [] }

  unfoldable pub add : List P → PollQueue P → PollQueue P
  add packets pq = record {
    packets = if length pq.packets == 0 then packets else pq.packets ++ packets;
    poller = receives pq.poller;
    added = pq.added ++ packets;
    given = pq.given;
  }

  unfoldable pub get : PollQueue P → PollQueue P
  get pq = record pq { packets = []; given = pq.given ++ pq.packets }

  unfoldable pub len : PollQueue P → ℕ
  len pq = length pq.packets

  -- The start of `poll`: it returns at once with the packets that are there.
  unfoldable pub poll : PollQueue P → PollQueue P
  unfolding get
  poll pq = record (get pq) { poller = if length pq.packets == 0 then checked else outside }

  pub data Step (pq : PollQueue P) : PollQueue P → Type 0 where
    adds : (packets : List P) → Step pq (add packets pq)
    gets : Step pq (get pq)
    polls : pq.poller ≡ outside → Step pq (poll pq)
    selects : pq.poller ≡ checked → Step pq (record pq { poller = selecting })
    wakes : pq.poller ≡ signalled → Step pq (record (get pq) { poller = outside })
    times_out : pq.poller ≡ selecting → Step pq (record pq { poller = outside })

  pub data Steps (pq : PollQueue P) : PollQueue P → Type 0 where
    start : Steps pq pq
    and_then : {q r : PollQueue P} → Steps pq q → Step q r → Steps pq r
