-- ===== src/Queues/PacketQueue/Tests.antt =====
-- The theorems at a queue with two packets whose adder has not signalled yet.
use socket_io.Base.{ℕ, refl, [], ◌∷◌, ◌++◌}
use socket_io.Queues.PacketQueue.{System, begins, polls, add, adds, polled, start, and_then}
use socket_io.Queues.PacketQueue.Delivery.{Reached, Delivered, Reached-Delivered}

abbrev waiting : System ℕ
waiting = polls begins

abbrev two_packets : System ℕ
two_packets = record waiting {
  queue = add (1 ∷ 2 ∷ []) waiting.queue;
  adders = 1;
  added = waiting.added ++ (1 ∷ 2 ∷ []);
}

reached : Reached two_packets
unfolding begins polls
reached = and_then (and_then start (polled refl)) (adds (1 ∷ 2 ∷ []))

Reached-Delivered_example : Delivered two_packets
Reached-Delivered_example = Reached-Delivered two_packets reached
