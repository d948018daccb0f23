-- ===== src/Queues/PollQueue/Tests.antt =====
-- The theorems at short histories of the queue.
use socket_io.Base.{ℕ, ◌≡◌, refl, [], ◌∷◌}
use socket_io.Queues.PollQueue.{
  PollQueue, outside, selecting, new_poll_queue, add, get, Step, Steps, adds, gets, start, and_then,
}
use socket_io.Queues.PollQueue.Delivery.{missed_wake_up}

abbrev two_adds : PollQueue ℕ
two_adds = get (add (3 ∷ []) (add (1 ∷ 2 ∷ []) new_poll_queue))

steps : Steps new_poll_queue two_adds
steps = and_then (and_then (and_then start (adds (1 ∷ 2 ∷ []))) (adds (3 ∷ []))) gets

given-two_adds : two_adds.given ≡ 1 ∷ 2 ∷ 3 ∷ []
unfolding get add new_poll_queue
given-two_adds = refl

missed_wake_up_example :
    (pq q : PollQueue ℕ) × (Steps new_poll_queue pq
      × (pq.poller ≡ selecting)
      × (pq.packets ≡ 7 ∷ []))
    × (Step pq q × (q.poller ≡ outside) × (q.packets ≡ 7 ∷ []) × (q.given ≡ []))
missed_wake_up_example = missed_wake_up (7 ∷ [])
