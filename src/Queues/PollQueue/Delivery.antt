-- ===== src/Queues/PollQueue/Delivery.antt =====
-- What is added to the queue of a polling transport is given out once and in order; but a wake-up can
-- be missed.
use socket_io.Base.{
  ◌≡◌, refl, sym, ap, ◌∙◌, arith, List, [], ◌∷◌, ◌++◌, append_assoc, append-nil, length, ◌==◌,
  if◌then◌else◌, if-false,
}
use socket_io.Queues.PollQueue.{
  PollQueue, outside, selecting, new_poll_queue, add, get, poll, Step, adds, gets, polls, selects,
  wakes, times_out, Steps, start, and_then,
}

module _ {P : Type 0} where
  append_or : (xs ys : List P) → (if length xs == 0 then ys else xs ++ ys) ≡ xs ++ ys
  append_or [] ys = refl
  append_or (x ∷ xs) ys = if-false ys (ground arith)

  abbrev pub InOrder : PollQueue P → Type 0
  InOrder pq = pq.added ≡ pq.given ++ pq.packets

  Step-InOrder : (pq q : PollQueue P) → Step pq q → InOrder pq → InOrder q
  unfolding add get poll
  Step-InOrder pq _ (adds packets) v =
      ap (λ xs. xs ++ packets) v
      ∙ append_assoc pq.given pq.packets packets
      ∙ ap (◌++◌ pq.given) (sym (append_or pq.packets packets))
  Step-InOrder pq _ gets v = v ∙ sym (append-nil _)
  Step-InOrder pq _ (polls e) v = v ∙ sym (append-nil _)
  Step-InOrder pq _ (selects e) v = v
  Step-InOrder pq _ (wakes e) v = v ∙ sym (append-nil _)
  Step-InOrder pq _ (times_out e) v = v

  -- In every state that is reached, whatever the order of the steps, what was added is, in order and
  -- once, what was given out and what is in the queue still.
  pub Steps-InOrder : (pq : PollQueue P) → Steps new_poll_queue pq → InOrder pq
  unfolding new_poll_queue
  Steps-InOrder _ start = refl
  Steps-InOrder q (and_then {q = p} steps step) = Step-InOrder p q step (Steps-InOrder p steps)

  -- Packets that are added between the two halves of a `poll` are not given to it: there are steps to
  -- where it waits in its `select` though they are in the queue, and once its time is over it returns
  -- without them.
  pub missed_wake_up :
      (packets : List P)
      → (pq q : PollQueue P) × (Steps new_poll_queue pq
          × (pq.poller ≡ selecting)
          × (pq.packets ≡ packets))
        × (Step pq q × (q.poller ≡ outside) × (q.packets ≡ packets) × (q.given ≡ []))
  unfolding new_poll_queue add poll get
  missed_wake_up packets =
      let first : PollQueue P = poll new_poll_queue in
      let second : PollQueue P = add packets first in
      let third : PollQueue P = record second { poller = selecting } in
      (
        third,
        record third { poller = outside },
        (
          and_then (and_then (and_then start (polls refl)) (adds packets)) (selects refl),
          refl,
          refl,
        ),
        (times_out refl, refl, refl, refl),
      )
