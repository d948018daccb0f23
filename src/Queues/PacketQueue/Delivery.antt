-- ===== src/Queues/PacketQueue/Delivery.antt =====
-- What is added is sent: in order, once, and without a wake-up that is missed.
use socket_io.Base.{
  ◌≡◌, ◌≢◌, refl, sym, ap, ◌∙◌, arith, ◌⊎◌, inl, inr, true, false, List, [], ◌∷◌, ◌++◌,
  append_assoc, append-nil, length, ◌==◌, if◌then◌else◌, if-false,
}
use socket_io.Queues.PacketQueue.{
  PacketQueue, new_packet_queue, get, add, signal, get_ready, reset, close, selecting, System,
  begins, sends, polls, wakes, Step, adds, signals, polled, woken, stopped, was_reset, was_closed,
  Steps, start, and_then,
}

module _ {P : Type 0} where
  abbrev pub Reached : System P → Type 0
  Reached s = Steps begins s

  append_or : (xs ys : List P) → (if length xs == 0 then ys else xs ++ ys) ≡ xs ++ ys
  append_or [] ys = refl
  append_or (x ∷ xs) ys = if-false ys (ground arith)

  add-append :
      (packets : List P) (pq : PacketQueue P) → (add packets pq).packets ≡ pq.packets ++ packets
  unfolding add
  add-append packets pq = append_or pq.packets packets

  -- While nothing was cleared, what was added is what was sent and what is still in the queue; and the
  -- loop never waits beside a packet unless it has been signalled or is about to be.
  pub record Delivered (s : System P) : Type 0 where
    pub in_order : s.cleared ≡ false → s.added ≡ s.sent ++ s.queue.packets
    pub signalled :
        s.poller ≡ selecting → s.queue.packets ≢ [] → (s.queue.ready ≡ true) ⊎ (s.adders ≢ 0)

  Step-Delivered : (s t : System P) → Step s t → Delivered s → Delivered t
  unfolding signal polls wakes sends get get_ready reset close
  Step-Delivered s _ (adds packets) v = record {
    in_order = λ c.
        ap (λ xs. xs ++ packets) (v.in_order c)
        ∙ append_assoc s.sent s.queue.packets packets
        ∙ ap (◌++◌ s.sent) (sym (add-append packets s.queue));
    signalled = λ p n. inr (omega arith);
  }
  Step-Delivered s _ (signals n e) v = record { in_order = v.in_order; signalled = λ p n. inl refl }
  Step-Delivered s _ (polled e) v = record {
    in_order = λ c. v.in_order c ∙ sym (append-nil _);
    signalled = λ p n. absurd (n refl);
  }
  Step-Delivered s _ (woken e r) v = record {
    in_order = λ c. v.in_order c ∙ sym (append-nil _);
    signalled = λ p n. absurd (n refl);
  }
  Step-Delivered s _ (stopped e r) v = record { in_order = v.in_order; signalled = λ p n. cc }
  Step-Delivered s _ was_reset v = record { in_order = λ c. cc; signalled = λ p n. absurd (n refl) }
  Step-Delivered s _ was_closed v = record {
    in_order = λ c. cc;
    signalled = λ p n. absurd (n refl);
  }

  begins-Delivered : Delivered begins
  unfolding begins new_packet_queue
  begins-Delivered = record { in_order = λ c. refl; signalled = λ p n. cc }

  -- In every state that is reached, whatever the order of the goroutines' steps: while the queue was
  -- not cleared, what was added is, in order, what was sent and what is in the queue still; and where
  -- the loop waits though there is a packet, a wake-up is there or is on its way.
  pub Reached-Delivered : (s : System P) → Reached s → Delivered s
  Reached-Delivered _ start = begins-Delivered
  Reached-Delivered t (and_then {t = s} steps step) =
      Step-Delivered s t step (Reached-Delivered s steps)
