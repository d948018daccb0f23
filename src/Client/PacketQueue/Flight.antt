-- ===== src/Client/PacketQueue/Flight.antt =====
-- Without forced rounds one packet is on its way at a time, and each is tried a limited number of
-- times.
use socket_io.Base.{
  ℕ, suc, ◌+◌, ◌%◌, ◌^◌, ◌-◌, ◌≤◌, ◌<◌, ◌≡◌, refl, sym, ap, ◌∙◌, arith, Bool, true, false, not,
  ◌&&◌, ◌==◌, ltb, Option, none, some, List, [], ◌∷◌, ◌++◌, All, All-append, if◌then◌else◌, if-true,
  if-false, subst, Bool-cases, inl, inr, ==_refl,
}
use socket_io.Client.PacketQueue.{
  QueuedPacket, Heap, update, PacketQueue, Effect, sends, calls_ack, new_packet,
  new_client_packet_queue, drain_first, drain_packets, drain_queue, add_to_queue, own_ack, settle,
  drop_first, replacement_ack,
}

-- The packet that the effects send, if any.
abbrev pub sent : List Effect → Option ℕ
sent [] = none
sent (sends id ∷ effects) = some id
sent (calls_ack id has_error ∷ effects) = sent effects

-- The queue with the packet that is on its way: packets are added, and what was sent is answered, by an
-- acknowledgement or an error, while the socket is connected or not.
pub data Reached (retries : ℕ) : Option ℕ → PacketQueue → Type 0 where
  made : Reached retries none new_client_packet_queue
  added :
      {q : PacketQueue} (have_ack : Bool) (connected : Bool)
      → q.seq < 2 ^ 64 - 1
      → Reached retries none q
      → Reached retries
          (sent (add_to_queue connected have_ack q).1)
          (add_to_queue connected have_ack q).0
  added_behind :
      {q : PacketQueue} {flying : ℕ} (have_ack : Bool) (connected : Bool)
      → q.seq < 2 ^ 64 - 1
      → Reached retries (some flying) q
      → Reached retries (some flying) (add_to_queue connected have_ack q).0
  answered :
      {q : PacketQueue} {flying : ℕ} (connected has_error : Bool) (r : PacketQueue × List Effect)
      → Reached retries (some flying) q
      → replacement_ack retries connected has_error flying q ≡ some r
      → Reached retries (sent r.1) r.0
  reconnected :
      {q : PacketQueue} (force : Bool)
      → Reached retries none q
      → Reached retries (sent (drain_queue true force q).1) (drain_queue true force q).0

-- Numbers that rise, from one up to below another.
abbrev pub Chain : ℕ → List ℕ → ℕ → Type 0
Chain low [] high = low ≤ high
Chain low (id ∷ ids) high = (low ≤ id) × Chain (suc id) ids high

abbrev pub Waits : ℕ → Heap → ℕ → Type 0
Waits retries heap id = ((heap id).pending ≡ false) × ((heap id).try_count ≤ retries)

-- Where the packet on its way stands.
pub data Flight (retries : ℕ) : Option ℕ → List ℕ → Heap → Type 0 where
  resting :
      {ids : List ℕ} {heap : Heap} → All (Waits retries heap) ids → Flight retries none ids heap
  flying :
      {id : ℕ} {ids : List ℕ} {heap : Heap}
      → (heap id).pending ≡ true
      → (heap id).try_count ≤ suc retries
      → All (Waits retries heap) ids
      → Flight retries (some id) (id ∷ ids) heap

pub record Inv (retries : ℕ) (f : Option ℕ) (q : PacketQueue) : Type 0 where
  pub low : ℕ
  pub chain : Chain low q.queued_packets q.seq
  pub flight : Flight retries f q.queued_packets q.heap

Chain-append :
    (low high : ℕ) (ids : List ℕ) → Chain low ids high → Chain low (ids ++ (high ∷ [])) (suc high)
Chain-append low high [] c = (c, omega arith)
Chain-append low high (id ∷ ids) c = (c.0, Chain-append (suc id) high ids c.1)

update_other :
    (id i : ℕ) (p : QueuedPacket) (heap : Heap) → i == id ≡ false → update id p heap i ≡ heap i
unfolding update
update_other id i p heap e = if-false _ e

update_same : (id : ℕ) (p : QueuedPacket) (heap : Heap) → update id p heap id ≡ p
unfolding update
update_same id p heap = if-true _ (==_refl id)

Waits-update :
    (retries id i : ℕ) (p : QueuedPacket) (heap : Heap)
    → i == id ≡ false
    → Waits retries heap i
    → Waits retries (update id p heap) i
Waits-update retries id i p heap e w =
    let same = sym (update_other id i p heap e) in
    (
      ap (λ (x : QueuedPacket). x.pending) (sym same) ∙ w.0,
      subst (λ (x : QueuedPacket). x.try_count ≤ retries) same w.1,
    )

-- A change below the queue's numbers, and one above them.
All-below :
    (retries id low high : ℕ) (p : QueuedPacket) (heap : Heap) (ids : List ℕ)
    → id < low
    → Chain low ids high
    → All (Waits retries heap) ids
    → All (Waits retries (update id p heap)) ids
All-below retries id low high p heap [] h c w = tt
All-below retries id low high p heap (i ∷ ids) h c w = (
  Waits-update retries id i p heap (ground (arith, c.0)) w.0,
  All-below retries id (suc i) high p heap ids (omega (arith, c.0)) c.1 w.1,
)

Chain-le : (low high : ℕ) (ids : List ℕ) → Chain low ids high → low ≤ high
Chain-le low high [] c = c
Chain-le low high (i ∷ ids) c = omega (arith, c.0, Chain-le (suc i) high ids c.1)

All-above :
    (retries id low high : ℕ) (p : QueuedPacket) (heap : Heap) (ids : List ℕ)
    → high ≤ id
    → Chain low ids high
    → All (Waits retries heap) ids
    → All (Waits retries (update id p heap)) ids
All-above retries id low high p heap [] h c w = tt
All-above retries id low high p heap (i ∷ ids) h c w = (
  Waits-update retries id i p heap (let l = Chain-le (suc i) high ids c.1 in ground arith) w.0,
  All-above retries id (suc i) high p heap ids h c.1 w.1,
)

either : {A : Type 0} (P : A → Type 0) (b : Bool) {x y : A} → P x → P y → P (if b then x else y)
either P true px py = px
either P false px py = py

abbrev After : ℕ → PacketQueue × List Effect → Type 0
After retries r = Inv retries (sent r.1) r.0

-- A round of draining a queue that rests.
drain-Inv :
    (retries low seq : ℕ) (connected force : Bool) (ids : List ℕ) (heap : Heap)
    → Chain low ids seq
    → All (Waits retries heap) ids
    → After retries
        (drain_queue connected force (record { seq = seq; queued_packets = ids; heap = heap }))
unfolding drain_queue drain_packets drain_first
drain-Inv retries low seq connected force [] heap c w = record {
  low = low;
  chain = c;
  flight = resting tt;
}
drain-Inv retries low seq connected force (id ∷ ids) heap c w =
    let still : Inv retries none (record { seq = seq; queued_packets = id ∷ ids; heap = heap }) =
      record { low = low; chain = c; flight = resting w } in
    let packet = heap id in
    let sent_packet = record packet { pending = true; try_count = packet.try_count + 1 } in
    let same = sym (update_same id sent_packet heap) in
    either (After retries) (not connected) still (
      either (After retries) (packet.pending && not force) still (record {
        low = low;
        chain = c;
        flight =
            flying (subst (λ (x : QueuedPacket). x.pending ≡ true) same refl)
              (subst (λ (x : QueuedPacket). x.try_count ≤ suc retries) same (omega (arith, w.0.1)))
              (All-below retries id (suc id) seq sent_packet heap ids (omega arith) c.1 w.1);
      }))

new-Waits :
    (retries seq : ℕ) (have_ack : Bool) (heap : Heap)
    → Waits retries (update seq (new_packet have_ack) heap) seq
new-Waits retries seq have_ack heap =
    let same = sym (update_same seq (new_packet have_ack) heap) in
    (
      subst (λ (x : QueuedPacket). x.pending ≡ false) same refl,
      subst (λ (x : QueuedPacket). x.try_count ≤ retries) same (omega arith),
    )

resting-All :
    {retries : ℕ} {ids : List ℕ} {heap : Heap}
    → Flight retries none ids heap
    → All (Waits retries heap) ids
resting-All (resting w) = w

add-Inv :
    (retries : ℕ) (have_ack connected : Bool) (q : PacketQueue)
    → q.seq < 2 ^ 64 - 1
    → Inv retries none q
    → After retries (add_to_queue connected have_ack q)
unfolding add_to_queue
add-Inv retries have_ack connected q h v =
    let next : suc q.seq ≡ (q.seq + 1) % 2 ^ 64 = omega (arith, h) in
    let packet = new_packet have_ack in
    let kept =
      All-above retries q.seq v.low q.seq packet q.heap q.queued_packets (omega arith) v.chain
        (resting-All v.flight) in
    drain-Inv retries v.low ((q.seq + 1) % 2 ^ 64) connected false
      (q.queued_packets ++ (q.seq ∷ [])) (update q.seq packet q.heap)
      (subst (Chain v.low (q.queued_packets ++ (q.seq ∷ []))) next
        (Chain-append v.low q.seq q.queued_packets v.chain))
      (All-append (Waits retries (update q.seq packet q.heap)) q.queued_packets (q.seq ∷ []) kept
        (new-Waits retries q.seq have_ack q.heap, tt))

-- What is added behind a packet on its way is not sent yet.
add_behind-Inv :
    (retries low seq : ℕ) (have_ack connected : Bool) (id : ℕ) (ids : List ℕ) (heap : Heap)
    → seq < 2 ^ 64 - 1
    → Chain low ids seq
    → Flight retries (some id) ids heap
    → Inv retries
        (some id)
        (add_to_queue connected have_ack
          (record { seq = seq; queued_packets = ids; heap = heap })).0
unfolding add_to_queue drain_queue drain_packets drain_first
add_behind-Inv retries low seq have_ack connected id _ heap h c (flying {ids = ids} p t w) =
    let next : suc seq ≡ (seq + 1) % 2 ^ 64 = omega (arith, h) in
    let packet = new_packet have_ack in
    let added = update seq packet heap in
    let less : id == seq ≡ false = let l = Chain-le (suc id) seq ids c.1 in ground arith in
    let old = sym (update_other seq id packet heap less) in
    let pending = subst (λ (x : QueuedPacket). x.pending ≡ true) old p in
    let still : Inv retries (some id) (record {
      seq = (seq + 1) % 2 ^ 64;
      queued_packets = id ∷ (ids ++ (seq ∷ []));
      heap = added;
    }) =
      record {
        low = low;
        chain =
            subst (Chain low (id ∷ (ids ++ (seq ∷ [])))) next (Chain-append low seq (id ∷ ids) c);
        flight = flying pending (subst (λ (x : QueuedPacket). x.try_count ≤ suc retries) old t) (
            All-append (Waits retries added) ids (seq ∷ [])
              (All-above retries seq (suc id) seq packet heap ids (omega arith) c.1 w)
              (new-Waits retries seq have_ack heap, tt));
      } in
    either (λ (r : PacketQueue × List Effect). Inv retries (some id) r.0) (not connected) still
      (subst (λ (r : PacketQueue × List Effect). Inv retries (some id) r.0)
        (sym (if-true _ (ap (λ b. b && true) pending))) still)

sent-own_ack :
    (packet : QueuedPacket) (id : ℕ) (has_error : Bool) (effects : List Effect)
    → sent (own_ack packet id has_error ++ effects) ≡ sent effects
sent-own_ack packet id has_error effects =
    either (λ acks. sent (acks ++ effects) ≡ sent effects) packet.have_ack refl refl

settle-Inv :
    (retries low seq : ℕ) (connected : Bool) (id : ℕ) (ids : List ℕ) (heap : Heap)
    → Chain low ids seq
    → All (Waits retries (update id (record (heap id) { pending = false }) heap)) ids
    → After retries (settle connected id (record { seq = seq; queued_packets = ids; heap = heap }))
unfolding settle
settle-Inv retries low seq connected id ids heap c w =
    drain-Inv retries low seq connected false ids
      (update id (record (heap id) { pending = false }) heap) c w

some_same : {A : Type 0} {x y : A} → some x ≡ some y → x ≡ y
some_same e = cc

answer-Inv :
    (retries low seq : ℕ) (connected has_error : Bool) (id : ℕ) (ids : List ℕ) (heap : Heap)
    (r : PacketQueue × List Effect)
    → Chain low ids seq
    → Flight retries (some id) ids heap
    → replacement_ack retries connected has_error id
        (record { seq = seq; queued_packets = ids; heap = heap })
      ≡ some r
    → After retries r
unfolding replacement_ack drop_first
answer-Inv retries low seq connected has_error id _ heap r c (flying {ids = ids} p t w) e =
    elim (Bool-cases (has_error && not (ltb retries (heap id).try_count))) [
      | inl b ↦ subst (After retries) (some_same (sym (if-true _ b) ∙ e)) (
          settle-Inv retries low seq connected id (id ∷ ids) heap c
            (again b, All-below retries id (suc id) seq done heap ids (omega arith) c.1 w))
      | inr b ↦ subst (After retries) (some_same (sym (if-false _ b) ∙ e)) (dropped c.1)
    ]
  where
    done : QueuedPacket
    done = record (heap id) { pending = false }

    again :
        (has_error && not (ltb retries (heap id).try_count)) ≡ true
        → Waits retries (update id done heap) id
    again b =
        let same = sym (update_same id done heap) in
        (
          subst (λ (x : QueuedPacket). x.pending ≡ false) same refl,
          subst (λ (x : QueuedPacket). x.try_count ≤ retries) same (ground (arith, b)),
        )

    dropped :
        Chain (suc id) ids seq
        → After retries (
          (settle connected id (record { seq = seq; queued_packets = ids; heap = heap })).0,
          own_ack (heap id) id has_error
              ++ (settle connected id (record { seq = seq; queued_packets = ids; heap = heap })).1,
        )
    dropped c' =
        let settled =
          settle connected id (record { seq = seq; queued_packets = ids; heap = heap }) in
        subst (λ f. Inv retries f settled.0) (sym (sent-own_ack (heap id) id has_error settled.1))
          (settle-Inv retries (suc id) seq connected id ids heap c'
            (All-below retries id (suc id) seq done heap ids (omega arith) c' w))

-- In every state that the queue reaches while nothing is sent again before it was answered: the packets
-- are in the order in which they were added; if one is on its way it is the first, and no other is
-- taken for one that waits for its answer; and no packet that waits was tried more often than the
-- number of retries, the one on its way at most once more.
pub Reached-one_flying :
    {retries : ℕ} {f : Option ℕ} {q : PacketQueue} → Reached retries f q → Inv retries f q
unfolding new_client_packet_queue
Reached-one_flying made = record { low = 0; chain = omega arith; flight = resting tt }
Reached-one_flying {retries = retries} (added {q = q} have_ack connected h r) =
    add-Inv retries have_ack connected q h (Reached-one_flying r)
Reached-one_flying {retries = retries} (added_behind {q = q} {flying = id} have_ack connected h r) =
    let v = Reached-one_flying r in
    add_behind-Inv retries v.low q.seq have_ack connected id q.queued_packets q.heap h v.chain
      v.flight
Reached-one_flying {retries = retries}
      (answered {q = q} {flying = id} connected has_error result r e) =
    let v = Reached-one_flying r in
    answer-Inv retries v.low q.seq connected has_error id q.queued_packets q.heap result v.chain
      v.flight e
Reached-one_flying {retries = retries} (reconnected {q = q} force r) =
    let v = Reached-one_flying r in
    drain-Inv retries v.low q.seq true force q.queued_packets q.heap v.chain (resting-All v.flight)
