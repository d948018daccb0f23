-- ===== src/Handlers/Ack/Once.antt =====
-- A function that waits for an acknowledgement is called once.
use socket_io.Base.{ℕ, ◌+◌, ◌≤◌, ◌≡◌, refl, arith, Bool, true, false, if◌then◌else◌}
use socket_io.Handlers.Ack.{
  Pending, register_ack_handler, take_ack, drop_ack, call, on_timeout, Reached, registered,
  answered, undecodable, called_back, woke,
}

abbrev count : Bool → ℕ
count true = 1
count false = 0

-- Of the handler's ways to a call there is one at a time: it is in the map, or taken, or was called by
-- an answer; each call is by the answer or by the timeout, not by both; and the goroutine of the
-- timeout ends only with a call.
pub record Inv (with_timeout : Bool) (p : Pending) : Type 0 where
  pub one_way : count p.in_acks + (count p.taken + count p.handler.called) ≤ 1
  pub calls : p.calls ≡ count p.handler.called + count p.handler.timed_out
  pub apart : count p.handler.called + count p.handler.timed_out ≤ 1
  pub waits : count p.timer + count p.handler.timed_out ≤ 1
  pub ends : count with_timeout ≤ count p.timer + p.calls

register_ack_handler-Inv : (w : Bool) → Inv w (register_ack_handler w)
unfolding register_ack_handler
register_ack_handler-Inv true = record {
  one_way = omega arith;
  calls = omega arith;
  apart = omega arith;
  waits = omega arith;
  ends = omega arith;
}
register_ack_handler-Inv false = record {
  one_way = omega arith;
  calls = omega arith;
  apart = omega arith;
  waits = omega arith;
  ends = omega arith;
}

either :
    {A : Type 0} (P : A → Type 0) (b : Bool) {x y : A}
    → (b ≡ true → P x)
    → (b ≡ false → P y)
    → P (if b then x else y)
either P true px py = px refl
either P false px py = py refl

module _ (w : Bool) (p : Pending) (v : Inv w p) where
  take_ack-Inv : Inv w (take_ack p)
  unfolding take_ack
  take_ack-Inv =
      either (Inv w) p.in_acks
        (λ e. record {
          one_way = ground (arith, v.one_way);
          calls = v.calls;
          apart = v.apart;
          waits = v.waits;
          ends = v.ends;
        })
        (λ e. v)

  drop_ack-Inv : Inv w (drop_ack p)
  unfolding drop_ack
  drop_ack-Inv = record {
    one_way = omega (arith, v.one_way);
    calls = v.calls;
    apart = v.apart;
    waits = v.waits;
    ends = v.ends;
  }

  call-Inv : p.taken ≡ true → Inv w (call p)
  unfolding call
  call-Inv t =
      either (Inv w) p.handler.timed_out
        (λ e. record {
          one_way = omega (arith, v.one_way);
          calls = v.calls;
          apart = v.apart;
          waits = v.waits;
          ends = v.ends;
        })
        (λ e. record {
          one_way = ground (arith, v.one_way);
          calls = ground (arith, v.one_way, v.calls);
          apart = ground (arith, v.apart);
          waits = v.waits;
          ends = omega (arith, v.ends);
        })

  on_timeout-Inv : p.timer ≡ true → Inv w (on_timeout p)
  unfolding on_timeout
  on_timeout-Inv t =
      either (Inv w) p.handler.called
        (λ e. record {
          one_way = v.one_way;
          calls = v.calls;
          apart = v.apart;
          waits = omega (arith, v.waits);
          ends = ground (arith, v.ends, v.calls);
        })
        (λ e. record {
          one_way = omega (arith, v.one_way);
          calls = ground (arith, v.calls, v.waits);
          apart = ground (arith, v.apart);
          waits = omega arith;
          ends = ground (arith, v.ends);
        })

Reached-Inv : (w : Bool) (p : Pending) → Reached w p → Inv w p
Reached-Inv w _ registered = register_ack_handler-Inv w
Reached-Inv w _ (answered {p = p} r) = take_ack-Inv w p (Reached-Inv w p r)
Reached-Inv w _ (undecodable {p = p} t r) = drop_ack-Inv w p (Reached-Inv w p r)
Reached-Inv w _ (called_back {p = p} t r) = call-Inv w p (Reached-Inv w p r) t
Reached-Inv w _ (woke {p = p} t r) = on_timeout-Inv w p (Reached-Inv w p r) t

-- In whatever order answers, calls and the timeout happen, the function of an acknowledgement is called
-- once at most; and with a timeout it has been called once when the goroutine that waits is done.
pub Reached-called_once :
    (with_timeout : Bool) (p : Pending)
    → Reached with_timeout p
    → (p.calls ≤ 1) × (with_timeout ≡ true → p.timer ≡ false → p.calls ≡ 1)
Reached-called_once with_timeout p r =
    let v = Reached-Inv with_timeout p r in
    (omega (arith, v.calls, v.apart), λ w t. ground (arith, v.ends, v.calls, v.apart))
