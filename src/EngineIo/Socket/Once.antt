-- ===== src/EngineIo/Socket/Once.antt =====
-- A socket is closed once.
use Prim.Native.String.{String}
use socket_io.Base.{
  ℕ, ◌+◌, ◌≡◌, refl, ap, arith, Bool, true, false, not, List, [], ◌∷◌, ◌++◌, if◌then◌else◌,
}
use socket_io.Base.Maps.{str_eq}
use socket_io.EngineIo.Packet.{
  Packet, PacketType, open_type, close_type, ping, pong, message, upgrade, noop,
}
use socket_io.EngineIo.Socket.{
  Reason, transport_close, transport_error, forced_close, ping_timeout, ServerSocket, Effect,
  calls_on_close, leaves_store, is_of_transport, send, upgrade_to, close, on_transport_close,
  handle_packet, handle_packets, on_packet, send_ping, take_pong, on_ping_timeout, Call, sends,
  gets, upgrades, transport_closes, server_closes, pings, takes_pong, ping_times_out, step, steps,
}

abbrev pub is_close : Effect → ℕ
is_close (calls_on_close reason) = 1
is_close e = 0

abbrev pub is_leave : Effect → ℕ
is_leave (leaves_store id) = 1
is_leave e = 0

-- How many of the effects are such.
pub count : (Effect → ℕ) → List Effect → ℕ
count is [] = 0
count is (e ∷ effects) = is e + count is effects

count-append :
    (is : Effect → ℕ) (xs ys : List Effect) → count is (xs ++ ys) ≡ count is xs + count is ys
unfolding count
count-append is [] ys = omega arith
count-append is (e ∷ xs) ys = omega (arith, count-append is xs ys)

abbrev pub as_count : Bool → ℕ
as_count true = 1
as_count false = 0

-- The callback and the removal from the store happen when the socket goes from open to closed.
record Counts (s : ServerSocket) (r : ServerSocket × List Effect) : Type 0 where
  closes : as_count s.closed + count is_close r.1 ≡ as_count r.0.closed
  leaves : as_count s.closed + count is_leave r.1 ≡ as_count r.0.closed

either :
    {A : Type 0} (P : A → Type 0) (b : Bool) {x y : A}
    → (b ≡ true → P x)
    → (b ≡ false → P y)
    → P (if b then x else y)
either P true px py = px refl
either P false px py = py refl

unchanged : (s : ServerSocket) → Counts s (s, [])
unfolding count
unchanged s = record { closes = omega arith; leaves = omega arith }

close-Counts : (reason : Reason) (s : ServerSocket) → Counts s (close reason s)
unfolding close count
close-Counts reason s =
    either (Counts s) s.closed (λ _. unchanged s)
      (λ e. record {
        closes = rw e (
            either (λ effects. 0 + count is_close (effects ++ ends) ≡ 1)
              (not (is_of_transport reason)) (λ _. refl) (λ _. refl));
        leaves = rw e (
            either (λ effects. 0 + count is_leave (effects ++ ends) ≡ 1)
              (not (is_of_transport reason)) (λ _. refl) (λ _. refl));
      })
  where
    ends : List Effect
    ends = calls_on_close reason ∷ leaves_store s.id ∷ []

on_transport_close-Counts :
    (name : String) (with_error : Bool) (s : ServerSocket)
    → Counts s (on_transport_close name with_error s)
unfolding on_transport_close
on_transport_close-Counts name with_error s =
    either (Counts s) s.closed (λ _. unchanged s)
      (λ _.
        either (Counts s) (not (str_eq s.transport.name name)) (λ _. unchanged s)
          (λ _. close-Counts (if with_error then transport_error else transport_close) s))

handle_packet-Counts : (t : PacketType) (s : ServerSocket) → Counts s (handle_packet t s)
unfolding handle_packet count
handle_packet-Counts pong s = record { closes = omega arith; leaves = omega arith }
handle_packet-Counts close_type s = record { closes = omega arith; leaves = omega arith }
handle_packet-Counts open_type s = record { closes = omega arith; leaves = omega arith }
handle_packet-Counts ping s = record { closes = omega arith; leaves = omega arith }
handle_packet-Counts message s = record { closes = omega arith; leaves = omega arith }
handle_packet-Counts upgrade s = record { closes = omega arith; leaves = omega arith }
handle_packet-Counts noop s = record { closes = omega arith; leaves = omega arith }

-- One after another.
and_then :
    (s : ServerSocket) (r t : ServerSocket × List Effect)
    → Counts s r
    → Counts r.0 t
    → Counts s (t.0, r.1 ++ t.1)
and_then s r t c d = record {
  closes = omega (arith, c.closes, d.closes, count-append is_close r.1 t.1);
  leaves = omega (arith, c.leaves, d.leaves, count-append is_leave r.1 t.1);
}

handle_packets-Counts :
    (packets : List Packet) (s : ServerSocket) → Counts s (handle_packets packets s)
unfolding handle_packets
handle_packets-Counts [] s = unchanged s
handle_packets-Counts (p ∷ packets) s =
    let first = handle_packet p.type s in
    and_then s first (handle_packets packets first.0) (handle_packet-Counts p.type s)
      (handle_packets-Counts packets first.0)

step-Counts : (c : Call) (s : ServerSocket) → Counts s (step c s)
unfolding step send on_packet upgrade_to send_ping take_pong on_ping_timeout count
step-Counts (sends packets) s = record { closes = omega arith; leaves = omega arith }
step-Counts (gets packets) s =
    let v = handle_packets-Counts packets s in
    record { closes = omega (arith, v.closes); leaves = omega (arith, v.leaves) }
step-Counts (upgrades t) s = record { closes = omega arith; leaves = omega arith }
step-Counts (transport_closes name with_error) s = on_transport_close-Counts name with_error s
step-Counts server_closes s = close-Counts forced_close s
step-Counts pings s =
    either (λ (t : ServerSocket). Counts s (t, [])) s.closed (λ _. unchanged s)
      (λ _. record { closes = omega arith; leaves = omega arith })
step-Counts takes_pong s = record { closes = omega arith; leaves = omega arith }
step-Counts ping_times_out s = close-Counts ping_timeout s

steps-Counts : (calls : List Call) (s : ServerSocket) → Counts s (steps calls s)
unfolding steps
steps-Counts [] s = unchanged s
steps-Counts (c ∷ calls) s =
    and_then s (step c s) (steps calls (step c s).0) (step-Counts c s)
      (steps-Counts calls (step c s).0)

-- Whatever reaches an open socket, in whatever order: its callback `OnClose` is called and it leaves
-- the store once if it is closed in the end, and not at all if it is not.
pub steps-close_once :
    (calls : List Call) (s : ServerSocket)
    → s.closed ≡ false
    → let r = steps calls s in
      (count is_close r.1 ≡ as_count r.0.closed) × (count is_leave r.1 ≡ as_count r.0.closed)
steps-close_once calls s e =
    let v = steps-Counts calls s in
    let open_first : as_count s.closed ≡ 0 = ap as_count e in
    (omega (arith, v.closes, open_first), omega (arith, v.leaves, open_first))
