-- ===== src/Client/Reconnect/Reach.antt =====
-- The states that a manager reaches, with a goroutine that connects, calls of `Close`, and connections
-- that are lost, in any order.
pub mod Flags
pub mod Steps
pub mod Invariant
use socket_io.Base.{
  ℕ, ◌+◌, ◌≡◌, refl, sym, ap, ◌∙◌, arith, Bool, true, false, not, ◌&&◌, ◌||◌, ◌⊎◌, inl, inr, Option,
  some, List, [], ◌∷◌, ◌++◌, elem, if◌then◌else◌,
}
use socket_io.Client.Backoff.{Backoff, duration, reset}
use socket_io.Client.Manager.{
  ClientConnectionState, connecting, connected, reconnecting, disconnected, Manager, new_manager,
  is_connected, is_disconnected, without, cleanup, start_connect, finish_connect, on_reconnect,
  on_close, close, on_engine_close,
}
use socket_io.Client.Reconnect.{
  Input, Moved, Phase, idle, looking, sleeping, announcing, attempting, dialing, open_first,
  enter_reconnect, max_reached, look, wake, announce, attempt, dial_done, advance,
}

abbrev pub is_reconnecting : ClientConnectionState → Bool
is_reconnecting reconnecting = true
is_reconnecting _ = false

-- Where a call of `Close` is overlooked by `reconnect`: from its last test of `skipReconnect` to its
-- next look at the state.
abbrev pub overlooks : Phase → Bool
overlooks looking = true
overlooks attempting = true
overlooks (dialing recursed) = recursed
overlooks _ = false

-- The flag says whether a call of `Close` came at such a point since the last `open`.
pub data Reached : Bool → Phase → Manager → Type 0 where
  made :
      (no_reconnection : Bool) (reconnection_attempts : ℕ) (backoff : Backoff)
      → Reached false idle (new_manager no_reconnection reconnection_attempts backoff)
  opened :
      {f : Bool} {m : Manager}
      → Reached f idle m
      → Reached false (open_first m).0 (open_first m).1.0
  entered :
      {f : Bool} {m : Manager}
      → Reached f idle m
      → Reached f (enter_reconnect m).0 (enter_reconnect m).1.0
  advanced :
      {f : Bool} {p : Phase} {m : Manager} (input : Input)
      → Reached f p m
      → Reached f (advance input p m).0 (advance input p m).1.0
  closed :
      {f : Bool} {p : Phase} {m : Manager}
      → Reached f p m
      → Reached (f || overlooks p) p (close m).0
  lost :
      {f : Bool} {p : Phase} {m : Manager} (connection : ℕ)
      → Reached f p m
      → Reached f p (on_engine_close connection m).0

-- The callbacks of the manager's connection get through, and the next `cleanup` stops them.
pub record Live (m : Manager) : Type 0 where
  pub connection : ℕ
  pub eio : m.eio ≡ some connection
  pub subs : m.subs ≡ connection ∷ []
  pub heard : elem connection m.active ≡ true
  pub stops : elem connection (cleanup m).active ≡ false

abbrev pub Callbacks : Manager → Type 0
Callbacks m = (is_connected m.state ≡ true → Live m) × (is_connected m.state ≡ false → m.subs ≡ [])

abbrev pub Asleep : Manager → Type 0
Asleep m = ((m.state ≡ reconnecting) × (m.skip_reconnect ≡ false)) ⊎ (m.state ≡ disconnected)

-- What is known of the state at each point of the goroutine.
abbrev pub Fits : Bool → Phase → Manager → Type 0
Fits false idle m = is_reconnecting m.state ≡ false
Fits false looking m = (is_reconnecting m.state ≡ false) × (m.skip_reconnect ≡ false)
Fits false sleeping m = Asleep m
Fits false announcing m = Asleep m
Fits false attempting m = (is_connected m.state ≡ false) × (m.skip_reconnect ≡ false)
Fits false (dialing true) m = (is_connected m.state ≡ false) × (m.skip_reconnect ≡ false)
Fits false (dialing false) m = is_connected m.state ≡ false
Fits true (dialing recursed) m = is_connected m.state ≡ false
Fits true _ m = Unit {0}

-- The callbacks of the call of `eio.Dial` that is waited for get through.
abbrev pub Heard : Phase → Manager → Type 0
Heard (dialing recursed) m = (is_connected m.state ≡ false) × (elem m.dial m.active ≡ true)
Heard _ m = Unit {0}

abbrev pub Inv : Bool → Phase → Manager → Type 0
Inv f p m = Fits f p m × (Callbacks m × Heard p m)
