-- ===== src/Client/Manager.antt =====
-- client_manager.go and client_manager_conn.go: a manager opens a connection and opens it again when it
-- is lost. An Engine.IO connection is a number, and whether `eio.Dial` returned one is given. Of the
-- manager's parser, its queue and its handlers only the calls are seen.
use socket_io.Base.{
  ℕ, ◌+◌, Bool, true, false, not, ◌&&◌, ◌==◌, Option, none, some, List, [], ◌∷◌, ◌++◌, elem,
  if◌then◌else◌,
}
use socket_io.Client.Backoff.{Backoff, attempts, reset}

pub data ClientConnectionState : Type 0 where
  connecting connected reconnecting disconnected : ClientConnectionState

-- A call of `eio.Dial` and the connection that it returns have one number, `dial` for the last call.
-- `active` has those whose callbacks still have their flag set, and `subs` those that the functions in
-- `subs` clear the flag of.
pub record Manager : Type 0 where
  pub state : ClientConnectionState
  pub eio : Option ℕ
  pub no_reconnection : Bool
  pub reconnection_attempts : ℕ  -- uint32, 0 for no limit
  pub skip_reconnect : Bool
  pub backoff : Backoff
  pub active : List ℕ
  pub subs : List ℕ
  pub dial : ℕ

-- What the manager does outside its state; `starts_reconnect` is a call of `reconnect(false)`, which
-- waits until no other call is under `connectMu`.
pub data Effect : Type 0 where
  dials resets_parser closes_packet_queue starts_packet_queue starts_reconnect : Effect
  calls_open calls_error calls_close calls_reconnect_error calls_reconnect_failed : Effect
  calls_reconnect calls_reconnect_attempt sleeps closes_engine : ℕ → Effect

unfoldable pub new_manager : Bool → ℕ → Backoff → Manager
new_manager no_reconnection reconnection_attempts backoff = record {
  state = connecting;
  eio = none;
  no_reconnection = no_reconnection;
  reconnection_attempts = reconnection_attempts;
  skip_reconnect = false;
  backoff = backoff;
  active = [];
  subs = [];
  dial = 0;
}

abbrev pub is_connected : ClientConnectionState → Bool
is_connected connected = true
is_connected _ = false

abbrev pub is_disconnected : ClientConnectionState → Bool
is_disconnected disconnected = true
is_disconnected _ = false

unfoldable pub without : List ℕ → List ℕ → List ℕ
without gone [] = []
without gone (x ∷ xs) = let rest = without gone xs in if elem x gone then rest else x ∷ rest

-- `cleanup`; it resets the parser as well.
unfoldable pub cleanup : Manager → Manager
unfolding without
cleanup m = record m { active = without m.subs m.active; subs = [] }

-- `connect` up to the call of `eio.Dial`, and whether it gets there. The callbacks get through from here
-- on.
unfoldable pub start_connect : Bool → Manager → Manager × Bool
start_connect recursed m =
    let ready = if recursed then m else record m { skip_reconnect = false } in
    if is_connected ready.state then (ready, false) else (
      record ready {
        state = connecting;
        active = (ready.dial + 1) ∷ ready.active;
        dial = ready.dial + 1;
      },
      true,
    )

-- `connect` from the return of `eio.Dial` on.
unfoldable pub finish_connect : Bool → Manager → Manager × List Effect
unfolding cleanup
finish_connect false m = (record m { state = disconnected }, resets_parser ∷ calls_error ∷ [])
finish_connect true m =
    let clean = cleanup m in
    (
      record clean {
        state = connected;
        eio = some m.dial;
        subs = if elem m.dial clean.active then m.dial ∷ [] else [];
      },
      resets_parser ∷ closes_packet_queue ∷ resets_parser ∷ starts_packet_queue ∷ calls_open ∷ [],
    )

-- What `open` does when `connect` has failed.
unfoldable pub maybe_reconnect_on_open : Manager → List Effect
maybe_reconnect_on_open m =
    if attempts m.backoff == 0 && not m.no_reconnection then starts_reconnect ∷ [] else []

unfoldable pub on_reconnect : Manager → Manager × List Effect
on_reconnect m = (record m { backoff = reset m.backoff }, calls_reconnect (attempts m.backoff) ∷ [])

unfoldable pub on_close : Manager → Manager × List Effect
unfolding cleanup reset
on_close m = (
  record (cleanup m) { backoff = reset m.backoff; state = disconnected },
  resets_parser
      ∷ calls_close
      ∷ (if not m.no_reconnection && not m.skip_reconnect then starts_reconnect ∷ [] else []),
)

abbrev pub close_engine : Option ℕ → List Effect
close_engine none = []
close_engine (some connection) = closes_engine connection ∷ []

-- `Close` up to the lock `eioMu`, which `connect` holds from before `eio.Dial` to its end.
unfoldable pub close : Manager → Manager × List Effect
unfolding on_close
close m = on_close (record m { state = disconnected; skip_reconnect = true })

-- `Close` behind that lock.
unfoldable pub finish_close : Manager → List Effect
finish_close m = close_engine m.eio ++ (closes_packet_queue ∷ [])

-- The callback `OnClose` of a connection.
unfoldable pub on_engine_close : ℕ → Manager → Manager × List Effect
unfolding on_close
on_engine_close connection m = if elem connection m.active then on_close m else (m, [])
