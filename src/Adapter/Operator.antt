-- ===== src/Adapter/Operator.antt =====
-- adapter/broadcast_operator.go: what is emitted, and to whom, is put together in copies of an operator.
-- The adapter it calls in the end is not part of the operator here: `emit` gives the arguments of
-- `Broadcast`. The values are those of a type `V`, some of which are functions.
pub mod Reach
mod Tests
use Prim.Native.String.{String}
use socket_io.Base.{
  ℕ, Bool, true, false, Option, none, some, List, [], ◌∷◌, Bytes, if◌then◌else◌, Result, ok, err,
}
use socket_io.Parser.Header.{PacketHeader, event}
use socket_io.Adapter.Sets.{Sets, Room}
use socket_io.Adapter.Memory.{BroadcastOptions}

pub record BroadcastFlags : Type 0 where
  pub compress : Bool
  pub local : Bool

pub record BroadcastOperator (Set : Type 0) : Type 0 where
  pub nsp : Bytes
  pub rooms : Set
  pub except_rooms : Set
  pub flags : BroadcastFlags

-- The two panics of `Emit`.
pub data EmitPanic : Type 0 where
  reserved_event callback_given : EmitPanic

module _ (S : Sets) where
  open S use {Set, empty, add}

  unfoldable pub new_broadcast_operator : Bytes → BroadcastOperator Set
  new_broadcast_operator nsp = record {
    nsp = nsp;
    rooms = empty;
    except_rooms = empty;
    flags = record { compress = false; local = false };
  }

  pub add_rooms : List Room → Set → Set
  add_rooms [] s = s
  add_rooms (room ∷ rooms) s = add_rooms rooms (add room s)

  unfoldable pub to : List Room → BroadcastOperator Set → BroadcastOperator Set
  unfolding add_rooms
  to rooms b = record b { rooms = add_rooms rooms b.rooms }

  unfoldable pub except : List Room → BroadcastOperator Set → BroadcastOperator Set
  unfolding add_rooms
  except rooms b = record b { except_rooms = add_rooms rooms b.except_rooms }

  unfoldable pub compress : Bool → BroadcastOperator Set → BroadcastOperator Set
  compress value b = record b { flags = record b.flags { compress = value } }

  unfoldable pub local : BroadcastOperator Set → BroadcastOperator Set
  local b = record b { flags = record b.flags { local = true } }

  -- The options that `Emit`, `FetchSockets` and the others make.
  unfoldable pub options : BroadcastOperator Set → BroadcastOptions Set
  options b = record { rooms = b.rooms; except = b.except_rooms }

  module _ {V : Type 0} (is_event_reserved : String → Bool) (is_function : V → Bool)
      (text : String → V) where
    -- The last of the values, the name of the event among them.
    last_of : V → List V → V
    last_of v [] = v
    last_of v (w ∷ values) = last_of w values

    unfoldable pub emit :
        String
        → List V
        → BroadcastOperator Set
        → Result EmitPanic (PacketHeader × List V × BroadcastOptions Set)
    unfolding last_of
    emit event_name values b =
        if is_event_reserved event_name
        then err reserved_event
        else if is_function (last_of (text event_name) values)
        then err callback_given
        else ok (
          record { type = event; nsp = b.nsp; id = none; attachments = 0 },
          text event_name ∷ values,
          options b,
        )
