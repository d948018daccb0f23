-- ===== src/Handlers/Events.antt =====
-- `eventHandlerStore` of store.go: the handlers of events by name. A handler is the pointer of its
-- function.
pub mod Delivery
mod Tests
use Prim.Native.String.{String}
use socket_io.Base.{
  ℕ, Bool, true, false, Option, none, some, List, [], ◌∷◌, ◌++◌, length, ◌==◌, if◌then◌else◌,
  Result, ok, err, ◌>>=◌,
}
use socket_io.Base.Maps.{StringMap, lookup, insert, delete}
use socket_io.Handlers.Slices.{Panic, off_slice}

pub record EventHandlerStore : Type 0 where
  pub events : StringMap (List ℕ)
  pub events_once : StringMap (List ℕ)

unfoldable pub new_event_handler_store : EventHandlerStore
new_event_handler_store = record { events = []; events_once = [] }

-- A missing key reads as the empty slice.
abbrev pub found_or_empty : Option (List ℕ) → List ℕ
found_or_empty none = []
found_or_empty (some handlers) = handlers

unfoldable pub handlers_of : String → StringMap (List ℕ) → List ℕ
handlers_of event_name m = found_or_empty (lookup event_name m)

unfoldable pub add_handler : String → ℕ → StringMap (List ℕ) → StringMap (List ℕ)
add_handler event_name handler m = insert event_name (handlers_of event_name m ++ (handler ∷ [])) m

unfoldable pub on : String → ℕ → EventHandlerStore → EventHandlerStore
on event_name handler e = record e { events = add_handler event_name handler e.events }

unfoldable pub once : String → ℕ → EventHandlerStore → EventHandlerStore
once event_name handler e = record e { events_once = add_handler event_name handler e.events_once }

put_back : String → List ℕ → StringMap (List ℕ) → StringMap (List ℕ)
put_back event_name [] m = delete event_name m
put_back event_name (handler ∷ handlers) m = insert event_name (handler ∷ handlers) m

off_found :
    List ℕ → String → StringMap (List ℕ) → Option (List ℕ) → Result Panic (StringMap (List ℕ))
unfolding put_back
off_found handlers event_name m none = ok m
off_found handlers event_name m (some events) = do
  events' ← off_slice handlers events
  ok (put_back event_name events' m)

-- The handlers of one map that are to be removed; an event that keeps none is forgotten.
unfoldable pub off_events : List ℕ → String → StringMap (List ℕ) → Result Panic (StringMap (List ℕ))
unfolding off_found
off_events handlers event_name m = off_found handlers event_name m (lookup event_name m)

-- A panic ends the run, so the store after one is not kept.
unfoldable pub off : String → List ℕ → EventHandlerStore → Result Panic EventHandlerStore
off event_name [] e =
    ok (record {
      events = delete event_name e.events;
      events_once = delete event_name e.events_once;
    })
off event_name (handler ∷ handlers) e = do
  events ← off_events (handler ∷ handlers) event_name e.events
  events_once ← off_events (handler ∷ handlers) event_name e.events_once
  ok (record { events = events; events_once = events_once })

unfoldable pub off_all : EventHandlerStore → EventHandlerStore
off_all e = record { events = []; events_once = [] }

unfoldable pub get_all : String → EventHandlerStore → List ℕ × EventHandlerStore
get_all event_name e = (
  handlers_of event_name e.events ++ handlers_of event_name e.events_once,
  record e { events_once = delete event_name e.events_once },
)
