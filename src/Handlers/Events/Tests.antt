-- ===== src/Handlers/Events/Tests.antt =====
-- The theorems at a store with two events.
use Prim.Native.String.{String}
use socket_io.Base.{◌≡◌, refl, arith, [], ◌∷◌, ok, if◌then◌else◌}
use socket_io.Base.Maps.{lookup, str_eq}
use socket_io.Handlers.Slices.Single.{without}
use socket_io.Handlers.Events.{EventHandlerStore, handlers_of, off, get_all}
use socket_io.Handlers.Events.Delivery.{IsOrderly, Others, off-get_all}

abbrev two_events : EventHandlerStore
two_events = record {
  events = ("chat", 1 ∷ 2 ∷ []) ∷ ("join", 3 ∷ []) ∷ [];
  events_once = ("chat", 4 ∷ []) ∷ [];
}

orderly : IsOrderly "chat" two_events
unfolding handlers_of lookup str_eq
orderly = record { always = omega arith; once = omega arith }

off-get_all_example :
    (e' : EventHandlerStore) × (off "chat" (2 ∷ []) two_events ≡ ok e')
    × ((other : String)
        → (get_all other e').0 ≡ (
            if str_eq "chat" other
            then without 2 (get_all other two_events).0
            else (get_all other two_events).0))
off-get_all_example = off-get_all "chat" 2 two_events orderly

others : Others "chat" ("join" ∷ [])
unfolding str_eq
others = (refl, tt)
