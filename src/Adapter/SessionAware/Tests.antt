-- ===== src/Adapter/SessionAware/Tests.antt =====
-- The theorems at an adapter with two packets, over sets that are lists.
use Prim.Native.String.{String}
use socket_io.Base.{ℕ, ◌≡◌, refl, true, none, List, [], ◌∷◌}
use socket_io.Base.Maps.{str_eq, str_elem, lookup, insert, update_at, is_some}
use socket_io.Parser.Header.{PacketHeader, event, binary_event}
use socket_io.Adapter.Sets.{list_sets, add_name}
use socket_io.Adapter.Memory.{BroadcastOptions, InMemoryAdapter, new_adapter, add_all, apply}
use socket_io.Adapter.Memory.Runs.{Call, adds_all, run, step, run-new_adapter-Inv}
use socket_io.Adapter.SessionAware.{
  PersistedPacket, SessionToPersist, SessionAwareAdapter, should_include_packet, Encoder,
}
use socket_io.Adapter.SessionAware.Missed.{Emission}
use socket_io.Adapter.SessionAware.Cleaner.{Unknown}
use socket_io.Adapter.SessionAware.Receivers.{AreRoomsOf, should_include_packet-apply}

abbrev header : PacketHeader
header = record { type = event; nsp = []; id = none; attachments = 0 }

abbrev to_room : String → BroadcastOptions (List String)
to_room room = record { rooms = room ∷ []; except = [] }

abbrev packet : String → ℕ → PersistedPacket (List String) String
packet id now = record {
  id = id;
  emitted_at = now;
  opts = to_room "red";
  header = header;
  packet_data = "hi" ∷ id ∷ [];
}

abbrev session : SessionToPersist (List String) String
session = record { sid = "s"; pid = "p"; rooms = "s" ∷ "red" ∷ []; missed_packets = [] }

abbrev adapter : SessionAwareAdapter (List String) String
adapter = record {
  max_disconnect_duration = 100;
  sessions = [];
  packets = packet "1" 10 ∷ packet "2" 20 ∷ [];
}

abbrev emissions : List (Emission (List String) String)
emissions =
    record { now = 40; id = "3"; header = header; v = "blue" ∷ []; opts = to_room "blue" }
    ∷ record { now = 50; id = "4"; header = header; v = "red" ∷ []; opts = to_room "red" }
    ∷ []

-- An encoder that takes an event for one with a binary attachment.
abbrev encoder : Encoder String
encoder header values =
    (record header { type = binary_event; attachments = 1 }, "placeholder" ∷ values)

others : Unknown "2" (packet "1" 10 ∷ [])
unfolding str_eq
others = (refl, tt)

abbrev joined : List Call
joined = adds_all "s" ("s" ∷ "red" ∷ []) ∷ []

abbrev rooms : InMemoryAdapter (List String)
rooms = run list_sets joined (new_adapter list_sets)

known : is_some (lookup "s" rooms.sids) ≡ true
unfolding run step new_adapter add_all lookup str_eq insert update_at add_name str_elem
known = refl

rooms_of_s : AreRoomsOf list_sets "s" rooms ("red" ∷ "s" ∷ [])
unfolding run step new_adapter add_all lookup str_eq insert update_at add_name str_elem
rooms_of_s = λ room. refl

should_include_packet-apply_example :
    should_include_packet list_sets ("red" ∷ "s" ∷ []) (to_room "red")
    ≡ str_elem "s" (apply list_sets (λ s. true) rooms (to_room "red"))
should_include_packet-apply_example =
    should_include_packet-apply list_sets "s" rooms (run-new_adapter-Inv list_sets joined)
      ("red" ∷ "s" ∷ []) rooms_of_s (λ s. true) (to_room "red") known refl
