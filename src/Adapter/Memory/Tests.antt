-- ===== src/Adapter/Memory/Tests.antt =====
-- Runs of the in-memory adapter over sets that are lists, and its theorems at such runs.
use socket_io.Base.{ltb, if◌then◌else◌, ◌&&◌, not, ◌≡◌, refl, true, List, [], ◌∷◌}
use socket_io.Base.Maps.{is_some, str_elem, str_eq, lookup, insert, delete, update_at, keys}
use socket_io.Adapter.Sets.{SocketId, list_sets, add_name, remove_name}
use socket_io.Adapter.Memory.{
  BroadcastOptions, new_adapter, apply, add_all, delete_room, delete_all, compute_except_sids,
}
use socket_io.Adapter.Memory.Runs.{
  Call, adds_all, deletes, run, step, view, spec_run, nobody, run-new_adapter,
}
use socket_io.Adapter.Memory.Targets.{elem-apply, in_some}

abbrev calls : List Call
calls =
    adds_all "a" ("red" ∷ "blue" ∷ [])
    ∷ adds_all "b" ("red" ∷ [])
    ∷ adds_all "c" []
    ∷ deletes "a" "blue"
    ∷ []

abbrev to_red : BroadcastOptions (List SocketId)
to_red = record { rooms = "red" ∷ "blue" ∷ []; except = "green" ∷ [] }

reach_red :
    apply list_sets (λ s. true) (run list_sets calls (new_adapter list_sets)) to_red
    ≡ "b" ∷ "a" ∷ []
unfolding apply run step new_adapter add_all delete_room delete_all str_elem str_eq lookup insert
    delete update_at keys add_name remove_name compute_except_sids
reach_red = refl

run-new_adapter_example :
    view list_sets (run list_sets calls (new_adapter list_sets)) ≡ spec_run calls nobody
run-new_adapter_example = run-new_adapter list_sets calls

elem-apply_example :
    str_elem "a" (apply list_sets (λ s. true) (run list_sets calls (new_adapter list_sets)) to_red)
    ≡ ((if ltb 0 (list_sets.cardinality to_red.rooms)
          then in_some list_sets
              (list_sets.each to_red.rooms)
              "a"
              (run list_sets calls (new_adapter list_sets)).rooms
          else is_some (lookup "a" (run list_sets calls (new_adapter list_sets)).sids))
        && (true
            && not (
                in_some list_sets
                  (list_sets.each to_red.except)
                  "a"
                  (run list_sets calls (new_adapter list_sets)).rooms)))
elem-apply_example =
    elem-apply list_sets (λ s. true) (run list_sets calls (new_adapter list_sets)) to_red "a"
