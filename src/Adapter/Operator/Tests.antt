-- ===== src/Adapter/Operator/Tests.antt =====
-- The theorem at an operator that names a room and excepts another, over sets that are lists.
use Prim.Native.String.{String}
use socket_io.Base.{◌≡◌, refl, true, false, not, ◌&&◌, List, [], ◌∷◌, err, if◌then◌else◌}
use socket_io.Base.Maps.{str_elem, is_some, lookup, str_eq}
use socket_io.Adapter.Sets.{list_sets}
use socket_io.Adapter.Memory.{InMemoryAdapter, new_adapter, apply}
use socket_io.Adapter.Memory.Runs.{adds_all, run}
use socket_io.Adapter.Memory.Targets.{in_some}
use socket_io.Adapter.Operator.{emit, callback_given, options}
use socket_io.Adapter.Operator.Reach.{
  Modifier, calls_to, calls_except, calls_local, named, excepted, is_nil, operator,
  elem-apply-options,
}

abbrev modifiers : List Modifier
modifiers = calls_to ("red" ∷ []) ∷ calls_local ∷ calls_except ("b" ∷ []) ∷ []

abbrev rooms : InMemoryAdapter (List String)
rooms =
    run list_sets (adds_all "a" ("a" ∷ "red" ∷ []) ∷ adds_all "b" ("b" ∷ "red" ∷ []) ∷ [])
      (new_adapter list_sets)

elem-apply-options_example :
    str_elem "a"
      (apply list_sets (λ s. true) rooms (options list_sets (operator list_sets modifiers [])))
    ≡ ((if is_nil (named modifiers)
          then is_some (lookup "a" rooms.sids)
          else in_some list_sets (named modifiers) "a" rooms.rooms)
        && (true && not (in_some list_sets (excepted modifiers) "a" rooms.rooms)))
elem-apply-options_example = elem-apply-options list_sets modifiers [] (λ s. true) rooms "a"

no_callbacks :
    emit list_sets
      (λ e. str_eq e "connect")
      (λ b. b)
      (λ s. false)
      "chat"
      (false ∷ true ∷ [])
      (operator list_sets modifiers [])
    ≡ err callback_given
unfolding emit str_eq
no_callbacks = refl
