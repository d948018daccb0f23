-- ===== src/Server/Namespace/Tests.antt =====
-- A socket that joins, is closed and tries to join again, over sets that are lists.
use socket_io.Base.{◌≡◌, refl, true, false, ◌||◌, none, some, List, [], ◌∷◌}
use socket_io.Base.Maps.{str_elem, str_eq, lookup, insert, delete, update_at}
use socket_io.Adapter.Sets.{SocketId, list_sets, add_name, remove_name}
use socket_io.Adapter.Memory.{new_adapter, add_all, delete_all}
use socket_io.Adapter.Memory.Lemmas.{has}
use socket_io.Adapter.Memory.Runs.{new_adapter-Inv}
use socket_io.Server.Namespace.{
  Socket, Session, Recovery, transport_close, client_namespace_disconnect, Nsp, Effect,
  new_namespace, call_join, join, add, do_connect, on_close,
}
use socket_io.Server.Namespace.Reach.{Reached, made, connected, joins, closes, Left}
use socket_io.Server.Namespace.Left.{Reached-Left}
use socket_io.Server.Namespace.Denied.{
  Joined, Added, add-Joined, add-turned_away, on_close-too_early,
}

abbrev socket : Socket
socket = record {
  id = "a";
  pid = "";
  recovered = false;
  connected = false;
  closed = false;
  can_join = true;
}

abbrev empty : Nsp (List SocketId)
empty = new_namespace list_sets

abbrev recovery : Recovery
recovery = record { enabled = true; use_middlewares = true }

abbrev session : Session
session = record { sid = "s"; pid = "p"; rooms = "red" ∷ []; missed = 2 }

abbrev here : Socket × (Nsp (List SocketId) × List Effect)
here = do_connect list_sets socket empty

abbrev gone : Socket × (Nsp (List SocketId) × List Effect)
gone =
    on_close list_sets recovery transport_close here.0 (join list_sets ("red" ∷ []) here.0 here.1.0)

abbrev again : Nsp (List SocketId)
again = join list_sets ("blue" ∷ []) gone.0 gone.1.0

reached : Reached list_sets true gone.0 again
unfolding new_namespace
reached = joins ("blue" ∷ []) (
    closes recovery transport_close
      (joins ("red" ∷ []) (connected (made socket empty refl refl (new_adapter-Inv list_sets)))))

joined-here : has list_sets "a" "a" here.1.0.adapter.rooms ≡ true
unfolding do_connect add_all new_namespace new_adapter lookup insert update_at str_eq str_elem
    add_name
joined-here = refl

-- A call of `Join` that has read `s.join` before the closing puts the socket back into a room.
late_join :
    has list_sets "red" "a" (call_join list_sets true ("red" ∷ []) gone.0 gone.1.0).adapter.rooms
    ≡ true
unfolding do_connect on_close join add_all delete_all new_namespace new_adapter lookup insert delete
    update_at str_eq str_elem add_name remove_name
late_join = refl

Reached-Left_example : Left list_sets gone.0 again
unfolding on_close do_connect join new_namespace
Reached-Left_example = Reached-Left list_sets reached refl

add-Joined_example : Added list_sets (add list_sets recovery (some session) "b" "q" true empty)
unfolding new_namespace
add-Joined_example =
    add-Joined list_sets recovery (some session) "b" "q" true empty (new_adapter-Inv list_sets)

add-turned_away_example :
    let r = add list_sets recovery (some session) "b" "q" false empty in
    (r.0 ≡ none)
    × ((r.1.0.sockets ≡ empty.sockets)
        × (has list_sets "red" "s" r.1.0.adapter.rooms
            ≡ (str_elem "red" session.rooms || has list_sets "red" "s" empty.adapter.rooms)))
unfolding new_namespace
add-turned_away_example =
    add-turned_away list_sets recovery session "b" "q" empty "red" (new_adapter-Inv list_sets) refl

on_close-too_early_example :
    let early = on_close list_sets recovery transport_close socket empty in
    let late = do_connect list_sets early.0 early.1.0 in
    (on_close list_sets recovery client_namespace_disconnect late.0 late.1.0
      ≡ (late.0, (late.1.0, [])))
    × Joined list_sets late.0 late.1.0
unfolding new_namespace
on_close-too_early_example =
    on_close-too_early list_sets recovery transport_close client_namespace_disconnect socket empty
      refl refl refl (new_adapter-Inv list_sets)
