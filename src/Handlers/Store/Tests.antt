-- ===== src/Handlers/Store/Tests.antt =====
-- A run of the store: a handler for once is given out at the first event only.
use socket_io.Base.{◌≡◌, refl, List, [], ◌∷◌, ok}
use socket_io.Handlers.Store.{HandlerStore, on, once, get_all, new_handler_store}
use socket_io.Handlers.Store.Once.{Call, call_on, call_once, call_get_all, run, apply}

abbrev calls : List Call
calls = call_once 7 ∷ call_on 1 ∷ call_get_all ∷ call_get_all ∷ []

abbrev last : HandlerStore
last = record { funcs = 1 ∷ []; funcs_once = []; subs = [] }

run-calls : run calls new_handler_store ≡ ok (1 ∷ 7 ∷ 1 ∷ [], last)
unfolding run apply new_handler_store on once get_all
run-calls = refl
