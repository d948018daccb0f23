-- ===== src/Handlers/Store.antt =====
-- `handlerStore` of store.go: the handlers of one event of a server, a namespace or a client.
pub mod Once
mod Tests
use socket_io.Base.{ℕ, Bool, true, false, List, [], ◌∷◌, ◌++◌, Result, ok, err, ◌>>=◌}
use socket_io.Handlers.Slices.{Panic, off_slice}

pub record HandlerStore : Type 0 where
  pub funcs : List ℕ
  pub funcs_once : List ℕ
  pub subs : List ℕ

unfoldable pub new_handler_store : HandlerStore
new_handler_store = record { funcs = []; funcs_once = []; subs = [] }

unfoldable pub on : ℕ → HandlerStore → HandlerStore
on handler e = record e { funcs = e.funcs ++ (handler ∷ []) }

unfoldable pub on_sub_event : ℕ → HandlerStore → HandlerStore
on_sub_event handler e = record e { subs = e.subs ++ (handler ∷ []) }

unfoldable pub off_sub_event : ℕ → HandlerStore → Result Panic HandlerStore
off_sub_event handler e = do subs ← off_slice (handler ∷ []) e.subs; ok (record e { subs = subs })

unfoldable pub off_sub_events : HandlerStore → HandlerStore
off_sub_events e = record e { subs = [] }

unfoldable pub once : ℕ → HandlerStore → HandlerStore
once handler e = record e { funcs_once = e.funcs_once ++ (handler ∷ []) }

unfoldable pub off_all : HandlerStore → HandlerStore
off_all e = record e { funcs = []; funcs_once = [] }

-- A panic ends the run, so the store after one is not kept.
unfoldable pub off : List ℕ → HandlerStore → Result Panic HandlerStore
off [] e = ok (record e { funcs = []; funcs_once = [] })
off (handler ∷ handlers) e = do
  funcs ← off_slice (handler ∷ handlers) e.funcs
  funcs_once ← off_slice (handler ∷ handlers) e.funcs_once
  ok (record e { funcs = funcs; funcs_once = funcs_once })

unfoldable pub get_all : HandlerStore → List ℕ × HandlerStore
get_all e = (e.subs ++ (e.funcs ++ e.funcs_once), record e { funcs_once = [] })
