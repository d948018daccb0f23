-- ===== src/EngineIo/Server/Authenticated.antt =====
-- Who gets a socket.
use Prim.Native.String.{String}
use socket_io.Base.{
  ◌≡◌, refl, sym, ap, Bool, true, false, not, ◌&&◌, ◌==◌, Option, none, some, if◌then◌else◌, subst,
  if-true, if-false,
}
use socket_io.Base.Maps.{lookup, str_eq}
use socket_io.EngineIo.Server.{
  Server, Request, Response, opens, maybe_upgrade, handle_handshake, serve_socket, serve_http,
  asks_web_transport, is_get, speaks,
}

abbrev pub is_opened : Response → Bool
is_opened (opens sid name upgrades) = true
is_opened _ = false

either : {A : Type 0} (P : A → Type 0) (b : Bool) {x y : A} → P x → P y → P (if b then x else y)
either P true px py = px
either P false px py = py

maybe_upgrade-not_opened :
    (sid name : String) (t : Bool) (r : Request) → is_opened (maybe_upgrade sid name t r) ≡ false
unfolding maybe_upgrade
maybe_upgrade-not_opened sid name t r =
    either Closed (str_eq name "websocket") (either Closed r.handshakes refl refl)
      (either Closed (str_eq name "webtransport") (either Closed t refl refl) refl)
  where
    Closed : Response → Type 0
    Closed response = is_opened response ≡ false

abbrev Refuses : Server × Response → Type 0
Refuses r = is_opened r.1 ≡ false

serve_socket-Refuses :
    (found : Option String) (r : Request) (s : Server) → Refuses (serve_socket found r s)
unfolding serve_socket
serve_socket-Refuses none r s = refl
serve_socket-Refuses (some name) r s =
    either Refuses (not (str_eq name r.transport))
      (maybe_upgrade-not_opened r.sid r.transport false r) refl

-- A request that the authenticator turns down gets no socket, unless it is one of WebTransport that
-- names no transport.
pub serve_http-unauthenticated :
    (r : Request) (s : Server)
    → r.authenticated ≡ false
    → asks_web_transport r ≡ false
    → is_opened (serve_http r s).1 ≡ false
unfolding serve_http handle_handshake
serve_http-unauthenticated r s a w = either Refuses s.closed refl (
    either Refuses (not (r.proto_major == 3) && not (speaks r.version)) refl (
      either Refuses (str_eq r.sid "")
        (either Refuses (not (is_get r.method) && not (r.proto_major == 3)) refl
          (subst Refuses (sym (if-false _ w)) (subst Refuses (sym (if-true _ (ap not a))) refl)))
        (serve_socket-Refuses (lookup r.sid s.store) r s)))
