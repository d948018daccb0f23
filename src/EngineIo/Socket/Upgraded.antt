-- ===== src/EngineIo/Socket/Upgraded.antt =====
-- What an upgrade does to the packets and to the old transport.
use socket_io.Base.{◌≡◌, refl, Bool, true, false, List, [], ◌++◌, append_assoc, if◌then◌else◌}
use socket_io.Base.Maps.{str_eq}
use socket_io.EngineIo.Packet.{Packet}
use socket_io.EngineIo.Socket.{
  ServerSocket, Transport, without_noops, send, upgrade_to, on_transport_close,
}

-- The packets that still wait in the old transport are the first that the new one gets, in their order
-- and without the noops, then those that are sent after the upgrade; and that the old transport is
-- closed, with an error or not, does nothing to the socket any more, if its name is another one.
pub upgrade_to-send :
    (t : Transport) (packets : List Packet) (with_error : Bool) (s : ServerSocket)
    → str_eq t.name s.transport.name ≡ false
    → let upgraded = send packets (upgrade_to t s).0 in
      (upgraded.transport.sent ≡ t.sent ++ (without_noops s.transport.queued ++ packets))
      × (on_transport_close s.transport.name with_error upgraded ≡ (upgraded, []))
unfolding send upgrade_to on_transport_close
upgrade_to-send t packets with_error s e =
    (append_assoc t.sent (without_noops s.transport.queued) packets, rw e (either s.closed))
  where
    either : {A : Type 0} {x : A} (b : Bool) → (if b then x else x) ≡ x
    either true = refl
    either false = refl
