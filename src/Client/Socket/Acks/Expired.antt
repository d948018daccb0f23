-- ===== src/Client/Socket/Acks/Expired.antt =====
-- What a timeout takes out of the send buffer.
use socket_io.Base.{
  ℕ, suc, ◌≡◌, refl, ap, ◌∙◌, false, some, List, [], ◌∷◌, ◌++◌, append_assoc, map, Lacks, ok, err,
}
use socket_io.Handlers.Slices.{slice_bounds, off_slice}
use socket_io.Handlers.Slices.Single.{off_slice-once, off_slice-twice}
use socket_io.EngineIo.Packet.{Packet}
use socket_io.Client.Socket.{ClientSocket, SendBufferItem, left}
use socket_io.Client.Socket.Buffers.{keep, send_packets}
use socket_io.Client.Socket.Acks.{key, keys, on_timeout}

keys-append : (xs ys : List SendBufferItem) → keys (xs ++ ys) ≡ keys xs ++ keys ys
keys-append [] ys = refl
keys-append (x ∷ xs) ys = ap (◌∷◌ (key x)) (keys-append xs ys)

kept_keys :
    (id : ℕ) (packets : List Packet) (s : ClientSocket)
    → s.state ≡ left
    → keys (send_packets false false (some id) packets s).0.send_buffer
      ≡ keys s.send_buffer ++ keys (map (keep (some id)) packets)
unfolding send_packets
kept_keys id packets s e = rw e (keys-append s.send_buffer (map (keep (some id)) packets))

-- A packet without attachments that waits in the send buffer of a socket that is not connected is
-- taken out of it when its timeout is over, with the others left in their order.
pub on_timeout-once :
    (id : ℕ) (packet : Packet) (s : ClientSocket) (later : List SendBufferItem)
    → s.state ≡ left
    → Lacks (suc id) (keys s.send_buffer)
    → Lacks (suc id) (keys later)
    → let sent = (send_packets false false (some id) (packet ∷ []) s).0 in
      (on_timeout id (record sent { send_buffer = sent.send_buffer ++ later })).1
      ≡ ok (keys s.send_buffer ++ keys later)
unfolding on_timeout
on_timeout-once id packet s later e before behind =
    ap (off_slice (suc id ∷ [])) (
      keys-append (send_packets false false (some id) (packet ∷ []) s).0.send_buffer later
      ∙ ap (λ ks. ks ++ keys later) (kept_keys id (packet ∷ []) s e)
      ∙ append_assoc (keys s.send_buffer) (suc id ∷ []) (keys later))
    ∙ off_slice-once (suc id) (keys s.send_buffer) (keys later) before behind

-- If the last thing that a socket which is not connected has sent is a packet with one attachment,
-- and it waits for an acknowledgement, then the loop panics when the timeout is over.
pub on_timeout-attachment :
    (id : ℕ) (packet attachment : Packet) (s : ClientSocket)
    → s.state ≡ left
    → Lacks (suc id) (keys s.send_buffer)
    → (on_timeout id (send_packets false false (some id) (packet ∷ attachment ∷ []) s).0).1
      ≡ err slice_bounds
unfolding on_timeout
on_timeout-attachment id packet attachment s e before =
    ap (off_slice (suc id ∷ [])) (kept_keys id (packet ∷ attachment ∷ []) s e)
    ∙ off_slice-twice (suc id) (keys s.send_buffer) before
