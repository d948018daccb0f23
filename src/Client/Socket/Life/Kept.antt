-- ===== src/Client/Socket/Life/Kept.antt =====
-- What reaches a socket, and what it sends, before it is connected.
use socket_io.Base.{◌≡◌}
use socket_io.Client.Socket.{ClientSocket}

-- The session that a socket gets does not depend on its buffers, and leaves them as they are.
record Same (s t : ClientSocket) : Type 0 where
  pid : s.pid ≡ t.pid
  send_buffer : s.send_buffer ≡ t.send_buffer
  receive_buffer : s.receive_buffer ≡ t.receive_buffer
