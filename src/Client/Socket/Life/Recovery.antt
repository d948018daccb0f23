-- ===== src/Client/Socket/Life/Recovery.antt =====
-- What a socket says of its recovery.
use socket_io.Base.{◌≡◌, arith, ◌&&◌, ◌||◌}
use socket_io.Base.Maps.{str_eq, str_eq_iff}
use socket_io.Client.Socket.{ClientSocket, has_pid}
use socket_io.Client.Socket.Life.{SidInfo, set_session, accept}

-- A socket that is accepted says that it was recovered exactly if it said so before, or it had a
-- session, and that session is the one that the server names.
pub accept-recovered :
    (info : SidInfo) (s : ClientSocket)
    → (accept info s).recovered ≡ (s.recovered || (has_pid s && str_eq s.pid info.pid))
unfolding accept set_session
accept-recovered info s =
    ground (arith, str_eq_iff info.pid "", str_eq_iff s.pid "", str_eq_iff s.pid info.pid)
