-- ===== src/Server/Namespace/Reach.antt =====
-- The states that a socket and its namespace reach.
use Prim.Native.String.{String}
use socket_io.Base.{◌≡◌, Bool, true, false, none, List}
use socket_io.Base.Maps.{lookup, insert, is_some, str_eq}
use socket_io.Adapter.Sets.{Sets, Room, SocketId}
use socket_io.Adapter.Memory.Lemmas.{has}
use socket_io.Adapter.Memory.Invariant.{Inv}
use socket_io.Adapter.Memory.Runs.{Call, adds_all, deletes, deletes_all, step}
use socket_io.Server.Namespace.{Socket, Recovery, Reason, Nsp, join, leave, do_connect, on_close}

-- The socket of a call on an adapter.
abbrev pub sid_of : Call → SocketId
sid_of (adds_all sid rooms) = sid
sid_of (deletes sid room) = sid
sid_of (deletes_all sid) = sid

module _ (S : Sets) where
  open S use {Set}

  -- What can happen to a socket that was made, in any order, each call running to its end before the
  -- next; `doConnect` is called once, and the flag says whether it was. Sockets with other ids come, and
  -- join and leave rooms.
  pub data Reached : Bool → Socket → Nsp Set → Type 0 where
    made :
        (s : Socket) (n : Nsp Set)
        → s.connected ≡ false
        → s.can_join ≡ true
        → Inv S n.adapter
        → Reached false s n
    connected :
        {s : Socket} {n : Nsp Set}
        → Reached false s n
        → Reached true (do_connect S s n).0 (do_connect S s n).1.0
    joins :
        {d : Bool} {s : Socket} {n : Nsp Set} (rooms : List Room)
        → Reached d s n
        → Reached d s (join S rooms s n)
    leaves :
        {d : Bool} {s : Socket} {n : Nsp Set} (room : Room)
        → Reached d s n
        → Reached d s (leave S room s n)
    closes :
        {d : Bool} {s : Socket} {n : Nsp Set} (recovery : Recovery) (reason : Reason)
        → Reached d s n
        → Reached d (on_close S recovery reason s n).0 (on_close S recovery reason s n).1.0
    others_move :
        {d : Bool} {s : Socket} {n : Nsp Set} (c : Call)
        → str_eq (sid_of c) s.id ≡ false
        → Reached d s n
        → Reached d s (record n { adapter = step S c n.adapter })
    others_come :
        {d : Bool} {s : Socket} {n : Nsp Set} (id : String)
        → str_eq id s.id ≡ false
        → Reached d s n
        → Reached d s (record n { sockets = insert id id n.sockets })

  -- The socket is in no room, and the namespace does not have it.
  pub record Left (s : Socket) (n : Nsp Set) : Type 0 where
    pub rooms : (room : Room) → has S room s.id n.adapter.rooms ≡ false
    pub known : is_some (lookup s.id n.adapter.sids) ≡ false
    pub sockets : lookup s.id n.sockets ≡ none
    pub connected : s.connected ≡ false

  -- Before `doConnect` a socket can join and is not connected.
  abbrev pub Early : Bool → Socket → Type 0
  Early false s = (s.can_join ≡ true) × (s.connected ≡ false)
  Early true s = Unit {0}

  pub record Good (d : Bool) (s : Socket) (n : Nsp Set) : Type 0 where
    pub adapter : Inv S n.adapter
    pub early : Early d s
    pub left : s.can_join ≡ false → Left s n
