-- ===== src/Adapter/Memory.antt =====
-- adapter/adapter_memory.go: rooms and their sockets, kept in two maps that mirror one another. The
-- sets are those of `Sets`; a set that a map points to is changed in place, by `update_at`. Each
-- operation holds the mutex from its first access of the maps to its last.
pub mod Lemmas
pub mod Invariant
pub mod Runs
pub mod Targets
pub mod Once
mod Tests
use Prim.Native.String.{String}
use socket_io.Base.{
  ℕ, ◌≡◌, Bool, true, false, not, ◌&&◌, ◌||◌, Option, none, some, List, [], ◌∷◌, ◌++◌, ◌==◌, ltb,
  if◌then◌else◌,
}
use socket_io.Base.Maps.{StringMap, lookup, insert, delete, update_at, keys}
use socket_io.Adapter.Sets.{Sets, Room, SocketId}

pub record InMemoryAdapter (Set : Type 0) : Type 0 where
  pub rooms : StringMap Set
  pub sids : StringMap Set

module _ (S : Sets) where
  open S use {Set, empty, add, remove, contains, cardinality, each}

  unfoldable pub new_adapter : InMemoryAdapter Set
  new_adapter = record { rooms = []; sids = [] }

  -- A missing entry becomes an empty set.
  pub ensure : String → StringMap Set → StringMap Set
  ensure k m = elim (lookup k m) [ none ↦ insert k empty m | some s ↦ m ]

  -- One round of the loop in `AddAll`.
  pub join_room : SocketId → Room → InMemoryAdapter Set → InMemoryAdapter Set
  unfolding ensure
  join_room sid room a = record {
    rooms = update_at room (λ r. if contains sid r then r else add sid r) (ensure room a.rooms);
    sids = update_at sid (add room) a.sids;
  }

  pub join_rooms : SocketId → List Room → InMemoryAdapter Set → InMemoryAdapter Set
  unfolding join_room
  join_rooms sid [] a = a
  join_rooms sid (room ∷ rest) a = join_rooms sid rest (join_room sid room a)

  unfoldable pub add_all : SocketId → List Room → InMemoryAdapter Set → InMemoryAdapter Set
  unfolding ensure join_rooms
  add_all sid rooms a = join_rooms sid rooms (record a { sids = ensure sid a.sids })

  -- `delete`, on the map of rooms alone: a room that is left by its last socket goes too.
  pub leave_room : SocketId → Room → StringMap Set → StringMap Set
  leave_room sid room rooms = elim (lookup room rooms) [
    | none ↦ rooms
    | some r ↦
        let rooms' = update_at room (remove sid) rooms in
        if cardinality (remove sid r) == 0 then delete room rooms' else rooms'
  ]

  unfoldable pub delete_room : SocketId → Room → InMemoryAdapter Set → InMemoryAdapter Set
  unfolding leave_room
  delete_room sid room a = record {
    rooms = leave_room sid room a.rooms;
    sids = update_at sid (remove room) a.sids;
  }

  pub leave_rooms : SocketId → List Room → StringMap Set → StringMap Set
  unfolding leave_room
  leave_rooms sid [] rooms = rooms
  leave_rooms sid (room ∷ rest) rooms = leave_rooms sid rest (leave_room sid room rooms)

  unfoldable pub delete_all : SocketId → InMemoryAdapter Set → InMemoryAdapter Set
  unfolding leave_rooms
  delete_all sid a = elim (lookup sid a.sids) [
    | none ↦ a
    | some s ↦ record { rooms = leave_rooms sid (each s) a.rooms; sids = delete sid a.sids }
  ]

  -- `SocketRooms` returns a copy of the set.
  unfoldable pub socket_rooms : SocketId → InMemoryAdapter Set → Option Set
  socket_rooms sid a = lookup sid a.sids

-- `BroadcastOptions`; its flags are read by no adapter of the repository.
pub record BroadcastOptions (Set : Type 0) : Type 0 where
  pub rooms : Set
  pub except : Set

module _ (S : Sets) where
  open S use {Set, empty, add, contains, cardinality, each}

  add_each : List String → Set → Set
  add_each [] s = s
  add_each (x ∷ xs) s = add_each xs (add x s)

  except_loop : StringMap Set → List Room → Set → Set
  unfolding add_each
  except_loop rooms [] except_sids = except_sids
  except_loop rooms (room ∷ rest) except_sids =
      except_loop rooms rest
        (elim (lookup room rooms) [ none ↦ except_sids | some r ↦ add_each (each r) except_sids ])

  unfoldable pub compute_except_sids : InMemoryAdapter Set → Set → Set
  unfolding except_loop
  compute_except_sids a except =
      if ltb 0 (cardinality except) then except_loop a.rooms (each except) empty else empty

  -- `apply`, as the list of the sockets that the callback gets, in their order: `present` says which
  -- sockets the store has. The callback runs without the mutex; here it leaves the maps alone.
  module _ (present : SocketId → Bool) (except_sids : Set) where
    -- One call of the inner callback; the pair is `ids` and the sockets so far.
    pub visit : SocketId → Set × List SocketId → Set × List SocketId
    visit sid (ids, out) =
        if contains sid ids || contains sid except_sids
        then (ids, out)
        else if present sid
        then (add sid ids, out ++ (sid ∷ []))
        else (ids, out)

    pub visit_each : List SocketId → Set × List SocketId → Set × List SocketId
    visit_each [] r = r
    visit_each (sid ∷ rest) r = visit_each rest (visit sid r)

    visit_rooms : StringMap Set → List Room → Set × List SocketId → Set × List SocketId
    visit_rooms rooms [] r = r
    visit_rooms rooms (room ∷ rest) r =
        visit_rooms rooms rest
          (elim (lookup room rooms) [ none ↦ r | some s ↦ visit_each (each s) r ])

    visit_all : List SocketId → List SocketId → List SocketId
    visit_all [] out = out
    visit_all (sid ∷ rest) out =
        visit_all rest
          (if contains sid except_sids then out else if present sid then out ++ (sid ∷ []) else out)

  unfoldable pub apply :
      (SocketId → Bool) → InMemoryAdapter Set → BroadcastOptions Set → List SocketId
  unfolding visit visit_each visit_rooms visit_all
  apply present a opts =
      let except_sids = compute_except_sids a opts.except in
      if ltb 0 (cardinality opts.rooms)
      then (visit_rooms present except_sids a.rooms (each opts.rooms) (empty, [])).1
      else visit_all present except_sids (keys a.sids) []
