-- ===== src/Adapter/Memory/Runs.antt =====
-- Sequences of the calls that change an adapter, and the specification that they refine: who is in
-- which room, and which sockets are known, with no word on how the maps hold it.
use socket_io.Base.{
  ◌≡◌, refl, ap, ◌∙◌, Bool, false, not, ◌&&◌, ◌||◌, none, List, [], ◌∷◌, arith, Bool-cases,
  Option-cases, inl, inr,
}
use socket_io.Base.Maps.{
  StringMap, str_eq, str_eq_iff, str_elem, is_some, lookup, lookup-delete, delete,
}
use socket_io.Adapter.Sets.{Sets, Room, SocketId}
use socket_io.Adapter.Memory.{
  InMemoryAdapter, ensure, join_room, join_rooms, new_adapter, add_all, delete_room, delete_all,
}
use socket_io.Adapter.Memory.Lemmas.{has, has-enter, has-leave_room}
use socket_io.Adapter.Memory.Invariant.{
  Inv, known-ensure, known-update_at, add_all-Inv, delete_room-Inv, delete_all-Inv,
  delete_all-rooms, delete_all_found, delete_all_missing,
}

-- The calls that change an adapter.
pub data Call : Type 0 where
  adds_all : SocketId → List Room → Call
  deletes : SocketId → Room → Call
  deletes_all : SocketId → Call

-- The specification: both functions answer by a test.
pub record Membership : Type 0 where
  pub joined : SocketId → Room → Bool
  pub known : SocketId → Bool

unfoldable pub spec_add_all : SocketId → List Room → Membership → Membership
spec_add_all sid rooms m = record {
  joined = λ s r. (str_eq sid s && str_elem r rooms) || m.joined s r;
  known = λ s. str_eq sid s || m.known s;
}

unfoldable pub spec_delete : SocketId → Room → Membership → Membership
spec_delete sid room m = record {
  joined = λ s r. not (str_eq sid s && str_eq room r) && m.joined s r;
  known = m.known;
}

unfoldable pub spec_delete_all : SocketId → Membership → Membership
spec_delete_all sid m = record {
  joined = λ s r. not (str_eq sid s) && m.joined s r;
  known = λ s. not (str_eq sid s) && m.known s;
}

unfoldable pub spec_step : Call → Membership → Membership
spec_step (adds_all sid rooms) m = spec_add_all sid rooms m
spec_step (deletes sid room) m = spec_delete sid room m
spec_step (deletes_all sid) m = spec_delete_all sid m

unfoldable pub spec_run : List Call → Membership → Membership
spec_run [] m = m
spec_run (c ∷ cs) m = spec_run cs (spec_step c m)

unfoldable pub nobody : Membership
nobody = record { joined = λ s r. false; known = λ s. false }

join_twice : (p q r b : Bool) → ((p && q) || ((r && p) || b)) ≡ ((p && (r || q)) || b)
join_twice p q r b = ground arith

swap_not_and : (p q r : Bool) → (not (p && q) && r) ≡ (not (q && p) && r)
swap_not_and p q r = ground arith

module _ (S : Sets) where
  open S use {Set, empty, add, remove, contains, each}

  unfoldable pub step : Call → InMemoryAdapter Set → InMemoryAdapter Set
  step (adds_all sid rooms) a = add_all S sid rooms a
  step (deletes sid room) a = delete_room S sid room a
  step (deletes_all sid) a = delete_all S sid a

  unfoldable pub run : List Call → InMemoryAdapter Set → InMemoryAdapter Set
  run [] a = a
  run (c ∷ cs) a = run cs (step c a)

  pub step-Inv : (c : Call) (a : InMemoryAdapter Set) → Inv S a → Inv S (step c a)
  unfolding step
  step-Inv (adds_all sid rooms) a v = add_all-Inv S sid rooms a v
  step-Inv (deletes sid room) a v = delete_room-Inv S sid room a v
  step-Inv (deletes_all sid) a v = delete_all-Inv S sid a v

  run-Inv : (cs : List Call) (a : InMemoryAdapter Set) → Inv S a → Inv S (run cs a)
  unfolding run
  run-Inv [] a v = v
  run-Inv (c ∷ cs) a v = run-Inv cs (step c a) (step-Inv c a v)

  pub new_adapter-Inv : Inv S (new_adapter S)
  unfolding new_adapter lookup
  new_adapter-Inv = record { mirrored = λ s r. refl; inhabited = λ r s e. absurd (cc) }

  -- After any sequence of `AddAll`, `Delete` and `DeleteAll` a socket records a room exactly when the
  -- room records the socket, and no empty room is kept.
  pub run-new_adapter-Inv : (cs : List Call) → Inv S (run cs (new_adapter S))
  run-new_adapter-Inv cs = run-Inv cs (new_adapter S) new_adapter-Inv

  -- What an adapter says of membership.
  abbrev pub view : InMemoryAdapter Set → Membership
  view a = record { joined = λ s r. has S r s a.rooms; known = λ s. is_some (lookup s a.sids) }

  join_rooms-joined :
      (sid : SocketId) (rooms : List Room) (a : InMemoryAdapter Set) (s : SocketId) (r : Room)
      → has S r s (join_rooms S sid rooms a).rooms
        ≡ ((str_eq sid s && str_elem r rooms) || has S r s a.rooms)
  unfolding join_rooms str_elem join_room
  join_rooms-joined sid [] a s r = ground arith
  join_rooms-joined sid (room ∷ rest) a s r =
      join_rooms-joined sid rest _ s r
      ∙ rw (has-enter S room sid r s a.rooms)
          (join_twice (str_eq sid s) (str_elem r rest) (str_eq room r) _)

  join_rooms-known :
      (sid : SocketId) (rooms : List Room) (a : InMemoryAdapter Set) (s : SocketId)
      → is_some (lookup s (join_rooms S sid rooms a).sids) ≡ is_some (lookup s a.sids)
  unfolding join_rooms join_room
  join_rooms-known sid [] a s = refl
  join_rooms-known sid (room ∷ rest) a s =
      join_rooms-known sid rest _ s ∙ known-update_at S sid s (add room) a.sids

  add_all-view :
      (sid : SocketId) (rooms : List Room) (a : InMemoryAdapter Set)
      → view (add_all S sid rooms a) ≡ spec_add_all sid rooms (view a)
  unfolding add_all spec_add_all
  add_all-view sid rooms a = λ i. record {
    joined = λ s r. join_rooms-joined sid rooms (record a { sids = ensure S sid a.sids }) s r i;
    known = λ s.
        (join_rooms-known sid rooms (record a { sids = ensure S sid a.sids }) s
            ∙ known-ensure S sid s a.sids)
          i;
  }

  delete_room-view :
      (sid : SocketId) (room : Room) (a : InMemoryAdapter Set)
      → view (delete_room S sid room a) ≡ spec_delete sid room (view a)
  unfolding delete_room spec_delete
  delete_room-view sid room a = λ i. record {
    joined = λ s r.
        (has-leave_room S sid room r s a.rooms ∙ swap_not_and (str_eq room r) (str_eq sid s) _) i;
    known = λ s. known-update_at S sid s (remove room) a.sids i;
  }

  unknown :
      (sid : SocketId) (a : InMemoryAdapter Set) (s : SocketId)
      → lookup sid a.sids ≡ none
      → is_some (lookup s a.sids) ≡ (not (str_eq sid s) && is_some (lookup s a.sids))
  unknown sid a s e = elim (Bool-cases (str_eq sid s)) [
    | inl q ↦ rw (q, ← (str_eq_iff sid s).0 q, e)
    | inr q ↦ rw q
  ]

  known-delete :
      (sid : SocketId) (m : StringMap Set) (s : SocketId)
      → is_some (lookup s (delete sid m)) ≡ (not (str_eq sid s) && is_some (lookup s m))
  known-delete sid m s = elim (Bool-cases (str_eq sid s)) [
    | inl q ↦ rw (lookup-delete, q)
    | inr q ↦ rw (lookup-delete, q)
  ]

  delete_all-known :
      (sid : SocketId) (a : InMemoryAdapter Set) (s : SocketId)
      → is_some (lookup s (delete_all S sid a).sids)
        ≡ (not (str_eq sid s) && is_some (lookup s a.sids))
  delete_all-known sid a s = elim (Option-cases (lookup sid a.sids)) [
    | inl e ↦ rw (delete_all_missing S sid a e) (unknown sid a s e)
    | inr (set, e) ↦ rw (delete_all_found S sid a set e) (known-delete sid a.sids s)
  ]

  delete_all-view :
      (sid : SocketId) (a : InMemoryAdapter Set)
      → Inv S a
      → view (delete_all S sid a) ≡ spec_delete_all sid (view a)
  unfolding spec_delete_all
  delete_all-view sid a v = λ i. record {
    joined = λ s r. delete_all-rooms S sid a v r s i;
    known = λ s. delete_all-known sid a s i;
  }

  pub step-view :
      (c : Call) (a : InMemoryAdapter Set) → Inv S a → view (step c a) ≡ spec_step c (view a)
  unfolding step spec_step
  step-view (adds_all sid rooms) a v = add_all-view sid rooms a
  step-view (deletes sid room) a v = delete_room-view sid room a
  step-view (deletes_all sid) a v = delete_all-view sid a v

  run-view :
      (cs : List Call) (a : InMemoryAdapter Set) → Inv S a → view (run cs a) ≡ spec_run cs (view a)
  unfolding run spec_run
  run-view [] a v = refl
  run-view (c ∷ cs) a v =
      run-view cs (step c a) (step-Inv c a v) ∙ ap (spec_run cs) (step-view c a v)

  new_adapter-view : view (new_adapter S) ≡ nobody
  unfolding new_adapter lookup nobody
  new_adapter-view = refl

  -- After any sequence of calls the adapter knows the sockets and the memberships that the
  -- specification says: `AddAll` adds the rooms named, `Delete` takes one membership away, and
  -- `DeleteAll` takes all those of a socket and the socket itself.
  pub run-new_adapter : (cs : List Call) → view (run cs (new_adapter S)) ≡ spec_run cs nobody
  run-new_adapter cs =
      run-view cs (new_adapter S) (new_adapter-Inv) ∙ ap (spec_run cs) new_adapter-view
