-- ===== src/Adapter/Memory/Once.antt =====
-- `apply` reaches no socket twice.
use Prim.Native.String.{String}
use socket_io.Base.{
  ◌≡◌, refl, ◌∙◌, Bool, false, ◌||◌, Option, none, some, List, [], ◌∷◌, ◌++◌, append_assoc,
  append-nil, ltb, arith, Bool-cases, Option-cases, inl, inr,
}
use socket_io.Base.Maps.{
  StringMap, str_eq, str_eq_iff, str_elem, lookup, insert, delete, update_at, keys, str_elem-keys,
  lookup-delete,
}
use socket_io.Adapter.Sets.{Sets, Room, SocketId}
use socket_io.Adapter.Memory.{
  InMemoryAdapter, BroadcastOptions, ensure, join_room, join_rooms, add_all, delete_room,
  delete_all, new_adapter, visit, visit_each, visit_rooms, visit_all, apply,
}
use socket_io.Adapter.Memory.Targets.{str_elem-append, visit-Same}
use socket_io.Adapter.Memory.Runs.{Call, adds_all, deletes, deletes_all, step, run}

abbrev pub Distinct : List String → Type 0
Distinct [] = Unit {0}
Distinct (x ∷ xs) = (str_elem x xs ≡ false) × Distinct xs

Distinct-snoc :
    (x : String) (out : List String)
    → Distinct out
    → str_elem x out ≡ false
    → Distinct (out ++ (x ∷ []))
unfolding str_elem
Distinct-snoc x [] d h = (refl, tt)
Distinct-snoc x (y ∷ out) d h = (
  ground (arith, str_elem-append y out (x ∷ []), str_eq_iff x y, str_eq_iff y x),
  Distinct-snoc x out d.1 (ground arith),
)

Distinct-drop :
    (x : String) (out rest : List String) → Distinct (out ++ (x ∷ rest)) → Distinct (out ++ rest)
unfolding str_elem
Distinct-drop x [] rest d = d.1
Distinct-drop x (y ∷ out) rest d = (
  ground (arith, d.0, str_elem-append y out (x ∷ rest), str_elem-append y out rest),
  Distinct-drop x out rest d.1,
)

module _ (S : Sets) where
  open S use {Set, empty, add, contains, cardinality, each}

  module _ (present : SocketId → Bool) (ex : Set) where
    abbrev Once : Set × List SocketId → Type 0
    Once r = ((x : SocketId) → contains x r.0 ≡ str_elem x r.1) × Distinct r.1

    visit-Distinct :
        (sid : SocketId) (ids : Set) (out : List SocketId)
        → contains sid ids ≡ str_elem sid out
        → Distinct out
        → Distinct (visit S present ex sid (ids, out)).1
    unfolding visit
    visit-Distinct sid ids out h d = ground (arith, Distinct-snoc sid out d)

    visit-Once :
        (sid : SocketId) (r : Set × List SocketId) → Once r → Once (visit S present ex sid r)
    visit-Once sid (ids, out) h =
        (visit-Same S present ex sid (ids, out) h.0, visit-Distinct sid ids out (h.0 sid) h.1)

    visit_each-Once :
        (l : List SocketId) (r : Set × List SocketId) → Once r → Once (visit_each S present ex l r)
    unfolding visit_each
    visit_each-Once [] r h = h
    visit_each-Once (sid ∷ l) r h =
        visit_each-Once l (visit S present ex sid r) (visit-Once sid r h)

    visit_room-Once :
        (o : Option Set) (r : Set × List SocketId)
        → Once r
        → Once (elim o [ none ↦ r | some s ↦ visit_each S present ex (each s) r ])
    visit_room-Once none r h = h
    visit_room-Once (some s) r h = visit_each-Once (each s) r h

    visit_rooms-Once :
        (rooms : StringMap Set) (l : List Room) (r : Set × List SocketId)
        → Once r
        → Once (visit_rooms S present ex rooms l r)
    unfolding visit_rooms
    visit_rooms-Once rooms [] r h = h
    visit_rooms-Once rooms (room ∷ l) r h =
        visit_rooms-Once rooms l _ (visit_room-Once (lookup room rooms) r h)

    visit_all-Distinct :
        (l out : List SocketId) → Distinct (out ++ l) → Distinct (visit_all S present ex l out)
    unfolding visit_all
    visit_all-Distinct [] out d = rw append-nil at d
    visit_all-Distinct (sid ∷ l) out d =
        let dropped = Distinct-drop sid out l d in
        let kept : Distinct ((out ++ (sid ∷ [])) ++ l) = rw append_assoc d in
        visit_all-Distinct l _ (elim (Bool-cases (contains sid ex)) [
          | inl e ↦ rw e dropped
          | inr e ↦ elim (Bool-cases (present sid)) [
            | inl p ↦ rw (e, p) kept
            | inr p ↦ rw (e, p) dropped
          ]
        ])

  -- No socket is reached twice, if no socket has two entries in the map of sockets.
  pub apply-Distinct :
      (present : SocketId → Bool) (a : InMemoryAdapter Set) (opts : BroadcastOptions Set)
      → Distinct (keys a.sids)
      → Distinct (apply S present a opts)
  unfolding apply
  apply-Distinct present a opts d = elim (Bool-cases (ltb 0 (cardinality opts.rooms))) [
    | inl e ↦
        rw e
          (visit_rooms-Once present _ a.rooms (each opts.rooms) (empty, [])
            ((λ x. S.contains-empty x ∙ (unfold str_elem in refl)), tt)).1
    | inr e ↦ rw e (visit_all-Distinct present _ (keys a.sids) [] d)
  ]

-- A Go map has one entry for a key, and the operations on maps keep it so.
module _ {V : Type 0} where
  elem-keys-insert :
      (k j : String) (v : V) (m : StringMap V)
      → str_elem j (keys (insert k v m)) ≡ (str_eq k j || str_elem j (keys m))
  unfolding insert keys str_elem
  elem-keys-insert k j v [] = refl
  elem-keys-insert k j v ((i, w) ∷ m) =
      ground (arith, elem-keys-insert k j v m, str_eq_iff i k, str_eq_iff i j, str_eq_iff k j)

  insert-Distinct :
      (k : String) (v : V) (m : StringMap V) → Distinct (keys m) → Distinct (keys (insert k v m))
  unfolding insert keys str_elem
  insert-Distinct k v [] d = (refl, tt)
  insert-Distinct k v ((i, w) ∷ m) d =
      ground
        (arith, insert-Distinct k v m d.1, elem-keys-insert k i v m, str_eq_iff i k, str_eq_iff k i)

  keys-update_at : (k : String) (f : V → V) (m : StringMap V) → keys (update_at k f m) ≡ keys m
  unfolding update_at keys
  keys-update_at k f [] = refl
  keys-update_at k f ((i, w) ∷ m) = ground (arith, keys-update_at k f m)

  delete-Distinct :
      (k : String) (m : StringMap V) → Distinct (keys m) → Distinct (keys (delete k m))
  unfolding delete keys
  delete-Distinct k [] d = tt
  delete-Distinct k ((i, w) ∷ m) d = ground (
    arith,
    delete-Distinct k m d.1,
    str_elem-keys i (delete k m),
    str_elem-keys i m,
    lookup-delete k i m,
  )

module _ (S : Sets) where
  open S use {Set, empty, add, remove, contains, cardinality, each}

  ensure-Distinct :
      (k : String) (m : StringMap Set) → Distinct (keys m) → Distinct (keys (ensure S k m))
  unfolding ensure
  ensure-Distinct k m d = elim (Option-cases (lookup k m)) [
    | inl e ↦ rw (e, ensure) (insert-Distinct k empty m d)
    | inr (s, e) ↦ rw (e, ensure) d
  ]

  keys-join_rooms :
      (sid : SocketId) (rooms : List Room) (a : InMemoryAdapter Set)
      → keys (join_rooms S sid rooms a).sids ≡ keys a.sids
  unfolding join_rooms join_room
  keys-join_rooms sid [] a = refl
  keys-join_rooms sid (room ∷ rest) a =
      keys-join_rooms sid rest _ ∙ keys-update_at sid (add room) a.sids

  delete_all-Distinct :
      (sid : SocketId) (a : InMemoryAdapter Set)
      → Distinct (keys a.sids)
      → Distinct (keys (delete_all S sid a).sids)
  unfolding delete_all
  delete_all-Distinct sid a d = elim (Option-cases (lookup sid a.sids)) [
    | inl e ↦ rw (e, delete_all) d
    | inr (s, e) ↦ rw (e, delete_all) (delete-Distinct sid a.sids d)
  ]

  step-Distinct :
      (c : Call) (a : InMemoryAdapter Set)
      → Distinct (keys a.sids)
      → Distinct (keys (step S c a).sids)
  unfolding step add_all delete_room
  step-Distinct (adds_all sid rooms) a d =
      rw (keys-join_rooms sid rooms (record a { sids = ensure S sid a.sids }))
        (ensure-Distinct sid a.sids d)
  step-Distinct (deletes sid room) a d = rw (keys-update_at sid (remove room) a.sids) d
  step-Distinct (deletes_all sid) a d = delete_all-Distinct sid a d

  run-Distinct :
      (cs : List Call) (a : InMemoryAdapter Set)
      → Distinct (keys a.sids)
      → Distinct (keys (run S cs a).sids)
  unfolding run
  run-Distinct [] a d = d
  run-Distinct (c ∷ cs) a d = run-Distinct cs (step S c a) (step-Distinct c a d)

  -- After any sequence of calls a broadcast reaches no socket twice, also where several of its rooms
  -- have the socket.
  pub apply-run-Distinct :
      (cs : List Call) (present : SocketId → Bool) (opts : BroadcastOptions Set)
      → Distinct (apply S present (run S cs (new_adapter S)) opts)
  apply-run-Distinct cs present opts =
      apply-Distinct S present (run S cs (new_adapter S)) opts
        (run-Distinct cs (new_adapter S) (unfold new_adapter keys in tt))
