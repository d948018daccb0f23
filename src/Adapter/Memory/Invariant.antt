-- ===== src/Adapter/Memory/Invariant.antt =====
-- The two maps of the adapter mirror one another, and no empty room is kept.
use Prim.Native.String.{String}
use mathlib.Core.Option
use socket_io.Base.{
  ◌≡◌, refl, sym, ap, ◌∙◌, Bool, true, false, not, ◌&&◌, ◌||◌, Option, none, some, List, [], ◌∷◌,
  if◌then◌else◌, arith, Bool-cases, Option-cases, inl, inr,
}
use socket_io.Base.Maps.{
  StringMap, str_eq, str_eq_iff, str_eq_refl, str_elem, is_some, lookup, delete, update_at,
  lookup-delete, lookup-update_at,
}
use socket_io.Adapter.Sets.{Sets, Room, SocketId}
use socket_io.Adapter.Memory.{
  InMemoryAdapter, ensure, join_room, join_rooms, leave_room, leave_rooms, add_all, delete_room,
  delete_all,
}
use socket_io.Adapter.Memory.Lemmas.{
  has, Inhabited, has-ensure, lookup-ensure, has-update_add, has-update_remove, has-enter,
  enter-Inhabited, has-leave_room, leave_room-Inhabited,
}

swap_and : (p q r : Bool) → ((p && q) || r) ≡ ((q && p) || r)
swap_and p q r = ground arith

swap_not_and : (p q r : Bool) → (not (p && q) && r) ≡ (not (q && p) && r)
swap_not_and p q r = ground arith

left_twice : (p q r b : Bool) → (not (q && r) && (not (p && r) && b)) ≡ (not ((p || q) && r) && b)
left_twice p q r b = ground arith

not_and_self : (b : Bool) → (not (b && true) && b) ≡ false
not_and_self b = ground arith

not_and_false : (b c : Bool) → (not (b && false) && c) ≡ c
not_and_false b c = ground arith

module _ (S : Sets) where
  open S use {Set, empty, add, remove, contains, each}

  is_some_ensured :
      (b : Bool) (o : Option Set)
      → is_some (if b && not (is_some o) then some empty else o) ≡ (b || is_some o)
  is_some_ensured true none = refl
  is_some_ensured true (some s) = refl
  is_some_ensured false o = refl

  is_some_changed :
      (b : Bool) (f : Set → Set) (o : Option Set)
      → is_some (if b then Option.map f o else o) ≡ is_some o
  is_some_changed true f none = refl
  is_some_changed true f (some s) = refl
  is_some_changed false f o = refl

  pub known-ensure :
      (k j : String) (m : StringMap Set)
      → is_some (lookup j (ensure S k m)) ≡ (str_eq k j || is_some (lookup j m))
  known-ensure k j m = elim (Bool-cases (str_eq k j)) [
    | inl e ↦ rw (lookup-ensure, e, ← (str_eq_iff k j).0 e) (is_some_ensured true (lookup k m))
    | inr e ↦ rw (lookup-ensure, e)
  ]

  pub known-update_at :
      (k j : String) (f : Set → Set) (m : StringMap Set)
      → is_some (lookup j (update_at k f m)) ≡ is_some (lookup j m)
  known-update_at k j f m = rw lookup-update_at (is_some_changed (str_eq k j) f (lookup j m))

  pub record Inv (a : InMemoryAdapter Set) : Type 0 where
    pub mirrored : (sid : SocketId) (room : Room) → has S sid room a.sids ≡ has S room sid a.rooms
    pub inhabited : Inhabited S a.rooms

  abbrev known : SocketId → InMemoryAdapter Set → Bool
  known sid a = is_some (lookup sid a.sids)

  join_room-Inv :
      (sid : SocketId) (room : Room) (a : InMemoryAdapter Set)
      → known sid a ≡ true
      → Inv a
      → Inv (join_room S sid room a)
  unfolding join_room
  join_room-Inv sid room a k v = record {
    mirrored = λ s r.
        has-update_add S sid room s r a.sids k
        ∙ rw (v.mirrored s r) (swap_and (str_eq sid s) (str_eq room r) _)
        ∙ sym (has-enter S room sid r s a.rooms);
    inhabited = enter-Inhabited S room sid a.rooms v.inhabited;
  }

  join_room-known :
      (sid : SocketId) (room : Room) (a : InMemoryAdapter Set) (s : SocketId)
      → known s (join_room S sid room a) ≡ known s a
  unfolding join_room
  join_room-known sid room a s = known-update_at sid s (add room) a.sids

  join_rooms-Inv :
      (sid : SocketId) (rooms : List Room) (a : InMemoryAdapter Set)
      → known sid a ≡ true
      → Inv a
      → Inv (join_rooms S sid rooms a)
  unfolding join_rooms
  join_rooms-Inv sid [] a k v = v
  join_rooms-Inv sid (room ∷ rest) a k v =
      join_rooms-Inv sid rest (join_room S sid room a) (join_room-known sid room a sid ∙ k)
        (join_room-Inv sid room a k v)

  pub add_all-Inv :
      (sid : SocketId) (rooms : List Room) (a : InMemoryAdapter Set)
      → Inv a
      → Inv (add_all S sid rooms a)
  unfolding add_all
  add_all-Inv sid rooms a v =
      join_rooms-Inv sid rooms _ (known-ensure sid sid a.sids ∙ rw (str_eq_refl sid)) (record {
        mirrored = λ s r. has-ensure S sid s r a.sids ∙ v.mirrored s r;
        inhabited = v.inhabited;
      })

  pub delete_room-Inv :
      (sid : SocketId) (room : Room) (a : InMemoryAdapter Set)
      → Inv a
      → Inv (delete_room S sid room a)
  unfolding delete_room
  delete_room-Inv sid room a v = record {
    mirrored = λ s r.
        has-update_remove S sid room s r a.sids
        ∙ rw (v.mirrored s r) (swap_not_and (str_eq sid s) (str_eq room r) _)
        ∙ sym (has-leave_room S sid room r s a.rooms);
    inhabited = leave_room-Inhabited S sid room a.rooms v.inhabited;
  }

  pub has-leave_rooms :
      (sid : SocketId) (l : List Room) (rooms : StringMap Set) (j x : String)
      → has S j x (leave_rooms S sid l rooms)
        ≡ (not (str_elem j l && str_eq sid x) && has S j x rooms)
  unfolding leave_rooms str_elem
  has-leave_rooms sid [] rooms j x = refl
  has-leave_rooms sid (room ∷ l) rooms j x =
      has-leave_rooms sid l (leave_room S sid room rooms) j x
      ∙ rw (has-leave_room S sid room j x rooms)
          (left_twice (str_eq room j) (str_elem j l) (str_eq sid x) _)

  leave_rooms-Inhabited :
      (sid : SocketId) (l : List Room) (rooms : StringMap Set)
      → Inhabited S rooms
      → Inhabited S (leave_rooms S sid l rooms)
  unfolding leave_rooms
  leave_rooms-Inhabited sid [] rooms h = h
  leave_rooms-Inhabited sid (room ∷ l) rooms h =
      leave_rooms-Inhabited sid l (leave_room S sid room rooms)
        (leave_room-Inhabited S sid room rooms h)

  has-delete :
      (k j x : String) (m : StringMap Set)
      → has S j x (delete k m) ≡ (not (str_eq k j) && has S j x m)
  has-delete k j x m = elim (Bool-cases (str_eq k j)) [
    | inl e ↦ rw (lookup-delete, e)
    | inr e ↦ rw (lookup-delete, e)
  ]

  module _ (sid : SocketId) (a : InMemoryAdapter Set) where
    pub delete_all_missing : lookup sid a.sids ≡ none → delete_all S sid a ≡ a
    unfolding delete_all
    delete_all_missing e = rw (e, delete_all)

    pub delete_all_found :
        (s : Set)
        → lookup sid a.sids ≡ some s
        → delete_all S sid a
          ≡ record { rooms = leave_rooms S sid (each s) a.rooms; sids = delete sid a.sids }
    unfolding delete_all
    delete_all_found s e = rw (e, delete_all)

    module _ (v : Inv a) where
      not_joined :
          (room : Room) (s : SocketId)
          → lookup sid a.sids ≡ none
          → has S room s a.rooms ≡ (not (str_eq sid s) && has S room s a.rooms)
      not_joined room s e = elim (Bool-cases (str_eq sid s)) [
        | inl q ↦ rw (q, ← (str_eq_iff sid s).0 q, ← v.mirrored sid room, e)
        | inr q ↦ rw q
      ]

      all_left :
          (room : Room) (s : SocketId) (set : Set)
          → lookup sid a.sids ≡ some set
          → (not (contains room set && str_eq sid s) && has S room s a.rooms)
            ≡ (not (str_eq sid s) && has S room s a.rooms)
      all_left room s set e = elim (Bool-cases (str_eq sid s)) [
        | inl q ↦
            rw (q, ← (str_eq_iff sid s).0 q, ← v.mirrored sid room, e)
              (not_and_self (contains room set))
        | inr q ↦ rw q (not_and_false (contains room set) _)
      ]

      -- `DeleteAll` takes the socket out of every room that it is in, and out of no other.
      pub delete_all-rooms :
          (room : Room) (s : SocketId)
          → has S room s (delete_all S sid a).rooms ≡ (not (str_eq sid s) && has S room s a.rooms)
      delete_all-rooms room s = elim (Option-cases (lookup sid a.sids)) [
        | inl e ↦ rw (delete_all_missing e) (not_joined room s e)
        | inr (set, e) ↦ rw (delete_all_found set e) (
            has-leave_rooms sid (each set) a.rooms room s
            ∙ rw (S.elem-each room set) (all_left room s set e))
      ]

      delete_all-mirrored :
          (set : Set) (s : SocketId) (room : Room)
          → lookup sid a.sids ≡ some set
          → has S s room (delete_all S sid a).sids ≡ has S room s (delete_all S sid a).rooms
      delete_all-mirrored set s room e =
          ap (λ (b : InMemoryAdapter Set). has S s room b.sids) (delete_all_found set e)
          ∙ has-delete sid s room a.sids
          ∙ rw (v.mirrored s room) (sym (delete_all-rooms room s))

      pub delete_all-Inv : Inv (delete_all S sid a)
      delete_all-Inv = elim (Option-cases (lookup sid a.sids)) [
        | inl e ↦ rw (delete_all_missing e) v
        | inr (set, e) ↦ record {
          mirrored = λ s r. delete_all-mirrored set s r e;
          inhabited =
              rw (delete_all_found set e)
                (leave_rooms-Inhabited sid (each set) a.rooms v.inhabited);
        }
      ]
