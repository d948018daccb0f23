-- ===== src/Adapter/Memory/Targets.antt =====
-- Whom `apply` reaches: the sockets of the rooms that are named, or all, less those of the excepted
-- rooms; each of them once.
use Prim.Native.String.{String}
use socket_io.Base.{
  true, or_true, both_true, ◌≡◌, refl, sym, ◌∙◌, Bool, false, not, ◌&&◌, ◌||◌, Option, none, some,
  List, [], ◌∷◌, ◌++◌, ltb, if◌then◌else◌, arith, length, Bool-cases, ltb-false, Option-cases, inl,
  inr,
}
use socket_io.Base.Maps.{
  StringMap, str_eq, str_eq_iff, str_eq_refl, str_elem, is_some, lookup, keys, str_elem-keys,
}
use socket_io.Adapter.Sets.{Sets, Room, SocketId}
use socket_io.Adapter.Memory.{
  InMemoryAdapter, BroadcastOptions, add_each, except_loop, compute_except_sids, visit, visit_each,
  visit_rooms, visit_all, apply,
}
use socket_io.Adapter.Memory.Lemmas.{has, holds}

pub str_elem-append :
    (x : String) (l m : List String) → str_elem x (l ++ m) ≡ (str_elem x l || str_elem x m)
unfolding str_elem
str_elem-append x [] m = refl
str_elem-append x (y ∷ l) m = ground (arith, str_elem-append x l m)

regroup : (p q b : Bool) → (p || (q || b)) ≡ ((q || p) || b)
regroup p q b = ground arith

or_false : (p : Bool) → (p || false) ≡ p
or_false p = ground arith

collect : (p q f b : Bool) → ((p && f) || ((q && f) || b)) ≡ (((q || p) && f) || b)
collect p q f b = ground arith

module _ (S : Sets) where
  open S use {Set, empty, add, contains, cardinality, each}

  -- One of the rooms has the socket.
  abbrev pub in_some : List Room → SocketId → StringMap Set → Bool
  in_some [] sid rooms = false
  in_some (room ∷ rest) sid rooms = has S room sid rooms || in_some rest sid rooms

  -- A room that has the socket is enough.
  pub in_some-elem :
      (room : Room) (l : List Room) (sid : SocketId) (rooms : StringMap Set)
      → str_elem room l ≡ true
      → has S room sid rooms ≡ true
      → in_some l sid rooms ≡ true
  unfolding str_elem
  in_some-elem room [] sid rooms e h = cc
  in_some-elem room (x ∷ l) sid rooms e h = elim (Bool-cases (str_eq x room)) [
    | inl q ↦ rw ((str_eq_iff x room).0 q, h)
    | inr q ↦ rw (in_some-elem room l sid rooms (rw q at e) h) (or_true _)
  ]

  pub in_some-more :
      (l m : List Room) (x : SocketId) (rooms : StringMap Set)
      → ((room : Room) → str_elem room l ≡ true → str_elem room m ≡ true)
      → in_some l x rooms ≡ true
      → in_some m x rooms ≡ true
  unfolding str_elem
  in_some-more [] m x rooms f i = cc
  in_some-more (room ∷ l) m x rooms f i = elim (Bool-cases (has S room x rooms)) [
    | inl e ↦ in_some-elem room m x rooms (f room (rw (str_eq_refl room))) e
    | inr e ↦ in_some-more l m x rooms (λ other q. f other (rw q (or_true _))) (rw e at i)
  ]

  -- Only the rooms of a list matter, not their order or how often they stand in it.
  pub in_some-same :
      (l m : List Room) (x : SocketId) (rooms : StringMap Set)
      → ((room : Room) → str_elem room l ≡ str_elem room m)
      → in_some l x rooms ≡ in_some m x rooms
  in_some-same l m x rooms f =
      both_true _ _ (in_some-more l m x rooms (λ room q. sym (f room) ∙ q))
        (in_some-more m l x rooms (λ room q. f room ∙ q))

  contains-add_each :
      (x : String) (l : List String) (s : Set)
      → contains x (add_each S l s) ≡ (str_elem x l || contains x s)
  unfolding add_each str_elem
  contains-add_each x [] s = refl
  contains-add_each x (y ∷ l) s =
      contains-add_each x l (add y s)
      ∙ rw (S.contains-add y x s) (regroup (str_elem x l) (str_eq y x) _)

  contains-except_loop :
      (x : String) (rooms : StringMap Set) (l : List Room) (s : Set)
      → contains x (except_loop S rooms l s) ≡ (in_some l x rooms || contains x s)
  unfolding except_loop
  contains-except_loop x rooms [] s = refl
  contains-except_loop x rooms (room ∷ l) s = elim (Option-cases (lookup room rooms)) [
    | inl e ↦ rw (e, except_loop) (contains-except_loop x rooms l s)
    | inr (r, e) ↦
        rw (e, except_loop)
          (contains-except_loop x rooms l (add_each S (each r) s)
            ∙ rw (contains-add_each x (each r) s, S.elem-each x r)
                (regroup (in_some l x rooms) (contains x r) _))
  ]

  in_some_nil :
      (rooms : StringMap Set) (x : SocketId) (l : List Room)
      → length l ≡ 0
      → in_some l x rooms ≡ false
  in_some_nil rooms x [] h = refl
  in_some_nil rooms x (room ∷ l) h = absurd (omega arith)

  empty_in_none :
      (rooms : StringMap Set) (x : SocketId) (s : Set)
      → ltb 0 (cardinality s) ≡ false
      → in_some (each s) x rooms ≡ false
  empty_in_none rooms x s h =
      in_some_nil rooms x (each s) (S.length-each s ∙ omega (arith, ltb-false 0 (cardinality s) h))

  -- The excepted sockets are those in one of the excepted rooms.
  pub contains-compute_except_sids :
      (x : SocketId) (a : InMemoryAdapter Set) (except : Set)
      → contains x (compute_except_sids S a except) ≡ in_some (each except) x a.rooms
  unfolding compute_except_sids
  contains-compute_except_sids x a except = elim (Bool-cases (ltb 0 (cardinality except))) [
    | inl e ↦
        rw e (
          contains-except_loop x a.rooms (each except) empty ∙ rw (S.contains-empty x) (or_false _))
    | inr e ↦ rw e (S.contains-empty x ∙ sym (empty_in_none a.rooms x except e))
  ]

  module _ (present : SocketId → Bool) (ex : Set) where
    -- The sockets so far and `ids` hold the same names.
    abbrev pub Same : Set × List SocketId → Type 0
    Same r = (x : SocketId) → contains x r.0 ≡ str_elem x r.1

    pub visit-Same :
        (sid : SocketId) (r : Set × List SocketId) → Same r → Same (visit S present ex sid r)
    unfolding visit str_elem
    visit-Same sid (ids, out) h x =
        ground (arith, h x, S.contains-add sid x ids, str_elem-append x out (sid ∷ []))

    elem-visit :
        (sid : SocketId) (r : Set × List SocketId) (x : SocketId)
        → Same r
        → str_elem x (visit S present ex sid r).1
          ≡ ((str_eq sid x && (present x && not (contains x ex))) || str_elem x r.1)
    unfolding visit str_elem
    elem-visit sid (ids, out) x h = ground (
      arith,
      h x,
      h sid,
      str_eq_iff sid x,
      S.contains-add sid x ids,
      str_elem-append x out (sid ∷ []),
    )

    -- What qualifies a socket, whichever room it is met in.
    abbrev fit : SocketId → Bool
    fit x = present x && not (contains x ex)

    visit_each-Same :
        (l : List SocketId) (r : Set × List SocketId) → Same r → Same (visit_each S present ex l r)
    unfolding visit_each
    visit_each-Same [] r h = h
    visit_each-Same (sid ∷ l) r h =
        visit_each-Same l (visit S present ex sid r) (visit-Same sid r h)

    elem-visit_each :
        (l : List SocketId) (r : Set × List SocketId) (x : SocketId)
        → Same r
        → str_elem x (visit_each S present ex l r).1 ≡ ((str_elem x l && fit x) || str_elem x r.1)
    unfolding visit_each str_elem
    elem-visit_each [] r x h = refl
    elem-visit_each (sid ∷ l) r x h =
        elem-visit_each l (visit S present ex sid r) x (visit-Same sid r h)
        ∙ rw (elem-visit sid r x h) (collect (str_elem x l) (str_eq sid x) (fit x) _)

    visit_room : Option Set → Set × List SocketId → Set × List SocketId
    visit_room o r = elim o [ none ↦ r | some s ↦ visit_each S present ex (each s) r ]

    visit_room-Same : (o : Option Set) (r : Set × List SocketId) → Same r → Same (visit_room o r)
    unfolding visit_room
    visit_room-Same none r h = h
    visit_room-Same (some s) r h = visit_each-Same (each s) r h

    elem-visit_room :
        (o : Option Set) (r : Set × List SocketId) (x : SocketId)
        → Same r
        → str_elem x (visit_room o r).1 ≡ ((holds S o x && fit x) || str_elem x r.1)
    unfolding visit_room
    elem-visit_room none r x h = refl
    elem-visit_room (some s) r x h = elem-visit_each (each s) r x h ∙ rw (S.elem-each x s)

    elem-visit_rooms :
        (rooms : StringMap Set) (l : List Room) (r : Set × List SocketId) (x : SocketId)
        → Same r
        → str_elem x (visit_rooms S present ex rooms l r).1
          ≡ ((in_some l x rooms && fit x) || str_elem x r.1)
    unfolding visit_rooms visit_room
    elem-visit_rooms rooms [] r x h = refl
    elem-visit_rooms rooms (room ∷ l) r x h =
        elem-visit_rooms rooms l (visit_room (lookup room rooms) r) x
          (visit_room-Same (lookup room rooms) r h)
        ∙ rw (elem-visit_room (lookup room rooms) r x h)
            (collect (in_some l x rooms) (has S room x rooms) (fit x) _)

    elem_kept :
        (sid : SocketId) (out : List SocketId) (x : SocketId)
        → str_elem x
            (if contains sid ex then out else if present sid then out ++ (sid ∷ []) else out)
          ≡ ((str_eq sid x && fit x) || str_elem x out)
    unfolding str_elem
    elem_kept sid out x = ground (arith, str_eq_iff sid x, str_elem-append x out (sid ∷ []))

    elem-visit_all :
        (l out : List SocketId) (x : SocketId)
        → str_elem x (visit_all S present ex l out) ≡ ((str_elem x l && fit x) || str_elem x out)
    unfolding visit_all str_elem
    elem-visit_all [] out x = refl
    elem-visit_all (sid ∷ l) out x =
        elem-visit_all l _ x
        ∙ rw (elem_kept sid out x) (collect (str_elem x l) (str_eq sid x) (fit x) _)

  -- The sockets that `apply` reaches: those that the store has, that are in one of the rooms named,
  -- or known at all where none is named, and that are in none of the excepted rooms.
  pub elem-apply :
      (present : SocketId → Bool) (a : InMemoryAdapter Set) (opts : BroadcastOptions Set)
      (x : SocketId)
      → str_elem x (apply S present a opts) ≡ (
          (if ltb 0 (cardinality opts.rooms)
            then in_some (each opts.rooms) x a.rooms
            else is_some (lookup x a.sids))
          && (present x && not (in_some (each opts.except) x a.rooms)))
  unfolding apply str_elem
  elem-apply present a opts x = elim (Bool-cases (ltb 0 (cardinality opts.rooms))) [
    | inl e ↦ rw e (
        elem-visit_rooms present _ a.rooms (each opts.rooms) (empty, []) x S.contains-empty
        ∙ rw (contains-compute_except_sids x a opts.except) (or_false _))
    | inr e ↦ rw e (
        elem-visit_all present _ (keys a.sids) [] x
        ∙ rw (contains-compute_except_sids x a opts.except, str_elem-keys x a.sids) (or_false _))
  ]
