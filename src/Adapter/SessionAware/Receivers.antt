-- ===== src/Adapter/SessionAware/Receivers.antt =====
-- A session that is restored gets what its socket would have got.
use socket_io.Base.{
  or_true, both_true, ℕ, ◌≡◌, sym, ◌∙◌, arith, Bool, true, ◌&&◌, ◌||◌, List, [], ◌∷◌, ltb, ◌==◌,
  Bool-cases, inl, inr, if◌then◌else◌,
}
use socket_io.Base.Maps.{StringMap, lookup, str_eq, str_eq_iff, str_eq_refl, str_elem, is_some}
use socket_io.Adapter.Sets.{Sets, Room, SocketId}
use socket_io.Adapter.Memory.{InMemoryAdapter, BroadcastOptions, apply}
use socket_io.Adapter.Memory.Lemmas.{has}
use socket_io.Adapter.Memory.Invariant.{Inv}
use socket_io.Adapter.Memory.Targets.{in_some, in_some-elem, elem-apply}
use socket_io.Adapter.SessionAware.{contains_any, should_include_packet}

chosen :
    (n : ℕ) (p q : Bool) → ((n == 0 || p) && q) ≡ ((if ltb 0 n then p else true) && (true && q))
chosen n p q = ground arith

module _ (S : Sets) where
  open S use {Set, contains, cardinality, each}

  -- The rooms of the list are those that the adapter has the socket in.
  abbrev pub AreRoomsOf : SocketId → InMemoryAdapter Set → List Room → Type 0
  AreRoomsOf sid a rooms = (room : Room) → str_elem room rooms ≡ has S sid room a.sids

  contains_any-elem :
      (room : Room) (l : List Room) (s : Set)
      → str_elem room l ≡ true
      → contains room s ≡ true
      → contains_any S s l ≡ true
  unfolding str_elem
  contains_any-elem room [] s e h = cc
  contains_any-elem room (x ∷ l) s e h = elim (Bool-cases (str_eq x room)) [
    | inl q ↦ rw ((str_eq_iff x room).0 q, h)
    | inr q ↦ elim (Bool-cases (contains x s)) [
      | inl c ↦ rw c
      | inr c ↦ rw c (contains_any-elem room l s (rw q at e) h)
    ]
  ]

  in_some-contains_any :
      (l : List Room) (s : Set) (sid : SocketId) (rooms : StringMap Set)
      → ((room : Room) → str_elem room l ≡ true → has S room sid rooms ≡ true)
      → contains_any S s l ≡ true
      → in_some S (each s) sid rooms ≡ true
  unfolding str_elem
  in_some-contains_any [] s sid rooms f c = cc
  in_some-contains_any (x ∷ l) s sid rooms f c = elim (Bool-cases (contains x s)) [
    | inl e ↦ in_some-elem S x (each s) sid rooms (S.elem-each x s ∙ e) (f x (rw (str_eq_refl x)))
    | inr e ↦ in_some-contains_any l s sid rooms (λ room q. f room (rw q (or_true _))) (rw e at c)
  ]

  contains_any-in_some :
      (rooms_of : List Room) (l : List Room) (s : Set) (sid : SocketId) (rooms : StringMap Set)
      → ((room : Room) → has S room sid rooms ≡ true → str_elem room rooms_of ≡ true)
      → ((room : Room) → str_elem room l ≡ true → contains room s ≡ true)
      → in_some S l sid rooms ≡ true
      → contains_any S s rooms_of ≡ true
  unfolding str_elem
  contains_any-in_some rooms_of [] s sid rooms f g i = cc
  contains_any-in_some rooms_of (x ∷ l) s sid rooms f g i = elim (Bool-cases (has S x sid rooms)) [
    | inl e ↦ contains_any-elem x rooms_of s (f x e) (g x (rw (str_eq_refl x)))
    | inr e ↦
        contains_any-in_some rooms_of l s sid rooms f (λ room q. g room (rw q (or_true _)))
          (rw e at i)
  ]

  module _ (sid : SocketId) (a : InMemoryAdapter Set) (v : Inv S a) (rooms : List Room)
      (r : AreRoomsOf sid a rooms) where
    same_rooms : (s : Set) → contains_any S s rooms ≡ in_some S (each s) sid a.rooms
    same_rooms s =
        both_true _ _
          (in_some-contains_any rooms s sid a.rooms
            (λ room q. sym (v.mirrored sid room) ∙ sym (r room) ∙ q))
          (contains_any-in_some rooms (each s) s sid a.rooms
            (λ room h. r room ∙ v.mirrored sid room ∙ h) (λ room e. sym (S.elem-each room s) ∙ e))

    -- A packet is one that a session with the rooms of a socket has missed exactly when its broadcast
    -- would have reached the socket, known to the adapter and to the store.
    pub should_include_packet-apply :
        (present : SocketId → Bool) (opts : BroadcastOptions Set)
        → is_some (lookup sid a.sids) ≡ true
        → present sid ≡ true
        → should_include_packet S rooms opts ≡ str_elem sid (apply S present a opts)
    unfolding should_include_packet
    should_include_packet-apply present opts known here =
        rw
          (
            elem-apply S present a opts sid,
            same_rooms opts.rooms,
            same_rooms opts.except,
            known,
            here,
          )
          (chosen (cardinality opts.rooms) _ _)
