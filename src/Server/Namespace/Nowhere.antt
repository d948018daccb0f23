-- ===== src/Server/Namespace/Nowhere.antt =====
-- A socket that is in no room of the adapter, and stays in none.
use socket_io.Base.{◌≡◌, refl, ap, ◌∙◌, Bool, true, false, not, ◌&&◌}
use socket_io.Base.Maps.{lookup, is_some, str_eq, str_eq_refl}
use socket_io.Adapter.Sets.{Sets, Room, SocketId}
use socket_io.Adapter.Memory.{InMemoryAdapter, delete_room, delete_all}
use socket_io.Adapter.Memory.Lemmas.{has}
use socket_io.Adapter.Memory.Invariant.{Inv}
use socket_io.Adapter.Memory.Runs.{
  Call, adds_all, deletes, deletes_all, step, step-view, spec_step, spec_add_all, spec_delete,
  spec_delete_all, view, Membership,
}
use socket_io.Server.Namespace.Reach.{sid_of}

and_false : (b : Bool) → (b && false) ≡ false
and_false true = refl
and_false false = refl

module _ (S : Sets) where
  open S use {Set}

  spec_joined :
      (c : Call) (a : InMemoryAdapter Set) (id : SocketId) (room : Room)
      → str_eq (sid_of c) id ≡ false
      → (spec_step c (view S a)).joined id room ≡ has S room id a.rooms
  unfolding spec_step spec_add_all spec_delete spec_delete_all
  spec_joined (adds_all sid rooms) a id room f = rw f refl
  spec_joined (deletes sid r) a id room f = rw f refl
  spec_joined (deletes_all sid) a id room f = rw f refl

  spec_known :
      (c : Call) (a : InMemoryAdapter Set) (id : SocketId)
      → str_eq (sid_of c) id ≡ false
      → (spec_step c (view S a)).known id ≡ is_some (lookup id a.sids)
  unfolding spec_step spec_add_all spec_delete spec_delete_all
  spec_known (adds_all sid rooms) a id f = rw f refl
  spec_known (deletes sid r) a id f = refl
  spec_known (deletes_all sid) a id f = rw f refl

  -- The socket is in no room of the adapter, and not known to it.
  abbrev pub Nowhere : SocketId → InMemoryAdapter Set → Type 0
  Nowhere id a =
      ((room : Room) → has S room id a.rooms ≡ false) × (is_some (lookup id a.sids) ≡ false)

  pub others-Nowhere :
      (c : Call) (a : InMemoryAdapter Set) (id : SocketId)
      → Inv S a
      → str_eq (sid_of c) id ≡ false
      → Nowhere id a
      → Nowhere id (step S c a)
  others-Nowhere c a id v e (rooms, known) =
      let seen = step-view S c a v in
      (
        λ room.
            ap (λ (m : Membership). m.joined id room) seen ∙ spec_joined c a id room e ∙ rooms room,
        ap (λ (m : Membership). m.known id) seen ∙ spec_known c a id e ∙ known,
      )

  pub leave-Nowhere :
      (room : Room) (a : InMemoryAdapter Set) (id : SocketId)
      → Inv S a
      → Nowhere id a
      → Nowhere id (delete_room S id room a)
  unfolding step spec_step spec_delete
  leave-Nowhere room a id v (rooms, known) =
      let seen = step-view S (deletes id room) a v in
      (
        λ r.
            ap (λ (m : Membership). m.joined id r) seen
            ∙ ap (λ b. not (str_eq id id && str_eq room r) && b) (rooms r)
            ∙ and_false _,
        ap (λ (m : Membership). m.known id) seen ∙ known,
      )

  pub delete_all-Nowhere :
      (id : SocketId) (a : InMemoryAdapter Set) → Inv S a → Nowhere id (delete_all S id a)
  unfolding step spec_step spec_delete_all
  delete_all-Nowhere id a v =
      let seen = step-view S (deletes_all id) a v in
      (
        λ room.
            ap (λ (m : Membership). m.joined id room) seen
            ∙ ap (λ b. not b && has S room id a.rooms) (str_eq_refl id),
        ap (λ (m : Membership). m.known id) seen
            ∙ ap (λ b. not b && is_some (lookup id a.sids)) (str_eq_refl id),
      )
