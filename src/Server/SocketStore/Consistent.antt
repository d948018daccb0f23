-- ===== src/Server/SocketStore/Consistent.antt =====
-- The two maps of the store hold the same sockets, one for each namespace.
use Prim.Native.String.{String}
use socket_io.Base.{
  ◌≡◌, sym, ap, ◌∙◌, arith, true, false, none, some, if◌then◌else◌, if-true, if-false, Bool-cases,
  inl, inr, Option-cases, subst,
}
use socket_io.Base.Maps.{
  StringMap, lookup, insert, delete, lookup-insert, lookup-delete, str_eq, str_eq_iff, str_eq_refl,
}
use socket_io.Server.SocketStore.{
  ServerSocket, ServerSocketStore, new_server_socket_store, get_by_id, get_by_nsp,
  get_and_remove_all, set, remove_by_id,
}

-- What is found in the first map is found under its own key, and in the second map as well.
abbrev pub Mirrors :
    (ServerSocket → String)
    → (ServerSocket → String)
    → StringMap ServerSocket
    → StringMap ServerSocket
    → Type 0
Mirrors f g m m' =
    (key : String) (k : ServerSocket)
    → lookup key m ≡ some k
    → (f k ≡ key) × (lookup (g k) m' ≡ some k)

-- A socket is found by its id exactly if it is found by its namespace, and under no other key.
pub record Consistent (s : ServerSocketStore) : Type 0 where
  pub by_id : Mirrors (λ k. k.id) (λ k. k.nsp) s.sockets_by_id s.sockets_by_nsp
  pub by_nsp : Mirrors (λ k. k.nsp) (λ k. k.id) s.sockets_by_nsp s.sockets_by_id

module _ (f g : ServerSocket → String) (s : ServerSocket) (m m' : StringMap ServerSocket) where
  insert-Mirrors :
      Mirrors f g m m' → lookup (g s) m' ≡ none → Mirrors f g (insert (f s) s m) (insert (g s) s m')
  insert-Mirrors v free key k e = elim (Bool-cases (str_eq (f s) key)) [
    | inl q ↦
        let same : some s ≡ some k = sym (lookup-insert (f s) key s m ∙ if-true _ q) ∙ e in
        let here : lookup (g s) (insert (g s) s m') ≡ some s =
          lookup-insert (g s) (g s) s m' ∙ if-true _ (str_eq_refl (g s)) in
        let equal : s ≡ k = cc in
        subst (λ j. (f j ≡ key) × (lookup (g j) (insert (g s) s m') ≡ some j)) equal
          ((str_eq_iff (f s) key).0 q, here)
    | inr q ↦
        let (own, mirrored) = v key k (sym (lookup-insert (f s) key s m ∙ if-false _ q) ∙ e) in
        (
          own,
          lookup-insert (g s) (g k) s m' ∙ elim (Bool-cases (str_eq (g s) (g k))) [
            | inl r ↦ absurd (taken k mirrored free ((str_eq_iff (g s) (g k)).0 r))
            | inr r ↦ if-false _ r ∙ mirrored
          ],
        )
  ]
    where
      taken : (k : ServerSocket) → lookup (g k) m' ≡ some k → lookup (g s) m' ≡ none → g s ≡ g k → ⊥
      taken k p q r = cc

  delete-Mirrors :
      Mirrors f g m m' → lookup (f s) m ≡ some s → Mirrors f g (delete (f s) m) (delete (g s) m')
  delete-Mirrors v here key k e = elim (Bool-cases (str_eq (f s) key)) [
    | inl q ↦ absurd (gone (sym (lookup-delete (f s) key m ∙ if-true _ q) ∙ e))
    | inr q ↦
        let (own, mirrored) = v key k (sym (lookup-delete (f s) key m ∙ if-false _ q) ∙ e) in
        (
          own,
          lookup-delete (g s) (g k) m' ∙ elim (Bool-cases (str_eq (g s) (g k))) [
            | inl r ↦
                absurd (apart own q mirrored ((v (f s) s here).1) ((str_eq_iff (g s) (g k)).0 r))
            | inr r ↦ if-false _ r ∙ mirrored
          ],
        )
  ]
    where
      gone : {k : ServerSocket} → none ≡ some k → ⊥
      gone p = cc

      apart :
          {k : ServerSocket} {key : String}
          → f k ≡ key
          → str_eq (f s) key ≡ false
          → lookup (g k) m' ≡ some k
          → lookup (g s) m' ≡ some s
          → g s ≡ g k
          → ⊥
      apart {k = k} {key = key} own q p r e =
          let same : s ≡ k = cc in
          let equal : str_eq (f s) key ≡ true = (str_eq_iff (f s) key).1 (ap f same ∙ own) in cc

pub new_server_socket_store-Consistent : Consistent new_server_socket_store
unfolding new_server_socket_store lookup
new_server_socket_store-Consistent = record {
  by_id = λ sid socket e. cc;
  by_nsp = λ nsp socket e. cc;
}

pub get_and_remove_all-Consistent : (s : ServerSocketStore) → Consistent (get_and_remove_all s).1
unfolding get_and_remove_all lookup
get_and_remove_all-Consistent s = record { by_id = λ sid socket e. cc; by_nsp = λ nsp socket e. cc }

pub set-Consistent :
    (socket : ServerSocket) (s : ServerSocketStore)
    → Consistent s
    → get_by_id socket.id s ≡ none
    → get_by_nsp socket.nsp s ≡ none
    → Consistent (set socket s)
unfolding set get_by_id get_by_nsp
set-Consistent socket s v free_id free_nsp = record {
  by_id =
      insert-Mirrors (λ k. k.id) (λ k. k.nsp) socket s.sockets_by_id s.sockets_by_nsp v.by_id
        free_nsp;
  by_nsp =
      insert-Mirrors (λ k. k.nsp) (λ k. k.id) socket s.sockets_by_nsp s.sockets_by_id v.by_nsp
        free_id;
}

remove_found-Consistent :
    (sid : String) (s : ServerSocketStore) (socket : ServerSocket)
    → Consistent s
    → lookup sid s.sockets_by_id ≡ some socket
    → Consistent (record {
      sockets_by_id = delete sid s.sockets_by_id;
      sockets_by_nsp = delete socket.nsp s.sockets_by_nsp;
    })
remove_found-Consistent sid s socket v e =
    let (own, mirrored) = v.by_id sid socket e in
    let here : lookup socket.id s.sockets_by_id ≡ some socket =
      ap (λ i. lookup i s.sockets_by_id) own ∙ e in
    subst
      (λ i. Consistent (record {
        sockets_by_id = delete i s.sockets_by_id;
        sockets_by_nsp = delete socket.nsp s.sockets_by_nsp;
      }))
      own
      (record {
        by_id =
            delete-Mirrors (λ k. k.id) (λ k. k.nsp) socket s.sockets_by_id s.sockets_by_nsp v.by_id
              here;
        by_nsp =
            delete-Mirrors (λ k. k.nsp) (λ k. k.id) socket s.sockets_by_nsp s.sockets_by_id v.by_nsp
              mirrored;
      })

pub remove_by_id-Consistent :
    (sid : String) (s : ServerSocketStore) → Consistent s → Consistent (remove_by_id sid s)
unfolding remove_by_id
remove_by_id-Consistent sid s v = elim (Option-cases (lookup sid s.sockets_by_id)) [
  | inl e ↦ rw (e, remove_by_id) v
  | inr (socket, e) ↦ rw (e, remove_by_id) (remove_found-Consistent sid s socket v e)
]

pub get_by_nsp-set :
    (socket : ServerSocket) (other : String) (s : ServerSocketStore)
    → get_by_nsp other (set socket s)
      ≡ (if str_eq socket.nsp other then some socket else get_by_nsp other s)
unfolding get_by_nsp set
get_by_nsp-set socket other s = lookup-insert socket.nsp other socket s.sockets_by_nsp

pub get_by_nsp-remove_by_id :
    (socket : ServerSocket) (other : String) (s : ServerSocketStore)
    → get_by_id socket.id s ≡ some socket
    → get_by_nsp other (remove_by_id socket.id s)
      ≡ (if str_eq socket.nsp other then none else get_by_nsp other s)
unfolding get_by_nsp get_by_id remove_by_id
get_by_nsp-remove_by_id socket other s e =
    rw (e, remove_by_id) (lookup-delete socket.nsp other s.sockets_by_nsp)

pub get_by_id-set :
    (socket : ServerSocket) (other : String) (s : ServerSocketStore)
    → get_by_id other (set socket s)
      ≡ (if str_eq socket.id other then some socket else get_by_id other s)
unfolding get_by_id set
get_by_id-set socket other s = lookup-insert socket.id other socket s.sockets_by_id

pub get_by_id-remove_by_id :
    (socket : ServerSocket) (other : String) (s : ServerSocketStore)
    → get_by_id socket.id s ≡ some socket
    → get_by_id other (remove_by_id socket.id s)
      ≡ (if str_eq socket.id other then none else get_by_id other s)
unfolding get_by_id remove_by_id
get_by_id-remove_by_id socket other s e =
    rw (e, remove_by_id) (lookup-delete socket.id other s.sockets_by_id)

-- Two sockets of one namespace that are both set, as when two packets that connect to it are handled
-- at once, and of which the first is then removed, leave the second without its namespace: it is
-- known by its id, and no packet of its namespace finds it.
pub remove_by_id-set_twice :
    (a b : ServerSocket) (s : ServerSocketStore)
    → a.nsp ≡ b.nsp
    → str_eq a.id b.id ≡ false
    → (get_by_id b.id (remove_by_id a.id (set b (set a s))) ≡ some b)
      × (get_by_nsp b.nsp (remove_by_id a.id (set b (set a s))) ≡ none)
remove_by_id-set_twice a b s e apart =
    let apart' : str_eq b.id a.id ≡ false =
      ground (arith, str_eq_iff a.id b.id, str_eq_iff b.id a.id) in
    let first : get_by_id a.id (set b (set a s)) ≡ some a =
      get_by_id-set b a.id (set a s)
      ∙ if-false _ apart'
      ∙ get_by_id-set a a.id s
      ∙ if-true _ (str_eq_refl a.id) in
    (
      get_by_id-remove_by_id a b.id (set b (set a s)) first
          ∙ if-false _ apart
          ∙ get_by_id-set b b.id (set a s)
          ∙ if-true _ (str_eq_refl b.id),
      get_by_nsp-remove_by_id a b.nsp (set b (set a s)) first
          ∙ if-true _ ((str_eq_iff a.nsp b.nsp).1 e),
    )
