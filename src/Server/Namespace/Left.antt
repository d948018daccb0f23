-- ===== src/Server/Namespace/Left.antt =====
-- A socket that was closed is gone.
use Prim.Native.String.{String}
use socket_io.Base.{
  ◌≡◌, refl, sym, ap, ◌∙◌, Bool, true, false, not, Option, none, some, List, [], ◌∷◌, if◌then◌else◌,
  subst, if-true, if-false,
}
use socket_io.Base.Maps.{lookup, insert, is_some, str_eq, str_eq_refl, lookup-insert, lookup-delete}
use socket_io.Adapter.Sets.{Sets, Room}
use socket_io.Adapter.Memory.{delete_all}
use socket_io.Adapter.Memory.Invariant.{Inv}
use socket_io.Adapter.Memory.Runs.{Call, adds_all, deletes, deletes_all, step, step-Inv}
use socket_io.Server.Namespace.{
  Socket, Recovery, Reason, Nsp, Effect, join, leave, on_connect, do_connect, on_close,
  close_connected, remove,
}
use socket_io.Server.Namespace.Reach.{
  sid_of, Reached, made, connected, joins, leaves, closes, others_move, others_come, Left, Early,
  Good,
}
use socket_io.Server.Namespace.Nowhere.{Nowhere, others-Nowhere, leave-Nowhere, delete_all-Nowhere}

either :
    {A : Type 0} (P : A → Type 0) (b : Bool) {x y : A}
    → (b ≡ true → P x)
    → (b ≡ false → P y)
    → P (if b then x else y)
either P true px py = px refl
either P false px py = py refl

module _ (S : Sets) where
  open S use {Set}

  remove_gone : (s : Socket) (n : Nsp Set) → lookup s.id (remove S s n).sockets ≡ none
  unfolding remove
  remove_gone s n = by_entry (lookup s.id n.sockets) refl
    where
      by_entry :
          (o : Option String)
          → lookup s.id n.sockets ≡ o
          → lookup s.id (remove S s n).sockets ≡ none
      by_entry none e = ap (λ (m : Nsp Set). lookup s.id m.sockets) (if-false _ (ap is_some e)) ∙ e
      by_entry (some entry) e =
          ap (λ (m : Nsp Set). lookup s.id m.sockets) (if-true _ (ap is_some e))
          ∙ lookup-delete s.id s.id n.sockets
          ∙ if-true _ (str_eq_refl s.id)

  join-Inv :
      (rooms : List Room) (s : Socket) (n : Nsp Set)
      → Inv S n.adapter
      → Inv S (join S rooms s n).adapter
  unfolding join step
  join-Inv rooms s n v =
      either (λ (m : Nsp Set). Inv S m.adapter) s.can_join
        (λ _. step-Inv S (adds_all s.id rooms) n.adapter v) (λ _. v)

  join-stays :
      (rooms : List Room) (s : Socket) (n : Nsp Set) → s.can_join ≡ false → join S rooms s n ≡ n
  unfolding join
  join-stays rooms s n e = if-false _ e

  remove-adapter : (s : Socket) (n : Nsp Set) → (remove S s n).adapter ≡ n.adapter
  unfolding remove
  remove-adapter s n =
      either (λ (m : Nsp Set). m.adapter ≡ n.adapter) (is_some (lookup s.id n.sockets)) (λ _. refl)
        (λ _. refl)

  no_true : {b : Bool} → b ≡ true → b ≡ false → ⊥
  no_true t f = let q : true ≡ false = sym t ∙ f in cc

  closed-Good :
      (recovery : Recovery) (reason : Reason) (s : Socket) (n : Nsp Set)
      → Good S true s n
      → Good S true
          (close_connected S recovery reason s n).0
          (close_connected S recovery reason s n).1.0
  unfolding close_connected step
  closed-Good recovery reason s n v =
      let left = record n { adapter = delete_all S s.id n.adapter } in
      let same = sym (remove-adapter s left) in
      let gone = delete_all-Nowhere S s.id n.adapter v.adapter in
      let nowhere = subst (Nowhere S s.id) same gone in
      record {
        adapter = subst (Inv S) same (step-Inv S (deletes_all s.id) n.adapter v.adapter);
        early = tt;
        left = λ _. record {
          rooms = nowhere.0;
          known = nowhere.1;
          sockets = remove_gone s left;
          connected = refl;
        };
      }

  on_close-Good :
      (d : Bool) (recovery : Recovery) (reason : Reason) (s : Socket) (n : Nsp Set)
      → Good S d s n
      → Good S d (on_close S recovery reason s n).0 (on_close S recovery reason s n).1.0
  unfolding on_close
  on_close-Good d recovery reason s n v =
      either (λ (r : Socket × (Nsp Set × List Effect)). Good S d r.0 r.1.0) s.closed (λ _. v)
        (λ _.
          either (λ (r : Socket × (Nsp Set × List Effect)). Good S d r.0 r.1.0) (not s.connected)
            (λ _. record {
              adapter = v.adapter;
              early = early d v.early;
              left = λ e.
                  let w = v.left e in
                  record {
                    rooms = w.rooms;
                    known = w.known;
                    sockets = w.sockets;
                    connected = w.connected;
                  };
            })
            (λ e. by_time d e v))
    where
      early : (d : Bool) → Early S d s → Early S d (record s { closed = true })
      early true w = tt
      early false w = w

      by_time :
          (d : Bool)
          → not s.connected ≡ false
          → Good S d s n
          → Good S d
              (close_connected S recovery reason s n).0
              (close_connected S recovery reason s n).1.0
      by_time true e w = closed-Good recovery reason s n w
      by_time false e w = absurd (no_true (ap not w.early.1) e)

  do_connect-Good :
      (s : Socket) (n : Nsp Set)
      → Good S false s n
      → Good S true (do_connect S s n).0 (do_connect S s n).1.0
  unfolding do_connect on_connect
  do_connect-Good s n v = record {
    adapter = join-Inv (s.id ∷ []) s (record n { sockets = insert s.id s.id n.sockets }) v.adapter;
    early = tt;
    left = λ e. absurd (no_true v.early.0 e);
  }

  join-Good :
      (d : Bool) (rooms : List Room) (s : Socket) (n : Nsp Set)
      → Good S d s n
      → Good S d s (join S rooms s n)
  join-Good d rooms s n v = record {
    adapter = join-Inv rooms s n v.adapter;
    early = v.early;
    left = λ e. subst (Left S s) (sym (join-stays rooms s n e)) (v.left e);
  }

  leave-Good :
      (d : Bool) (room : Room) (s : Socket) (n : Nsp Set)
      → Good S d s n
      → Good S d s (leave S room s n)
  unfolding leave step
  leave-Good d room s n v = record {
    adapter = step-Inv S (deletes s.id room) n.adapter v.adapter;
    early = v.early;
    left = λ e.
        let w = v.left e in
        let nowhere = leave-Nowhere S room n.adapter s.id v.adapter (w.rooms, w.known) in
        record {
          rooms = nowhere.0;
          known = nowhere.1;
          sockets = w.sockets;
          connected = w.connected;
        };
  }

  others_move-Good :
      (d : Bool) (c : Call) (s : Socket) (n : Nsp Set)
      → str_eq (sid_of c) s.id ≡ false
      → Good S d s n
      → Good S d s (record n { adapter = step S c n.adapter })
  others_move-Good d c s n f v = record {
    adapter = step-Inv S c n.adapter v.adapter;
    early = v.early;
    left = λ e.
        let w = v.left e in
        let nowhere = others-Nowhere S c n.adapter s.id v.adapter f (w.rooms, w.known) in
        record {
          rooms = nowhere.0;
          known = nowhere.1;
          sockets = w.sockets;
          connected = w.connected;
        };
  }

  others_come-Good :
      (d : Bool) (id : String) (s : Socket) (n : Nsp Set)
      → str_eq id s.id ≡ false
      → Good S d s n
      → Good S d s (record n { sockets = insert id id n.sockets })
  others_come-Good d id s n f v = record {
    adapter = v.adapter;
    early = v.early;
    left = λ e.
        let w = v.left e in
        record {
          rooms = w.rooms;
          known = w.known;
          sockets = lookup-insert id s.id id n.sockets ∙ if-false _ f ∙ w.sockets;
          connected = w.connected;
        };
  }

  Reached-Good : {d : Bool} {s : Socket} {n : Nsp Set} → Reached S d s n → Good S d s n
  Reached-Good (made s n c j v) = record {
    adapter = v;
    early = (j, c);
    left = λ e. absurd (no_true j e);
  }
  Reached-Good (connected {s = s} {n = n} r) = do_connect-Good s n (Reached-Good r)
  Reached-Good (joins {d = d} {s = s} {n = n} rooms r) = join-Good d rooms s n (Reached-Good r)
  Reached-Good (leaves {d = d} {s = s} {n = n} room r) = leave-Good d room s n (Reached-Good r)
  Reached-Good (closes {d = d} {s = s} {n = n} recovery reason r) =
      on_close-Good d recovery reason s n (Reached-Good r)
  Reached-Good (others_move {d = d} {s = s} {n = n} c f r) =
      others_move-Good d c s n f (Reached-Good r)
  Reached-Good (others_come {d = d} {s = s} {n = n} id f r) =
      others_come-Good d id s n f (Reached-Good r)

  -- Once the closing of a connected socket has run, if no call of `Join` was under way meanwhile and no
  -- other socket has its id, whatever calls come before and after, those of `Join` included: the socket
  -- is in no room and not known to the adapter, its namespace does not have it, and it is not
  -- connected.
  pub Reached-Left :
      {d : Bool} {s : Socket} {n : Nsp Set} → Reached S d s n → s.can_join ≡ false → Left S s n
  Reached-Left r = (Reached-Good r).left
