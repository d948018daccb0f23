-- ===== src/Adapter/Operator/Reach.antt =====
-- Whom an operator reaches, by the calls that made it.
use socket_io.Base.{
  ◌≡◌, refl, sym, ◌∙◌, arith, Bool, true, false, not, ◌&&◌, ◌||◌, List, [], ◌∷◌, ◌++◌, Bytes,
  length, ltb, if◌then◌else◌,
}
use socket_io.Base.Maps.{lookup, str_eq, str_eq_refl, str_elem, is_some}
use socket_io.Adapter.Sets.{Sets, Room, SocketId}
use socket_io.Adapter.Memory.{InMemoryAdapter, apply}
use socket_io.Adapter.Memory.Lemmas.{contains-cardinality}
use socket_io.Adapter.Memory.Targets.{in_some, in_some-same, elem-apply, str_elem-append}
use socket_io.Adapter.Operator.{
  BroadcastOperator, new_broadcast_operator, add_rooms, to, except, compress, local, options,
}

-- A call on an operator, which returns the next one.
pub data Modifier : Type 0 where
  calls_to calls_except : List Room → Modifier
  calls_compress : Bool → Modifier
  calls_local : Modifier

-- The rooms that the calls name, and those that they except.
abbrev pub named : List Modifier → List Room
named [] = []
named (calls_to rooms ∷ ms) = rooms ++ named ms
named (m ∷ ms) = named ms

abbrev pub excepted : List Modifier → List Room
excepted [] = []
excepted (calls_except rooms ∷ ms) = rooms ++ excepted ms
excepted (m ∷ ms) = excepted ms

abbrev pub is_nil : List Room → Bool
is_nil [] = true
is_nil (room ∷ rooms) = false

or_false : (p : Bool) → (p || false) ≡ p
or_false p = ground arith

swapped : (b p q r : Bool) → ((if not b then p else q) && r) ≡ ((if b then q else p) && r)
swapped true p q r = refl
swapped false p q r = refl

or_assoc : (p q r : Bool) → (p || (q || r)) ≡ ((q || p) || r)
or_assoc p q r = ground arith

no_names : (l : List Room) → ((room : Room) → str_elem room l ≡ false) → length l ≡ 0
unfolding str_elem
no_names [] h = refl
no_names (x ∷ l) h = absurd (ground (arith, h x, str_eq_refl x))

module _ (S : Sets) where
  open S use {Set, empty, add, contains, cardinality, each}

  unfoldable pub modify : Modifier → BroadcastOperator Set → BroadcastOperator Set
  modify (calls_to rooms) b = to S rooms b
  modify (calls_except rooms) b = except S rooms b
  modify (calls_compress value) b = compress S value b
  modify calls_local b = local S b

  -- The calls one after the other, each on what the one before returned.
  unfoldable pub chain : List Modifier → BroadcastOperator Set → BroadcastOperator Set
  chain [] b = b
  chain (m ∷ ms) b = chain ms (modify m b)

  contains-add_rooms :
      (room : Room) (rooms : List Room) (s : Set)
      → contains room (add_rooms S rooms s) ≡ (str_elem room rooms || contains room s)
  unfolding add_rooms str_elem
  contains-add_rooms room [] s = refl
  contains-add_rooms room (x ∷ rooms) s =
      contains-add_rooms room rooms (add x s)
      ∙ rw (S.contains-add x room s) (or_assoc (str_elem room rooms) (str_eq x room) _)

  contains-named :
      (room : Room) (ms : List Modifier) (b : BroadcastOperator Set)
      → contains room (chain ms b).rooms ≡ (str_elem room (named ms) || contains room b.rooms)
  unfolding chain modify to except compress local str_elem
  contains-named room [] b = refl
  contains-named room (calls_to rooms ∷ ms) b =
      contains-named room ms (to S rooms b)
      ∙ rw (contains-add_rooms room rooms b.rooms, str_elem-append room rooms (named ms))
          (or_assoc (str_elem room (named ms)) (str_elem room rooms) _)
  contains-named room (calls_except rooms ∷ ms) b = contains-named room ms _
  contains-named room (calls_compress value ∷ ms) b = contains-named room ms _
  contains-named room (calls_local ∷ ms) b = contains-named room ms _

  contains-excepted :
      (room : Room) (ms : List Modifier) (b : BroadcastOperator Set)
      → contains room (chain ms b).except_rooms
        ≡ (str_elem room (excepted ms) || contains room b.except_rooms)
  unfolding chain modify to except compress local str_elem
  contains-excepted room [] b = refl
  contains-excepted room (calls_except rooms ∷ ms) b =
      contains-excepted room ms (except S rooms b)
      ∙ rw (contains-add_rooms room rooms b.except_rooms, str_elem-append room rooms (excepted ms))
          (or_assoc (str_elem room (excepted ms)) (str_elem room rooms) _)
  contains-excepted room (calls_to rooms ∷ ms) b = contains-excepted room ms _
  contains-excepted room (calls_compress value ∷ ms) b = contains-excepted room ms _
  contains-excepted room (calls_local ∷ ms) b = contains-excepted room ms _

  -- The set holds the rooms of the list.
  abbrev Holds : Set → List Room → Type 0
  Holds s l = (room : Room) → contains room s ≡ str_elem room l

  each-Holds :
      (s : Set) (l : List Room)
      → Holds s l
      → (room : Room) → str_elem room (each s) ≡ str_elem room l
  each-Holds s l h room = S.elem-each room s ∙ h room

  cardinality-Holds : (s : Set) (l : List Room) → Holds s l → ltb 0 (cardinality s) ≡ not (is_nil l)
  unfolding str_elem
  cardinality-Holds s [] h =
      let nothing : cardinality s ≡ 0 =
        sym (S.length-each s) ∙ no_names (each s) (each-Holds s [] h) in
      ground arith
  cardinality-Holds s (x ∷ l) h =
      let member : contains x s ≡ true = h x ∙ rw (str_eq_refl x) in
      let some_name = contains-cardinality S x s member in ground arith

  module _ (ms : List Modifier) (nsp : Bytes) where
    abbrev pub operator : BroadcastOperator Set
    operator = chain ms (new_broadcast_operator S nsp)

    rooms-Holds : Holds operator.rooms (named ms)
    unfolding new_broadcast_operator
    rooms-Holds room =
        contains-named room ms (new_broadcast_operator S nsp)
        ∙ rw (S.contains-empty room) (or_false _)

    except-Holds : Holds operator.except_rooms (excepted ms)
    unfolding new_broadcast_operator
    except-Holds room =
        contains-excepted room ms (new_broadcast_operator S nsp)
        ∙ rw (S.contains-empty room) (or_false _)

    -- Whatever calls of `To`, `In`, `Except`, `Compress` and `Local` made an operator, and in whatever
    -- order, it reaches the sockets that the store has, that are in one of the rooms named by any of the
    -- calls, or known at all where none is named, and in no room that any of them excepts.
    pub elem-apply-options :
        (present : SocketId → Bool) (a : InMemoryAdapter Set) (x : SocketId)
        → str_elem x (apply S present a (options S operator)) ≡ (
            (if is_nil (named ms)
              then is_some (lookup x a.sids)
              else in_some S (named ms) x a.rooms)
            && (present x && not (in_some S (excepted ms) x a.rooms)))
    unfolding options
    elem-apply-options present a x =
        elem-apply S present a (options S operator) x
        ∙ rw
            (
              cardinality-Holds operator.rooms (named ms) rooms-Holds,
              in_some-same S (each operator.rooms) (named ms) x a.rooms
                  (each-Holds operator.rooms (named ms) rooms-Holds),
              in_some-same S (each operator.except_rooms) (excepted ms) x a.rooms
                  (each-Holds operator.except_rooms (excepted ms) except-Holds),
            )
            (swapped (is_nil (named ms)) _ _ _)
