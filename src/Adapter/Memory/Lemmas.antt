-- ===== src/Adapter/Memory/Lemmas.antt =====
-- What the steps of the adapter do to the membership that a map of sets records.
use Prim.Native.String.{String}
use mathlib.Core.Option
use socket_io.Base.{
  ◌≡◌, refl, sym, ap, ◌∙◌, length, Bool, true, false, not, ◌&&◌, ◌||◌, Option, none, some, List, [],
  ◌∷◌, ◌==◌, if◌then◌else◌, arith, Bool-cases, Option-cases, inl, inr,
}
use socket_io.Base.Maps.{
  StringMap, str_eq, str_eq_iff, str_eq_refl, str_elem, is_some, lookup, delete, update_at,
  lookup-insert, lookup-delete, lookup-update_at,
}
use socket_io.Adapter.Sets.{Sets}
use socket_io.Adapter.Memory.{ensure, leave_room}

module _ (S : Sets) where
  open S use {
    Set, empty, add, remove, contains, cardinality, contains-empty, contains-add, contains-remove,
  }

  -- x is in the set at key k.
  abbrev pub holds : Option Set → String → Bool
  holds none x = false
  holds (some s) x = contains x s

  abbrev pub has : String → String → StringMap Set → Bool
  has k x m = holds (lookup k m) x

  holds-map_add :
      (y x : String) (o : Option Set)
      → holds (Option.map (add y) o) x ≡ ((is_some o && str_eq y x) || holds o x)
  holds-map_add y x none = refl
  holds-map_add y x (some s) = contains-add y x s

  holds-map_remove :
      (y x : String) (o : Option Set)
      → holds (Option.map (remove y) o) x ≡ (not (str_eq y x) && holds o x)
  holds-map_remove y x none = ground arith
  holds-map_remove y x (some s) = contains-remove y x s

  pub lookup-ensure :
      (k j : String) (m : StringMap Set)
      → lookup j (ensure S k m)
        ≡ (if str_eq k j && not (is_some (lookup k m)) then some empty else lookup j m)
  unfolding ensure
  lookup-ensure k j m = ground (arith, lookup-insert k j empty m)

  holds_ensured :
      (x : String) (o : Option Set)
      → holds (if not (is_some o) then some empty else o) x ≡ holds o x
  holds_ensured x none = contains-empty x
  holds_ensured x (some s) = refl

  pub has-ensure : (k j x : String) (m : StringMap Set) → has j x (ensure S k m) ≡ has j x m
  has-ensure k j x m = elim (Bool-cases (str_eq k j)) [
    | inl e ↦ rw (lookup-ensure, e, ← (str_eq_iff k j).0 e) (holds_ensured x (lookup k m))
    | inr e ↦ rw (lookup-ensure, e)
  ]

  pub has-update_add :
      (k y j x : String) (m : StringMap Set)
      → is_some (lookup k m) ≡ true
      → has j x (update_at k (add y) m) ≡ ((str_eq k j && str_eq y x) || has j x m)
  has-update_add k y j x m h = elim (Bool-cases (str_eq k j)) [
    | inl e ↦
        rw (lookup-update_at, e, ← (str_eq_iff k j).0 e) (holds-map_add y x (lookup k m) ∙ rw h)
    | inr e ↦ rw (lookup-update_at, e)
  ]

  pub has-update_remove :
      (k y j x : String) (m : StringMap Set)
      → has j x (update_at k (remove y) m) ≡ (not (str_eq k j && str_eq y x) && has j x m)
  has-update_remove k y j x m = elim (Bool-cases (str_eq k j)) [
    | inl e ↦ rw (lookup-update_at, e, ← (str_eq_iff k j).0 e) (holds-map_remove y x (lookup k m))
    | inr e ↦ rw (lookup-update_at, e)
  ]

  no_element : (x : String) (l : List String) → length l == 0 ≡ true → str_elem x l ≡ false
  unfolding str_elem
  no_element x [] h = refl
  no_element x (y ∷ l) h = absurd (ground arith)

  -- A set of cardinality 0 has no member.
  pub contains-no : (x : String) (s : Set) → cardinality s == 0 ≡ true → contains x s ≡ false
  contains-no x s h =
      sym (S.elem-each x s) ∙ no_element x (S.each s) (ap (λ n. n == 0) (S.length-each s) ∙ h)

  missing :
      (k j x y : String) (m : StringMap Set)
      → lookup k m ≡ none
      → has j x m ≡ (not (str_eq k j && str_eq y x) && has j x m)
  missing k j x y m h = elim (Bool-cases (str_eq k j)) [
    | inl e ↦ rw (← (str_eq_iff k j).0 e, h) (ground arith)
    | inr e ↦ rw e
  ]

  has-delete_empty :
      (k j x y : String) (r : Set) (m : StringMap Set)
      → lookup k m ≡ some r
      → contains x (remove y r) ≡ false
      → has j x (delete k (update_at k (remove y) m))
        ≡ (not (str_eq k j && str_eq y x) && has j x m)
  has-delete_empty k j x y r m h z = elim (Bool-cases (str_eq k j)) [
    | inl e ↦ rw (lookup-delete, e, ← (str_eq_iff k j).0 e, h) (sym z ∙ contains-remove y x r)
    | inr e ↦ rw (lookup-delete, e, lookup-update_at, e)
  ]

  pub has-leave_room :
      (sid room j x : String) (rooms : StringMap Set)
      → has j x (leave_room S sid room rooms)
        ≡ (not (str_eq room j && str_eq sid x) && has j x rooms)
  unfolding leave_room
  has-leave_room sid room j x rooms = elim (Option-cases (lookup room rooms)) [
    | inl e ↦ rw (e, leave_room) (missing room j x sid rooms e)
    | inr (r, e) ↦ elim (Bool-cases (cardinality (remove sid r) == 0)) [
      | inl z ↦ rw (e, leave_room, z) (has-delete_empty room j x sid r rooms e (contains-no x _ z))
      | inr z ↦ rw (e, leave_room, z) (has-update_remove room sid j x rooms)
    ]
  ]

  -- No room in the map is empty.
  abbrev pub Inhabited : StringMap Set → Type 0
  Inhabited m = (room : String) (s : Set) → lookup room m ≡ some s → cardinality s == 0 ≡ false

  pub leave_room-Inhabited :
      (sid room : String) (rooms : StringMap Set)
      → Inhabited rooms
      → Inhabited (leave_room S sid room rooms)
  unfolding leave_room
  leave_room-Inhabited sid room rooms h = elim (Option-cases (lookup room rooms)) [
    | inl e ↦ rw (e, leave_room) h
    | inr (r, e) ↦ elim (Bool-cases (cardinality (remove sid r) == 0)) [
      | inl z ↦
          rw (e, leave_room, z)
            (λ j s k. elim (Bool-cases (str_eq room j)) [
              | inl q ↦ absurd (cc (rw (lookup-delete, q) at k))
              | inr q ↦ h j s (rw (lookup-delete, q, lookup-update_at, q) at k)
            ])
      | inr z ↦
          rw (e, leave_room, z)
            (λ j s k. elim (Bool-cases (str_eq room j)) [
              | inl q ↦
                  let left : remove sid r ≡ s =
                    cc (rw (lookup-update_at, q, ← (str_eq_iff room j).0 q, e) at k) in
                  rw (← left) z
              | inr q ↦ h j s (rw (lookup-update_at, q) at k)
            ])
    ]
  ]

  pub contains-cardinality :
      (x : String) (s : Set) → contains x s ≡ true → cardinality s == 0 ≡ false
  contains-cardinality x s h = elim (Bool-cases (cardinality s == 0)) [
    | inl z ↦ absurd (cc (contains-no x s z))
    | inr z ↦ z
  ]

  -- What `AddAll` does to the set of a room.
  abbrev pub enter : String → Set → Set
  enter y s = if contains y s then s else add y s

  contains-enter : (y x : String) (s : Set) → contains x (enter y s) ≡ (str_eq y x || contains x s)
  contains-enter y x s = elim (Bool-cases (contains y s)) [
    | inl e ↦ elim (Bool-cases (str_eq y x)) [
      | inl q ↦ rw (e, q) (rw ((str_eq_iff y x).0 q) at e)
      | inr q ↦ rw (e, q)
    ]
    | inr e ↦ rw e (contains-add y x s)
  ]

  -- The set behind a pointer that may be missing.
  abbrev base : Option Set → Set
  base none = empty
  base (some s) = s

  map-ensured :
      (f : Set → Set) (o : Option Set)
      → Option.map f (if not (is_some o) then some empty else o) ≡ some (f (base o))
  map-ensured f none = refl
  map-ensured f (some s) = refl

  holds-base : (x : String) (o : Option Set) → contains x (base o) ≡ holds o x
  holds-base x none = contains-empty x
  holds-base x (some s) = refl

  lookup-enter :
      (k y j : String) (m : StringMap Set)
      → lookup j (update_at k (enter y) (ensure S k m))
        ≡ (if str_eq k j then some (enter y (base (lookup k m))) else lookup j m)
  lookup-enter k y j m = elim (Bool-cases (str_eq k j)) [
    | inl e ↦
        rw (lookup-update_at, e, lookup-ensure, e, ← (str_eq_iff k j).0 e)
          (map-ensured (enter y) (lookup k m))
    | inr e ↦ rw (lookup-update_at, e, lookup-ensure, e)
  ]

  pub has-enter :
      (k y j x : String) (m : StringMap Set)
      → has j x (update_at k (enter y) (ensure S k m)) ≡ ((str_eq k j && str_eq y x) || has j x m)
  has-enter k y j x m = elim (Bool-cases (str_eq k j)) [
    | inl e ↦
        rw (lookup-enter k y j m, e)
          (contains-enter y x (base (lookup k m))
            ∙ rw (holds-base x (lookup k m), (str_eq_iff k j).0 e))
    | inr e ↦ rw (lookup-enter k y j m, e)
  ]

  pub enter-Inhabited :
      (k y : String) (m : StringMap Set)
      → Inhabited m
      → Inhabited (update_at k (enter y) (ensure S k m))
  enter-Inhabited k y m h j s q = elim (Bool-cases (str_eq k j)) [
    | inl e ↦
        let entered : enter y (base (lookup k m)) ≡ s = cc (rw (lookup-enter k y j m, e) at q) in
        rw (← entered)
          (contains-cardinality y _ (contains-enter y y (base (lookup k m)) ∙ rw (str_eq_refl y)))
    | inr e ↦ h j s (rw (lookup-enter k y j m, e) at q)
  ]
