-- ===== src/Handlers/Events/Delivery.antt =====
-- Which handlers an event is delivered to.
use Prim.Native.String.{String}
use socket_io.Base.{
  ℕ, ◌≡◌, refl, sym, ap, ap₂, ◌∙◌, Bool, true, false, Option, List, [], ◌∷◌, ◌++◌, append_assoc,
  append-nil, if-true, ◌==◌, if◌then◌else◌, ok, Option-cases, Bool-cases, subst, inl, inr,
}
use socket_io.Base.Maps.{
  StringMap, lookup, insert, delete, lookup-insert, lookup-delete, str_eq, str_eq_iff, str_eq_refl,
}
use socket_io.Handlers.Slices.Single.{Distinct, without, off_slice-single}
use socket_io.Handlers.Events.{
  EventHandlerStore, found_or_empty, handlers_of, add_handler, once, put_back, off_found,
  off_events, off, get_all,
}

-- The handlers that an event is delivered to now, and once.
abbrev pub always : String → EventHandlerStore → List ℕ
always event_name e = handlers_of event_name e.events

abbrev pub next : String → EventHandlerStore → List ℕ
next event_name e = handlers_of event_name e.events_once

found_or_empty-if :
    (b : Bool) (o p : Option (List ℕ))
    → found_or_empty (if b then o else p) ≡ (if b then found_or_empty o else found_or_empty p)
found_or_empty-if true o p = refl
found_or_empty-if false o p = refl

handlers_of-insert :
    (key other : String) (handlers : List ℕ) (m : StringMap (List ℕ))
    → handlers_of other (insert key handlers m)
      ≡ (if str_eq key other then handlers else handlers_of other m)
unfolding handlers_of
handlers_of-insert key other handlers m =
    ap found_or_empty (lookup-insert key other handlers m)
    ∙ found_or_empty-if (str_eq key other) _ _

handlers_of-delete :
    (key other : String) (m : StringMap (List ℕ))
    → handlers_of other (delete key m) ≡ (if str_eq key other then [] else handlers_of other m)
unfolding handlers_of
handlers_of-delete key other m =
    ap found_or_empty (lookup-delete key other m) ∙ found_or_empty-if (str_eq key other) _ _

handlers_of-put_back :
    (key other : String) (handlers : List ℕ) (m : StringMap (List ℕ))
    → handlers_of other (put_back key handlers m)
      ≡ (if str_eq key other then handlers else handlers_of other m)
unfolding put_back
handlers_of-put_back key other [] m = handlers_of-delete key other m
handlers_of-put_back key other (h ∷ handlers) m = handlers_of-insert key other (h ∷ handlers) m

same_key :
    {A : Type 0} (key other : String) (f : String → A) (a : A)
    → (if str_eq key other then f key else a) ≡ (if str_eq key other then f other else a)
same_key key other f a = elim (Bool-cases (str_eq key other)) [
  | inl e ↦ rw e (ap f ((str_eq_iff key other).0 e))
  | inr e ↦ rw e
]

handlers_of-add_handler :
    (key other : String) (handler : ℕ) (m : StringMap (List ℕ))
    → handlers_of other (add_handler key handler m)
      ≡ (if str_eq key other then handlers_of other m ++ (handler ∷ []) else handlers_of other m)
unfolding add_handler
handlers_of-add_handler key other handler m =
    handlers_of-insert key other (handlers_of key m ++ (handler ∷ [])) m
    ∙ same_key key other (λ k. handlers_of k m ++ (handler ∷ [])) (handlers_of other m)

-- What is left of a map when one handler of an event is taken out of it.
record Removed (key : String) (handler : ℕ) (m m' : StringMap (List ℕ)) : Type 0 where
  at :
      (other : String)
      → handlers_of other m'
        ≡ (if str_eq key other then without handler (handlers_of other m) else handlers_of other m)

Removed-absent :
    (key : String) (handler : ℕ) (m : StringMap (List ℕ))
    → handlers_of key m ≡ []
    → Removed key handler m m
Removed-absent key handler m e = record {
  at = λ other. elim (Bool-cases (str_eq key other)) [
    | inl q ↦
        let none_here : handlers_of other m ≡ [] =
          ap (λ k. handlers_of k m) (sym ((str_eq_iff key other).0 q)) ∙ e in
        rw (q, none_here)
    | inr q ↦ rw q
  ];
}

Removed-put_back :
    (key : String) (handler : ℕ) (m : StringMap (List ℕ))
    → Removed key handler m (put_back key (without handler (handlers_of key m)) m)
Removed-put_back key handler m = record {
  at = λ other.
      handlers_of-put_back key other (without handler (handlers_of key m)) m
      ∙ same_key key other (λ k. without handler (handlers_of k m)) (handlers_of other m);
}

off_events-single :
    (key : String) (handler : ℕ) (m : StringMap (List ℕ))
    → Distinct (handlers_of key m)
    → (m' : StringMap (List ℕ)) × (off_events (handler ∷ []) key m ≡ ok m')
      × Removed key handler m m'
unfolding off_events off_found handlers_of
off_events-single key handler m d = elim (Option-cases (lookup key m)) [
  | inl e ↦ (m, rw e, Removed-absent key handler m (ap found_or_empty e))
  | inr (events, e) ↦ (
    put_back key (without handler (handlers_of key m)) m,
    rw e (rw (off_slice-single handler events (subst Distinct (ap found_or_empty e) d))),
    Removed-put_back key handler m,
  )
]

without-++ : (h : ℕ) (xs ys : List ℕ) → without h (xs ++ ys) ≡ without h xs ++ without h ys
without-++ h [] ys = refl
without-++ h (x ∷ xs) ys = elim (Bool-cases (x == h)) [
  | inl e ↦ rw e (without-++ h xs ys)
  | inr e ↦ rw e (ap (◌∷◌ x) (without-++ h xs ys))
]

-- No function is registered twice for the event, neither for good nor for once.
pub record IsOrderly (event_name : String) (e : EventHandlerStore) : Type 0 where
  pub always : Distinct (handlers_of event_name e.events)
  pub once : Distinct (handlers_of event_name e.events_once)

if-++ :
    (b : Bool) (h : ℕ) (xs ys : List ℕ)
    → (if b then without h xs else xs) ++ (if b then without h ys else ys)
      ≡ (if b then without h (xs ++ ys) else xs ++ ys)
if-++ true h xs ys = sym (without-++ h xs ys)
if-++ false h xs ys = refl

-- Where no function is registered twice for an event, taking one out of it does not panic: the event
-- is delivered to its other handlers as before, and every other event to all of its own.
pub off-get_all :
    (key : String) (handler : ℕ) (e : EventHandlerStore)
    → IsOrderly key e
    → (e' : EventHandlerStore) × (off key (handler ∷ []) e ≡ ok e')
      × ((other : String)
          → (get_all other e').0 ≡ (
              if str_eq key other
              then without handler (get_all other e).0
              else (get_all other e).0))
unfolding off get_all
off-get_all key handler e o =
    let (events, kept, removed) = off_events-single key handler e.events o.always in
    let (events_once, kept_once, removed_once) =
      off_events-single key handler e.events_once o.once in
    (
      record { events = events; events_once = events_once },
      rw (kept, kept_once),
      λ other.
          ap₂ ◌++◌ (removed.at other) (removed_once.at other)
          ∙ if-++ (str_eq key other) handler (handlers_of other e.events)
              (handlers_of other e.events_once),
    )

-- The store after events were delivered, one after the other.
abbrev pub after : List String → EventHandlerStore → EventHandlerStore
after [] e = e
after (event_name ∷ event_names) e = after event_names (get_all event_name e).1

abbrev pub Others : String → List String → Type 0
Others key [] = Unit {0}
Others key (other ∷ others) = (str_eq other key ≡ false) × Others key others

get_all-after :
    (key : String) (others : List String) (e : EventHandlerStore)
    → Others key others
    → (get_all key (after others e)).0 ≡ (get_all key e).0
unfolding get_all
get_all-after key [] e o = refl
get_all-after key (other ∷ others) e o =
    get_all-after key others _ o.1
    ∙ ap (◌++◌ (handlers_of key e.events)) (handlers_of-delete other key e.events_once ∙ rw o.0)

events-after :
    (key : String) (others : List String) (e : EventHandlerStore)
    → handlers_of key (after others e).events ≡ handlers_of key e.events
unfolding get_all
events-after key [] e = refl
events-after key (other ∷ others) e = events-after key others (get_all other e).1

get_all-once :
    (key : String) (handler : ℕ) (e : EventHandlerStore)
    → (get_all key (once key handler e)).0 ≡ (get_all key e).0 ++ (handler ∷ [])
unfolding get_all once
get_all-once key handler e =
    ap (◌++◌ (handlers_of key e.events))
      (handlers_of-add_handler key key handler e.events_once ∙ if-true _ (str_eq_refl key))
    ∙ sym (append_assoc (handlers_of key e.events) (handlers_of key e.events_once) (handler ∷ []))

get_all-twice :
    (key : String) (e : EventHandlerStore)
    → (get_all key (get_all key e).1).0 ≡ handlers_of key e.events
unfolding get_all
get_all-twice key e =
    ap (◌++◌ (handlers_of key e.events))
      (handlers_of-delete key key e.events_once ∙ if-true _ (str_eq_refl key))
    ∙ append-nil (handlers_of key e.events)

-- A handler registered with `once` is called last at the next such event, whatever other events come
-- before it, and at the event after that only those are called that are registered for good.
pub once-get_all :
    (key : String) (handler : ℕ) (others : List String) (e : EventHandlerStore)
    → Others key others
    → let later : EventHandlerStore = after others (once key handler e) in
      ((get_all key later).0 ≡ (get_all key e).0 ++ (handler ∷ []))
      × ((get_all key (get_all key later).1).0 ≡ handlers_of key e.events)
once-get_all key handler others e o = (
  get_all-after key others (once key handler e) o ∙ get_all-once key handler e,
  get_all-twice key (after others (once key handler e))
      ∙ events-after key others (once key handler e)
      ∙ (unfold once in refl),
)
