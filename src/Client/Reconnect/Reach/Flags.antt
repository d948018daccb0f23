-- ===== src/Client/Reconnect/Reach/Flags.antt =====
-- What the operations do to the flags of the callbacks.
use socket_io.Base.{
  ℕ, ◌≡◌, refl, sym, ap, ◌∙◌, arith, Bool, true, false, List, [], ◌∷◌, if◌then◌else◌, elem, if-true,
  if-false,
}
use socket_io.Client.Backoff.{Backoff}
use socket_io.Client.Manager.{
  disconnected, Manager, is_connected, without, cleanup, finish_connect, on_close,
}
use socket_io.Client.Reconnect.{Phase, idle, looking, sleeping, announcing, attempting, dialing}
use socket_io.Client.Reconnect.Reach.{Callbacks, Heard}

pub either :
    {A : Type 0} (P : A → Type 0) (b : Bool) {x y : A}
    → (b ≡ true → P x)
    → (b ≡ false → P y)
    → P (if b then x else y)
either P true px py = px refl
either P false px py = py refl

-- A manager that is not connected has nothing for `cleanup` to stop.
pub quiet : (m : Manager) → is_connected m.state ≡ false → m.subs ≡ [] → Callbacks m
quiet m e s = ((λ t. absurd (let q : true ≡ false = sym t ∙ e in cc)), λ _. s)

-- The callbacks do not depend on the backoff, and on what `reconnect` is to skip.
pub kept :
    (m : Manager) (b : Backoff) (k : Bool)
    → Callbacks m
    → Callbacks (record m { backoff = b; skip_reconnect = k })
unfolding cleanup
kept m b k v = (
  λ e.
      let live = v.0 e in
      record {
        connection = live.connection;
        eio = live.eio;
        subs = live.subs;
        heard = live.heard;
        stops = live.stops;
      },
  v.1,
)

without-none : (gone xs : List ℕ) → gone ≡ [] → without gone xs ≡ xs
unfolding without
without-none gone [] e = refl
without-none gone (x ∷ xs) e =
    let rest = without-none gone xs e in if-false _ (ap (elem x) e) ∙ ap (◌∷◌ x) rest

elem-without : (c : ℕ) (xs : List ℕ) → elem c (without (c ∷ []) xs) ≡ false
unfolding without
elem-without c [] = refl
elem-without c (x ∷ xs) =
    either (λ ys. elem c ys ≡ false) (elem x (c ∷ [])) (λ e. elem-without c xs)
      (λ e. ground (arith, e, elem-without c xs))

pub on_close-Callbacks : (m : Manager) → Callbacks (on_close m).0
unfolding on_close cleanup
on_close-Callbacks m = quiet (on_close m).0 refl refl

-- The callbacks of a call of `eio.Dial` get through on, whatever closes the manager meanwhile.
pub on_close-Heard :
    (p : Phase) (k : Bool) (m : Manager)
    → Callbacks m
    → Heard p m
    → Heard p (on_close (record m { state = disconnected; skip_reconnect = k })).0
unfolding on_close cleanup
on_close-Heard (dialing recursed) k m v h =
    (refl, ap (elem m.dial) (without-none m.subs m.active (v.1 h.0)) ∙ h.1)
on_close-Heard idle k m v h = tt
on_close-Heard looking k m v h = tt
on_close-Heard sleeping k m v h = tt
on_close-Heard announcing k m v h = tt
on_close-Heard attempting k m v h = tt

-- `connect` with a connection has its callbacks as those to stop.
pub connected-Callbacks :
    (recursed : Bool) (m : Manager)
    → Callbacks m
    → Heard (dialing recursed) m
    → Callbacks (finish_connect true m).0
unfolding finish_connect cleanup
connected-Callbacks recursed m v h =
    let same = without-none m.subs m.active (v.1 h.0) in
    let heard : elem m.dial (without m.subs m.active) ≡ true = ap (elem m.dial) same ∙ h.1 in
    let subs = if-true [] heard in
    (
      λ _. record {
        connection = m.dial;
        eio = refl;
        subs = subs;
        heard = heard;
        stops =
            ap (λ gone. elem m.dial (without gone (without m.subs m.active))) subs
            ∙ elem-without m.dial (without m.subs m.active);
      },
      λ t. absurd (let q : true ≡ false = t in cc),
    )

pub not_dialed-Callbacks :
    (recursed : Bool) (m : Manager)
    → Callbacks m
    → Heard (dialing recursed) m
    → Callbacks (finish_connect false m).0
unfolding finish_connect
not_dialed-Callbacks recursed m v h = quiet (record m { state = disconnected }) refl (v.1 h.0)
