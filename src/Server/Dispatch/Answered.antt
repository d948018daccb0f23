-- ===== src/Server/Dispatch/Answered.antt =====
-- An event is acknowledged once.
use socket_io.Base.{
  ℕ, ◌+◌, ◌≡◌, refl, sym, ap, ◌∙◌, arith, Bool, true, false, not, ◌&&◌, ◌||◌, Option, none, some,
  List, [], ◌∷◌, ◌++◌, if◌then◌else◌, subst,
}
use socket_io.Parser.Header.{event}
use socket_io.Server.Dispatch.{
  EventHandler, Effect, sends_ack, Around, send_acks, call_handler, is_number, on_event, on_events,
  Waiting, on_packet,
}

abbrev pub is_sent : Effect → ℕ
is_sent (sends_ack id answer) = 1
is_sent e = 0

pub sent_acks : List Effect → ℕ
sent_acks [] = 0
sent_acks (e ∷ effects) = is_sent e + sent_acks effects

sent_acks-append : (es fs : List Effect) → sent_acks (es ++ fs) ≡ sent_acks es + sent_acks fs
unfolding sent_acks
sent_acks-append [] fs = omega arith
sent_acks-append (e ∷ es) fs = omega (arith, sent_acks-append es fs)

abbrev pub as_count : Bool → ℕ
as_count true = 1
as_count false = 0

abbrev answered : List ℕ → Bool
answered [] = false
answered (answer ∷ answers) = true

-- Whether a handler is called with a function for an acknowledgement, and answers.
pub answers_event : Around → EventHandler → Option ℕ → Bool
answers_event around h none = false
answers_event around h (some id) =
    is_number h.input_args (around.decode h.input_args)
    && (around.accepts && (around.connected && (h.has_ack && answered h.answers)))

pub any_answers : Around → List EventHandler → Option ℕ → Bool
any_answers around [] id = false
any_answers around (h ∷ handlers) id = answers_event around h id || any_answers around handlers id

-- The flag is set where there is an answer, and an acknowledgement is sent where it is set.
record Counts (answers before : Bool) (r : Bool × List Effect) : Type 0 where
  flag : r.0 ≡ (before || answers)
  acks : as_count before + sent_acks r.1 ≡ as_count r.0

send_acks-Counts :
    (id : ℕ) (values : List ℕ) (sent : Bool)
    → Counts (answered values) sent (send_acks id values sent)
unfolding send_acks sent_acks
send_acks-Counts id [] true = record { flag = refl; acks = omega arith }
send_acks-Counts id [] false = record { flag = refl; acks = omega arith }
send_acks-Counts id (value ∷ values) true =
    let v = send_acks-Counts id values true in record { flag = v.flag; acks = v.acks }
send_acks-Counts id (value ∷ values) false =
    let v = send_acks-Counts id values true in
    record { flag = v.flag; acks = omega (arith, v.acks) }

either :
    {A : Type 0} (P : A → Type 0) (b : Bool) {x y : A}
    → (b ≡ true → P x)
    → (b ≡ false → P y)
    → P (if b then x else y)
either P true px py = px refl
either P false px py = py refl

-- No acknowledgement is sent.
silent :
    (answers sent : Bool) (effects : List Effect)
    → answers ≡ false
    → sent_acks effects ≡ 0
    → Counts answers sent (sent, effects)
silent answers sent effects e z = record { flag = ground (arith, e); acks = omega (arith, z) }

call_handler-Counts :
    (h : EventHandler) (id : ℕ) (sent : Bool)
    → Counts (h.has_ack && answered h.answers) sent (call_handler h (some id) sent)
unfolding call_handler sent_acks
call_handler-Counts h id sent =
    let v = send_acks-Counts id h.answers sent in
    either (Counts (h.has_ack && answered h.answers) sent) h.has_ack
      (λ e. record {
        flag = v.flag ∙ ap (λ b. sent || (b && answered h.answers)) (sym e);
        acks = omega (arith, v.acks);
      })
      (λ e.
        silent (h.has_ack && answered h.answers) sent _ (ap (λ b. b && answered h.answers) e) refl)

on_event-Counts :
    (around : Around) (h : EventHandler) (id : Option ℕ) (sent : Bool)
    → Counts (answers_event around h id) sent (on_event around h id sent)
unfolding on_event answers_event sent_acks call_handler
on_event-Counts around h none sent =
    either (Counts false sent) (not (is_number h.input_args (around.decode h.input_args)))
      (λ _. silent false sent _ refl refl)
      (λ _.
        either (Counts false sent) (not around.accepts) (λ _. silent false sent _ refl refl)
          (λ _.
            either (Counts false sent) (not around.connected) (λ _. silent false sent _ refl refl)
              (λ _. silent false sent _ refl refl)))
on_event-Counts around h (some id) sent =
    let number = is_number h.input_args (around.decode h.input_args) in
    let last = h.has_ack && answered h.answers in
    let all = number && (around.accepts && (around.connected && last)) in
    either (Counts all sent) (not number) (λ e. silent all sent _ (ground (arith, e)) refl)
      (λ e.
        either (Counts all sent) (not around.accepts)
          (λ f. silent all sent _ (ground (arith, f)) refl)
          (λ f.
            either (Counts all sent) (not around.connected)
              (λ g. silent all sent _ (ground (arith, g)) refl)
              (λ g.
                let same : last ≡ all = ground (arith, e, f, g) in
                subst (λ b. Counts b sent (call_handler h (some id) sent)) same
                  (call_handler-Counts h id sent))))

on_events-Counts :
    (around : Around) (handlers : List EventHandler) (id : Option ℕ) (sent : Bool)
    → Counts (any_answers around handlers id) sent (on_events around handlers id sent)
unfolding on_events any_answers sent_acks
on_events-Counts around [] id sent = record { flag = ground arith; acks = omega arith }
on_events-Counts around (h ∷ handlers) id sent =
    let first = on_event around h id sent in
    let rest = on_events around handlers id first.0 in
    let v = on_event-Counts around h id sent in
    let w = on_events-Counts around handlers id first.0 in
    let assoc = or_assoc sent (answers_event around h id) (any_answers around handlers id) in
    record {
      flag = w.flag ∙ ap (λ b. b || any_answers around handlers id) v.flag ∙ assoc;
      acks = omega (arith, v.acks, w.acks, sent_acks-append first.1 rest.1);
    }
  where
    or_assoc : (a b c : Bool) → ((a || b) || c) ≡ (a || (b || c))
    or_assoc a b c = ground arith

-- However many handlers an event has, and however often each of them answers: one acknowledgement is
-- sent if the event asks for one and some handler that takes a function for it is called and answers,
-- and none otherwise.
pub on_packet-sent_acks :
    (around : Around) (id : Option ℕ) (handlers : List EventHandler) (acks : List Waiting)
    → sent_acks (on_packet around event id handlers acks).1.1
      ≡ as_count (any_answers around handlers id)
unfolding on_packet
on_packet-sent_acks around id handlers acks =
    let v = on_events-Counts around handlers id false in omega (arith, v.acks, ap as_count v.flag)
