-- ===== src/Terminal/Input/Queue.antt =====
-- src/terminal/input.rs: the queue of input events, through any sequence of calls.
use mathlib.Core.List.{append_assoc, append-nil}
use compukter_vm.Prelude.{
  ℕ, ◌≤◌, ◌<◌, Option, none, some, List, [], ◌∷◌, ◌++◌, All, length, length-append, Result, ok, err,
  panic, ltb, leb, ◌≡◌, refl, ◌∙◌, sym, ap, arith, inl, inr, Bool-cases, All-append,
}
use compukter_vm.Terminal.Input.{
  TerminalInputError, TerminalInputLimits, TerminalKeyEvent, TerminalInputEvent, key_event,
  text_event, TerminalInputQueue, new, ensure_capacity, push_key, push_text, poll,
}

pub data Call : Type 0 where
  pushes_key : TerminalKeyEvent → Call
  pushes_text : List ℕ → Call
  polls : Call

-- The queue with all events that were accepted and all that were polled so far.
pub record Trace : Type 0 where
  pub queue : TerminalInputQueue
  pub accepted : List TerminalInputEvent
  pub polled : List TerminalInputEvent

-- What a successful push adds.
abbrev pub added :
    {A : Type 0} → Result TerminalInputError A → TerminalInputEvent → List TerminalInputEvent
added (ok a) event = event ∷ []
added (err e) event = []
added panic event = []

abbrev pub taken : Option TerminalInputEvent → List TerminalInputEvent
taken none = []
taken (some event) = event ∷ []

abbrev pub step : Call → Trace → Trace
step (pushes_key event) t =
    let (result, queue) = push_key event t.queue in
    record t { queue = queue; accepted = t.accepted ++ added result (key_event event) }
step (pushes_text text) t =
    let (result, queue) = push_text text t.queue in
    record t { queue = queue; accepted = t.accepted ++ added result (text_event text) }
step polls t =
    let (event, queue) = poll t.queue in
    record t { queue = queue; polled = t.polled ++ taken event }

abbrev pub run : Trace → List Call → Trace
run t [] = t
run t (c ∷ cs) = run (step c t) cs

abbrev pub begin : TerminalInputLimits → Trace
begin limits = record { queue = new limits; accepted = []; polled = [] }

abbrev pub Allowed : TerminalInputLimits → TerminalInputEvent → Type 0
Allowed limits (key_event e) = Unit
Allowed limits (text_event text) = length text ≤ limits.maximum_text_code_points

abbrev pub IsFifo : TerminalInputLimits → Trace → Type 0
IsFifo limits t =
    (t.queue.limits ≡ limits)
    × (t.polled ++ t.queue.events ≡ t.accepted)
    × (length t.queue.events ≤ limits.maximum_events)
    × All (Allowed limits) t.queue.events

module _ (limits : TerminalInputLimits) (t : Trace) (fifo : IsFifo limits t) where
  abbrev same : Trace
  same = record t { accepted = t.accepted ++ [] }

  same-IsFifo : IsFifo limits same
  same-IsFifo = (fifo.0, fifo.1 ∙ sym (append-nil t.accepted), fifo.2, fifo.3)

  abbrev pushed : TerminalInputEvent → Trace
  pushed event = record t {
    queue = record t.queue { events = t.queue.events ++ event ∷ [] };
    accepted = t.accepted ++ event ∷ [];
  }

  pushed-IsFifo :
      (event : TerminalInputEvent)
      → Allowed limits event
      → length t.queue.events < limits.maximum_events
      → IsFifo limits (pushed event)
  pushed-IsFifo event fine room = (
    fifo.0,
    sym (append_assoc t.polled t.queue.events (event ∷ [])) ∙ ap (λ x. x ++ event ∷ []) fifo.1,
    omega (arith, length-append t.queue.events (event ∷ [])),
    All-append (Allowed limits) t.queue.events (event ∷ []) fifo.3 (fine, tt),
  )

  key-IsFifo : (event : TerminalKeyEvent) → IsFifo limits (step (pushes_key event) t)
  unfolding push_key ensure_capacity
  key-IsFifo event = elim (Bool-cases (leb t.queue.limits.maximum_events (length t.queue.events))) [
    | inl e ↦ rw e same-IsFifo
    | inr e ↦
        let m : t.queue.limits.maximum_events ≡ limits.maximum_events =
          ap (λ l. l.maximum_events) fifo.0 in
        rw e (pushed-IsFifo (key_event event) tt (ground arith))
  ]

  text-IsFifo : (text : List ℕ) → IsFifo limits (step (pushes_text text) t)
  unfolding push_text ensure_capacity
  text-IsFifo text = elim (Bool-cases (ltb t.queue.limits.maximum_text_code_points (length text))) [
    | inl e ↦ rw e same-IsFifo
    | inr f ↦ elim (Bool-cases (leb t.queue.limits.maximum_events (length t.queue.events))) [
      | inl e ↦ rw (f, e) same-IsFifo
      | inr e ↦
          let m : t.queue.limits.maximum_events ≡ limits.maximum_events =
            ap (λ l. l.maximum_events) fifo.0 in
          let n : t.queue.limits.maximum_text_code_points ≡ limits.maximum_text_code_points =
            ap (λ l. l.maximum_text_code_points) fifo.0 in
          rw (f, e) (pushed-IsFifo (text_event text) (ground arith) (ground arith))
    ]
  ]

abbrev trace_of : TerminalInputLimits → (events accepted polled : List TerminalInputEvent) → Trace
trace_of l events accepted polled = record {
  queue = record { limits = l; events = events };
  accepted = accepted;
  polled = polled;
}

poll-IsFifo :
    (limits l : TerminalInputLimits) (events accepted polled : List TerminalInputEvent)
    → IsFifo limits (trace_of l events accepted polled)
    → IsFifo limits (step polls (trace_of l events accepted polled))
unfolding poll
poll-IsFifo limits l [] accepted polled (e, f, n, h) = (e, append-nil (polled ++ []) ∙ f, n, h)
poll-IsFifo limits l (x ∷ xs) accepted polled (e, f, n, h) =
    (e, append_assoc polled (x ∷ []) xs ∙ f, omega arith, h.1)

run-IsFifo :
    (limits : TerminalInputLimits) (t : Trace) (cs : List Call)
    → IsFifo limits t
    → IsFifo limits (run t cs)
run-IsFifo limits t [] h = h
run-IsFifo limits t (pushes_key event ∷ cs) h =
    run-IsFifo limits (step (pushes_key event) t) cs (key-IsFifo limits t h event)
run-IsFifo limits t (pushes_text text ∷ cs) h =
    run-IsFifo limits (step (pushes_text text) t) cs (text-IsFifo limits t h text)
run-IsFifo limits t (polls ∷ cs) h =
    run-IsFifo limits (step polls t) cs
      (poll-IsFifo limits t.queue.limits t.queue.events t.accepted t.polled h)

-- Through any calls the queue is first in, first out: the events polled so far, followed by those in
-- the queue, are the events that the pushes accepted, in order; the queue is no longer than its
-- limit, and no text in it is longer than the limit of texts.
pub history-IsFifo :
    (limits : TerminalInputLimits) (cs : List Call) → IsFifo limits (run (begin limits) cs)
unfolding new
history-IsFifo limits cs = run-IsFifo limits (begin limits) cs (refl, refl, omega arith, tt)
