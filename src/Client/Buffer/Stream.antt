-- ===== src/Client/Buffer/Stream.antt =====
-- `_EventBuffer` under any sequence of its methods' critical sections, by any threads: it is a
-- bounded first-in first-out queue of one stream of events.
use kim_llm_serving.Prelude.{
  ℕ, ◌≤◌, ◌≡◌, refl, sym, ap, ◌∙◌, Bool, true, false, Option, none, some, List, [], ◌∷◌, ◌++◌, map,
  arith, length, is_some, if◌then◌else◌, ◌⊎◌, inl, inr, Bool-cases, append_assoc, append-nil,
  length-append,
}
use mathlib.Core.List.{map-append}
use kim_llm_serving.Stream.{IsStream, append-IsStream_left}
use kim_llm_serving.Protocol.{TokenDelta, Terminal, GenerationEvent, delta, end}
use kim_llm_serving.Client.Buffer.{
  EventBuffer, init, put_delta, put_terminal, Got, event, blocked, stop, get,
}

pub data Op : Type 0 where
  puts_delta : TokenDelta → Op
  puts_terminal : Terminal → Op
  gets : Op

abbrev pub is_end : GenerationEvent → Bool
is_end (delta d) = false
is_end (end t) = true

-- The buffer after one operation, what it took in and what it handed out.
pub record Effect : Type 0 where
  pub buffer : EventBuffer
  pub taken : List GenerationEvent
  pub handed : List GenerationEvent

abbrev handed_of : Got → List GenerationEvent
handed_of (event e) = e ∷ []
handed_of blocked = []
handed_of stop = []

unfoldable pub step : EventBuffer → Op → Effect
step b (puts_delta d) =
    let (b', done) = put_delta b d in
    record { buffer = b'; taken = if done then delta d ∷ [] else []; handed = [] }
step b (puts_terminal t) =
    let (b', done) = put_terminal b t in
    record { buffer = b'; taken = if done then end t ∷ [] else []; handed = [] }
step b gets = let (b', got) = get b in record { buffer = b'; taken = []; handed = handed_of got }

unfoldable pub run : EventBuffer → List Op → Effect
run b [] = record { buffer = b; taken = []; handed = [] }
run b (o ∷ os) =
    let first = step b o in
    let rest = run first.buffer os in
    record {
      buffer = rest.buffer;
      taken = first.taken ++ rest.taken;
      handed = first.handed ++ rest.handed;
    }

abbrev terminal_pending : Option Terminal → Bool → List GenerationEvent
terminal_pending none delivered = []
terminal_pending (some t) true = []
terminal_pending (some t) false = end t ∷ []

-- What is still to be handed out, in order.
abbrev pub pending : EventBuffer → List GenerationEvent
pending b = map delta b.deltas ++ terminal_pending b.terminal b.terminal_delivered

pub record IsValid (b : EventBuffer) : Type 0 where
  pub bounded : length b.deltas ≤ b.max_delta_events
  pub marked : is_some b.terminal ≡ false → b.terminal_delivered ≡ false

pub step-IsValid : (b : EventBuffer) (o : Op) → IsValid b → IsValid (step b o).buffer
unfolding step put_delta put_terminal get
step-IsValid b (puts_delta d) v = ground (arith, length-append b.deltas (d ∷ []))
step-IsValid b (puts_terminal t) v = ground arith
step-IsValid b gets v = ground arith

pub step-fifo :
    (b : EventBuffer) (o : Op)
    → IsValid b
    → pending b ++ (step b o).taken ≡ (step b o).handed ++ pending (step b o).buffer
unfolding step put_delta put_terminal get
step-fifo b (puts_delta d) v = ground (
  arith,
  append-nil (pending b),
  append-nil (map delta b.deltas),
  append-nil (map delta b.deltas ++ delta d ∷ []),
  map-append delta b.deltas (d ∷ []),
)
step-fifo b (puts_terminal t) v =
    ground (arith, append-nil (pending b), append-nil (map delta b.deltas))
step-fifo b gets v = ground (arith, append-nil (pending b))

-- What was pending or taken in is handed out in that order, or still pending.
pub run-fifo :
    (b : EventBuffer) (os : List Op)
    → IsValid b
    → pending b ++ (run b os).taken ≡ (run b os).handed ++ pending (run b os).buffer
unfolding run
run-fifo b [] v = append-nil (pending b)
run-fifo b (o ∷ os) v =
    let s = step b o in
    let r = run s.buffer os in
    sym (append_assoc (pending b) s.taken r.taken)
    ∙ ap (λ es. es ++ r.taken) (step-fifo b o v)
    ∙ append_assoc s.handed (pending s.buffer) r.taken
    ∙ ap (λ es. s.handed ++ es) (run-fifo s.buffer os (step-IsValid b o v))
    ∙ sym (append_assoc s.handed r.handed (pending r.buffer))

pub run-IsValid : (b : EventBuffer) (os : List Op) → IsValid b → IsValid (run b os).buffer
unfolding run
run-IsValid b [] v = v
run-IsValid b (o ∷ os) v = run-IsValid (step b o).buffer os (step-IsValid b o v)

step-closed :
    (b : EventBuffer) (o : Op)
    → is_some b.terminal ≡ true
    → ((step b o).taken ≡ []) × (is_some (step b o).buffer.terminal ≡ true)
unfolding step put_delta put_terminal get
step-closed b (puts_delta d) h = ground arith
step-closed b (puts_terminal t) h = ground arith
step-closed b gets h = ground arith

-- After the Terminal nothing more is taken in.
pub run-closed :
    (b : EventBuffer) (os : List Op) → is_some b.terminal ≡ true → (run b os).taken ≡ []
unfolding run
run-closed b [] h = refl
run-closed b (o ∷ os) h =
    let (nothing, closed) = step-closed b o h in rw nothing (run-closed (step b o).buffer os closed)

-- One operation takes in nothing, one delta, or the Terminal.
step-taken :
    (b : EventBuffer) (o : Op)
    → ((step b o).taken ≡ [])
      ⊎ ((d : TokenDelta) × ((step b o).taken ≡ delta d ∷ []))
      ⊎ ((t : Terminal) × ((step b o).taken ≡ end t ∷ [])
          × (is_some (step b o).buffer.terminal ≡ true))
unfolding step put_delta put_terminal
step-taken b (puts_delta d) = elim (Bool-cases (put_delta b d).1) [
  | inl e ↦ inr (inl (d, rw (e, step, put_delta)))
  | inr e ↦ inl (rw (e, step, put_delta))
]
step-taken b (puts_terminal t) = elim (Bool-cases (is_some b.terminal)) [
  | inl e ↦ inl (rw (e, step, put_terminal))
  | inr e ↦ inr (inr (t, rw (e, step, put_terminal), rw (e, step, put_terminal)))
]
step-taken b gets = inl refl

pub run_taken-IsStream : (b : EventBuffer) (os : List Op) → IsStream is_end (run b os).taken
unfolding run
run_taken-IsStream b [] = tt
run_taken-IsStream b (o ∷ os) =
    let b' = (step b o).buffer in
    elim (step-taken b o) [
      | inl e ↦ rw e (run_taken-IsStream b' os)
      | inr (inl (d, e)) ↦ rw e (run_taken-IsStream b' os)
      | inr (inr (t, e, closed)) ↦ rw e (run-closed b' os closed)
    ]

step-capacity : (b : EventBuffer) (o : Op) → (step b o).buffer.max_delta_events ≡ b.max_delta_events
unfolding step put_delta put_terminal get
step-capacity b (puts_delta d) = ground arith
step-capacity b (puts_terminal t) = ground arith
step-capacity b gets = ground arith

run-capacity :
    (b : EventBuffer) (os : List Op) → (run b os).buffer.max_delta_events ≡ b.max_delta_events
unfolding run
run-capacity b [] = refl
run-capacity b (o ∷ os) = run-capacity (step b o).buffer os ∙ step-capacity b o

-- Whatever the threads do to a new buffer for `n` deltas: the consumer is handed, in order and once
-- each, the events that were taken in, of which the rest is still pending; what is taken in, and
-- what is handed out, is deltas followed by at most one Terminal; and at most `n` deltas wait.
pub run_in_order :
    (n : ℕ) (os : List Op)
    → let r = run (init n) os in
      (r.taken ≡ r.handed ++ pending r.buffer)
      × IsStream is_end r.taken
      × IsStream is_end r.handed
      × (length r.buffer.deltas ≤ n)
unfolding init
run_in_order n os = (fifo, taken, handed, bounded)
  where
    fresh : IsValid (init n)
    fresh = record { bounded = omega arith; marked = λ _. refl }

    fifo : (run (init n) os).taken ≡ (run (init n) os).handed ++ pending (run (init n) os).buffer
    fifo = run-fifo (init n) os fresh

    taken : IsStream is_end (run (init n) os).taken
    taken = run_taken-IsStream (init n) os

    handed : IsStream is_end (run (init n) os).handed
    handed =
        append-IsStream_left is_end (run (init n) os).handed (pending (run (init n) os).buffer)
          (rw fifo at taken)

    bounded : length (run (init n) os).buffer.deltas ≤ n
    bounded = omega (arith, (run-IsValid (init n) os fresh).bounded, run-capacity (init n) os)
