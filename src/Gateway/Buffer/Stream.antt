-- ===== src/Gateway/Buffer/Stream.antt =====
-- `_AsyncEventBuffer` under any sequence of its methods' critical sections, with the gauge of
-- buffered events that it shares with the other requests' buffers.
use kim_llm_serving.Prelude.{
  ℕ, ◌+◌, ◌≤◌, ◌≡◌, refl, ap, Bool, true, false, Option, none, some, List, [], ◌∷◌, ◌++◌, arith,
  length, is_some, ◌⊎◌, inl, inr, Bool-cases, length-append,
}
use kim_llm_serving.Stream.{IsStream}
use kim_llm_serving.Gateway.Decoder.{Text}
use kim_llm_serving.Gateway.Metrics.{Metrics, sse_delta_enqueued, sse_deltas_released}
use kim_llm_serving.Gateway.Buffer.{
  GatewayTerminal, GatewayEvent, text_delta, terminal_event, AsyncEventBuffer, new_buffer,
  put_delta, put_terminal, Got, event, blocked, stop, take_terminal, take_first, get, abandon,
}

pub data Op : Type 0 where
  puts_delta : Text → Op
  puts_terminal : GatewayTerminal → Op
  gets abandons : Op

abbrev pub is_end : GatewayEvent → Bool
is_end (text_delta d) = false
is_end (terminal_event t) = true

-- The buffer and the metrics after one operation, and what the operation handed out.
pub record Effect : Type 0 where
  pub buffer : AsyncEventBuffer
  pub metrics : Metrics
  pub handed : List GatewayEvent

abbrev pub handed_of : Got → List GatewayEvent
handed_of (event e) = e ∷ []
handed_of blocked = []
handed_of stop = []

unfoldable pub step : AsyncEventBuffer → Metrics → Op → Effect
step b m (puts_delta d) =
    let (b', m', done) = put_delta b m d in record { buffer = b'; metrics = m'; handed = [] }
step b m (puts_terminal t) =
    let (b', done) = put_terminal b t in record { buffer = b'; metrics = m; handed = [] }
step b m gets =
    let (b', m', got) = get b m in record { buffer = b'; metrics = m'; handed = handed_of got }
step b m abandons = let (b', m') = abandon b m in record { buffer = b'; metrics = m'; handed = [] }

unfoldable pub run : AsyncEventBuffer → Metrics → List Op → Effect
run b m [] = record { buffer = b; metrics = m; handed = [] }
run b m (o ∷ os) =
    let first = step b m o in
    let rest = run first.buffer first.metrics os in
    record { buffer = rest.buffer; metrics = rest.metrics; handed = first.handed ++ rest.handed }

-- The gauge counts the deltas of this buffer and `others`.
abbrev Counts : ℕ → AsyncEventBuffer → Metrics → Type 0
Counts others b m = m.sse_buffered_events ≡ others + length b.deltas

step-Counts :
    (others : ℕ) (b : AsyncEventBuffer) (m : Metrics) (o : Op)
    → Counts others b m
    → Counts others (step b m o).buffer (step b m o).metrics
unfolding step put_delta put_terminal get take_first take_terminal abandon sse_delta_enqueued
    sse_deltas_released
step-Counts others b m (puts_delta d) h = ground (arith, length-append b.deltas (d ∷ []))
step-Counts others b m (puts_terminal t) h = ground arith
step-Counts others b m gets h = ground arith
step-Counts others b m abandons h = ground arith

step-bounded :
    (b : AsyncEventBuffer) (m : Metrics) (o : Op)
    → length b.deltas ≤ b.max_delta_events
    → (length (step b m o).buffer.deltas ≤ b.max_delta_events)
      × ((step b m o).buffer.max_delta_events ≡ b.max_delta_events)
unfolding step put_delta put_terminal get take_first take_terminal abandon
step-bounded b m (puts_delta d) h = ground (arith, length-append b.deltas (d ∷ []))
step-bounded b m (puts_terminal t) h = ground arith
step-bounded b m gets h = ground arith
step-bounded b m abandons h = ground arith

-- The terminal event has been handed out.
record IsClosed (b : AsyncEventBuffer) : Type 0 where
  ended : is_some b.terminal ≡ true
  delivered : b.terminal_delivered ≡ true
  empty : b.deltas ≡ []

step-IsClosed :
    (b : AsyncEventBuffer) (m : Metrics) (o : Op)
    → IsClosed b
    → IsClosed (step b m o).buffer × ((step b m o).handed ≡ [])
unfolding step put_delta put_terminal get take_first take_terminal abandon
step-IsClosed b m (puts_delta d) c = ground arith
step-IsClosed b m (puts_terminal t) c = ground arith
step-IsClosed b m gets c = ground arith
step-IsClosed b m abandons c = ground arith

run-IsClosed :
    (b : AsyncEventBuffer) (m : Metrics) (os : List Op) → IsClosed b → (run b m os).handed ≡ []
unfolding run
run-IsClosed b m [] c = refl
run-IsClosed b m (o ∷ os) c =
    let (closed, nothing) = step-IsClosed b m o c in
    rw nothing (run-IsClosed (step b m o).buffer (step b m o).metrics os closed)

-- What one operation can hand out: nothing, a delta, or the terminal event, which closes.
abbrev Outcome : List GatewayEvent → AsyncEventBuffer → Type 0
Outcome handed b' =
    (handed ≡ [])
    ⊎ ((d : Text) × (handed ≡ text_delta d ∷ []))
    ⊎ ((t : GatewayTerminal) × (handed ≡ terminal_event t ∷ []) × IsClosed b')

terminal-Outcome :
    (b : AsyncEventBuffer) (m : Metrics) (o : Option GatewayTerminal)
    → b.deltas ≡ []
    → b.terminal ≡ o
    → Outcome (handed_of (take_terminal b m o).2) (take_terminal b m o).0
unfolding take_terminal
terminal-Outcome b m none empty h = inl refl
terminal-Outcome b m (some t) empty h = elim (Bool-cases b.terminal_delivered) [
  | inl e ↦ inl (rw e refl)
  | inr e ↦
      rw e (inr (inr (t, refl, record { ended = ap is_some h; delivered = refl; empty = empty })))
]

first-Outcome :
    (b : AsyncEventBuffer) (m : Metrics) (ds : List Text)
    → b.deltas ≡ ds
    → Outcome (handed_of (take_first b m ds).2) (take_first b m ds).0
unfolding take_first
first-Outcome b m [] h = terminal-Outcome b m b.terminal h refl
first-Outcome b m (d ∷ ds) h = inr (inl (d, refl))

step-Outcome :
    (b : AsyncEventBuffer) (m : Metrics) (o : Op) → Outcome (step b m o).handed (step b m o).buffer
unfolding step get
step-Outcome b m (puts_delta d) = inl refl
step-Outcome b m (puts_terminal t) = inl refl
step-Outcome b m gets = first-Outcome b m b.deltas refl
step-Outcome b m abandons = inl refl

run-IsStream :
    (b : AsyncEventBuffer) (m : Metrics) (os : List Op) → IsStream is_end (run b m os).handed
unfolding run
run-IsStream b m [] = tt
run-IsStream b m (o ∷ os) =
    let e = step b m o in
    elim (step-Outcome b m o) [
      | inl h ↦ rw h (run-IsStream e.buffer e.metrics os)
      | inr (inl (d, h)) ↦ rw h (run-IsStream e.buffer e.metrics os)
      | inr (inr (t, h, closed)) ↦ rw h (run-IsClosed e.buffer e.metrics os closed)
    ]

run-Counts :
    (others : ℕ) (b : AsyncEventBuffer) (m : Metrics) (os : List Op)
    → Counts others b m
    → Counts others (run b m os).buffer (run b m os).metrics
unfolding run
run-Counts others b m [] h = h
run-Counts others b m (o ∷ os) h =
    let e = step b m o in run-Counts others e.buffer e.metrics os (step-Counts others b m o h)

run-bounded :
    (b : AsyncEventBuffer) (m : Metrics) (os : List Op)
    → length b.deltas ≤ b.max_delta_events
    → length (run b m os).buffer.deltas ≤ b.max_delta_events
unfolding run
run-bounded b m [] h = h
run-bounded b m (o ∷ os) h =
    let e = step b m o in
    let (bounded, same) = step-bounded b m o h in
    omega (arith, same, run-bounded e.buffer e.metrics os (omega arith))

-- Whatever is done to a new buffer for `n` deltas, from any metrics: what it hands out is deltas
-- followed by at most one terminal event, at most `n` deltas wait in it, and the gauge of buffered
-- events has risen by exactly the number of deltas that wait.
pub buffer_in_order :
    (n : ℕ) (m : Metrics) (os : List Op)
    → let r = run (new_buffer n) m os in
      IsStream is_end r.handed
      × (length r.buffer.deltas ≤ n)
      × (r.metrics.sse_buffered_events ≡ m.sse_buffered_events + length r.buffer.deltas)
buffer_in_order n m os = (
  run-IsStream (new_buffer n) m os,
  run-bounded (new_buffer n) m os (omega arith),
  run-Counts m.sse_buffered_events (new_buffer n) m os (omega arith),
)
