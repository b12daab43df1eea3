-- ===== src/Client/Dispatch.antt =====
-- `_dispatch` of clients/python/kim_llm_client/generation_client.py, as the reader thread runs it:
-- the critical section, which may leave a Terminal to deliver or a cancel to send, and the delivery.
pub mod Overflow
use kim_llm_serving.Prelude.{
  ℕ, ◌+◌, Bool, true, false, ◌||◌, not, Option, none, some, List, [], ◌∷◌, is_some, ◌==◌,
  if◌then◌else◌,
}
use kim_llm_serving.Protocol.{
  Status, HelloAck, TokenDelta, Terminal, Stats, ServerMessage, hello_ack, accepted, rejected,
  token_delta, terminal, stats,
}
use kim_llm_serving.Client.Buffer.{put_delta, put_terminal}
use kim_llm_serving.Client.State.{
  RequestState, Client, ClientError, Outcome, returned, raised, protocol_error, unknown_request,
  find, pop, write, state_of, require_connected_locked,
}

-- The locals `terminal_to_deliver` (the buffer by its request's reference) and `send_cancel`.
pub record Actions : Type 0 where
  pub terminal_to_deliver : Option (ℕ × Terminal)
  pub send_cancel : Option (ℕ × ℕ)

abbrev pub no_actions : Actions
no_actions = record { terminal_to_deliver = none; send_cancel = none }

abbrev update : Client → ℕ → RequestState → Client
update c r st = record c { heap = write c.heap r st }

-- The object of a queue of one place: `put_nowait`, with `queue.Full` passed over.
unfoldable pub put_response : Client → ℕ → Option Stats → Client
put_response c p s = record c {
  responses = λ q.
      if p == q
      then elim (c.responses q) [ none ↦ some s | some old ↦ some old ]
      else c.responses q;
}

unfoldable pub contains_probe : List ℕ → ℕ → Bool
contains_probe [] p = false
contains_probe (q ∷ qs) p = q == p || contains_probe qs p

unfoldable pub dispatch_stats : Client → Stats → Client
dispatch_stats c s =
    if contains_probe c.probes s.probe_id then put_response c s.probe_id (some s) else c

unfoldable pub dispatch_accepted : Client → ℕ → RequestState → Outcome Actions × Client
unfolding write
dispatch_accepted c r st =
    if st.accepted || is_some st.rejected
    then (raised (protocol_error "request received duplicate acceptance"), c)
    else (returned no_actions, update c r (record st { accepted = true }))

unfoldable pub dispatch_rejected : Client → ℕ → ℕ → RequestState → Status → Outcome Actions × Client
unfolding write
dispatch_rejected c id r st status =
    if st.accepted then (raised (protocol_error "Accepted request was later Rejected"), c) else (
      returned no_actions,
      record c {
        heap = write c.heap r (record st { rejected = some status });
        requests = pop c.requests id;
      },
    )

-- The two tests that TokenDelta and Terminal share.
unfoldable pub event_error : RequestState → Option ClientError
event_error st =
    if not st.accepted
    then some (protocol_error "request event arrived before Accepted")
    else if st.terminal_received
    then some (protocol_error "request event arrived after Terminal")
    else none

unfoldable pub store_delta :
    Client → HelloAck → ℕ → RequestState → TokenDelta → Outcome Actions × Client
unfolding write put_delta
store_delta c ack r st d =
    let (buffer, stored) = put_delta st.events d in
    let st' = record st { next_sequence_no = st.next_sequence_no + 1; events = buffer } in
    if stored || st.cancel_sent then (returned no_actions, update c r st') else (
      returned (record no_actions { send_cancel = some (d.request_id, ack.worker_epoch) }),
      update c r (record st' { cancel_sent = true }),
    )

unfoldable pub dispatch_delta :
    Client → HelloAck → ℕ → RequestState → TokenDelta → Outcome Actions × Client
unfolding event_error store_delta
dispatch_delta c ack r st d = elim (event_error st) [
  | some e ↦ (raised e, c)
  | none ↦
      if d.sequence_no == st.next_sequence_no
      then store_delta c ack r st d
      else (raised (protocol_error "TokenDelta sequence is not contiguous"), c)
]

unfoldable pub dispatch_terminal : Client → ℕ → RequestState → Terminal → Outcome Actions × Client
unfolding event_error write
dispatch_terminal c r st t = elim (event_error st) [
  | some e ↦ (raised e, c)
  | none ↦ (
    returned (record no_actions { terminal_to_deliver = some (r, t) }),
    record c {
      heap = write c.heap r (record st { terminal_received = true });
      requests = pop c.requests t.request_id;
    },
  )
]

-- `state = self._requests.get(message.request_id)`, and what each type of message does with it.
unfoldable pub dispatch_for :
    Client → ℕ → (ℕ → RequestState → Outcome Actions × Client) → Outcome Actions × Client
dispatch_for c id handle = elim (state_of c id) [
  | none ↦ (raised (unknown_request id), c)
  | some (r, st) ↦ handle r st
]

unfoldable pub dispatch_message : Client → HelloAck → ServerMessage → Outcome Actions × Client
unfolding dispatch_stats
dispatch_message c ack (stats s) = (returned no_actions, dispatch_stats c s)
dispatch_message c ack (hello_ack a) = (raised (protocol_error "duplicate HelloAck"), c)
dispatch_message c ack (accepted id) = dispatch_for c id (dispatch_accepted c)
dispatch_message c ack (rejected id s) = dispatch_for c id (λ r st. dispatch_rejected c id r st s)
dispatch_message c ack (token_delta d) =
    dispatch_for c d.request_id (λ r st. dispatch_delta c ack r st d)
dispatch_message c ack (terminal t) =
    dispatch_for c t.request_id (λ r st. dispatch_terminal c r st t)

-- The critical section.
unfoldable pub dispatch : Client → ServerMessage → Outcome Actions × Client
dispatch c m = elim (require_connected_locked c) [
  | raised e ↦ (raised e, c)
  | returned ack ↦ dispatch_message c ack m
]

-- `events.put_terminal(terminal)` on a request's buffer, outside the lock.
unfoldable pub deliver : Client → ℕ → Terminal → Outcome (Unit {0}) × Client
unfolding write put_terminal
deliver c r t = elim (c.heap r) [
  | none ↦ (returned tt, c)
  | some st ↦
      let (buffer, stored) = put_terminal st.events t in
      if stored
      then (returned tt, update c r (record st { events = buffer }))
      else (raised (protocol_error "request received duplicate Terminal"), c)
]
