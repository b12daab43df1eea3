-- ===== src/Client/Requests.antt =====
-- The operations that a caller of `GenerationClient` of
-- clients/python/kim_llm_client/generation_client.py starts: the critical sections of `submit`,
-- `cancel` and `health`. Sending a frame, outside the lock, is the caller's next step.
use kim_llm_serving.Prelude.{
  ℕ, suc, ◌+◌, Bool, true, false, ◌||◌, not, Option, none, some, List, [], ◌∷◌, ◌++◌, is_some, ltb,
  leb, length, min, ◌==◌, if◌then◌else◌,
}
use kim_llm_serving.Protocol.{HelloAck, GenerationRequest, Stats}
use kim_llm_serving.Client.Buffer
use kim_llm_serving.Client.State.{
  RequestState, Client, Outcome, returned, raised, already_active, capacity_full, invalid_request,
  request_rejected, worker_unavailable, find, pop, write, state_of, require_connected_locked,
}

-- `len(self._requests)`
abbrev pub count_requests : Client → ℕ
count_requests c = length c.requests

-- `min(max_pending_requests, max_active_requests)`
abbrev pub request_limit : Client → HelloAck → ℕ
request_limit c ack = min c.config.max_pending_requests ack.limits.max_active_requests

module _ {F : Type 0} where
  unfoldable pub validate_request_against_worker :
      GenerationRequest F → HelloAck → Outcome (Unit {0})
  validate_request_against_worker q ack =
      if ltb ack.manifest.max_input_tokens (length q.input_token_ids)
      then raised (invalid_request "request input exceeds Worker max_input_tokens")
      else if ltb ack.manifest.max_output_tokens q.max_new_tokens
      then raised (invalid_request "request output exceeds Worker max_output_tokens")
      else if ltb ack.manifest.max_sequence_tokens (length q.input_token_ids + q.max_new_tokens)
      then raised (invalid_request "request exceeds Worker max_sequence_tokens")
      else returned tt

unfoldable pub new_request : Client → ℕ → RequestState
new_request c id = record {
  request_id = id;
  events = Buffer.init c.config.max_delta_events_per_request;
  accepted = false;
  rejected = none;
  failure = none;
  next_sequence_no = 0;
  terminal_received = false;
  cancel_sent = false;
}

-- self._requests[request_id] = state, of a key that is not there.
unfoldable pub allocate : Client → ℕ → Client
unfolding write new_request
allocate c id = record c {
  heap = write c.heap c.fresh (new_request c id);
  fresh = suc c.fresh;
  requests = c.requests ++ (id, c.fresh) ∷ [];
}

module _ {F : Type 0} where
  unfoldable pub register_valid : Client → HelloAck → GenerationRequest F → Outcome ℕ × Client
  register_valid c ack q =
      if is_some (find c.requests q.request_id)
      then (raised (already_active q.request_id), c)
      else if leb (request_limit c ack) (count_requests c)
      then (raised capacity_full, c)
      else (returned c.fresh, allocate c q.request_id)

  unfoldable pub register_connected :
      Client → GenerationRequest F → Outcome HelloAck → Outcome ℕ × Client
  register_connected c q (raised e) = (raised e, c)
  register_connected c q (returned ack) = elim (validate_request_against_worker q ack) [
    | raised e ↦ (raised e, c)
    | returned _ ↦ register_valid c ack q
  ]

  -- The first critical section of `submit`: the request's new object, by reference.
  unfoldable pub register : Client → GenerationRequest F → Outcome ℕ × Client
  register c q = register_connected c q (require_connected_locked c)

-- `submit` after a failed send: self._requests.pop(request.request_id, None).
unfoldable pub unregister : Client → ℕ → Client
unregister c id = record c { requests = pop c.requests id }

-- What `submit` finds each time it wakes: `none` while it has to wait on. At its deadline it calls
-- `_fail` instead, and raises WorkerUnavailableError.
unfoldable pub acceptance : RequestState → Option (Outcome (Unit {0}))
acceptance st = if st.accepted then some (returned tt) else elim st.rejected [
  | some status ↦ some (raised (request_rejected st.request_id status))
  | none ↦ elim st.failure [
    | some status ↦ some (raised (worker_unavailable status.message))
    | none ↦ none
  ]
]

-- What `cancel` does after its critical section.
pub data Cancelling : Type 0 where
  answer : Bool → Cancelling
  send : ℕ → ℕ → Cancelling

unfoldable pub cancel_known :
    Client → ℕ → HelloAck → Option (ℕ × RequestState) → Outcome Cancelling × Client
cancel_known c id ack none = (returned (answer false), c)
cancel_known c id ack (some (r, st)) =
    if not st.accepted || st.terminal_received
    then (returned (answer false), c)
    else if st.cancel_sent
    then (returned (answer true), c)
    else (
      returned (send id ack.worker_epoch),
      record c { heap = write c.heap r (record st { cancel_sent = true }) },
    )

unfoldable pub cancel_connected : Client → ℕ → Outcome HelloAck → Outcome Cancelling × Client
cancel_connected c id (raised e) = (raised e, c)
cancel_connected c id (returned ack) = cancel_known c id ack (state_of c id)

unfoldable pub cancel : Client → ℕ → Outcome Cancelling × Client
cancel c id = cancel_connected c id (require_connected_locked c)

unfoldable pub begin_probe : Client → Outcome HelloAck → Outcome (ℕ × ℕ) × Client
begin_probe c (raised e) = (raised e, c)
begin_probe c (returned ack) = (
  returned (c.next_probe_id, ack.worker_epoch),
  record c {
    next_probe_id = c.next_probe_id + 1;
    probes = c.next_probe_id ∷ c.probes;
    responses = λ p. if p == c.next_probe_id then none else c.responses p;
  },
)

-- The first critical section of `health`: the probe's id and the epoch to send.
unfoldable pub start_probe : Client → Outcome (ℕ × ℕ) × Client
start_probe c = begin_probe c (require_connected_locked c)

remove_probe : List ℕ → ℕ → List ℕ
remove_probe [] p = []
remove_probe (q ∷ qs) p = let rest = remove_probe qs p in if q == p then rest else q ∷ rest

-- The `finally` of `health`: self._probes.pop(probe_id, None).
unfoldable pub end_probe : Client → ℕ → Client
unfolding remove_probe
end_probe c p = record c { probes = remove_probe c.probes p }

-- What `health` makes of what it got from the queue (`none` where it raised TimeoutError).
unfoldable pub probe_result : Option (Option Stats) → Option (Outcome Stats)
probe_result none = none
probe_result (some none) =
    some (raised (worker_unavailable "Worker disconnected during health probe"))
probe_result (some (some s)) = some (returned s)
