-- ===== src/Examples/Client.antt =====
-- A run of the client of clients/python/kim_llm_client: connect, submit, accept, end, deliver.
use kim_llm_serving.Prelude.{
  ◌+◌, ℕ, ◌≤◌, ◌≡◌, refl, true, false, none, some, List, [], ◌∷◌, ◌++◌, is_some, length,
}
use kim_llm_serving.Prelude.Int.{pos}
use kim_llm_serving.Stream.{IsStream}
use kim_llm_serving.Protocol.{
  ModelManifest, WorkerLimits, HelloAck, GenerationRequest, TokenDelta, Terminal, accepted,
  terminal, no_usage, manifest_eq, delta, end,
}
use kim_llm_serving.Client.Buffer.{init, put_delta, put_terminal, get}
use kim_llm_serving.Client.Buffer.Stream.{
  Op, puts_delta, puts_terminal, gets, run, step, pending, is_end, run_in_order,
}
use kim_llm_serving.Client.State.{
  ClientConfig, Client, RequestState, returned, new_client, find, pop, write, state_of,
  require_connected_locked,
}
use kim_llm_serving.Client.Dispatch.{
  dispatch, dispatch_message, dispatch_for, dispatch_accepted, dispatch_delta, dispatch_terminal,
  event_error, deliver,
}
use kim_llm_serving.Client.Dispatch.Overflow.{overflow_leaves_gap, full_then_read}
use kim_llm_serving.Client.Requests.{
  register, register_valid, register_connected, validate_request_against_worker, allocate,
  new_request, unregister,
}
use kim_llm_serving.Client.Fail.{install, may_connect, check_handshake}
use kim_llm_serving.Client.System.{
  System, registers, unregisters, dropped, lose, dispatches, delivers, connects, Reach, here, next,
  lost, new_system, after_dispatch, consume,
}
use kim_llm_serving.Client.System.Ownership.{count_ref, count_pending, one_if}
use kim_llm_serving.Client.System.Terminals.{
  count_lost, accepted_ends_once, delivery_never_fails, unaccepted_never_ends,
}

abbrev manifest : ModelManifest
manifest = record {
  model_id = "m";
  revision = "1";
  tokenizer_fingerprint = "t";
  chat_template_fingerprint = "c";
  engine_fingerprint = "e";
  eos_token_id = 2;
  pad_token_id = 2;
  max_input_tokens = 32;
  max_output_tokens = 16;
  max_sequence_tokens = 48;
  precision = "fp16";
  max_batch_size = 1;
}

abbrev limits : WorkerLimits
limits = record {
  max_active_requests = 4;
  max_total_input_tokens = 64;
  max_reserved_output_tokens = 64;
  max_frame_payload_bytes = 64;
  max_session_egress_frames = 8;
  max_session_egress_bytes = 512;
  max_request_egress_frames = 4;
  max_request_egress_bytes = 256;
}

abbrev ack : HelloAck
ack = record { worker_epoch = 7; manifest = manifest; limits = limits }

abbrev config : ClientConfig
config = record {
  expected_manifest = manifest;
  max_frame_payload_bytes = 64;
  max_pending_requests = 2;
  max_delta_events_per_request = 1;
}

abbrev request : ℕ → GenerationRequest ℕ
request id = record {
  request_id = id;
  input_token_ids = 1 ∷ 5 ∷ [];
  max_new_tokens = 4;
  priority = pos 0;
  timeout_ms = none;
  trace_id = "";
  streaming = true;
  sampling = record { temperature = 1; top_k = 1; top_p = 1; random_seed = 0 };
  end_id = none;
  pad_id = none;
  stop_sequences = [];
}

abbrev eos : Terminal
eos = record {
  request_id = 5;
  status = record { code = "ok"; message = "" };
  finish_reason = some "eos";
  usage = no_usage;
}

abbrev start : System
start = new_system config

abbrev connected_system : System
connected_system = record start { client = install start.client 3 ack }

abbrev submitted : System
submitted = record connected_system { client = (register connected_system.client (request 5)).1 }

abbrev accepted_system : System
accepted_system = after_dispatch submitted (dispatch submitted.client (accepted 5))

abbrev ended : System
ended = after_dispatch accepted_system (dispatch accepted_system.client (terminal eos))

abbrev delivered : System
delivered = record { client = (deliver ended.client 0 eos).1; pending = [] }

to_submitted : Reach ℕ start submitted
unfolding new_system new_client may_connect check_handshake manifest_eq
to_submitted = next (next here (connects 3 ack refl refl)) (registers (request 5))

to_ended : Reach ℕ start ended
to_ended = next (next to_submitted (dispatches (accepted 5))) (dispatches (terminal eos))

abbrev final_state : RequestState
final_state = record {
  request_id = 5;
  events = record {
    max_delta_events = 1;
    deltas = [];
    terminal = some eos;
    terminal_delivered = false;
    overflowed = false;
  };
  accepted = true;
  rejected = none;
  failure = none;
  next_sequence_no = 0;
  terminal_received = true;
  cancel_sent = false;
}

abbrev new_state : RequestState
new_state = record {
  request_id = 5;
  events = init 1;
  accepted = false;
  rejected = none;
  failure = none;
  next_sequence_no = 0;
  terminal_received = false;
  cancel_sent = false;
}

to_delivered : Reach ℕ start delivered
unfolding new_system new_client install register register_connected register_valid allocate
    new_request validate_request_against_worker require_connected_locked find pop write state_of
    dispatch dispatch_message dispatch_for dispatch_accepted dispatch_terminal event_error
    after_dispatch
to_delivered = next to_ended (delivers [] [] 0 eos refl)

-- The send of a first request 5 has failed; the pop comes when a second one has been accepted, which
-- then has no Terminal and never gets one.
to_stale : Reach ℕ start (record accepted_system { client = unregister accepted_system.client 5 })
to_stale = next (next to_submitted (dispatches (accepted 5))) (unregisters 5)

stale_pop : lost to_stale ≡ 0 ∷ []
unfolding lost lose dropped new_system new_client install register register_connected register_valid
    allocate new_request validate_request_against_worker require_connected_locked find pop write
    state_of dispatch dispatch_message dispatch_for dispatch_accepted event_error after_dispatch
    to_stale to_submitted
stale_pop = refl

accepted_ends_once_example :
    count_ref delivered.client.requests 0
      + one_if (is_some final_state.events.terminal)
      + count_lost (lost to_delivered) 0
    ≡ 1
unfolding count_lost lost lose count_ref new_system new_client install register register_connected
    register_valid allocate new_request validate_request_against_worker require_connected_locked
    find pop write state_of dispatch dispatch_message dispatch_for dispatch_accepted
    dispatch_terminal event_error after_dispatch deliver init put_terminal
accepted_ends_once_example =
    accepted_ends_once config delivered to_delivered 0 final_state refl refl refl

delivery_never_fails_example : (deliver ended.client 0 eos).0 ≡ returned tt
unfolding new_system new_client install register register_connected register_valid allocate
    new_request validate_request_against_worker require_connected_locked find pop write state_of
    dispatch dispatch_message dispatch_for dispatch_accepted dispatch_terminal event_error
    after_dispatch
delivery_never_fails_example = delivery_never_fails config ended to_ended [] [] 0 eos refl

unaccepted_never_ends_example :
    (is_some new_state.events.terminal ≡ false) × (count_pending submitted.pending 0 ≡ 0)
unfolding new_system new_client install register register_connected register_valid allocate
    new_request validate_request_against_worker require_connected_locked find write init
unaccepted_never_ends_example =
    unaccepted_never_ends config submitted to_submitted 0 new_state refl refl

abbrev tokens : ℕ → TokenDelta
tokens n = record { request_id = 5; sequence_no = n; token_ids = n ∷ [] }

abbrev ops : List Op
ops = puts_delta (tokens 0) ∷ puts_delta (tokens 1) ∷ gets ∷ puts_terminal eos ∷ gets ∷ gets ∷ []

run_in_order_example :
    let r = run (init 1) ops in
    (r.taken ≡ r.handed ++ pending r.buffer)
    × IsStream is_end r.taken
    × IsStream is_end r.handed
    × (length r.buffer.deltas ≤ 1)
run_in_order_example = run_in_order 1 ops

-- The second delta is lost, and the rest arrives.
stream_run : (run (init 1) ops).handed ≡ delta (tokens 0) ∷ end eos ∷ []
unfolding run step init put_delta put_terminal get
stream_run = refl

abbrev one_waiting : RequestState
one_waiting = record new_state {
  accepted = true;
  next_sequence_no = 1;
  events = record {
    max_delta_events = 1;
    deltas = tokens 0 ∷ [];
    terminal = none;
    terminal_delivered = false;
    overflowed = false;
  };
}

abbrev with_one : Client
with_one = record submitted.client { heap = write submitted.client.heap 0 one_waiting }

overflow_leaves_gap_example :
    let lost = consume (dispatch_delta with_one ack 0 one_waiting (tokens 1)).1 0 in
    let st' = full_then_read one_waiting [] in
    (lost.heap 0 ≡ some st')
    × ((dispatch_delta lost ack 0 st' (tokens 2)).1.heap 0
        ≡ some (record st' {
          next_sequence_no = 3;
          events = record st'.events { deltas = tokens 2 ∷ [] };
        }))
overflow_leaves_gap_example =
    overflow_leaves_gap with_one ack 0 one_waiting (tokens 1) (tokens 2) (tokens 0) [] refl refl
      refl refl refl refl refl
