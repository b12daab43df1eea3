-- ===== src/Examples/Service.antt =====
-- A request's way through `GatewayService`: readiness, tokenizer, client, session.
use kim_llm_serving.Prelude.{
  ℕ, ltb, ◌+◌, ◌≡◌, ◌↔◌, Bool, true, refl, String, true, false, some, List, [], ◌∷◌, length,
}
use kim_llm_serving.Prelude.Int.{pos}
use kim_llm_serving.Protocol.{ModelManifest, WorkerLimits, HelloAck, Stats, GenerationRequest}
use kim_llm_serving.Client.State.{returned}
use kim_llm_serving.Client.Requests.{validate_request_against_worker}
use kim_llm_serving.Gateway.Metrics.{new_metrics}
use kim_llm_serving.Protocol.Result.{ok}
use kim_llm_serving.Protocol.Parts.WellFormed.{IsManifest}
use kim_llm_serving.Protocol.Validate.{validate_manifest, validate_request}
use kim_llm_serving.Protocol.Validate.Sendable.{IsSendable, validate_request_iff}
use kim_llm_serving.Protocol.Validate.Accepts.{validate_manifest_iff}
use kim_llm_serving.Gateway.Metrics.Totals.{total}
use kim_llm_serving.Gateway.Ids.{next_id}
use kim_llm_serving.Gateway.Service.{Service, Options, GatewayRequest, answered, finish_readiness}
use kim_llm_serving.Gateway.Service.Submit.{
  Encoded, token_ids, handle, encode_stops, generation_request, check_limits, check_encoded,
  any_empty, prepare, begin_submit, readiness_for_submit, submit_readiness, end_submit,
}
use kim_llm_serving.Gateway.Service.Prepared.{prepared_passes_client}
use kim_llm_serving.Gateway.Service.Calls.{
  Gateway, new_gateway, goes_on, submitted, ended, Reach, here, next, begins, readies, prepares,
  ends, session_ends,
}
use kim_llm_serving.Gateway.Service.Conserved.{requests_conserved}

abbrev pub manifest : ModelManifest
manifest = record {
  model_id = "m";
  revision = "1";
  tokenizer_fingerprint = "t";
  chat_template_fingerprint = "c";
  engine_fingerprint = "e";
  eos_token_id = 2;
  pad_token_id = 2;
  max_input_tokens = 32;
  max_output_tokens = 16;
  max_sequence_tokens = 48;
  precision = "fp16";
  max_batch_size = 1;
}

abbrev limits : WorkerLimits
limits = record {
  max_active_requests = 4;
  max_total_input_tokens = 64;
  max_reserved_output_tokens = 64;
  max_frame_payload_bytes = 64;
  max_session_egress_frames = 8;
  max_session_egress_bytes = 512;
  max_request_egress_frames = 4;
  max_request_egress_bytes = 256;
}

abbrev ack : HelloAck
ack = record { worker_epoch = 7; manifest = manifest; limits = limits }

abbrev options : Options
options = record { timeout_ms = 1000; max_sse_delta_events_per_request = 4; sampling_top_k = 1 }

-- A message is its tokens; a stop text has one token.
abbrev encode_chat : List ℕ → Encoded
encode_chat ids = token_ids ids

abbrev encode_text : String → Encoded
encode_text t = token_ids (5 ∷ [])

abbrev repr : String → String
repr t = t

abbrev request : GatewayRequest ℕ ℕ
request = record {
  model = "m";
  messages = 1 ∷ 2 ∷ 3 ∷ [];
  max_new_tokens = 4;
  streaming = true;
  temperature = 1;
  top_p = 1;
  random_seed = 0;
  stop = "x" ∷ [];
  trace_id = "";
}

abbrev service : Service
service = record {
  manifest = manifest;
  options = options;
  metrics = new_metrics;
  next = 9;
  active = [];
  fresh = 0;
  stopping = false;
  ready = true;
  last_readiness_error = some "";
}

abbrev pub sent : GenerationRequest ℕ
sent = record {
  request_id = 9;
  input_token_ids = 1 ∷ 2 ∷ 3 ∷ [];
  max_new_tokens = 4;
  priority = pos 0;
  timeout_ms = some 1000;
  trace_id = "";
  streaming = true;
  sampling = record { temperature = 1; top_k = 1; top_p = 1; random_seed = 0 };
  end_id = some 2;
  pad_id = some 2;
  stop_sequences = (5 ∷ []) ∷ [];
}

prepared_passes_client_example : validate_request_against_worker sent ack ≡ returned tt
unfolding prepare encode_stops check_encoded check_limits any_empty generation_request next_id
prepared_passes_client_example =
    prepared_passes_client encode_chat encode_text service request sent ack refl refl

abbrev healthy : Stats
healthy = record {
  probe_id = 1;
  ready = true;
  status = record { code = "ok"; message = "" };
  uptime_ms = 1;
  active_requests = 0;
  reserved_input_tokens = 0;
  reserved_output_tokens = 0;
  session_egress_frames = 0;
  session_egress_bytes = 0;
  session_egress_high_watermark_frames = 0;
  session_egress_high_watermark_bytes = 0;
  rejected_requests = 0;
  backpressure_requests = 0;
  cancelled_requests = 0;
}

abbrev start : Gateway ℕ ℕ
start = new_gateway manifest options 9

abbrev begun : Gateway ℕ ℕ
begun = goes_on start start.waiting request (begin_submit repr start.service request false)

abbrev readied : Gateway ℕ ℕ
readied = goes_on begun [] request (readiness_for_submit begun.service (answered healthy))

abbrev prepared : Gateway ℕ ℕ
prepared = goes_on readied [] request (prepare encode_chat encode_text readied.service request)

abbrev accepted : Gateway ℕ ℕ
accepted = submitted prepared [] (end_submit prepared.service 9 handle)

abbrev finished : Gateway ℕ ℕ
finished = ended accepted 0 9 0 "ok"

run : Reach encode_chat encode_text repr start finished
unfolding new_gateway goes_on begin_submit readiness_for_submit submit_readiness finish_readiness
    prepare encode_stops check_encoded check_limits any_empty generation_request next_id submitted
    end_submit
run =
    next
      (next
        (next
          (next (next here (begins request false)) (readies [] [] request (answered healthy) refl))
          (prepares [] [] request refl))
        (ends [] [] 9 handle refl))
      (session_ends 0 9 0 "ok" refl)

requests_conserved_example :
    let m = finished.service.metrics in
    (m.offered ≡ m.accepted + total m.rejected + length finished.waiting + finished.escaped)
    × (m.accepted ≡ m.active + total m.terminals)
    × (m.active ≡ finished.sessions)
requests_conserved_example =
    requests_conserved encode_chat encode_text repr manifest options 9 finished run

validate_manifest_iff_example : (validate_manifest manifest ≡ ok tt) ↔ IsManifest manifest
validate_manifest_iff_example = validate_manifest_iff manifest

-- Floats stand as numbers of tenths.
abbrev is_finite : ℕ → Bool
is_finite x = true

abbrev is_positive : ℕ → Bool
is_positive x = ltb 0 x

abbrev above_one : ℕ → Bool
above_one x = ltb 10 x

validate_request_iff_example :
    (validate_request is_finite is_positive above_one sent ≡ ok tt)
    ↔ IsSendable is_finite is_positive above_one sent
validate_request_iff_example = validate_request_iff is_finite is_positive above_one sent
