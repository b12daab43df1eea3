-- ===== src/Gateway/Service/Submit.antt =====
-- `GatewayService.submit` of gateway/python/kim_llm_gateway/runtime.py, by its parts between the
-- awaits: begin_submit, readiness_for_submit, prepare, end_submit.
use kim_llm_serving.Prelude.{
  ℕ, suc, ◌+◌, String, Bool, false, ◌&&◌, ◌||◌, not, Option, none, some, List, [], ◌∷◌, length,
  is_empty, ltb, str_eq, str_append, if◌then◌else◌,
}
use kim_llm_serving.Prelude.Int.{pos}
use kim_llm_serving.Protocol.{Status, GenerationRequest}
use kim_llm_serving.Gateway.Error.{GatewayError, gateway_error_from_status}
use kim_llm_serving.Gateway.Metrics.{count_offered, count_accepted}
use kim_llm_serving.Gateway.Ids.{next_id}
use kim_llm_serving.Gateway.Service.{
  GatewayRequest, Service, set_item, server_error, invalid_input, capacity_error, stopping_error,
  reject, Health, Readiness, ready, not_ready, set_unready, begin_readiness, finish_readiness,
}

-- What the tokenizer's `encode_chat` and `encode_text` return or raise.
pub data Encoded : Type 0 where
  token_ids : List ℕ → Encoded
  tokenizer_error : String → Encoded

-- What the client's `submit` returns or raises.
pub data Submitted : Type 0 where
  handle : Submitted
  request_rejected : Status → Submitted
  client_capacity_error worker_unavailable value_error other_error : String → Submitted

-- Where a part of `submit` leaves it: raised, before `check_readiness`, before the tokenizer, or
-- before the client's `submit`.
pub data Progress (F : Type 0) : Type 0 where
  refused : GatewayError → Progress F
  checks_readiness tokenizes : Progress F
  submits : GenerationRequest F → Progress F

abbrev pub model_not_found : (String → String) → String → GatewayError
model_not_found repr model = record {
  message = str_append "model " (str_append (repr model) " is not served by this Gateway");
  http_status = 404;
  error_type = "invalid_request_error";
  code = "model_not_found";
  param = some "model";
}

pub data EncodedStops : Type 0 where
  sequences : List (List ℕ) → EncodedStops
  stop_error : String → EncodedStops

abbrev pub cons_stop : Encoded → EncodedStops → EncodedStops
cons_stop (tokenizer_error message) rest = stop_error message
cons_stop (token_ids ids) (sequences rest) = sequences (ids ∷ rest)
cons_stop (token_ids ids) (stop_error message) = stop_error message

-- any(not sequence for sequence in sequences)
unfoldable pub any_empty : List (List ℕ) → Bool
any_empty [] = false
any_empty (ids ∷ rest) = is_empty ids || any_empty rest

module _ {F : Type 0} where
  abbrev refuse : Service → GatewayError → Service × Progress F
  refuse sv e = (reject sv e, refused e)

  -- `submit` counts what `check_readiness` raises.
  unfoldable pub submit_readiness : Service → Readiness → Service × Progress F
  unfolding reject
  submit_readiness sv (ready s) = (sv, tokenizes)
  submit_readiness sv (not_ready e) = refuse sv e

  unfoldable pub readiness_for_submit : Service → Health → Service × Progress F
  unfolding submit_readiness finish_readiness
  readiness_for_submit sv health =
      let (sv', r) = finish_readiness sv health in submit_readiness sv' r

  -- `check_readiness` raises at once, or waits.
  unfoldable pub awaits_readiness : Service → Option GatewayError → Service × Progress F
  awaits_readiness sv none = (sv, checks_readiness)
  awaits_readiness sv (some e) = refuse sv e

module _ {F M : Type 0} where
  unfoldable pub generation_request :
      Service → GatewayRequest F M → ℕ → List ℕ → List (List ℕ) → GenerationRequest F
  generation_request sv q id ids stops = record {
    request_id = id;
    input_token_ids = ids;
    max_new_tokens = q.max_new_tokens;
    priority = pos 0;
    timeout_ms = some sv.options.timeout_ms;
    trace_id = q.trace_id;
    streaming = q.streaming;
    sampling = record {
      temperature = q.temperature;
      top_k = sv.options.sampling_top_k;
      top_p = q.top_p;
      random_seed = q.random_seed;
    };
    end_id = some sv.manifest.eos_token_id;
    pad_id = some sv.manifest.pad_token_id;
    stop_sequences = stops;
  }

  unfoldable pub check_limits :
      Service → GatewayRequest F M → List ℕ → List (List ℕ) → Service × Progress F
  unfolding reject any_empty generation_request next_id
  check_limits sv q ids stops =
      if any_empty stops
      then refuse sv
          (invalid_input "stop sequence must produce at least one Token ID" (some "stop"))
      else if ltb sv.manifest.max_input_tokens (length ids)
      then refuse sv (invalid_input "tokenized prompt exceeds max_input_tokens" (some "messages"))
      else if ltb sv.manifest.max_output_tokens q.max_new_tokens
      then refuse sv (invalid_input "max_tokens exceeds the model output limit" (some "max_tokens"))
      else if ltb sv.manifest.max_sequence_tokens (length ids + q.max_new_tokens)
      then refuse sv (
          invalid_input "prompt and requested output exceed max_sequence_tokens"
            (some "max_tokens"))
      else let (next, id) = next_id sv.next in
        (record sv { next = next }, submits (generation_request sv q id ids stops))

  unfoldable pub check_encoded :
      Service → GatewayRequest F M → Encoded → EncodedStops → Service × Progress F
  unfolding reject check_limits
  check_encoded sv q (tokenizer_error message) stops =
      refuse sv (invalid_input message (some "messages"))
  check_encoded sv q (token_ids ids) (stop_error message) =
      refuse sv (invalid_input message (some "messages"))
  check_encoded sv q (token_ids ids) (sequences stops) = check_limits sv q ids stops

module _ {F M : Type 0} (repr : String → String) where
  unfoldable pub begin_counted :
      Service → GatewayRequest F M → (connected : Bool) → Service × Progress F
  unfolding reject begin_readiness awaits_readiness
  begin_counted sv q connected =
      if sv.stopping
      then refuse sv stopping_error
      else if not (str_eq q.model sv.manifest.model_id)
      then refuse sv (model_not_found repr q.model)
      else if sv.ready && connected
      then (sv, tokenizes)
      else awaits_readiness sv (begin_readiness sv)

  unfoldable pub begin_submit :
      Service → GatewayRequest F M → (connected : Bool) → Service × Progress F
  unfolding begin_counted
  begin_submit sv q connected =
      begin_counted (record sv { metrics = count_offered sv.metrics }) q connected

-- tuple(encode_text(value) for value in stop): the first that raises ends it.
unfoldable pub encode_stops : (String → Encoded) → List String → EncodedStops
encode_stops encode_text [] = sequences []
encode_stops encode_text (t ∷ ts) = cons_stop (encode_text t) (encode_stops encode_text ts)

module _ {F M : Type 0} (encode_chat : List M → Encoded) (encode_text : String → Encoded) where
  -- From the tokenizer to the client's `submit`.
  unfoldable pub prepare : Service → GatewayRequest F M → Service × Progress F
  unfolding check_encoded encode_stops
  prepare sv q = check_encoded sv q (encode_chat q.messages) (encode_stops encode_text q.stop)

-- Where `submit` leaves: with a session, by reference, or raising (`none`: an exception of the
-- client's that `submit` does not catch).
pub data SubmitResult : Type 0 where
  session : ℕ → SubmitResult
  raises : Option GatewayError → SubmitResult

abbrev refuse_submitted : Service → GatewayError → Service × SubmitResult
refuse_submitted sv e = (reject sv e, raises (some e))

-- The rest of `submit`, once the client has answered for the request `id`.
unfoldable pub end_submit : Service → ℕ → Submitted → Service × SubmitResult
unfolding set_item reject set_unready gateway_error_from_status
end_submit sv id handle = (
  record sv {
    active = set_item sv.active id sv.fresh;
    fresh = suc sv.fresh;
    metrics = count_accepted sv.metrics;
  },
  session sv.fresh,
)
end_submit sv id (request_rejected status) = refuse_submitted sv (gateway_error_from_status status)
end_submit sv id (client_capacity_error message) = refuse_submitted sv (capacity_error message)
end_submit sv id (worker_unavailable message) =
    refuse_submitted (set_unready sv message) (server_error message "unavailable")
end_submit sv id (value_error message) = refuse_submitted sv (invalid_input message none)
end_submit sv id (other_error message) = (sv, raises none)
