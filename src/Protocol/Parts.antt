-- ===== src/Protocol/Parts.antt =====
-- clients/python/kim_llm_client/protocol.py: the parts of messages, read from parsed JSON.
pub mod WellFormed
use kim_llm_serving.Prelude.{
  ℕ, String, Bool, true, false, ◌&&◌, ◌||◌, not, Option, none, some, List, [], ◌∷◌, leb, ltb,
  str_eq, if◌then◌else◌,
}
use kim_llm_serving.Protocol.{
  Status, is_ok, ModelManifest, WorkerLimits, HelloAck, TokenDelta, Usage, Terminal, Stats,
  ServerMessage, hello_ack, accepted, rejected, token_delta, terminal, stats,
}
use kim_llm_serving.Protocol.Json.{
  Json, Items, Fields, null, bool, int, float, str, arr, obj, get, contains, to_list,
}
use kim_llm_serving.Protocol.Result.{
  Result, ok, err, ◌>>=◌, ◌>>◌, require, bad_json, not_an_object, before_hello_ack,
  unknown_status_code, unknown_finish_reason, message_not_allowed, bad_string,
  manifest_limits_exceed_sequence, limit_hierarchy_inconsistent, rejected_with_ok, empty_token_ids,
  ok_without_finish_reason, ready_inconsistent, high_watermark_too_low,
}
use kim_llm_serving.Protocol.Require.{
  u31_max, u32_max, u64_max, require_exact_fields, item, require_string, require_bool, require_int,
  require_protocol, require_epoch,
}

abbrev pub status_codes : List String
status_codes =
    "ok" ∷ "invalid_input" ∷ "invalid_shape" ∷ "already_exists" ∷ "not_ready" ∷ "resource_exhausted"
    ∷ "slo_predicted_miss" ∷ "unavailable" ∷ "queue_full" ∷ "engine_not_found"
    ∷ "context_unavailable" ∷ "cuda_error" ∷ "tensorrt_error" ∷ "internal_error" ∷ "timeout"
    ∷ "cancelled" ∷ []

abbrev pub finish_reasons : List String
finish_reasons = "eos" ∷ "length" ∷ "stop" ∷ "cancelled" ∷ "timeout" ∷ "backpressure" ∷ []

abbrev pub manifest_fields : List String
manifest_fields =
    "model_id" ∷ "revision" ∷ "tokenizer_fingerprint" ∷ "chat_template_fingerprint"
    ∷ "engine_fingerprint" ∷ "eos_token_id" ∷ "pad_token_id" ∷ "max_input_tokens"
    ∷ "max_output_tokens" ∷ "max_sequence_tokens" ∷ "precision" ∷ "max_batch_size" ∷ []

abbrev pub limits_fields : List String
limits_fields =
    "max_active_requests" ∷ "max_total_input_tokens" ∷ "max_reserved_output_tokens"
    ∷ "max_frame_payload_bytes" ∷ "max_session_egress_frames" ∷ "max_session_egress_bytes"
    ∷ "max_request_egress_frames" ∷ "max_request_egress_bytes" ∷ []

-- `manifest.max_input_tokens > manifest.max_sequence_tokens or …`, negated.
unfoldable pub fits_sequence : ModelManifest → Bool
fits_sequence m =
    leb m.max_input_tokens m.max_sequence_tokens && leb m.max_output_tokens m.max_sequence_tokens

-- `limits.max_request_egress_frames > limits.max_session_egress_frames or …`, negated.
unfoldable pub is_hierarchy : WorkerLimits → Bool
is_hierarchy l =
    leb l.max_request_egress_frames l.max_session_egress_frames
    && (leb l.max_request_egress_bytes l.max_session_egress_bytes
        && leb l.max_frame_payload_bytes l.max_request_egress_bytes)

module _ {F : Type 0} where
  unfoldable pub int_field : Fields F → String → ℕ → ℕ → Result ℕ
  int_field fs k minimum maximum = do v ← item fs k; require_int v k minimum maximum

  unfoldable pub text_field : Fields F → String → Result String
  text_field fs k = do v ← item fs k; require_string v k true

  unfoldable pub status_from_json : Json F → Result Status
  status_from_json v = do
    fs ← require_exact_fields v ("code" ∷ "message" ∷ []) "status"
    code_value ← item fs "code"
    code ← require_string code_value "status.code" true
    require (contains status_codes code) (unknown_status_code code)
    message_value ← item fs "message"
    message ← require_string message_value "status.message" false
    ok (record { code = code; message = message })

  unfoldable pub manifest_from_json : Json F → Result ModelManifest
  manifest_from_json v = do
    fs ← require_exact_fields v manifest_fields "manifest"
    model_id ← text_field fs "model_id"
    revision ← text_field fs "revision"
    tokenizer_fingerprint ← text_field fs "tokenizer_fingerprint"
    chat_template_fingerprint ← text_field fs "chat_template_fingerprint"
    engine_fingerprint ← text_field fs "engine_fingerprint"
    eos_token_id ← int_field fs "eos_token_id" 0 u31_max
    pad_token_id ← int_field fs "pad_token_id" 0 u31_max
    max_input_tokens ← int_field fs "max_input_tokens" 1 u32_max
    max_output_tokens ← int_field fs "max_output_tokens" 1 u32_max
    max_sequence_tokens ← int_field fs "max_sequence_tokens" 1 u32_max
    precision ← text_field fs "precision"
    max_batch_size ← int_field fs "max_batch_size" 1 u32_max
    let manifest : ModelManifest = record {
      model_id = model_id;
      revision = revision;
      tokenizer_fingerprint = tokenizer_fingerprint;
      chat_template_fingerprint = chat_template_fingerprint;
      engine_fingerprint = engine_fingerprint;
      eos_token_id = eos_token_id;
      pad_token_id = pad_token_id;
      max_input_tokens = max_input_tokens;
      max_output_tokens = max_output_tokens;
      max_sequence_tokens = max_sequence_tokens;
      precision = precision;
      max_batch_size = max_batch_size;
    }
    require (fits_sequence manifest) manifest_limits_exceed_sequence
    ok manifest

  unfoldable pub limits_from_json : Json F → Result WorkerLimits
  limits_from_json v = do
    fs ← require_exact_fields v limits_fields "limits"
    max_active_requests ← int_field fs "max_active_requests" 1 u32_max
    max_total_input_tokens ← int_field fs "max_total_input_tokens" 1 u64_max
    max_reserved_output_tokens ← int_field fs "max_reserved_output_tokens" 1 u64_max
    max_frame_payload_bytes ← int_field fs "max_frame_payload_bytes" 1 u32_max
    max_session_egress_frames ← int_field fs "max_session_egress_frames" 1 u32_max
    max_session_egress_bytes ← int_field fs "max_session_egress_bytes" 1 u64_max
    max_request_egress_frames ← int_field fs "max_request_egress_frames" 1 u32_max
    max_request_egress_bytes ← int_field fs "max_request_egress_bytes" 1 u64_max
    let limits : WorkerLimits = record {
      max_active_requests = max_active_requests;
      max_total_input_tokens = max_total_input_tokens;
      max_reserved_output_tokens = max_reserved_output_tokens;
      max_frame_payload_bytes = max_frame_payload_bytes;
      max_session_egress_frames = max_session_egress_frames;
      max_session_egress_bytes = max_session_egress_bytes;
      max_request_egress_frames = max_request_egress_frames;
      max_request_egress_bytes = max_request_egress_bytes;
    }
    require (is_hierarchy limits) limit_hierarchy_inconsistent
    ok limits

  unfoldable pub usage_from_json : Json F → Result Usage
  usage_from_json v = do
    fs ← require_exact_fields v ("prompt_tokens" ∷ "completion_tokens" ∷ []) "usage"
    prompt_tokens ← int_field fs "prompt_tokens" 0 u64_max
    completion_tokens ← int_field fs "completion_tokens" 0 u64_max
    ok (record { prompt_tokens = prompt_tokens; completion_tokens = completion_tokens })

  unfoldable pub request_envelope : Fields F → ℕ → Result ℕ
  request_envelope fs epoch = do
    version ← item fs "protocol_version"
    require_protocol version
    epoch_value ← item fs "worker_epoch"
    require_epoch epoch_value (some epoch)
    int_field fs "request_id" 1 u64_max

  -- tuple(_require_int(token, "token_id", …) for token in token_values)
  unfoldable pub token_ids_from_json : List (Json F) → Result (List ℕ)
  token_ids_from_json [] = ok []
  token_ids_from_json (v ∷ vs) = do
    token ← require_int v "token_id" 0 u31_max
    tokens ← token_ids_from_json vs
    ok (token ∷ tokens)

  -- `not isinstance(token_values, list) or not token_values`, negated.
  unfoldable pub tokens_from_json : Json F → Result (List ℕ)
  tokens_from_json (arr (Items.cons v vs)) = token_ids_from_json (v ∷ to_list vs)
  tokens_from_json _ = err empty_token_ids

  unfoldable pub finish_reason_from_json : Json F → Result (Option String)
  finish_reason_from_json null = ok none
  finish_reason_from_json v = do
    reason ← require_string v "finish_reason" true
    require (contains finish_reasons reason) (unknown_finish_reason reason)
    ok (some reason)
