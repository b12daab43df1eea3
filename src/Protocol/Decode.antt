-- ===== src/Protocol/Decode.antt =====
-- `decode_server_message` of clients/python/kim_llm_client/protocol.py: one function for each message
-- type. `loads` stands for UTF-8 decoding and `json.loads`, which are not modelled.
pub mod Sound
use kim_llm_serving.Prelude.{
  ℕ, String, Bool, true, false, ◌&&◌, ◌||◌, not, Option, none, some, List, [], ◌∷◌, leb, is_some,
  str_eq, if◌then◌else◌,
}
use kim_llm_serving.Protocol.{
  is_ok, HelloAck, TokenDelta, Terminal, Stats, ServerMessage, hello_ack, accepted, rejected,
  token_delta, terminal, stats,
}
use kim_llm_serving.Protocol.Json.{Json, Fields, obj, get}
use kim_llm_serving.Protocol.Result.{
  Result, ok, err, ◌>>=◌, ◌>>◌, require, bad_json, value_error, recursion_error, not_an_object,
  before_hello_ack, message_not_allowed, bad_string, rejected_with_ok, ok_without_finish_reason,
  ready_inconsistent, high_watermark_too_low,
}
use kim_llm_serving.Protocol.Require.{
  u64_max, require_exact_fields, item, require_string, require_bool, require_protocol,
  require_epoch,
}
use kim_llm_serving.Protocol.Parts.{
  int_field, status_from_json, manifest_from_json, limits_from_json, usage_from_json,
  request_envelope, tokens_from_json, finish_reason_from_json,
}

abbrev pub hello_ack_fields : List String
hello_ack_fields = "type" ∷ "protocol_version" ∷ "worker_epoch" ∷ "manifest" ∷ "limits" ∷ []

abbrev pub accepted_fields : List String
accepted_fields = "type" ∷ "protocol_version" ∷ "worker_epoch" ∷ "request_id" ∷ []

abbrev pub rejected_fields : List String
rejected_fields = "type" ∷ "protocol_version" ∷ "worker_epoch" ∷ "request_id" ∷ "status" ∷ []

abbrev pub token_delta_fields : List String
token_delta_fields =
    "type" ∷ "protocol_version" ∷ "worker_epoch" ∷ "request_id" ∷ "sequence_no" ∷ "token_ids" ∷ []

abbrev pub terminal_fields : List String
terminal_fields =
    "type" ∷ "protocol_version" ∷ "worker_epoch" ∷ "request_id" ∷ "status" ∷ "finish_reason"
    ∷ "usage" ∷ []

abbrev pub stats_fields : List String
stats_fields =
    "type" ∷ "protocol_version" ∷ "worker_epoch" ∷ "probe_id" ∷ "ready" ∷ "status" ∷ "uptime_ms"
    ∷ "active_requests" ∷ "reserved_input_tokens" ∷ "reserved_output_tokens"
    ∷ "session_egress_frames" ∷ "session_egress_bytes" ∷ "session_egress_high_watermark_frames"
    ∷ "session_egress_high_watermark_bytes" ∷ "rejected_requests" ∷ "backpressure_requests"
    ∷ "cancelled_requests" ∷ []

abbrev same : Bool → Bool → Bool
same true b = b
same false b = not b

-- Neither high watermark is below the current value.
is_high : Stats → Bool
is_high s =
    leb s.session_egress_frames s.session_egress_high_watermark_frames
    && leb s.session_egress_bytes s.session_egress_high_watermark_bytes

-- The end of the case of Stats.
check_stats : Stats → Result ServerMessage
check_stats s = do require (is_high s) high_watermark_too_low; ok (stats s)

-- What UTF-8 decoding and `json.loads` come to: a value; an exception that is caught, or the
-- ProtocolError of a constant such as NaN; or one that is not caught, the ValueError of an int with too
-- many digits, or the RecursionError of a text that is nested too deep.
pub data Loaded (F : Type 0) : Type 0 where
  value : Json F → Loaded F
  invalid too_many_digits too_deep : Loaded F

module _ {F : Type 0} where
  decode_hello_ack : Json F → Option ℕ → Result ServerMessage
  decode_hello_ack v expected = do
    fs ← require_exact_fields v hello_ack_fields "HelloAck"
    version ← item fs "protocol_version"
    require_protocol version
    epoch_value ← item fs "worker_epoch"
    epoch ← require_epoch epoch_value expected
    manifest_value ← item fs "manifest"
    manifest ← manifest_from_json manifest_value
    limits_value ← item fs "limits"
    limits ← limits_from_json limits_value
    ok (hello_ack (record { worker_epoch = epoch; manifest = manifest; limits = limits }))

  decode_accepted : Json F → ℕ → Result ServerMessage
  decode_accepted v epoch = do
    fs ← require_exact_fields v accepted_fields "Accepted"
    id ← request_envelope fs epoch
    ok (accepted id)

  decode_rejected : Json F → ℕ → Result ServerMessage
  decode_rejected v epoch = do
    fs ← require_exact_fields v rejected_fields "Rejected"
    status_value ← item fs "status"
    status ← status_from_json status_value
    require (not (is_ok status)) rejected_with_ok
    id ← request_envelope fs epoch
    ok (rejected id status)

  decode_token_delta : Json F → ℕ → Result ServerMessage
  decode_token_delta v epoch = do
    fs ← require_exact_fields v token_delta_fields "TokenDelta"
    token_values ← item fs "token_ids"
    tokens ← tokens_from_json token_values
    id ← request_envelope fs epoch
    sequence_no ← int_field fs "sequence_no" 0 u64_max
    ok (token_delta (record { request_id = id; sequence_no = sequence_no; token_ids = tokens }))

  decode_terminal : Json F → ℕ → Result ServerMessage
  decode_terminal v epoch = do
    fs ← require_exact_fields v terminal_fields "Terminal"
    status_value ← item fs "status"
    status ← status_from_json status_value
    reason_value ← item fs "finish_reason"
    reason ← finish_reason_from_json reason_value
    require (not (is_ok status) || is_some reason) ok_without_finish_reason
    id ← request_envelope fs epoch
    usage_value ← item fs "usage"
    usage ← usage_from_json usage_value
    ok (
        terminal
          (record { request_id = id; status = status; finish_reason = reason; usage = usage }))

  decode_stats : Json F → ℕ → Result ServerMessage
  decode_stats v epoch = do
    fs ← require_exact_fields v stats_fields "Stats"
    version ← item fs "protocol_version"
    require_protocol version
    epoch_value ← item fs "worker_epoch"
    require_epoch epoch_value (some epoch)
    status_value ← item fs "status"
    status ← status_from_json status_value
    ready_value ← item fs "ready"
    ready ← require_bool ready_value "ready"
    require (same ready (is_ok status)) ready_inconsistent
    probe_id ← int_field fs "probe_id" 1 u64_max
    uptime_ms ← int_field fs "uptime_ms" 0 u64_max
    active_requests ← int_field fs "active_requests" 0 u64_max
    reserved_input_tokens ← int_field fs "reserved_input_tokens" 0 u64_max
    reserved_output_tokens ← int_field fs "reserved_output_tokens" 0 u64_max
    egress_frames ← int_field fs "session_egress_frames" 0 u64_max
    egress_bytes ← int_field fs "session_egress_bytes" 0 u64_max
    high_frames ← int_field fs "session_egress_high_watermark_frames" 0 u64_max
    high_bytes ← int_field fs "session_egress_high_watermark_bytes" 0 u64_max
    rejected_requests ← int_field fs "rejected_requests" 0 u64_max
    backpressure_requests ← int_field fs "backpressure_requests" 0 u64_max
    cancelled_requests ← int_field fs "cancelled_requests" 0 u64_max
    check_stats (record {
      probe_id = probe_id;
      ready = ready;
      status = status;
      uptime_ms = uptime_ms;
      active_requests = active_requests;
      reserved_input_tokens = reserved_input_tokens;
      reserved_output_tokens = reserved_output_tokens;
      session_egress_frames = egress_frames;
      session_egress_bytes = egress_bytes;
      session_egress_high_watermark_frames = high_frames;
      session_egress_high_watermark_bytes = high_bytes;
      rejected_requests = rejected_requests;
      backpressure_requests = backpressure_requests;
      cancelled_requests = cancelled_requests;
    })

  -- The types that need an epoch, in the order of the tests.
  decode_lifecycle : String → Json F → ℕ → Result ServerMessage
  decode_lifecycle message_type v epoch =
      if str_eq message_type "accepted"
      then decode_accepted v epoch
      else if str_eq message_type "rejected"
      then decode_rejected v epoch
      else if str_eq message_type "token_delta"
      then decode_token_delta v epoch
      else if str_eq message_type "terminal"
      then decode_terminal v epoch
      else if str_eq message_type "stats"
      then decode_stats v epoch
      else err (message_not_allowed message_type)

  after_hello : String → Json F → Option ℕ → Result ServerMessage
  after_hello message_type v none = err before_hello_ack
  after_hello message_type v (some epoch) = decode_lifecycle message_type v epoch

  type_of : Option (Json F) → Result String
  type_of none = err (bad_string "message type")
  type_of (some v) = require_string v "message type" true

  pub decode_value : Json F → Option ℕ → Result ServerMessage
  decode_value (obj fs) expected = do
    message_type ← type_of (get fs "type")
    if str_eq message_type "hello_ack"
        then decode_hello_ack (obj fs) expected
        else after_hello message_type (obj fs) expected
  decode_value _ expected = err not_an_object

  parsed : Loaded F → Option ℕ → Result ServerMessage
  parsed (value v) expected = decode_value v expected
  parsed invalid expected = err bad_json
  parsed too_many_digits expected = err value_error
  parsed too_deep expected = err recursion_error

  unfoldable pub decode_server_message :
      (List ℕ → Loaded F) → List ℕ → Option ℕ → Result ServerMessage
  unfolding parsed
  decode_server_message loads payload expected = parsed (loads payload) expected
