-- ===== src/Gateway/Config/Runtime.antt =====
-- The configurations that `build_gateway_service` of gateway/python/kim_llm_gateway/api.py makes of a
-- loaded one, and the checks that the client and the options make of them.
use kim_llm_serving.Prelude.{
  ℕ, ◌*◌, ◌-◌, ◌^◌, String, Bool, false, not, ◌||◌, List, [], ◌∷◌, leb, ltb, str_eq,
}
use kim_llm_serving.Prelude.Attempt.{Attempt, ◌>>◌, unless_raise}
use kim_llm_serving.Protocol.{ModelManifest}
use kim_llm_serving.Gateway.Floats.{Floats}
use kim_llm_serving.Gateway.Config.Load.{GatewayConfig}

-- `GenerationClientConfig` of clients/python/kim_llm_client/generation_client.py.
pub record GenerationClientConfig (F : Type 0) : Type 0 where
  pub socket_path : String
  pub expected_manifest : ModelManifest
  pub connect_timeout : F
  pub handshake_timeout : F
  pub max_frame_payload_bytes : ℕ
  pub max_pending_requests : ℕ
  pub max_delta_events_per_request : ℕ

-- `GatewayRuntimeOptions` of gateway/python/kim_llm_gateway/runtime.py.
pub record GatewayRuntimeOptions (F : Type 0) : Type 0 where
  pub accept_timeout_seconds : F
  pub request_timeout_seconds : F
  pub health_timeout_seconds : F
  pub cancel_drain_timeout_seconds : F
  pub shutdown_grace_seconds : F
  pub max_sse_delta_events_per_request : ℕ
  pub sampling_top_k : ℕ

-- A ValueError with this message.
abbrev pub Checked : Type 0
Checked = Attempt String (Unit {0})

module _ {F : Type 0} where
  unfoldable pub client_config : GatewayConfig F → GenerationClientConfig F
  client_config c = record {
    socket_path = c.socket_path;
    expected_manifest = c.manifest;
    connect_timeout = c.accept_timeout_seconds;
    handshake_timeout = c.accept_timeout_seconds;
    max_frame_payload_bytes = 1024 * 1024;
    max_pending_requests = c.max_pending_requests;
    max_delta_events_per_request = c.max_client_delta_events_per_request;
  }

  unfoldable pub runtime_options : GatewayConfig F → GatewayRuntimeOptions F
  runtime_options c = record {
    accept_timeout_seconds = c.accept_timeout_seconds;
    request_timeout_seconds = c.request_timeout_seconds;
    health_timeout_seconds = c.health_timeout_seconds;
    cancel_drain_timeout_seconds = c.cancel_drain_timeout_seconds;
    shutdown_grace_seconds = c.shutdown_grace_seconds;
    max_sse_delta_events_per_request = c.max_sse_delta_events_per_request;
    sampling_top_k = c.sampling_top_k;
  }

  -- `_validate_config` of the client.
  unfoldable pub validate_config : Floats F → GenerationClientConfig F → Checked
  validate_config fl c = do
    unless_raise (not (str_eq c.socket_path "")) "socket_path must not be empty"
    unless_raise (not (fl.le c.connect_timeout fl.zero || fl.le c.handshake_timeout fl.zero))
        "connect and handshake timeouts must be positive"
    unless_raise
        (not (
          leb c.max_frame_payload_bytes 0
          || (leb c.max_pending_requests 0 || leb c.max_delta_events_per_request 0)))
        "GenerationClient capacities must be positive"

  -- not math.isfinite(value) or value <= 0, of any of them
  unfoldable pub any_bad : Floats F → List F → Bool
  any_bad fl [] = false
  any_bad fl (x ∷ xs) = (not (fl.is_finite x) || fl.le x fl.zero) || any_bad fl xs

  -- `__post_init__` of the options.
  unfoldable pub post_init : Floats F → GatewayRuntimeOptions F → Checked
  unfolding any_bad
  post_init fl o = do
    unless_raise
        (not (
          any_bad fl (
            o.accept_timeout_seconds ∷ o.request_timeout_seconds ∷ o.health_timeout_seconds
            ∷ o.cancel_drain_timeout_seconds ∷ o.shutdown_grace_seconds ∷ [])))
        "Gateway Runtime timeouts must be finite and positive"
    unless_raise (not (leb o.max_sse_delta_events_per_request 0))
        "Gateway SSE capacity must be positive"
    unless_raise (not (leb o.sampling_top_k 0 || ltb (2 ^ 31 - 1) o.sampling_top_k))
        "Gateway sampling_top_k is outside the supported range"
