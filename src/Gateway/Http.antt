-- ===== src/Gateway/Http.antt =====
-- gateway/python/kim_llm_gateway/api.py: the handlers of the HTTP application. What the web framework
-- and the session answer at each await is an argument.
pub mod Body
pub mod Stream
pub mod Framing
pub mod Collect
pub mod Serving
pub mod Chat
pub mod Readyz
use kim_llm_serving.Prelude.{ℕ, Option, none, String}
use kim_llm_serving.Gateway.Error.{GatewayError}
use kim_llm_serving.Gateway.Buffer.{GatewayEvent}

-- One turn of a loop that awaits `is_disconnected` and then `next_event`: the client is gone, or
-- `next_event` times out, returns an event or raises another exception; `cancelled` is a
-- CancelledError at either await.
pub data Poll : Type 0 where
  disconnected timed_out failed cancelled : Poll
  got : GatewayEvent → Poll

abbrev pub client_error : ℕ → String → String → GatewayError
client_error http_status code message = record {
  message = message;
  http_status = http_status;
  error_type = "invalid_request_error";
  code = code;
  param = none;
}
