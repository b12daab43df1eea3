-- ===== src/Gateway/Service.antt =====
-- `GatewayService` of gateway/python/kim_llm_gateway/runtime.py: its state, its readiness and its
-- sessions. What the client's calls answer are arguments.
pub mod Submit
pub mod Prepared
pub mod Calls
pub mod Conserved
use kim_llm_serving.Prelude.{
  ℕ, suc, ◌+◌, String, Bool, true, false, ◌&&◌, ◌||◌, not, Option, none, some, List, [], ◌∷◌, ◌++◌,
  length, is_empty, is_some, ltb, ◌==◌, str_eq, str_append, if◌then◌else◌,
}
use kim_llm_serving.Prelude.Int.{pos}
use kim_llm_serving.Protocol.{
  Status, ModelManifest, SamplingParameters, GenerationRequest, Stats, is_ok,
}
use kim_llm_serving.Gateway.Error.{GatewayError, gateway_error_from_status, or_else}
use kim_llm_serving.Gateway.Metrics.{
  Metrics, new_metrics, count_offered, count_accepted, count_rejected, count_terminal,
}
use kim_llm_serving.Gateway.Ids.{next_id}

-- The options that the modelled code reads; `timeout_ms` is int(request_timeout_seconds * 1000).
pub record Options : Type 0 where
  pub timeout_ms : ℕ
  pub max_sse_delta_events_per_request : ℕ
  pub sampling_top_k : ℕ

-- `F` is the type of Python's floats, `M` of a chat message.
pub record GatewayRequest (F M : Type 0) : Type 0 where
  pub model : String
  pub messages : List M
  pub max_new_tokens : ℕ
  pub streaming : Bool
  pub temperature : F
  pub top_p : F
  pub random_seed : ℕ
  pub stop : List String
  pub trace_id : String

-- `active` has the sessions by request id, as references; `next` is the allocator's state.
pub record Service : Type 0 where
  pub manifest : ModelManifest
  pub options : Options
  pub metrics : Metrics
  pub next : ℕ
  pub active : List (ℕ × ℕ)
  pub fresh : ℕ
  pub stopping : Bool
  pub ready : Bool
  pub last_readiness_error : Option String

unfoldable pub new_service : ModelManifest → Options → ℕ → Service
new_service manifest options first_id = record {
  manifest = manifest;
  options = options;
  metrics = new_metrics;
  next = first_id;
  active = [];
  fresh = 0;
  stopping = false;
  ready = false;
  last_readiness_error = some "Gateway has not started";
}

-- A dict: d[key] = value, and .pop(key, None).
unfoldable pub set_item : List (ℕ × ℕ) → ℕ → ℕ → List (ℕ × ℕ)
set_item [] id r = (id, r) ∷ []
set_item ((j, q) ∷ d) id r =
    let rest = set_item d id r in if j == id then (j, r) ∷ d else (j, q) ∷ rest

unfoldable pub pop_item : List (ℕ × ℕ) → ℕ → List (ℕ × ℕ)
pop_item [] id = []
pop_item ((j, q) ∷ d) id = let rest = pop_item d id in if j == id then d else (j, q) ∷ rest

unfoldable pub get_item : List (ℕ × ℕ) → ℕ → Option ℕ
get_item [] id = none
get_item ((j, q) ∷ d) id = let rest = get_item d id in if j == id then some q else rest

abbrev pub server_error : String → String → GatewayError
server_error message code = record {
  message = message;
  http_status = 503;
  error_type = "server_error";
  code = code;
  param = none;
}

abbrev pub invalid_input : String → Option String → GatewayError
invalid_input message param = record {
  message = message;
  http_status = 400;
  error_type = "invalid_request_error";
  code = "invalid_input";
  param = param;
}

abbrev pub capacity_error : String → GatewayError
capacity_error message = record {
  message = message;
  http_status = 429;
  error_type = "invalid_request_error";
  code = "queue_full";
  param = none;
}

abbrev pub stopping_error : GatewayError
stopping_error = server_error "Gateway is stopping" "not_ready"

-- self._metrics.rejected(code), then raise.
unfoldable pub reject : Service → GatewayError → Service
reject sv e = record sv { metrics = count_rejected sv.metrics e.code }

-- The client's `connect` and `health` together: the Stats, or the exception of either.
pub data Health : Type 0 where
  answered : Stats → Health
  health_failed : String → Health

pub data Readiness : Type 0 where
  ready : Stats → Readiness
  not_ready : GatewayError → Readiness

unfoldable pub set_unready : Service → String → Service
set_unready sv message = record sv { ready = false; last_readiness_error = some message }

unfoldable pub health_error : Stats → GatewayError
health_error s =
    server_error (or_else s.status.message "Worker is not ready")
      (if is_ok s.status then "not_ready" else s.status.code)

-- `check_readiness` up to its first await: what it raises.
unfoldable pub begin_readiness : Service → Option GatewayError
begin_readiness sv = if sv.stopping then some stopping_error else none

-- The rest of `check_readiness`, once the client has answered; `stop` may have been called since.
unfoldable pub finish_readiness : Service → Health → Service × Readiness
unfolding set_unready health_error
finish_readiness sv (answered s) =
    if not s.ready || not (is_ok s.status)
    then (set_unready sv (health_error s).message, not_ready (health_error s))
    else (record sv { ready = true; last_readiness_error = none }, ready s)
finish_readiness sv (health_failed message) = (
  set_unready sv message,
  not_ready (server_error (str_append "Worker readiness failed: " message) "unavailable"),
)

-- `_session_finished`, of the session `r` of request `id`.
unfoldable pub session_finished : Service → ℕ → ℕ → Service
unfolding get_item pop_item
session_finished sv id r = elim (get_item sv.active id) [
  | none ↦ sv
  | some q ↦ if q == r then record sv { active = pop_item sv.active id } else sv
]

-- `start` and `stop` up to their first awaits.
unfoldable pub start : Service → Service
start sv = record sv { stopping = false }

-- The sessions that `stop` then cancels: none if it has been called before.
unfoldable pub stop : Service → Service × List (ℕ × ℕ)
stop sv =
    if sv.stopping then (sv, []) else (record sv { stopping = true; ready = false }, sv.active)
