-- ===== src/Gateway/Http/Readyz.antt =====
-- `readyz` and `models` of gateway/python/kim_llm_gateway/api.py.
use kim_llm_serving.Prelude.{ℕ, String, Bool, Option, none, some}
use kim_llm_serving.Prelude.Int.{pos}
use kim_llm_serving.Protocol.{ModelManifest}
use kim_llm_serving.Protocol.Json.{Json, bool, int, str, arr, obj, cons, nil, field, end}
use kim_llm_serving.Gateway.Error.{GatewayError}
use kim_llm_serving.Gateway.Service.{
  Service, Health, Readiness, ready, not_ready, begin_readiness, finish_readiness,
}
use kim_llm_serving.Gateway.Openai.Responses.{error_json}
use kim_llm_serving.Gateway.Http.Chat.{unavailable_error}

-- The response, its status, and the application's service and `startup_error` after it.
pub record Ready (F : Type 0) : Type 0 where
  pub body : Json F
  pub status : ℕ
  pub service : Option Service
  pub startup_error : Option String

module _ {F : Type 0} where
  abbrev not_ready_response : Option Service → GatewayError → Ready F
  not_ready_response service e = record {
    body = obj (field "status" (str "not_ready") (field "reason" (str e.message) end));
    status = 503;
    service = service;
    startup_error = some e.message;
  }

  readiness_response : Service → Bool → Readiness → Ready F
  readiness_response sv connected (not_ready e) = not_ready_response (some sv) e
  readiness_response sv connected (ready s) = record {
    body = obj (
        field "status" (str "ready") (
          field "model" (str sv.manifest.model_id) (
            field "worker_connected" (bool connected)
              (field "active_requests" (int (pos s.active_requests)) end))));
    status = 200;
    service = some sv;
    startup_error = none;
  }

  -- `before` is the service when it is called, none without one, and `after` when the client has
  -- answered `health` to `check_readiness`; `connected` is the client's state after it.
  begun_readyz : Service → Option GatewayError → (after : Service) → Health → Bool → Ready F
  unfolding readiness_response finish_readiness
  begun_readyz before (some e) after health connected = not_ready_response (some before) e
  begun_readyz before none after health connected =
      let (sv', r) = finish_readiness after health in readiness_response sv' connected r

  unfoldable pub readyz :
      (before : Option Service)
      → Option String
      → (after : Service) → Health
      → (connected : Bool) → Ready F
  unfolding begun_readyz begin_readiness
  readyz none startup_error after health connected =
      not_ready_response none (unavailable_error startup_error)
  readyz (some before) startup_error after health connected =
      begun_readyz before (begin_readiness before) after health connected

  unfoldable pub models : Option ModelManifest → Option String → Json F × ℕ
  models none startup_error =
      let e = unavailable_error startup_error in (error_json e, e.http_status)
  models (some m) startup_error = (
    obj (
        field "object" (str "list") (
          field "data"
            (arr (
              cons
                (obj (
                  field "id" (str m.model_id) (
                    field "object" (str "model") (
                      field "created" (int (pos 0))
                        (field "owned_by" (str "kim-llm-serving") end)))))
                nil))
            end)),
    200,
  )
