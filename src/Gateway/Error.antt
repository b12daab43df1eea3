-- ===== src/Gateway/Error.antt =====
-- `GatewayError` and `gateway_error_from_status` of gateway/python/kim_llm_gateway/runtime.py.
use kim_llm_serving.Prelude.{
  ℕ, String, Bool, ◌||◌, Option, none, List, [], ◌∷◌, ◌==◌, str_eq, str_append, if◌then◌else◌,
}
use kim_llm_serving.Protocol.{Status}

pub record GatewayError : Type 0 where
  pub message : String
  pub http_status : ℕ
  pub error_type : String
  pub code : String
  pub param : Option String

-- The dict of `gateway_error_from_status`.
abbrev pub http_statuses : List (String × ℕ)
http_statuses =
    ("invalid_input", 400)
    ∷ ("invalid_shape", 400)
    ∷ ("already_exists", 409)
    ∷ ("not_ready", 503)
    ∷ ("resource_exhausted", 429)
    ∷ ("slo_predicted_miss", 429)
    ∷ ("queue_full", 429)
    ∷ ("unavailable", 503)
    ∷ ("engine_not_found", 503)
    ∷ ("context_unavailable", 503)
    ∷ ("timeout", 504)
    ∷ ("cancelled", 499)
    ∷ []

-- .get(code, default)
unfoldable pub lookup : List (String × ℕ) → String → ℕ → ℕ
lookup [] code default = default
lookup ((c, n) ∷ rest) code default = if str_eq c code then n else lookup rest code default

-- http_status in {400, 409, 429}
abbrev pub is_request_error : ℕ → Bool
is_request_error n = n == 400 || (n == 409 || n == 429)

-- value or default
abbrev pub or_else : String → String → String
or_else value default = if str_eq value "" then default else value

unfoldable pub gateway_error_from_status : Status → GatewayError
gateway_error_from_status s =
    let n = lookup http_statuses s.code 500 in
    record {
      message = or_else s.message (str_append "generation failed with status " s.code);
      http_status = n;
      error_type = if is_request_error n then "invalid_request_error" else "server_error";
      code = s.code;
      param = none;
    }
