-- ===== src/Gateway/Http/Chat.antt =====
-- `chat_completions` of gateway/python/kim_llm_gateway/api.py. What the request's stream, `json.loads`, `submit` and
-- `_collect_non_streaming` come to is an argument, as are the id and the time of the completion.
pub mod Answers
use kim_llm_serving.Prelude.{
  ℕ, ◌≡◌, refl, ap, ◌∙◌, ◌⊎◌, inl, inr, String, Bool, true, false, Option, none, some, List, [],
  ◌∷◌, ◌++◌, ◌+◌, length, ltb, arith, if◌then◌else◌, if_cases, str_append,
}
use kim_llm_serving.Prelude.Int.{ℤ}
use kim_llm_serving.Prelude.Attempt.{Attempt, raises, gives, ◌>>=◌}
use kim_llm_serving.Protocol.{ModelManifest, is_ok}
use kim_llm_serving.Protocol.Json.{Json}
use kim_llm_serving.Gateway.Error.{GatewayError, gateway_error_from_status, or_else}
use kim_llm_serving.Gateway.Floats.{Floats}
use kim_llm_serving.Gateway.Decoder.{Text}
use kim_llm_serving.Gateway.Buffer.{GatewayTerminal}
use kim_llm_serving.Gateway.Service.{server_error}
use kim_llm_serving.Gateway.Service.Submit.{SubmitResult, session}
use kim_llm_serving.Gateway.Service.Submit
use kim_llm_serving.Gateway.Openai.{
  ChatCompletionCommand, Failure, gateway_error, overflow_error, key_error, Parsed,
}
use kim_llm_serving.Gateway.Openai.Parse.{parse_chat_completion_request}
use kim_llm_serving.Gateway.Openai.Sound.{IsRefusal, IsCommand, parse_sound}
use kim_llm_serving.Gateway.Openai.Responses.{error_json, chat_completion_json}
use kim_llm_serving.Gateway.Http.{client_error}
use kim_llm_serving.Gateway.Http.Body.{too_large, read_bounded_body}
use kim_llm_serving.Gateway.Http.Collect.{Collected, returns, raises_error, escapes, still_waits}

-- What `json.loads(body.decode("utf-8"))` does: a value, one of the exceptions that are caught, with
-- its text, or the RecursionError of a text that is nested too deep, which is not.
pub data Loads (F : Type 0) : Type 0 where
  value : Json F → Loads F
  invalid_json : String → Loads F
  too_deep : Loads F

-- What the first `try` may raise: what the parser raises, that RecursionError, or the ClientDisconnect
-- of the framework's `request.stream()`.
pub data Exception : Type 0 where
  failed : Failure → Exception
  recursion_error client_disconnect : Exception

-- How the handler ends: a response with its status, a stream of the session, an exception that it
-- does not catch; or it still waits for the session's events.
pub data Answer (F : Type 0) : Type 0 where
  response : Json F → ℕ → Answer F
  streams : ChatCompletionCommand F → Answer F
  uncaught waits : Answer F

abbrev pub unavailable_error : Option String → GatewayError
unavailable_error none = server_error "Gateway is not initialized" "not_ready"
unavailable_error (some e) = server_error (or_else e "Gateway is not initialized") "not_ready"

abbrev pub as_exception : {V : Type 0} → Parsed V → Attempt Exception V
as_exception (raises f) = raises (failed f)
as_exception (gives v) = gives v

abbrev pub as_failure : {V : Type 0} → Attempt GatewayError V → Attempt Exception V
as_failure (raises e) = raises (failed (gateway_error e))
as_failure (gives v) = gives v

-- The loop of `_read_bounded_body` where `request.stream()` raises after these chunks.
pub broken_body : ℕ → List ℕ → List (List ℕ) → Attempt Exception (List ℕ)
broken_body max_bytes body [] = raises client_disconnect
broken_body max_bytes body (chunk ∷ chunks) =
    let rest = broken_body max_bytes (body ++ chunk) chunks in
    if ltb max_bytes (length body + length chunk)
    then raises (failed (gateway_error too_large))
    else rest

-- `connected` where the stream gives the whole body.
unfoldable pub read_body : (connected : Bool) → ℕ → List (List ℕ) → Attempt Exception (List ℕ)
unfolding broken_body
read_body true max_bytes chunks = as_failure (read_bounded_body max_bytes chunks)
read_body false max_bytes chunks = broken_body max_bytes [] chunks

module _ {F : Type 0} where
  abbrev pub loaded : Loads F → Attempt Exception (Json F)
  loaded (value v) = gives v
  loaded (invalid_json text) = raises (
      failed (
        gateway_error
          (client_error 400 "invalid_json" (str_append "invalid JSON request body: " text))))
  loaded too_deep = raises recursion_error

-- `renders` is whether JSONResponse can encode a value: it raises UnicodeEncodeError for a text with a
-- lone surrogate.
module _ {F : Type 0} (fl : Floats F) (show_int : ℕ → String) (loads : List ℕ → Loads F)
    (shown : Text → String) (renders : Json F → Bool) where
  abbrev pub respond : Json F → ℕ → Answer F
  respond v status = if renders v then response v status else uncaught

  abbrev pub error_response : GatewayError → Answer F
  error_response e = respond (error_json e) e.http_status

  -- An exception of the first `try`.
  abbrev pub refuse : Exception → Answer F
  refuse (failed (gateway_error e)) = error_response e
  refuse (failed (overflow_error i)) = uncaught
  refuse (failed (key_error k)) = uncaught
  refuse recursion_error = uncaught
  refuse client_disconnect = uncaught

  -- Up to the command: `service` is the manifest of the service, `none` without one.
  unfoldable pub read_command :
      (service : Option ModelManifest)
      → (startup_error : Option String) → (max_bytes : ℕ) → (connected : Bool) → List (List ℕ)
      → Attempt Exception (ChatCompletionCommand F)
  unfolding read_body
  read_command none startup_error max_bytes connected chunks =
      raises (failed (gateway_error (unavailable_error startup_error)))
  read_command (some manifest) startup_error max_bytes connected chunks = do
    body ← read_body connected max_bytes chunks
    v ← loaded (loads body)
    as_exception (parse_chat_completion_request fl show_int v manifest)

  unfoldable pub collected_answer : String → ℕ → ChatCompletionCommand F → Collected → Answer F
  collected_answer completion_id created c (returns text t) =
      if is_ok t.status
      then respond (chat_completion_json completion_id created c.model (shown text) t) 200
      else error_response (gateway_error_from_status t.status)
  collected_answer completion_id created c (raises_error e) = error_response e
  collected_answer completion_id created c escapes = uncaught
  collected_answer completion_id created c still_waits = waits

  unfoldable pub submitted_answer :
      String → ℕ → ChatCompletionCommand F → SubmitResult → Collected → Answer F
  unfolding collected_answer
  submitted_answer completion_id created c (session r) collected =
      let rest = collected_answer completion_id created c collected in
      if c.stream then streams c else rest
  submitted_answer completion_id created c (Submit.raises (some e)) collected = error_response e
  submitted_answer completion_id created c (Submit.raises none) collected = uncaught

  command_answer :
      String → ℕ → Attempt Exception (ChatCompletionCommand F) → SubmitResult → Collected → Answer F
  unfolding submitted_answer
  command_answer completion_id created (raises f) submitted collected = refuse f
  command_answer completion_id created (gives c) submitted collected =
      submitted_answer completion_id created c submitted collected

  unfoldable pub chat_completions :
      Option ModelManifest
      → Option String
      → ℕ
      → (connected : Bool) → List (List ℕ)
      → String
      → ℕ
      → SubmitResult
      → Collected
      → Answer F
  unfolding read_command command_answer
  chat_completions service startup_error max_bytes connected chunks completion_id created submitted
        collected =
      command_answer completion_id created
        (read_command service startup_error max_bytes connected chunks) submitted collected
