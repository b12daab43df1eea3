-- ===== src/Gateway/Http/Chat/Answers.antt =====
-- How a request to POST /v1/chat/completions can end (gateway/python/kim_llm_gateway/api.py).
use kim_llm_serving.Prelude.{ℕ, Bool, ◌≡◌, ◌⊎◌, String, true, false, none, List}
use kim_llm_serving.Prelude.Attempt.{Attempt, raises, gives}
use kim_llm_serving.Protocol.Json.{Json}
use kim_llm_serving.Gateway.Error.{GatewayError}
use kim_llm_serving.Gateway.Floats.{Floats}
use kim_llm_serving.Gateway.Decoder.{Text}
use kim_llm_serving.Gateway.Service.Submit.{SubmitResult, session}
use kim_llm_serving.Gateway.Service.Submit
use kim_llm_serving.Gateway.Openai.{ChatCompletionCommand, gateway_error, overflow_error, key_error}
use kim_llm_serving.Gateway.Openai.Responses.{error_json}
use kim_llm_serving.Gateway.Http.Collect.{Collected, escapes, still_waits}
use kim_llm_serving.Gateway.Http.Chat.{
  Loads, too_deep, Exception, failed, recursion_error, client_disconnect, Answer, response, streams,
  uncaught, waits,
}

module _ {F : Type 0} (fl : Floats F) (show_int : ℕ → String) (loads : List ℕ → Loads F)
    (shown : Text → String) (renders : Json F → Bool) where
  abbrev IsCaught : Bool → Exception → Type 0
  IsCaught connected (failed (gateway_error e)) = Unit
  IsCaught connected (failed (overflow_error i)) = fl.of_int i ≡ none
  IsCaught connected (failed (key_error k)) = ⊥
  IsCaught connected recursion_error = (body : List ℕ) × (loads body ≡ too_deep)
  IsCaught connected client_disconnect = connected ≡ false

  -- The exceptions of the first `try` that are not caught, and when they are raised.
  abbrev pub IsUncaught : Bool → Exception → Type 0
  IsUncaught connected (failed (gateway_error e)) = ⊥
  IsUncaught connected (failed (overflow_error i)) = fl.of_int i ≡ none
  IsUncaught connected (failed (key_error k)) = ⊥
  IsUncaught connected recursion_error = (body : List ℕ) × (loads body ≡ too_deep)
  IsUncaught connected client_disconnect = connected ≡ false

  -- The JSON and the status of a response.
  abbrev pub IsResponse : Attempt Exception (ChatCompletionCommand F) → Json F → ℕ → Type 0
  IsResponse command v n =
      ((n ≡ 200) × ((c : ChatCompletionCommand F) × (command ≡ gives c) × (c.stream ≡ false)))
      ⊎ ((e : GatewayError) × (v ≡ error_json e) × (n ≡ e.http_status))

  -- What each end of the handler tells of the command that was read and of what the awaits came to.
  abbrev pub Explains :
      Bool
      → Attempt Exception (ChatCompletionCommand F)
      → SubmitResult
      → Collected
      → Answer F
      → Type 0
  Explains connected command submitted collected (response v n) = IsResponse command v n
  Explains connected command submitted collected (streams c) =
      (command ≡ gives c) × (c.stream ≡ true) × ((r : ℕ) × (submitted ≡ session r))
  Explains connected command submitted collected uncaught =
      ((x : Exception) × (command ≡ raises x) × IsUncaught connected x)
      ⊎ ((submitted ≡ Submit.raises none)
          ⊎ ((collected ≡ escapes)
              ⊎ ((v : Json F) × (n : ℕ) × IsResponse command v n × (renders v ≡ false))))
  Explains connected command submitted collected waits = collected ≡ still_waits
