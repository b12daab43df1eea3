-- ===== src/Gateway/Openai.antt =====
-- gateway/python/kim_llm_gateway/openai.py: the request of POST /v1/chat/completions, read from the
-- parsed body. `show_int` is Python's text of an int.
pub mod Parse
pub mod Sound
pub mod Responses
pub mod Sendable
pub mod Overflow
pub mod Complete
use kim_llm_serving.Prelude.{
  ℕ, suc, ◌+◌, ◌-◌, ◌^◌, min, String, Bool, true, false, not, ◌&&◌, ◌||◌, Option, none, some, List,
  [], ◌∷◌, leb, ltb, length, str_eq, str_append, is_empty, if◌then◌else◌, ◌==◌,
}
use kim_llm_serving.Prelude.Int.{ℤ, pos, negsuc}
use kim_llm_serving.Prelude.Attempt.{Attempt, raises, gives, ◌>>=◌, ◌>>◌, unless_raise, each}
use kim_llm_serving.Protocol.{ModelManifest}
use kim_llm_serving.Protocol.Require.{u32_max}
use kim_llm_serving.Protocol.Json.{
  Json, Items, Fields, null, bool, int, float, str, arr, obj, keys, get, contains, all_in, to_list,
}
use kim_llm_serving.Gateway.Error.{GatewayError}
use kim_llm_serving.Gateway.Floats.{Floats}
use kim_llm_serving.Gateway.Service.{GatewayRequest}

pub record Message : Type 0 where
  pub role : String
  pub content : String

pub record ChatCompletionCommand (F : Type 0) : Type 0 where
  pub model : String
  pub messages : List Message
  pub stream : Bool
  pub include_usage : Bool
  pub max_new_tokens : ℕ
  pub temperature : F
  pub top_p : F
  pub random_seed : ℕ
  pub stop : List String

unfoldable pub to_gateway_request :
    {F : Type 0} → ChatCompletionCommand F → String → GatewayRequest F Message
to_gateway_request c trace_id = record {
  model = c.model;
  messages = c.messages;
  max_new_tokens = c.max_new_tokens;
  streaming = c.stream;
  temperature = c.temperature;
  top_p = c.top_p;
  random_seed = c.random_seed;
  stop = c.stop;
  trace_id = trace_id;
}

-- The exceptions that the parser may raise; the last two are not GatewayErrors.
pub data Failure : Type 0 where
  gateway_error : GatewayError → Failure
  overflow_error : ℤ → Failure
  key_error : String → Failure

abbrev pub invalid : String → Option String → Failure
invalid message param = gateway_error (record {
  message = message;
  http_status = 400;
  error_type = "invalid_request_error";
  code = "invalid_request";
  param = param;
})

abbrev pub Parsed {ℓ} : Type ℓ → Type ℓ
Parsed V = Attempt Failure V

abbrev pub supported : List String
supported =
    "model" ∷ "messages" ∷ "stream" ∷ "stream_options" ∷ "max_tokens" ∷ "max_completion_tokens"
    ∷ "temperature" ∷ "top_p" ∷ "seed" ∷ "stop" ∷ "n" ∷ "user" ∷ "frequency_penalty"
    ∷ "presence_penalty" ∷ []

abbrev pub roles : List String
roles = "system" ∷ "user" ∷ "assistant" ∷ []

abbrev pub out_of_range : String → Failure
out_of_range param = invalid (str_append param " is outside the supported range") (some param)

module _ {F : Type 0} where
  unfoldable pub string : Json F → String → Bool → Parsed String
  string (str s) param non_empty =
      if non_empty && str_eq s ""
      then raises (invalid (str_append param " must be a non-empty string") (some param))
      else gives s
  string _ param true =
      raises (invalid (str_append param " must be a non-empty string") (some param))
  string _ param false = raises (invalid (str_append param " must be a string") (some param))

  -- The minimum is at least 0: a value that passes is a number.
  unfoldable pub integer : Json F → String → ℕ → ℕ → Parsed ℕ
  integer (int (pos n)) param minimum maximum =
      if leb minimum n && leb n maximum then gives n else raises (out_of_range param)
  integer _ param minimum maximum = raises (out_of_range param)

  -- value.get(key, default)
  abbrev pub get_or : Fields F → String → Json F → Json F
  get_or fs k default = elim (get fs k) [ none ↦ default | some v ↦ v ]

  -- key in value
  abbrev pub has : Fields F → String → Bool
  has fs k = contains (keys fs) k

  -- value[key]
  item_of : Option (Json F) → String → Parsed (Json F)
  item_of none k = raises (key_error k)
  item_of (some v) k = gives v

  unfoldable pub item : Fields F → String → Parsed (Json F)
  unfolding item_of
  item fs k = item_of (get fs k) k

  -- set(value) == expected
  abbrev pub exactly : Fields F → List String → Bool
  exactly fs expected = all_in expected (keys fs) && all_in (keys fs) expected

module _ {F : Type 0} (fl : Floats F) where
  converted_int : ℤ → Option F → Parsed F
  converted_int i none = raises (overflow_error i)
  converted_int i (some x) = gives x

  -- `float(value)` of an int or a float, or what is raised of another type.
  unfoldable pub to_float : Json F → Failure → Parsed F
  unfolding converted_int
  to_float (int i) other = converted_int i (fl.of_int i)
  to_float (float x) other = gives x
  to_float _ other = raises other

  unfoldable pub number : Json F → String → F → F → Parsed F
  unfolding to_float
  number v param minimum_exclusive maximum = do
    converted ← to_float v (invalid (str_append param " must be numeric") (some param))
    unless_raise
        (fl.is_finite converted
          && (not (fl.le converted minimum_exclusive) && not (fl.gt converted maximum)))
        (out_of_range param)
    gives converted
