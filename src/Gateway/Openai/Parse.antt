-- ===== src/Gateway/Openai/Parse.antt =====
-- `_messages`, `_stop` and `parse_chat_completion_request` of gateway/python/kim_llm_gateway/openai.py.
use kim_llm_serving.Prelude.{
  ℕ, suc, min, String, Bool, true, false, not, ◌&&◌, none, some, List, [], ◌∷◌, leb, length,
  str_append, is_empty, if◌then◌else◌, ◌==◌,
}
use Prim.Native.String.{compare as compare_text}
use Prim.Native.Nat.{Ordering}
use kim_llm_serving.Prelude.Int.{pos}
use kim_llm_serving.Prelude.Attempt.{raises, gives, ◌>>=◌, ◌>>◌, unless_raise, each}
use kim_llm_serving.Protocol.{ModelManifest}
use kim_llm_serving.Protocol.Require.{u32_max}
use kim_llm_serving.Protocol.Json.{
  Json, Items, Fields, null, bool, int, float, str, arr, obj, keys, contains, to_list,
}
use kim_llm_serving.Gateway.Floats.{Floats}
use kim_llm_serving.Gateway.Openai.{
  Message, ChatCompletionCommand, Failure, invalid, Parsed, supported, roles, string, integer,
  get_or, has, item, exactly, to_float, number,
}

-- len(set(values)) == len(values)
unfoldable pub distinct : List String → Bool
distinct [] = true
distinct (t ∷ ts) = not (contains ts t) && distinct ts

-- sorted(...)[0] of `least` and the others.
unfoldable pub smallest : String → List String → String
smallest least [] = least
smallest least (t ∷ ts) = smallest (elim (compare_text t least) [ Ordering.lt ↦ t | _ ↦ least ]) ts

-- set(value) - supported
unfoldable pub unsupported : List String → List String
unsupported [] = []
unsupported (k ∷ ks) = let rest = unsupported ks in if contains supported k then rest else k ∷ rest

unfoldable pub refuse_unsupported : List String → Parsed (Unit {0})
unfolding smallest
refuse_unsupported [] = gives tt
refuse_unsupported (k ∷ ks) =
    let field = smallest k ks in
    raises (invalid (str_append "unsupported request field " field) (some field))

abbrev pub missing : String → Failure
missing k = invalid (str_append "missing required field " k) (some k)

abbrev bad_options : Failure
bad_options =
    invalid "stream_options must contain exactly boolean include_usage" (some "stream_options")

module _ {F : Type 0} where
  unfoldable pub message_fields : Fields F → String → Parsed Message
  message_fields fs param = do
    unless_raise (exactly fs ("role" ∷ "content" ∷ []))
        (invalid (str_append param " must contain exactly role and content") (some param))
    role_value ← item fs "role"
    role ← string role_value (str_append param ".role") true
    unless_raise (contains roles role) (
        invalid (str_append param ".role is unsupported by the fixed chat template")
          (some (str_append param ".role")))
    content_value ← item fs "content"
    content ← string content_value (str_append param ".content") false
    gives (record { role = role; content = content })

  unfoldable pub message : Json F → String → Parsed Message
  unfolding message_fields
  message (obj fs) param = message_fields fs param
  message _ param =
      raises (invalid (str_append param " must contain exactly role and content") (some param))

abbrev pub message_param : (ℕ → String) → ℕ → String
message_param show_int index = str_append "messages[" (str_append (show_int index) "]")

module _ {F : Type 0} (show_int : ℕ → String) where
  -- for index, message in enumerate(value)
  unfoldable pub messages_from : ℕ → List (Json F) → Parsed (List Message)
  unfolding message
  messages_from index [] = gives []
  messages_from index (v ∷ vs) = do
    m ← message v (message_param show_int index)
    ms ← messages_from (suc index) vs
    gives (m ∷ ms)

  unfoldable pub messages : Json F → Parsed (List Message)
  unfolding messages_from
  messages (arr (Items.cons v vs)) = messages_from 0 (v ∷ to_list vs)
  messages _ = raises (invalid "messages must be a non-empty array" (some "messages"))

module _ {F : Type 0} where
  unfoldable pub stop_values : List (Json F) → Parsed (List String)
  unfolding distinct
  stop_values values = do
    unless_raise (not (is_empty values) && leb (length values) 4)
        (invalid "stop must contain between 1 and 4 sequences" (some "stop"))
    result ← each (λ v. string v "stop" true) values
    unless_raise (distinct result) (invalid "stop sequences must be unique" (some "stop"))
    gives result

  unfoldable pub stop_texts : Json F → Parsed (List String)
  unfolding stop_values
  stop_texts null = gives []
  stop_texts (str s) = stop_values (str s ∷ [])
  stop_texts (arr vs) = stop_values (to_list vs)
  stop_texts _ = raises (invalid "stop must be a string or an array of strings" (some "stop"))

  unfoldable pub stream_flag : Json F → Parsed Bool
  stream_flag (bool b) = gives b
  stream_flag _ = raises (invalid "stream must be a boolean" (some "stream"))

  unfoldable pub usage_flag : Json F → Parsed Bool
  usage_flag (bool b) = gives b
  usage_flag _ = raises bad_options

  -- `stream_options` that is not None.
  unfoldable pub given_options : Json F → Parsed Bool
  unfolding usage_flag
  given_options (obj fs) = do
    unless_raise (exactly fs ("include_usage" ∷ [])) bad_options
    v ← item fs "include_usage"
    usage_flag v
  given_options _ = raises bad_options

  unfoldable pub include_usage : Json F → Bool → Parsed Bool
  unfolding given_options
  include_usage null stream = gives false
  include_usage v stream = do
    unless_raise stream (invalid "stream_options requires stream=true" (some "stream_options"))
    given_options v

module _ {F : Type 0} (fl : Floats F) where
  unfoldable pub given_penalty : Fields F → String → Parsed (Unit {0})
  given_penalty fs k = do
    v ← item fs k
    x ← to_float fl v (invalid (str_append k " must be numeric") (some k))
    unless_raise (fl.is_finite x) (invalid (str_append k " must be numeric") (some k))
    unless_raise (fl.eq x fl.zero)
        (invalid (str_append "only " (str_append k "=0 is supported")) (some k))

  unfoldable pub penalty : Fields F → String → Parsed (Unit {0})
  unfolding given_penalty
  penalty fs k = if has fs k then given_penalty fs k else gives tt

  unfoldable pub given_user : Fields F → Parsed (Unit {0})
  given_user fs = do v ← item fs "user"; s ← string v "user" true; gives tt

  unfoldable pub user : Fields F → Parsed (Unit {0})
  unfolding given_user
  user fs = if has fs "user" then given_user fs else gives tt

  unfoldable pub max_value : Fields F → ModelManifest → Json F
  max_value fs manifest =
      get_or fs "max_completion_tokens"
        (get_or fs "max_tokens" (int (pos (min 32 manifest.max_output_tokens))))

  -- From `temperature` on.
  unfoldable pub parse_options :
      Fields F → String → List Message → Bool → ℕ → Parsed (ChatCompletionCommand F)
  unfolding stop_texts penalty user include_usage
  parse_options fs model messages stream max_new_tokens = do
    temperature ← number fl (get_or fs "temperature" (float fl.one)) "temperature" fl.zero fl.two
    top_p ← number fl (get_or fs "top_p" (float fl.one)) "top_p" fl.zero fl.one
    random_seed ← integer (get_or fs "seed" (int (pos 0))) "seed" 0 u32_max
    stop ← stop_texts (get_or fs "stop" null)
    penalty fs "frequency_penalty"
    penalty fs "presence_penalty"
    user fs
    usage ← include_usage (get_or fs "stream_options" null) stream
    gives (record {
      model = model;
      messages = messages;
      stream = stream;
      include_usage = usage;
      max_new_tokens = max_new_tokens;
      temperature = temperature;
      top_p = top_p;
      random_seed = random_seed;
      stop = stop;
    })

  unfoldable pub parse_fields :
      (ℕ → String) → Fields F → ModelManifest → Parsed (ChatCompletionCommand F)
  unfolding unsupported refuse_unsupported messages max_value stream_flag parse_options
  parse_fields show_int fs manifest = do
    refuse_unsupported (unsupported (keys fs))
    unless_raise (has fs "model") (missing "model")
    unless_raise (has fs "messages") (missing "messages")
    model_value ← item fs "model"
    model ← string model_value "model" true
    messages_value ← item fs "messages"
    all_messages ← messages show_int messages_value
    stream ← stream_flag (get_or fs "stream" (bool false))
    n ← integer (get_or fs "n" (int (pos 1))) "n" 1 1
    unless_raise (n == 1) (invalid "only n=1 is supported" (some "n"))
    unless_raise (not (has fs "max_tokens" && has fs "max_completion_tokens"))
        (invalid "max_tokens and max_completion_tokens are mutually exclusive" (some "max_tokens"))
    max_new_tokens ← integer (max_value fs manifest) "max_tokens" 1 manifest.max_output_tokens
    parse_options fs model all_messages stream max_new_tokens

  unfoldable pub parse_chat_completion_request :
      (ℕ → String) → Json F → ModelManifest → Parsed (ChatCompletionCommand F)
  unfolding parse_fields
  parse_chat_completion_request show_int (obj fs) manifest = parse_fields show_int fs manifest
  parse_chat_completion_request show_int _ manifest =
      raises (invalid "request body must be a JSON object" none)
