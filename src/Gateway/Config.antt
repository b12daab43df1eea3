-- ===== src/Gateway/Config.antt =====
-- gateway/python/kim_llm_gateway/config.py: the fields of the two configuration files and their checks.
-- Paths are texts; what pathlib and the files answer are arguments.
pub mod Load
pub mod Checks
pub mod Runtime
pub mod Sound
pub mod Starts
use kim_llm_serving.Prelude.{
  ℕ, ◌-◌, ◌^◌, String, Bool, true, false, not, ◌&&◌, ◌||◌, Option, none, some, List, [], ◌∷◌, ◌++◌,
  leb, ltb, str_eq, str_append, is_empty, if◌then◌else◌,
}
use Prim.Native.String.{compare as compare_text}
use Prim.Native.Nat.{Ordering}
use kim_llm_serving.Prelude.Int.{ℤ, pos, negsuc}
use kim_llm_serving.Prelude.Attempt.{Attempt, raises, gives, ◌>>=◌, ◌>>◌, unless_raise}
use kim_llm_serving.Protocol.{ModelManifest}
use kim_llm_serving.Protocol.Require.{u31_max}
use kim_llm_serving.Protocol.Parts.{fits_sequence}
use kim_llm_serving.Protocol.Json.{
  Json, Fields, null, bool, int, float, str, arr, obj, keys, get, contains,
}
use kim_llm_serving.Gateway.Floats.{Floats}

-- The exceptions of `read_text` and `json.loads` that the code does not catch: UnicodeDecodeError, the
-- ValueError of an int with too many digits, and the RecursionError of a text that is nested too deep.
pub data FileError : Type 0 where
  not_utf8 too_many_digits too_deep : FileError

-- A GatewayConfigError with its message; the others are exceptions that are not one.
pub data ConfigFailure : Type 0 where
  config_error : String → ConfigFailure
  float_overflow : ℤ → ConfigFailure
  no_key : String → ConfigFailure
  escapes : FileError → ConfigFailure

abbrev pub Loading {ℓ} : Type ℓ → Type ℓ
Loading V = Attempt ConfigFailure V

-- required - fields, and fields - required - optional
unfoldable pub without : List String → List String → List String
without [] ks = []
without (j ∷ js) ks = let rest = without js ks in if contains ks j then rest else j ∷ rest

-- sorted(...)
unfoldable pub insert : String → List String → List String
insert j [] = j ∷ []
insert j (k ∷ ks) =
    let rest = insert j ks in elim (compare_text k j) [ Ordering.lt ↦ k ∷ rest | _ ↦ j ∷ k ∷ ks ]

unfoldable pub sorted : List String → List String
unfolding insert
sorted [] = []
sorted (k ∷ ks) = insert k (sorted ks)

-- ", ".join(...)
unfoldable pub comma_joined : List String → String
comma_joined [] = ""
comma_joined (k ∷ []) = k
comma_joined (k ∷ ks) = str_append k (str_append ", " (comma_joined ks))

abbrev pub manifest_keys : List String
manifest_keys =
    "model_id" ∷ "revision" ∷ "tokenizer_fingerprint" ∷ "chat_template_fingerprint"
    ∷ "engine_fingerprint" ∷ "eos_token_id" ∷ "pad_token_id" ∷ "max_input_tokens"
    ∷ "max_output_tokens" ∷ "max_sequence_tokens" ∷ "precision" ∷ "max_batch_size" ∷ []

module _ {F : Type 0} where
  unfoldable pub require_fields : Fields F → List String → List String → String → Loading (Unit {0})
  unfolding without sorted comma_joined
  require_fields fs required optional description = do
    let missing = without required (keys fs)
    let unexpected = without (keys fs) (required ++ optional)
    unless_raise (is_empty missing) (
        config_error (
          str_append description
            (str_append " is missing fields: " (comma_joined (sorted missing)))))
    unless_raise (is_empty unexpected) (
        config_error (
          str_append description
            (str_append " contains unexpected fields: " (comma_joined (sorted unexpected)))))

  found_key : Option (Json F) → String → Loading (Json F)
  found_key none k = raises (no_key k)
  found_key (some v) k = gives v

  -- value[key]
  unfoldable pub key : Fields F → String → Loading (Json F)
  unfolding found_key
  key fs k = found_key (get fs k) k

  unfoldable pub string : Json F → String → Loading String
  string (str s) description =
      if str_eq s ""
      then raises (config_error (str_append description " must be a non-empty string"))
      else gives s
  string _ description =
      raises (config_error (str_append description " must be a non-empty string"))

  -- The minimum is 0 or 1: a value that passes is a number.
  unfoldable pub integer : Json F → String → ℕ → ℕ → Loading ℕ
  integer (int (pos n)) description minimum maximum =
      if leb minimum n && leb n maximum
      then gives n
      else raises (config_error (str_append description " is outside the supported range"))
  integer _ description minimum maximum =
      raises (config_error (str_append description " is outside the supported range"))

  -- string(value[key], description), and the same of an integer
  unfoldable pub text_at : Fields F → String → String → Loading String
  unfolding key string
  text_at fs k description = do v ← key fs k; string v description

  unfoldable pub integer_at : Fields F → String → String → ℕ → Loading ℕ
  unfolding key integer
  integer_at fs k description minimum = do v ← key fs k; integer v description minimum u31_max

  unfoldable pub manifest : Json F → Loading ModelManifest
  unfolding require_fields text_at integer_at fits_sequence
  manifest (obj fs) = do
    require_fields fs manifest_keys [] "worker manifest"
    model_id ← text_at fs "model_id" "manifest.model_id"
    revision ← text_at fs "revision" "manifest.revision"
    tokenizer_fingerprint ← text_at fs "tokenizer_fingerprint" "manifest.tokenizer_fingerprint"
    chat_template_fingerprint ←
        text_at fs "chat_template_fingerprint" "manifest.chat_template_fingerprint"
    engine_fingerprint ← text_at fs "engine_fingerprint" "manifest.engine_fingerprint"
    eos_token_id ← integer_at fs "eos_token_id" "manifest.eos_token_id" 0
    pad_token_id ← integer_at fs "pad_token_id" "manifest.pad_token_id" 0
    max_input_tokens ← integer_at fs "max_input_tokens" "manifest.max_input_tokens" 1
    max_output_tokens ← integer_at fs "max_output_tokens" "manifest.max_output_tokens" 1
    max_sequence_tokens ← integer_at fs "max_sequence_tokens" "manifest.max_sequence_tokens" 1
    precision ← text_at fs "precision" "manifest.precision"
    max_batch_size ← integer_at fs "max_batch_size" "manifest.max_batch_size" 1
    let result : ModelManifest = record {
      model_id = model_id;
      revision = revision;
      tokenizer_fingerprint = tokenizer_fingerprint;
      chat_template_fingerprint = chat_template_fingerprint;
      engine_fingerprint = engine_fingerprint;
      eos_token_id = eos_token_id;
      pad_token_id = pad_token_id;
      max_input_tokens = max_input_tokens;
      max_output_tokens = max_output_tokens;
      max_sequence_tokens = max_sequence_tokens;
      precision = precision;
      max_batch_size = max_batch_size;
    }
    unless_raise
        (not (
          ltb result.max_sequence_tokens result.max_input_tokens
          || ltb result.max_sequence_tokens result.max_output_tokens))
        (config_error "manifest token limits exceed max_sequence_tokens")
    gives result
  manifest _ = raises (config_error "worker manifest must be a JSON object")

module _ {F : Type 0} (fl : Floats F) where
  converted : ℤ → Option F → Loading F
  converted i none = raises (float_overflow i)
  converted i (some x) = gives x

  -- float(value) of an int or a float
  unfoldable pub as_float : Json F → String → Loading F
  unfolding converted
  as_float (int i) description = converted i (fl.of_int i)
  as_float (float x) description = gives x
  as_float _ description = raises (config_error (str_append description " must be numeric"))

  -- The minimum is 0.0, exclusive, at every call.
  unfoldable pub number : Json F → String → Loading F
  unfolding as_float
  number v description = do
    x ← as_float v description
    unless_raise (fl.is_finite x && not (fl.le x fl.zero))
        (config_error (str_append description " must be finite and positive"))
    gives x
