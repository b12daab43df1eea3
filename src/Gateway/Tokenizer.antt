-- ===== src/Gateway/Tokenizer.antt =====
-- gateway/python/kim_llm_gateway/tokenizer.py: the adapter of a transformers tokenizer. What the
-- library's calls produce is an argument; `repr` is Python's.
pub mod Fingerprint
pub mod Normalized
use kim_llm_serving.Prelude.{
  ℕ, ◌≡◌, ◌↔◌, eq_iff, arith, String, Bool, true, false, Option, none, some, List, [], ◌∷◌, ◌++◌,
  map, str_eq, str_append, is_empty, if◌then◌else◌, ◌==◌,
}
use kim_llm_serving.Prelude.Int.{ℤ, pos, negsuc}
use kim_llm_serving.Prelude.Attempt.{Attempt, raises, gives, ◌>>=◌, ◌>>◌, unless_raise}
use kim_llm_serving.Protocol.{ModelManifest}
use kim_llm_serving.Gateway.Service.Submit.{Encoded, token_ids, tokenizer_error}

-- A list or tuple, whose entries are ints or not (`none`), or another value.
pub data Value : Type 0 where
  listed : List (Option ℤ) → Value
  other : Value

-- What `apply_chat_template` or `encode` does: it raises, or returns a value or an object whose
-- `tolist()` is this value.
pub data Produced : Type 0 where
  failed : String → Produced
  plain tensor : Value → Produced

-- The ids, unless one is not an int or is negative.
unfoldable pub natural_ids : List (Option ℤ) → Option (List ℕ)
natural_ids [] = some []
natural_ids (some (pos n) ∷ entries) = elim (natural_ids entries) [
  | none ↦ none
  | some ids ↦ some (n ∷ ids)
]
natural_ids (_ ∷ entries) = none

abbrev pub invalid_ids : String → Encoded
invalid_ids description = tokenizer_error (str_append description " produced invalid Token IDs")

some_ids : Option (List ℕ) → String → Encoded
some_ids none description = invalid_ids description
some_ids (some []) description = invalid_ids description
some_ids (some (n ∷ ids)) description = token_ids (n ∷ ids)

unfoldable pub normalize_token_ids : Value → String → Encoded
unfolding natural_ids some_ids
normalize_token_ids (listed entries) description = some_ids (natural_ids entries) description
normalize_token_ids other description = invalid_ids description

abbrev pub normalize_produced : String → String → Produced → Encoded
normalize_produced failure description (failed message) =
    tokenizer_error (str_append failure message)
normalize_produced failure description (plain v) = normalize_token_ids v description
normalize_produced failure description (tensor v) = normalize_token_ids v description

unfoldable pub encode_chat : {M : Type 0} → (List M → Produced) → List M → Encoded
unfolding normalize_token_ids
encode_chat apply_chat_template messages =
    normalize_produced "failed to apply chat template: " "chat template"
      (apply_chat_template messages)

unfoldable pub encode_text : (String → Produced) → String → Encoded
unfolding normalize_token_ids
encode_text encode text =
    normalize_produced "failed to tokenize stop sequence: " "text" (encode text)

pub record HuggingFaceTokenizer : Type 0 where
  pub eos_token_id : ℕ
  pub pad_token_id : ℕ
  pub tokenizer_fingerprint : String
  pub chat_template_fingerprint : String

-- The library's special token: None, an int or another value.
pub data Special : Type 0 where
  no_token other_token : Special
  token : ℤ → Special

unfoldable pub special_id : Special → String → Attempt String ℕ
special_id (token (pos n)) message = gives n
special_id _ message = raises message

-- pad_token_id = eos_token_id if it is None
abbrev pub pad_or_eos : Special → ℕ → Special
pad_or_eos no_token eos = token (pos eos)
pad_or_eos s eos = s

unfoldable pub text_template : Option String → Attempt String String
text_template none = raises "Tokenizer chat_template is missing"
text_template (some t) =
    if str_eq t "" then raises "Tokenizer chat_template is missing" else gives t

-- `__init__`, with the two fingerprint functions; what it raises is a TokenizerError's message.
unfoldable pub new_tokenizer :
    Special
    → Special
    → Option String
    → Attempt String String
    → (String → Attempt String String)
    → Attempt String HuggingFaceTokenizer
unfolding special_id text_template
new_tokenizer eos pad chat_template assets_fingerprint template_fingerprint = do
  eos_token_id ← special_id eos "Tokenizer eos_token_id is missing or invalid"
  pad_token_id ← special_id (pad_or_eos pad eos_token_id) "Tokenizer pad_token_id is invalid"
  template ← text_template chat_template
  tokenizer_fingerprint ← assets_fingerprint
  chat_template_fingerprint ← template_fingerprint template
  gives (record {
    eos_token_id = eos_token_id;
    pad_token_id = pad_token_id;
    tokenizer_fingerprint = tokenizer_fingerprint;
    chat_template_fingerprint = chat_template_fingerprint;
  })

-- f"{name}: expected {expected!r}, got {actual!r}"
abbrev mismatch : String → String → String → String
mismatch name expected actual =
    str_append name (str_append ": expected " (str_append expected (str_append ", got " actual)))

abbrev unless_same : Bool → String → List String → List String
unless_same true message rest = rest
unless_same false message rest = message ∷ rest

module _ (repr_str : String → String) (repr_int : ℕ → String) where
  unfoldable pub mismatches : HuggingFaceTokenizer → ModelManifest → List String
  mismatches t m =
      unless_same (str_eq t.tokenizer_fingerprint m.tokenizer_fingerprint)
        (mismatch "tokenizer_fingerprint" (repr_str m.tokenizer_fingerprint)
          (repr_str t.tokenizer_fingerprint))
        (unless_same (str_eq t.chat_template_fingerprint m.chat_template_fingerprint)
          (mismatch "chat_template_fingerprint" (repr_str m.chat_template_fingerprint)
            (repr_str t.chat_template_fingerprint))
          (unless_same (t.eos_token_id == m.eos_token_id)
            (mismatch "eos_token_id" (repr_int m.eos_token_id) (repr_int t.eos_token_id))
            (unless_same (t.pad_token_id == m.pad_token_id)
              (mismatch "pad_token_id" (repr_int m.pad_token_id) (repr_int t.pad_token_id)) [])))

  -- "; ".join(...)
  unfoldable pub join : List String → String
  join [] = ""
  join (s ∷ []) = s
  join (s ∷ ss) = str_append s (str_append "; " (join ss))

  refuse_mismatches : List String → Attempt String (Unit {0})
  refuse_mismatches [] = gives tt
  refuse_mismatches (s ∷ ss) =
      raises (str_append "Tokenizer/Worker manifest mismatch: " (join (s ∷ ss)))

  unfoldable pub validate_manifest :
      HuggingFaceTokenizer → ModelManifest → Attempt String (Unit {0})
  unfolding mismatches refuse_mismatches
  validate_manifest t m = refuse_mismatches (mismatches t m)

  -- A tokenizer passes exactly when its two fingerprints and its two special tokens are the
  -- manifest's.
  pub matches_manifest_iff :
      (t : HuggingFaceTokenizer) (m : ModelManifest)
      → (validate_manifest t m ≡ gives tt) ↔ (
          (t.tokenizer_fingerprint ≡ m.tokenizer_fingerprint)
          × (t.chat_template_fingerprint ≡ m.chat_template_fingerprint)
          × (t.eos_token_id ≡ m.eos_token_id)
          × (t.pad_token_id ≡ m.pad_token_id))
  unfolding validate_manifest
  matches_manifest_iff t m = ground (
    arith,
    eq_iff t.tokenizer_fingerprint m.tokenizer_fingerprint,
    eq_iff t.chat_template_fingerprint m.chat_template_fingerprint,
  )
