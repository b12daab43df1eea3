-- ===== src/Protocol/Validate.antt =====
-- `_validate_manifest` and `_validate_request` of clients/python/kim_llm_client/protocol.py: what the
-- client checks before it encodes Hello and Submit. `F` is the type of Python's floats, whose tests
-- are parameters.
pub mod Accepts
pub mod Sendable
use kim_llm_serving.Prelude.{
  ℕ, ◌-◌, ◌^◌, String, Bool, true, false, ◌&&◌, not, Option, none, some, List, [], ◌∷◌, leb, str_eq,
  is_empty,
}
use kim_llm_serving.Prelude.Int.{ℤ, pos, negsuc, ltb_ℤ}
use kim_llm_serving.Protocol.{ModelManifest, SamplingParameters, GenerationRequest}
use kim_llm_serving.Protocol.Result.{
  Result, ok, ◌>>=◌, ◌>>◌, require, bad_int, bad_float, empty_manifest_string, empty_input,
  temperature_not_positive, top_p_out_of_range, empty_stop_sequence,
  manifest_limits_exceed_sequence,
}
use kim_llm_serving.Protocol.Require.{u31_max, u32_max, u64_max}
use kim_llm_serving.Protocol.Parts.{fits_sequence}

-- `_require_int` of an int that is at least 0.
unfoldable pub check_int : ℕ → String → ℕ → ℕ → Result (Unit {0})
check_int n description minimum maximum =
    require (leb minimum n && leb n maximum) (bad_int description)

abbrev given : String → Bool
given s = not (str_eq s "")

-- all(...) of the texts.
unfoldable pub has_texts : ModelManifest → Bool
has_texts m =
    given m.model_id
    && (given m.revision
        && (given m.tokenizer_fingerprint
            && (given m.chat_template_fingerprint
                && (given m.engine_fingerprint && given m.precision))))

unfoldable pub validate_manifest : ModelManifest → Result (Unit {0})
unfolding has_texts check_int fits_sequence
validate_manifest m =
    require (has_texts m) empty_manifest_string
    >> check_int m.eos_token_id "manifest token id" 0 u31_max
    >> check_int m.pad_token_id "manifest token id" 0 u31_max
    >> check_int m.max_input_tokens "max_input_tokens" 1 u32_max
    >> check_int m.max_output_tokens "max_output_tokens" 1 u32_max
    >> check_int m.max_sequence_tokens "max_sequence_tokens" 1 u32_max
    >> check_int m.max_batch_size "max_batch_size" 1 u32_max
    >> require (fits_sequence m) manifest_limits_exceed_sequence

-- for token_id in ...: _require_int(token_id, description, maximum=(1 << 31) - 1)
unfoldable pub check_tokens : List ℕ → String → Result (Unit {0})
unfolding check_int
check_tokens [] description = ok tt
check_tokens (t ∷ ts) description = check_int t description 0 u31_max >> check_tokens ts description

unfoldable pub check_optional : Option ℕ → String → ℕ → ℕ → Result (Unit {0})
unfolding check_int
check_optional none description minimum maximum = ok tt
check_optional (some n) description minimum maximum = check_int n description minimum maximum

unfoldable pub check_stops : List (List ℕ) → Result (Unit {0})
unfolding check_tokens
check_stops [] = ok tt
check_stops (s ∷ ss) =
    require (not (is_empty s)) empty_stop_sequence
    >> check_tokens s "stop token id"
    >> check_stops ss

-- -(1 << 31) <= value <= (1 << 31) - 1
unfoldable pub in_int32 : ℤ → Bool
in_int32 n = not (ltb_ℤ n (negsuc u31_max)) && not (ltb_ℤ (pos u31_max) n)

module _ {F : Type 0} (is_finite is_positive above_one : F → Bool) where
  unfoldable pub validate_request : GenerationRequest F → Result (Unit {0})
  unfolding check_int check_tokens check_optional check_stops in_int32
  validate_request q =
      check_int q.request_id "request_id" 1 u64_max
      >> require (not (is_empty q.input_token_ids)) empty_input
      >> check_tokens q.input_token_ids "input_token_id"
      >> check_int q.max_new_tokens "max_new_tokens" 1 u32_max
      >> require (in_int32 q.priority) (bad_int "priority")
      >> check_optional q.timeout_ms "timeout_ms" 1 u64_max
      >> require (is_finite q.sampling.temperature) (bad_float "temperature")
      >> require (is_positive q.sampling.temperature) temperature_not_positive
      >> check_int q.sampling.top_k "top_k" 0 u31_max
      >> require (is_finite q.sampling.top_p) (bad_float "top_p")
      >> require (is_positive q.sampling.top_p && not (above_one q.sampling.top_p))
          top_p_out_of_range
      >> check_int q.sampling.random_seed "random_seed" 0 u64_max
      >> check_optional q.end_id "optional token id" 0 u31_max
      >> check_optional q.pad_id "optional token id" 0 u31_max
      >> check_stops q.stop_sequences
