-- ===== src/Protocol/Encode.antt =====
-- `encode_hello`, `encode_submit`, `encode_cancel` and `encode_health` of
-- clients/python/kim_llm_client/protocol.py, up to the message that they give to `encode_json`.
pub mod Faithful
use kim_llm_serving.Prelude.{ℕ, String, Bool, true, false, Option, none, some, List, [], ◌∷◌}
use kim_llm_serving.Prelude.Int.{ℤ, pos}
use kim_llm_serving.Protocol.{ModelManifest, SamplingParameters, GenerationRequest}
use kim_llm_serving.Protocol.Json.{
  Json, Items, Fields, null, bool, int, float, str, arr, obj, nil, cons, field, end,
}
use kim_llm_serving.Protocol.Result.{Result, ok, ◌>>=◌, ◌>>◌}
use kim_llm_serving.Protocol.Require.{protocol_version, u64_max}
use kim_llm_serving.Protocol.Validate.{check_int, validate_manifest, validate_request}

module _ {F : Type 0} where
  -- list(ids), [list(ids) for ids in sequences], and a value or None
  abbrev pub ids_json : List ℕ → Items F
  ids_json [] = nil
  ids_json (n ∷ ids) = cons (int (pos n)) (ids_json ids)

  abbrev pub sequences_json : List (List ℕ) → Items F
  sequences_json [] = nil
  sequences_json (ids ∷ rest) = cons (arr (ids_json ids)) (sequences_json rest)

  abbrev pub optional_json : Option ℕ → Json F
  optional_json none = null
  optional_json (some n) = int (pos n)

  abbrev message : String → Fields F → Json F
  message type fs =
      obj (field "type" (str type) (field "protocol_version" (int (pos protocol_version)) fs))

  abbrev pub sampling_json : SamplingParameters F → Json F
  sampling_json s = obj (
      field "temperature" (float s.temperature) (
        field "top_k" (int (pos s.top_k))
          (field "top_p" (float s.top_p) (field "random_seed" (int (pos s.random_seed)) end))))

  abbrev pub submit_json : GenerationRequest F → ℕ → Json F
  submit_json q worker_epoch = message "submit" (
      field "worker_epoch" (int (pos worker_epoch)) (
        field "request_id" (int (pos q.request_id)) (
          field "priority" (int q.priority) (
            field "timeout_ms" (optional_json q.timeout_ms) (
              field "trace_id" (str q.trace_id) (
                field "input_token_ids" (arr (ids_json q.input_token_ids)) (
                  field "max_new_tokens" (int (pos q.max_new_tokens)) (
                    field "streaming" (bool q.streaming) (
                      field "sampling" (sampling_json q.sampling) (
                        field "end_id" (optional_json q.end_id) (
                          field "pad_id" (optional_json q.pad_id) (
                            field "stop_sequences" (arr (sequences_json q.stop_sequences))
                              end))))))))))))

  unfoldable pub encode_hello : ModelManifest → Result (Json F)
  unfolding validate_manifest
  encode_hello m = do
    validate_manifest m
    ok (message "hello" (field "model_id" (str m.model_id) (field "revision" (str m.revision) end)))

  unfoldable pub encode_submit :
      (is_finite is_positive above_one : F → Bool) → GenerationRequest F → ℕ → Result (Json F)
  unfolding validate_request check_int
  encode_submit is_finite is_positive above_one q worker_epoch = do
    validate_request is_finite is_positive above_one q
    check_int worker_epoch "worker_epoch" 1 u64_max
    ok (submit_json q worker_epoch)

  unfoldable pub encode_cancel : ℕ → ℕ → Result (Json F)
  unfolding check_int
  encode_cancel request_id worker_epoch = do
    check_int request_id "request_id" 1 u64_max
    check_int worker_epoch "worker_epoch" 1 u64_max
    ok (
        message "cancel" (
          field "worker_epoch" (int (pos worker_epoch))
            (field "request_id" (int (pos request_id)) end)))

  unfoldable pub encode_health : ℕ → ℕ → Result (Json F)
  unfolding check_int
  encode_health probe_id worker_epoch = do
    check_int probe_id "probe_id" 1 u64_max
    check_int worker_epoch "worker_epoch" 1 u64_max
    ok (
        message "health" (
          field "worker_epoch" (int (pos worker_epoch))
            (field "probe_id" (int (pos probe_id)) end)))
