-- ===== src/Examples/Encode.antt =====
-- Submit messages of clients/python/kim_llm_client/protocol.py for a concrete request.
use kim_llm_serving.Prelude.{ℕ, ◌≡◌, refl, ◌↔◌, ltb, true}
use kim_llm_serving.Protocol.Json.{Json}
use kim_llm_serving.Protocol.Result.{ok}
use kim_llm_serving.Protocol.Require.{u64_max}
use kim_llm_serving.Protocol.Parts.WellFormed.{InRange}
use kim_llm_serving.Protocol.Validate.Sendable.{IsSendable}
use kim_llm_serving.Protocol.Encode.{submit_json, encode_submit}
use kim_llm_serving.Protocol.Encode.Faithful.{encode_submit_iff, submit_encoding_is_faithful}
use kim_llm_serving.Examples.Service.{sent}

abbrev epoch : ℕ
epoch = 7

encode_submit_iff_example :
    ((j : Json ℕ) × (encode_submit (λ x. true) (λ x. ltb 0 x) (λ x. ltb 10 x) sent epoch ≡ ok j))
    ↔ (IsSendable (λ x. true) (λ x. ltb 0 x) (λ x. ltb 10 x) sent × InRange 1 u64_max epoch)
encode_submit_iff_example = encode_submit_iff (λ x. true) (λ x. ltb 0 x) (λ x. ltb 10 x) sent epoch

submit_encoding_is_faithful_example : (sent ≡ sent) × (epoch ≡ epoch)
unfolding encode_submit
submit_encoding_is_faithful_example =
    submit_encoding_is_faithful (λ x. true) (λ x. ltb 0 x) (λ x. ltb 10 x) sent sent epoch epoch
      (submit_json sent epoch) refl refl
