-- ===== src/Gateway/Openai/Overflow.antt =====
-- The exception of gateway/python/kim_llm_gateway/openai.py that is not a GatewayError: `float` of an
-- int too large for a float.
use kim_llm_serving.Prelude.{ℕ, ◌≤◌, ◌≡◌, String, none, arith}
use kim_llm_serving.Prelude.Int.{ℤ}
use kim_llm_serving.Prelude.Attempt.{raises}
use kim_llm_serving.Protocol.{ModelManifest}
use kim_llm_serving.Protocol.Parts.WellFormed.{IsText}
use kim_llm_serving.Protocol.Json.{
  Json, Items, int, str, arr, obj, field, end, keys, get, contains, all_in, to_list,
}
use kim_llm_serving.Gateway.Floats.{Floats}
use kim_llm_serving.Gateway.Openai.{overflow_error, string, integer, item, to_float, number}
use kim_llm_serving.Gateway.Openai.Parse.{
  unsupported, refuse_unsupported, message_fields, message, messages_from, messages, stream_flag,
  max_value, parse_options, parse_fields, parse_chat_completion_request,
}

-- {"model": model, "messages": [{"role": "user", "content": content}], "temperature": i}
abbrev pub body_with_temperature : {F : Type 0} → String → String → ℤ → Json F
body_with_temperature model content i = obj (
    field "model" (str model) (
      field "messages"
        (arr (
          Items.cons (obj (field "role" (str "user") (field "content" (str content) end)))
            Items.nil))
        (field "temperature" (int i) end)))

module _ {F : Type 0} (fl : Floats F) where
  -- A body that is complete otherwise, with an int that has no float as its temperature, makes the
  -- parser raise OverflowError in place of the GatewayError of a number out of range.
  pub huge_temperature_overflows :
      (show_int : ℕ → String) (model content : String) (i : ℤ) (manifest : ModelManifest)
      → IsText model
      → 1 ≤ manifest.max_output_tokens
      → fl.of_int i ≡ none
      → parse_chat_completion_request fl show_int (body_with_temperature model content i) manifest
        ≡ raises (overflow_error i)
  unfolding parse_chat_completion_request parse_fields unsupported refuse_unsupported message_fields
      message messages_from messages stream_flag max_value parse_options string integer item
      to_float number keys get contains all_in to_list
  huge_temperature_overflows show_int model content i manifest text some_output huge = ground arith
