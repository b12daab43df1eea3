-- ===== src/Examples/Openai.antt =====
-- Bodies of POST /v1/chat/completions and what becomes of them; the floats are numbers.
use mathlib.Core.Path.{subst}
use kim_llm_serving.Protocol.Require.{u31_max}
use kim_llm_serving.Protocol.Parts.WellFormed.{InRange}
use kim_llm_serving.Prelude.{
  All, ℕ, ◌≡◌, refl, String, true, not, none, some, List, [], ◌∷◌, arith, leb, ltb, ◌==◌,
}
use kim_llm_serving.Prelude.Int.{pos, negsuc}
use kim_llm_serving.Prelude.Attempt.{raises, gives, Ends}
use kim_llm_serving.Protocol.Json.{contains}
use kim_llm_serving.Protocol.Result.{ok}
use kim_llm_serving.Protocol.Validate.{validate_request}
use kim_llm_serving.Gateway.Floats.{Floats}
use kim_llm_serving.Gateway.Ids.{next_id}
use kim_llm_serving.Gateway.Service.{Service, new_service}
use kim_llm_serving.Gateway.Service.Submit.{
  encode_stops, generation_request, check_limits, check_encoded, any_empty, prepare,
}
use kim_llm_serving.Gateway.Tokenizer.{
  Produced, plain, listed, natural_ids, normalize_token_ids, encode_chat, encode_text,
}
use kim_llm_serving.Gateway.Openai.{
  Message, ChatCompletionCommand, overflow_error, to_gateway_request,
}
use kim_llm_serving.Gateway.Openai.Parse.{distinct, parse_chat_completion_request}
use kim_llm_serving.Gateway.Openai.Sound.{IsRefusal, IsCommand, parse_sound}
use kim_llm_serving.Gateway.Openai.Complete.{command_json, command_can_be_asked}
use kim_llm_serving.Gateway.Openai.Overflow.{body_with_temperature, huge_temperature_overflows}
use kim_llm_serving.Gateway.Openai.Sendable.{IsServing, IsVocabulary, parsed_is_sendable}
use kim_llm_serving.Examples.Service.{manifest}

-- A negative number has no float here.
abbrev pub floats : Floats ℕ
floats = record {
  of_int = λ i. elim i [ pos n ↦ some n | negsuc n ↦ none ];
  is_finite = λ x. true;
  le = λ x y. leb x y;
  gt = λ x y. ltb y x;
  eq = λ x y. x == y;
  zero = 0;
  one = 1;
  two = 2;
}

abbrev pub no_digits : ℕ → String
no_digits n = "0"

abbrev pub hello : Message
hello = record { role = "user"; content = "hi" }

abbrev pub command : ChatCompletionCommand ℕ
command = record {
  model = "m";
  messages = hello ∷ [];
  stream = true;
  include_usage = true;
  max_new_tokens = 4;
  temperature = 2;
  top_p = 1;
  random_seed = 7;
  stop = "." ∷ [];
}

command-IsCommand : IsCommand floats manifest command
unfolding contains distinct
command-IsCommand = record {
  model = refl;
  some_messages = refl;
  messages = (refl, tt);
  max_new_tokens = (omega arith, omega arith);
  temperature = (refl, refl, refl);
  top_p = (refl, refl, refl);
  random_seed = (omega arith, omega arith);
  stop = ((refl, tt), omega arith, refl);
  include_usage = λ _. refl;
}

parse_sound_example :
    Ends
      (IsRefusal floats)
      (IsCommand floats manifest)
      (parse_chat_completion_request floats no_digits (command_json command) manifest)
parse_sound_example = parse_sound floats no_digits (command_json command) manifest

command_can_be_asked_example :
    parse_chat_completion_request floats no_digits (command_json command) manifest ≡ gives command
command_can_be_asked_example =
    command_can_be_asked floats no_digits command manifest command-IsCommand

huge_temperature_overflows_example :
    parse_chat_completion_request floats no_digits
      (body_with_temperature "m" "hi" (negsuc 0))
      manifest
    ≡ raises (overflow_error (negsuc 0))
huge_temperature_overflows_example =
    huge_temperature_overflows floats no_digits "m" "hi" (negsuc 0) manifest refl (omega arith) refl

abbrev chat_tokens : List Message → Produced
chat_tokens ms = plain (listed (some (pos 1) ∷ some (pos 5) ∷ []))

abbrev text_tokens : String → Produced
text_tokens t = plain (listed (some (pos 9) ∷ []))

abbrev pub service : Service
service =
    new_service manifest
      (record { timeout_ms = 1000; max_sse_delta_events_per_request = 4; sampling_top_k = 1 }) 5

service-IsServing : IsServing service
unfolding new_service
service-IsServing = record {
  manifest = record {
    model_id = refl;
    revision = refl;
    tokenizer_fingerprint = refl;
    chat_template_fingerprint = refl;
    engine_fingerprint = refl;
    eos_token_id = (omega arith, omega arith);
    pad_token_id = (omega arith, omega arith);
    max_input_tokens = (omega arith, omega arith);
    max_output_tokens = (omega arith, omega arith);
    max_sequence_tokens = (omega arith, omega arith);
    precision = refl;
    max_batch_size = (omega arith, omega arith);
    input_fits = omega arith;
    output_fits = omega arith;
  };
  next = (omega arith, omega arith);
  timeout_ms = (omega arith, omega arith);
  sampling_top_k = (omega arith, omega arith);
}

chat-IsVocabulary : IsVocabulary (encode_chat chat_tokens)
unfolding encode_chat normalize_token_ids natural_ids
chat-IsVocabulary ms ids h =
    let same : 1 ∷ 5 ∷ [] ≡ ids = cc in
    subst (All (InRange 0 u31_max)) same
      ((omega arith, omega arith), ((omega arith, omega arith), tt))

text-IsVocabulary : IsVocabulary (encode_text text_tokens)
unfolding encode_text normalize_token_ids natural_ids
text-IsVocabulary t ids h =
    let same : 9 ∷ [] ≡ ids = cc in
    subst (All (InRange 0 u31_max)) same ((omega arith, omega arith), tt)

parsed_is_sendable_example :
    validate_request
      (λ x. true)
      (λ x. not (leb x 0))
      (λ x. ltb 1 x)
      (generation_request service (to_gateway_request command "t") 5 (1 ∷ 5 ∷ []) ((9 ∷ []) ∷ []))
    ≡ ok tt
unfolding generation_request to_gateway_request prepare encode_stops check_encoded check_limits
    any_empty next_id encode_chat encode_text normalize_token_ids natural_ids new_service
parsed_is_sendable_example =
    parsed_is_sendable floats chat_tokens text_tokens no_digits (command_json command) service
      command "t" _ service-IsServing chat-IsVocabulary text-IsVocabulary
      (command_can_be_asked floats no_digits command manifest command-IsCommand) refl
