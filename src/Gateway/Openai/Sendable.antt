-- ===== src/Gateway/Openai/Sendable.antt =====
-- From the body of POST /v1/chat/completions to the frame that the client sends: the parser of
-- gateway/python/kim_llm_gateway/openai.py, `GatewayService.submit` of
-- gateway/python/kim_llm_gateway/runtime.py, the adapter of gateway/python/kim_llm_gateway/tokenizer.py
-- and the checks of clients/python/kim_llm_client/protocol.py.
use mathlib.Core.Path.{subst}
use kim_llm_serving.Prelude.{
  ℕ, ◌-◌, ◌^◌, ◌≡◌, sym, ap, String, Bool, false, not, List, [], ◌∷◌, arith, is_empty, All,
}
use kim_llm_serving.Prelude.Attempt.{gives, Ends-gives}
use kim_llm_serving.Protocol.{GenerationRequest}
use kim_llm_serving.Protocol.Result.{ok}
use kim_llm_serving.Protocol.Require.{u31_max, u64_max}
use kim_llm_serving.Protocol.Parts.WellFormed.{InRange, IsManifest}
use kim_llm_serving.Protocol.Json.{Json}
use kim_llm_serving.Protocol.Validate.{validate_request}
use kim_llm_serving.Protocol.Validate.Sendable.{IsStop, IsSendable, validate_request_iff}
use kim_llm_serving.Gateway.Floats.{Floats}
use kim_llm_serving.Gateway.Service.{Service}
use kim_llm_serving.Gateway.Service.Submit.{
  cons_stop, Encoded, token_ids, tokenizer_error, EncodedStops, sequences, stop_error, submits,
  encode_stops, generation_request, prepare,
}
use kim_llm_serving.Gateway.Service.Prepared.{IsPrepared, prepare-IsPrepared}
use kim_llm_serving.Gateway.Tokenizer.{Produced, encode_chat, encode_text}
use kim_llm_serving.Gateway.Tokenizer.Normalized.{encode_chat_given}
use kim_llm_serving.Gateway.Openai.{Message, ChatCompletionCommand, to_gateway_request}
use kim_llm_serving.Gateway.Openai.Parse.{parse_chat_completion_request}
use kim_llm_serving.Gateway.Openai.Sound.{IsCommand, parse_sound}

-- What the service's options and its allocator keep to.
pub record IsServing (sv : Service) : Type 0 where
  pub manifest : IsManifest sv.manifest
  pub next : InRange 1 (2 ^ 63 - 1) sv.next
  pub timeout_ms : InRange 1 u64_max sv.options.timeout_ms
  pub sampling_top_k : InRange 0 u31_max sv.options.sampling_top_k

-- The library's token ids are below 2 ** 31.
abbrev pub IsVocabulary : {A : Type 0} → (A → Encoded) → Type 0
IsVocabulary encode =
    (x : _) (ids : List ℕ) → encode x ≡ token_ids ids → All (InRange 0 u31_max) ids

encode_stops-All :
    (encode : String → Encoded) (ts : List String) (stops : List (List ℕ))
    → IsVocabulary encode
    → encode_stops encode ts ≡ sequences stops
    → All (λ ids. is_empty ids ≡ false) stops
    → All IsStop stops
unfolding encode_stops
encode_stops-All encode [] [] vocabulary h given = tt
encode_stops-All encode [] (ids ∷ stops) vocabulary h given = absurd (cc)
encode_stops-All encode (t ∷ ts) stops vocabulary h given =
    cons-All (encode t) (encode_stops encode ts) stops h given (vocabulary t)
      (λ rest. encode_stops-All encode ts rest vocabulary)
  where
    cons-All :
        (e : Encoded) (es : EncodedStops) (stops : List (List ℕ))
        → cons_stop e es ≡ sequences stops
        → All (λ ids. is_empty ids ≡ false) stops
        → ((ids : List ℕ) → e ≡ token_ids ids → All (InRange 0 u31_max) ids)
        → ((rest : List (List ℕ))
            → es ≡ sequences rest
            → All (λ ids. is_empty ids ≡ false) rest
            → All IsStop rest)
        → All IsStop stops
    cons-All (tokenizer_error m) es stops h given small more = absurd (cc)
    cons-All (token_ids ids) (stop_error m) stops h given small more = absurd (cc)
    cons-All (token_ids ids) (sequences rest) [] h given small more = absurd (cc)
    cons-All (token_ids ids) (sequences rest) (s ∷ ss) h given small more =
        let head : ids ≡ s = cc in
        let tail : rest ≡ ss = cc in
        ((given.0, small s (ap token_ids head)), more ss (ap sequences tail) given.1)

module _ {F : Type 0} (fl : Floats F) (apply_chat_template : List Message → Produced)
    (encode : String → Produced) where
  abbrev is_positive : F → Bool
  is_positive x = not (fl.le x fl.zero)

  abbrev above_one : F → Bool
  above_one x = fl.gt x fl.one

  filled-IsSendable :
      (sv : Service) (c : ChatCompletionCommand F) (trace_id : String) (id : ℕ) (ids : List ℕ)
      (stops : List (List ℕ))
      → IsServing sv
      → IsCommand fl sv.manifest c
      → InRange 1 u64_max id
      → (is_empty ids ≡ false) × All (InRange 0 u31_max) ids
      → All IsStop stops
      → IsSendable fl.is_finite is_positive above_one
          (generation_request sv (to_gateway_request c trace_id) id ids stops)
  unfolding generation_request to_gateway_request
  filled-IsSendable sv c trace_id id ids stops serving w in_range tokens all_stops = record {
    request_id = in_range;
    input = tokens.0;
    tokens = tokens.1;
    max_new_tokens = omega (arith, w.max_new_tokens, serving.manifest.max_output_tokens);
    priority = (omega arith, omega arith);
    timeout_ms = serving.timeout_ms;
    finite_temperature = w.temperature.0;
    temperature = ground (arith, w.temperature);
    top_k = serving.sampling_top_k;
    finite_top_p = w.top_p.0;
    top_p = ground (arith, w.top_p);
    random_seed = omega (arith, w.random_seed);
    end_id = serving.manifest.eos_token_id;
    pad_id = serving.manifest.pad_token_id;
    stops = all_stops;
  }

  command-IsSendable :
      (sv : Service) (c : ChatCompletionCommand F) (trace_id : String) (g : GenerationRequest F)
      → IsServing sv
      → IsVocabulary (encode_chat apply_chat_template)
      → IsVocabulary (encode_text encode)
      → IsCommand fl sv.manifest c
      → IsPrepared sv
          (to_gateway_request c trace_id)
          (encode_chat apply_chat_template c.messages)
          (encode_stops (encode_text encode) c.stop)
          g
      → IsSendable fl.is_finite is_positive above_one g
  command-IsSendable sv c trace_id g serving chat text w p =
      subst (IsSendable fl.is_finite is_positive above_one) (sym p.filled) (
        filled-IsSendable sv c trace_id g.request_id g.input_token_ids g.stop_sequences serving w
          (ground (arith, p.id, serving.next))
          (
            encode_chat_given apply_chat_template c.messages g.input_token_ids p.tokens,
            chat c.messages g.input_token_ids p.tokens,
          )
          (encode_stops-All (encode_text encode) c.stop g.stop_sequences text p.stop_tokens
            p.stops_given))

  -- From a body to the frame: if the parser accepts the body for the service's manifest, and `submit`
  -- goes on from the tokenizer to the client with the command's request, then the client's own check
  -- of that request before it is encoded passes. It takes that the service's manifest, options and
  -- next id are in their ranges, and that the tokenizer's ids are below 2 ** 31.
  pub parsed_is_sendable :
      (show_int : ℕ → String) (body : Json F) (sv : Service) (c : ChatCompletionCommand F)
      (trace_id : String) (g : GenerationRequest F)
      → IsServing sv
      → IsVocabulary (encode_chat apply_chat_template)
      → IsVocabulary (encode_text encode)
      → parse_chat_completion_request fl show_int body sv.manifest ≡ gives c
      → (prepare
          (encode_chat apply_chat_template)
          (encode_text encode)
          sv
          (to_gateway_request c trace_id)).1
        ≡ submits g
      → validate_request fl.is_finite is_positive above_one g ≡ ok tt
  unfolding to_gateway_request
  parsed_is_sendable show_int body sv c trace_id g serving chat text parsed sent =
      let w = Ends-gives (parse_sound fl show_int body sv.manifest) parsed in
      let p =
        prepare-IsPrepared (encode_chat apply_chat_template) (encode_text encode) sv
          (to_gateway_request c trace_id) g sent in
      (validate_request_iff fl.is_finite is_positive above_one g).1
        (command-IsSendable sv c trace_id g serving chat text w p)
