-- ===== src/Gateway/Openai/Complete.antt =====
-- That every well-formed command can be asked for: a body for it, which the parser of
-- gateway/python/kim_llm_gateway/openai.py reads back.
use kim_llm_serving.Prelude.{
  ℕ, suc, ◌≡◌, refl, String, Bool, true, false, List, [], ◌∷◌, arith, length, is_empty, str_eq,
  eq_iff, All, Bool-cases, inl, inr,
}
use kim_llm_serving.Prelude.Int.{pos}
use kim_llm_serving.Prelude.Attempt.{gives, each}
use kim_llm_serving.Protocol.{ModelManifest}
use kim_llm_serving.Protocol.Parts.WellFormed.{IsText}
use kim_llm_serving.Protocol.Json.{
  Json, Items, null, bool, int, float, str, arr, obj, field, end, cons, nil, keys, get, contains,
  all_in, to_list,
}
use kim_llm_serving.Gateway.Floats.{Floats}
use kim_llm_serving.Gateway.Openai.{
  Message, ChatCompletionCommand, roles, string, integer, item, to_float, number,
}
use kim_llm_serving.Gateway.Openai.Parse.{
  unsupported, refuse_unsupported, message_fields, message, message_param, messages_from, messages,
  stop_values, stop_texts, stream_flag, usage_flag, given_options, include_usage, penalty, user,
  max_value, parse_options, parse_fields, parse_chat_completion_request,
}
use kim_llm_serving.Gateway.Openai.Sound.{IsBetween, AreStops, IsCommand}

module _ {F : Type 0} where
  abbrev message_json : Message → Json F
  message_json m = obj (field "role" (str m.role) (field "content" (str m.content) end))

  abbrev messages_json : List Message → Items F
  messages_json [] = nil
  messages_json (m ∷ ms) = cons (message_json m) (messages_json ms)

  abbrev texts_json : List String → Items F
  texts_json [] = nil
  texts_json (t ∷ ts) = cons (str t) (texts_json ts)

  abbrev stop_json : List String → Json F
  stop_json [] = null
  stop_json (t ∷ ts) = arr (texts_json (t ∷ ts))

  abbrev options_json : Bool → Json F
  options_json false = null
  options_json true = obj (field "include_usage" (bool true) end)

  -- A body that asks for this command.
  abbrev pub command_json : ChatCompletionCommand F → Json F
  command_json c = obj (
      field "model" (str c.model) (
        field "messages" (arr (messages_json c.messages)) (
          field "stream" (bool c.stream) (
            field "stream_options" (options_json c.include_usage) (
              field "max_tokens" (int (pos c.max_new_tokens)) (
                field "temperature" (float c.temperature) (
                  field "top_p" (float c.top_p) (
                    field "seed" (int (pos c.random_seed))
                      (field "stop" (stop_json c.stop) end)))))))))

module _ (F : Type 0) where
  no_role : contains roles "" ≡ true → ⊥
  unfolding contains
  no_role h = cc

  role_text : (r : String) → contains roles r ≡ true → str_eq r "" ≡ false
  unfolding contains
  role_text r known = elim (Bool-cases (str_eq r "")) [
    | inl e ↦ let same : r ≡ "" = (eq_iff r "").0 e in absurd (no_role (rw same at known))
    | inr e ↦ e
  ]

  message-json :
      (m : Message) (param : String)
      → contains roles m.role ≡ true
      → message (message_json {F = F} m) param ≡ gives m
  unfolding message message_fields string item get keys contains all_in
  message-json m param known = rw (role_text m.role known, known) refl

  messages_from-json :
      (show_int : ℕ → String) (index : ℕ) (ms : List Message)
      → All (λ m. contains roles m.role ≡ true) ms
      → messages_from show_int index (to_list (messages_json {F = F} ms)) ≡ gives ms
  unfolding messages_from to_list
  messages_from-json show_int index [] h = refl
  messages_from-json show_int index (m ∷ ms) h =
      rw
        (
          message-json m (message_param show_int index) h.0,
          messages_from-json show_int (suc index) ms h.1,
        )
        refl

  messages-json :
      (show_int : ℕ → String) (ms : List Message)
      → is_empty ms ≡ false
      → All (λ m. contains roles m.role ≡ true) ms
      → messages show_int (arr (messages_json {F = F} ms)) ≡ gives ms
  unfolding messages to_list
  messages-json show_int [] some_messages h = absurd (cc)
  messages-json show_int (m ∷ ms) some_messages h = messages_from-json show_int 0 (m ∷ ms) h

  texts-json :
      (ts : List String)
      → All IsText ts
      → each (λ v. string v "stop" true) (to_list (texts_json {F = F} ts)) ≡ gives ts
  unfolding string to_list
  texts-json [] h = refl
  texts-json (t ∷ ts) h = rw (h.0, texts-json ts h.1) refl

  texts_json-length : (ts : List String) → length (to_list (texts_json {F = F} ts)) ≡ length ts
  unfolding to_list
  texts_json-length [] = refl
  texts_json-length (t ∷ ts) = omega (arith, texts_json-length ts)

  stop_texts-json :
      (fl : Floats F) (ts : List String)
      → AreStops fl ts
      → stop_texts (stop_json {F = F} ts) ≡ gives ts
  unfolding stop_texts stop_values to_list
  stop_texts-json fl [] h = refl
  stop_texts-json fl (t ∷ ts) h =
      ground (arith, texts_json-length (t ∷ ts), texts-json (t ∷ ts) h.0, h.1)

  include_usage-json :
      (u stream : Bool)
      → (u ≡ true → stream ≡ true)
      → include_usage (options_json {F = F} u) stream ≡ gives u
  unfolding include_usage given_options usage_flag item get keys contains all_in
  include_usage-json false stream h = refl
  include_usage-json true stream h = ground (arith, h refl)

module _ {F : Type 0} (fl : Floats F) where
  number-json :
      (x above most : F) (param : String)
      → IsBetween fl above most x
      → number fl (float x) param above most ≡ gives x
  unfolding number to_float
  number-json x above most param h = rw (h.0, h.1, h.2) refl

  -- The parser gives back every command that is well formed for the manifest from the body that
  -- asks for it.
  pub command_can_be_asked :
      (show_int : ℕ → String) (c : ChatCompletionCommand F) (manifest : ModelManifest)
      → IsCommand fl manifest c
      → parse_chat_completion_request fl show_int (command_json c) manifest ≡ gives c
  unfolding parse_chat_completion_request parse_fields parse_options unsupported refuse_unsupported
      stream_flag max_value string integer item penalty user keys get contains
  command_can_be_asked show_int c manifest w =
      rw
        (
          w.model,
          messages-json F show_int c.messages w.some_messages w.messages,
          number-json c.temperature fl.zero fl.two "temperature" w.temperature,
          number-json c.top_p fl.zero fl.one "top_p" w.top_p,
          stop_texts-json F fl c.stop w.stop,
          include_usage-json F c.include_usage c.stream w.include_usage,
        )
        (ground (arith, w.max_new_tokens, w.random_seed))
