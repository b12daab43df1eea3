-- ===== src/Gateway/Openai/Sound.antt =====
-- What `parse_chat_completion_request` of gateway/python/kim_llm_gateway/openai.py returns and raises.
use kim_llm_serving.Prelude.{
  ℕ, suc, ◌≤◌, ◌≡◌, refl, String, Bool, true, false, not, ◌&&◌, none, some, List, [], ◌∷◌, arith,
  leb, length, str_eq, str_append, is_empty, ◌==◌, All, Option-cases, inl, inr,
}
use kim_llm_serving.Prelude.Int.{pos}
use kim_llm_serving.Prelude.Attempt.{
  ◌>>◌, unless_raise, each, Ends, given, raised, Ends-then, Ends-unless, Ends-if, Ends-weaken,
}
use kim_llm_serving.Protocol.{ModelManifest}
use kim_llm_serving.Protocol.Require.{u32_max}
use kim_llm_serving.Protocol.Parts.WellFormed.{IsText, InRange}
use kim_llm_serving.Protocol.Json.{
  Json, Items, Fields, null, bool, int, float, str, arr, obj, keys, contains, to_list,
  get_of_contains, contains_of_all_in,
}
use kim_llm_serving.Gateway.Floats.{Floats}
use kim_llm_serving.Gateway.Openai.{
  Message, ChatCompletionCommand, Failure, invalid, roles, string, integer, get_or, has, item,
  exactly, out_of_range, to_float, number, gateway_error, overflow_error, key_error,
}
use kim_llm_serving.Gateway.Openai.Parse.{
  distinct, unsupported, refuse_unsupported, message, message_param, messages_from, messages,
  stop_values, stop_texts, stream_flag, usage_flag, given_options, include_usage, penalty, user,
  max_value, parse_options, parse_fields, parse_chat_completion_request,
}

module _ {F : Type 0} (fl : Floats F) where
  -- A GatewayError for the client, or the OverflowError of an int that has no float.
  abbrev pub IsRefusal : Failure → Type 0
  IsRefusal (gateway_error e) = (e.http_status ≡ 400) × (e.code ≡ "invalid_request")
  IsRefusal (overflow_error i) = fl.of_int i ≡ none
  IsRefusal (key_error k) = ⊥

  abbrev pub IsBetween : F → F → F → Type 0
  IsBetween above most x =
      (fl.is_finite x ≡ true) × (fl.le x above ≡ false) × (fl.gt x most ≡ false)

  abbrev pub IsMessage : Message → Type 0
  IsMessage m = contains roles m.role ≡ true

  abbrev pub AreStops : List String → Type 0
  AreStops ts = All IsText ts × (length ts ≤ 4) × (distinct ts ≡ true)

  pub record IsCommand (manifest : ModelManifest) (c : ChatCompletionCommand F) : Type 0 where
    pub model : IsText c.model
    pub some_messages : is_empty c.messages ≡ false
    pub messages : All IsMessage c.messages
    pub max_new_tokens : InRange 1 manifest.max_output_tokens c.max_new_tokens
    pub temperature : IsBetween fl.zero fl.two c.temperature
    pub top_p : IsBetween fl.zero fl.one c.top_p
    pub random_seed : InRange 0 u32_max c.random_seed
    pub stop : AreStops c.stop
    pub include_usage : c.include_usage ≡ true → c.stream ≡ true

  string-Ends :
      (v : Json F) (param : String) (b : Bool)
      → Ends IsRefusal (λ s. b && str_eq s "" ≡ false) (string v param b)
  unfolding string
  string-Ends (str s) param b = Ends-if (b && str_eq s "") (λ _. raised (refl, refl)) (λ e. given e)
  string-Ends null param true = raised (refl, refl)
  string-Ends null param false = raised (refl, refl)
  string-Ends _ param true = raised (refl, refl)
  string-Ends _ param false = raised (refl, refl)

  integer-Ends :
      (v : Json F) (param : String) (lo hi : ℕ)
      → Ends IsRefusal (InRange lo hi) (integer v param lo hi)
  unfolding integer
  integer-Ends (int (pos n)) param lo hi =
      Ends-if (leb lo n && leb n hi) (λ e. given (ground arith, ground arith))
        (λ _. raised (refl, refl))
  integer-Ends null param lo hi = raised (refl, refl)
  integer-Ends _ param lo hi = raised (refl, refl)

  item-Ends :
      (fs : Fields F) (k : String) → has fs k ≡ true → Ends IsRefusal (λ _. Unit) (item fs k)
  unfolding item
  item-Ends fs k h = let (v, e) = get_of_contains fs k h in rw (e, item) (given tt)

  to_float-Ends :
      (v : Json F) (x : Failure) → IsRefusal x → Ends IsRefusal (λ _. Unit) (to_float fl v x)
  unfolding to_float
  to_float-Ends (int i) x h = elim (Option-cases (fl.of_int i)) [
    | inl e ↦ rw (e, to_float) (raised e)
    | inr (y, e) ↦ rw (e, to_float) (given tt)
  ]
  to_float-Ends (float y) x h = given tt
  to_float-Ends null x h = raised h
  to_float-Ends _ x h = raised h

  number-Ends :
      (v : Json F) (param : String) (above most : F)
      → Ends IsRefusal (IsBetween above most) (number fl v param above most)
  unfolding number
  number-Ends v param above most = Ends-then (to_float-Ends v _ (refl, refl)) λ x _.
      Ends-then (Ends-unless _ (out_of_range param) (refl, refl))
        λ _ e. given {v = x} (ground arith)

  -- The keys that `exactly` tells of are there.
  has-exactly :
      (fs : Fields F) (expected : List String) (k : String)
      → exactly fs expected ≡ true
      → contains expected k ≡ true
      → has fs k ≡ true
  has-exactly fs expected k e m = contains_of_all_in expected (keys fs) k (ground arith) m

  module _ (show_int : ℕ → String) where
    message-Ends : (v : Json F) (param : String) → Ends IsRefusal IsMessage (message v param)
    unfolding message contains
    message-Ends (obj fs) param =
        Ends-then (Ends-unless (exactly fs ("role" ∷ "content" ∷ [])) _ (refl, refl)) λ _ e.
          Ends-then (item-Ends fs "role" (has-exactly fs _ "role" e refl)) λ role_value _.
            Ends-then (string-Ends role_value (str_append param ".role") true) λ role _.
              Ends-then (Ends-unless (contains roles role) _ (refl, refl)) λ _ known.
                Ends-then (item-Ends fs "content" (has-exactly fs _ "content" e refl)) λ value _.
                  Ends-then (string-Ends value (str_append param ".content") false)
                    λ content _. given {v = record { role = role; content = content }} known
    message-Ends null param = raised (refl, refl)
    message-Ends _ param = raised (refl, refl)

    messages_from-Ends :
        (index : ℕ) (vs : List (Json F))
        → Ends IsRefusal
            (λ ms. (is_empty ms ≡ is_empty vs) × All IsMessage ms)
            (messages_from show_int index vs)
    unfolding messages_from
    messages_from-Ends index [] = given (refl, tt)
    messages_from-Ends index (v ∷ vs) =
        Ends-then (message-Ends v (message_param show_int index)) λ m known.
          Ends-then (messages_from-Ends (suc index) vs)
            λ ms more. given {v = m ∷ ms} (refl, (known, more.1))

    messages-Ends :
        (v : Json F)
        → Ends IsRefusal (λ ms. (is_empty ms ≡ false) × All IsMessage ms) (messages show_int v)
    unfolding messages
    messages-Ends (arr (Items.cons v vs)) = messages_from-Ends 0 (v ∷ to_list vs)
    messages-Ends (arr Items.nil) = raised (refl, refl)
    messages-Ends null = raised (refl, refl)
    messages-Ends _ = raised (refl, refl)

  texts-Ends :
      (vs : List (Json F))
      → Ends IsRefusal
          (λ ts. All IsText ts × (length ts ≡ length vs))
          (each (λ v. string v "stop" true) vs)
  texts-Ends [] = given (tt, refl)
  texts-Ends (v ∷ vs) =
      Ends-then (string-Ends v "stop" true) λ t h.
        Ends-then (texts-Ends vs) λ ts hs. given {v = t ∷ ts} ((h, hs.0), omega (arith, hs.1))

  stop_values-Ends : (vs : List (Json F)) → Ends IsRefusal AreStops (stop_values vs)
  unfolding stop_values
  stop_values-Ends vs =
      Ends-then (Ends-unless (not (is_empty vs) && leb (length vs) 4) _ (refl, refl)) λ _ few.
        Ends-then (texts-Ends vs) λ ts h.
          Ends-then (Ends-unless (distinct ts) _ (refl, refl))
            λ _ once. given {v = ts} (h.0, ground (arith, h.1), once)

  stop_texts-Ends : (v : Json F) → Ends IsRefusal AreStops (stop_texts v)
  unfolding stop_texts distinct
  stop_texts-Ends null = given (tt, omega arith, refl)
  stop_texts-Ends (str s) = stop_values-Ends (str s ∷ [])
  stop_texts-Ends (arr vs) = stop_values-Ends (to_list vs)
  stop_texts-Ends _ = raised (refl, refl)

  refuse_unsupported-Ends :
      (ks : List String) → Ends IsRefusal (λ _. Unit {0}) (refuse_unsupported ks)
  unfolding refuse_unsupported
  refuse_unsupported-Ends [] = given tt
  refuse_unsupported-Ends (k ∷ ks) = raised (refl, refl)

  stream_flag-Ends : (v : Json F) → Ends IsRefusal (λ _. Unit {0}) (stream_flag v)
  unfolding stream_flag
  stream_flag-Ends (bool b) = given tt
  stream_flag-Ends null = raised (refl, refl)
  stream_flag-Ends _ = raised (refl, refl)

  usage_flag-Ends : (v : Json F) → Ends IsRefusal (λ _. Unit {0}) (usage_flag v)
  unfolding usage_flag
  usage_flag-Ends (bool b) = given tt
  usage_flag-Ends null = raised (refl, refl)
  usage_flag-Ends _ = raised (refl, refl)

  given_options-Ends : (v : Json F) → Ends IsRefusal (λ _. Unit {0}) (given_options v)
  unfolding given_options contains
  given_options-Ends (obj fs) =
      Ends-then (Ends-unless (exactly fs ("include_usage" ∷ [])) _ (refl, refl)) λ _ e.
        Ends-then (item-Ends fs "include_usage" (has-exactly fs _ "include_usage" e refl))
          λ v _. usage_flag-Ends v
  given_options-Ends null = raised (refl, refl)
  given_options-Ends _ = raised (refl, refl)

  given-include_usage :
      (v : Json F) (stream : Bool)
      → Ends IsRefusal
          (λ u. u ≡ true → stream ≡ true)
          (unless_raise stream
              (invalid "stream_options requires stream=true" (some "stream_options"))
            >> given_options v)
  given-include_usage v stream =
      Ends-then (Ends-unless stream _ (refl, refl))
        λ _ on. Ends-weaken (λ u _ _. on) (given_options-Ends v)

  include_usage-Ends :
      (v : Json F) (stream : Bool)
      → Ends IsRefusal (λ u. u ≡ true → stream ≡ true) (include_usage v stream)
  unfolding include_usage
  include_usage-Ends null stream = given (λ e. absurd (cc))
  include_usage-Ends v stream = given-include_usage v stream

  penalty-Ends : (fs : Fields F) (k : String) → Ends IsRefusal (λ _. Unit {0}) (penalty fl fs k)
  unfolding penalty
  penalty-Ends fs k =
      Ends-if (has fs k)
        (λ there. Ends-then (item-Ends fs k there) λ v _.
          Ends-then (to_float-Ends v _ (refl, refl)) λ x _.
            Ends-then (Ends-unless (fl.is_finite x) _ (refl, refl))
              λ _ _. Ends-weaken (λ _ _. tt) (Ends-unless (fl.eq x fl.zero) _ (refl, refl)))
        (λ _. given tt)

  user-Ends : (fs : Fields F) → Ends IsRefusal (λ _. Unit {0}) (user fl fs)
  unfolding user
  user-Ends fs =
      Ends-if (has fs "user")
        (λ there.
          Ends-then (item-Ends fs "user" there)
            λ v _. Ends-then (string-Ends v "user" true) λ s _. given tt)
        (λ _. given tt)

  parse_options-Ends :
      (manifest : ModelManifest) (fs : Fields F) (model : String) (ms : List Message)
      (stream : Bool) (n : ℕ)
      → IsText model
      → (is_empty ms ≡ false) × All IsMessage ms
      → InRange 1 manifest.max_output_tokens n
      → Ends IsRefusal (IsCommand manifest) (parse_options fl fs model ms stream n)
  unfolding parse_options
  parse_options-Ends manifest fs model ms stream n text known fits =
      Ends-then (number-Ends _ "temperature" fl.zero fl.two) λ temperature warm.
        Ends-then (number-Ends _ "top_p" fl.zero fl.one) λ top_p mass.
          Ends-then (integer-Ends _ "seed" 0 u32_max) λ seed small.
            Ends-then (stop_texts-Ends (get_or fs "stop" null)) λ stop stops.
              Ends-then (penalty-Ends fs "frequency_penalty") λ _ _.
                Ends-then (penalty-Ends fs "presence_penalty") λ _ _.
                  Ends-then (user-Ends fs) λ _ _.
                    Ends-then (include_usage-Ends (get_or fs "stream_options" null) stream)
                      λ usage streamed. given (record {
                        model = text;
                        some_messages = known.0;
                        messages = known.1;
                        max_new_tokens = fits;
                        temperature = warm;
                        top_p = mass;
                        random_seed = small;
                        stop = stops;
                        include_usage = streamed;
                      })

  parse_fields-Ends :
      (show_int : ℕ → String) (fs : Fields F) (manifest : ModelManifest)
      → Ends IsRefusal (IsCommand manifest) (parse_fields fl show_int fs manifest)
  unfolding parse_fields
  parse_fields-Ends show_int fs manifest =
      Ends-then (refuse_unsupported-Ends (unsupported (keys fs))) λ _ _.
        Ends-then (Ends-unless (has fs "model") _ (refl, refl)) λ _ has_model.
          Ends-then (Ends-unless (has fs "messages") _ (refl, refl)) λ _ has_messages.
            Ends-then (item-Ends fs "model" has_model) λ v _.
              Ends-then (string-Ends v "model" true) λ model text.
                Ends-then (item-Ends fs "messages" has_messages) λ w _.
                  Ends-then (messages-Ends show_int w) λ ms known.
                    Ends-then (stream_flag-Ends (get_or fs "stream" (bool false))) λ stream _.
                      Ends-then (integer-Ends (get_or fs "n" (int (pos 1))) "n" 1 1) λ n _.
                        Ends-then (Ends-unless (n == 1) _ (refl, refl)) λ _ _.
                          Ends-then
                            (Ends-unless _
                              (invalid "max_tokens and max_completion_tokens are mutually exclusive"
                                (some "max_tokens"))
                              (refl, refl))
                            λ _ _.
                              Ends-then
                                (integer-Ends (max_value fl fs manifest) "max_tokens" 1
                                  manifest.max_output_tokens)
                                λ most fits.
                                  parse_options-Ends manifest fs model ms stream most text known
                                    fits

  -- Whatever the body says: the parser returns a command that is well formed for the manifest, or it
  -- raises a GatewayError of status 400 and code "invalid_request", or it raises OverflowError, for an
  -- int of the body that has no float; and nothing else.
  pub parse_sound :
      (show_int : ℕ → String) (body : Json F) (manifest : ModelManifest)
      → Ends IsRefusal
          (IsCommand manifest)
          (parse_chat_completion_request fl show_int body manifest)
  unfolding parse_chat_completion_request
  parse_sound show_int (obj fs) manifest = parse_fields-Ends show_int fs manifest
  parse_sound show_int null manifest = raised (refl, refl)
  parse_sound show_int _ manifest = raised (refl, refl)
