-- ===== src/Gateway/Service/Prepared.antt =====
-- What `GatewayService.submit` (gateway/python/kim_llm_gateway/runtime.py) sends to the client.
use kim_llm_serving.Prelude.{
  ℕ, ◌+◌, ◌≤◌, ◌≡◌, refl, String, false, List, [], ◌∷◌, arith, length, is_empty, ltb, if_cases, All,
}
use kim_llm_serving.Protocol.{GenerationRequest, HelloAck}
use kim_llm_serving.Client.State.{returned}
use kim_llm_serving.Client.Requests.{validate_request_against_worker}
use kim_llm_serving.Gateway.Ids.{next_id}
use kim_llm_serving.Gateway.Service.{Service, GatewayRequest, reject}
use kim_llm_serving.Gateway.Service.Submit.{
  Encoded, token_ids, tokenizer_error, EncodedStops, sequences, stop_error, Progress, refused,
  checks_readiness, tokenizes, submits, any_empty, generation_request, check_limits, check_encoded,
  encode_stops, prepare,
}

any_empty-All :
    (stops : List (List ℕ)) → any_empty stops ≡ false → All (λ ids. is_empty ids ≡ false) stops
unfolding any_empty
any_empty-All [] h = tt
any_empty-All (ids ∷ rest) h = ground (arith, any_empty-All rest)

module _ {F M : Type 0} where
  -- The request `g` is within the model's limits, each of its stop sequences has a token, its tokens
  -- are the tokenizer's, its id is the allocator's and its output length is what was asked for.
  pub record IsPrepared (sv : Service) (q : GatewayRequest F M) (encoded : Encoded)
      (stops : EncodedStops) (g : GenerationRequest F) : Type 0 where
    pub input : length g.input_token_ids ≤ sv.manifest.max_input_tokens
    pub output : g.max_new_tokens ≤ sv.manifest.max_output_tokens
    pub sequence : length g.input_token_ids + g.max_new_tokens ≤ sv.manifest.max_sequence_tokens
    pub stops_given : All (λ ids. is_empty ids ≡ false) g.stop_sequences
    pub tokens : encoded ≡ token_ids g.input_token_ids
    pub stop_tokens : stops ≡ sequences g.stop_sequences
    pub id : g.request_id ≡ sv.next
    pub asked : g.max_new_tokens ≡ q.max_new_tokens
    pub filled : g ≡ generation_request sv q g.request_id g.input_token_ids g.stop_sequences

  -- A refusal is a client error and is counted once; a request takes an id and counts nothing.
  abbrev pub Prepares :
      Service → GatewayRequest F M → Encoded → EncodedStops → Service × Progress F → Type 0
  Prepares sv q encoded stops (sv', refused e) = (e.http_status ≡ 400) × (sv' ≡ reject sv e)
  Prepares sv q encoded stops (sv', checks_readiness) = ⊥
  Prepares sv q encoded stops (sv', tokenizes) = ⊥
  Prepares sv q encoded stops (sv', submits g) =
      IsPrepared sv q encoded stops g × (sv' ≡ record sv { next = (next_id sv.next).0 })

  check_limits-Prepares :
      (sv : Service) (q : GatewayRequest F M) (ids : List ℕ) (stops : List (List ℕ))
      → Prepares sv q (token_ids ids) (sequences stops) (check_limits sv q ids stops)
  unfolding check_limits generation_request next_id
  check_limits-Prepares sv q ids stops =
      let P = Prepares sv q (token_ids ids) (sequences stops) in
      if_cases P (any_empty stops) (λ _. (refl, refl))
        (λ given.
          if_cases P (ltb sv.manifest.max_input_tokens (length ids)) (λ _. (refl, refl))
            (λ short.
              if_cases P (ltb sv.manifest.max_output_tokens q.max_new_tokens) (λ _. (refl, refl))
                (λ few.
                  if_cases P (ltb sv.manifest.max_sequence_tokens (length ids + q.max_new_tokens))
                    (λ _. (refl, refl))
                    (λ fits. (
                      record {
                        input = ground arith;
                        output = ground arith;
                        sequence = ground arith;
                        stops_given = any_empty-All stops given;
                        tokens = refl;
                        stop_tokens = refl;
                        id = ground arith;
                        asked = refl;
                        filled = refl;
                      },
                      refl,
                    )))))

  check_encoded-Prepares :
      (sv : Service) (q : GatewayRequest F M) (encoded : Encoded) (stops : EncodedStops)
      → Prepares sv q encoded stops (check_encoded sv q encoded stops)
  unfolding check_encoded
  check_encoded-Prepares sv q (tokenizer_error message) stops = (refl, refl)
  check_encoded-Prepares sv q (token_ids ids) (stop_error message) = (refl, refl)
  check_encoded-Prepares sv q (token_ids ids) (sequences stops) =
      check_limits-Prepares sv q ids stops

  module _ (encode_chat : List M → Encoded) (encode_text : String → Encoded) where
    pub prepare_checks :
        (sv : Service) (q : GatewayRequest F M)
        → Prepares sv q
            (encode_chat q.messages)
            (encode_stops encode_text q.stop)
            (prepare encode_chat encode_text sv q)
    unfolding prepare
    prepare_checks sv q =
        check_encoded-Prepares sv q (encode_chat q.messages) (encode_stops encode_text q.stop)

    pub prepare-IsPrepared :
        (sv : Service) (q : GatewayRequest F M) (g : GenerationRequest F)
        → (prepare encode_chat encode_text sv q).1 ≡ submits g
        → IsPrepared sv q (encode_chat q.messages) (encode_stops encode_text q.stop) g
    prepare-IsPrepared sv q g h =
        passed (prepare encode_chat encode_text sv q) h (prepare_checks sv q)
      where
        passed :
            (r : Service × Progress F)
            → r.1 ≡ submits g
            → Prepares sv q (encode_chat q.messages) (encode_stops encode_text q.stop) r
            → IsPrepared sv q (encode_chat q.messages) (encode_stops encode_text q.stop) g
        passed (sv', refused x) e p = absurd (cc)
        passed (sv', checks_readiness) e p = absurd (cc)
        passed (sv', tokenizes) e p = absurd (cc)
        passed (sv', submits g') e p = let sent : g' ≡ g = cc in rw sent at p.0

    -- If the Worker's manifest is the Gateway's, then the client's own checks of a request against the
    -- Worker never refuse what `submit` sends.
    pub prepared_passes_client :
        (sv : Service) (q : GatewayRequest F M) (g : GenerationRequest F) (ack : HelloAck)
        → (prepare encode_chat encode_text sv q).1 ≡ submits g
        → ack.manifest ≡ sv.manifest
        → validate_request_against_worker g ack ≡ returned tt
    unfolding validate_request_against_worker
    prepared_passes_client sv q g ack h same =
        let p = prepare-IsPrepared sv q g h in ground (arith, same, p.input, p.output, p.sequence)
