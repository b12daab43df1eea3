-- ===== src/Gateway/Service/Calls.antt =====
-- Calls of `GatewayService.submit` in flight, and the steps that they and the sessions take
-- (gateway/python/kim_llm_gateway/runtime.py).
use kim_llm_serving.Prelude.{ℕ, suc, ◌≡◌, String, Bool, none, some, List, [], ◌∷◌, ◌++◌}
use kim_llm_serving.Protocol.{ModelManifest}
use kim_llm_serving.Gateway.Metrics.{count_terminal}
use kim_llm_serving.Gateway.Service.{
  Service, Options, GatewayRequest, Health, new_service, start, stop, finish_readiness,
  session_finished,
}
use kim_llm_serving.Gateway.Service.Submit.{
  Encoded, Submitted, SubmitResult, session, raises, Progress, refused, checks_readiness, tokenizes,
  submits, begin_submit, readiness_for_submit, prepare, end_submit,
}

-- A call of `submit` that waits for an await to end: before `check_readiness`, before the tokenizer,
-- or for the client's answer to a request.
pub data Waiting (F M : Type 0) : Type 0 where
  for_readiness for_tokenizer : GatewayRequest F M → Waiting F M
  for_client : ℕ → Waiting F M

-- `sessions` counts those whose pump is not done; `escaped` the calls that an exception ended which
-- `submit` does not catch.
pub record Gateway (F M : Type 0) : Type 0 where
  pub service : Service
  pub waiting : List (Waiting F M)
  pub sessions : ℕ
  pub escaped : ℕ

unfoldable pub new_gateway : {F M : Type 0} → ModelManifest → Options → ℕ → Gateway F M
unfolding new_service
new_gateway manifest options first_id = record {
  service = new_service manifest options first_id;
  waiting = [];
  sessions = 0;
  escaped = 0;
}

module _ {F M : Type 0} where
  -- What a call of `submit` for `q` waits for next.
  abbrev pub still_waiting : GatewayRequest F M → Progress F → List (Waiting F M)
  still_waiting q (refused e) = []
  still_waiting q checks_readiness = for_readiness q ∷ []
  still_waiting q tokenizes = for_tokenizer q ∷ []
  still_waiting q (submits g) = for_client g.request_id ∷ []

  unfoldable pub goes_on :
      Gateway F M → List (Waiting F M) → GatewayRequest F M → Service × Progress F → Gateway F M
  goes_on gw others q (sv, p) = record gw { service = sv; waiting = others ++ still_waiting q p }

  unfoldable pub submitted : Gateway F M → List (Waiting F M) → Service × SubmitResult → Gateway F M
  submitted gw others (sv, session r) = record gw {
    service = sv;
    waiting = others;
    sessions = suc gw.sessions;
  }
  submitted gw others (sv, raises (some e)) = record gw { service = sv; waiting = others }
  submitted gw others (sv, raises none) = record gw {
    service = sv;
    waiting = others;
    escaped = suc gw.escaped;
  }

  -- A session's pump ends: it counts its terminal, and the service forgets the session.
  unfoldable pub ended : Gateway F M → ℕ → ℕ → ℕ → String → Gateway F M
  ended gw left id r code =
      let sv = record gw.service { metrics = count_terminal gw.service.metrics code } in
      record gw { service = session_finished sv id r; sessions = left }

module _ {F M : Type 0} (encode_chat : List M → Encoded) (encode_text : String → Encoded)
    (repr : String → String) where
  pub data Step (gw : Gateway F M) : Gateway F M → Type 0 where
    begins :
        (q : GatewayRequest F M) (connected : Bool)
        → Step gw (goes_on gw gw.waiting q (begin_submit repr gw.service q connected))
    readies :
        (before later : List (Waiting F M)) (q : GatewayRequest F M) (health : Health)
        → gw.waiting ≡ before ++ for_readiness q ∷ later
        → Step gw (goes_on gw (before ++ later) q (readiness_for_submit gw.service health))
    prepares :
        (before later : List (Waiting F M)) (q : GatewayRequest F M)
        → gw.waiting ≡ before ++ for_tokenizer q ∷ later
        → Step gw (goes_on gw (before ++ later) q (prepare encode_chat encode_text gw.service q))
    ends :
        (before later : List (Waiting F M)) (id : ℕ) (answer : Submitted)
        → gw.waiting ≡ before ++ for_client id ∷ later
        → Step gw (submitted gw (before ++ later) (end_submit gw.service id answer))
    session_ends :
        (left id r : ℕ) (code : String) → gw.sessions ≡ suc left → Step gw (ended gw left id r code)
    -- `start` up to its check of readiness, and `stop` up to its first await.
    starts : Step gw (record gw { service = start gw.service })
    stops : Step gw (record gw { service = (stop gw.service).0 })
    -- The client has answered to a check of readiness that `start` or `/readyz` made.
    checks :
        (health : Health) → Step gw (record gw { service = (finish_readiness gw.service health).0 })

  pub data Reach (gw : Gateway F M) : Gateway F M → Type 0 where
    here : Reach gw gw
    next : {t u : Gateway F M} → Reach gw t → Step t u → Reach gw u
