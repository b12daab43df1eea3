-- ===== src/Gateway/Service/Conserved.antt =====
-- Requests of a `GatewayService` from `submit` to the end of their sessions, in any interleaving of
-- the tasks (gateway/python/kim_llm_gateway/runtime.py).
use kim_llm_serving.Prelude.{
  Option, some, ℕ, suc, ◌+◌, ◌≡◌, refl, String, Bool, none, List, ◌∷◌, ◌++◌, arith, length,
  if_cases, str_eq, not, ◌&&◌, length-append,
}
use kim_llm_serving.Protocol.{ModelManifest}
use kim_llm_serving.Gateway.Error.{GatewayError, gateway_error_from_status}
use kim_llm_serving.Gateway.Metrics.{
  Metrics, count_offered, count_accepted, count_rejected, count_terminal,
}
use kim_llm_serving.Gateway.Metrics.Totals.{total, total-increment}
use kim_llm_serving.Gateway.Service.{
  Service, Options, GatewayRequest, Health, Readiness, reject, stopping_error, server_error,
  invalid_input, capacity_error, not_ready, ready, answered, health_failed, begin_readiness,
  finish_readiness, start, stop, session_finished, set_unready,
}
use kim_llm_serving.Gateway.Service.Submit.{
  Encoded, Submitted, model_not_found, Progress, refused, checks_readiness, tokenizes, submits,
  begin_counted, begin_submit, readiness_for_submit, submit_readiness, awaits_readiness,
  encode_stops, prepare, end_submit, handle, request_rejected, client_capacity_error,
  worker_unavailable, value_error, other_error,
}
use kim_llm_serving.Gateway.Service.Prepared.{Prepares, prepare_checks}
use kim_llm_serving.Gateway.Service.Calls.{
  Waiting, Gateway, new_gateway, still_waiting, goes_on, submitted, ended, Step, begins, readies,
  prepares, ends, session_ends, starts, stops, checks, Reach, here, next,
}

-- From `m` to `m'` one request of those in flight was rejected, unless it waits on (`n` is 1).
record Moves (m m' : Metrics) (n : ℕ) : Type 0 where
  offered : m'.offered ≡ m.offered
  accepted : m'.accepted ≡ m.accepted
  active : m'.active ≡ m.active
  terminals : m'.terminals ≡ m.terminals
  rejected : total m'.rejected + n ≡ total m.rejected + 1

unmoved : (m : Metrics) → Moves m m 1
unmoved m = ground arith

reject-Moves : (sv : Service) (e : GatewayError) → Moves sv.metrics (reject sv e).metrics 0
unfolding reject count_rejected
reject-Moves sv e = ground (arith, total-increment sv.metrics.rejected e.code)

finish_readiness-metrics :
    (sv : Service) (health : Health) → (finish_readiness sv health).0.metrics ≡ sv.metrics
unfolding finish_readiness set_unready
finish_readiness-metrics sv (answered s) = ground arith
finish_readiness-metrics sv (health_failed message) = refl

start-metrics : (sv : Service) → (start sv).metrics ≡ sv.metrics
unfolding start
start-metrics sv = refl

stop-metrics : (sv : Service) → (stop sv).0.metrics ≡ sv.metrics
unfolding stop
stop-metrics sv = ground arith

module _ {F M : Type 0} (encode_chat : List M → Encoded) (encode_text : String → Encoded)
    (repr : String → String) where
  abbrev Advances : Service → GatewayRequest F M → Service × Progress F → Type 0
  Advances sv q r = Moves sv.metrics r.0.metrics (length (still_waiting q r.1))

  awaits_readiness-Advances :
      (sv : Service) (q : GatewayRequest F M) (e : Option GatewayError)
      → Advances sv q (awaits_readiness sv e)
  unfolding awaits_readiness
  awaits_readiness-Advances sv q none = unmoved sv.metrics
  awaits_readiness-Advances sv q (some e) = reject-Moves sv e

  begin_counted-Advances :
      (sv : Service) (q : GatewayRequest F M) (connected : Bool)
      → Advances sv q (begin_counted repr sv q connected)
  unfolding begin_counted awaits_readiness
  begin_counted-Advances sv q connected =
      if_cases (Advances sv q) sv.stopping (λ _. reject-Moves sv stopping_error)
        (λ _.
          if_cases (Advances sv q) (not (str_eq q.model sv.manifest.model_id))
            (λ _. reject-Moves sv (model_not_found repr q.model))
            (λ _.
              if_cases (Advances sv q) (sv.ready && connected) (λ _. unmoved sv.metrics)
                (λ _. awaits_readiness-Advances sv q (begin_readiness sv))))

  submit_readiness-Advances :
      (sv sv' : Service) (q : GatewayRequest F M) (r : Readiness)
      → sv'.metrics ≡ sv.metrics
      → Advances sv q (submit_readiness sv' r)
  unfolding submit_readiness reject count_rejected
  submit_readiness-Advances sv sv' q (ready s) same = ground (arith, same)
  submit_readiness-Advances sv sv' q (not_ready e) same =
      ground (arith, same, total-increment sv'.metrics.rejected e.code)

  readiness-Advances :
      (sv : Service) (q : GatewayRequest F M) (health : Health)
      → Advances sv q (readiness_for_submit sv health)
  unfolding readiness_for_submit
  readiness-Advances sv q health =
      submit_readiness-Advances sv (finish_readiness sv health).0 q (finish_readiness sv health).1
        (finish_readiness-metrics sv health)

  prepare-Advances :
      (sv : Service) (q : GatewayRequest F M) → Advances sv q (prepare encode_chat encode_text sv q)
  prepare-Advances sv q =
      go (prepare encode_chat encode_text sv q) (prepare_checks encode_chat encode_text sv q)
    where
      go :
          (r : Service × Progress F)
          → Prepares sv q (encode_chat q.messages) (encode_stops encode_text q.stop) r
          → Advances sv q r
      go (sv', refused e) (status, same) = rw same (reject-Moves sv e)
      go (sv', checks_readiness) x = absurd x
      go (sv', tokenizes) x = absurd x
      go (sv', submits g) (p, same) = rw same (unmoved sv.metrics)

  -- Every request that was offered is counted as what it came to.
  record IsConserved (gw : Gateway F M) : Type 0 where
    offers :
        gw.service.metrics.offered
        ≡ gw.service.metrics.accepted
          + total gw.service.metrics.rejected
          + length gw.waiting
          + gw.escaped
    sessions :
        gw.service.metrics.accepted ≡ gw.service.metrics.active + total gw.service.metrics.terminals
    active : gw.service.metrics.active ≡ gw.sessions

  goes_on-IsConserved :
      (gw : Gateway F M) (others : List (Waiting F M)) (q : GatewayRequest F M)
      (r : Service × Progress F)
      → length gw.waiting ≡ length others + 1
      → Advances gw.service q r
      → IsConserved gw
      → IsConserved (goes_on gw others q r)
  unfolding goes_on
  goes_on-IsConserved gw others q (sv, p) one m c = ground (
    arith,
    length-append others (still_waiting q p),
    c.offers,
    c.sessions,
    c.active,
    m.offered,
    m.accepted,
    m.active,
    m.terminals,
    m.rejected,
  )

  refused-IsConserved :
      (gw : Gateway F M) (others : List (Waiting F M)) (sv : Service) (e : GatewayError)
      → sv.metrics ≡ gw.service.metrics
      → length gw.waiting ≡ length others + 1
      → IsConserved gw
      → IsConserved (record gw { service = reject sv e; waiting = others })
  unfolding reject count_rejected
  refused-IsConserved gw others sv e same one c =
      ground
        (arith, same, total-increment sv.metrics.rejected e.code, c.offers, c.sessions, c.active)

  submitted-IsConserved :
      (gw : Gateway F M) (others : List (Waiting F M)) (id : ℕ) (answer : Submitted)
      → length gw.waiting ≡ length others + 1
      → IsConserved gw
      → IsConserved (submitted gw others (end_submit gw.service id answer))
  unfolding submitted end_submit set_unready count_accepted
  submitted-IsConserved gw others id handle one c = ground (arith, c.offers, c.sessions, c.active)
  submitted-IsConserved gw others id (request_rejected status) one c =
      refused-IsConserved gw others gw.service (gateway_error_from_status status) refl one c
  submitted-IsConserved gw others id (client_capacity_error message) one c =
      refused-IsConserved gw others gw.service (capacity_error message) refl one c
  submitted-IsConserved gw others id (worker_unavailable message) one c =
      refused-IsConserved gw others (set_unready gw.service message)
        (server_error message "unavailable") refl one c
  submitted-IsConserved gw others id (value_error message) one c =
      refused-IsConserved gw others gw.service (invalid_input message none) refl one c
  submitted-IsConserved gw others id (other_error message) one c =
      ground (arith, c.offers, c.sessions, c.active)

  ended-IsConserved :
      (gw : Gateway F M) (left id r : ℕ) (code : String)
      → gw.sessions ≡ suc left
      → IsConserved gw
      → IsConserved (ended gw left id r code)
  unfolding ended session_finished count_terminal
  ended-IsConserved gw left id r code one c =
      ground
        (arith, total-increment gw.service.metrics.terminals code, c.offers, c.sessions, c.active)

  one_less :
      (ws before later : List (Waiting F M)) (w : Waiting F M)
      → ws ≡ before ++ w ∷ later
      → length ws ≡ length (before ++ later) + 1
  one_less ws before later w e =
      ground (arith, e, length-append before (w ∷ later), length-append before later)

  begins-IsConserved :
      (gw : Gateway F M) (q : GatewayRequest F M) (connected : Bool)
      → IsConserved gw
      → IsConserved (goes_on gw gw.waiting q (begin_submit repr gw.service q connected))
  unfolding begin_submit goes_on count_offered
  begins-IsConserved gw q connected c =
      let offered = record gw.service { metrics = count_offered gw.service.metrics } in
      let m = begin_counted-Advances offered q connected in
      ground (
        arith,
        length-append gw.waiting (still_waiting q (begin_counted repr offered q connected).1),
        c.offers,
        c.sessions,
        c.active,
        m.offered,
        m.accepted,
        m.active,
        m.terminals,
        m.rejected,
      )

  -- A step that leaves the metrics alone.
  same-IsConserved :
      (gw : Gateway F M) (sv : Service)
      → sv.metrics ≡ gw.service.metrics
      → IsConserved gw
      → IsConserved (record gw { service = sv })
  same-IsConserved gw sv same c = ground (arith, same, c.offers, c.sessions, c.active)

  Step-IsConserved :
      {t u : Gateway F M} → Step encode_chat encode_text repr t u → IsConserved t → IsConserved u
  Step-IsConserved {t} (begins q connected) c = begins-IsConserved t q connected c
  Step-IsConserved {t} (readies before later q health e) c =
      goes_on-IsConserved t (before ++ later) q _ (one_less t.waiting before later _ e)
        (readiness-Advances t.service q health) c
  Step-IsConserved {t} (prepares before later q e) c =
      goes_on-IsConserved t (before ++ later) q _ (one_less t.waiting before later _ e)
        (prepare-Advances t.service q) c
  Step-IsConserved {t} (ends before later id answer e) c =
      submitted-IsConserved t (before ++ later) id answer (one_less t.waiting before later _ e) c
  Step-IsConserved {t} (session_ends left id r code e) c = ended-IsConserved t left id r code e c
  Step-IsConserved {t} starts c = same-IsConserved t (start t.service) (start-metrics t.service) c
  Step-IsConserved {t} stops c = same-IsConserved t (stop t.service).0 (stop-metrics t.service) c
  Step-IsConserved {t} (checks health) c =
      same-IsConserved t (finish_readiness t.service health).0
        (finish_readiness-metrics t.service health) c

  Reach-IsConserved :
      {s u : Gateway F M} → IsConserved s → Reach encode_chat encode_text repr s u → IsConserved u
  Reach-IsConserved c here = c
  Reach-IsConserved c (next run last) = Step-IsConserved last (Reach-IsConserved c run)

  new-IsConserved :
      (manifest : ModelManifest) (options : Options) (first_id : ℕ)
      → IsConserved (new_gateway {F = F} {M = M} manifest options first_id)
  unfolding new_gateway total
  new-IsConserved manifest options first_id = ground arith

  -- In every state that a new Gateway reaches, however its tasks interleave, `start`, `stop` and the
  -- checks of readiness included: each request that was
  -- offered was accepted, was rejected under some code, waits in `submit`, or left it by an exception
  -- that it does not catch; each accepted one is active or has counted its terminal; and the active
  -- gauge is the number of sessions whose pump is not done.
  pub requests_conserved :
      (manifest : ModelManifest) (options : Options) (first_id : ℕ) (gw : Gateway F M)
      → Reach encode_chat encode_text repr (new_gateway manifest options first_id) gw
      → let m = gw.service.metrics in
        (m.offered ≡ m.accepted + total m.rejected + length gw.waiting + gw.escaped)
        × (m.accepted ≡ m.active + total m.terminals)
        × (m.active ≡ gw.sessions)
  requests_conserved manifest options first_id gw run =
      let c = Reach-IsConserved (new-IsConserved manifest options first_id) run in
      (c.offers, c.sessions, c.active)
