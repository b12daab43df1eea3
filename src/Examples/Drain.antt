-- ===== src/Examples/Drain.antt =====
-- The drain of a session of gateway/python/kim_llm_gateway/runtime.py at concrete steps.
use kim_llm_serving.Prelude.{
  ◌+◌, ◌≡◌, String, Bool, true, not, ◌||◌, none, some, List, [], ◌∷◌, ◌++◌,
}
use kim_llm_serving.Protocol.{delta, end}
use kim_llm_serving.Gateway.Metrics.{new_metrics}
use kim_llm_serving.Gateway.Session.{new_session, event}
use kim_llm_serving.Gateway.Session.Run.{pumps}
use kim_llm_serving.Gateway.Session.Drain.{ended, Act, others, wakes, answers, acts}
use kim_llm_serving.Gateway.Session.Drain.Drained.{timeouts, last_acts, new_drain, drain_ends}
use kim_llm_serving.Examples.Gateway.{letters, no_error, token, stop_terminal}

-- The request is cancelled while a text waits in the buffer, and then its Worker ends it.
abbrev before : List Act
before =
    others (pumps (event (delta (token 0 1))))
    ∷ wakes
    ∷ answers (some true)
    ∷ others (pumps (event (end stop_terminal)))
    ∷ []

drain_ends_example :
    let reason : String = "http_disconnect" in
    let middle = acts letters no_error reason (new_drain (new_session 4) new_metrics) before in
    let d =
      acts letters no_error reason
        (new_drain (new_session 4) new_metrics)
        (before ++ last_acts none (some true)) in
    (drained : Bool) × (d.stage ≡ ended drained)
    × (not drained || d.session.done ≡ true)
    × (middle.session.done ≡ true → middle.metrics.drain_timeouts ≡ 0 → drained ≡ true)
    × (d.session.buffer.abandoned ≡ true)
    × (d.session.buffer.deltas ≡ [])
    × (d.metrics.drain_timeouts ≡ 0 + timeouts drained)
drain_ends_example =
    drain_ends letters no_error "http_disconnect" (new_session 4) new_metrics before none
      (some true)
