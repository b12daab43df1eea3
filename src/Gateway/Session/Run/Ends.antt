-- ===== src/Gateway/Session/Run/Ends.antt =====
-- How often a session ends, counts its terminal and counts its cancellation.
use kim_llm_serving.Prelude.{
  ℕ, ◌+◌, ◌-◌, ◌≤◌, ◌≡◌, refl, String, Bool, true, false, Option, List, [], ◌∷◌, arith, is_some,
  if_cases,
}
use kim_llm_serving.Protocol.{TokenDelta, delta, end}
use kim_llm_serving.Gateway.Metrics.{
  Metrics, count_terminal, count_cancel, sse_delta_enqueued, sse_deltas_released,
}
use kim_llm_serving.Gateway.Metrics.Totals.{total, total-increment}
use kim_llm_serving.Gateway.Decoder.{Text, Appended, text, decode_failed, changed_text, append}
use kim_llm_serving.Gateway.Buffer.{
  GatewayTerminal, put_delta, put_terminal, get, take_first, take_terminal, abandon,
}
use kim_llm_serving.Gateway.Session.{
  Session, PumpResult, new_session, NextEvent, event, no_event, raised, begin_cancel, end_cancel,
  finish, finish_pump, fail_pump, terminal_of, put_text, pump_appended, pump_delta, pump,
}
use kim_llm_serving.Gateway.Session.Run.{
  Op, Effect, pumps, begins_cancel, ends_cancel, gets, abandons, step, run,
}

abbrev pub as_number : Bool → ℕ
as_number true = 1
as_number false = 0

-- How many cancellations the metrics have counted.
abbrev pub cancels : Metrics → ℕ
cancels m = m.disconnect_cancels + m.backpressure_cancels

-- The terminal, the buffer's terminal and `done` agree; a task waits for the client's `cancel` only
-- if none was sent.
pub record Agrees (s : Session) : Type 0 where
  pub same : s.terminal ≡ s.buffer.terminal
  pub done : is_some s.buffer.terminal ≡ s.done
  pub unsent : is_some s.cancelling ≡ true → s.cancel_sent ≡ false

-- From one state to a later one, the terminals that were counted are those the session got,
-- and at most the cancellation that was sent is counted.
record Counted (s : Session) (m : Metrics) (s' : Session) (m' : Metrics) : Type 0 where
  terminals : total m'.terminals + as_number s.done ≡ total m.terminals + as_number s'.done
  active : m'.active ≡ m.active - (as_number s'.done - as_number s.done)
  later : as_number s.done ≤ as_number s'.done
  cancelled : cancels m' + as_number s.cancel_sent ≤ cancels m + as_number s'.cancel_sent

unchanged : (s : Session) (m : Metrics) → Agrees s → Agrees s × Counted s m s m
unchanged s m a = ground arith

begin_cancel-Counted :
    (s : Session) (m : Metrics) (reason : String)
    → Agrees s
    → let s' = (begin_cancel s reason).0 in Agrees s' × Counted s m s' m
unfolding begin_cancel
begin_cancel-Counted s m reason a = ground arith

end_cancel-Counted :
    (s : Session) (m : Metrics) (result : Option Bool)
    → Agrees s
    → let (s', m') = end_cancel s m result in Agrees s' × Counted s m s' m'
unfolding end_cancel count_cancel
end_cancel-Counted s m result a = ground arith

get-Counted :
    (s : Session) (m : Metrics)
    → Agrees s
    → let (b, m', got) = get s.buffer m in
      Agrees (record s { buffer = b }) × Counted s m (record s { buffer = b }) m'
unfolding get take_first take_terminal sse_deltas_released
get-Counted s m a = ground arith

abandon-Counted :
    (s : Session) (m : Metrics)
    → Agrees s
    → let (b, m') = abandon s.buffer m in
      Agrees (record s { buffer = b }) × Counted s m (record s { buffer = b }) m'
unfolding abandon sse_deltas_released
abandon-Counted s m a = ground arith

module _ (decode : List ℕ → Option Text) (decode_error : List ℕ → String) where
  put_text-Counted :
      (s : Session) (m : Metrics) (t : Text)
      → Agrees s
      → let (s', m', r) = put_text decode decode_error s m t in Agrees s' × Counted s m s' m'
  unfolding put_text put_delta sse_delta_enqueued
  put_text-Counted s m [] a = ground arith
  put_text-Counted s m (c ∷ cs) a = ground arith

  appended-Counted :
      (s : Session) (m : Metrics) (r : Appended)
      → Agrees s
      → let (s', m', r) = pump_appended decode decode_error s m r in Agrees s' × Counted s m s' m'
  unfolding pump_appended
  appended-Counted s m (text t) a = put_text-Counted s m t a
  appended-Counted s m decode_failed a = ground arith
  appended-Counted s m changed_text a = ground arith

  finish_pump-Counted :
      (s : Session) (m : Metrics) (t : GatewayTerminal)
      → s.done ≡ false
      → Agrees s
      → let (s', m', r) = finish_pump s m t in Agrees s' × Counted s m s' m'
  unfolding finish_pump finish put_terminal count_terminal
  finish_pump-Counted s m t h a = ground (arith, total-increment m.terminals t.status.code)

  fail_pump-Counted :
      (s : Session) (m : Metrics) (t : GatewayTerminal)
      → s.done ≡ false
      → Agrees s
      → let (s', m', r) = fail_pump s m t in Agrees s' × Counted s m s' m'
  unfolding fail_pump finish put_terminal count_terminal
  fail_pump-Counted s m t h a = ground (arith, total-increment m.terminals t.status.code)

  delta-Counted :
      (s : Session) (m : Metrics) (d : TokenDelta)
      → Agrees s
      → let (s', m', r) = pump_delta decode decode_error s m d in Agrees s' × Counted s m s' m'
  unfolding pump_delta
  delta-Counted s m d a =
      let (decoder, appended) = append decode s.decoder d.token_ids in
      let (agrees, counted) =
        appended-Counted (record s { decoder = decoder }) m appended
          (record { same = a.same; done = a.done; unsent = a.unsent }) in
      (agrees, ground (arith, counted))

  pump-Counted :
      (s : Session) (m : Metrics) (e : NextEvent)
      → s.done ≡ false
      → Agrees s
      → let (s', m', r) = pump decode decode_error s m e in Agrees s' × Counted s m s' m'
  unfolding pump
  pump-Counted s m (event (delta d)) h a =
      if_cases (λ (r : Session × Metrics × PumpResult). Agrees r.0 × Counted s m r.0 r.1)
        s.dropping_deltas (λ _. unchanged s m a) (λ _. delta-Counted s m d a)
  pump-Counted s m (event (end t)) h a = finish_pump-Counted s m (terminal_of s.local_failure t) h a
  pump-Counted s m no_event h a = fail_pump-Counted s m _ h a
  pump-Counted s m (raised u message) h a = fail_pump-Counted s m _ h a

  step-Counted :
      (s : Session) (m : Metrics) (o : Op)
      → Agrees s
      → let r = step decode decode_error s m o in Agrees r.session × Counted s m r.session r.metrics
  unfolding step
  step-Counted s m (pumps e) a =
      if_cases (λ (r : Effect). Agrees r.session × Counted s m r.session r.metrics) s.done
        (λ _. unchanged s m a) (λ going. pump-Counted s m e going a)
  step-Counted s m (begins_cancel reason) a = begin_cancel-Counted s m reason a
  step-Counted s m (ends_cancel result) a = end_cancel-Counted s m result a
  step-Counted s m gets a = get-Counted s m a
  step-Counted s m abandons a = abandon-Counted s m a

  run-Counted :
      (s : Session) (m : Metrics) (os : List Op)
      → Agrees s
      → let r = run decode decode_error s m os in Agrees r.session × Counted s m r.session r.metrics
  unfolding run
  run-Counted s m [] a = unchanged s m a
  run-Counted s m (o ∷ os) a =
      let r = step decode decode_error s m o in
      let (agrees, first) = step-Counted s m o a in
      let (later, rest) = run-Counted r.session r.metrics os agrees in
      (later, ground (arith, first, rest))

  pub run-Agrees :
      (n : ℕ) (m : Metrics) (os : List Op)
      → Agrees (run decode decode_error (new_session n) m os).session
  run-Agrees n m os =
      (run-Counted (new_session n) m os (record { same = refl; done = refl; unsent = λ _. refl })).0

  -- Whatever the tasks of a new session do, in any order, from any metrics: the session has its
  -- terminal, and the buffer has the same one, exactly when the pump is done; by then exactly one
  -- terminal has been counted and one request fewer is active, before then none; and at most one
  -- cancellation has been counted, none if none was sent.
  pub session_ends_once :
      (n : ℕ) (m : Metrics) (os : List Op)
      → let r = run decode decode_error (new_session n) m os in
        (r.session.terminal ≡ r.session.buffer.terminal)
        × (is_some r.session.terminal ≡ r.session.done)
        × (total r.metrics.terminals ≡ total m.terminals + as_number r.session.done)
        × (r.metrics.active ≡ m.active - as_number r.session.done)
        × (cancels r.metrics ≤ cancels m + as_number r.session.cancel_sent)
  session_ends_once n m os =
      let (a, c) =
        run-Counted (new_session n) m os
          (record { same = refl; done = refl; unsent = λ _. refl }) in
      (
        a.same,
        ground (arith, a.same, a.done),
        ground (arith, c.terminals),
        ground (arith, c.active),
        ground (arith, c.cancelled),
      )
