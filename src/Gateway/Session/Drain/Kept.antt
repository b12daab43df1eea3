-- ===== src/Gateway/Session/Drain/Kept.antt =====
-- What every step of a session keeps of what a drain has brought about.
use kim_llm_serving.Prelude.{ℕ, ◌≡◌, String, Bool, true, Option, List, [], ◌∷◌, arith}
use kim_llm_serving.Protocol.{delta, end}
use kim_llm_serving.Gateway.Metrics.{
  Metrics, count_terminal, count_cancel, sse_delta_enqueued, sse_deltas_released,
}
use kim_llm_serving.Gateway.Decoder.{Text, Appended, text, decode_failed, changed_text, append}
use kim_llm_serving.Gateway.Buffer.{
  GatewayTerminal, put_delta, put_terminal, get, take_first, take_terminal, abandon,
}
use kim_llm_serving.Gateway.Session.{
  Session, NextEvent, event, no_event, raised, begin_cancel, end_cancel, finish, finish_pump,
  fail_pump, terminal_of, put_text, pump_appended, pump_delta, pump,
}
use kim_llm_serving.Gateway.Session.Run.{
  Op, pumps, begins_cancel, ends_cancel, gets, abandons, step,
}

-- Done stays done, an abandoned buffer stays abandoned and empty, and no drain times out.
pub record Keeps (s : Session) (m : Metrics) (s' : Session) (m' : Metrics) : Type 0 where
  pub done : s.done ≡ true → s'.done ≡ true
  pub abandoned : s.buffer.abandoned ≡ true → s'.buffer.abandoned ≡ true
  pub empty : s.buffer.abandoned ≡ true → s.buffer.deltas ≡ [] → s'.buffer.deltas ≡ []
  pub timeouts : m'.drain_timeouts ≡ m.drain_timeouts

pub begin_cancel-Keeps :
    (s : Session) (m : Metrics) (reason : String) → Keeps s m (begin_cancel s reason).0 m
unfolding begin_cancel
begin_cancel-Keeps s m reason = ground arith

pub end_cancel-Keeps :
    (s : Session) (m : Metrics) (result : Option Bool)
    → let (s', m') = end_cancel s m result in Keeps s m s' m'
unfolding end_cancel count_cancel
end_cancel-Keeps s m result = ground arith

get-Keeps :
    (s : Session) (m : Metrics)
    → let (b, m', got) = get s.buffer m in Keeps s m (record s { buffer = b }) m'
unfolding get take_first take_terminal sse_deltas_released
get-Keeps s m = ground arith

abandon-Keeps :
    (s : Session) (m : Metrics)
    → let (b, m') = abandon s.buffer m in Keeps s m (record s { buffer = b }) m'
unfolding abandon sse_deltas_released
abandon-Keeps s m = ground arith

finish_pump-Keeps :
    (s : Session) (m : Metrics) (t : GatewayTerminal)
    → let (s', m', r) = finish_pump s m t in Keeps s m s' m'
unfolding finish_pump finish put_terminal count_terminal
finish_pump-Keeps s m t = ground arith

fail_pump-Keeps :
    (s : Session) (m : Metrics) (t : GatewayTerminal)
    → let (s', m', r) = fail_pump s m t in Keeps s m s' m'
unfolding fail_pump finish put_terminal count_terminal
fail_pump-Keeps s m t = ground arith

module _ (decode : List ℕ → Option Text) (decode_error : List ℕ → String) where
  put_text-Keeps :
      (s : Session) (m : Metrics) (t : Text)
      → let (s', m', r) = put_text decode decode_error s m t in Keeps s m s' m'
  unfolding put_text put_delta sse_delta_enqueued
  put_text-Keeps s m [] = ground arith
  put_text-Keeps s m (c ∷ cs) = ground arith

  appended-Keeps :
      (s : Session) (m : Metrics) (r : Appended)
      → let (s', m', p) = pump_appended decode decode_error s m r in Keeps s m s' m'
  unfolding pump_appended
  appended-Keeps s m (text t) = put_text-Keeps s m t
  appended-Keeps s m decode_failed = ground arith
  appended-Keeps s m changed_text = ground arith

  pump-Keeps :
      (s : Session) (m : Metrics) (e : NextEvent)
      → let (s', m', r) = pump decode decode_error s m e in Keeps s m s' m'
  unfolding pump pump_delta
  pump-Keeps s m (event (delta d)) =
      let k =
        appended-Keeps (record s { decoder = (append decode s.decoder d.token_ids).0 }) m
          (append decode s.decoder d.token_ids).1 in
      ground (arith, k)
  pump-Keeps s m (event (end t)) = finish_pump-Keeps s m (terminal_of s.local_failure t)
  pump-Keeps s m no_event = fail_pump-Keeps s m _
  pump-Keeps s m (raised is_unavailable message) = fail_pump-Keeps s m _

  pub step-Keeps :
      (s : Session) (m : Metrics) (o : Op)
      → let e = step decode decode_error s m o in Keeps s m e.session e.metrics
  unfolding step
  step-Keeps s m (pumps e) = ground (arith, pump-Keeps s m e)
  step-Keeps s m (begins_cancel reason) = begin_cancel-Keeps s m reason
  step-Keeps s m (ends_cancel result) = end_cancel-Keeps s m result
  step-Keeps s m gets = get-Keeps s m
  step-Keeps s m abandons = abandon-Keeps s m
