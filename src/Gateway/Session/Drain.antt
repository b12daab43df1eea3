-- ===== src/Gateway/Session/Drain.antt =====
-- `cancel_and_drain` and `_cancel_drain_and_abandon` of gateway/python/kim_llm_gateway/runtime.py: the
-- detached task that cancels a session, waits until it is done, and abandons its buffer, among the
-- steps of the session's other tasks.
pub mod Kept
pub mod Drained
use kim_llm_serving.Prelude.{ℕ, String, Bool, true, false, Option, List, [], ◌∷◌, if◌then◌else◌}
use kim_llm_serving.Gateway.Metrics.{Metrics, count_drain_timeout}
use kim_llm_serving.Gateway.Decoder.{Text}
use kim_llm_serving.Gateway.Buffer.{abandon}
use kim_llm_serving.Gateway.Session.{
  Session, Cancelling, returns, waits_for_lock, waits_for_client, begin_cancel, end_cancel,
}
use kim_llm_serving.Gateway.Session.Run.{
  Op, pumps, begins_cancel, ends_cancel, gets, abandons, step,
}

-- Where the task is: before the lock of `cancel`, in the client's `cancel`, in the wait for `_done`,
-- before `abandon`, or at its end. The last two know what `cancel_and_drain` returned.
pub data Stage : Type 0 where
  asks awaits_client awaits_done : Stage
  abandons_next ended : (drained : Bool) → Stage

pub record Drain : Type 0 where
  pub session : Session
  pub metrics : Metrics
  pub stage : Stage

-- A step of another task; or this one wakes up, its call of the client is answered, or its wait for
-- `_done` times out.
pub data Act : Type 0 where
  others : Op → Act
  wakes times_out : Act
  answers : Option Bool → Act

-- `_cancel_lock` is this task's while it awaits the client: no other task's cancellation ends then.
unfoldable pub holds_lock : Stage → Op → Bool
holds_lock awaits_client (ends_cancel result) = true
holds_lock awaits_client (pumps e) = false
holds_lock awaits_client (begins_cancel reason) = false
holds_lock awaits_client gets = false
holds_lock awaits_client abandons = false
holds_lock asks o = false
holds_lock awaits_done o = false
holds_lock (abandons_next drained) o = false
holds_lock (ended drained) o = false

abbrev asked : Cancelling → Stage
asked waits_for_lock = asks
asked waits_for_client = awaits_client
asked (returns sent) = awaits_done

unfoldable pub wake : Drain → String → Stage → Drain
unfolding begin_cancel abandon
wake d reason asks =
    let (s, c) = begin_cancel d.session reason in record d { session = s; stage = asked c }
wake d reason awaits_client = d
wake d reason awaits_done = if d.session.done then record d { stage = abandons_next true } else d
wake d reason (abandons_next drained) =
    let (b, m) = abandon d.session.buffer d.metrics in
    record { session = record d.session { buffer = b }; metrics = m; stage = ended drained }
wake d reason (ended drained) = d

unfoldable pub time_out : Drain → Stage → Drain
time_out d awaits_done = record d {
  metrics = count_drain_timeout d.metrics;
  stage = abandons_next false;
}
time_out d asks = d
time_out d awaits_client = d
time_out d (abandons_next drained) = d
time_out d (ended drained) = d

unfoldable pub answer : Drain → Option Bool → Stage → Drain
unfolding end_cancel
answer d result awaits_client =
    let (s, m) = end_cancel d.session d.metrics result in
    record { session = s; metrics = m; stage = awaits_done }
answer d result asks = d
answer d result awaits_done = d
answer d result (abandons_next drained) = d
answer d result (ended drained) = d

module _ (decode : List ℕ → Option Text) (decode_error : List ℕ → String) where
  unfoldable pub act : String → Drain → Act → Drain
  unfolding holds_lock wake time_out answer
  act reason d (others o) =
      let e = step decode decode_error d.session d.metrics o in
      if holds_lock d.stage o then d else record d { session = e.session; metrics = e.metrics }
  act reason d wakes = wake d reason d.stage
  act reason d times_out = time_out d d.stage
  act reason d (answers result) = answer d result d.stage

  unfoldable pub acts : String → Drain → List Act → Drain
  unfolding act
  acts reason d [] = d
  acts reason d (a ∷ rest) = acts reason (act reason d a) rest
