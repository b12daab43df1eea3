-- ===== src/Gateway/Session/Run.antt =====
-- One `GatewaySession` under any sequence of its tasks' steps: the pump's turns, the cancellations
-- that any task asks for, and the consumer's `next_event` and `abandon`.
pub mod Ends
pub mod Texts
pub mod Passes
pub mod Handed
pub mod Backpressure
use kim_llm_serving.Prelude.{
  ℕ, String, Bool, true, false, Option, none, some, List, [], ◌∷◌, ◌++◌, length, drop,
  if◌then◌else◌,
}
use kim_llm_serving.Gateway.Metrics.{Metrics}
use kim_llm_serving.Gateway.Decoder.{Text}
use kim_llm_serving.Gateway.Buffer.{GatewayEvent, get, abandon}
use kim_llm_serving.Gateway.Buffer.Stream.{handed_of}
use kim_llm_serving.Gateway.Session.{Session, begin_cancel, end_cancel, NextEvent, pump}

-- `pumps e`: the pump's turn with what the client's `next_event` does; once the pump has returned
-- it takes no more turns.
pub data Op : Type 0 where
  pumps : NextEvent → Op
  begins_cancel : String → Op
  ends_cancel : Option Bool → Op
  gets abandons : Op

-- The session and the metrics after one step, the texts that the buffer took in, and the events that
-- the consumer was handed.
pub record Effect : Type 0 where
  pub session : Session
  pub metrics : Metrics
  pub taken : List Text
  pub handed : List GatewayEvent

-- What stands in `s'`s buffer after what stands in `s`'s.
abbrev pub added : Session → Session → List Text
added s s' = drop (length s.buffer.deltas) s'.buffer.deltas

module _ (decode : List ℕ → Option Text) (decode_error : List ℕ → String) where
  unfoldable pub step : Session → Metrics → Op → Effect
  step s m (pumps e) =
      if s.done
      then record { session = s; metrics = m; taken = []; handed = [] }
      else let (s', m', r) = pump decode decode_error s m e in
        record { session = s'; metrics = m'; taken = added s s'; handed = [] }
  step s m (begins_cancel reason) = record {
    session = (begin_cancel s reason).0;
    metrics = m;
    taken = [];
    handed = [];
  }
  step s m (ends_cancel result) =
      let (s', m') = end_cancel s m result in
      record { session = s'; metrics = m'; taken = []; handed = [] }
  step s m gets =
      let (b, m', got) = get s.buffer m in
      record { session = record s { buffer = b }; metrics = m'; taken = []; handed = handed_of got }
  step s m abandons =
      let (b, m') = abandon s.buffer m in
      record { session = record s { buffer = b }; metrics = m'; taken = []; handed = [] }

  unfoldable pub run : Session → Metrics → List Op → Effect
  run s m [] = record { session = s; metrics = m; taken = []; handed = [] }
  run s m (o ∷ os) =
      let first = step s m o in
      let rest = run first.session first.metrics os in
      record {
        session = rest.session;
        metrics = rest.metrics;
        taken = first.taken ++ rest.taken;
        handed = first.handed ++ rest.handed;
      }
