-- ===== src/Gateway/Http/Serving.antt =====
-- One streamed chat completion: `_stream_chat_completion` of gateway/python/kim_llm_gateway/api.py
-- reads the session that the tasks of gateway/python/kim_llm_gateway/runtime.py fill.
pub mod Whole
pub mod Drained
use kim_llm_serving.Prelude.{
  ℕ, ◌≡◌, refl, String, Bool, true, false, Option, List, [], ◌∷◌, ◌++◌, if◌then◌else◌,
}
use kim_llm_serving.Gateway.Metrics.{Metrics}
use kim_llm_serving.Gateway.Decoder.{Text}
use kim_llm_serving.Gateway.Buffer.{Got, event, blocked, stop, get}
use kim_llm_serving.Gateway.Session.{Session, NextEvent, new_session}
use kim_llm_serving.Gateway.Session.Run
use kim_llm_serving.Gateway.Http.{Poll, disconnected, timed_out, failed, cancelled, got}
use kim_llm_serving.Gateway.Http.Stream.{Context, awaits}
use kim_llm_serving.Gateway.Http.Framing.{Trace, new_trace, Act, polls, advances, closes, step}

-- What another task does to the session: the pump, a cancellation, or the drain of a detached one.
pub data Task : Type 0 where
  pumps : NextEvent → Task
  begins_cancel : String → Task
  ends_cancel : Option Bool → Task
  abandons : Task

abbrev pub session_op : Task → Run.Op
session_op (pumps e) = Run.pumps e
session_op (begins_cancel reason) = Run.begins_cancel reason
session_op (ends_cancel result) = Run.ends_cancel result
session_op abandons = Run.abandons

-- `next_event` of the session: nothing there is a timeout, and the end of the iteration an exception.
abbrev pub poll_of : Got → Poll
poll_of (event e) = got e
poll_of blocked = timed_out
poll_of stop = failed

pub data Op : Type 0 where
  task : Task → Op
  polls_session : Op
  acts_disconnected acts_cancelled acts_advance acts_close : Op

pub record Serving : Type 0 where
  pub session : Session
  pub metrics : Metrics
  pub trace : Trace

abbrev pub new_serving : ℕ → Metrics → Serving
new_serving n m = record { session = new_session n; metrics = m; trace = new_trace }

module _ {F : Type 0} (c : Context F) (decode : List ℕ → Option Text)
    (decode_error : List ℕ → String) where
  abbrev act : Serving → Act → Serving
  act v a = record v { trace = step c v.trace a }

  -- The client is connected: a turn reads the session's buffer.
  abbrev poll_session : Serving → Serving
  poll_session v =
      let (b, m, g) = get v.session.buffer v.metrics in
      record {
        session = record v.session { buffer = b };
        metrics = m;
        trace = step c v.trace (polls (poll_of g));
      }

  unfoldable pub serve : Serving → Op → Serving
  serve v (task o) =
      let e = Run.step decode decode_error v.session v.metrics (session_op o) in
      record v { session = e.session; metrics = e.metrics }
  serve v polls_session = if awaits c v.trace.streaming then poll_session v else v
  serve v acts_disconnected = act v (polls disconnected)
  serve v acts_cancelled = act v (polls cancelled)
  serve v acts_advance = act v advances
  serve v acts_close = act v closes

  unfoldable pub serve_all : Serving → List Op → Serving
  serve_all v [] = v
  serve_all v (o ∷ os) = serve_all (serve v o) os
