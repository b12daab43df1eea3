-- ===== src/Gateway/Http/Serving/Whole.antt =====
-- What a client of POST /v1/chat/completions with stream=true is sent of the text that the session
-- decodes.
use mathlib.Core.Path.{subst}
use kim_llm_serving.Prelude.{
  ℕ, ◌≡◌, refl, sym, ap, ◌∙◌, String, true, false, ◌||◌, Option, List, [], ◌∷◌, ◌++◌, arith,
  if_cases, append_assoc, append-nil,
}
use kim_llm_serving.Gateway.Metrics.{Metrics}
use kim_llm_serving.Gateway.Decoder.{Text}
use kim_llm_serving.Gateway.Buffer.{
  GatewayEvent, text_delta, terminal_event, Got, event, blocked, stop, get, take_first,
  take_terminal, abandon,
}
use kim_llm_serving.Gateway.Buffer.Stream.{handed_of}
use kim_llm_serving.Gateway.Session.{Session, new_session, begin_cancel, end_cancel}
use kim_llm_serving.Gateway.Session.Run
use kim_llm_serving.Gateway.Session.Run.Ends.{Agrees, run-Agrees}
use kim_llm_serving.Gateway.Session.Run.Texts.{joined}
use kim_llm_serving.Gateway.Session.Run.Passes.{texts_of}
use kim_llm_serving.Gateway.Session.Run.Handed.{session_texts_in_order}
use kim_llm_serving.Gateway.Http.{Poll, disconnected, cancelled}
use kim_llm_serving.Gateway.Http.Stream.{Context, awaits, role_chunk}
use kim_llm_serving.Gateway.Http.Framing.{
  Trace, Act, polls, advances, closes, step, event_of, has_end, all_chunks, IsFramed, new-IsFramed,
  awaits_iff, is_ended, step-IsFramed,
}
use kim_llm_serving.Gateway.Http.Serving.{
  Task, pumps, begins_cancel, ends_cancel, abandons, session_op, poll_of, Op, task, polls_session,
  acts_disconnected, acts_cancelled, acts_advance, acts_close, Serving, new_serving, serve,
  serve_all,
}

-- The session's terminal event has been handed out, so nothing is left in its buffer.
record IsOver (s : Session) : Type 0 where
  done : s.done ≡ true
  empty : s.buffer.deltas ≡ []

module _ (decode : List ℕ → Option Text) (decode_error : List ℕ → String) where
  task-IsOver :
      (s : Session) (m : Metrics) (o : Task)
      → IsOver s
      → IsOver (Run.step decode decode_error s m (session_op o)).session
  unfolding Run.step begin_cancel end_cancel abandon
  task-IsOver s m (pumps e) v = ground arith
  task-IsOver s m (begins_cancel reason) v = ground arith
  task-IsOver s m (ends_cancel result) v = ground arith
  task-IsOver s m abandons v = ground arith

  task-handed :
      (s : Session) (m : Metrics) (o : Task)
      → (Run.step decode decode_error s m (session_op o)).handed ≡ []
  unfolding Run.step
  task-handed s m (pumps e) = ground arith
  task-handed s m (begins_cancel reason) = refl
  task-handed s m (ends_cancel result) = refl
  task-handed s m abandons = refl

  -- Runs of a session, one after the other.
  run-append :
      (s : Session) (m : Metrics) (os : List Run.Op) (o : Run.Op)
      → let r = Run.run decode decode_error s m os in
        let e = Run.step decode decode_error r.session r.metrics o in
        let all = Run.run decode decode_error s m (os ++ o ∷ []) in
        (all.session ≡ e.session) × (all.metrics ≡ e.metrics) × (all.handed ≡ r.handed ++ e.handed)
  unfolding Run.run
  run-append s m [] o = (refl, refl, append-nil _)
  run-append s m (p ∷ os) o =
      let first = Run.step decode decode_error s m p in
      let (session, metrics, handed) = run-append first.session first.metrics os o in
      (
        session,
        metrics,
        ground (
          arith,
          handed,
          append_assoc first.handed
              (Run.run decode decode_error first.session first.metrics os).handed
              (Run.step decode decode_error
                (Run.run decode decode_error first.session first.metrics os).session
                (Run.run decode decode_error first.session first.metrics os).metrics o).handed,
        ),
      )

  get-IsOver :
      (s : Session) (m : Metrics)
      → Agrees s
      → let e = Run.step decode decode_error s m Run.gets in
        has_end e.handed ≡ true → IsOver e.session
  unfolding Run.step get take_first take_terminal
  get-IsOver s m a h = ground (arith, a.done)

has_end-append : (es fs : List GatewayEvent) → has_end (es ++ fs) ≡ (has_end es || has_end fs)
has_end-append [] fs = refl
has_end-append (text_delta t ∷ es) fs = has_end-append es fs
has_end-append (terminal_event t ∷ es) fs = refl

module _ {F : Type 0} (c : Context F) (decode : List ℕ → Option Text)
    (decode_error : List ℕ → String) where
  -- The session has run, and handed out what the generator got.
  record IsServed (n : ℕ) (m : Metrics) (v : Serving) : Type 0 where
    ops : List Run.Op
    session : (Run.run decode decode_error (new_session n) m ops).session ≡ v.session
    metrics : (Run.run decode decode_error (new_session n) m ops).metrics ≡ v.metrics
    handed : (Run.run decode decode_error (new_session n) m ops).handed ≡ v.trace.events
    over : has_end v.trace.events ≡ true → IsOver v.session
    framed : IsFramed c v.trace

  -- The session takes a step, of which the generator gets what it hands out.
  extend-IsServed :
      (n : ℕ) (m : Metrics) (v : Serving) (o : Run.Op) (t : Trace)
      → (w : IsServed n m v)
      → let e = Run.step decode decode_error v.session v.metrics o in
        t.events ≡ v.trace.events ++ e.handed
        → IsFramed c t
        → (has_end t.events ≡ true → IsOver e.session)
        → IsServed n m (record { session = e.session; metrics = e.metrics; trace = t })
  extend-IsServed n m v o t w more framed over =
      let (session, metrics, handed) = run-append decode decode_error (new_session n) m w.ops o in
      record {
        ops = w.ops ++ o ∷ [];
        session = ground (arith, session, w.session, w.metrics);
        metrics = ground (arith, metrics, w.session, w.metrics);
        handed = ground (arith, handed, w.session, w.metrics, w.handed, more);
        over = over;
        framed = framed;
      }

  -- Only the generator takes a step, and it gets nothing.
  act-IsServed :
      (n : ℕ) (m : Metrics) (v : Serving) (a : Act)
      → (step c v.trace a).events ≡ v.trace.events
      → IsServed n m v
      → IsServed n m (record v { trace = step c v.trace a })
  act-IsServed n m v a same w = record {
    ops = w.ops;
    session = w.session;
    metrics = w.metrics;
    handed = w.handed ∙ sym same;
    over = λ e. w.over (ap has_end (sym same) ∙ e);
    framed = step-IsFramed c v.trace a w.framed;
  }

  poll-events : (t : Trace) (p : Poll) → event_of p ≡ [] → (step c t (polls p)).events ≡ t.events
  unfolding step
  poll-events t p none_got = ground (arith, none_got, append-nil t.events)

  -- What a step of the session that hands nothing out leaves to the generator.
  task-IsServed :
      (n : ℕ) (m : Metrics) (v : Serving) (o : Task)
      → IsServed n m v
      → let e = Run.step decode decode_error v.session v.metrics (session_op o) in
        IsServed n m (record v { session = e.session; metrics = e.metrics })
  task-IsServed n m v o w =
      extend-IsServed n m v (session_op o) v.trace w
        (ground
          (arith, task-handed decode decode_error v.session v.metrics o, append-nil v.trace.events))
        w.framed (λ e. (task-IsOver decode decode_error v.session v.metrics o (w.over e)))

  event_of-poll_of : (g : Got) → event_of (poll_of g) ≡ handed_of g
  event_of-poll_of (event e) = refl
  event_of-poll_of blocked = refl
  event_of-poll_of stop = refl

  polled-events :
      (t : Trace) (g : Got)
      → awaits c t.streaming ≡ true
      → (step c t (polls (poll_of g))).events ≡ t.events ++ handed_of g
  unfolding step
  polled-events t g waits = ground (arith, event_of-poll_of g)

  polled-IsServed :
      (n : ℕ) (m : Metrics) (v : Serving)
      → awaits c v.trace.streaming ≡ true
      → IsServed n m v
      → let (b, m', g) = get v.session.buffer v.metrics in
        IsServed n m (record {
          session = record v.session { buffer = b };
          metrics = m';
          trace = step c v.trace (polls (poll_of g));
        })
  unfolding Run.step
  polled-IsServed n m v waits w =
      let g = (get v.session.buffer v.metrics).2 in
      let more = polled-events v.trace g waits in
      let (_, _, incomplete) = awaits_iff c v.trace.streaming waits in
      let agrees = subst Agrees w.session (run-Agrees decode decode_error n m w.ops) in
      extend-IsServed n m v Run.gets (step c v.trace (polls (poll_of g))) w more
        (step-IsFramed c v.trace (polls (poll_of g)) w.framed)
        λ e. get-IsOver decode decode_error v.session v.metrics agrees (
          ground (
            arith,
            w.framed.completed,
            has_end-append v.trace.events (handed_of g),
            ap has_end more,
          ))

  serve-IsServed :
      (n : ℕ) (m : Metrics) (v : Serving) (o : Op)
      → IsServed n m v
      → IsServed n m (serve c decode decode_error v o)
  unfolding serve step
  serve-IsServed n m v (task o) w = task-IsServed n m v o w
  serve-IsServed n m v polls_session w =
      if_cases (IsServed n m) (awaits c v.trace.streaming) (λ h. polled-IsServed n m v h w) (λ _. w)
  serve-IsServed n m v acts_disconnected w =
      act-IsServed n m v (polls disconnected) (poll-events v.trace disconnected refl) w
  serve-IsServed n m v acts_cancelled w =
      act-IsServed n m v (polls cancelled) (poll-events v.trace cancelled refl) w
  serve-IsServed n m v acts_advance w = act-IsServed n m v advances refl w
  serve-IsServed n m v acts_close w = act-IsServed n m v closes refl w

  serve_all-IsServed :
      (n : ℕ) (m : Metrics) (v : Serving) (os : List Op)
      → IsServed n m v
      → IsServed n m (serve_all c decode decode_error v os)
  unfolding serve_all
  serve_all-IsServed n m v [] w = w
  serve_all-IsServed n m v (o ∷ os) w =
      serve_all-IsServed n m (serve c decode decode_error v o) os (serve-IsServed n m v o w)

  new-IsServed : (n : ℕ) (m : Metrics) → IsServed n m (new_serving n m)
  unfolding Run.run
  new-IsServed n m = record {
    ops = [];
    session = refl;
    metrics = refl;
    handed = refl;
    over = λ e. absurd (cc);
    framed = new-IsFramed c;
  }

  -- However the session's tasks and the framework's requests for chunks interleave, from a new
  -- session: the texts of the events that the generator got are a prefix of the text that the decoder
  -- decoded, and what it has sent is a prefix of the role chunk and those events' chunks, nothing
  -- being left out before a later piece. When it has ended by itself with a terminal event and the
  -- session neither dropped a text nor was abandoned, then it has sent all of both.
  pub streamed_text_is_whole :
      (n : ℕ) (m : Metrics) (os : List Op)
      → let v = serve_all c decode decode_error (new_serving n m) os in
        (unseen : Text) × (rest : List String) × (v.session.decoder.decoded
          ≡ joined (texts_of v.trace.events) ++ unseen)
        × (role_chunk c ∷ all_chunks c v.trace.events ≡ v.trace.streaming.sent ++ rest)
        × (v.trace.streaming.completed ≡ true
            → is_ended v.trace.streaming.stage ≡ true
            → v.trace.closed ≡ false
            → v.session.dropping_deltas ≡ false
            → v.session.buffer.abandoned ≡ false
            → (unseen ≡ []) × (rest ≡ []))
  streamed_text_is_whole n m os =
      let v = serve_all c decode decode_error (new_serving n m) os in
      let w = serve_all-IsServed n m (new_serving n m) os (new-IsServed n m) in
      let (unseen, decoded, kept) = session_texts_in_order decode decode_error n m w.ops in
      (
        unseen,
        w.framed.rest,
        ground (arith, decoded, w.session, w.handed),
        w.framed.whole,
        λ done_all left unclosed keeping unshut. (
          ground (arith, kept, w.session, w.over, w.framed.completed),
          w.framed.returned done_all left unclosed,
        ),
      )
