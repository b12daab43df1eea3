-- ===== src/Gateway/Session/Run/Handed.antt =====
-- From the texts that a session's buffer takes in to those that its consumer is handed.
use kim_llm_serving.Prelude.{
  ℕ, ◌≡◌, refl, ap, ◌∙◌, String, false, Option, List, [], ◌∷◌, ◌++◌, arith, if_cases, append-nil,
}
use kim_llm_serving.Protocol.{delta, end}
use kim_llm_serving.Gateway.Metrics.{Metrics}
use kim_llm_serving.Gateway.Decoder.{Text, Decoder, Appended, text, decode_failed, changed_text}
use kim_llm_serving.Gateway.Buffer.{GatewayTerminal, put_delta, put_terminal}
use kim_llm_serving.Gateway.Session.{
  Session, PumpResult, new_session, NextEvent, event, no_event, raised, begin_cancel, end_cancel,
  finish, finish_pump, fail_pump, put_text, pump_appended, pump_delta, pump,
}
use kim_llm_serving.Gateway.Session.Run.{
  Op, Effect, pumps, begins_cancel, ends_cancel, gets, abandons, added, step, run,
}
use kim_llm_serving.Gateway.Session.Run.Texts.{joined, drop-length, run-Grows}
use kim_llm_serving.Gateway.Session.Run.Passes.{
  texts_of, joined-passed, IsShut, Passes, Passes-trans, same-Passes, put_delta-Passes, get-Passes,
  abandon-Passes,
}

module _ (decode : List ℕ → Option Text) (decode_error : List ℕ → String) where
  -- What the pump may do to the buffer.
  abbrev PumpPasses : Session → Session × Metrics × PumpResult → Type 0
  PumpPasses s r = Passes s.buffer r.0.buffer (added s r.0) []

  put_text-Passes :
      (s : Session) (d : Decoder) (m : Metrics) (t : Text)
      → IsShut s.buffer
      → PumpPasses s (put_text decode decode_error (record s { decoder = d }) m t)
  unfolding put_text
  put_text-Passes s d m [] shut =
      same-Passes s.buffer s.buffer _ shut (drop-length s.buffer.deltas) refl refl
  put_text-Passes s d m (c ∷ cs) shut =
      if_cases (PumpPasses s) (put_delta s.buffer m (c ∷ cs)).2
        (λ _. put_delta-Passes s.buffer m (c ∷ cs) shut)
        (λ _. put_delta-Passes s.buffer m (c ∷ cs) shut)

  appended-Passes :
      (s : Session) (d : Decoder) (m : Metrics) (r : Appended)
      → IsShut s.buffer
      → PumpPasses s (pump_appended decode decode_error (record s { decoder = d }) m r)
  unfolding pump_appended
  appended-Passes s d m (text t) shut = put_text-Passes s d m t shut
  appended-Passes s d m decode_failed shut =
      same-Passes s.buffer s.buffer _ shut (drop-length s.buffer.deltas) refl refl
  appended-Passes s d m changed_text shut =
      same-Passes s.buffer s.buffer _ shut (drop-length s.buffer.deltas) refl refl

  finish_pump-Passes :
      (s : Session) (m : Metrics) (t : GatewayTerminal)
      → IsShut s.buffer
      → PumpPasses s (finish_pump s m t)
  unfolding finish_pump finish put_terminal
  finish_pump-Passes s m t shut =
      same-Passes s.buffer _ _ shut (ground (arith, drop-length s.buffer.deltas)) (ground arith)
        (ground arith)

  fail_pump-Passes :
      (s : Session) (m : Metrics) (t : GatewayTerminal)
      → IsShut s.buffer
      → PumpPasses s (fail_pump s m t)
  unfolding fail_pump finish put_terminal
  fail_pump-Passes s m t shut =
      same-Passes s.buffer _ _ shut (ground (arith, drop-length s.buffer.deltas)) (ground arith)
        (ground arith)

  pump-Passes :
      (s : Session) (m : Metrics) (e : NextEvent)
      → IsShut s.buffer
      → PumpPasses s (pump decode decode_error s m e)
  unfolding pump pump_delta
  pump-Passes s m (event (delta d)) shut =
      if_cases (PumpPasses s) s.dropping_deltas
        (λ _. same-Passes s.buffer s.buffer _ shut (drop-length s.buffer.deltas) refl refl)
        (λ _. appended-Passes s _ m _ shut)
  pump-Passes s m (event (end t)) shut = finish_pump-Passes s m _ shut
  pump-Passes s m no_event shut = fail_pump-Passes s m _ shut
  pump-Passes s m (raised u message) shut = fail_pump-Passes s m _ shut

  abbrev StepPasses : Session → Effect → Type 0
  StepPasses s r = Passes s.buffer r.session.buffer r.taken r.handed

  step-Passes :
      (s : Session) (m : Metrics) (o : Op)
      → IsShut s.buffer
      → StepPasses s (step decode decode_error s m o)
  unfolding step begin_cancel end_cancel
  step-Passes s m (pumps e) shut =
      if_cases (StepPasses s) s.done (λ _. same-Passes s.buffer s.buffer [] shut refl refl refl)
        (λ _. pump-Passes s m e shut)
  step-Passes s m (begins_cancel reason) shut =
      same-Passes s.buffer _ [] shut refl (ground arith) (ground arith)
  step-Passes s m (ends_cancel result) shut =
      same-Passes s.buffer _ [] shut refl (ground arith) (ground arith)
  step-Passes s m gets shut = get-Passes s.buffer m shut
  step-Passes s m abandons shut = abandon-Passes s.buffer m shut

  run-Passes :
      (s : Session) (m : Metrics) (os : List Op)
      → IsShut s.buffer
      → StepPasses s (run decode decode_error s m os)
  unfolding run
  run-Passes s m [] shut = same-Passes s.buffer s.buffer [] shut refl refl refl
  run-Passes s m (o ∷ os) shut =
      let r = step decode decode_error s m o in
      let first = step-Passes s m o shut in
      Passes-trans s.buffer r.session.buffer _ r.taken _ r.handed _ first
        (run-Passes r.session r.metrics os first.shut)

  -- Whatever the tasks of a new session do, in any order: the texts that its consumer was handed are,
  -- put together, a prefix of the text that the decoder decoded, so no piece is left out before a
  -- later one; and if nothing is dropped and the session was not abandoned, then the rest of that
  -- text is what still waits in the buffer.
  pub session_texts_in_order :
      (n : ℕ) (m : Metrics) (os : List Op)
      → let r = run decode decode_error (new_session n) m os in
        (unseen : Text) × (r.session.decoder.decoded ≡ joined (texts_of r.handed) ++ unseen)
        × (r.session.dropping_deltas ≡ false
            → r.session.buffer.abandoned ≡ false
            → unseen ≡ joined r.session.buffer.deltas)
  session_texts_in_order n m os =
      let r = run decode decode_error (new_session n) m os in
      let p = run-Passes (new_session n) m os (λ _. refl) in
      let g = run-Grows decode decode_error (new_session n) m os in
      (
        joined p.gone ++ (joined r.session.buffer.deltas ++ g.lost),
        g.decoded
            ∙ ap (λ ts. joined ts ++ g.lost) p.fifo
            ∙ joined-passed (texts_of r.handed) p.gone r.session.buffer.deltas g.lost,
        λ keeping unshut.
            ground
              (arith, p.kept unshut, g.kept keeping, append-nil (joined r.session.buffer.deltas)),
      )
