-- ===== src/Gateway/Session/Run/Texts.antt =====
-- What text of a request a session's consumer sees: no piece is left out before a later one.
use kim_llm_serving.Prelude.{
  ℕ, ◌≡◌, refl, sym, ap, ◌∙◌, String, true, false, Option, none, some, List, [], ◌∷◌, ◌++◌, arith,
  length, drop, if_cases, Bool-cases, inl, inr, append_assoc, append-nil, drop-append_length,
}
use kim_llm_serving.Protocol.{delta, end}
use kim_llm_serving.Gateway.Metrics.{Metrics}
use kim_llm_serving.Gateway.Decoder.{
  Text, Decoder, Appended, text, decode_failed, changed_text, starts_with, emit, append,
}
use kim_llm_serving.Gateway.Decoder.Whole.{starts_with-drop}
use kim_llm_serving.Gateway.Buffer.{AsyncEventBuffer, GatewayTerminal, put_delta, put_terminal}
use kim_llm_serving.Gateway.Session.{
  Session, PumpResult, NextEvent, event, no_event, raised, begin_cancel, end_cancel, finish,
  finish_pump, fail_pump, put_text, pump_appended, pump_delta, pump,
}
use kim_llm_serving.Gateway.Session.Run.{
  Op, Effect, pumps, begins_cancel, ends_cancel, gets, abandons, added, step, run,
}

abbrev pub joined : List Text → Text
joined [] = []
joined (t ∷ ts) = t ++ joined ts

pub joined-append : (ts us : List Text) → joined (ts ++ us) ≡ joined ts ++ joined us
joined-append [] us = refl
joined-append (t ∷ ts) us =
    ground (arith, joined-append ts us, append_assoc t (joined ts) (joined us))

pub drop-length : (ts : List Text) → drop (length ts) ts ≡ []
drop-length [] = refl
drop-length (t ∷ ts) = ground (arith, drop-length ts)

-- From `s` to `s'` the decoded text grew by the texts that the buffer took in and by `lost`, which
-- is nothing unless the session drops what follows.
pub record Grows (s s' : Session) (taken : List Text) : Type 0 where
  pub lost : Text
  pub decoded : s'.decoder.decoded ≡ s.decoder.decoded ++ (joined taken ++ lost)
  pub kept : s'.dropping_deltas ≡ false → lost ≡ []
  dropped : s.dropping_deltas ≡ true → (taken ≡ []) × (lost ≡ []) × (s'.dropping_deltas ≡ true)

-- A step that does not touch the decoder, drops as before and takes nothing in.
same-Grows :
    (s s' : Session) (taken : List Text)
    → taken ≡ []
    → s'.decoder.decoded ≡ s.decoder.decoded
    → s'.dropping_deltas ≡ s.dropping_deltas
    → Grows s s' taken
same-Grows s s' taken nothing same dropping = record {
  lost = [];
  decoded = same ∙ ground (arith, nothing, append-nil s.decoder.decoded);
  kept = λ _. refl;
  dropped = λ h. (nothing, refl, dropping ∙ h);
}

kept-Grows :
    (s s' : Session) (taken : List Text)
    → s.dropping_deltas ≡ false
    → s'.decoder.decoded ≡ s.decoder.decoded ++ joined taken
    → Grows s s' taken
kept-Grows s s' taken keeping grown = record {
  lost = [];
  decoded = grown ∙ ap (λ x. s.decoder.decoded ++ x) (sym (append-nil (joined taken)));
  kept = λ _. refl;
  dropped = λ h. absurd (cc);
}

-- A step that refuses the text `t`.
lost-Grows :
    (s s' : Session) (taken : List Text) (t : Text)
    → s.dropping_deltas ≡ false
    → taken ≡ []
    → s'.dropping_deltas ≡ true
    → s'.decoder.decoded ≡ s.decoder.decoded ++ t
    → Grows s s' taken
lost-Grows s s' taken t keeping nothing dropping grown = record {
  lost = t;
  decoded = grown ∙ ap (λ x. s.decoder.decoded ++ (joined x ++ t)) (sym nothing);
  kept = λ h. absurd (cc);
  dropped = λ h. absurd (cc);
}

Grows-trans :
    (s s' s'' : Session) (taken later : List Text)
    → Grows s s' taken
    → Grows s' s'' later
    → Grows s s'' (taken ++ later)
Grows-trans s s' s'' taken later g h = elim (Bool-cases s'.dropping_deltas) [
  | inl dropping ↦
      let (nothing, none_lost, still) = h.dropped dropping in
      record {
        lost = g.lost;
        decoded = ground (
          arith,
          g.decoded,
          h.decoded,
          nothing,
          none_lost,
          append-nil taken,
          append-nil (s.decoder.decoded ++ (joined taken ++ g.lost)),
        );
        kept = λ e. absurd (cc);
        dropped = λ e. ground (arith, g.dropped e, nothing, still, append-nil taken);
      }
  | inr keeping ↦ record {
    lost = h.lost;
    decoded = ground (
      arith,
      g.decoded,
      h.decoded,
      g.kept keeping,
      joined-append taken later,
      append-nil (joined taken),
      append_assoc (joined taken) (joined later) h.lost,
      append_assoc s.decoder.decoded (joined taken) (joined later ++ h.lost),
    );
    kept = h.kept;
    dropped = λ e. absurd (ground (arith, g.dropped e));
  }
]

put_delta-added :
    (b : AsyncEventBuffer) (m : Metrics) (t : Text)
    → let (b', m', done) = put_delta b m t in
      (done ≡ true → drop (length b.deltas) b'.deltas ≡ t ∷ [])
      × (done ≡ false → drop (length b.deltas) b'.deltas ≡ [])
unfolding put_delta
put_delta-added b m t = ground (arith, drop-append_length b.deltas (t ∷ []), drop-length b.deltas)

finish_pump-Grows :
    (s : Session) (m : Metrics) (t : GatewayTerminal)
    → let s' = (finish_pump s m t).0 in Grows s s' (added s s')
unfolding finish_pump finish put_terminal
finish_pump-Grows s m t =
    same-Grows s _ _ (ground (arith, drop-length s.buffer.deltas)) (ground arith) (ground arith)

fail_pump-Grows :
    (s : Session) (m : Metrics) (t : GatewayTerminal)
    → let s' = (fail_pump s m t).0 in Grows s s' (added s s')
unfolding fail_pump finish put_terminal
fail_pump-Grows s m t =
    same-Grows s _ _ (ground (arith, drop-length s.buffer.deltas)) (ground arith) (ground arith)

-- How the decoder's text grows with what `append` returns.
abbrev Emits : Text → Text → Appended → Type 0
Emits old new (text t) = new ≡ old ++ t
Emits old new decode_failed = new ≡ old
Emits old new changed_text = new ≡ old

emit-Emits : (d : Decoder) (o : Option Text) → Emits d.decoded (emit d o).0.decoded (emit d o).1
unfolding emit
emit-Emits d none = refl
emit-Emits d (some all) =
    if_cases (λ (r : Decoder × Appended). Emits d.decoded r.0.decoded r.1)
      (starts_with all d.decoded) (λ prefix. starts_with-drop all d.decoded prefix) (λ _. refl)

module _ (decode : List ℕ → Option Text) (decode_error : List ℕ → String) where
  put_text-Grows :
      (s : Session) (d : Decoder) (m : Metrics) (t : Text)
      → s.dropping_deltas ≡ false
      → d.decoded ≡ s.decoder.decoded ++ t
      → let s' = (put_text decode decode_error (record s { decoder = d }) m t).0 in
        Grows s s' (added s s')
  unfolding put_text
  put_text-Grows s d m [] keeping grown =
      kept-Grows s _ _ keeping (ground (arith, grown, drop-length s.buffer.deltas))
  put_text-Grows s d m (c ∷ cs) keeping grown =
      let (taken, refused) = put_delta-added s.buffer m (c ∷ cs) in
      if_cases (λ (r : Session × Metrics × PumpResult). Grows s r.0 (added s r.0))
        (put_delta s.buffer m (c ∷ cs)).2
        (λ yes. kept-Grows s _ _ keeping (ground (arith, grown, taken yes, append-nil (c ∷ cs))))
        (λ no. lost-Grows s _ _ (c ∷ cs) keeping (refused no) refl grown)

  appended-Grows :
      (s : Session) (d : Decoder) (m : Metrics) (r : Appended)
      → s.dropping_deltas ≡ false
      → Emits s.decoder.decoded d.decoded r
      → let s' = (pump_appended decode decode_error (record s { decoder = d }) m r).0 in
        Grows s s' (added s s')
  unfolding pump_appended
  appended-Grows s d m (text t) keeping grown = put_text-Grows s d m t keeping grown
  appended-Grows s d m decode_failed keeping same =
      lost-Grows s _ _ [] keeping (drop-length s.buffer.deltas) refl
        (same ∙ sym (append-nil s.decoder.decoded))
  appended-Grows s d m changed_text keeping same =
      lost-Grows s _ _ [] keeping (drop-length s.buffer.deltas) refl
        (same ∙ sym (append-nil s.decoder.decoded))

  pump-Grows :
      (s : Session) (m : Metrics) (e : NextEvent)
      → let s' = (pump decode decode_error s m e).0 in Grows s s' (added s s')
  unfolding pump pump_delta append
  pump-Grows s m (event (delta d)) =
      if_cases (λ (r : Session × Metrics × PumpResult). Grows s r.0 (added s r.0)) s.dropping_deltas
        (λ dropping. same-Grows s s _ (drop-length s.buffer.deltas) refl refl)
        (λ keeping. appended-Grows s _ m _ keeping (
          emit-Emits (record s.decoder { tokens = s.decoder.tokens ++ d.token_ids })
            (decode (s.decoder.tokens ++ d.token_ids))))
  pump-Grows s m (event (end t)) = finish_pump-Grows s m _
  pump-Grows s m no_event = fail_pump-Grows s m _
  pump-Grows s m (raised u message) = fail_pump-Grows s m _

  step-Grows :
      (s : Session) (m : Metrics) (o : Op)
      → let r = step decode decode_error s m o in Grows s r.session r.taken
  unfolding step begin_cancel end_cancel
  step-Grows s m (pumps e) =
      if_cases (λ (r : Effect). Grows s r.session r.taken) s.done
        (λ _. same-Grows s s [] refl refl refl) (λ _. pump-Grows s m e)
  step-Grows s m (begins_cancel reason) = same-Grows s _ [] refl (ground arith) (ground arith)
  step-Grows s m (ends_cancel result) = same-Grows s _ [] refl (ground arith) (ground arith)
  step-Grows s m gets = same-Grows s _ [] refl refl refl
  step-Grows s m abandons = same-Grows s _ [] refl refl refl

  pub run-Grows :
      (s : Session) (m : Metrics) (os : List Op)
      → let r = run decode decode_error s m os in Grows s r.session r.taken
  unfolding run
  run-Grows s m [] = same-Grows s s [] refl refl refl
  run-Grows s m (o ∷ os) =
      let r = step decode decode_error s m o in
      Grows-trans s r.session _ r.taken _ (step-Grows s m o) (run-Grows r.session r.metrics os)
