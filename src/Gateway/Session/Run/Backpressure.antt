-- ===== src/Gateway/Session/Run/Backpressure.antt =====
-- What becomes of a request whose consumer is too slow (`GatewaySession._pump` of
-- gateway/python/kim_llm_gateway/runtime.py).
use kim_llm_serving.Prelude.{
  ℕ, zero, suc, ◌≤◌, ◌≡◌, ap, ◌∙◌, append-nil, String, Bool, false, Option, none, some, List, [],
  ◌∷◌, ◌++◌, map, arith, length,
}
use kim_llm_serving.Protocol.{TokenDelta, Terminal, delta, end}
use kim_llm_serving.Gateway.Metrics.{Metrics}
use kim_llm_serving.Gateway.Decoder.{Text, text, append}
use kim_llm_serving.Gateway.Buffer.{
  GatewayTerminal, text_delta, terminal_event, put_delta, put_terminal, get, take_first,
  take_terminal,
}
use kim_llm_serving.Gateway.Session.{
  Session, event, begin_cancel, end_cancel, finish, finish_pump, terminal_of, put_text,
  pump_appended, pump_delta, pump,
}
use kim_llm_serving.Gateway.Session.Run.{Op, pumps, begins_cancel, ends_cancel, gets, step, run}
use kim_llm_serving.Gateway.Session.Run.Texts.{drop-length}

-- The consumer asks for `n` events.
abbrev pub reads : ℕ → List Op
reads zero = []
reads (suc n) = gets ∷ reads n

module _ (decode : List ℕ → Option Text) (decode_error : List ℕ → String) where
  -- The texts and the terminal wait in the buffer.
  record Waits (s : Session) (ds : List Text) (t : GatewayTerminal) : Type 0 where
    deltas : s.buffer.deltas ≡ ds
    terminal : s.buffer.terminal ≡ some t
    undelivered : s.buffer.terminal_delivered ≡ false

  gets-Waits :
      (s : Session) (m : Metrics) (d : Text) (ds : List Text) (t : GatewayTerminal)
      → Waits s (d ∷ ds) t
      → let e = step decode decode_error s m gets in
        (e.handed ≡ text_delta d ∷ []) × Waits e.session ds t
  unfolding step get take_first
  gets-Waits s m d ds t w = ground arith

  gets-terminal :
      (s : Session) (m : Metrics) (t : GatewayTerminal)
      → Waits s [] t
      → (step decode decode_error s m gets).handed ≡ terminal_event t ∷ []
  unfolding step get take_first take_terminal
  gets-terminal s m t w = ground arith

  waiting-handed :
      (s : Session) (m : Metrics) (ds : List Text) (t : GatewayTerminal)
      → Waits s ds t
      → (run decode decode_error s m (reads (suc (length ds)))).handed
        ≡ map text_delta ds ++ terminal_event t ∷ []
  unfolding run
  waiting-handed s m [] t w = append-nil _ ∙ gets-terminal s m t w
  waiting-handed s m (d ∷ ds) t w =
      let (first, after) = gets-Waits s m d ds t w in
      let e = step decode decode_error s m gets in
      ap
        (λ es. es ++ (run decode decode_error e.session e.metrics (reads (suc (length ds)))).handed)
        first
      ∙ ap (λ es. text_delta d ∷ es) (waiting-handed e.session e.metrics ds t after)

  -- What the pump leaves: the buffer's texts, and the Worker's terminal.
  lost-kept :
      (s : Session) (m : Metrics) (d : TokenDelta) (sent : Option Bool) (t : Terminal) (c : ℕ)
      (cs : Text)
      → s.done ≡ false
      → s.dropping_deltas ≡ false
      → s.local_failure ≡ none
      → s.buffer.terminal ≡ none
      → s.buffer.terminal_delivered ≡ false
      → s.buffer.max_delta_events ≤ length s.buffer.deltas
      → (append decode s.decoder d.token_ids).1 ≡ text (c ∷ cs)
      → let os =
          pumps (event (delta d))
          ∷ begins_cancel "sse_backpressure"
          ∷ ends_cancel sent
          ∷ pumps (event (end t))
          ∷ [] in
        let r = run decode decode_error s m os in
        (r.taken ≡ [])
        × (r.session.buffer.deltas ≡ s.buffer.deltas)
        × (r.session.buffer.terminal
            ≡ some (record { status = t.status; finish_reason = t.finish_reason; usage = t.usage }))
        × (r.session.buffer.terminal_delivered ≡ false)
  unfolding run step pump pump_delta pump_appended put_text put_delta begin_cancel end_cancel
      finish_pump finish put_terminal terminal_of
  lost-kept s m d sent t c cs going keeping unfailed unended undelivered full decoded =
      ground (arith, drop-length s.buffer.deltas)

  -- In a session that is not done, drops nothing, and has no local failure and no terminal in its
  -- buffer or handed out, a text finds the buffer full; the pump asks the client to cancel, whatever comes of that,
  -- and directly after that the Worker's Terminal arrives. The text is lost, and the consumer, which
  -- reads on, is handed the texts that waited before it and then a terminal event with the Worker's
  -- status and finish reason unchanged, "ok" and "stop" included.
  pub backpressure_keeps_status :
      (s : Session) (m : Metrics) (d : TokenDelta) (sent : Option Bool) (t : Terminal) (c : ℕ)
      (cs : Text)
      → s.done ≡ false
      → s.dropping_deltas ≡ false
      → s.local_failure ≡ none
      → s.buffer.terminal ≡ none
      → s.buffer.terminal_delivered ≡ false
      → s.buffer.max_delta_events ≤ length s.buffer.deltas
      → (append decode s.decoder d.token_ids).1 ≡ text (c ∷ cs)
      → let os =
          pumps (event (delta d))
          ∷ begins_cancel "sse_backpressure"
          ∷ ends_cancel sent
          ∷ pumps (event (end t))
          ∷ [] in
        let r = run decode decode_error s m os in
        let read =
          run decode decode_error r.session r.metrics (reads (suc (length s.buffer.deltas))) in
        (r.taken ≡ [])
        × (read.handed
            ≡ map text_delta s.buffer.deltas
              ++ terminal_event
                  (record { status = t.status; finish_reason = t.finish_reason; usage = t.usage })
                ∷ [])
  backpressure_keeps_status s m d sent t c cs going keeping unfailed unended undelivered full
        decoded =
      let (lost, kept, terminal, waits) =
        lost-kept s m d sent t c cs going keeping unfailed unended undelivered full decoded in
      (
        lost,
        waiting-handed _ _ s.buffer.deltas _
            (record { deltas = kept; terminal = terminal; undelivered = waits }),
      )
