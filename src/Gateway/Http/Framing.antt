-- ===== src/Gateway/Http/Framing.antt =====
-- What `_stream_chat_completion` of gateway/python/kim_llm_gateway/api.py sends, under any sequence of
-- turns, requests for the next chunk and closings.
use kim_llm_serving.Prelude.{
  ◌≡◌, refl, sym, ◌∙◌, String, Bool, true, false, not, ◌&&◌, ◌||◌, List, [], ◌∷◌, ◌++◌, arith,
  is_empty, if◌then◌else◌, if_cases, append_assoc, append-nil,
}
use kim_llm_serving.Stream.{IsStream}
use kim_llm_serving.Gateway.Buffer.{GatewayEvent, text_delta, terminal_event}
use kim_llm_serving.Gateway.Buffer.Stream.{is_end}
use kim_llm_serving.Gateway.Http.{Poll, disconnected, timed_out, failed, cancelled, got}
use kim_llm_serving.Gateway.Http.Stream.{
  Context, Stage, Streaming, new_streaming, unstarted, running, ended, leave, role_chunk,
  text_chunk, terminal_chunks, poll, advance, awaits, close,
}

pub data Act : Type 0 where
  advances closes : Act
  polls : Poll → Act

-- The generator, the events that it got, and whether it was closed.
pub record Trace : Type 0 where
  pub streaming : Streaming
  pub events : List GatewayEvent
  pub closed : Bool

abbrev pub new_trace : Trace
new_trace = record { streaming = new_streaming; events = []; closed = false }

abbrev pub event_of : Poll → List GatewayEvent
event_of (got e) = e ∷ []
event_of _ = []

-- The chunks for one event, and for all that a request's consumer gets.
abbrev pub chunks_of : {F : Type 0} → Context F → GatewayEvent → List String
chunks_of c (text_delta t) = text_chunk c t ∷ []
chunks_of c (terminal_event t) = terminal_chunks c t

abbrev pub all_chunks : {F : Type 0} → Context F → List GatewayEvent → List String
all_chunks c [] = []
all_chunks c (e ∷ es) = chunks_of c e ++ all_chunks c es

abbrev pub has_end : List GatewayEvent → Bool
has_end [] = false
has_end (e ∷ es) = is_end e || has_end es

abbrev pub is_running : Stage → Bool
is_running running = true
is_running _ = false

abbrev pub is_ended : Stage → Bool
is_ended ended = true
is_ended _ = false

module _ {F : Type 0} (c : Context F) where
  unfoldable pub step : Trace → Act → Trace
  step t advances = record t {
    streaming = advance c t.streaming t.streaming.stage t.streaming.queue;
  }
  step t closes = record t { streaming = close c t.streaming t.streaming.stage; closed = true }
  step t (polls p) =
      if awaits c t.streaming
      then record t { streaming = poll c t.streaming p; events = t.events ++ event_of p }
      else t

  unfoldable pub run : Trace → List Act → Trace
  run t [] = t
  run t (a ∷ acts) = run (step t a) acts

  all_chunks-append :
      (es fs : List GatewayEvent) → all_chunks c (es ++ fs) ≡ all_chunks c es ++ all_chunks c fs
  all_chunks-append [] fs = refl
  all_chunks-append (e ∷ es) fs = ground (
    arith,
    all_chunks-append es fs,
    append_assoc (chunks_of c e) (all_chunks c es) (all_chunks c fs),
  )

  -- What stands between the trace and the chunks of the events that it got.
  pub record IsFramed (t : Trace) : Type 0 where
    pub rest : List String
    pub whole : role_chunk c ∷ all_chunks c t.events ≡ t.streaming.sent ++ rest
    queued : is_running t.streaming.stage ≡ true → rest ≡ t.streaming.queue
    started : is_running t.streaming.stage ≡ true → is_empty t.streaming.sent ≡ false
    pub returned :
        t.streaming.completed ≡ true
        → is_ended t.streaming.stage ≡ true
        → t.closed ≡ false
        → rest ≡ []
    pub in_order : IsStream is_end t.events
    pub completed : t.streaming.completed ≡ has_end t.events
    pub detached : t.streaming.detached ≡ (
        if is_ended t.streaming.stage
          && (not t.streaming.completed && not (is_empty t.streaming.sent))
        then 1
        else 0)
    fresh :
        t.streaming.stage ≡ unstarted
        → (t.streaming.sent ≡ [])
          × (t.events ≡ [])
          × (t.streaming.completed ≡ false)
          × (t.streaming.detached ≡ 0)
          × (t.streaming.queue ≡ [])

  IsStream-append :
      (es : List GatewayEvent) (e : GatewayEvent)
      → IsStream is_end es
      → has_end es ≡ false
      → IsStream is_end (es ++ e ∷ []) × (has_end (es ++ e ∷ []) ≡ is_end e)
  IsStream-append [] (text_delta t) h n = (tt, refl)
  IsStream-append [] (terminal_event t) h n = (refl, refl)
  IsStream-append (text_delta t ∷ es) e h n = IsStream-append es e h n
  IsStream-append (terminal_event t ∷ es) e h n = absurd (cc)

  is_empty-append : (xs : List String) (x : String) → is_empty (xs ++ x ∷ []) ≡ false
  is_empty-append [] x = refl
  is_empty-append (y ∷ xs) x = refl

  leave-IsFramed :
      (t : Trace) (f : IsFramed t)
      → t.streaming.stage ≡ running
      → (t.streaming.completed ≡ true → t.closed ≡ false → f.rest ≡ [])
      → IsFramed (record t { streaming = leave t.streaming })
  unfolding leave
  leave-IsFramed t f hg nothing_left = record {
    rest = f.rest;
    whole = f.whole;
    queued = λ e. absurd (cc);
    started = λ e. absurd (cc);
    returned = λ e _ n. nothing_left e n;
    in_order = f.in_order;
    completed = f.completed;
    detached = ground (arith, f.detached, f.started);
    fresh = λ e. absurd (cc);
  }

  advance-IsFramed :
      (t : Trace) (g : Stage) (q : List String)
      → t.streaming.stage ≡ g
      → t.streaming.queue ≡ q
      → IsFramed t
      → IsFramed (record t { streaming = advance c t.streaming g q })
  unfolding advance leave
  advance-IsFramed t unstarted q hg hq f =
      let (unsent, none_got, incomplete, undetached, unqueued) = f.fresh hg in
      record {
        rest = [];
        whole = ground (arith, unsent, none_got);
        queued = λ _. sym unqueued;
        started = λ _. is_empty-append t.streaming.sent (role_chunk c);
        returned = λ _ _ _. refl;
        in_order = f.in_order;
        completed = f.completed;
        detached = undetached;
        fresh = λ e. absurd (cc);
      }
  advance-IsFramed t running (chunk ∷ q) hg hq f = record {
    rest = q;
    whole =
        ground
          (arith, f.whole, f.queued (ground arith), append_assoc t.streaming.sent (chunk ∷ []) q);
    queued = λ _. refl;
    started = λ _. is_empty-append t.streaming.sent chunk;
    returned = ground arith;
    in_order = f.in_order;
    completed = f.completed;
    detached = ground (arith, f.detached);
    fresh = λ e. absurd (cc);
  }
  advance-IsFramed t running [] hg hq f =
      if_cases (λ s. IsFramed (record t { streaming = s })) t.streaming.completed
        (λ e. leave-IsFramed t f hg (λ _ _. f.queued (ground arith) ∙ hq)) (λ e. f)
  advance-IsFramed t ended q hg hq f = f

  closed-IsFramed : (t : Trace) → IsFramed t → IsFramed (record t { closed = true })
  closed-IsFramed t f = record {
    rest = f.rest;
    whole = f.whole;
    queued = f.queued;
    started = f.started;
    returned = λ _ _ e. absurd (cc);
    in_order = f.in_order;
    completed = f.completed;
    detached = f.detached;
    fresh = f.fresh;
  }

  close-IsFramed :
      (t : Trace) (g : Stage)
      → t.streaming.stage ≡ g
      → IsFramed t
      → IsFramed (record t { streaming = close c t.streaming g; closed = true })
  unfolding close
  close-IsFramed t unstarted hg f =
      let (unsent, none_got, incomplete, undetached, unqueued) = f.fresh hg in
      record {
        rest = f.rest;
        whole = f.whole;
        queued = λ e. absurd (cc);
        started = λ e. absurd (cc);
        returned = λ _ _ e. absurd (cc);
        in_order = f.in_order;
        completed = f.completed;
        detached = ground (arith, unsent, undetached);
        fresh = λ e. absurd (cc);
      }
  close-IsFramed t running hg f =
      leave-IsFramed (record t { closed = true }) (closed-IsFramed t f) hg (λ _ e. absurd (cc))
  close-IsFramed t ended hg f = closed-IsFramed t f

  got-IsFramed :
      (t : Trace) (e : GatewayEvent) (b : Bool)
      → t.streaming.stage ≡ running
      → t.streaming.queue ≡ []
      → t.streaming.completed ≡ false
      → b ≡ is_end e
      → IsFramed t
      → IsFramed (record t {
        streaming = record t.streaming { queue = chunks_of c e; completed = b };
        events = t.events ++ e ∷ [];
      })
  got-IsFramed t e b hg hq hc last f =
      let (in_order, ends) = IsStream-append t.events e f.in_order (sym f.completed ∙ hc) in
      record {
        rest = chunks_of c e;
        whole = ground (
          arith,
          all_chunks-append t.events (e ∷ []),
          append-nil (chunks_of c e),
          append-nil t.streaming.sent,
          f.whole,
          f.queued (ground arith),
        );
        queued = λ _. refl;
        started = f.started;
        returned = λ _ g _. absurd (ground arith);
        in_order = in_order;
        completed = last ∙ sym ends;
        detached = ground (arith, f.detached);
        fresh = λ g. absurd (cc);
      }

  -- A turn without an event.
  left-IsFramed :
      (t : Trace)
      → t.streaming.stage ≡ running
      → t.streaming.completed ≡ false
      → IsFramed t
      → IsFramed (record t { streaming = leave t.streaming; events = t.events ++ [] })
  left-IsFramed t hg hc f = rw (append-nil t.events) (leave-IsFramed t f hg (λ e. absurd (cc)))

  poll-IsFramed :
      (t : Trace) (p : Poll)
      → t.streaming.stage ≡ running
      → t.streaming.queue ≡ []
      → t.streaming.completed ≡ false
      → IsFramed t
      → IsFramed (record t { streaming = poll c t.streaming p; events = t.events ++ event_of p })
  unfolding poll
  poll-IsFramed t disconnected hg hq hc f = left-IsFramed t hg hc f
  poll-IsFramed t timed_out hg hq hc f = rw (append-nil t.events) f
  poll-IsFramed t failed hg hq hc f = left-IsFramed t hg hc f
  poll-IsFramed t cancelled hg hq hc f = left-IsFramed t hg hc f
  poll-IsFramed t (got (text_delta d)) hg hq hc f =
      got-IsFramed t (text_delta d) t.streaming.completed hg hq hc hc f
  poll-IsFramed t (got (terminal_event e)) hg hq hc f =
      got-IsFramed t (terminal_event e) true hg hq hc refl f

  pub awaits_iff :
      (s : Streaming)
      → awaits c s ≡ true
      → (s.stage ≡ running) × (s.queue ≡ []) × (s.completed ≡ false)
  unfolding awaits
  awaits_iff s h = ground arith

  pub step-IsFramed : (t : Trace) (a : Act) → IsFramed t → IsFramed (step t a)
  unfolding step
  step-IsFramed t advances f = advance-IsFramed t t.streaming.stage t.streaming.queue refl refl f
  step-IsFramed t closes f = close-IsFramed t t.streaming.stage refl f
  step-IsFramed t (polls p) f =
      if_cases IsFramed (awaits c t.streaming)
        (λ h. let (hg, hq, hc) = awaits_iff t.streaming h in poll-IsFramed t p hg hq hc f) (λ _. f)

  run-IsFramed : (t : Trace) (acts : List Act) → IsFramed t → IsFramed (run t acts)
  unfolding run
  run-IsFramed t [] f = f
  run-IsFramed t (a ∷ acts) f = run-IsFramed (step t a) acts (step-IsFramed t a f)

  pub new-IsFramed : IsFramed new_trace
  new-IsFramed = record {
    rest = role_chunk c ∷ [];
    whole = refl;
    queued = λ e. absurd (cc);
    started = λ e. absurd (cc);
    returned = λ e. absurd (cc);
    in_order = tt;
    completed = refl;
    detached = refl;
    fresh = λ _. (refl, refl, refl, refl, refl);
  }

  -- However the framework asks for chunks, polls and closes: what the generator has sent is a prefix
  -- of the role chunk followed by the chunks of the events that it got, in their order, and of all
  -- of it when it has ended by itself with a terminal event; it gets no event after a terminal one
  -- and is completed exactly when it got one; and it has detached the session exactly once when it
  -- has ended, not completed, after it sent its first chunk, and never otherwise.
  pub generator_in_order :
      (acts : List Act)
      → let t = run new_trace acts in
        ((rest : List String) × (role_chunk c ∷ all_chunks c t.events ≡ t.streaming.sent ++ rest)
          × (t.streaming.completed ≡ true
              → is_ended t.streaming.stage ≡ true
              → t.closed ≡ false
              → rest ≡ []))
        × IsStream is_end t.events
        × (t.streaming.completed ≡ has_end t.events)
        × (t.streaming.detached ≡ (
            if is_ended t.streaming.stage
              && (not t.streaming.completed && not (is_empty t.streaming.sent))
            then 1
            else 0))
  generator_in_order acts =
      let f = run-IsFramed new_trace acts new-IsFramed in
      ((f.rest, f.whole, f.returned), f.in_order, f.completed, f.detached)
