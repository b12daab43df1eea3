-- ===== src/Gateway/Http/Collect.antt =====
-- `_collect_non_streaming` of gateway/python/kim_llm_gateway/api.py, and how it agrees with the
-- streaming handler on the same turns.
use kim_llm_serving.Prelude.{
  ℕ, suc, ◌≡◌, refl, ◌∙◌, Bool, true, false, ◌||◌, none, List, [], ◌∷◌, ◌++◌, arith, if◌then◌else◌,
  append-nil,
}
use kim_llm_serving.Gateway.Error.{GatewayError}
use kim_llm_serving.Gateway.Decoder.{Text}
use kim_llm_serving.Gateway.Buffer.{GatewayEvent, GatewayTerminal, text_delta, terminal_event}
use kim_llm_serving.Gateway.Session.Run.Texts.{joined}
use kim_llm_serving.Gateway.Session.Run.Passes.{texts_of, texts_of-append}
use kim_llm_serving.Gateway.Http.{Poll, disconnected, timed_out, failed, cancelled, got}
use kim_llm_serving.Gateway.Http.Stream.{
  Context, running, awaits, poll, advance, leave, terminal_chunks,
}
use kim_llm_serving.Gateway.Http.Framing.{
  Trace, new_trace, Act, advances, polls, step, run, is_ended,
}

abbrev pub client_disconnected : GatewayError
client_disconnected = record {
  message = "HTTP client disconnected";
  http_status = 499;
  error_type = "server_error";
  code = "client_disconnected";
  param = none;
}

-- `escapes`: an exception that is not a GatewayError.
pub data Collected : Type 0 where
  returns : Text → GatewayTerminal → Collected
  raises_error : GatewayError → Collected
  escapes still_waits : Collected

-- The `finally` of a loop that has no terminal event: `count` after the calls before it.
abbrev finally_detached : Bool → ℕ → ℕ
finally_detached detached count = if detached then count else suc count

-- With the texts so far; and how often it called `detach_cancel_and_drain`.
unfoldable pub collect : List Text → List Poll → Collected × ℕ
collect chunks [] = (still_waits, 0)
collect chunks (disconnected ∷ ps) = (raises_error client_disconnected, finally_detached true 1)
collect chunks (timed_out ∷ ps) = collect chunks ps
collect chunks (failed ∷ ps) = (escapes, finally_detached false 0)
collect chunks (cancelled ∷ ps) = (escapes, finally_detached true 1)
collect chunks (got (text_delta t) ∷ ps) = collect (chunks ++ t ∷ []) ps
collect chunks (got (terminal_event e) ∷ ps) = (returns (joined chunks) e, 0)

-- The turns of the streaming handler: it is asked for a chunk after each.
abbrev pub turns : List Poll → List Act
turns [] = []
turns (p ∷ ps) = polls p ∷ advances ∷ turns ps

-- What a collected answer says of a stream's trace.
abbrev pub SameAnswer : Collected → Trace → Type 0
SameAnswer (returns text e) t =
    (t.streaming.completed ≡ true)
    × (text ≡ joined (texts_of t.events))
    × ((before : List GatewayEvent) × (t.events ≡ before ++ terminal_event e ∷ []))
SameAnswer (raises_error e) t = t.streaming.completed ≡ false
SameAnswer escapes t = t.streaming.completed ≡ false
SameAnswer still_waits t = t.streaming.completed ≡ false

module _ {F : Type 0} (c : Context F) where
  -- A generator that gets no more events keeps its answer.
  abbrev is_settled : Trace → Bool
  is_settled t = t.streaming.completed || is_ended t.streaming.stage

  record Keeps (t u : Trace) : Type 0 where
    events : u.events ≡ t.events
    completed : u.streaming.completed ≡ t.streaming.completed
    detached : u.streaming.detached ≡ t.streaming.detached

  turn-Keeps :
      (t : Trace) (p : Poll)
      → is_settled t ≡ true
      → let u = step c (step c t (polls p)) advances in Keeps t u × (is_settled u ≡ true)
  unfolding step awaits advance leave
  turn-Keeps t p h = ground arith

  turns-Keeps : (t : Trace) (ps : List Poll) → is_settled t ≡ true → Keeps t (run c t (turns ps))
  unfolding run
  turns-Keeps t [] h = record { events = refl; completed = refl; detached = refl }
  turns-Keeps t (p ∷ ps) h =
      let (k, settled) = turn-Keeps t p h in
      let l = turns-Keeps (step c (step c t (polls p)) advances) ps settled in
      record {
        events = l.events ∙ k.events;
        completed = l.completed ∙ k.completed;
        detached = l.detached ∙ k.detached;
      }

  -- Both loops go on: the generator awaits a turn, and the collector has the texts of its events.
  record IsOpen (t : Trace) (chunks : List Text) : Type 0 where
    stage : t.streaming.stage ≡ running
    queue : t.streaming.queue ≡ []
    incomplete : t.streaming.completed ≡ false
    undetached : t.streaming.detached ≡ 0
    texts : texts_of t.events ≡ chunks

  abbrev turn : Trace → Poll → Trace
  turn t p = step c (step c t (polls p)) advances

  -- Neither goes on, and the session is detached once.
  record IsLeft (t : Trace) : Type 0 where
    settled : is_settled t ≡ true
    incomplete : t.streaming.completed ≡ false
    detached : t.streaming.detached ≡ 1

  timed_out-turn :
      (t : Trace) (chunks : List Text) → IsOpen t chunks → IsOpen (turn t timed_out) chunks
  unfolding step awaits advance poll
  timed_out-turn t chunks o = ground (arith, append-nil t.events)

  text-turn :
      (t : Trace) (chunks : List Text) (x : Text)
      → IsOpen t chunks
      → IsOpen (turn t (got (text_delta x))) (chunks ++ x ∷ [])
  unfolding step awaits advance poll
  text-turn t chunks x o = ground (arith, texts_of-append t.events (text_delta x ∷ []))

  terminal-turn :
      (t : Trace) (chunks : List Text) (e : GatewayTerminal)
      → IsOpen t chunks
      → let u = turn t (got (terminal_event e)) in
        (is_settled u ≡ true)
        × (u.streaming.completed ≡ true)
        × (u.streaming.detached ≡ 0)
        × (u.events ≡ t.events ++ terminal_event e ∷ [])
  unfolding step awaits advance poll terminal_chunks
  terminal-turn t chunks e o = ground arith

  disconnected-turn :
      (t : Trace) (chunks : List Text) → IsOpen t chunks → IsLeft (turn t disconnected)
  unfolding step awaits advance poll leave
  disconnected-turn t chunks o = ground arith

  failed-turn : (t : Trace) (chunks : List Text) → IsOpen t chunks → IsLeft (turn t failed)
  unfolding step awaits advance poll leave
  failed-turn t chunks o = ground arith

  cancelled-turn : (t : Trace) (chunks : List Text) → IsOpen t chunks → IsLeft (turn t cancelled)
  unfolding step awaits advance poll leave
  cancelled-turn t chunks o = ground arith

  left-turns :
      (t : Trace) (ps : List Poll)
      → IsLeft t
      → let u = run c t (turns ps) in (u.streaming.completed ≡ false) × (u.streaming.detached ≡ 1)
  left-turns t ps l =
      let k = turns-Keeps t ps l.settled in (k.completed ∙ l.incomplete, k.detached ∙ l.detached)

  open-turns :
      (t : Trace) (chunks : List Text) (ps : List Poll)
      → IsOpen t chunks
      → let (r, n) = collect chunks ps in
        let u = run c t (turns ps) in SameAnswer r u × (u.streaming.detached ≡ n)
  unfolding collect run
  open-turns t chunks [] o = (o.incomplete, o.undetached)
  open-turns t chunks (disconnected ∷ ps) o =
      left-turns (turn t disconnected) ps (disconnected-turn t chunks o)
  open-turns t chunks (timed_out ∷ ps) o =
      open-turns (turn t timed_out) chunks ps (timed_out-turn t chunks o)
  open-turns t chunks (failed ∷ ps) o = left-turns (turn t failed) ps (failed-turn t chunks o)
  open-turns t chunks (cancelled ∷ ps) o =
      left-turns (turn t cancelled) ps (cancelled-turn t chunks o)
  open-turns t chunks (got (text_delta x) ∷ ps) o =
      open-turns (turn t (got (text_delta x))) (chunks ++ x ∷ []) ps (text-turn t chunks x o)
  open-turns t chunks (got (terminal_event e) ∷ ps) o =
      let (settled, completed, undetached, events) = terminal-turn t chunks e o in
      let k = turns-Keeps (turn t (got (terminal_event e))) ps settled in
      (
        (
          k.completed ∙ completed,
          ground (
            arith,
            k.events,
            events,
            texts_of-append t.events (terminal_event e ∷ []),
            append-nil (texts_of t.events),
            o.texts,
          ),
          (t.events, k.events ∙ events),
        ),
        k.detached ∙ undetached,
      )

  -- On the same turns, the collector and the streaming handler, asked for a chunk after each turn,
  -- come to the same answer: the collector returns a text and a terminal event when the generator is
  -- completed, its last event is that one, and the text is its events' texts put together; else the
  -- generator is not completed. Both detach the session equally often.
  pub collect_agrees_with_stream :
      (ps : List Poll)
      → let (r, n) = collect [] ps in
        let t = run c new_trace (advances ∷ turns ps) in SameAnswer r t × (t.streaming.detached ≡ n)
  unfolding run step advance
  collect_agrees_with_stream ps =
      open-turns (step c new_trace advances) [] ps
        (record { stage = refl; queue = refl; incomplete = refl; undetached = refl; texts = refl })
