-- ===== src/Examples/Http.antt =====
-- Requests over HTTP: bodies in chunks, streams and collected answers.
use kim_llm_serving.Prelude.{
  ℕ, ◌≡◌, refl, String, true, false, not, ◌&&◌, some, List, [], ◌∷◌, ◌++◌, map, arith, is_empty,
  if◌then◌else◌,
}
use kim_llm_serving.Stream.{IsStream}
use kim_llm_serving.Protocol.{delta, end}
use kim_llm_serving.Gateway.Metrics.{new_metrics}
use kim_llm_serving.Gateway.Decoder.{Text}
use kim_llm_serving.Gateway.Buffer.{text_delta, terminal_event, new_buffer}
use kim_llm_serving.Gateway.Buffer.Stream.{is_end}
use kim_llm_serving.Gateway.Session.{new_session, event}
use kim_llm_serving.Gateway.Session.Run.Texts.{joined}
use kim_llm_serving.Gateway.Session.Run.Passes.{texts_of}
use kim_llm_serving.Gateway.Service.Submit.{session}
use kim_llm_serving.Gateway.Http.{disconnected, timed_out, got}
use kim_llm_serving.Gateway.Http.Body.{read_bounded_body, bounded, body_is_bounded}
use kim_llm_serving.Gateway.Http.Stream.{
  Context, ended, running, awaits, new_streaming, role_chunk, text_chunk, terminal_chunks,
}
use kim_llm_serving.Gateway.Http.Framing.{
  new_trace, advances, polls, run, has_end, is_ended, all_chunks, generator_in_order,
}
use kim_llm_serving.Gateway.Http.Collect.{collect, turns, SameAnswer, collect_agrees_with_stream}
use kim_llm_serving.Gateway.Http.Serving.{
  Serving, new_serving, task, pumps, acts_advance, serve_all,
}
use kim_llm_serving.Gateway.Http.Serving.Whole.{streamed_text_is_whole}
use kim_llm_serving.Gateway.Http.Serving.Drained.{rounds, stream_ends}
use kim_llm_serving.Gateway.Http.Chat.{Loads, value}
use kim_llm_serving.Gateway.Openai.Complete.{command_json}
use kim_llm_serving.Examples.Gateway.{letters, no_error, token, stop_terminal, stopped}
use kim_llm_serving.Examples.Openai.{command}

body_is_bounded_example :
    read_bounded_body 4 ((1 ∷ 2 ∷ []) ∷ (3 ∷ []) ∷ []) ≡ bounded 4 (1 ∷ 2 ∷ 3 ∷ [])
body_is_bounded_example = body_is_bounded 4 ((1 ∷ 2 ∷ []) ∷ (3 ∷ []) ∷ [])

abbrev context : Context ℕ
context = record {
  dumps = λ v. "{}";
  shown = λ t. "a";
  completion_id = "c";
  created = 1;
  model = "m";
  include_usage = true;
}

generator_in_order_example :
    let t =
      run context new_trace
        (advances ∷ polls (got (text_delta (1 ∷ []))) ∷ advances ∷ polls disconnected ∷ []) in
    ((rest : List String) × (role_chunk context ∷ all_chunks context t.events
        ≡ t.streaming.sent ++ rest)
      × (t.streaming.completed ≡ true
          → is_ended t.streaming.stage ≡ true
          → t.closed ≡ false
          → rest ≡ []))
    × IsStream is_end t.events
    × (t.streaming.completed ≡ has_end t.events)
    × (t.streaming.detached ≡ (
        if is_ended t.streaming.stage
          && (not t.streaming.completed && not (is_empty t.streaming.sent))
        then 1
        else 0))
generator_in_order_example =
    generator_in_order context
      (advances ∷ polls (got (text_delta (1 ∷ []))) ∷ advances ∷ polls disconnected ∷ [])

collect_agrees_with_stream_example :
    let ps = timed_out ∷ got (text_delta (1 ∷ [])) ∷ got (terminal_event stopped) ∷ [] in
    let (r, n) = collect [] ps in
    let t = run context new_trace (advances ∷ turns ps) in
    SameAnswer r t × (t.streaming.detached ≡ n)
collect_agrees_with_stream_example =
    collect_agrees_with_stream context
      (timed_out ∷ got (text_delta (1 ∷ [])) ∷ got (terminal_event stopped) ∷ [])

streamed_text_is_whole_example :
    let v = serve_all context letters no_error (new_serving 4 new_metrics) (
      acts_advance
      ∷ task (pumps (event (delta (token 0 1))))
      ∷ task (pumps (event (end stop_terminal)))
      ∷ rounds 5) in
    (unseen : Text) × (rest : List String) × (v.session.decoder.decoded
      ≡ joined (texts_of v.trace.events) ++ unseen)
    × (role_chunk context ∷ all_chunks context v.trace.events ≡ v.trace.streaming.sent ++ rest)
    × (v.trace.streaming.completed ≡ true
        → is_ended v.trace.streaming.stage ≡ true
        → v.trace.closed ≡ false
        → v.session.dropping_deltas ≡ false
        → v.session.buffer.abandoned ≡ false
        → (unseen ≡ []) × (rest ≡ []))
streamed_text_is_whole_example = streamed_text_is_whole context letters no_error 4 new_metrics (
    acts_advance
    ∷ task (pumps (event (delta (token 0 1))))
    ∷ task (pumps (event (end stop_terminal)))
    ∷ rounds 5)

-- A stream that has sent its role, of a session with a text and its terminal event.
abbrev filled : Serving
filled = record {
  session = record (new_session 4) {
    buffer = record (new_buffer 4) { deltas = (1 ∷ []) ∷ []; terminal = some stopped };
  };
  metrics = new_metrics;
  trace = record new_trace {
    streaming = record new_streaming { stage = running; sent = role_chunk context ∷ [] };
  };
}

stream_ends_example :
    let s = (serve_all context letters no_error filled (rounds 5)).trace.streaming in
    (s.stage ≡ ended)
    × (s.completed ≡ true)
    × (s.detached ≡ 0)
    × (s.sent
        ≡ role_chunk context ∷ map (text_chunk context) ((1 ∷ []) ∷ [])
          ++ terminal_chunks context stopped)
unfolding awaits
stream_ends_example =
    stream_ends context letters no_error 5 filled stopped refl refl refl (omega arith)

abbrev parsed_command : List ℕ → Loads ℕ
parsed_command body = value (command_json command)
