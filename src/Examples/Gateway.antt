-- ===== src/Examples/Gateway.antt =====
-- Runs of the Gateway's parts, with a tokenizer whose tokens are characters.
use kim_llm_serving.Prelude.{
  ℕ, ◌+◌, ◌-◌, ◌≤◌, ◌≡◌, ◌<◌, ◌^◌, ◌≢◌, refl, String, true, false, Option, some, List, [], ◌∷◌,
  ◌++◌, arith, length, is_some,
}
use kim_llm_serving.Stream.{IsStream}
use kim_llm_serving.Protocol.{TokenDelta, Terminal, delta, end, no_usage}
use kim_llm_serving.Gateway.Metrics.{new_metrics}
use kim_llm_serving.Gateway.Metrics.Totals.{total}
use kim_llm_serving.Gateway.Decoder.{Text, starts_with, emit, append}
use kim_llm_serving.Gateway.Decoder.Whole.{append_all, all_tokens, emitted_is_whole}
use kim_llm_serving.Gateway.Buffer.{GatewayTerminal, text_delta, terminal_event, new_buffer}
use kim_llm_serving.Gateway.Buffer.Stream.{
  puts_delta, puts_terminal, gets, abandons, is_end, buffer_in_order,
}
use kim_llm_serving.Gateway.Ids.Distinct.{nth_id, ids_distinct}
use kim_llm_serving.Gateway.Session.{Session, new_session, event}
use kim_llm_serving.Gateway.Session.Run.{pumps, begins_cancel, ends_cancel}
use kim_llm_serving.Gateway.Session.Run.Ends.{as_number, cancels, session_ends_once}
use kim_llm_serving.Gateway.Session.Run.Texts.{joined}
use kim_llm_serving.Gateway.Session.Run.Passes.{texts_of}
use kim_llm_serving.Gateway.Session.Run.Handed.{session_texts_in_order}
use kim_llm_serving.Gateway.Session.Run.Backpressure.{reads, backpressure_keeps_status}
use kim_llm_serving.Gateway.Buffer.Stream
use kim_llm_serving.Gateway.Session.Run

abbrev pub letters : List ℕ → Option Text
letters ids = some ids

abbrev pub no_error : List ℕ → String
no_error ids = ""

emitted_is_whole_example :
    letters (all_tokens ((1 ∷ []) ∷ (2 ∷ 3 ∷ []) ∷ [])) ≡ some (1 ∷ 2 ∷ 3 ∷ [])
unfolding append_all append emit starts_with
emitted_is_whole_example =
    emitted_is_whole letters (1 ∷ []) ((2 ∷ 3 ∷ []) ∷ [])
      (record { tokens = 1 ∷ 2 ∷ 3 ∷ []; decoded = 1 ∷ 2 ∷ 3 ∷ [] }) (1 ∷ 2 ∷ 3 ∷ []) refl

abbrev pub stopped : GatewayTerminal
stopped = record {
  status = record { code = "ok"; message = "" };
  finish_reason = some "stop";
  usage = no_usage;
}

abbrev buffer_ops : List Stream.Op
buffer_ops = puts_delta (1 ∷ []) ∷ puts_delta (2 ∷ []) ∷ gets ∷ puts_terminal stopped ∷ gets ∷ []

buffer_in_order_example :
    let r = Stream.run (new_buffer 1) new_metrics buffer_ops in
    IsStream is_end r.handed
    × (length r.buffer.deltas ≤ 1)
    × (r.metrics.sse_buffered_events ≡ 0 + length r.buffer.deltas)
buffer_in_order_example = buffer_in_order 1 new_metrics buffer_ops

abbrev pub token : ℕ → ℕ → TokenDelta
token n id = record { request_id = 1; sequence_no = n; token_ids = id ∷ [] }

abbrev pub stop_terminal : Terminal
stop_terminal = record {
  request_id = 1;
  status = record { code = "ok"; message = "" };
  finish_reason = some "stop";
  usage = no_usage;
}

abbrev session_ops : List Run.Op
session_ops =
    pumps (event (delta (token 0 1)))
    ∷ begins_cancel "http_disconnect"
    ∷ ends_cancel (some true)
    ∷ Run.gets
    ∷ pumps (event (end stop_terminal))
    ∷ Run.gets
    ∷ []

session_ends_once_example :
    let r = Run.run letters no_error (new_session 4) new_metrics session_ops in
    (r.session.terminal ≡ r.session.buffer.terminal)
    × (is_some r.session.terminal ≡ r.session.done)
    × (total r.metrics.terminals ≡ total [] + as_number r.session.done)
    × (r.metrics.active ≡ 0 - as_number r.session.done)
    × (cancels r.metrics ≤ 0 + as_number r.session.cancel_sent)
session_ends_once_example = session_ends_once letters no_error 4 new_metrics session_ops

session_texts_in_order_example :
    let r = Run.run letters no_error (new_session 4) new_metrics session_ops in
    (unseen : Text) × (r.session.decoder.decoded ≡ joined (texts_of r.handed) ++ unseen)
    × (r.session.dropping_deltas ≡ false
        → r.session.buffer.abandoned ≡ false
        → unseen ≡ joined r.session.buffer.deltas)
session_texts_in_order_example = session_texts_in_order letters no_error 4 new_metrics session_ops

-- The one place of the buffer is taken.
abbrev full_session : Session
full_session = record (new_session 1) {
  decoder = record { tokens = 1 ∷ []; decoded = 1 ∷ [] };
  buffer = record (new_buffer 1) { deltas = (1 ∷ []) ∷ [] };
}

backpressure_keeps_status_example :
    let os =
      pumps (event (delta (token 1 2)))
      ∷ begins_cancel "sse_backpressure"
      ∷ ends_cancel (some true)
      ∷ pumps (event (end stop_terminal))
      ∷ [] in
    let r = Run.run letters no_error full_session new_metrics os in
    let read = Run.run letters no_error r.session r.metrics (reads 2) in
    (r.taken ≡ []) × (read.handed ≡ text_delta (1 ∷ []) ∷ terminal_event stopped ∷ [])
unfolding append emit starts_with
backpressure_keeps_status_example =
    backpressure_keeps_status letters no_error full_session new_metrics (token 1 2) (some true)
      stop_terminal 2 [] refl refl refl refl refl (omega arith) refl

ids_distinct_example :
    (1 ≤ nth_id 0 (2 ^ 63 - 1))
    × (nth_id 0 (2 ^ 63 - 1) < 2 ^ 63)
    × (nth_id 0 (2 ^ 63 - 1) ≢ nth_id 1 (2 ^ 63 - 1))
ids_distinct_example =
    ids_distinct 0 1 (2 ^ 63 - 1) (omega arith) (omega arith) (omega arith) (omega arith)
