-- ===== src/Gateway/Session.antt =====
-- `GatewaySession` of gateway/python/kim_llm_gateway/runtime.py: the task that pumps one request's
-- events from the client into the buffer, and the cancellation that any task may ask for.
-- A step is the code between two awaits, so any sequence of steps is an interleaving of the tasks.
pub mod Run
pub mod Drain
use kim_llm_serving.Prelude.{
  ℕ, String, Bool, true, false, Option, none, some, List, [], ◌∷◌, is_some, if◌then◌else◌,
}
use kim_llm_serving.Protocol.{
  Status, Usage, no_usage, TokenDelta, Terminal, GenerationEvent, delta, end,
}
use kim_llm_serving.Gateway.Metrics.{Metrics, count_terminal, count_cancel}
use kim_llm_serving.Gateway.Decoder.{
  Text, Decoder, new_decoder, Appended, text, decode_failed, changed_text, append,
}
use kim_llm_serving.Gateway.Buffer.{
  GatewayTerminal, AsyncEventBuffer, new_buffer, put_delta, put_terminal, abandon,
}

-- `local_failure` is the variable of `_pump`; `cancelling` is the reason of the task that holds
-- `_cancel_lock` and waits for the client's `cancel`.
pub record Session : Type 0 where
  pub decoder : Decoder
  pub buffer : AsyncEventBuffer
  pub cancel_sent : Bool
  pub cancelling : Option String
  pub done : Bool
  pub terminal : Option GatewayTerminal
  pub dropping_deltas : Bool
  pub local_failure : Option Status

abbrev pub new_session : ℕ → Session
new_session max_delta_events = record {
  decoder = new_decoder;
  buffer = new_buffer max_delta_events;
  cancel_sent = false;
  cancelling = none;
  done = false;
  terminal = none;
  dropping_deltas = false;
  local_failure = none;
}

-- What `cancel` does once it holds the lock: it returns, or it waits for the client.
pub data Cancelling : Type 0 where
  returns : Bool → Cancelling
  waits_for_lock waits_for_client : Cancelling

unfoldable pub begin_cancel : Session → String → Session × Cancelling
begin_cancel s reason =
    if is_some s.cancelling
    then (s, waits_for_lock)
    else if s.done
    then (s, returns false)
    else if s.cancel_sent
    then (s, returns true)
    else (record s { cancelling = some reason }, waits_for_client)

-- The client's `cancel` has returned whether it sent, or raised GenerationClientError (`none`).
abbrev is_sent : Option Bool → Bool
is_sent none = false
is_sent (some sent) = sent

abbrev cancelled : Session → Metrics → Option String → Bool → Session × Metrics
cancelled s m none sent = (s, m)
cancelled s m (some reason) sent =
    (record s { cancelling = none; cancel_sent = sent }, if sent then count_cancel m reason else m)

unfoldable pub end_cancel : Session → Metrics → Option Bool → Session × Metrics
end_cancel s m result = cancelled s m s.cancelling (is_sent result)

-- `false` where it raises RuntimeError.
unfoldable pub finish : Session → Metrics → GatewayTerminal → Session × Metrics × Bool
finish s m t =
    let (b, done) = put_terminal s.buffer t in
    let s' = record s { buffer = b; terminal = some t } in
    if done then (s', count_terminal m t.status.code, true) else (s', m, false)

abbrev failed_terminal : String → String → GatewayTerminal
failed_terminal code message = record {
  status = record { code = code; message = message };
  finish_reason = none;
  usage = no_usage;
}

-- What the client's `next_event` does: it returns an event, raises StopIteration, or raises an
-- exception with this message, a WorkerUnavailableError or another.
pub data NextEvent : Type 0 where
  event : GenerationEvent → NextEvent
  no_event : NextEvent
  raised : (is_unavailable : Bool) → (message : String) → NextEvent

-- The pump goes on, asks to cancel for a reason and goes on, or has returned.
pub data PumpResult : Type 0 where
  goes_on finished : PumpResult
  cancels : String → PumpResult

-- The `finally` of the pump.
abbrev set_done : Session → Session
set_done s = record s { done = true }

-- A RuntimeError of `_finish` is caught by `except Exception`, which calls `_finish` again.
unfoldable pub finish_pump : Session → Metrics → GatewayTerminal → Session × Metrics × PumpResult
unfolding finish
finish_pump s m t =
    let (s', m', done) = finish s m t in
    let (s'', m'', again) =
      finish s' m'
        (failed_terminal "internal_error" "Gateway Session received duplicate Terminal") in
    if done then (set_done s', m', finished) else (set_done s'', m'', finished)

-- An exception of `_finish` in an `except` clause leaves the pump.
unfoldable pub fail_pump : Session → Metrics → GatewayTerminal → Session × Metrics × PumpResult
unfolding finish
fail_pump s m t = let (s', m', done) = finish s m t in (set_done s', m', finished)

-- The terminal of a request whose worker has ended it.
unfoldable pub terminal_of : Option Status → Terminal → GatewayTerminal
terminal_of none t = record { status = t.status; finish_reason = t.finish_reason; usage = t.usage }
terminal_of (some failure) t = record { status = failure; finish_reason = none; usage = t.usage }

-- `decode` is the tokenizer's, `none` where it raises TokenizerError with the message of
-- `decode_error`.
module _ (decode : List ℕ → Option Text) (decode_error : List ℕ → String) where
  unfoldable pub put_text : Session → Metrics → Text → Session × Metrics × PumpResult
  put_text s m [] = (s, m, goes_on)
  put_text s m (c ∷ cs) =
      let (b, m', accepted) = put_delta s.buffer m (c ∷ cs) in
      if accepted
      then (record s { buffer = b }, m', goes_on)
      else (record s { buffer = b; dropping_deltas = true }, m', cancels "sse_backpressure")

  abbrev fail_locally : Session → String → Session
  fail_locally s message = record s {
    local_failure = some (record { code = "internal_error"; message = message });
    dropping_deltas = true;
  }

  unfoldable pub pump_appended : Session → Metrics → Appended → Session × Metrics × PumpResult
  unfolding put_text
  pump_appended s m (text t) = put_text s m t
  pump_appended s m decode_failed =
      (fail_locally s (decode_error s.decoder.tokens), m, cancels "decode_failure")
  pump_appended s m changed_text = (
    fail_locally s "incremental decode changed text that was already emitted",
    m,
    cancels "decode_failure",
  )

  unfoldable pub pump_delta : Session → Metrics → TokenDelta → Session × Metrics × PumpResult
  unfolding append pump_appended
  pump_delta s m d =
      let (decoder, appended) = append decode s.decoder d.token_ids in
      pump_appended (record s { decoder = decoder }) m appended

  -- One turn of the loop of `_pump`, up to the `cancel` that the pump then awaits.
  unfoldable pub pump : Session → Metrics → NextEvent → Session × Metrics × PumpResult
  unfolding pump_delta terminal_of finish_pump fail_pump
  pump s m (event (delta d)) = if s.dropping_deltas then (s, m, goes_on) else pump_delta s m d
  pump s m (event (end t)) = finish_pump s m (terminal_of s.local_failure t)
  pump s m no_event =
      fail_pump s m (failed_terminal "internal_error" "generation ended without Terminal")
  pump s m (raised is_unavailable message) =
      fail_pump s m
        (failed_terminal (if is_unavailable then "unavailable" else "internal_error") message)
