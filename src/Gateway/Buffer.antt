-- ===== src/Gateway/Buffer.antt =====
-- `_AsyncEventBuffer` of gateway/python/kim_llm_gateway/runtime.py, with the metrics that it shares.
-- Each method is one critical section; the wait of `get` is its outcome `blocked`.
pub mod Stream
use kim_llm_serving.Prelude.{
  ℕ, String, Bool, true, false, ◌||◌, Option, none, some, List, [], ◌∷◌, ◌++◌, leb, length, is_some,
  ◌==◌, if◌then◌else◌,
}
use kim_llm_serving.Protocol.{Status, Usage}
use kim_llm_serving.Gateway.Decoder.{Text}
use kim_llm_serving.Gateway.Metrics.{Metrics, sse_delta_enqueued, sse_deltas_released}

pub record GatewayTerminal : Type 0 where
  pub status : Status
  pub finish_reason : Option String
  pub usage : Usage

-- A delta is its text.
pub data GatewayEvent : Type 0 where
  text_delta : Text → GatewayEvent
  terminal_event : GatewayTerminal → GatewayEvent

pub record AsyncEventBuffer : Type 0 where
  pub max_delta_events : ℕ
  pub deltas : List Text
  pub terminal : Option GatewayTerminal
  pub terminal_delivered : Bool
  pub abandoned : Bool

abbrev pub new_buffer : ℕ → AsyncEventBuffer
new_buffer n = record {
  max_delta_events = n;
  deltas = [];
  terminal = none;
  terminal_delivered = false;
  abandoned = false;
}

unfoldable pub put_delta : AsyncEventBuffer → Metrics → Text → AsyncEventBuffer × Metrics × Bool
put_delta b m d =
    if is_some b.terminal || b.abandoned
    then (b, m, false)
    else if leb b.max_delta_events (length b.deltas)
    then (b, m, false)
    else (record b { deltas = b.deltas ++ d ∷ [] }, sse_delta_enqueued m, true)

unfoldable pub put_terminal : AsyncEventBuffer → GatewayTerminal → AsyncEventBuffer × Bool
put_terminal b t = if is_some b.terminal then (b, false) else (record b { terminal = some t }, true)

pub data Got : Type 0 where
  event : GatewayEvent → Got
  blocked stop : Got

unfoldable pub take_terminal :
    AsyncEventBuffer → Metrics → Option GatewayTerminal → AsyncEventBuffer × Metrics × Got
take_terminal b m none = (b, m, blocked)
take_terminal b m (some t) =
    if b.terminal_delivered
    then (b, m, stop)
    else (record b { terminal_delivered = true }, m, event (terminal_event t))

unfoldable pub take_first :
    AsyncEventBuffer → Metrics → List Text → AsyncEventBuffer × Metrics × Got
unfolding take_terminal
take_first b m [] = take_terminal b m b.terminal
take_first b m (d ∷ rest) =
    (record b { deltas = rest }, sse_deltas_released m 1, event (text_delta d))

unfoldable pub get : AsyncEventBuffer → Metrics → AsyncEventBuffer × Metrics × Got
unfolding take_first
get b m = take_first b m b.deltas

unfoldable pub abandon : AsyncEventBuffer → Metrics → AsyncEventBuffer × Metrics
abandon b m =
    let released = length b.deltas in
    (
      record b { abandoned = true; deltas = [] },
      if released == 0 then m else sse_deltas_released m released,
    )
