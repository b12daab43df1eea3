-- ===== src/Client/Buffer.antt =====
-- `_EventBuffer` of clients/python/kim_llm_client/generation_client.py: the bounded buffer between
-- the reader thread and the consumer of one request. Each method is one critical section.
pub mod Stream
use kim_llm_serving.Prelude.{
  ℕ, Bool, true, false, Option, none, some, List, [], ◌∷◌, ◌++◌, leb, length, is_some,
  if◌then◌else◌,
}
use kim_llm_serving.Protocol.{TokenDelta, Terminal, GenerationEvent, delta, end}

pub record EventBuffer : Type 0 where
  pub max_delta_events : ℕ
  pub deltas : List TokenDelta
  pub terminal : Option Terminal
  pub terminal_delivered : Bool
  pub overflowed : Bool

unfoldable pub init : ℕ → EventBuffer
init n = record {
  max_delta_events = n;
  deltas = [];
  terminal = none;
  terminal_delivered = false;
  overflowed = false;
}

unfoldable pub put_delta : EventBuffer → TokenDelta → EventBuffer × Bool
put_delta b d =
    if is_some b.terminal
    then (b, false)
    else if leb b.max_delta_events (length b.deltas)
    then (record b { overflowed = true }, false)
    else (record b { deltas = b.deltas ++ d ∷ [] }, true)

unfoldable pub put_terminal : EventBuffer → Terminal → EventBuffer × Bool
put_terminal b t = if is_some b.terminal then (b, false) else (record b { terminal = some t }, true)

-- What `get` does in the buffer's state of the moment: `blocked` while there is nothing to deliver
-- (it waits, or raises TimeoutError at its deadline), `stop` where it raises StopIteration.
pub data Got : Type 0 where
  event : GenerationEvent → Got
  blocked stop : Got

take_terminal : EventBuffer → Option Terminal → EventBuffer × Got
take_terminal b none = (b, blocked)
take_terminal b (some t) =
    if b.terminal_delivered
    then (b, stop)
    else (record b { terminal_delivered = true }, event (end t))

take_first : EventBuffer → List TokenDelta → EventBuffer × Got
unfolding take_terminal
take_first b [] = take_terminal b b.terminal
take_first b (d ∷ rest) = (record b { deltas = rest }, event (delta d))

unfoldable pub get : EventBuffer → EventBuffer × Got
unfolding take_first
get b = take_first b b.deltas
