-- ===== src/Gateway/Http/Stream.antt =====
-- `_stream_chat_completion` of gateway/python/kim_llm_gateway/api.py: an asynchronous generator. `dumps`
-- is json.dumps as openai.py calls it; `shown` is the str of these code points.
use kim_llm_serving.Prelude.{
  ℕ, suc, String, Bool, true, false, Option, none, some, List, [], ◌∷◌, ◌++◌, if◌then◌else◌,
}
use kim_llm_serving.Protocol.{is_ok}
use kim_llm_serving.Protocol.Json.{Json, Fields, str, field, end}
use kim_llm_serving.Gateway.Decoder.{Text}
use kim_llm_serving.Gateway.Buffer.{GatewayTerminal, text_delta, terminal_event}
use kim_llm_serving.Gateway.Error.{gateway_error_from_status}
use kim_llm_serving.Gateway.Openai.Responses.{
  openai_finish_reason, error_json, chat_completion_chunk_json, usage_chunk_json, encode_sse,
}
use kim_llm_serving.Gateway.Http.{Poll, disconnected, timed_out, failed, cancelled, got}

-- The arguments of the handler, less the request, the service and the session.
pub record Context (F : Type 0) : Type 0 where
  pub dumps : Json F → String
  pub shown : Text → String
  pub completion_id : String
  pub created : ℕ
  pub model : String
  pub include_usage : Bool

pub data Stage : Type 0 where
  unstarted running ended : Stage

-- `queue` is what it yields before its next await; `sent` what it has yielded; `detached` how often
-- it called `detach_cancel_and_drain`.
pub record Streaming : Type 0 where
  pub stage : Stage
  pub queue : List String
  pub sent : List String
  pub completed : Bool
  pub detached : ℕ

abbrev pub new_streaming : Streaming
new_streaming = record { stage = unstarted; queue = []; sent = []; completed = false; detached = 0 }

abbrev pub done_chunk : String
done_chunk = "data: [DONE]\n\n"

-- The generator is left, by `return` or by an exception: the `finally`.
unfoldable pub leave : Streaming → Streaming
leave s = record s {
  stage = ended;
  queue = [];
  detached = if s.completed then s.detached else suc s.detached;
}

module _ {F : Type 0} (c : Context F) where
  abbrev pub chunk : Fields F → Option String → String
  chunk delta finish_reason =
      encode_sse c.dumps
        (chat_completion_chunk_json c.completion_id c.created c.model delta finish_reason)

  unfoldable pub role_chunk : String
  role_chunk = chunk (field "role" (str "assistant") end) none

  unfoldable pub text_chunk : Text → String
  text_chunk t = chunk (field "content" (str (c.shown t)) end) none

  unfoldable pub terminal_chunks : GatewayTerminal → List String
  terminal_chunks t =
      if is_ok t.status
      then chunk end (some (openai_finish_reason t.finish_reason))
        ∷ ((if c.include_usage
              then encode_sse c.dumps (usage_chunk_json c.completion_id c.created c.model t.usage)
                ∷ []
              else [])
            ++ done_chunk ∷ [])
      else encode_sse c.dumps (error_json (gateway_error_from_status t.status)) ∷ done_chunk ∷ []

  -- A turn of the loop.
  unfoldable pub poll : Streaming → Poll → Streaming
  unfolding leave
  poll s disconnected = leave s
  poll s timed_out = s
  poll s failed = leave s
  poll s cancelled = leave s
  poll s (got (text_delta t)) = record s { queue = text_chunk t ∷ [] }
  poll s (got (terminal_event t)) = record s { completed = true; queue = terminal_chunks t }

  -- It is asked for the next chunk and runs up to a yield, an await or its end. A generator that
  -- has nothing to yield and is not completed awaits a turn.
  unfoldable pub advance : Streaming → Stage → List String → Streaming
  unfolding leave
  advance s unstarted queue = record s { stage = running; sent = s.sent ++ role_chunk ∷ [] }
  advance s running (chunk ∷ queue) = record s { queue = queue; sent = s.sent ++ chunk ∷ [] }
  advance s running [] = if s.completed then leave s else s
  advance s ended queue = s

  -- Whether it awaits a turn of its loop.
  unfoldable pub awaits : Streaming → Bool
  awaits s = elim s.stage [
    | running ↦ elim s.queue [ [] ↦ if s.completed then false else true | _ ∷ _ ↦ false ]
    | _ ↦ false
  ]

  -- It is closed, or cancelled at a yield: before its start nothing of it runs.
  unfoldable pub close : Streaming → Stage → Streaming
  unfolding leave
  close s unstarted = record s { stage = ended }
  close s running = leave s
  close s ended = s
