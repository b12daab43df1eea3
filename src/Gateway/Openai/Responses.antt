-- ===== src/Gateway/Openai/Responses.antt =====
-- The response objects of gateway/python/kim_llm_gateway/openai.py. `dumps` is
-- json.dumps(value, ensure_ascii=False, separators=(",", ":")); a `bytes` is the text that it encodes.
use kim_llm_serving.Prelude.{ℕ, ◌+◌, String, Option, none, some, str_eq, str_append, if◌then◌else◌}
use kim_llm_serving.Prelude.Int.{pos}
use kim_llm_serving.Protocol.{Usage}
use kim_llm_serving.Protocol.Json.{Json, Fields, int, str, arr, obj, null, field, end, cons, nil}
use kim_llm_serving.Gateway.Error.{GatewayError}
use kim_llm_serving.Gateway.Buffer.{GatewayTerminal}

unfoldable pub openai_finish_reason : Option String → String
openai_finish_reason none = "stop"
openai_finish_reason (some value) = if str_eq value "length" then "length" else "stop"

module _ {F : Type 0} where
  abbrev optional_str : Option String → Json F
  optional_str none = null
  optional_str (some s) = str s

  unfoldable pub usage_json : Usage → Json F
  usage_json u = obj (
      field "prompt_tokens" (int (pos u.prompt_tokens)) (
        field "completion_tokens" (int (pos u.completion_tokens))
          (field "total_tokens" (int (pos (u.prompt_tokens + u.completion_tokens))) end)))

  unfoldable pub error_json : GatewayError → Json F
  error_json e = obj (
      field "error"
        (obj (
          field "message" (str e.message) (
            field "type" (str e.error_type)
              (field "param" (optional_str e.param) (field "code" (str e.code) end)))))
        end)

  -- The fields that every response object starts with.
  abbrev response : String → String → ℕ → String → Fields F → Json F
  response object completion_id created model rest = obj (
      field "id" (str completion_id) (
        field "object" (str object)
          (field "created" (int (pos created)) (field "model" (str model) rest))))

  unfoldable pub chat_completion_json : String → ℕ → String → String → GatewayTerminal → Json F
  unfolding openai_finish_reason usage_json
  chat_completion_json completion_id created model text terminal =
      response "chat.completion" completion_id created model (
        field "choices"
          (arr (
            cons
              (obj (
                field "index" (int (pos 0)) (
                  field "message"
                    (obj (field "role" (str "assistant") (field "content" (str text) end)))
                    (field "finish_reason" (str (openai_finish_reason terminal.finish_reason))
                      end))))
              nil))
          (field "usage" (usage_json terminal.usage) end))

  unfoldable pub chat_completion_chunk_json :
      String → ℕ → String → Fields F → Option String → Json F
  chat_completion_chunk_json completion_id created model delta finish_reason =
      response "chat.completion.chunk" completion_id created model (
        field "choices"
          (arr (
            cons
              (obj (
                field "index" (int (pos 0)) (
                  field "delta" (obj delta)
                    (field "finish_reason" (optional_str finish_reason) end))))
              nil))
          end)

  unfoldable pub usage_chunk_json : String → ℕ → String → Usage → Json F
  unfolding usage_json
  usage_chunk_json completion_id created model usage =
      response "chat.completion.chunk" completion_id created model
        (field "choices" (arr nil) (field "usage" (usage_json usage) end))

  unfoldable pub encode_sse : (Json F → String) → Json F → String
  encode_sse dumps value = str_append "data: " (str_append (dumps value) "\n\n")
