-- ===== src/Examples/Config.antt =====
-- A configuration in two files.
use kim_llm_serving.Prelude.{
  ℕ, ◌*◌, ◌≡◌, refl, String, true, false, str_eq, str_append, if◌then◌else◌, if_cases,
}
use kim_llm_serving.Prelude.Int.{pos}
use kim_llm_serving.Prelude.Attempt.{gives}
use kim_llm_serving.Protocol.Json.{Json, int, str, obj, field, end, keys, get, contains}
use kim_llm_serving.Protocol.Result.{ok}
use kim_llm_serving.Protocol.Parts.WellFormed.{IsText}
use kim_llm_serving.Protocol.Parts.{fits_sequence}
use kim_llm_serving.Protocol.Validate.{validate_manifest}
use kim_llm_serving.Gateway.Config
use kim_llm_serving.Gateway.Config.{
  without, require_fields, key, text_at, integer_at, as_float, number,
}
use kim_llm_serving.Gateway.Config.Load.{
  Paths, File, parsed, unreadable, GatewayConfig, resolve_path, load_json_object, capacity, seconds,
  load_capacities, load_timeouts, load_fields, load,
}
use kim_llm_serving.Gateway.Config.Runtime.{
  client_config, runtime_options, validate_config, post_init,
}
use kim_llm_serving.Gateway.Config.Starts.{loaded_config_starts}
use kim_llm_serving.Examples.Service.{manifest}
use kim_llm_serving.Examples.Openai.{floats}

abbrev paths : Paths
paths = record {
  expanduser = λ p. p;
  is_absolute = λ p. true;
  join = str_append;
  resolve = λ p. if str_eq p "" then "/" else p;
  parent = λ p. p;
}

abbrev manifest_file : Json ℕ
manifest_file = obj (
    field "model_id" (str "m") (
      field "revision" (str "1") (
        field "tokenizer_fingerprint" (str "t") (
          field "chat_template_fingerprint" (str "c") (
            field "engine_fingerprint" (str "e") (
              field "eos_token_id" (int (pos 2)) (
                field "pad_token_id" (int (pos 2)) (
                  field "max_input_tokens" (int (pos 32)) (
                    field "max_output_tokens" (int (pos 16)) (
                      field "max_sequence_tokens" (int (pos 48)) (
                        field "precision" (str "fp16")
                          (field "max_batch_size" (int (pos 1)) end))))))))))))

abbrev files : String → File ℕ
files path =
    if str_eq path "g"
    then parsed (obj (field "worker_config_path" (str "w") (field "tokenizer_path" (str "t") end)))
    else if str_eq path "w"
    then parsed (obj (field "socket_path" (str "s") (field "manifest" manifest_file end)))
    else unreadable

abbrev config : GatewayConfig ℕ
config = record {
  worker_config_path = "w";
  tokenizer_path = "t";
  socket_path = "s";
  manifest = manifest;
  host = "127.0.0.1";
  port = 8000;
  log_level = "info";
  accept_timeout_seconds = 100;
  request_timeout_seconds = 1200;
  health_timeout_seconds = 10;
  event_poll_seconds = 1;
  cancel_drain_timeout_seconds = 300;
  shutdown_grace_seconds = 300;
  max_http_body_bytes = 1024 * 1024;
  max_pending_requests = 8;
  max_client_delta_events_per_request = 64;
  max_sse_delta_events_per_request = 32;
  sampling_top_k = 1;
}

resolved-IsText : (p : String) → IsText (paths.resolve p)
resolved-IsText p = if_cases (λ q. str_eq q "" ≡ false) (str_eq p "") (λ _. refl) (λ e. e)

-- Seconds are counted in tenths here.
abbrev tenths : ℕ → ℕ
tenths n = n

loaded_config_starts_example :
    (post_init floats (runtime_options config) ≡ gives tt)
    × (validate_config floats (client_config config) ≡ gives tt)
    × (validate_manifest manifest ≡ ok tt)
unfolding load load_json_object load_fields load_capacities load_timeouts capacity seconds
    resolve_path require_fields without key text_at integer_at fits_sequence as_float number
    contains get keys Config.string Config.integer Config.manifest
loaded_config_starts_example =
    loaded_config_starts floats tenths paths files "g" config resolved-IsText refl
