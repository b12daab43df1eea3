-- ===== src/Gateway/Config/Load.antt =====
-- `GatewayConfig` and its `load` of gateway/python/kim_llm_gateway/config.py.
use kim_llm_serving.Prelude.{
  ℕ, ◌*◌, String, Bool, not, ◌&&◌, none, some, List, [], ◌∷◌, ltb, str_append, if◌then◌else◌,
}
use kim_llm_serving.Prelude.Int.{pos}
use kim_llm_serving.Prelude.Attempt.{raises, gives, ◌>>=◌, ◌>>◌, unless_raise}
use kim_llm_serving.Protocol.{ModelManifest}
use kim_llm_serving.Protocol.Require.{u31_max}
use kim_llm_serving.Protocol.Json.{Json, Fields, int, float, str, obj, keys, get, contains}
use kim_llm_serving.Gateway.Floats.{Floats}
use kim_llm_serving.Gateway.Config.{
  config_error, escapes, FileError, Loading, require_fields, key, string, integer, manifest, number,
}

-- pathlib: `expanduser`, `is_absolute`, `base / path`, `str(path.resolve())` and `path.parent`.
pub record Paths : Type 0 where
  pub expanduser : String → String
  pub is_absolute : String → Bool
  pub join : String → String → String
  pub resolve : String → String
  pub parent : String → String

-- What reading and parsing a file comes to: an OSError, a text that is not JSON, one of the constants
-- that are refused, an exception that is not caught, or a value.
pub data File (F : Type 0) : Type 0 where
  unreadable : File F
  unparsable bad_constant : String → File F
  uncaught : FileError → File F
  parsed : Json F → File F

pub record GatewayConfig (F : Type 0) : Type 0 where
  pub worker_config_path : String
  pub tokenizer_path : String
  pub socket_path : String
  pub manifest : ModelManifest
  pub host : String
  pub port : ℕ
  pub log_level : String
  pub accept_timeout_seconds : F
  pub request_timeout_seconds : F
  pub health_timeout_seconds : F
  pub event_poll_seconds : F
  pub cancel_drain_timeout_seconds : F
  pub shutdown_grace_seconds : F
  pub max_http_body_bytes : ℕ
  pub max_pending_requests : ℕ
  pub max_client_delta_events_per_request : ℕ
  pub max_sse_delta_events_per_request : ℕ
  pub sampling_top_k : ℕ

-- The arguments of `cls(...)` in `load` that are timeouts, and those that are capacities.
pub record Timeouts (F : Type 0) : Type 0 where
  pub accept : F
  pub request : F
  pub health : F
  pub poll : F
  pub drain : F
  pub grace : F

pub record Capacities : Type 0 where
  pub body_bytes : ℕ
  pub pending : ℕ
  pub client_deltas : ℕ
  pub sse_deltas : ℕ
  pub top_k : ℕ

abbrev pub required_keys : List String
required_keys = "worker_config_path" ∷ "tokenizer_path" ∷ []

abbrev pub optional_keys : List String
optional_keys =
    "host" ∷ "port" ∷ "log_level" ∷ "accept_timeout_seconds" ∷ "request_timeout_seconds"
    ∷ "health_timeout_seconds" ∷ "event_poll_seconds" ∷ "cancel_drain_timeout_seconds"
    ∷ "shutdown_grace_seconds" ∷ "max_http_body_bytes" ∷ "max_pending_requests"
    ∷ "max_client_delta_events_per_request" ∷ "max_sse_delta_events_per_request" ∷ "sampling_top_k"
    ∷ []

abbrev pub log_levels : List String
log_levels = "critical" ∷ "error" ∷ "warning" ∷ "info" ∷ "debug" ∷ []

unfoldable pub resolve_path : Paths → String → String → String
resolve_path ps base value =
    let path = ps.expanduser value in
    ps.resolve (if ps.is_absolute path then path else ps.join base path)

module _ {F : Type 0} where
  pub json_object : File F → String → String → Loading (Fields F)
  json_object unreadable path description =
      raises (
        config_error (str_append "failed to read " (str_append description (str_append ": " path))))
  json_object (unparsable message) path description = raises (
      config_error
        (str_append "failed to parse " (str_append description (str_append ": " message))))
  json_object (bad_constant value) path description =
      raises (config_error (str_append "invalid JSON constant " value))
  json_object (uncaught e) path description = raises (escapes e)
  json_object (parsed (obj fs)) path description = gives fs
  json_object (parsed _) path description =
      raises (config_error (str_append description " must be a JSON object"))

  unfoldable pub load_json_object : (String → File F) → String → String → Loading (Fields F)
  unfolding json_object
  load_json_object read path description = json_object (read path) path description

  -- root.get(key, default)
  abbrev pub or_default : Fields F → String → Json F → Json F
  or_default fs k default = elim (get fs k) [ none ↦ default | some v ↦ v ]

  -- integer(root.get(key, default), key)
  unfoldable pub capacity : Fields F → String → ℕ → Loading ℕ
  capacity fs k default = integer (or_default fs k (int (pos default))) k 1 u31_max

  unfoldable pub load_capacities : Fields F → Loading Capacities
  unfolding capacity
  load_capacities root = do
    body_bytes ← capacity root "max_http_body_bytes" (1024 * 1024)
    pending ← capacity root "max_pending_requests" 8
    client_deltas ← capacity root "max_client_delta_events_per_request" 64
    sse_deltas ← capacity root "max_sse_delta_events_per_request" 32
    top_k ← capacity root "sampling_top_k" 1
    gives (record {
      body_bytes = body_bytes;
      pending = pending;
      client_deltas = client_deltas;
      sse_deltas = sse_deltas;
      top_k = top_k;
    })

-- `tenths n` is the float n / 10, as the defaults are written.
module _ {F : Type 0} (fl : Floats F) (tenths : ℕ → F) (ps : Paths) where
  -- number(root.get(key, default), key)
  unfoldable pub seconds : Fields F → String → ℕ → Loading F
  seconds fs k default = number fl (or_default fs k (float (tenths default))) k

  unfoldable pub load_timeouts : Fields F → Loading (Timeouts F)
  unfolding seconds
  load_timeouts root = do
    accept ← seconds root "accept_timeout_seconds" 100
    request ← seconds root "request_timeout_seconds" 1200
    health ← seconds root "health_timeout_seconds" 10
    poll ← seconds root "event_poll_seconds" 1
    drain ← seconds root "cancel_drain_timeout_seconds" 300
    grace ← seconds root "shutdown_grace_seconds" 300
    gives (record {
      accept = accept;
      request = request;
      health = health;
      poll = poll;
      drain = drain;
      grace = grace;
    })

  unfoldable pub load_fields :
      Fields F
      → Fields F
      → (worker_config_path : String) → (tokenizer_path : String) → Loading (GatewayConfig F)
  unfolding load_capacities load_timeouts resolve_path
  load_fields root worker worker_config_path tokenizer_path = do
    unless_raise (contains (keys worker) "socket_path" && contains (keys worker) "manifest")
        (config_error "Worker configuration must contain socket_path and manifest")
    socket_json ← key worker "socket_path"
    socket_value ← string socket_json "worker socket_path"
    manifest_json ← key worker "manifest"
    worker_manifest ← manifest manifest_json
    host ← string (or_default root "host" (str "127.0.0.1")) "host"
    port ← integer (or_default root "port" (int (pos 8000))) "port" 1 65535
    log_level ← string (or_default root "log_level" (str "info")) "log_level"
    t ← load_timeouts root
    c ← load_capacities root
    unless_raise (not (ltb c.client_deltas c.sse_deltas)) (
        config_error
          "max_sse_delta_events_per_request must not exceed the GenerationClient delta capacity")
    unless_raise (contains log_levels log_level) (config_error "log_level is unsupported")
    gives (record {
      worker_config_path = worker_config_path;
      tokenizer_path = tokenizer_path;
      socket_path = resolve_path ps (ps.parent worker_config_path) socket_value;
      manifest = worker_manifest;
      host = host;
      port = port;
      log_level = log_level;
      accept_timeout_seconds = t.accept;
      request_timeout_seconds = t.request;
      health_timeout_seconds = t.health;
      event_poll_seconds = t.poll;
      cancel_drain_timeout_seconds = t.drain;
      shutdown_grace_seconds = t.grace;
      max_http_body_bytes = c.body_bytes;
      max_pending_requests = c.pending;
      max_client_delta_events_per_request = c.client_deltas;
      max_sse_delta_events_per_request = c.sse_deltas;
      sampling_top_k = c.top_k;
    })

  unfoldable pub load : (String → File F) → String → Loading (GatewayConfig F)
  unfolding load_json_object load_fields
  load read path = do
    let config_path = ps.resolve (ps.expanduser path)
    root ← load_json_object read config_path "Gateway configuration"
    require_fields root required_keys optional_keys "Gateway configuration"
    worker_json ← key root "worker_config_path"
    worker_text ← string worker_json "worker_config_path"
    tokenizer_json ← key root "tokenizer_path"
    tokenizer_text ← string tokenizer_json "tokenizer_path"
    let base = ps.parent config_path
    let worker_config_path = resolve_path ps base worker_text
    let tokenizer_path = resolve_path ps base tokenizer_text
    worker ← load_json_object read worker_config_path "Worker configuration"
    load_fields root worker worker_config_path tokenizer_path
