-- ===== src/Client/State.antt =====
-- The state of `GenerationClient` of clients/python/kim_llm_client/generation_client.py.
-- `_RequestState` objects are shared: the dict of requests, the thread that waits in `submit` and the
-- consumer's handle refer to one object. So objects stand on a heap, by the order of allocation.
use kim_llm_serving.Prelude.{
  ℕ, Bool, false, Option, none, some, List, [], ◌∷◌, ◌&&◌, is_some, ◌==◌, if◌then◌else◌, String,
}
use kim_llm_serving.Protocol.{Status, ModelManifest, HelloAck, Stats}
use kim_llm_serving.Protocol.Result.{Error}
use kim_llm_serving.Client.Buffer.{EventBuffer}

-- The fields of `GenerationClientConfig` that the client's state depends on.
pub record ClientConfig : Type 0 where
  pub expected_manifest : ModelManifest
  pub max_frame_payload_bytes : ℕ
  pub max_pending_requests : ℕ
  pub max_delta_events_per_request : ℕ

pub record RequestState : Type 0 where
  pub request_id : ℕ
  pub events : EventBuffer
  pub accepted : Bool
  pub rejected : Option Status
  pub failure : Option Status
  pub next_sequence_no : ℕ
  pub terminal_received : Bool
  pub cancel_sent : Bool

abbrev pub Heap : Type 0
Heap = ℕ → Option RequestState

-- A dict from request ids to objects, as (key, reference) in insertion order.
abbrev pub Requests : Type 0
Requests = List (ℕ × ℕ)

pub record Client : Type 0 where
  pub config : ClientConfig
  pub socket : Option ℕ
  pub reader_alive : Bool
  pub hello_ack : Option HelloAck
  pub connected : Bool
  pub requests : Requests
  pub heap : Heap
  pub fresh : ℕ
  -- The keys of `_probes`, and what stands in the probes' queues of one place each.
  pub probes : List ℕ
  pub responses : ℕ → Option (Option Stats)
  pub next_probe_id : ℕ

-- The exceptions that a method raises.
pub data ClientError : Type 0 where
  not_connected already_connected : ClientError
  already_active : ℕ → ClientError
  capacity_full : ClientError
  invalid_request : String → ClientError
  request_rejected : ℕ → Status → ClientError
  worker_unavailable : String → ClientError
  protocol_error : String → ClientError
  unknown_request : ℕ → ClientError
  decode_error : Error → ClientError

pub data Outcome {ℓ} (A : Type ℓ) : Type ℓ where
  returned : A → Outcome A
  raised : ClientError → Outcome A

-- d.get(k)
unfoldable pub find : Requests → ℕ → Option ℕ
find [] k = none
find ((j, r) ∷ rs) k = if j == k then some r else find rs k

-- d.pop(k, None)
unfoldable pub pop : Requests → ℕ → Requests
pop [] k = []
pop ((j, r) ∷ rs) k = let rest = pop rs k in if j == k then rs else (j, r) ∷ rest

unfoldable pub write : Heap → ℕ → RequestState → Heap
write h r st q = if r == q then some st else h q

-- self._requests.get(request_id)
unfoldable pub state_of : Client → ℕ → Option (ℕ × RequestState)
state_of c id = elim (find c.requests id) [
  | none ↦ none
  | some r ↦ elim (c.heap r) [ none ↦ none | some st ↦ some (r, st) ]
]

-- `_require_connected_locked`
unfoldable pub require_connected_locked : Client → Outcome HelloAck
require_connected_locked c =
    if c.connected && is_some c.socket
    then elim c.hello_ack [ none ↦ raised not_connected | some a ↦ returned a ]
    else raised not_connected

-- `GenerationClient.__init__`, of a valid configuration.
unfoldable pub new_client : ClientConfig → Client
new_client config = record {
  config = config;
  socket = none;
  reader_alive = false;
  hello_ack = none;
  connected = false;
  requests = [];
  heap = λ _. none;
  fresh = 0;
  probes = [];
  responses = λ _. none;
  next_probe_id = 1;
}
