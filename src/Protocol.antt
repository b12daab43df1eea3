-- ===== src/Protocol.antt =====
-- clients/python/kim_llm_client/protocol.py: the values that the Gateway and the Worker exchange.
-- An `int` field is a number (all its checked values are at least 0) but for `priority`.
pub mod Json
pub mod Result
pub mod Require
pub mod Parts
pub mod Decode
pub mod Frame
pub mod Validate
pub mod Encode
use kim_llm_serving.Prelude.{ℕ, String, Bool, ◌&&◌, Option, List, ◌==◌, str_eq}
use kim_llm_serving.Prelude.Int.{ℤ}

pub record Status : Type 0 where
  pub code : String
  pub message : String

-- `Status.ok`
abbrev pub is_ok : Status → Bool
is_ok s = str_eq s.code "ok"

pub record ModelManifest : Type 0 where
  pub model_id : String
  pub revision : String
  pub tokenizer_fingerprint : String
  pub chat_template_fingerprint : String
  pub engine_fingerprint : String
  pub eos_token_id : ℕ
  pub pad_token_id : ℕ
  pub max_input_tokens : ℕ
  pub max_output_tokens : ℕ
  pub max_sequence_tokens : ℕ
  pub precision : String
  pub max_batch_size : ℕ

pub record WorkerLimits : Type 0 where
  pub max_active_requests : ℕ
  pub max_total_input_tokens : ℕ
  pub max_reserved_output_tokens : ℕ
  pub max_frame_payload_bytes : ℕ
  pub max_session_egress_frames : ℕ
  pub max_session_egress_bytes : ℕ
  pub max_request_egress_frames : ℕ
  pub max_request_egress_bytes : ℕ

-- `F` is the type of Python's floats.
pub record SamplingParameters (F : Type 0) : Type 0 where
  pub temperature : F
  pub top_k : ℕ
  pub top_p : F
  pub random_seed : ℕ

pub record GenerationRequest (F : Type 0) : Type 0 where
  pub request_id : ℕ
  pub input_token_ids : List ℕ
  pub max_new_tokens : ℕ
  pub priority : ℤ
  pub timeout_ms : Option ℕ
  pub trace_id : String
  pub streaming : Bool
  pub sampling : SamplingParameters F
  pub end_id : Option ℕ
  pub pad_id : Option ℕ
  pub stop_sequences : List (List ℕ)

pub record HelloAck : Type 0 where
  pub worker_epoch : ℕ
  pub manifest : ModelManifest
  pub limits : WorkerLimits

pub record TokenDelta : Type 0 where
  pub request_id : ℕ
  pub sequence_no : ℕ
  pub token_ids : List ℕ

pub record Usage : Type 0 where
  pub prompt_tokens : ℕ
  pub completion_tokens : ℕ

abbrev pub no_usage : Usage
no_usage = record { prompt_tokens = 0; completion_tokens = 0 }

pub record Terminal : Type 0 where
  pub request_id : ℕ
  pub status : Status
  pub finish_reason : Option String
  pub usage : Usage

pub record Stats : Type 0 where
  pub probe_id : ℕ
  pub ready : Bool
  pub status : Status
  pub uptime_ms : ℕ
  pub active_requests : ℕ
  pub reserved_input_tokens : ℕ
  pub reserved_output_tokens : ℕ
  pub session_egress_frames : ℕ
  pub session_egress_bytes : ℕ
  pub session_egress_high_watermark_frames : ℕ
  pub session_egress_high_watermark_bytes : ℕ
  pub rejected_requests : ℕ
  pub backpressure_requests : ℕ
  pub cancelled_requests : ℕ

pub data ServerMessage : Type 0 where
  hello_ack : HelloAck → ServerMessage
  accepted : ℕ → ServerMessage
  rejected : ℕ → Status → ServerMessage
  token_delta : TokenDelta → ServerMessage
  terminal : Terminal → ServerMessage
  stats : Stats → ServerMessage

pub data GenerationEvent : Type 0 where
  delta : TokenDelta → GenerationEvent
  end : Terminal → GenerationEvent

-- `==` of the frozen dataclass: all fields.
unfoldable pub manifest_eq : ModelManifest → ModelManifest → Bool
manifest_eq a b =
    str_eq a.model_id b.model_id
    && (str_eq a.revision b.revision
        && (str_eq a.tokenizer_fingerprint b.tokenizer_fingerprint
            && (str_eq a.chat_template_fingerprint b.chat_template_fingerprint
                && (str_eq a.engine_fingerprint b.engine_fingerprint
                    && (a.eos_token_id == b.eos_token_id
                        && (a.pad_token_id == b.pad_token_id
                            && (a.max_input_tokens == b.max_input_tokens
                                && (a.max_output_tokens == b.max_output_tokens
                                    && (a.max_sequence_tokens == b.max_sequence_tokens
                                        && (str_eq a.precision b.precision
                                            && (a.max_batch_size == b.max_batch_size)))))))))))
