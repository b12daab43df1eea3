-- ===== src/Protocol/Parts/WellFormed.antt =====
-- What holds of the parts of a message that clients/python/kim_llm_client/protocol.py has read:
-- each reader returns a value with its predicate, or raises a `ProtocolError`.
use kim_llm_serving.Prelude.{
  ℕ, ◌≤◌, String, ◌≡◌, refl, true, false, Option, none, some, List, [], ◌∷◌, arith, All, str_eq,
}
use kim_llm_serving.Protocol.{Status, ModelManifest, WorkerLimits, Usage}
use kim_llm_serving.Protocol.Json.{Json, Items, Fields, null, arr, contains, to_list}
use kim_llm_serving.Protocol.Result.{
  ok, ◌>>=◌, ◌>>◌, Post, returned, refused, Post-bind, Post-require, require, unknown_status_code,
  unknown_finish_reason, manifest_limits_exceed_sequence, limit_hierarchy_inconsistent,
}
use kim_llm_serving.Protocol.Require.{
  u31_max, u32_max, u64_max, HasFields, require_exact_fields-Post, item-Post, require_string,
  require_string-Post, require_int-Post, require_protocol-Post, require_epoch-Post,
}
use kim_llm_serving.Protocol.Parts.{
  status_codes, finish_reasons, manifest_fields, limits_fields, fits_sequence, is_hierarchy,
  int_field, text_field, status_from_json, manifest_from_json, limits_from_json, usage_from_json,
  request_envelope, token_ids_from_json, tokens_from_json, finish_reason_from_json,
}

abbrev pub IsText : String → Type 0
IsText s = str_eq s "" ≡ false

abbrev pub InRange : ℕ → ℕ → ℕ → Type 0
InRange lo hi n = (lo ≤ n) × (n ≤ hi)

abbrev pub IsKnownStatus : Status → Type 0
IsKnownStatus s = contains status_codes s.code ≡ true

pub record IsManifest (m : ModelManifest) : Type 0 where
  pub model_id : IsText m.model_id
  pub revision : IsText m.revision
  pub tokenizer_fingerprint : IsText m.tokenizer_fingerprint
  pub chat_template_fingerprint : IsText m.chat_template_fingerprint
  pub engine_fingerprint : IsText m.engine_fingerprint
  pub eos_token_id : InRange 0 u31_max m.eos_token_id
  pub pad_token_id : InRange 0 u31_max m.pad_token_id
  pub max_input_tokens : InRange 1 u32_max m.max_input_tokens
  pub max_output_tokens : InRange 1 u32_max m.max_output_tokens
  pub max_sequence_tokens : InRange 1 u32_max m.max_sequence_tokens
  pub precision : IsText m.precision
  pub max_batch_size : InRange 1 u32_max m.max_batch_size
  pub input_fits : m.max_input_tokens ≤ m.max_sequence_tokens
  pub output_fits : m.max_output_tokens ≤ m.max_sequence_tokens

pub record IsLimits (l : WorkerLimits) : Type 0 where
  pub max_active_requests : InRange 1 u32_max l.max_active_requests
  pub max_total_input_tokens : InRange 1 u64_max l.max_total_input_tokens
  pub max_reserved_output_tokens : InRange 1 u64_max l.max_reserved_output_tokens
  pub max_frame_payload_bytes : InRange 1 u32_max l.max_frame_payload_bytes
  pub max_session_egress_frames : InRange 1 u32_max l.max_session_egress_frames
  pub max_session_egress_bytes : InRange 1 u64_max l.max_session_egress_bytes
  pub max_request_egress_frames : InRange 1 u32_max l.max_request_egress_frames
  pub max_request_egress_bytes : InRange 1 u64_max l.max_request_egress_bytes
  pub frames_fit : l.max_request_egress_frames ≤ l.max_session_egress_frames
  pub bytes_fit : l.max_request_egress_bytes ≤ l.max_session_egress_bytes
  pub frame_fits : l.max_frame_payload_bytes ≤ l.max_request_egress_bytes

abbrev pub IsUsage : Usage → Type 0
IsUsage u = InRange 0 u64_max u.prompt_tokens × InRange 0 u64_max u.completion_tokens

abbrev pub AreTokens : List ℕ → Type 0
AreTokens [] = ⊥
AreTokens (t ∷ ts) = InRange 0 u31_max t × All (InRange 0 u31_max) ts

abbrev pub IsReason : Option String → Type 0
IsReason none = Unit
IsReason (some r) = contains finish_reasons r ≡ true

pub fits_sequence-le :
    (m : ModelManifest)
    → fits_sequence m ≡ true
    → (m.max_input_tokens ≤ m.max_sequence_tokens) × (m.max_output_tokens ≤ m.max_sequence_tokens)
unfolding fits_sequence
fits_sequence-le m h = ground arith

is_hierarchy-le :
    (l : WorkerLimits)
    → is_hierarchy l ≡ true
    → (l.max_request_egress_frames ≤ l.max_session_egress_frames)
      × (l.max_request_egress_bytes ≤ l.max_session_egress_bytes)
      × (l.max_frame_payload_bytes ≤ l.max_request_egress_bytes)
unfolding is_hierarchy
is_hierarchy-le l h = ground arith

module _ {F : Type 0} where
  pub int_field-Post :
      (fs : Fields F) (expected : List String) (k : String) (lo hi : ℕ)
      → HasFields fs expected
      → contains expected k ≡ true
      → Post (InRange lo hi) (int_field fs k lo hi)
  unfolding int_field
  int_field-Post fs expected k lo hi h m =
      Post-bind (item-Post fs expected k h m) λ v _. require_int-Post v k lo hi

  text_field-Post :
      (fs : Fields F) (expected : List String) (k : String)
      → HasFields fs expected
      → contains expected k ≡ true
      → Post IsText (text_field fs k)
  unfolding text_field
  text_field-Post fs expected k h m =
      Post-bind (item-Post fs expected k h m) λ v _. require_string-Post v k true

  pub status_from_json-Post : (v : Json F) → Post IsKnownStatus (status_from_json v)
  unfolding status_from_json contains
  status_from_json-Post v = Post-bind (require_exact_fields-Post v _ _) λ fs h.
      Post-bind (item-Post fs _ "code" h refl) λ c _.
        Post-bind (require_string-Post c _ true) λ code _.
          Post-bind (Post-require (contains status_codes code) (unknown_status_code code) tt)
            λ _ known.
              Post-bind (item-Post fs _ "message" h refl)
                λ m _. Post-bind (require_string-Post m _ false) λ message _. returned known

  pub usage_from_json-Post : (v : Json F) → Post IsUsage (usage_from_json v)
  unfolding usage_from_json contains
  usage_from_json-Post v = Post-bind (require_exact_fields-Post v _ _) λ fs h.
      Post-bind (int_field-Post fs _ "prompt_tokens" _ _ h refl)
        λ _ p. Post-bind (int_field-Post fs _ "completion_tokens" _ _ h refl) λ _ c. returned (p, c)

  pub manifest_from_json-Post : (v : Json F) → Post IsManifest (manifest_from_json v)
  unfolding manifest_from_json contains
  manifest_from_json-Post v = Post-bind (require_exact_fields-Post v _ _) λ fs h.
      let text = λ (k : String) (m : contains manifest_fields k ≡ true).
        text_field-Post fs manifest_fields k h m in
      let number = λ (k : String) (lo hi : ℕ) (m : contains manifest_fields k ≡ true).
        int_field-Post fs manifest_fields k lo hi h m in
      Post-bind (text "model_id" refl) λ a1 h1. Post-bind (text "revision" refl) λ a2 h2.
        Post-bind (text "tokenizer_fingerprint" refl) λ a3 h3.
          Post-bind (text "chat_template_fingerprint" refl) λ a4 h4.
            Post-bind (text "engine_fingerprint" refl) λ a5 h5.
              Post-bind (number "eos_token_id" _ _ refl) λ a6 h6.
                Post-bind (number "pad_token_id" _ _ refl) λ a7 h7.
                  Post-bind (number "max_input_tokens" _ _ refl) λ a8 h8.
                    Post-bind (number "max_output_tokens" _ _ refl) λ a9 h9.
                      Post-bind (number "max_sequence_tokens" _ _ refl) λ a10 h10.
                        Post-bind (text "precision" refl) λ a11 h11.
                          Post-bind (number "max_batch_size" _ _ refl) λ a12 h12.
                            Post-bind (Post-require _ manifest_limits_exceed_sequence tt) λ _ fits.
                              returned (record {
                                model_id = h1;
                                revision = h2;
                                tokenizer_fingerprint = h3;
                                chat_template_fingerprint = h4;
                                engine_fingerprint = h5;
                                eos_token_id = h6;
                                pad_token_id = h7;
                                max_input_tokens = h8;
                                max_output_tokens = h9;
                                max_sequence_tokens = h10;
                                precision = h11;
                                max_batch_size = h12;
                                input_fits = (fits_sequence-le _ fits).0;
                                output_fits = (fits_sequence-le _ fits).1;
                              })

  pub limits_from_json-Post : (v : Json F) → Post IsLimits (limits_from_json v)
  unfolding limits_from_json contains
  limits_from_json-Post v = Post-bind (require_exact_fields-Post v _ _) λ fs h.
      let number = λ (k : String) (lo hi : ℕ) (m : contains limits_fields k ≡ true).
        int_field-Post fs limits_fields k lo hi h m in
      Post-bind (number "max_active_requests" _ _ refl) λ a1 h1.
        Post-bind (number "max_total_input_tokens" _ _ refl) λ a2 h2.
          Post-bind (number "max_reserved_output_tokens" _ _ refl) λ a3 h3.
            Post-bind (number "max_frame_payload_bytes" _ _ refl) λ a4 h4.
              Post-bind (number "max_session_egress_frames" _ _ refl) λ a5 h5.
                Post-bind (number "max_session_egress_bytes" _ _ refl) λ a6 h6.
                  Post-bind (number "max_request_egress_frames" _ _ refl) λ a7 h7.
                    Post-bind (number "max_request_egress_bytes" _ _ refl) λ a8 h8.
                      Post-bind (Post-require _ limit_hierarchy_inconsistent tt) λ _ ordered.
                        returned (record {
                          max_active_requests = h1;
                          max_total_input_tokens = h2;
                          max_reserved_output_tokens = h3;
                          max_frame_payload_bytes = h4;
                          max_session_egress_frames = h5;
                          max_session_egress_bytes = h6;
                          max_request_egress_frames = h7;
                          max_request_egress_bytes = h8;
                          frames_fit = (is_hierarchy-le _ ordered).0;
                          bytes_fit = (is_hierarchy-le _ ordered).1;
                          frame_fits = (is_hierarchy-le _ ordered).2;
                        })

  pub request_envelope-Post :
      (fs : Fields F) (expected : List String) (epoch : ℕ)
      → HasFields fs expected
      → contains expected "protocol_version" ≡ true
      → contains expected "worker_epoch" ≡ true
      → contains expected "request_id" ≡ true
      → Post (InRange 1 u64_max) (request_envelope fs epoch)
  unfolding request_envelope
  request_envelope-Post fs expected epoch h v w r =
      Post-bind (item-Post fs expected "protocol_version" h v) λ version _.
        Post-bind (require_protocol-Post version) λ _ _.
          Post-bind (item-Post fs expected "worker_epoch" h w) λ e _.
            Post-bind (require_epoch-Post e (some epoch))
              λ _ _. int_field-Post fs expected "request_id" 1 u64_max h r

  token_ids_from_json-Post :
      (vs : List (Json F)) → Post (All (InRange 0 u31_max)) (token_ids_from_json vs)
  unfolding token_ids_from_json
  token_ids_from_json-Post [] = returned tt
  token_ids_from_json-Post (v ∷ vs) =
      Post-bind (require_int-Post v _ _ _)
        λ _ h. Post-bind (token_ids_from_json-Post vs) λ _ hs. returned (h, hs)

  pub tokens_from_json-Post : (v : Json F) → Post AreTokens (tokens_from_json v)
  unfolding tokens_from_json token_ids_from_json
  tokens_from_json-Post (arr (Items.cons v vs)) =
      Post-bind (require_int-Post v _ _ _)
        λ _ h. Post-bind (token_ids_from_json-Post (to_list vs)) λ _ hs. returned (h, hs)
  tokens_from_json-Post _ = refused tt

  reason-Post :
      (v : Json F)
      → Post IsReason (do
        reason ← require_string v "finish_reason" true
        require (contains finish_reasons reason) (unknown_finish_reason reason)
        ok (some reason))
  reason-Post v = Post-bind (require_string-Post v _ true) λ r _.
      Post-bind (Post-require (contains finish_reasons r) (unknown_finish_reason r) tt)
        λ _ known. returned known

  pub finish_reason_from_json-Post : (v : Json F) → Post IsReason (finish_reason_from_json v)
  unfolding finish_reason_from_json
  finish_reason_from_json-Post null = returned tt
  finish_reason_from_json-Post v = reason-Post v
