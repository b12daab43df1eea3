-- ===== src/Protocol/Encode/Faithful.antt =====
-- That a Submit message tells its request (clients/python/kim_llm_client/protocol.py).
use kim_llm_serving.Prelude.{
  ℕ, ◌≡◌, refl, sym, ◌∙◌, String, Bool, Option, none, some, List, [], ◌∷◌, arith, ◌↔◌,
}
use kim_llm_serving.Prelude.Int.{ℤ, pos}
use kim_llm_serving.Protocol.{SamplingParameters, GenerationRequest}
use kim_llm_serving.Protocol.Json.{Json, Items, Fields, bool, int, str, arr, obj, field}
use kim_llm_serving.Protocol.Result.{Result, ok, err, ◌>>◌}
use kim_llm_serving.Protocol.Require.{u64_max}
use kim_llm_serving.Protocol.Parts.WellFormed.{InRange}
use kim_llm_serving.Protocol.Validate.{check_int, validate_request}
use kim_llm_serving.Protocol.Validate.Accepts.{check_int_iff}
use kim_llm_serving.Protocol.Validate.Sendable.{IsSendable, validate_request_iff}
use kim_llm_serving.Protocol.Encode.{
  ids_json, sequences_json, optional_json, sampling_json, submit_json, encode_submit,
}

module _ (F : Type 0) where
  ids_json-injective : (xs ys : List ℕ) → ids_json {F = F} xs ≡ ids_json ys → xs ≡ ys
  ids_json-injective [] [] e = refl
  ids_json-injective [] (y ∷ ys) e = absurd (cc)
  ids_json-injective (x ∷ xs) [] e = absurd (cc)
  ids_json-injective (x ∷ xs) (y ∷ ys) e =
      let rest : ids_json {F = F} xs ≡ ids_json ys = cc in
      let tails = ids_json-injective xs ys rest in
      let heads : x ≡ y = cc in ground (arith, heads, tails)

  sequences_json-injective :
      (xs ys : List (List ℕ)) → sequences_json {F = F} xs ≡ sequences_json ys → xs ≡ ys
  sequences_json-injective [] [] e = refl
  sequences_json-injective [] (y ∷ ys) e = absurd (cc)
  sequences_json-injective (x ∷ xs) [] e = absurd (cc)
  sequences_json-injective (x ∷ xs) (y ∷ ys) e =
      let rest : sequences_json {F = F} xs ≡ sequences_json ys = cc in
      let tails = sequences_json-injective xs ys rest in
      let ids : ids_json {F = F} x ≡ ids_json y = cc in
      ground (arith, ids_json-injective x y ids, tails)

  optional_json-injective : (x y : Option ℕ) → optional_json {F = F} x ≡ optional_json y → x ≡ y
  optional_json-injective none none e = refl
  optional_json-injective none (some y) e = absurd (cc)
  optional_json-injective (some x) none e = absurd (cc)
  optional_json-injective (some x) (some y) e = cc

  field-injective :
      (k : String) {v w : Json F} {fs gs : Fields F}
      → field k v fs ≡ field k w gs
      → (v ≡ w) × (fs ≡ gs)
  field-injective k e = (cc, cc)

  obj-injective : {fs gs : Fields F} → obj fs ≡ obj gs → fs ≡ gs
  obj-injective e = cc

  int-pos-injective : {m n : ℕ} → ◌≡◌ {A = Json F} (int (pos m)) (int (pos n)) → m ≡ n
  int-pos-injective e = cc

  arr-injective : {xs ys : Items F} → arr xs ≡ arr ys → xs ≡ ys
  arr-injective e = cc

  int-injective : {m n : ℤ} → ◌≡◌ {A = Json F} (int m) (int n) → m ≡ n
  int-injective e = cc

  bool-injective : {s t : Bool} → ◌≡◌ {A = Json F} (bool s) (bool t) → s ≡ t
  bool-injective e = cc

  str-injective : {s t : String} → ◌≡◌ {A = Json F} (str s) (str t) → s ≡ t
  str-injective e = cc

  sampling_json-injective : (s t : SamplingParameters F) → sampling_json s ≡ sampling_json t → s ≡ t
  sampling_json-injective s t e =
      let (t1, e1) = field-injective "temperature" (obj-injective e) in
      let (t2, e2) = field-injective "top_k" e1 in
      let (t3, e3) = field-injective "top_p" e2 in
      let (t4, e4) = field-injective "random_seed" e3 in
      let temperatures : s.temperature ≡ t.temperature = cc in
      let ps : s.top_p ≡ t.top_p = cc in
      λ i. record {
        temperature = temperatures i;
        top_k = int-pos-injective t2 i;
        top_p = ps i;
        random_seed = int-pos-injective t4 i;
      }

  submit_json-injective :
      (q r : GenerationRequest F) (d e : ℕ) → submit_json q d ≡ submit_json r e → (q ≡ r) × (d ≡ e)
  submit_json-injective q r d e same =
      let (v1, e1) = field-injective "type" (obj-injective same) in
      let (v2, e2) = field-injective "protocol_version" e1 in
      let (v3, e3) = field-injective "worker_epoch" e2 in
      let (v4, e4) = field-injective "request_id" e3 in
      let (v5, e5) = field-injective "priority" e4 in
      let (v6, e6) = field-injective "timeout_ms" e5 in
      let (v7, e7) = field-injective "trace_id" e6 in
      let (v8, e8) = field-injective "input_token_ids" e7 in
      let (v9, e9) = field-injective "max_new_tokens" e8 in
      let (v10, e10) = field-injective "streaming" e9 in
      let (v11, e11) = field-injective "sampling" e10 in
      let (v12, e12) = field-injective "end_id" e11 in
      let (v13, e13) = field-injective "pad_id" e12 in
      let (v14, e14) = field-injective "stop_sequences" e13 in
      let priorities = int-injective v5 in
      let streamings = bool-injective v10 in
      let samplings = sampling_json-injective q.sampling r.sampling v11 in
      let ids = ids_json-injective q.input_token_ids r.input_token_ids (arr-injective v8) in
      let stops = sequences_json-injective q.stop_sequences r.stop_sequences (arr-injective v14) in
      let timeouts = optional_json-injective q.timeout_ms r.timeout_ms v6 in
      let ends = optional_json-injective q.end_id r.end_id v12 in
      let pads = optional_json-injective q.pad_id r.pad_id v13 in
      (
        λ i. record {
          request_id = int-pos-injective v4 i;
          input_token_ids = ids i;
          max_new_tokens = int-pos-injective v9 i;
          priority = priorities i;
          timeout_ms = timeouts i;
          trace_id = str-injective v7 i;
          streaming = streamings i;
          sampling = samplings i;
          end_id = ends i;
          pad_id = pads i;
          stop_sequences = stops i;
        },
        int-pos-injective v3,
      )

then_ok :
    {A : Type 0} (m : Result (Unit {0})) (k : Result A) (a : A)
    → (m >> k) ≡ ok a
    → (m ≡ ok tt) × (k ≡ ok a)
then_ok (ok u) k a h = (refl, h)
then_ok (err e) k a h = absurd (cc)

module _ {F : Type 0} (is_finite is_positive above_one : F → Bool) where
  encoded :
      (q : GenerationRequest F) (d : ℕ) (j : Json F)
      → encode_submit is_finite is_positive above_one q d ≡ ok j
      → (validate_request is_finite is_positive above_one q ≡ ok tt)
        × (check_int d "worker_epoch" 1 u64_max ≡ ok tt)
        × (submit_json q d ≡ j)
  unfolding encode_submit
  encoded q d j h =
      let (valid, rest) = then_ok (validate_request is_finite is_positive above_one q) _ j h in
      let (epoch, message) = then_ok (check_int d "worker_epoch" 1 u64_max) _ j rest in
      (valid, epoch, cc)

  -- `encode_submit` gives a message exactly for a request in the protocol's ranges and an epoch
  -- from 1 to 2^64 - 1; on any other it is an error.
  pub encode_submit_iff :
      (q : GenerationRequest F) (d : ℕ)
      → ((j : Json F) × (encode_submit is_finite is_positive above_one q d ≡ ok j))
        ↔ (IsSendable is_finite is_positive above_one q × InRange 1 u64_max d)
  unfolding encode_submit
  encode_submit_iff q d = (
    λ (j, h).
        let (valid, epoch, message) = encoded q d j h in
        (
          (validate_request_iff is_finite is_positive above_one q).0 valid,
          (check_int_iff d "worker_epoch" 1 u64_max).0 epoch,
        ),
    λ (w, r).
        let valid = (validate_request_iff is_finite is_positive above_one q).1 w in
        let epoch = (check_int_iff d "worker_epoch" 1 u64_max).1 r in (submit_json q d, cc),
  )

  -- Two requests and epochs for which `encode_submit` gives the same message are the same: no field
  -- is left out of the message, and no two requests share one.
  pub submit_encoding_is_faithful :
      (q r : GenerationRequest F) (d e : ℕ) (j : Json F)
      → encode_submit is_finite is_positive above_one q d ≡ ok j
      → encode_submit is_finite is_positive above_one r e ≡ ok j
      → (q ≡ r) × (d ≡ e)
  submit_encoding_is_faithful q r d e j first second =
      submit_json-injective F q r d e ((encoded q d j first).2 ∙ sym ((encoded r e j second).2))
