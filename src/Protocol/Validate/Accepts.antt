-- ===== src/Protocol/Validate/Accepts.antt =====
-- Which values the checks before encoding let through.
use kim_llm_serving.Prelude.{ℕ, ◌≤◌, ◌≡◌, ◌↔◌, String, Bool, true, false, ◌&&◌, arith, leb}
use kim_llm_serving.Protocol.{ModelManifest}
use kim_llm_serving.Protocol.Result.{Result, ok, err, ◌>>◌, require, Error}
use kim_llm_serving.Protocol.Parts.{fits_sequence}
use kim_llm_serving.Protocol.Parts.WellFormed.{IsManifest, IsText, InRange}
use kim_llm_serving.Protocol.Validate.{check_int, has_texts, validate_manifest}

-- Both of two checks pass.
then_iff : (m k : Result (Unit {0})) → ((m >> k) ≡ ok tt) ↔ ((m ≡ ok tt) × (k ≡ ok tt))
then_iff (ok u) k = ground arith
then_iff (err e) k = ground arith

pub require_iff : (b : Bool) (e : Error) → (require b e ≡ ok tt) ↔ (b ≡ true)
require_iff true e = ground arith
require_iff false e = ground arith

pub check_int_iff :
    (n : ℕ) (d : String) (lo hi : ℕ) → (check_int n d lo hi ≡ ok tt) ↔ InRange lo hi n
unfolding check_int
check_int_iff n d lo hi = ground (arith, require_iff (leb lo n && leb n hi))

has_texts_iff :
    (m : ModelManifest)
    → (has_texts m ≡ true) ↔ (
        IsText m.model_id
        × IsText m.revision
        × IsText m.tokenizer_fingerprint
        × IsText m.chat_template_fingerprint
        × IsText m.engine_fingerprint
        × IsText m.precision)
unfolding has_texts
has_texts_iff m = ground arith

fits_sequence_iff :
    (m : ModelManifest)
    → (fits_sequence m ≡ true) ↔ (
        (m.max_input_tokens ≤ m.max_sequence_tokens)
        × (m.max_output_tokens ≤ m.max_sequence_tokens))
unfolding fits_sequence
fits_sequence_iff m = ground arith

-- `_validate_manifest` lets exactly the well-formed manifests through: six non-empty texts, token ids,
-- limits and a batch size in the protocol's ranges, and input and output limits that do not exceed the
-- sequence limit.
pub validate_manifest_iff : (m : ModelManifest) → (validate_manifest m ≡ ok tt) ↔ IsManifest m
unfolding validate_manifest
validate_manifest_iff m = (passed, passes)
  where
    passed : validate_manifest m ≡ ok tt → IsManifest m
    passed h =
        let (h, fits) = (then_iff _ _).0 h in
        let (h, batch) = (then_iff _ _).0 h in
        let (h, sequence) = (then_iff _ _).0 h in
        let (h, output) = (then_iff _ _).0 h in
        let (h, input) = (then_iff _ _).0 h in
        let (h, pad) = (then_iff _ _).0 h in
        let (texts, eos) = (then_iff _ _).0 h in
        let t = (has_texts_iff m).0 ((require_iff _ _).0 texts) in
        let f = (fits_sequence_iff m).0 ((require_iff _ _).0 fits) in
        record {
          model_id = t.0;
          revision = t.1;
          tokenizer_fingerprint = t.2;
          chat_template_fingerprint = t.3;
          engine_fingerprint = t.4;
          precision = t.5;
          eos_token_id = (check_int_iff _ _ _ _).0 eos;
          pad_token_id = (check_int_iff _ _ _ _).0 pad;
          max_input_tokens = (check_int_iff _ _ _ _).0 input;
          max_output_tokens = (check_int_iff _ _ _ _).0 output;
          max_sequence_tokens = (check_int_iff _ _ _ _).0 sequence;
          max_batch_size = (check_int_iff _ _ _ _).0 batch;
          input_fits = f.0;
          output_fits = f.1;
        }

    passes : IsManifest m → validate_manifest m ≡ ok tt
    passes w =
        let texts = (has_texts_iff m).1 (
          w.model_id, w.revision, w.tokenizer_fingerprint, w.chat_template_fingerprint,
          w.engine_fingerprint, w.precision,
        ) in
        let fits = (fits_sequence_iff m).1 (w.input_fits, w.output_fits) in
        (then_iff _ _).1 (
          (then_iff _ _).1 (
            (then_iff _ _).1 (
              (then_iff _ _).1 (
                (then_iff _ _).1 (
                  (then_iff _ _).1 (
                    (then_iff _ _).1
                        ((require_iff _ _).1 texts, (check_int_iff _ _ _ _).1 w.eos_token_id),
                    (check_int_iff _ _ _ _).1 w.pad_token_id,
                  ),
                  (check_int_iff _ _ _ _).1 w.max_input_tokens,
                ),
                (check_int_iff _ _ _ _).1 w.max_output_tokens,
              ),
              (check_int_iff _ _ _ _).1 w.max_sequence_tokens,
            ),
            (check_int_iff _ _ _ _).1 w.max_batch_size,
          ),
          (require_iff _ _).1 fits,
        )
