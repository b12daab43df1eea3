-- ===== src/Protocol/Validate/Sendable.antt =====
-- Which requests `_validate_request` of clients/python/kim_llm_client/protocol.py lets through.
use kim_llm_serving.Prelude.{
  ℕ, ◌≡◌, ◌↔◌, String, Bool, true, false, ◌&&◌, not, Option, none, some, List, [], ◌∷◌, arith,
  is_empty, All,
}
use kim_llm_serving.Prelude.Int.{ℤ, pos, negsuc, ◌≤ℤ◌}
use kim_llm_serving.Protocol.{GenerationRequest}
use kim_llm_serving.Protocol.Result.{Result, ok, err, ◌>>◌, require, Error}
use kim_llm_serving.Protocol.Require.{u31_max, u32_max, u64_max}
use kim_llm_serving.Protocol.Parts.WellFormed.{InRange}
use kim_llm_serving.Protocol.Validate.{
  check_tokens, check_optional, check_stops, in_int32, validate_request,
}
use kim_llm_serving.Protocol.Validate.Accepts.{require_iff, check_int_iff}

abbrev pub IsOptional : (ℕ → Type 0) → Option ℕ → Type 0
IsOptional P none = Unit
IsOptional P (some n) = P n

-- A stop sequence: one or more token ids.
abbrev pub IsStop : List ℕ → Type 0
IsStop s = (is_empty s ≡ false) × All (InRange 0 u31_max) s

module _ {F : Type 0} (is_finite is_positive above_one : F → Bool) where
  pub record IsSendable (q : GenerationRequest F) : Type 0 where
    pub request_id : InRange 1 u64_max q.request_id
    pub input : is_empty q.input_token_ids ≡ false
    pub tokens : All (InRange 0 u31_max) q.input_token_ids
    pub max_new_tokens : InRange 1 u32_max q.max_new_tokens
    pub priority : (negsuc u31_max ≤ℤ q.priority) × (q.priority ≤ℤ pos u31_max)
    pub timeout_ms : IsOptional (InRange 1 u64_max) q.timeout_ms
    pub finite_temperature : is_finite q.sampling.temperature ≡ true
    pub temperature : is_positive q.sampling.temperature ≡ true
    pub top_k : InRange 0 u31_max q.sampling.top_k
    pub finite_top_p : is_finite q.sampling.top_p ≡ true
    pub top_p : (is_positive q.sampling.top_p ≡ true) × (above_one q.sampling.top_p ≡ false)
    pub random_seed : InRange 0 u64_max q.sampling.random_seed
    pub end_id : IsOptional (InRange 0 u31_max) q.end_id
    pub pad_id : IsOptional (InRange 0 u31_max) q.pad_id
    pub stops : All IsStop q.stop_sequences

both_iff :
    {P Q : Type 0} {m k : Result (Unit {0})}
    → ((m ≡ ok tt) ↔ P)
    → ((k ≡ ok tt) ↔ Q)
    → ((m >> k) ≡ ok tt) ↔ (P × Q)
both_iff {m = ok u} p q = ground (arith, p, q)
both_iff {m = err e} p q = ground (arith, p, q)

require-not_iff : (b : Bool) (e : Error) → (require (not b) e ≡ ok tt) ↔ (b ≡ false)
require-not_iff true e = ground arith
require-not_iff false e = ground arith

check_tokens_iff :
    (ts : List ℕ) (d : String) → (check_tokens ts d ≡ ok tt) ↔ All (InRange 0 u31_max) ts
unfolding check_tokens
check_tokens_iff [] d = ground arith
check_tokens_iff (t ∷ ts) d = both_iff (check_int_iff t d 0 u31_max) (check_tokens_iff ts d)

check_optional_iff :
    (o : Option ℕ) (d : String) (lo hi : ℕ)
    → (check_optional o d lo hi ≡ ok tt) ↔ IsOptional (InRange lo hi) o
unfolding check_optional
check_optional_iff none d lo hi = ground arith
check_optional_iff (some n) d lo hi = check_int_iff n d lo hi

check_stops_iff : (ss : List (List ℕ)) → (check_stops ss ≡ ok tt) ↔ All IsStop ss
unfolding check_stops
check_stops_iff [] = ground arith
check_stops_iff (s ∷ ss) =
    both_iff (both_iff (require-not_iff (is_empty s) _) (check_tokens_iff s _)) (check_stops_iff ss)

priority_iff :
    (n : ℤ) (e : Error)
    → (require (in_int32 n) e ≡ ok tt) ↔ ((negsuc u31_max ≤ℤ n) × (n ≤ℤ pos u31_max))
unfolding in_int32
priority_iff (pos n) e = ground (arith, require_iff (in_int32 (pos n)) e)
priority_iff (negsuc n) e = ground (arith, require_iff (in_int32 (negsuc n)) e)

above_iff : (a b : Bool) (e : Error) → (require (a && not b) e ≡ ok tt) ↔ ((a ≡ true) × (b ≡ false))
above_iff a b e = ground (arith, require_iff (a && not b) e)

module _ {F : Type 0} (is_finite is_positive above_one : F → Bool) where
  -- The checks as they stand one after the other.
  abbrev Checks : GenerationRequest F → Type 0
  Checks q =
      ((((((((((((((InRange 1 u64_max q.request_id × (is_empty q.input_token_ids ≡ false))
                                × All (InRange 0 u31_max) q.input_token_ids)
                              × InRange 1 u32_max q.max_new_tokens)
                            × ((negsuc u31_max ≤ℤ q.priority) × (q.priority ≤ℤ pos u31_max)))
                          × IsOptional (InRange 1 u64_max) q.timeout_ms)
                        × (is_finite q.sampling.temperature ≡ true))
                      × (is_positive q.sampling.temperature ≡ true))
                    × InRange 0 u31_max q.sampling.top_k)
                  × (is_finite q.sampling.top_p ≡ true))
                × ((is_positive q.sampling.top_p ≡ true) × (above_one q.sampling.top_p ≡ false)))
              × InRange 0 u64_max q.sampling.random_seed)
            × IsOptional (InRange 0 u31_max) q.end_id)
          × IsOptional (InRange 0 u31_max) q.pad_id)
        × All IsStop q.stop_sequences)

  fields : (q : GenerationRequest F) → Checks q → IsSendable is_finite is_positive above_one q
  fields q c =
      let (
        (((((((((((((p0, p1), p2), p3), p4), p5), p6), p7), p8), p9), p10), p11), p12), p13),
        p14,
      ) =
        c in
      record {
        request_id = p0;
        input = p1;
        tokens = p2;
        max_new_tokens = p3;
        priority = p4;
        timeout_ms = p5;
        finite_temperature = p6;
        temperature = p7;
        top_k = p8;
        finite_top_p = p9;
        top_p = p10;
        random_seed = p11;
        end_id = p12;
        pad_id = p13;
        stops = p14;
      }

  unfields : (q : GenerationRequest F) → IsSendable is_finite is_positive above_one q → Checks q
  unfields q w = (
    (
      (
        (
          (
            (
              (
                (
                  (
                    (
                      ((((w.request_id, w.input), w.tokens), w.max_new_tokens), w.priority),
                      w.timeout_ms,
                    ),
                    w.finite_temperature,
                  ),
                  w.temperature,
                ),
                w.top_k,
              ),
              w.finite_top_p,
            ),
            w.top_p,
          ),
          w.random_seed,
        ),
        w.end_id,
      ),
      w.pad_id,
    ),
    w.stops,
  )

  -- `_validate_request` lets exactly those requests through whose ids, tokens and limits are in the
  -- protocol's ranges, with one or more input tokens and no empty stop sequence, a finite positive
  -- temperature, and a finite top_p that is positive and not above one.
  pub validate_request_iff :
      (q : GenerationRequest F)
      → (validate_request is_finite is_positive above_one q ≡ ok tt)
        ↔ IsSendable is_finite is_positive above_one q
  unfolding validate_request
  validate_request_iff q = (λ h. fields q (checks.0 h), λ w. checks.1 (unfields q w))
    where
      checks : (validate_request is_finite is_positive above_one q ≡ ok tt) ↔ Checks q
      checks =
          both_iff
            (both_iff
              (both_iff
                (both_iff
                  (both_iff
                    (both_iff
                      (both_iff
                        (both_iff
                          (both_iff
                            (both_iff
                              (both_iff
                                (both_iff
                                  (both_iff
                                    (both_iff (check_int_iff q.request_id _ 1 u64_max)
                                      (require-not_iff (is_empty q.input_token_ids) _))
                                    (check_tokens_iff q.input_token_ids _))
                                  (check_int_iff q.max_new_tokens _ 1 u32_max))
                                (priority_iff q.priority _))
                              (check_optional_iff q.timeout_ms _ 1 u64_max))
                            (require_iff (is_finite q.sampling.temperature) _))
                          (require_iff (is_positive q.sampling.temperature) _))
                        (check_int_iff q.sampling.top_k _ 0 u31_max))
                      (require_iff (is_finite q.sampling.top_p) _))
                    (above_iff (is_positive q.sampling.top_p) (above_one q.sampling.top_p) _))
                  (check_int_iff q.sampling.random_seed _ 0 u64_max))
                (check_optional_iff q.end_id _ 0 u31_max))
              (check_optional_iff q.pad_id _ 0 u31_max))
            (check_stops_iff q.stop_sequences)
