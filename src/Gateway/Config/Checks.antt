-- ===== src/Gateway/Config/Checks.antt =====
-- What the checks of gateway/python/kim_llm_gateway/config.py give and raise.
use kim_llm_serving.Prelude.{
  ℕ, ◌≤◌, ◌≡◌, String, true, false, ◌&&◌, none, List, [], ◌∷◌, ◌++◌, arith, leb, str_eq, is_empty,
  Option-cases, inl, inr, eq_iff,
}
use kim_llm_serving.Prelude.Int.{pos}
use kim_llm_serving.Prelude.Attempt.{
  Ends, given, raised, Ends-then, Ends-unless, Ends-if, Ends-weaken,
}
use kim_llm_serving.Protocol.Require.{u31_max}
use kim_llm_serving.Protocol.Parts.WellFormed.{IsText, InRange, IsManifest}
use kim_llm_serving.Protocol.Json.{
  Json, Fields, null, int, float, str, keys, contains, get_of_contains,
}
use kim_llm_serving.Gateway.Floats.{Floats}
use kim_llm_serving.Gateway.Config.{
  found_key, ConfigFailure, config_error, escapes, FileError, float_overflow, no_key, without,
  require_fields, key, string, integer, converted, as_float, number,
}
use kim_llm_serving.Gateway.Config.Load.{Paths, GatewayConfig, log_levels}

module _ {F : Type 0} (fl : Floats F) where
  -- A GatewayConfigError, the OverflowError of an int that has no float, or an exception of a file
  -- with `Escapes`; a KeyError never.
  abbrev pub IsConfigFailure : (FileError → Type 0) → ConfigFailure → Type 0
  IsConfigFailure Escapes (config_error message) = Unit
  IsConfigFailure Escapes (float_overflow i) = fl.of_int i ≡ none
  IsConfigFailure Escapes (no_key k) = ⊥
  IsConfigFailure Escapes (escapes e) = Escapes e

  abbrev pub IsSeconds : F → Type 0
  IsSeconds x = (fl.is_finite x ≡ true) × (fl.le x fl.zero ≡ false)

  abbrev pub IsCapacity : ℕ → Type 0
  IsCapacity n = InRange 1 u31_max n

  pub record IsConfig (ps : Paths) (c : GatewayConfig F) : Type 0 where
    pub socket_path : (path : String) × (c.socket_path ≡ ps.resolve path)
    pub manifest : IsManifest c.manifest
    pub host : IsText c.host
    pub port : InRange 1 65535 c.port
    pub log_level : contains log_levels c.log_level ≡ true
    pub accept_timeout_seconds : IsSeconds c.accept_timeout_seconds
    pub request_timeout_seconds : IsSeconds c.request_timeout_seconds
    pub health_timeout_seconds : IsSeconds c.health_timeout_seconds
    pub event_poll_seconds : IsSeconds c.event_poll_seconds
    pub cancel_drain_timeout_seconds : IsSeconds c.cancel_drain_timeout_seconds
    pub shutdown_grace_seconds : IsSeconds c.shutdown_grace_seconds
    pub max_http_body_bytes : IsCapacity c.max_http_body_bytes
    pub max_pending_requests : IsCapacity c.max_pending_requests
    pub max_client_delta_events_per_request : IsCapacity c.max_client_delta_events_per_request
    pub max_sse_delta_events_per_request : IsCapacity c.max_sse_delta_events_per_request
    pub deltas : c.max_sse_delta_events_per_request ≤ c.max_client_delta_events_per_request
    pub sampling_top_k : IsCapacity c.sampling_top_k

  pub key-Ends :
      {Escapes : FileError → Type 0} (fs : Fields F) (k : String)
      → contains (keys fs) k ≡ true
      → Ends (IsConfigFailure Escapes) (λ _. Unit) (key fs k)
  unfolding key
  key-Ends fs k h = let (v, e) = get_of_contains fs k h in rw (e, found_key) (given tt)

  pub string-Ends :
      {Escapes : FileError → Type 0}
      → (v : Json F) (d : String) → Ends (IsConfigFailure Escapes) IsText (string v d)
  unfolding string
  string-Ends (str s) d = Ends-if (str_eq s "") (λ _. raised tt) (λ e. given e)
  string-Ends null d = raised tt
  string-Ends _ d = raised tt

  pub integer-Ends :
      {Escapes : FileError → Type 0} (v : Json F) (d : String) (lo hi : ℕ)
      → Ends (IsConfigFailure Escapes) (InRange lo hi) (integer v d lo hi)
  unfolding integer
  integer-Ends (int (pos n)) d lo hi =
      Ends-if (leb lo n && leb n hi) (λ e. given (ground arith, ground arith)) (λ _. raised tt)
  integer-Ends null d lo hi = raised tt
  integer-Ends _ d lo hi = raised tt

  as_float-Ends :
      {Escapes : FileError → Type 0}
      → (v : Json F) (d : String) → Ends (IsConfigFailure Escapes) (λ _. Unit) (as_float fl v d)
  unfolding as_float
  as_float-Ends (int i) d = elim (Option-cases (fl.of_int i)) [
    | inl e ↦ rw (e, converted) (raised e)
    | inr (y, e) ↦ rw (e, converted) (given tt)
  ]
  as_float-Ends (float y) d = given tt
  as_float-Ends null d = raised tt
  as_float-Ends _ d = raised tt

  pub number-Ends :
      {Escapes : FileError → Type 0}
      → (v : Json F) (d : String) → Ends (IsConfigFailure Escapes) IsSeconds (number fl v d)
  unfolding number
  number-Ends v d =
      Ends-then (as_float-Ends v d)
        λ x _. Ends-then (Ends-unless _ _ tt) λ _ e. given {v = x} (ground arith)

  -- Fields that are required are there.
  without-contains :
      (required ks : List String) (k : String)
      → is_empty (without required ks) ≡ true
      → contains required k ≡ true
      → contains ks k ≡ true
  unfolding without contains
  without-contains [] ks k none_missing h = absurd (cc)
  without-contains (j ∷ js) ks k none_missing h =
      ground (arith, without-contains js ks k, eq_iff j k)

  pub require_fields-Ends :
      {Escapes : FileError → Type 0} (fs : Fields F) (required optional : List String) (d : String)
      → Ends
          (IsConfigFailure Escapes)
          (λ _. (k : String) → contains required k ≡ true → contains (keys fs) k ≡ true)
          (require_fields fs required optional d)
  unfolding require_fields
  require_fields-Ends fs required optional d =
      Ends-then (Ends-unless (is_empty (without required (keys fs))) _ tt) λ _ none_missing.
        Ends-weaken (λ _ _ k h. without-contains required (keys fs) k none_missing h)
          (Ends-unless (is_empty (without (keys fs) (required ++ optional))) _ tt)
