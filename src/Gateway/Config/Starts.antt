-- ===== src/Gateway/Config/Starts.antt =====
-- That a loaded configuration (gateway/python/kim_llm_gateway/config.py) passes every check that the
-- components make of what they are given of it.
use kim_llm_serving.Prelude.{ℕ, ◌≡◌, ap, ◌∙◌, String, false, arith, str_eq}
use kim_llm_serving.Prelude.Attempt.{gives, Ends-gives}
use kim_llm_serving.Protocol.Result.{ok}
use kim_llm_serving.Protocol.Validate.{validate_manifest}
use kim_llm_serving.Protocol.Validate.Accepts.{validate_manifest_iff}
use kim_llm_serving.Protocol.Parts.WellFormed.{IsText}
use kim_llm_serving.Gateway.Floats.{Floats}
use kim_llm_serving.Gateway.Config.Load.{Paths, File, GatewayConfig, load}
use kim_llm_serving.Gateway.Config.Runtime.{
  client_config, runtime_options, validate_config, any_bad, post_init,
}
use kim_llm_serving.Gateway.Config.Sound.{load_sound}

module _ {F : Type 0} (fl : Floats F) (tenths : ℕ → F) (ps : Paths) where
  -- A configuration that was loaded never fails later: the options that are made of it pass their own
  -- check, the client's configuration passes the client's, if pathlib resolves no path to the empty
  -- text, and the manifest passes the check that the client makes before it sends it.
  pub loaded_config_starts :
      (read : String → File F) (path : String) (c : GatewayConfig F)
      → ((p : String) → IsText (ps.resolve p))
      → load fl tenths ps read path ≡ gives c
      → (post_init fl (runtime_options c) ≡ gives tt)
        × (validate_config fl (client_config c) ≡ gives tt)
        × (validate_manifest c.manifest ≡ ok tt)
  unfolding post_init any_bad runtime_options validate_config client_config
  loaded_config_starts read path c some_text loaded =
      let w = Ends-gives (load_sound fl read tenths ps path) loaded in
      let (p, resolved) = w.socket_path in
      let named : str_eq c.socket_path "" ≡ false = ap (λ s. str_eq s "") resolved ∙ some_text p in
      (
        ground (
          arith, w.accept_timeout_seconds, w.request_timeout_seconds, w.health_timeout_seconds,
          w.cancel_drain_timeout_seconds, w.shutdown_grace_seconds,
          w.max_sse_delta_events_per_request, w.sampling_top_k,
        ),
        ground (
          arith, named, w.accept_timeout_seconds, w.max_pending_requests,
          w.max_client_delta_events_per_request,
        ),
        (validate_manifest_iff c.manifest).1 w.manifest,
      )
