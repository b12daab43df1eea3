-- ===== src/Gateway/Config/Sound.antt =====
-- What a configuration that gateway/python/kim_llm_gateway/config.py loads keeps to, and what loading
-- raises.
use kim_llm_serving.Prelude.{◌*◌, ℕ, ◌≡◌, refl, String, true, not, ◌&&◌, ◌||◌, [], arith, ltb}
use kim_llm_serving.Prelude.Attempt.{Ends, given, raised, Ends-then, Ends-unless}
use kim_llm_serving.Protocol.Require.{u31_max}
use kim_llm_serving.Protocol.Parts.WellFormed.{IsText, InRange, IsManifest}
use kim_llm_serving.Protocol.Json.{Json, Fields, null, obj, keys, contains}
use kim_llm_serving.Gateway.Floats.{Floats}
use kim_llm_serving.Gateway.Config.{FileError, text_at, integer_at, manifest_keys, manifest}
use kim_llm_serving.Gateway.Config.Load.{
  Timeouts, Capacities, load_timeouts, load_capacities, Paths, File, unreadable, unparsable,
  bad_constant, uncaught, parsed, required_keys, optional_keys, log_levels, resolve_path,
  load_json_object, json_object, capacity, seconds, load_fields, load,
}
use kim_llm_serving.Gateway.Config.Checks.{
  IsConfigFailure, IsSeconds, IsConfig, key-Ends, string-Ends, integer-Ends, number-Ends,
  require_fields-Ends,
}

-- A file of those that are read raises the exception.
abbrev pub Escapes : {F : Type 0} → (String → File F) → FileError → Type 0
Escapes read e = (path : String) × (read path ≡ uncaught e)

module _ {F : Type 0} (fl : Floats F) (read : String → File F) where
  text_at-Ends :
      (fs : Fields F) (k d : String)
      → contains (keys fs) k ≡ true
      → Ends (IsConfigFailure fl (Escapes read)) IsText (text_at fs k d)
  unfolding text_at
  text_at-Ends fs k d there = Ends-then (key-Ends fl fs k there) λ v _. string-Ends fl v d

  integer_at-Ends :
      (fs : Fields F) (k d : String) (lo : ℕ)
      → contains (keys fs) k ≡ true
      → Ends (IsConfigFailure fl (Escapes read)) (InRange lo u31_max) (integer_at fs k d lo)
  unfolding integer_at
  integer_at-Ends fs k d lo there =
      Ends-then (key-Ends fl fs k there) λ v _. integer-Ends fl v d lo u31_max

  manifest-Ends : (v : Json F) → Ends (IsConfigFailure fl (Escapes read)) IsManifest (manifest v)
  unfolding manifest contains
  manifest-Ends (obj fs) = Ends-then (require_fields-Ends fl fs manifest_keys [] _) λ _ there.
      Ends-then (text_at-Ends fs "model_id" _ (there _ refl)) λ a1 h1.
        Ends-then (text_at-Ends fs "revision" _ (there _ refl)) λ a2 h2.
          Ends-then (text_at-Ends fs "tokenizer_fingerprint" _ (there _ refl)) λ a3 h3.
            Ends-then (text_at-Ends fs "chat_template_fingerprint" _ (there _ refl)) λ a4 h4.
              Ends-then (text_at-Ends fs "engine_fingerprint" _ (there _ refl)) λ a5 h5.
                Ends-then (integer_at-Ends fs "eos_token_id" _ 0 (there _ refl)) λ a6 h6.
                  Ends-then (integer_at-Ends fs "pad_token_id" _ 0 (there _ refl)) λ a7 h7.
                    Ends-then (integer_at-Ends fs "max_input_tokens" _ 1 (there _ refl)) λ a8 h8.
                      Ends-then (integer_at-Ends fs "max_output_tokens" _ 1 (there _ refl)) λ a9 h9.
                        Ends-then (integer_at-Ends fs "max_sequence_tokens" _ 1 (there _ refl))
                          λ a10 h10.
                            Ends-then (text_at-Ends fs "precision" _ (there _ refl)) λ a11 h11.
                              Ends-then (integer_at-Ends fs "max_batch_size" _ 1 (there _ refl))
                                λ a12 h12.
                                  Ends-then (Ends-unless (not (ltb a10 a8 || ltb a10 a9)) _ tt)
                                    λ _ fits.
                                      given
                                        {v = record {
                                          model_id = a1;
                                          revision = a2;
                                          tokenizer_fingerprint = a3;
                                          chat_template_fingerprint = a4;
                                          engine_fingerprint = a5;
                                          eos_token_id = a6;
                                          pad_token_id = a7;
                                          max_input_tokens = a8;
                                          max_output_tokens = a9;
                                          max_sequence_tokens = a10;
                                          precision = a11;
                                          max_batch_size = a12;
                                        }}
                                        (record {
                                          model_id = h1;
                                          revision = h2;
                                          tokenizer_fingerprint = h3;
                                          chat_template_fingerprint = h4;
                                          engine_fingerprint = h5;
                                          eos_token_id = h6;
                                          pad_token_id = h7;
                                          max_input_tokens = omega (arith, h8);
                                          max_output_tokens = omega (arith, h9);
                                          max_sequence_tokens = omega (arith, h10);
                                          precision = h11;
                                          max_batch_size = omega (arith, h12);
                                          input_fits = ground arith;
                                          output_fits = ground arith;
                                        })
  manifest-Ends null = raised tt
  manifest-Ends _ = raised tt

  load_json_object-Ends :
      (path d : String)
      → Ends (IsConfigFailure fl (Escapes read)) (λ _. Unit) (load_json_object read path d)
  unfolding load_json_object
  load_json_object-Ends path d = of_file (read path) refl
    where
      of_file :
          (f : File F)
          → read path ≡ f
          → Ends (IsConfigFailure fl (Escapes read)) (λ _. Unit) (json_object f path d)
      of_file unreadable h = raised tt
      of_file (unparsable message) h = raised tt
      of_file (bad_constant value) h = raised tt
      of_file (uncaught e) h = raised (path, h)
      of_file (parsed (obj fs)) h = given tt
      of_file (parsed null) h = raised tt
      of_file (parsed _) h = raised tt

  capacity-Ends :
      (fs : Fields F) (k : String) (default : ℕ)
      → Ends (IsConfigFailure fl (Escapes read)) (InRange 1 u31_max) (capacity fs k default)
  unfolding capacity
  capacity-Ends fs k default = integer-Ends fl _ k 1 u31_max

  record AreTimeouts (t : Timeouts F) : Type 0 where
    accept : IsSeconds fl t.accept
    request : IsSeconds fl t.request
    health : IsSeconds fl t.health
    poll : IsSeconds fl t.poll
    drain : IsSeconds fl t.drain
    grace : IsSeconds fl t.grace

  record AreCapacities (c : Capacities) : Type 0 where
    body_bytes : InRange 1 u31_max c.body_bytes
    pending : InRange 1 u31_max c.pending
    client_deltas : InRange 1 u31_max c.client_deltas
    sse_deltas : InRange 1 u31_max c.sse_deltas
    top_k : InRange 1 u31_max c.top_k

  load_capacities-Ends :
      (root : Fields F)
      → Ends (IsConfigFailure fl (Escapes read)) AreCapacities (load_capacities root)
  unfolding load_capacities
  load_capacities-Ends root =
      Ends-then (capacity-Ends root "max_http_body_bytes" (1024 * 1024)) λ n1 c1.
        Ends-then (capacity-Ends root "max_pending_requests" 8) λ n2 c2.
          Ends-then (capacity-Ends root "max_client_delta_events_per_request" 64) λ n3 c3.
            Ends-then (capacity-Ends root "max_sse_delta_events_per_request" 32) λ n4 c4.
              Ends-then (capacity-Ends root "sampling_top_k" 1) λ n5 c5. given (record {
                body_bytes = c1;
                pending = c2;
                client_deltas = c3;
                sse_deltas = c4;
                top_k = c5;
              })

  module _ (tenths : ℕ → F) (ps : Paths) where
    seconds-Ends :
        (fs : Fields F) (k : String) (default : ℕ)
        → Ends
            (IsConfigFailure fl (Escapes read))
            (IsSeconds fl)
            (seconds fl tenths ps fs k default)
    unfolding seconds
    seconds-Ends fs k default = number-Ends fl _ k

    load_timeouts-Ends :
        (root : Fields F)
        → Ends (IsConfigFailure fl (Escapes read)) AreTimeouts (load_timeouts fl tenths ps root)
    unfolding load_timeouts
    load_timeouts-Ends root = Ends-then (seconds-Ends root "accept_timeout_seconds" 100) λ s1 t1.
        Ends-then (seconds-Ends root "request_timeout_seconds" 1200) λ s2 t2.
          Ends-then (seconds-Ends root "health_timeout_seconds" 10) λ s3 t3.
            Ends-then (seconds-Ends root "event_poll_seconds" 1) λ s4 t4.
              Ends-then (seconds-Ends root "cancel_drain_timeout_seconds" 300) λ s5 t5.
                Ends-then (seconds-Ends root "shutdown_grace_seconds" 300) λ s6 t6. given (record {
                  accept = t1;
                  request = t2;
                  health = t3;
                  poll = t4;
                  drain = t5;
                  grace = t6;
                })

    load_fields-Ends :
        (root worker : Fields F) (worker_config_path tokenizer_path : String)
        → Ends
            (IsConfigFailure fl (Escapes read))
            (IsConfig fl ps)
            (load_fields fl tenths ps root worker worker_config_path tokenizer_path)
    unfolding load_fields resolve_path
    load_fields-Ends root worker worker_config_path tokenizer_path =
        Ends-then
          (Ends-unless (contains (keys worker) "socket_path" && contains (keys worker) "manifest") _
            tt)
          λ _ both. Ends-then (key-Ends fl worker "socket_path" (ground arith)) λ v _.
            Ends-then (string-Ends fl v _) λ socket _.
              Ends-then (key-Ends fl worker "manifest" (ground arith)) λ w _.
                Ends-then (manifest-Ends w) λ m manifest_good.
                  Ends-then (string-Ends fl _ "host") λ host h1.
                    Ends-then (integer-Ends fl _ "port" 1 65535) λ port h2.
                      Ends-then (string-Ends fl _ "log_level") λ log_level _.
                        Ends-then (load_timeouts-Ends root) λ t ts.
                          Ends-then (load_capacities-Ends root) λ c cs.
                            Ends-then (Ends-unless (not (ltb c.client_deltas c.sse_deltas)) _ tt)
                              λ _ fits.
                                Ends-then (Ends-unless (contains log_levels log_level) _ tt)
                                  λ _ level. given (record {
                                    socket_path = (_, refl);
                                    manifest = manifest_good;
                                    host = h1;
                                    port = h2;
                                    log_level = level;
                                    accept_timeout_seconds = ts.accept;
                                    request_timeout_seconds = ts.request;
                                    health_timeout_seconds = ts.health;
                                    event_poll_seconds = ts.poll;
                                    cancel_drain_timeout_seconds = ts.drain;
                                    shutdown_grace_seconds = ts.grace;
                                    max_http_body_bytes = cs.body_bytes;
                                    max_pending_requests = cs.pending;
                                    max_client_delta_events_per_request = cs.client_deltas;
                                    max_sse_delta_events_per_request = cs.sse_deltas;
                                    deltas = ground (arith, fits);
                                    sampling_top_k = cs.top_k;
                                  })

    pub load_sound :
        (path : String)
        → Ends (IsConfigFailure fl (Escapes read)) (IsConfig fl ps) (load fl tenths ps read path)
    unfolding load contains
    load_sound path = Ends-then (load_json_object-Ends _ _) λ root _.
        Ends-then (require_fields-Ends fl root required_keys optional_keys _) λ _ there.
          Ends-then (key-Ends fl root "worker_config_path" (there _ refl)) λ v _.
            Ends-then (string-Ends fl v _) λ worker_text _.
              Ends-then (key-Ends fl root "tokenizer_path" (there _ refl)) λ w _.
                Ends-then (string-Ends fl w _) λ tokenizer_text _.
                  Ends-then (load_json_object-Ends _ _) λ worker _. load_fields-Ends root worker _ _
