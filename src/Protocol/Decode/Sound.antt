-- ===== src/Protocol/Decode/Sound.antt =====
-- What holds of every message that `decode_server_message` of
-- clients/python/kim_llm_client/protocol.py returns, and which exceptions it can raise.
use kim_llm_serving.Prelude.{
  ℕ, ◌≤◌, String, ◌≡◌, refl, Bool, true, false, ◌||◌, not, Option, none, some, List, arith, is_some,
  str_eq,
}
use kim_llm_serving.Protocol.{
  is_ok, TokenDelta, Terminal, Stats, ServerMessage, hello_ack, accepted, rejected, token_delta,
  terminal, stats,
}
use kim_llm_serving.Protocol.Json.{Json, obj, get, contains}
use kim_llm_serving.Protocol.Result.{
  Result, err, bad_json, value_error, recursion_error, Post, returned, refused, Post-bind,
  Post-require, Post-if, rejected_with_ok, ok_without_finish_reason, ready_inconsistent,
  high_watermark_too_low,
}
use kim_llm_serving.Protocol.Require.{
  u64_max, epoch_matches, require_exact_fields-Post, item-Post, require_string-Post,
  require_bool-Post, require_protocol-Post, require_epoch-Post,
}
use kim_llm_serving.Protocol.Parts.WellFormed.{
  InRange, IsKnownStatus, IsManifest, IsLimits, IsUsage, AreTokens, IsReason, int_field-Post,
  status_from_json-Post, manifest_from_json-Post, limits_from_json-Post, usage_from_json-Post,
  request_envelope-Post, tokens_from_json-Post, finish_reason_from_json-Post,
}
use kim_llm_serving.Protocol.Decode.{
  Loaded, value, invalid, too_many_digits, too_deep, stats_fields, same, is_high, check_stats,
  decode_hello_ack, decode_accepted, decode_rejected, decode_token_delta, decode_terminal,
  decode_stats, decode_lifecycle, after_hello, type_of, decode_value, decode_server_message, parsed,
}

pub record IsTerminal (t : Terminal) : Type 0 where
  pub request_id : InRange 1 u64_max t.request_id
  pub status : IsKnownStatus t.status
  pub reason : IsReason t.finish_reason
  pub explained : is_ok t.status ≡ true → is_some t.finish_reason ≡ true
  pub usage : IsUsage t.usage

pub record IsDelta (d : TokenDelta) : Type 0 where
  pub request_id : InRange 1 u64_max d.request_id
  pub sequence_no : InRange 0 u64_max d.sequence_no
  pub tokens : AreTokens d.token_ids

pub record IsStats (s : Stats) : Type 0 where
  pub probe_id : InRange 1 u64_max s.probe_id
  pub status : IsKnownStatus s.status
  pub consistent : s.ready ≡ is_ok s.status
  pub uptime_ms : s.uptime_ms ≤ u64_max
  pub active_requests : s.active_requests ≤ u64_max
  pub frames_high : s.session_egress_frames ≤ s.session_egress_high_watermark_frames
  pub bytes_high : s.session_egress_bytes ≤ s.session_egress_high_watermark_bytes
  pub high_frames : s.session_egress_high_watermark_frames ≤ u64_max
  pub high_bytes : s.session_egress_high_watermark_bytes ≤ u64_max

-- What the Client may rely on, given the epoch that it expects (`none` before the handshake).
abbrev pub IsMessage : Option ℕ → ServerMessage → Type 0
IsMessage expected (hello_ack a) =
    (epoch_matches expected a.worker_epoch ≡ true)
    × (1 ≤ a.worker_epoch)
    × IsManifest a.manifest
    × IsLimits a.limits
IsMessage none _ = ⊥
IsMessage (some e) (accepted id) = InRange 1 u64_max id
IsMessage (some e) (rejected id s) = InRange 1 u64_max id × IsKnownStatus s × (is_ok s ≡ false)
IsMessage (some e) (token_delta d) = IsDelta d
IsMessage (some e) (terminal t) = IsTerminal t
IsMessage (some e) (stats s) = IsStats s

same-eq : (a b : Bool) → same a b ≡ true → a ≡ b
same-eq true b h = ground arith
same-eq false b h = ground arith

is_high-le :
    (s : Stats)
    → is_high s ≡ true
    → (s.session_egress_frames ≤ s.session_egress_high_watermark_frames)
      × (s.session_egress_bytes ≤ s.session_egress_high_watermark_bytes)
unfolding is_high
is_high-le s h = ground arith

implies : (a b : Bool) → not a || b ≡ true → a ≡ true → b ≡ true
implies true b h _ = h
implies false b h e = absurd (cc)

not-false : (a : Bool) → not a ≡ true → a ≡ false
not-false a h = ground arith

check_stats-Post :
    (epoch : ℕ) (s : Stats)
    → InRange 1 u64_max s.probe_id
    → IsKnownStatus s.status
    → s.ready ≡ is_ok s.status
    → s.uptime_ms ≤ u64_max
    → s.active_requests ≤ u64_max
    → s.session_egress_high_watermark_frames ≤ u64_max
    → s.session_egress_high_watermark_bytes ≤ u64_max
    → Post (IsMessage (some epoch)) (check_stats s)
unfolding check_stats
check_stats-Post epoch s probe known agree uptime active frames bytes =
    Post-bind (Post-require (is_high s) high_watermark_too_low tt) λ _ high. returned (record {
      probe_id = probe;
      status = known;
      consistent = agree;
      uptime_ms = uptime;
      active_requests = active;
      frames_high = (is_high-le s high).0;
      bytes_high = (is_high-le s high).1;
      high_frames = frames;
      high_bytes = bytes;
    })

module _ {F : Type 0} where
  hello-Post :
      (v : Json F) (expected : Option ℕ) → Post (IsMessage expected) (decode_hello_ack v expected)
  unfolding decode_hello_ack contains
  hello-Post v expected = Post-bind (require_exact_fields-Post v _ _) λ fs h.
      Post-bind (item-Post fs _ "protocol_version" h refl) λ version _.
        Post-bind (require_protocol-Post version) λ _ _.
          Post-bind (item-Post fs _ "worker_epoch" h refl) λ e _.
            Post-bind (require_epoch-Post e expected) λ _ epoch.
              Post-bind (item-Post fs _ "manifest" h refl) λ m _.
                Post-bind (manifest_from_json-Post m) λ _ manifest.
                  Post-bind (item-Post fs _ "limits" h refl) λ l _.
                    Post-bind (limits_from_json-Post l)
                      λ _ limits. returned (epoch.1, epoch.0, manifest, limits)

  module _ (epoch : ℕ) (v : Json F) where
    accepted-Post : Post (IsMessage (some epoch)) (decode_accepted v epoch)
    unfolding decode_accepted contains
    accepted-Post =
        Post-bind (require_exact_fields-Post v _ _)
          λ fs h. Post-bind (request_envelope-Post fs _ epoch h refl refl refl) λ _ id. returned id

    rejected-Post : Post (IsMessage (some epoch)) (decode_rejected v epoch)
    unfolding decode_rejected contains
    rejected-Post = Post-bind (require_exact_fields-Post v _ _) λ fs h.
        Post-bind (item-Post fs _ "status" h refl) λ s _.
          Post-bind (status_from_json-Post s) λ st known.
            Post-bind (Post-require (not (is_ok st)) rejected_with_ok tt) λ _ bad.
              Post-bind (request_envelope-Post fs _ epoch h refl refl refl)
                λ _ id. returned (id, known, not-false (is_ok st) bad)

    delta-Post : Post (IsMessage (some epoch)) (decode_token_delta v epoch)
    unfolding decode_token_delta contains
    delta-Post = Post-bind (require_exact_fields-Post v _ _) λ fs h.
        Post-bind (item-Post fs _ "token_ids" h refl) λ t _.
          Post-bind (tokens_from_json-Post t) λ _ tokens.
            Post-bind (request_envelope-Post fs _ epoch h refl refl refl) λ _ id.
              Post-bind (int_field-Post fs _ "sequence_no" _ _ h refl)
                λ _ n. returned (record { request_id = id; sequence_no = n; tokens = tokens })

    terminal-Post : Post (IsMessage (some epoch)) (decode_terminal v epoch)
    unfolding decode_terminal contains
    terminal-Post = Post-bind (require_exact_fields-Post v _ _) λ fs h.
        Post-bind (item-Post fs _ "status" h refl) λ s _.
          Post-bind (status_from_json-Post s) λ st known.
            Post-bind (item-Post fs _ "finish_reason" h refl) λ r _.
              Post-bind (finish_reason_from_json-Post r) λ reason is_reason.
                Post-bind
                  (Post-require (not (is_ok st) || is_some reason) ok_without_finish_reason tt)
                  λ _ given. Post-bind (request_envelope-Post fs _ epoch h refl refl refl) λ _ id.
                    Post-bind (item-Post fs _ "usage" h refl) λ u _.
                      Post-bind (usage_from_json-Post u) λ _ usage. returned (record {
                        request_id = id;
                        status = known;
                        reason = is_reason;
                        explained = implies (is_ok st) (is_some reason) given;
                        usage = usage;
                      })

    stats-Post : Post (IsMessage (some epoch)) (decode_stats v epoch)
    unfolding decode_stats contains
    stats-Post = Post-bind (require_exact_fields-Post v _ _) λ fs h.
        let number = λ (k : String) (lo hi : ℕ) (m : contains stats_fields k ≡ true).
          int_field-Post fs stats_fields k lo hi h m in
        Post-bind (item-Post fs _ "protocol_version" h refl) λ version _.
          Post-bind (require_protocol-Post version) λ _ _.
            Post-bind (item-Post fs _ "worker_epoch" h refl) λ e _.
              Post-bind (require_epoch-Post e (some epoch)) λ _ _.
                Post-bind (item-Post fs _ "status" h refl) λ s _.
                  Post-bind (status_from_json-Post s) λ st known.
                    Post-bind (item-Post fs _ "ready" h refl) λ r _.
                      Post-bind (require_bool-Post r _) λ ready _.
                        Post-bind (Post-require (same ready (is_ok st)) ready_inconsistent tt)
                          λ _ agree. Post-bind (number "probe_id" _ _ refl) λ _ probe.
                            Post-bind (number "uptime_ms" _ _ refl) λ _ uptime.
                              Post-bind (number "active_requests" _ _ refl) λ _ active.
                                Post-bind (number "reserved_input_tokens" _ _ refl) λ _ _.
                                  Post-bind (number "reserved_output_tokens" _ _ refl) λ _ _.
                                    Post-bind (number "session_egress_frames" _ _ refl) λ _ _.
                                      Post-bind (number "session_egress_bytes" _ _ refl) λ _ _.
                                        Post-bind
                                          (number "session_egress_high_watermark_frames" _ _ refl)
                                          λ _ frames.
                                            Post-bind
                                              (number "session_egress_high_watermark_bytes" _ _
                                                refl)
                                              λ _ bytes.
                                                Post-bind (number "rejected_requests" _ _ refl)
                                                  λ _ _.
                                                    Post-bind
                                                      (number "backpressure_requests" _ _ refl)
                                                      λ _ _.
                                                        Post-bind
                                                          (number "cancelled_requests" _ _ refl)
                                                          λ _ _.
                                                            check_stats-Post epoch _ probe known
                                                            (same-eq ready (is_ok st) agree)
                                                            uptime.1 active.1 frames.1 bytes.1

    lifecycle-Post : (kind : String) → Post (IsMessage (some epoch)) (decode_lifecycle kind v epoch)
    unfolding decode_lifecycle
    lifecycle-Post kind =
        Post-if (str_eq kind "accepted") (λ _. accepted-Post)
          λ _.
            Post-if (str_eq kind "rejected") (λ _. rejected-Post)
              λ _.
                Post-if (str_eq kind "token_delta") (λ _. delta-Post)
                  λ _.
                    Post-if (str_eq kind "terminal") (λ _. terminal-Post)
                      λ _. Post-if (str_eq kind "stats") (λ _. stats-Post) λ _. refused tt

  after_hello-Post :
      (kind : String) (v : Json F) (expected : Option ℕ)
      → Post (IsMessage expected) (after_hello kind v expected)
  unfolding after_hello
  after_hello-Post kind v none = refused tt
  after_hello-Post kind v (some epoch) = lifecycle-Post epoch v kind

  type_of-Post : (o : Option (Json F)) → Post (λ _. Unit) (type_of o)
  unfolding type_of
  type_of-Post none = refused tt
  type_of-Post (some v) =
      elim (require_string-Post v "message type" true) as (λ r p. Post (λ _. Unit) r) [
        | returned p ↦ returned tt
        | refused e ↦ refused e
      ]

  value-Post :
      (v : Json F) (expected : Option ℕ) → Post (IsMessage expected) (decode_value v expected)
  unfolding decode_value
  value-Post (obj fs) expected = Post-bind (type_of-Post (get fs "type")) λ kind _.
      Post-if (str_eq kind "hello_ack") (λ _. hello-Post (obj fs) expected)
        λ _. after_hello-Post kind (obj fs) expected
  value-Post _ expected = refused tt

  -- A message that is well formed for the expected epoch, or a `ProtocolError`; where `json.loads`
  -- raises an exception that is not caught, that exception.
  abbrev pub Decodes : Loaded F → Option ℕ → Result ServerMessage → Type 0
  Decodes (value v) expected r = Post (IsMessage expected) r
  Decodes invalid expected r = r ≡ err bad_json
  Decodes too_many_digits expected r = r ≡ err value_error
  Decodes too_deep expected r = r ≡ err recursion_error

  parsed-Decodes : (l : Loaded F) (expected : Option ℕ) → Decodes l expected (parsed l expected)
  unfolding parsed
  parsed-Decodes (value v) expected = value-Post v expected
  parsed-Decodes invalid expected = refl
  parsed-Decodes too_many_digits expected = refl
  parsed-Decodes too_deep expected = refl

  -- Whatever bytes arrive: if they parse to a value, decoding returns a message that is well formed for
  -- the expected epoch (before the handshake a HelloAck only), or raises a `ProtocolError`, never a
  -- `KeyError`; if they are not UTF-8 or not JSON, it raises a `ProtocolError`; and it lets out the
  -- ValueError and the RecursionError that json.loads raises for an int with too many digits and for a
  -- text that is nested too deep.
  pub decode_sound :
      (loads : List ℕ → Loaded F) (payload : List ℕ) (expected : Option ℕ)
      → Decodes (loads payload) expected (decode_server_message loads payload expected)
  unfolding decode_server_message
  decode_sound loads payload expected = parsed-Decodes (loads payload) expected
