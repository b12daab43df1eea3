-- ===== src/Gateway/Http/Serving/Drained.antt =====
-- That a streamed chat completion comes to its end, once its session has its terminal event.
use kim_llm_serving.Prelude.{
  ℕ, suc, zero, ◌+◌, ◌≤◌, ◌<◌, ◌≡◌, refl, sym, String, Bool, true, false, Option, some, List, [],
  ◌∷◌, ◌++◌, map, arith, length, append_assoc, append-nil, if_cases,
}
use kim_llm_serving.Protocol.{is_ok}
use kim_llm_serving.Gateway.Decoder.{Text}
use kim_llm_serving.Gateway.Buffer.{GatewayTerminal, get, take_first, take_terminal}
use kim_llm_serving.Gateway.Http.Stream.{
  Context, done_chunk, running, ended, awaits, poll, advance, leave, text_chunk, terminal_chunks,
}
use kim_llm_serving.Gateway.Http.Framing.{step, awaits_iff}
use kim_llm_serving.Gateway.Http.Serving.{
  Op, polls_session, acts_advance, Serving, serve, serve_all,
}

-- `k` times: a turn while the client is connected, and a request for the next chunk.
abbrev pub rounds : ℕ → List Op
rounds zero = []
rounds (suc k) = polls_session ∷ acts_advance ∷ rounds k

module _ {F : Type 0} (c : Context F) (decode : List ℕ → Option Text)
    (decode_error : List ℕ → String) where
  abbrev round : Serving → Serving
  round v = serve c decode decode_error (serve c decode decode_error v polls_session) acts_advance

  -- It has ended, completed, having sent `chunks`.
  record IsDrained (v : Serving) (chunks : List String) (detached : ℕ) : Type 0 where
    stage : v.trace.streaming.stage ≡ ended
    completed : v.trace.streaming.completed ≡ true
    sent : v.trace.streaming.sent ≡ chunks
    undetached : v.trace.streaming.detached ≡ detached

  round-IsDrained :
      (v : Serving) (chunks : List String) (d : ℕ)
      → IsDrained v chunks d
      → IsDrained (round v) chunks d
  unfolding serve step awaits advance
  round-IsDrained v chunks d h = ground arith

  rounds-IsDrained :
      (k : ℕ) (v : Serving) (chunks : List String) (d : ℕ)
      → IsDrained v chunks d
      → IsDrained (serve_all c decode decode_error v (rounds k)) chunks d
  unfolding serve_all
  rounds-IsDrained zero v chunks d h = h
  rounds-IsDrained (suc k) v chunks d h =
      rounds-IsDrained k (round v) chunks d (round-IsDrained v chunks d h)

  -- It runs, with `q` to send.
  record IsSending (v : Serving) (q sent : List String) (completed : Bool) (detached : ℕ)
      : Type 0 where
    stage : v.trace.streaming.stage ≡ running
    queue : v.trace.streaming.queue ≡ q
    sent_all : v.trace.streaming.sent ≡ sent
    completed_is : v.trace.streaming.completed ≡ completed
    undetached : v.trace.streaming.detached ≡ detached

  last-round :
      (v : Serving) (sent : List String) (d : ℕ)
      → IsSending v [] sent true d
      → IsDrained (round v) sent d
  unfolding serve step awaits advance leave
  last-round v sent d h = ground arith

  send-round :
      (v : Serving) (x : String) (q sent : List String) (d : ℕ)
      → IsSending v (x ∷ q) sent true d
      → IsSending (round v) q (sent ++ x ∷ []) true d
  unfolding serve step awaits advance
  send-round v x q sent d h = ground arith

  -- The session's terminal event waits behind `ds`.
  record IsReady (v : Serving) (ds : List Text) (t : GatewayTerminal) : Type 0 where
    deltas : v.session.buffer.deltas ≡ ds
    terminal : v.session.buffer.terminal ≡ some t
    undelivered : v.session.buffer.terminal_delivered ≡ false

  text-round :
      (v : Serving) (x : Text) (ds : List Text) (t : GatewayTerminal) (sent : List String) (d : ℕ)
      → IsSending v [] sent false d
      → IsReady v (x ∷ ds) t
      → IsSending (round v) [] (sent ++ text_chunk c x ∷ []) false d × IsReady (round v) ds t
  unfolding serve step awaits advance poll get take_first
  text-round v x ds t sent d h r = ground arith

  terminal-round :
      (v : Serving) (t : GatewayTerminal) (x : String) (q sent : List String) (d : ℕ)
      → terminal_chunks c t ≡ x ∷ q
      → IsSending v [] sent false d
      → IsReady v [] t
      → IsSending (round v) q (sent ++ x ∷ []) true d
  unfolding serve step awaits advance poll get take_first take_terminal
  terminal-round v t x q sent d e h r = ground arith

  sending-IsDrained :
      (k : ℕ) (v : Serving) (q sent : List String) (d : ℕ)
      → length q < k
      → IsSending v q sent true d
      → IsDrained (serve_all c decode decode_error v (rounds k)) (sent ++ q) d
  unfolding serve_all
  sending-IsDrained zero v q sent d few h = absurd (omega (arith, few))
  sending-IsDrained (suc k) v [] sent d few h =
      rw (append-nil sent) (rounds-IsDrained k (round v) sent d (last-round v sent d h))
  sending-IsDrained (suc k) v (x ∷ q) sent d few h = rw⁻¹ (append_assoc sent (x ∷ []) q) (
      sending-IsDrained k (round v) q (sent ++ x ∷ []) d (omega (arith, few))
        (send-round v x q sent d h))

  abbrev IsShort : List String → Type 0
  IsShort chunks = (x : String) × (q : List String) × (chunks ≡ x ∷ q) × (length q ≤ 2)

  terminal_chunks-length : (t : GatewayTerminal) → IsShort (terminal_chunks c t)
  unfolding terminal_chunks
  terminal_chunks-length t =
      if_cases IsShort (is_ok t.status)
        (λ _. (
          _,
          _,
          refl,
          if_cases (λ (cs : List String). length (cs ++ done_chunk ∷ []) ≤ 2) c.include_usage
              (λ _. omega arith) (λ _. omega arith),
        ))
        (λ _. (_, _, refl, omega arith))

  ready-IsDrained :
      (k : ℕ) (v : Serving) (ds : List Text) (t : GatewayTerminal) (sent : List String) (d : ℕ)
      → length ds + 4 ≤ k
      → IsSending v [] sent false d
      → IsReady v ds t
      → IsDrained
          (serve_all c decode decode_error v (rounds k))
          (sent ++ (map (text_chunk c) ds ++ terminal_chunks c t))
          d
  unfolding serve_all
  ready-IsDrained zero v ds t sent d few h r = absurd (omega (arith, few))
  ready-IsDrained (suc k) v (x ∷ ds) t sent d few h r =
      let (h', r') = text-round v x ds t sent d h r in
      rw⁻¹ (append_assoc sent (text_chunk c x ∷ []) (map (text_chunk c) ds ++ terminal_chunks c t))
        (ready-IsDrained k (round v) ds t (sent ++ text_chunk c x ∷ []) d (omega (arith, few)) h'
          r')
  ready-IsDrained (suc k) v [] t sent d few h r =
      let (x, q, e, short) = terminal_chunks-length t in
      rw (e, sym (append_assoc sent (x ∷ []) q))
        (sending-IsDrained k (round v) q (sent ++ x ∷ []) d (omega (arith, few, short))
          (terminal-round v t x q sent d e h r))

  -- A generator that awaits a turn, of a session with its terminal event not yet handed out and
  -- `ds` before it: after any number of rounds from `length ds + 4` on, in which the client stays
  -- connected, it has ended by itself, completed, without detaching the session, and what it sent
  -- meanwhile is the texts' chunks in order and then the terminal's.
  pub stream_ends :
      (k : ℕ) (v : Serving) (t : GatewayTerminal)
      → awaits c v.trace.streaming ≡ true
      → v.session.buffer.terminal ≡ some t
      → v.session.buffer.terminal_delivered ≡ false
      → length v.session.buffer.deltas + 4 ≤ k
      → let s = (serve_all c decode decode_error v (rounds k)).trace.streaming in
        (s.stage ≡ ended)
        × (s.completed ≡ true)
        × (s.detached ≡ v.trace.streaming.detached)
        × (s.sent
            ≡ v.trace.streaming.sent
              ++ (map (text_chunk c) v.session.buffer.deltas ++ terminal_chunks c t))
  stream_ends k v t waits terminal undelivered few =
      let (stage, queue, incomplete) = awaits_iff c v.trace.streaming waits in
      let r =
        ready-IsDrained k v v.session.buffer.deltas t v.trace.streaming.sent
          v.trace.streaming.detached few
          (record {
            stage = stage;
            queue = queue;
            sent_all = refl;
            completed_is = incomplete;
            undetached = refl;
          })
          (record { deltas = refl; terminal = terminal; undelivered = undelivered }) in
      (r.stage, r.completed, r.undetached, r.sent)
