-- ===== src/Client/Collect/Returns.antt =====
-- That `GenerationHandle.collect` returns once the Terminal is in the buffer.
use kim_llm_serving.Prelude.{
  ℕ, suc, ◌<◌, ◌≡◌, refl, sym, ap, ◌∙◌, Bool, true, false, some, List, [], ◌∷◌, ◌++◌, arith, length,
  append_assoc, append-nil,
}
use kim_llm_serving.Protocol.{TokenDelta, Terminal, delta, end}
use kim_llm_serving.Client.Buffer.{EventBuffer, put_delta, put_terminal, event, get}
use kim_llm_serving.Client.Collect.{
  Turn, delta_arrives, terminal_arrives, reads, deadline_passes, returned, collect, collect-delta,
  collect-end,
}
use kim_llm_serving.Client.Collect.Whole.{tokens_of}

abbrev pub count_reads : List Turn → ℕ
count_reads [] = 0
count_reads (reads ∷ ts) = suc (count_reads ts)
count_reads (delta_arrives d ∷ ts) = count_reads ts
count_reads (terminal_arrives t ∷ ts) = count_reads ts
count_reads (deadline_passes ∷ ts) = count_reads ts

abbrev pub in_time : List Turn → Bool
in_time [] = true
in_time (deadline_passes ∷ ts) = false
in_time (reads ∷ ts) = in_time ts
in_time (delta_arrives d ∷ ts) = in_time ts
in_time (terminal_arrives t ∷ ts) = in_time ts

-- The Terminal `t` waits behind the deltas.
record Waits (b : EventBuffer) (ds : List TokenDelta) (t : Terminal) : Type 0 where
  deltas : b.deltas ≡ ds
  terminal : b.terminal ≡ some t
  undelivered : b.terminal_delivered ≡ false

put_delta-Waits :
    (b : EventBuffer) (ds : List TokenDelta) (t : Terminal) (d : TokenDelta)
    → Waits b ds t
    → Waits (put_delta b d).0 ds t
unfolding put_delta
put_delta-Waits b ds t d w = ground arith

put_terminal-Waits :
    (b : EventBuffer) (ds : List TokenDelta) (t u : Terminal)
    → Waits b ds t
    → Waits (put_terminal b u).0 ds t
unfolding put_terminal
put_terminal-Waits b ds t u w = ground arith

get-Waits :
    (b : EventBuffer) (d : TokenDelta) (ds : List TokenDelta) (t : Terminal)
    → Waits b (d ∷ ds) t
    → ((get b).1 ≡ event (delta d)) × Waits (get b).0 ds t
unfolding get
get-Waits b d ds t w = ground arith

get-end : (b : EventBuffer) (t : Terminal) → Waits b [] t → (get b).1 ≡ event (end t)
unfolding get
get-end b t w = ground arith

waiting-returned :
    (b : EventBuffer) (ds : List TokenDelta) (t : Terminal) (tokens : List ℕ) (ts : List Turn)
    → Waits b ds t
    → length ds < count_reads ts
    → in_time ts ≡ true
    → collect b tokens ts ≡ returned (tokens ++ tokens_of ds) t
unfolding collect
waiting-returned b ds t tokens [] w enough timely = absurd (omega arith)
waiting-returned b ds t tokens (deadline_passes ∷ ts) w enough timely = absurd (cc)
waiting-returned b ds t tokens (delta_arrives d ∷ ts) w enough timely =
    waiting-returned (put_delta b d).0 ds t tokens ts (put_delta-Waits b ds t d w) enough timely
waiting-returned b ds t tokens (terminal_arrives u ∷ ts) w enough timely =
    waiting-returned (put_terminal b u).0 ds t tokens ts (put_terminal-Waits b ds t u w) enough
      timely
waiting-returned b [] t tokens (reads ∷ ts) w enough timely =
    collect-end b tokens ts t (get-end b t w) ∙ ap (λ xs. returned xs t) (sym (append-nil tokens))
waiting-returned b (d ∷ ds) t tokens (reads ∷ ts) w enough timely =
    let (e, after) = get-Waits b d ds t w in
    collect-delta b tokens ts d e
    ∙ waiting-returned (get b).0 ds t (tokens ++ d.token_ids) ts after (omega (arith, enough))
        timely
    ∙ ap (λ xs. returned xs t) (append_assoc tokens d.token_ids (tokens_of ds))

-- If the Terminal is in the buffer and was not handed out, and the deadline does not pass, then one
-- read more than deltas wait is enough for `collect` to return, whatever else arrives: with the
-- tokens of the deltas that wait, and that Terminal.
pub collect_returns :
    (b : EventBuffer) (t : Terminal) (ts : List Turn)
    → b.terminal ≡ some t
    → b.terminal_delivered ≡ false
    → length b.deltas < count_reads ts
    → in_time ts ≡ true
    → collect b [] ts ≡ returned (tokens_of b.deltas) t
collect_returns b t ts terminal undelivered =
    waiting-returned b b.deltas t [] ts
      (record { deltas = refl; terminal = terminal; undelivered = undelivered })
