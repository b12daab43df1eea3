-- ===== src/Client/Collect/Whole.antt =====
-- That `GenerationHandle.collect` loses no token that the buffer took in.
use kim_llm_serving.Prelude.{
  ℕ, ◌≡◌, refl, sym, ap, ◌∙◌, true, false, Option, none, some, List, [], ◌∷◌, ◌++◌, map, arith,
  is_some, ◌⊎◌, inl, inr, append_assoc, append-nil,
}
use kim_llm_serving.Protocol.{TokenDelta, Terminal, GenerationEvent, delta, end}
use kim_llm_serving.Client.Buffer.{EventBuffer, init, put_delta, put_terminal, event, blocked, get}
use kim_llm_serving.Client.Buffer.Stream.{
  Op, puts_delta, puts_terminal, gets, step, run, pending, IsValid, step-IsValid, step-fifo,
  run-closed,
}
use kim_llm_serving.Client.Collect.{
  Turn, delta_arrives, terminal_arrives, reads, deadline_passes, Collection, returned,
  raised_timeout, stops, still_reads, collect, collect-delta, collect-end, collect-blocked,
}

-- The buffer's operations that the turns are.
abbrev pub operations : List Turn → List Op
operations [] = []
operations (delta_arrives d ∷ ts) = puts_delta d ∷ operations ts
operations (terminal_arrives t ∷ ts) = puts_terminal t ∷ operations ts
operations (reads ∷ ts) = gets ∷ operations ts
operations (deadline_passes ∷ ts) = operations ts

abbrev pub tokens_of : List TokenDelta → List ℕ
tokens_of [] = []
tokens_of (d ∷ ds) = d.token_ids ++ tokens_of ds

abbrev GetCases : EventBuffer → Type 0
GetCases b =
    ((d : TokenDelta) × ((get b).1 ≡ event (delta d))
      × (pending b ≡ delta d ∷ pending (get b).0)
      × ((get b).0.terminal_delivered ≡ false))
    ⊎ ((t : Terminal) × ((get b).1 ≡ event (end t))
        × (pending b ≡ end t ∷ [])
        × (is_some (get b).0.terminal ≡ true))
    ⊎ (((get b).1 ≡ blocked) × ((get b).0 ≡ b))

get-cases : (b : EventBuffer) → b.terminal_delivered ≡ false → GetCases b
unfolding get
get-cases b h = go b.deltas b.terminal refl refl
  where
    go : (ds : List TokenDelta) (t : Option Terminal) → b.deltas ≡ ds → b.terminal ≡ t → GetCases b
    go (d ∷ ds) t e f = inl (d, ground arith, ground arith, ground arith)
    go [] (some t) e f = inr (inl (t, ground arith, ground arith, ground arith))
    go [] none e f = inr (inr (ground arith, ground arith))

-- What a collection says of the events that were pending or came.
abbrev pub Says : List ℕ → List GenerationEvent → Collection → Type 0
Says tokens es (returned all t) =
    (ds : List TokenDelta) × (es ≡ map delta ds ++ end t ∷ []) × (all ≡ tokens ++ tokens_of ds)
Says tokens es stops = ⊥
Says tokens es raised_timeout = Unit
Says tokens es still_reads = Unit

delta-Says :
    (d : TokenDelta) (tokens : List ℕ) (es : List GenerationEvent) (c : Collection)
    → Says (tokens ++ d.token_ids) es c
    → Says tokens (delta d ∷ es) c
delta-Says d tokens es (returned all t) (ds, e, f) =
    (d ∷ ds, ap (λ xs. delta d ∷ xs) e, f ∙ append_assoc tokens d.token_ids (tokens_of ds))
delta-Says d tokens es raised_timeout h = tt
delta-Says d tokens es stops h = h
delta-Says d tokens es still_reads h = tt

later :
    (b : EventBuffer) (o : Op) (es : List GenerationEvent)
    → IsValid b
    → pending b ++ ((step b o).taken ++ es) ≡ (step b o).handed ++ (pending (step b o).buffer ++ es)
later b o es v =
    sym (append_assoc (pending b) (step b o).taken es)
    ∙ ap (λ xs. xs ++ es) (step-fifo b o v)
    ∙ append_assoc (step b o).handed (pending (step b o).buffer) es

put-delivered :
    (b : EventBuffer) (d : TokenDelta) → (put_delta b d).0.terminal_delivered ≡ b.terminal_delivered
unfolding put_delta
put-delivered b d = ground arith

end-delivered :
    (b : EventBuffer) (t : Terminal)
    → (put_terminal b t).0.terminal_delivered ≡ b.terminal_delivered
unfolding put_terminal
end-delivered b t = ground arith

collect-Says :
    (b : EventBuffer) (tokens : List ℕ) (ts : List Turn)
    → IsValid b
    → b.terminal_delivered ≡ false
    → Says tokens (pending b ++ (run b (operations ts)).taken) (collect b tokens ts)
unfolding collect run step
collect-Says b tokens [] v h = tt
collect-Says b tokens (deadline_passes ∷ ts) v h = tt
collect-Says b tokens (delta_arrives d ∷ ts) v h =
    rw (later b (puts_delta d) (run (put_delta b d).0 (operations ts)).taken v) (
      collect-Says (put_delta b d).0 tokens ts (step-IsValid b (puts_delta d) v)
        (put-delivered b d ∙ h))
collect-Says b tokens (terminal_arrives t ∷ ts) v h =
    rw (later b (puts_terminal t) (run (put_terminal b t).0 (operations ts)).taken v) (
      collect-Says (put_terminal b t).0 tokens ts (step-IsValid b (puts_terminal t) v)
        (end-delivered b t ∙ h))
collect-Says b tokens (reads ∷ ts) v h = elim (get-cases b h) [
  | inl (d, e, p, goes_on) ↦
      rw (later b gets (run (get b).0 (operations ts)).taken v, e, collect-delta b tokens ts d e)
        (delta-Says d tokens _ _
          (collect-Says (get b).0 (tokens ++ d.token_ids) ts (step-IsValid b gets v) goes_on))
  | inr (inl (t, e, p, closed)) ↦
      rw (p, run-closed (get b).0 (operations ts) closed, collect-end b tokens ts t e)
        ([], refl, sym (append-nil tokens))
  | inr (inr (e, p)) ↦
      rw (later b gets (run (get b).0 (operations ts)).taken v, e, collect-blocked b tokens ts e)
        (collect-Says (get b).0 tokens ts (step-IsValid b gets v)
          (ap (λ c. c.terminal_delivered) p ∙ h))
]

-- Whatever arrives, and whenever `collect` reads from a new buffer: what it returns is the tokens of
-- all the deltas that the buffer took in, in order, with the Terminal that it took in behind them;
-- and it does not end with StopIteration.
pub collect_is_whole :
    (n : ℕ) (ts : List Turn) → Says [] (run (init n) (operations ts)).taken (collect (init n) [] ts)
unfolding init
collect_is_whole n ts =
    collect-Says (init n) [] ts (record { bounded = omega arith; marked = λ _. refl }) refl
