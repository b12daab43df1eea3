-- ===== src/Client/Collect.antt =====
-- `GenerationHandle.collect` of clients/python/kim_llm_client/generation_client.py, with the turns
-- that the reader's thread takes between its reads.
pub mod Whole
pub mod Returns
use kim_llm_serving.Prelude.{ℕ, ◌≡◌, refl, List, [], ◌∷◌, ◌++◌}
use kim_llm_serving.Protocol.{TokenDelta, Terminal, delta, end}
use kim_llm_serving.Client.Buffer.{
  EventBuffer, put_delta, put_terminal, Got, event, blocked, stop, get,
}

-- One critical section of the buffer, or the deadline: `collect` finds it passed before it reads, or
-- `get` while it waits. A read that finds nothing waits for the turns to come.
pub data Turn : Type 0 where
  delta_arrives : TokenDelta → Turn
  terminal_arrives : Terminal → Turn
  reads deadline_passes : Turn

-- `stops`: `get` raised StopIteration.
pub data Collection : Type 0 where
  returned : List ℕ → Terminal → Collection
  raised_timeout stops still_reads : Collection

-- With the tokens so far.
unfoldable pub collect : EventBuffer → List ℕ → List Turn → Collection
collect b tokens [] = still_reads
collect b tokens (delta_arrives d ∷ ts) = collect (put_delta b d).0 tokens ts
collect b tokens (terminal_arrives t ∷ ts) = collect (put_terminal b t).0 tokens ts
collect b tokens (deadline_passes ∷ ts) = raised_timeout
collect b tokens (reads ∷ ts) = elim (get b).1 [
  | event (delta d) ↦ collect (get b).0 (tokens ++ d.token_ids) ts
  | event (end t) ↦ returned tokens t
  | blocked ↦ collect (get b).0 tokens ts
  | stop ↦ stops
]

module _ (b : EventBuffer) (tokens : List ℕ) (ts : List Turn) where
  pub collect-delta :
      (d : TokenDelta)
      → (get b).1 ≡ event (delta d)
      → collect b tokens (reads ∷ ts) ≡ collect (get b).0 (tokens ++ d.token_ids) ts
  unfolding collect
  collect-delta d e = rw (collect, e)

  pub collect-end :
      (t : Terminal) → (get b).1 ≡ event (end t) → collect b tokens (reads ∷ ts) ≡ returned tokens t
  unfolding collect
  collect-end t e = rw (collect, e)

  pub collect-blocked :
      (get b).1 ≡ blocked → collect b tokens (reads ∷ ts) ≡ collect (get b).0 tokens ts
  unfolding collect
  collect-blocked e = rw (collect, e)
