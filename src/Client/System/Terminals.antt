-- ===== src/Client/System/Terminals.antt =====
-- Every accepted request of a GenerationClient
-- (clients/python/kim_llm_client/generation_client.py) gets its Terminal exactly once.
use kim_llm_serving.Prelude.{
  ℕ, ◌+◌, ◌≡◌, refl, ap, true, false, some, List, [], ◌∷◌, ◌++◌, arith, is_some, ◌==◌,
  if◌then◌else◌,
}
use kim_llm_serving.Protocol.{Terminal}
use kim_llm_serving.Client.State.{RequestState, ClientConfig, returned, new_client}
use kim_llm_serving.Client.Dispatch.{deliver}
use kim_llm_serving.Client.System.{System, Reach, lost, new_system}
use kim_llm_serving.Client.System.Ownership.{
  count_ref, count_pending, one_if, owed, count_pending-append, OwnedBy,
}
use kim_llm_serving.Client.System.Updates.{Inv, held_at}
use kim_llm_serving.Client.System.Steps.{with_lost, deliver-lost, Reach-Inv}

new-Inv : (config : ClientConfig) → Inv (new_system config)
unfolding new_system new_client count_ref count_pending
new-Inv config = record { owned = λ q. (refl, refl); above = λ q _. refl }

-- How often an object stands in a list.
unfoldable pub count_lost : List ℕ → ℕ → ℕ
count_lost [] q = 0
count_lost (r ∷ rs) q = (if r == q then 1 else 0) + count_lost rs q

count-owed : (rs : List ℕ) (q : ℕ) → count_pending (owed rs) q ≡ count_lost rs q
unfolding count_pending count_lost
count-owed [] q = refl
count-owed (r ∷ rs) q = ap (λ n. (if r == q then 1 else 0) + n) (count-owed rs q)

module _ {F : Type 0} (config : ClientConfig) (s : System)
    (run : Reach F (new_system config) s) where
  valid : Inv (with_lost s (lost run))
  unfolding new_system
  valid = Reach-Inv run (new-Inv config)

  owned :
      (r : ℕ) (st : RequestState)
      → s.client.heap r ≡ some st
      → OwnedBy st (count_ref s.client.requests r) (count_pending (s.pending ++ owed (lost run)) r)
  owned r st at_r =
      held_at s.client.heap (count_ref s.client.requests)
        (count_pending (s.pending ++ owed (lost run))) r st at_r valid.owned

  -- In every state that the client's threads can reach, and for every accepted request: once no
  -- thread has a Terminal in hand, either the request stands in the dict, once, or its buffer holds
  -- its Terminal, or a failed send of its id took it out of the dict after it was accepted, once; and
  -- no two of these.
  pub accepted_ends_once :
      (r : ℕ) (st : RequestState)
      → s.client.heap r ≡ some st
      → st.accepted ≡ true
      → s.pending ≡ []
      → count_ref s.client.requests r
          + one_if (is_some st.events.terminal)
          + count_lost (lost run) r
        ≡ 1
  accepted_ends_once r st at_r a idle = omega (
    arith,
    (owned r st at_r).once a,
    ap (λ ps. count_pending (ps ++ owed (lost run)) r) idle,
    count-owed (lost run) r,
  )

  -- In every state that the threads can reach, a thread that puts a Terminal it has in hand finds
  -- room for it: `request received duplicate Terminal` is never raised.
  pub delivery_never_fails :
      (before later : List (ℕ × Terminal)) (r : ℕ) (t : Terminal)
      → s.pending ≡ before ++ (r, t) ∷ later
      → (deliver s.client r t).0 ≡ returned tt
  delivery_never_fails before later r t e = (deliver-lost s (lost run) before later r t e valid).0

  -- A request that was not accepted, was rejected included, never has a Terminal, in its buffer or
  -- in a thread's hand.
  pub unaccepted_never_ends :
      (r : ℕ) (st : RequestState)
      → s.client.heap r ≡ some st
      → st.accepted ≡ false
      → (is_some st.events.terminal ≡ false) × (count_pending s.pending r ≡ 0)
  unaccepted_never_ends r st at_r a =
      let (_, p, e) = (owned r st at_r).unaccepted a in
      (e, omega (arith, p, count_pending-append s.pending (owed (lost run)) r))
