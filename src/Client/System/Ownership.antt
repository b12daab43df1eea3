-- ===== src/Client/System/Ownership.antt =====
-- Who owes a request's consumer its Terminal.
use kim_llm_serving.Prelude.{
  ℕ, ◌+◌, ◌≤◌, ◌≡◌, ◌≢◌, refl, Bool, true, false, ◌&&◌, not, Option, none, some, List, [], ◌∷◌,
  ◌++◌, arith, is_some, ◌==◌, if◌then◌else◌, Option-cases, inl, inr,
}
use kim_llm_serving.Protocol.{Status, Terminal, no_usage}
use kim_llm_serving.Client.State.{RequestState, Heap, Requests, find, pop, write}
use kim_llm_serving.Client.Fail.{mark_failed, failure_terminals}

-- How often the dict refers to an object, and how many Terminals are pending for it.
unfoldable pub count_ref : Requests → ℕ → ℕ
count_ref [] q = 0
count_ref ((id, r) ∷ rs) q = (if r == q then 1 else 0) + count_ref rs q

unfoldable pub count_pending : List (ℕ × Terminal) → ℕ → ℕ
count_pending [] q = 0
count_pending ((r, t) ∷ ps) q = (if r == q then 1 else 0) + count_pending ps q

abbrev pub any_terminal : Terminal
any_terminal = record {
  request_id = 0;
  status = record { code = ""; message = "" };
  finish_reason = none;
  usage = no_usage;
}

-- A Terminal for each object of a list.
abbrev pub owed : List ℕ → List (ℕ × Terminal)
owed [] = []
owed (r ∷ rs) = (r, any_terminal) ∷ owed rs

abbrev pub one_if : Bool → ℕ
one_if true = 1
one_if false = 0

-- An accepted request has its Terminal in its buffer, or it is in the dict, or one is pending; one of
-- these, once. No other request has a Terminal.
pub record OwnedBy (st : RequestState) (d p : ℕ) : Type 0 where
  pub once : st.accepted ≡ true → d + p + one_if (is_some st.events.terminal) ≡ 1
  pub unaccepted : st.accepted ≡ false → (d ≤ 1) × (p ≡ 0) × (is_some st.events.terminal ≡ false)
  pub registered :
      d ≢ 0 → (st.terminal_received ≡ false) × (st.rejected ≡ none) × (st.failure ≡ none)

abbrev pub Owned : Option RequestState → ℕ → ℕ → Type 0
Owned none d p = (d ≡ 0) × (p ≡ 0)
Owned (some st) d p = OwnedBy st d p

pub count_ref-pop :
    (rs : Requests) (id r q : ℕ)
    → find rs id ≡ some r
    → count_ref rs q ≡ (if r == q then 1 else 0) + count_ref (pop rs id) q
unfolding count_ref find pop
count_ref-pop [] id r q h = absurd (cc)
count_ref-pop ((j, x) ∷ rs) id r q h = ground (arith, count_ref-pop rs id r q)

pub count_ref-pop_missing :
    (rs : Requests) (id q : ℕ) → find rs id ≡ none → count_ref (pop rs id) q ≡ count_ref rs q
unfolding count_ref find pop
count_ref-pop_missing [] id q h = refl
count_ref-pop_missing ((j, x) ∷ rs) id q h = ground (arith, count_ref-pop_missing rs id q)

pub count_ref-append :
    (rs ss : Requests) (q : ℕ) → count_ref (rs ++ ss) q ≡ count_ref rs q + count_ref ss q
unfolding count_ref
count_ref-append [] ss q = omega arith
count_ref-append ((j, x) ∷ rs) ss q = omega (arith, count_ref-append rs ss q)

pub count_pending-append :
    (ps qs : List (ℕ × Terminal)) (q : ℕ)
    → count_pending (ps ++ qs) q ≡ count_pending ps q + count_pending qs q
unfolding count_pending
count_pending-append [] qs q = omega arith
count_pending-append ((r, t) ∷ ps) qs q = omega (arith, count_pending-append ps qs q)

-- `_fail` sets the failure of exactly the objects in the dict.
abbrev pub with_failure : Option RequestState → Status → Option RequestState
with_failure none status = none
with_failure (some st) status = some (record st { failure = some status })

pub mark_failed-at :
    (h : Heap) (rs : Requests) (status : Status) (q : ℕ)
    → mark_failed h rs status q ≡ (if count_ref rs q == 0 then h q else with_failure (h q) status)
unfolding mark_failed count_ref write
mark_failed-at h [] status q = refl
mark_failed-at h ((id, r) ∷ rs) status q = elim (Option-cases (h r)) [
  | inl e ↦ rw (e, mark_failed) (ground (arith, mark_failed-at h rs status q))
  | inr (st, e) ↦
      rw (e, mark_failed)
        (ground
          (arith, mark_failed-at (write h r (record st { failure = some status })) rs status q))
]

-- Of each accepted object in the dict one Terminal is made.
pub count-failure_terminals :
    (h : Heap) (rs : Requests) (status : Status) (q : ℕ) (st : RequestState)
    → h q ≡ some st
    → count_pending (failure_terminals h rs status) q
      ≡ (if st.accepted && not st.terminal_received then count_ref rs q else 0)
unfolding count_pending failure_terminals count_ref
count-failure_terminals h [] status q st e = ground arith
count-failure_terminals h ((id, r) ∷ rs) status q st e =
    ground (arith, count-failure_terminals h rs status q st)

pub count-failure_terminals_missing :
    (h : Heap) (rs : Requests) (status : Status) (q : ℕ)
    → h q ≡ none
    → count_pending (failure_terminals h rs status) q ≡ 0
unfolding count_pending failure_terminals
count-failure_terminals_missing h [] status q e = refl
count-failure_terminals_missing h ((id, r) ∷ rs) status q e =
    ground (arith, count-failure_terminals_missing h rs status q)
