-- ===== src/Client/System/Updates.antt =====
-- The ownership of requests under the updates that the steps are made of.
use mathlib.Core.Path.{subst}
use kim_llm_serving.Prelude.{
  ℕ, ◌≤◌, ◌≡◌, ◌≢◌, refl, false, none, some, List, arith, ◌==◌, ==_iff, Bool-cases, inl, inr,
}
use kim_llm_serving.Protocol.{Terminal}
use kim_llm_serving.Client.State.{RequestState, Heap, Requests, Client, find, write, state_of}
use kim_llm_serving.Client.System.{System}
use kim_llm_serving.Client.System.Ownership.{
  count_ref, count_pending, OwnedBy, Owned, count_ref-pop,
}

pub record Inv (s : System) : Type 0 where
  pub owned :
      (q : ℕ) → Owned (s.client.heap q) (count_ref s.client.requests q) (count_pending s.pending q)
  pub above : (q : ℕ) → s.client.fresh ≤ q → s.client.heap q ≡ none

-- Only how many Terminals are pending matters.
pub same-Inv :
    (c : Client) (ps qs : List (ℕ × Terminal))
    → ((q : ℕ) → count_pending ps q ≡ count_pending qs q)
    → Inv (record { client = c; pending = ps })
    → Inv (record { client = c; pending = qs })
same-Inv c ps qs same v = record {
  owned = λ q. subst (Owned (c.heap q) (count_ref c.requests q)) (same q) (v.owned q);
  above = v.above;
}

pub held_at :
    (h : Heap) (d p : ℕ → ℕ) (r : ℕ) (st : RequestState)
    → h r ≡ some st
    → ((q : ℕ) → Owned (h q) (d q) (p q))
    → OwnedBy st (d r) (p r)
held_at h d p r st e v = subst (λ o. Owned o (d r) (p r)) e (v r)

-- A write to one object, with counts that change for that object only.
pub write-Owned :
    (h : Heap) (d p d' p' : ℕ → ℕ) (r : ℕ) (st : RequestState)
    → ((q : ℕ) → Owned (h q) (d q) (p q))
    → OwnedBy st (d' r) (p' r)
    → ((q : ℕ) → (r == q) ≡ false → (d' q ≡ d q) × (p' q ≡ p q))
    → (q : ℕ) → Owned (write h r st q) (d' q) (p' q)
unfolding write
write-Owned h d p d' p' r st v own same q = elim (Bool-cases (r == q)) [
  | inl e ↦ rw e (subst (λ x. OwnedBy st (d' x) (p' x)) ((==_iff r q).0 e) own)
  | inr e ↦ rw (e, (same q e).0, (same q e).1) (v q)
]

pub write-above :
    (h : Heap) (fresh r : ℕ) (st st' : RequestState)
    → h r ≡ some st
    → ((q : ℕ) → fresh ≤ q → h q ≡ none)
    → (q : ℕ) → fresh ≤ q
    → write h r st' q ≡ none
unfolding write
write-above h fresh r st st' e above q le = ground (arith, above r, above q)

-- A write to an object that stays in the dict, or out of it.
pub update-Inv :
    (s : System) (r : ℕ) (st st' : RequestState)
    → s.client.heap r ≡ some st
    → ((d p : ℕ) → OwnedBy st d p → OwnedBy st' d p)
    → Inv s
    → Inv (record s { client = record s.client { heap = write s.client.heap r st' } })
update-Inv s r st st' e keep v = record {
  owned =
      write-Owned s.client.heap (count_ref s.client.requests) (count_pending s.pending)
        (count_ref s.client.requests) (count_pending s.pending) r st' v.owned
        (keep _ _ (
          held_at s.client.heap (count_ref s.client.requests) (count_pending s.pending) r st e
            v.owned))
        (λ q _. (refl, refl));
  above = write-above s.client.heap s.client.fresh r st st' e v.above;
}

pub found-some : (rs : Requests) (id r : ℕ) → find rs id ≡ some r → count_ref rs r ≢ 0
found-some rs id r h e = ground (arith, count_ref-pop rs id r r h)

pub state_of-some :
    (c : Client) (id r : ℕ) (st : RequestState)
    → state_of c id ≡ some (r, st)
    → (find c.requests id ≡ some r) × (c.heap r ≡ some st)
unfolding state_of
state_of-some c id r st h = ground arith
