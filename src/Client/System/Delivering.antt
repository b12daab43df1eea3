-- ===== src/Client/System/Delivering.antt =====
-- Terminals that reach a buffer, and events that leave one, keep the ownership of Terminals
-- (`_dispatch` and `next_event` of clients/python/kim_llm_client/generation_client.py).
use kim_llm_serving.Prelude.{
  ℕ, suc, ◌+◌, ◌≡◌, refl, true, false, List, ◌∷◌, ◌++◌, arith, is_some, ◌==◌, if◌then◌else◌,
  Bool-cases, Option-cases, inl, inr,
}
use kim_llm_serving.Protocol.{Terminal}
use kim_llm_serving.Client.Buffer.{put_terminal, get}
use kim_llm_serving.Client.State.{RequestState, returned}
use kim_llm_serving.Client.Dispatch.{deliver}
use kim_llm_serving.Client.System.{System, consume}
use kim_llm_serving.Client.System.Ownership.{
  count_ref, count_pending, OwnedBy, count_pending-append,
}
use kim_llm_serving.Client.System.Updates.{Inv, held_at, write-Owned, write-above, update-Inv}
use kim_llm_serving.Client.System.Registering.{none_at}

-- A pending Terminal reaches the buffer.
delivered-OwnedBy :
    (st : RequestState) (t : Terminal) (d p p' : ℕ)
    → OwnedBy st d p
    → p ≡ suc p'
    → ((put_terminal st.events t).1 ≡ true)
      × OwnedBy (record st { events = (put_terminal st.events t).0 }) d p'
unfolding put_terminal
delivered-OwnedBy st t d p p' o e = elim (Bool-cases st.accepted) [
  | inl a ↦
      let counted = o.once a in
      let open_end : is_some st.events.terminal ≡ false = ground arith in
      (
        rw (open_end, put_terminal) refl,
        record { once = ground arith; unaccepted = λ h. absurd (cc); registered = o.registered },
      )
  | inr a ↦ absurd (ground (arith, o.unaccepted a))
]

consumed-OwnedBy :
    (st : RequestState) (d p : ℕ)
    → OwnedBy st d p
    → OwnedBy (record st { events = (get st.events).0 }) d p
unfolding get
consumed-OwnedBy st d p o = ground arith

pending_split :
    (s : System) (before later : List (ℕ × Terminal)) (r q : ℕ) (t : Terminal)
    → s.pending ≡ before ++ (r, t) ∷ later
    → count_pending s.pending q ≡ (if r == q then 1 else 0) + count_pending (before ++ later) q
unfolding count_pending
pending_split s before later r q t e = rw e (
    omega
      (arith, count_pending-append before ((r, t) ∷ later) q, count_pending-append before later q))

-- A delivery never fails: the buffer has room for the Terminal.
pub deliver-Inv :
    (s : System) (before later : List (ℕ × Terminal)) (r : ℕ) (t : Terminal)
    → s.pending ≡ before ++ (r, t) ∷ later
    → Inv s
    → ((deliver s.client r t).0 ≡ returned tt)
      × Inv (record { client = (deliver s.client r t).1; pending = before ++ later })
unfolding deliver
deliver-Inv s before later r t e v = elim (Option-cases (s.client.heap r)) [
  | inl absent ↦
      let gone =
        none_at s.client.heap (count_ref s.client.requests) (count_pending s.pending) r absent
          v.owned in
      absurd (ground (arith, pending_split s before later r r t e))
  | inr (st, at_r) ↦
      let split = pending_split s before later r in
      let (stored, o) =
        delivered-OwnedBy st t (count_ref s.client.requests r) (count_pending s.pending r)
          (count_pending (before ++ later) r)
          (held_at s.client.heap (count_ref s.client.requests) (count_pending s.pending) r st at_r
            v.owned)
          (ground (arith, split r t e)) in
      (
        rw (at_r, deliver, stored) refl,
        rw (at_r, deliver, stored)
            (record {
              owned =
                  write-Owned s.client.heap (count_ref s.client.requests) (count_pending s.pending)
                    (count_ref s.client.requests) (count_pending (before ++ later)) r
                    (record st { events = (put_terminal st.events t).0 }) v.owned o
                    (λ q other. (refl, ground (arith, split q t e)));
              above =
                  write-above s.client.heap s.client.fresh r st
                    (record st { events = (put_terminal st.events t).0 }) at_r v.above;
            }),
      )
]

pub consume-Inv : (s : System) (r : ℕ) → Inv s → Inv (record s { client = consume s.client r })
unfolding consume
consume-Inv s r v = elim (Option-cases (s.client.heap r)) [
  | inl e ↦ rw (e, consume) v
  | inr (st, e) ↦
      rw (e, consume)
        (update-Inv s r st (record st { events = (get st.events).0 }) e (consumed-OwnedBy st) v)
]
