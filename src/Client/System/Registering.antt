-- ===== src/Client/System/Registering.antt =====
-- `submit` of clients/python/kim_llm_client/generation_client.py keeps the ownership of Terminals: a
-- request enters the dict, or leaves it unsent.
use mathlib.Core.Path.{subst, subst₂}
use kim_llm_serving.Prelude.{
  ℕ, suc, ◌+◌, ◌≡◌, if◌then◌else◌, refl, sym, ap, false, Option, none, some, [], ◌∷◌, ◌++◌, arith,
  is_some, ◌==◌, ==_iff, if_cases, Bool-cases, Option-cases, inl, inr, leb,
}
use kim_llm_serving.Protocol.{HelloAck, GenerationRequest}
use kim_llm_serving.Client.Buffer.{init}
use kim_llm_serving.Client.State.{
  RequestState, Heap, Requests, Client, Outcome, returned, raised, find, pop, state_of,
  require_connected_locked,
}
use kim_llm_serving.Client.Requests.{
  register, validate_request_against_worker, allocate, new_request, unregister, register_valid,
  register_connected, request_limit, count_requests,
}
use kim_llm_serving.Client.System.{System, dropped}
use kim_llm_serving.Client.System.Ownership.{
  count_ref, count_pending, one_if, owed, count_pending-append, OwnedBy, Owned, count_ref-pop,
  count_ref-pop_missing, count_ref-append,
}
use kim_llm_serving.Client.System.Updates.{Inv, write-Owned, found-some}

pub none_at :
    (h : Heap) (d p : ℕ → ℕ) (r : ℕ)
    → h r ≡ none
    → ((q : ℕ) → Owned (h q) (d q) (p q))
    → (d r ≡ 0) × (p r ≡ 0)
none_at h d p r e v = subst (λ o. Owned o (d r) (p r)) e (v r)

new_request-OwnedBy : (c : Client) (id : ℕ) → OwnedBy (new_request c id) 1 0
unfolding new_request init
new_request-OwnedBy c id = ground arith

-- A new object, in the dict under a new key.
allocate-Inv : (s : System) (id : ℕ) → Inv s → Inv (record s { client = allocate s.client id })
unfolding allocate count_ref
allocate-Inv s id v =
    let n = s.client.fresh in
    let rs = s.client.requests in
    let (no_ref, no_pending) =
      none_at s.client.heap (count_ref rs) (count_pending s.pending) n (v.above n (omega arith))
        v.owned in
    record {
      owned =
          write-Owned s.client.heap (count_ref rs) (count_pending s.pending)
            (count_ref (rs ++ (id, n) ∷ [])) (count_pending s.pending) n (new_request s.client id)
            v.owned
            (subst₂ (OwnedBy (new_request s.client id))
              (ground (arith, count_ref-append rs ((id, n) ∷ []) n)) (sym no_pending)
              (new_request-OwnedBy s.client id))
            (λ q e. (ground (arith, count_ref-append rs ((id, n) ∷ []) q), refl));
      above = λ q le. ground (arith, v.above q);
    }

-- An object that leaves the dict, and a Terminal that is owed to it if it was accepted.
dropped-OwnedBy :
    (st : RequestState) (d d' p : ℕ)
    → d ≡ suc d'
    → OwnedBy st d p
    → OwnedBy st d' (p + one_if st.accepted)
dropped-OwnedBy st d d' p e o = elim (Bool-cases st.accepted) [
  | inl a ↦ rw a (ground (arith, o.once a))
  | inr a ↦ rw a (ground (arith, o.unaccepted a))
]

count-dropped :
    (c : Client) (id r q : ℕ) (st : RequestState)
    → find c.requests id ≡ some r
    → c.heap r ≡ some st
    → count_pending (owed (dropped c id)) q ≡ (if r == q then one_if st.accepted else 0)
unfolding dropped state_of count_pending
count-dropped c id r q st e f = ground arith

count-dropped_other :
    (c : Client) (id r q : ℕ)
    → find c.requests id ≡ some r
    → (r == q) ≡ false
    → count_pending (owed (dropped c id)) q ≡ 0
unfolding dropped state_of count_pending
count-dropped_other c id r q e other = elim (Option-cases (c.heap r)) [
  | inl f ↦ ground arith
  | inr (st, f) ↦ ground arith
]

no_pending : (q : ℕ) → count_pending [] q ≡ 0
unfolding count_pending
no_pending q = refl

dropped-none : (c : Client) (id : ℕ) → find c.requests id ≡ none → dropped c id ≡ []
unfolding dropped state_of
dropped-none c id e = ground arith

pub unregister-Inv :
    (s : System) (id : ℕ)
    → Inv s
    → Inv (record {
      client = unregister s.client id;
      pending = s.pending ++ owed (dropped s.client id);
    })
unfolding unregister
unregister-Inv s id v = elim (Option-cases (find rs id)) [
  | inl e ↦ record {
    owned = λ q.
        subst₂ (Owned (s.client.heap q)) (sym (count_ref-pop_missing rs id q e))
          (ground (
            arith,
            count_pending-append s.pending (owed (dropped s.client id)) q,
            ap (λ l. count_pending (owed l) q) (dropped-none s.client id e),
            no_pending q,
          ))
          (v.owned q);
    above = v.above;
  }
  | inr (r, e) ↦ record { owned = λ q. found r e q; above = v.above }
]
  where
    rs : Requests
    rs = s.client.requests

    left :
        (r : ℕ)
        → find rs id ≡ some r
        → (o : Option RequestState) → s.client.heap r ≡ o
        → Owned o (count_ref rs r) (count_pending s.pending r)
        → Owned o
            (count_ref (pop rs id) r)
            (count_pending (s.pending ++ owed (dropped s.client id)) r)
    left r e none at_r w = absurd (found-some rs id r e w.0)
    left r e (some st) at_r w =
        subst (OwnedBy st (count_ref (pop rs id) r))
          (ground (
            arith,
            count_pending-append s.pending (owed (dropped s.client id)) r,
            count-dropped s.client id r r st e at_r,
            (==_iff r r).1 refl,
          ))
          (dropped-OwnedBy st _ (count_ref (pop rs id) r) _
            (ground (arith, count_ref-pop rs id r r e)) w)

    found :
        (r : ℕ)
        → find rs id ≡ some r
        → (q : ℕ)
        → Owned
            (s.client.heap q)
            (count_ref (pop rs id) q)
            (count_pending (s.pending ++ owed (dropped s.client id)) q)
    found r e q = elim (Bool-cases (r == q)) [
      | inl same ↦
          subst
            (λ x.
              Owned (s.client.heap x) (count_ref (pop rs id) x)
                (count_pending (s.pending ++ owed (dropped s.client id)) x))
            ((==_iff r q).0 same) (left r e (s.client.heap r) refl (v.owned r))
      | inr other ↦
          subst₂ (Owned (s.client.heap q)) (ground (arith, count_ref-pop rs id r q e))
            (ground (
              arith,
              count_pending-append s.pending (owed (dropped s.client id)) q,
              count-dropped_other s.client id r q e other,
            ))
            (v.owned q)
    ]

module _ {F : Type 0} (s : System) (q : GenerationRequest F) (v : Inv s) where
  valid-Inv : (ack : HelloAck) → Inv (record s { client = (register_valid s.client ack q).1 })
  unfolding register_valid
  valid-Inv ack =
      if_cases (λ (o : Outcome ℕ × Client). Inv (record s { client = o.1 }))
        (is_some (find s.client.requests q.request_id)) (λ _. v)
        (λ _.
          if_cases (λ (o : Outcome ℕ × Client). Inv (record s { client = o.1 }))
            (leb (request_limit s.client ack) (count_requests s.client)) (λ _. v)
            (λ _. allocate-Inv s q.request_id v))

  checked-Inv :
      (ack : HelloAck) (o : Outcome (Unit {0}))
      → Inv (record s {
        client =
            (let r : Outcome ℕ × Client = elim o [
              | raised e ↦ (raised e, s.client)
              | returned _ ↦ register_valid s.client ack q
            ] in
              r).1;
      })
  checked-Inv ack (raised e) = v
  checked-Inv ack (returned _) = valid-Inv ack

  connected-Inv :
      (o : Outcome HelloAck) → Inv (record s { client = (register_connected s.client q o).1 })
  unfolding register_connected
  connected-Inv (raised e) = v
  connected-Inv (returned ack) = checked-Inv ack (validate_request_against_worker q ack)

  pub register-Inv : Inv (record s { client = (register s.client q).1 })
  unfolding register
  register-Inv = connected-Inv (require_connected_locked s.client)
