-- ===== src/Client/System/Preserved.antt =====
-- Every step of the client keeps the ownership of Terminals.
use mathlib.Core.Path.{subst}
use kim_llm_serving.Prelude.{
  ℕ, suc, ◌+◌, ◌≡◌, ◌≢◌, refl, Bool, true, false, ◌||◌, Option, none, some, List, [], ◌∷◌, ◌++◌,
  arith, is_some, ◌==◌, if_cases, Bool-cases, Option-cases, inl, inr, append-nil,
}
use kim_llm_serving.Protocol.{
  Status, HelloAck, TokenDelta, Terminal, Stats, ServerMessage, hello_ack, accepted, rejected,
  token_delta, terminal, stats,
}
use kim_llm_serving.Client.Buffer.{put_delta}
use kim_llm_serving.Client.State.{
  RequestState, Client, Outcome, returned, raised, find, pop, write, state_of,
  require_connected_locked,
}
use kim_llm_serving.Client.Dispatch.{
  Actions, dispatch, dispatch_message, dispatch_for, dispatch_accepted, dispatch_rejected,
  dispatch_delta, store_delta, dispatch_terminal, dispatch_stats, event_error, put_response,
  contains_probe,
}
use kim_llm_serving.Client.System.{System, after_dispatch}
use kim_llm_serving.Client.System.Ownership.{
  count_ref, count_pending, OwnedBy, count_ref-pop, count_pending-append,
}
use kim_llm_serving.Client.System.Updates.{
  Inv, held_at, write-Owned, write-above, found-some, state_of-some,
}

-- Delivering nothing leaves `pending` as it is.
nothing_pending :
    (c : Client) (ps : List (ℕ × Terminal))
    → Inv (record { client = c; pending = ps })
    → Inv (record { client = c; pending = ps ++ [] })
nothing_pending c ps v = rw append-nil v

module _ (s : System) (v : Inv s) (id r : ℕ) (st : RequestState)
    (found : find s.client.requests id ≡ some r) (at_r : s.client.heap r ≡ some st) where
  own : OwnedBy st (count_ref s.client.requests r) (count_pending s.pending r)
  own =
      held_at s.client.heap (count_ref s.client.requests) (count_pending s.pending) r st at_r
        v.owned

  -- The object leaves the dict, with one more Terminal pending or none.
  leave-Inv :
      (st' : RequestState) (ps : List (ℕ × Terminal))
      → OwnedBy st'
          (count_ref (pop s.client.requests id) r)
          (count_pending s.pending r + count_pending ps r)
      → ((q : ℕ) → (r == q) ≡ false → count_pending ps q ≡ 0)
      → Inv (record {
        client = record s.client {
          heap = write s.client.heap r st';
          requests = pop s.client.requests id;
        };
        pending = s.pending ++ ps;
      })
  leave-Inv st' ps o none_else = record {
    owned =
        write-Owned s.client.heap (count_ref s.client.requests) (count_pending s.pending)
          (count_ref (pop s.client.requests id)) (count_pending (s.pending ++ ps)) r st' v.owned
          (rw (count_pending-append s.pending ps r) o)
          (λ q e. (
            ground (arith, count_ref-pop s.client.requests id r q found),
            omega (arith, count_pending-append s.pending ps q, none_else q e),
          ));
    above = write-above s.client.heap s.client.fresh r st st' at_r v.above;
  }

  stay-Inv :
      (st' : RequestState)
      → ((d p : ℕ) → d ≢ 0 → OwnedBy st d p → OwnedBy st' d p)
      → Inv (record {
        client = record s.client { heap = write s.client.heap r st' };
        pending = s.pending ++ [];
      })
  stay-Inv st' keep =
      nothing_pending (record s.client { heap = write s.client.heap r st' }) s.pending
        (record {
          owned =
              write-Owned s.client.heap (count_ref s.client.requests) (count_pending s.pending)
                (count_ref s.client.requests) (count_pending s.pending) r st' v.owned
                (keep _ _ (found-some s.client.requests id r found) own) (λ q _. (refl, refl));
          above = write-above s.client.heap s.client.fresh r st st' at_r v.above;
        })

  accepted-Inv : Inv (after_dispatch s (dispatch_accepted s.client r st))
  unfolding after_dispatch dispatch_accepted
  accepted-Inv = elim (Bool-cases (st.accepted || is_some st.rejected)) [
    | inl e ↦ rw (e, after_dispatch, dispatch_accepted) v
    | inr e ↦
        rw (e, after_dispatch, dispatch_accepted)
          (stay-Inv (record st { accepted = true })
            λ d p n o. record {
              once = λ _. ground (arith, o.unaccepted);
              unaccepted = λ h. absurd (cc);
              registered = o.registered;
            })
  ]

  rejected-Inv :
      (status : Status) → Inv (after_dispatch s (dispatch_rejected s.client id r st status))
  unfolding after_dispatch dispatch_rejected count_pending
  rejected-Inv status =
      if_cases (λ o. Inv (after_dispatch s o)) st.accepted (λ _. v)
        (λ e.
          leave-Inv (record st { rejected = some status }) []
            (ground (
              arith,
              own,
              own.unaccepted e,
              found-some s.client.requests id r found,
              count_ref-pop s.client.requests id r r found,
            ))
            (λ q _. refl))

  -- What a delta does to the buffer and the counters leaves the Terminal where it is.
  delta-OwnedBy :
      (d : TokenDelta) (n : ℕ) (sent : Bool) (a p : ℕ)
      → OwnedBy st a p
      → OwnedBy
          (record st {
            next_sequence_no = n;
            events = (put_delta st.events d).0;
            cancel_sent = sent;
          })
          a
          p
  unfolding put_delta
  delta-OwnedBy d n sent a p o = ground arith

  stored-Inv :
      (ack : HelloAck) (d : TokenDelta) → Inv (after_dispatch s (store_delta s.client ack r st d))
  unfolding after_dispatch store_delta
  stored-Inv ack d =
      if_cases (λ o. Inv (after_dispatch s o)) ((put_delta st.events d).1 || st.cancel_sent)
        (λ _. stay-Inv _ (λ a p _. delta-OwnedBy d (st.next_sequence_no + 1) st.cancel_sent a p))
        (λ _. stay-Inv _ (λ a p _. delta-OwnedBy d (st.next_sequence_no + 1) true a p))

  delta-Inv :
      (ack : HelloAck) (d : TokenDelta)
      → Inv (after_dispatch s (dispatch_delta s.client ack r st d))
  unfolding after_dispatch dispatch_delta
  delta-Inv ack d = elim (Option-cases (event_error st)) [
    | inr (e, q) ↦ rw (q, dispatch_delta) v
    | inl q ↦
        rw (q, dispatch_delta)
          (if_cases (λ o. Inv (after_dispatch s o)) (d.sequence_no == st.next_sequence_no)
            (λ _. stored-Inv ack d) (λ _. v))
  ]

accepted_of_no_error :
    (st : RequestState)
    → event_error st ≡ none
    → (st.accepted ≡ true) × (st.terminal_received ≡ false)
unfolding event_error
accepted_of_no_error st h = ground arith

-- The object leaves the dict, and its Terminal is pending instead.
handed_over :
    (st : RequestState) (d d' p : ℕ)
    → st.accepted ≡ true
    → OwnedBy st d p
    → d ≡ suc d'
    → OwnedBy (record st { terminal_received = true }) d' (p + 1)
handed_over st d d' p a o e = ground (arith, o.once a)

terminal-Inv :
    (s : System) (v : Inv s) (r : ℕ) (st : RequestState) (t : Terminal)
    → find s.client.requests t.request_id ≡ some r
    → s.client.heap r ≡ some st
    → Inv (after_dispatch s (dispatch_terminal s.client r st t))
unfolding after_dispatch dispatch_terminal count_pending
terminal-Inv s v r st t found at_r = elim (Option-cases (event_error st)) [
  | inr (x, q) ↦ rw (q, dispatch_terminal) v
  | inl q ↦
      rw (q, dispatch_terminal)
        (leave-Inv s v t.request_id r st found at_r (record st { terminal_received = true })
          ((r, t) ∷ [])
          (subst (OwnedBy (record st { terminal_received = true }) _) (ground arith) (
            handed_over st _ (count_ref (pop s.client.requests t.request_id) r)
              (count_pending s.pending r) (accepted_of_no_error st q).0
              (own s v t.request_id r st found at_r)
              (ground (arith, count_ref-pop s.client.requests t.request_id r r found))))
          (λ x e. ground arith))
]

dispatch_for-Inv :
    (s : System) (id : ℕ) (handle : ℕ → RequestState → Outcome Actions × Client)
    → Inv s
    → ((r : ℕ) (st : RequestState)
        → find s.client.requests id ≡ some r
        → s.client.heap r ≡ some st
        → Inv (after_dispatch s (handle r st)))
    → Inv (after_dispatch s (dispatch_for s.client id handle))
unfolding dispatch_for after_dispatch
dispatch_for-Inv s id handle v k = elim (Option-cases (state_of s.client id)) [
  | inl e ↦ rw (e, dispatch_for) v
  | inr ((r, st), e) ↦
      let (found, at_r) = state_of-some s.client id r st e in
      rw (e, dispatch_for) (k r st found at_r)
]

pub put_response-Inv :
    (s : System) (p : ℕ) (x : Option Stats)
    → Inv s
    → Inv (record s { client = put_response s.client p x })
unfolding put_response
put_response-Inv s p x v = record { owned = v.owned; above = v.above }

stats-Inv : (s : System) (x : Stats) → Inv s → Inv (record s { client = dispatch_stats s.client x })
unfolding dispatch_stats
stats-Inv s x v =
    if_cases (λ c. Inv (record s { client = c })) (contains_probe s.client.probes x.probe_id)
      (λ _. put_response-Inv s x.probe_id (some x) v) (λ _. v)

dispatch_message-Inv :
    (s : System) (ack : HelloAck) (m : ServerMessage)
    → Inv s
    → Inv (after_dispatch s (dispatch_message s.client ack m))
unfolding dispatch_message after_dispatch
dispatch_message-Inv s ack (stats x) v =
    nothing_pending (dispatch_stats s.client x) s.pending (stats-Inv s x v)
dispatch_message-Inv s ack (hello_ack a) v = v
dispatch_message-Inv s ack (accepted id) v =
    dispatch_for-Inv s id _ v (λ r st f h. accepted-Inv s v id r st f h)
dispatch_message-Inv s ack (rejected id x) v =
    dispatch_for-Inv s id _ v (λ r st f h. rejected-Inv s v id r st f h x)
dispatch_message-Inv s ack (token_delta d) v =
    dispatch_for-Inv s d.request_id _ v (λ r st f h. delta-Inv s v d.request_id r st f h ack d)
dispatch_message-Inv s ack (terminal t) v =
    dispatch_for-Inv s t.request_id _ v (λ r st f h. terminal-Inv s v r st t f h)

-- The reader's critical section.
pub dispatch-Inv :
    (s : System) (m : ServerMessage) → Inv s → Inv (after_dispatch s (dispatch s.client m))
unfolding dispatch after_dispatch
dispatch-Inv s m v = by_outcome (require_connected_locked s.client)
  where
    by_outcome :
        (o : Outcome HelloAck)
        → Inv (
            after_dispatch s (elim o [
              | raised e ↦ (raised e, s.client)
              | returned ack ↦ dispatch_message s.client ack m
            ]))
    by_outcome (raised e) = v
    by_outcome (returned ack) = dispatch_message-Inv s ack m v
