-- ===== src/Client/System/Steps.antt =====
-- The other steps of the client keep the ownership of Terminals too, and so every step does.
use kim_llm_serving.Prelude.{
  ℕ, ◌≡◌, refl, sym, ap, ◌∙◌, ◌++◌, arith, append_assoc, true, ◌||◌, not, none, List, [], ◌∷◌,
  if_cases, Option-cases, inl, inr,
}
use kim_llm_serving.Protocol.{Status, Terminal, HelloAck}
use kim_llm_serving.Client.State.{
  Client, Outcome, returned, raised, state_of, require_connected_locked,
}
use kim_llm_serving.Client.Dispatch.{Actions, dispatch, deliver, put_response}
use kim_llm_serving.Client.Requests.{
  cancel, cancel_known, cancel_connected, start_probe, begin_probe, end_probe, unregister,
  Cancelling,
}
use kim_llm_serving.Client.Fail.{release_probes, install}
use kim_llm_serving.Client.System.{
  System, Step, registers, unregisters, dispatches, delivers, fails, cancels, starts_probe,
  ends_probe, releases_probes, connects, reader_exits, consumes, Reach, here, next, after_dispatch,
  fail, dropped, lose, lost,
}
use kim_llm_serving.Client.System.Ownership.{
  count_pending, any_terminal, owed, count_pending-append,
}
use kim_llm_serving.Client.System.Updates.{Inv, same-Inv, update-Inv, state_of-some}
use kim_llm_serving.Client.System.Failing.{fail-Inv}
use kim_llm_serving.Client.System.Preserved.{dispatch-Inv, put_response-Inv}
use kim_llm_serving.Client.System.Registering.{register-Inv, unregister-Inv}
use kim_llm_serving.Client.System.Delivering.{deliver-Inv, consume-Inv}

cancel_known-Inv :
    (s : System) (id : ℕ) (ack : HelloAck)
    → Inv s
    → Inv (record s { client = (cancel_known s.client id ack (state_of s.client id)).1 })
unfolding cancel_known
cancel_known-Inv s id ack v = elim (Option-cases (state_of s.client id)) [
  | inl e ↦ rw (e, cancel_known) v
  | inr ((r, st), e) ↦
      let (_, at_r) = state_of-some s.client id r st e in
      rw (e, cancel_known)
        (if_cases (λ (o : Outcome Cancelling × Client). Inv (record s { client = o.1 }))
          (not st.accepted || st.terminal_received) (λ _. v)
          (λ _.
            if_cases (λ (o : Outcome Cancelling × Client). Inv (record s { client = o.1 }))
              st.cancel_sent (λ _. v)
              (λ _.
                update-Inv s r st (record st { cancel_sent = true }) at_r
                  (λ d p o. record {
                    once = o.once;
                    unaccepted = o.unaccepted;
                    registered = o.registered;
                  })
                  v)))
]

cancel-Inv : (s : System) (id : ℕ) → Inv s → Inv (record s { client = (cancel s.client id).1 })
unfolding cancel
cancel-Inv s id v = by_outcome (require_connected_locked s.client)
  where
    by_outcome :
        (o : Outcome HelloAck) → Inv (record s { client = (cancel_connected s.client id o).1 })
    by_outcome (raised e) = unfold cancel_connected in v
    by_outcome (returned ack) = unfold cancel_connected in cancel_known-Inv s id ack v

release_probes-Inv :
    (s : System) (ps : List ℕ) → Inv s → Inv (record s { client = release_probes s.client ps })
unfolding release_probes
release_probes-Inv s [] v = v
release_probes-Inv s (p ∷ ps) v =
    release_probes-Inv (record s { client = put_response s.client p none }) ps
      (put_response-Inv s p none v)

start_probe-Inv : (s : System) → Inv s → Inv (record s { client = (start_probe s.client).1 })
unfolding start_probe
start_probe-Inv s v = by_outcome (require_connected_locked s.client)
  where
    by_outcome : (o : Outcome HelloAck) → Inv (record s { client = (begin_probe s.client o).1 })
    by_outcome (raised e) = unfold begin_probe in v
    by_outcome (returned ack) = unfold begin_probe in record { owned = v.owned; above = v.above }

-- The system with a Terminal pending for each object that was taken out of the dict when accepted.
abbrev pub with_lost : System → List ℕ → System
with_lost s rs = record { client = s.client; pending = s.pending ++ owed rs }

-- Terminals that a step adds to the pending ones, before or after those of `os`.
added-Inv :
    (c : Client) (ps os ts : List (ℕ × Terminal))
    → Inv (record { client = c; pending = (ps ++ os) ++ ts })
    → Inv (record { client = c; pending = (ps ++ ts) ++ os })
added-Inv c ps os ts = same-Inv c ((ps ++ os) ++ ts) ((ps ++ ts) ++ os) (λ q. omega (
  arith,
  count_pending-append (ps ++ os) ts q,
  count_pending-append ps os q,
  count_pending-append (ps ++ ts) os q,
  count_pending-append ps ts q,
))

after_dispatch-lost :
    (s : System) (rs : List ℕ) (o : Outcome Actions × Client)
    → Inv (after_dispatch (with_lost s rs) o)
    → Inv (with_lost (after_dispatch s o) rs)
unfolding after_dispatch
after_dispatch-lost s rs (raised e, c) v = v
after_dispatch-lost s rs (returned a, c) v = added-Inv c s.pending (owed rs) _ v

fail-lost :
    (s : System) (rs : List ℕ) (status : Status)
    → Inv (fail (with_lost s rs) status)
    → Inv (with_lost (fail s status) rs)
unfolding fail
fail-lost s rs status v = added-Inv _ s.pending (owed rs) _ v

owed-append : (rs qs : List ℕ) → owed (rs ++ qs) ≡ owed rs ++ owed qs
owed-append [] qs = refl
owed-append (r ∷ rs) qs = ap (λ ps. (r, any_terminal) ∷ ps) (owed-append rs qs)

unregister-lost :
    (s : System) (rs : List ℕ) (id : ℕ)
    → Inv (with_lost s rs)
    → Inv (with_lost (record s { client = unregister s.client id }) (dropped s.client id ++ rs))
unfolding unregister
unregister-lost s rs id v =
    same-Inv (unregister s.client id) ((s.pending ++ owed rs) ++ owed (dropped s.client id))
      (s.pending ++ owed (dropped s.client id ++ rs))
      (λ q. omega (
        arith,
        count_pending-append (s.pending ++ owed rs) (owed (dropped s.client id)) q,
        count_pending-append s.pending (owed rs) q,
        ap (λ ps. count_pending (s.pending ++ ps) q) (owed-append (dropped s.client id) rs),
        count_pending-append s.pending (owed (dropped s.client id) ++ owed rs) q,
        count_pending-append (owed (dropped s.client id)) (owed rs) q,
      ))
      (unregister-Inv (with_lost s rs) id v)

-- A pending Terminal has room, and the ownership is kept where it is put.
pub deliver-lost :
    (s : System) (rs : List ℕ) (before later : List (ℕ × Terminal)) (r : ℕ) (t : Terminal)
    → s.pending ≡ before ++ (r, t) ∷ later
    → Inv (with_lost s rs)
    → ((deliver s.client r t).0 ≡ returned tt)
      × Inv (with_lost (record { client = (deliver s.client r t).1; pending = before ++ later }) rs)
deliver-lost s rs before later r t e v =
    let (room, kept) =
      deliver-Inv (with_lost s rs) before (later ++ owed rs) r t
        (ap (λ ps. ps ++ owed rs) e ∙ append_assoc before ((r, t) ∷ later) (owed rs)) v in
    (
      room,
      same-Inv _ (before ++ (later ++ owed rs)) ((before ++ later) ++ owed rs)
          (λ q. ap (λ ps. count_pending ps q) (sym (append_assoc before later (owed rs)))) kept,
    )

-- Every step keeps the ownership of Terminals.
Step-Inv :
    {F : Type 0} {s t : System} (rs : List ℕ) (st : Step F s t)
    → Inv (with_lost s rs)
    → Inv (with_lost t (lose rs st))
unfolding lose
Step-Inv {s = s} rs (registers q) v = register-Inv (with_lost s rs) q v
Step-Inv {s = s} rs (unregisters id) v = unregister-lost s rs id v
Step-Inv {s = s} rs (dispatches m) v =
    after_dispatch-lost s rs (dispatch s.client m) (dispatch-Inv (with_lost s rs) m v)
Step-Inv {s = s} rs (delivers before later r t e) v = (deliver-lost s rs before later r t e v).1
Step-Inv {s = s} rs (fails status) v = fail-lost s rs status (fail-Inv (with_lost s rs) status v)
Step-Inv {s = s} rs (cancels id) v = cancel-Inv (with_lost s rs) id v
Step-Inv {s = s} rs starts_probe v = start_probe-Inv (with_lost s rs) v
Step-Inv rs (ends_probe p) v = unfold end_probe in record { owned = v.owned; above = v.above }
Step-Inv {s = s} rs (releases_probes ps) v = release_probes-Inv (with_lost s rs) ps v
Step-Inv rs (connects connection ack _ _) v =
    unfold install in record { owned = v.owned; above = v.above }
Step-Inv rs (reader_exits _) v = record { owned = v.owned; above = v.above }
Step-Inv {s = s} rs (consumes r) v = consume-Inv (with_lost s rs) r v

pub Reach-Inv :
    {F : Type 0} {s t : System} (run : Reach F s t)
    → Inv (with_lost s [])
    → Inv (with_lost t (lost run))
unfolding lost
Reach-Inv here v = v
Reach-Inv (next run st) v = Step-Inv (lost run) st (Reach-Inv run v)
