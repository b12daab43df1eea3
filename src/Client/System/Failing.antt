-- ===== src/Client/System/Failing.antt =====
-- `_fail` of clients/python/kim_llm_client/generation_client.py hands the ownership of Terminals over:
-- from the dict to the failing thread, once for each accepted request.
use mathlib.Core.Path.{subst}
use kim_llm_serving.Prelude.{
  ℕ, ◌+◌, ◌≡◌, refl, sym, ◌&&◌, not, Option, none, some, List, arith, ◌==◌, if◌then◌else◌,
  Bool-cases, inl, inr,
}
use kim_llm_serving.Protocol.{Status, Terminal}
use kim_llm_serving.Client.State.{RequestState, Heap, Requests}
use kim_llm_serving.Client.Fail.{fail_locked, mark_failed, failure_terminals}
use kim_llm_serving.Client.System.{System, fail}
use kim_llm_serving.Client.System.Ownership.{
  count_ref, count_pending, OwnedBy, Owned, count_pending-append, mark_failed-at,
  count-failure_terminals, count-failure_terminals_missing,
}
use kim_llm_serving.Client.System.Updates.{Inv}

-- `_fail` turns each place in the dict of an accepted request into a pending Terminal.
failed-OwnedBy :
    (st : RequestState) (status : Status) (d p n : ℕ)
    → OwnedBy st d p
    → n ≡ (if st.accepted && not st.terminal_received then d else 0)
    → OwnedBy (record st { failure = some status }) 0 (p + n)
failed-OwnedBy st status d p n o e = elim (Bool-cases (d == 0)) [
  | inl h ↦ ground arith
  | inr h ↦ let (live, _, _) = o.registered (ground arith) in ground arith
]

untouched-OwnedBy : (st : RequestState) (p n : ℕ) → OwnedBy st 0 p → n ≡ 0 → OwnedBy st 0 (p + n)
untouched-OwnedBy st p n o e = ground arith

fail-Owned :
    (h : Heap) (rs : Requests) (ps : List (ℕ × Terminal)) (status : Status) (q : ℕ)
    (o : Option RequestState)
    → h q ≡ o
    → Owned o (count_ref rs q) (count_pending ps q)
    → Owned (mark_failed h rs status q) 0 (
        count_pending ps q
        + count_pending (failure_terminals (mark_failed h rs status) rs status) q)
fail-Owned h rs ps status q none e w =
    let h' = mark_failed h rs status in
    let gone : h' q ≡ none = ground (arith, mark_failed-at h rs status q) in
    subst (λ o. Owned o 0 (count_pending ps q + count_pending (failure_terminals h' rs status) q))
      (sym gone) (refl, omega (arith, w.1, count-failure_terminals_missing h' rs status q gone))
fail-Owned h rs ps status q (some st) e w = elim (Bool-cases (count_ref rs q == 0)) [
  | inl zero_refs ↦
      let h' = mark_failed h rs status in
      let same : h' q ≡ some st = ground (arith, mark_failed-at h rs status q) in
      let none_left : count_ref rs q ≡ 0 = ground arith in
      subst (λ o. Owned o 0 (count_pending ps q + count_pending (failure_terminals h' rs status) q))
        (sym same)
        (untouched-OwnedBy st (count_pending ps q)
          (count_pending (failure_terminals h' rs status) q)
          (subst (λ n. OwnedBy st n (count_pending ps q)) none_left w)
          (ground (arith, count-failure_terminals h' rs status q st same)))
  | inr some_refs ↦
      let h' = mark_failed h rs status in
      let st' : RequestState = record st { failure = some status } in
      let failed : h' q ≡ some st' = ground (arith, mark_failed-at h rs status q) in
      subst (λ o. Owned o 0 (count_pending ps q + count_pending (failure_terminals h' rs status) q))
        (sym failed)
        (failed-OwnedBy st status _ _ _ w (count-failure_terminals h' rs status q st' failed))
]

pub fail-Inv : (s : System) (status : Status) → Inv s → Inv (fail s status)
unfolding fail fail_locked count_ref
fail-Inv s status v =
    let h' = mark_failed s.client.heap s.client.requests status in
    record {
      owned = λ q.
          subst (Owned (h' q) 0) (sym (count_pending-append s.pending _ q))
            (fail-Owned s.client.heap s.client.requests s.pending status q _ refl (v.owned q));
      above = λ q le.
          ground (arith, mark_failed-at s.client.heap s.client.requests status q, v.above q);
    }
