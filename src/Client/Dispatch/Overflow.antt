-- ===== src/Client/Dispatch/Overflow.antt =====
-- What becomes of a stream whose buffer was full once (`_dispatch` and `_EventBuffer.put_delta` of
-- clients/python/kim_llm_client/generation_client.py).
use kim_llm_serving.Prelude.{
  ℕ, ◌+◌, ◌≡◌, true, false, none, some, List, [], ◌∷◌, ◌++◌, arith, length,
}
use kim_llm_serving.Protocol.{HelloAck, TokenDelta}
use kim_llm_serving.Client.Buffer.{put_delta, get}
use kim_llm_serving.Client.State.{RequestState, Client, write}
use kim_llm_serving.Client.Dispatch.{dispatch_delta, store_delta, event_error}
use kim_llm_serving.Client.System.{consume}

-- The request as the first delta that finds the buffer full leaves it, and as the consumer leaves it.
abbrev pub full_then_read : RequestState → List TokenDelta → RequestState
full_then_read st rest = record st {
  next_sequence_no = st.next_sequence_no + 1;
  events = record st.events { overflowed = true; deltas = rest };
  cancel_sent = true;
}

module _ (c : Client) (ack : HelloAck) (r : ℕ) (st : RequestState) (d d' x : TokenDelta)
    (rest : List TokenDelta) where
  -- Of an accepted request that has no Terminal, the delta `d`, next in sequence, finds the buffer
  -- full and is lost. Once the consumer has read one event, the next
  -- delta `d'` is stored after those that were there: the consumer's stream goes on without `d`.
  pub overflow_leaves_gap :
      st.accepted ≡ true
      → st.terminal_received ≡ false
      → st.events.terminal ≡ none
      → st.events.deltas ≡ x ∷ rest
      → length rest + 1 ≡ st.events.max_delta_events
      → d.sequence_no ≡ st.next_sequence_no
      → d'.sequence_no ≡ st.next_sequence_no + 1
      → let lost = consume (dispatch_delta c ack r st d).1 r in
        let st' = full_then_read st rest in
        (lost.heap r ≡ some st')
        × ((dispatch_delta lost ack r st' d').1.heap r
            ≡ some (record st' {
              next_sequence_no = st.next_sequence_no + 1 + 1;
              events = record st'.events { deltas = rest ++ d' ∷ [] };
            }))
  unfolding dispatch_delta store_delta event_error consume put_delta get write
  overflow_leaves_gap a t e full n s s' = ground arith
