-- ===== src/Examples/Collect.antt =====
-- `GenerationHandle.collect` of clients/python/kim_llm_client/generation_client.py on concrete turns.
use kim_llm_serving.Prelude.{ℕ, ◌≡◌, refl, false, some, List, [], ◌∷◌, arith}
use kim_llm_serving.Protocol.{TokenDelta, Terminal}
use kim_llm_serving.Client.Buffer.{EventBuffer, init, put_delta, put_terminal, get}
use kim_llm_serving.Client.Buffer.Stream.{run}
use kim_llm_serving.Client.Collect.{Turn, delta_arrives, terminal_arrives, reads, returned, collect}
use kim_llm_serving.Client.Collect.Whole.{operations, Says, collect_is_whole}
use kim_llm_serving.Client.Collect.Returns.{collect_returns}

abbrev tokens : ℕ → TokenDelta
tokens n = record { request_id = 5; sequence_no = n; token_ids = n ∷ 7 ∷ [] }

abbrev ended : Terminal
ended = record {
  request_id = 5;
  status = record { code = "ok"; message = "" };
  finish_reason = some "eos";
  usage = record { prompt_tokens = 1; completion_tokens = 4 };
}

abbrev timely : List Turn
timely =
    reads
    ∷ delta_arrives (tokens 0)
    ∷ reads
    ∷ delta_arrives (tokens 1)
    ∷ terminal_arrives ended
    ∷ reads
    ∷ reads
    ∷ []

collected : collect (init 2) [] timely ≡ returned (0 ∷ 7 ∷ 1 ∷ 7 ∷ []) ended
unfolding collect init put_delta put_terminal get
collected = refl

collect_is_whole_example :
    Says [] (run (init 2) (operations timely)).taken (collect (init 2) [] timely)
collect_is_whole_example = collect_is_whole 2 timely

abbrev waiting : EventBuffer
waiting = record {
  max_delta_events = 2;
  deltas = tokens 0 ∷ tokens 1 ∷ [];
  terminal = some ended;
  terminal_delivered = false;
  overflowed = false;
}

collect_returns_example :
    collect waiting [] (reads ∷ delta_arrives (tokens 2) ∷ reads ∷ reads ∷ [])
    ≡ returned (0 ∷ 7 ∷ 1 ∷ 7 ∷ []) ended
collect_returns_example =
    collect_returns waiting ended (reads ∷ delta_arrives (tokens 2) ∷ reads ∷ reads ∷ []) refl refl
      (omega arith) refl
