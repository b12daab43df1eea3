-- ===== src/Client/Fail.antt =====
-- `_fail` and the end of `connect` of clients/python/kim_llm_client/generation_client.py. `_fail` has
-- a critical section, and then ends the streams of the requests that it took out of the dict.
use kim_llm_serving.Prelude.{
  ℕ, Bool, true, false, ◌||◌, ◌&&◌, not, none, some, List, [], ◌∷◌, is_some, ltb, if◌then◌else◌,
}
use kim_llm_serving.Protocol.{Status, HelloAck, Terminal, manifest_eq, no_usage}
use kim_llm_serving.Client.State.{
  RequestState, Heap, Requests, Client, Outcome, returned, raised, protocol_error, write,
}
use kim_llm_serving.Client.Dispatch.{put_response}

-- for request in requests: request.failure = status
unfoldable pub mark_failed : Heap → Requests → Status → Heap
unfolding write
mark_failed h [] status = h
mark_failed h ((id, r) ∷ rs) status = elim (h r) [
  | none ↦ mark_failed h rs status
  | some st ↦ mark_failed (write h r (record st { failure = some status })) rs status
]

-- The critical section.
unfoldable pub fail_locked : Client → Status → Client
unfolding mark_failed
fail_locked c status = record c {
  socket = none;
  connected = false;
  hello_ack = none;
  heap = mark_failed c.heap c.requests status;
  requests = [];
  probes = [];
}

unfoldable pub failure_terminal : RequestState → Status → Terminal
failure_terminal st status = record {
  request_id = st.request_id;
  status = record { code = "unavailable"; message = status.message };
  finish_reason = none;
  usage = no_usage;
}

-- The Terminals that `_fail` puts, one by one, for the requests that it took out: their objects are
-- in no dict any more, so that the tests read what the critical section left.
unfoldable pub failure_terminals : Heap → Requests → Status → List (ℕ × Terminal)
unfolding failure_terminal
failure_terminals h [] status = []
failure_terminals h ((id, r) ∷ rs) status =
    let rest = failure_terminals h rs status in
    elim (h r) [
      | none ↦ rest
      | some st ↦
          if st.accepted && not st.terminal_received
          then (r, failure_terminal st status) ∷ rest
          else rest
    ]

-- for response in probes: response.put_nowait(None)
unfoldable pub release_probes : Client → List ℕ → Client
unfolding put_response
release_probes c [] = c
release_probes c (p ∷ ps) = release_probes (put_response c p none) ps

-- The test at the head of `connect`.
unfoldable pub may_connect : Client → Bool
may_connect c = not (c.connected || (is_some c.socket || c.reader_alive))

-- The tests on the Worker's answer to Hello.
unfoldable pub check_handshake : Client → HelloAck → Outcome HelloAck
check_handshake c ack =
    if not (manifest_eq ack.manifest c.config.expected_manifest)
    then raised (protocol_error "Worker ModelManifest does not match Gateway")
    else if ltb c.config.max_frame_payload_bytes ack.limits.max_frame_payload_bytes
    then raised (protocol_error "Worker frame limit exceeds GenerationClient capacity")
    else returned ack

-- The rest of `connect`: the socket and the HelloAck are set, and the reader is started.
unfoldable pub install : Client → ℕ → HelloAck → Client
install c connection ack = record c {
  socket = some connection;
  hello_ack = some ack;
  connected = true;
  reader_alive = true;
}
