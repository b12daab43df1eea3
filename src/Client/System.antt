-- ===== src/Client/System.antt =====
-- The client of clients/python/kim_llm_client/generation_client.py as a whole: its critical sections
-- as the steps of one state, in any order, as the threads of the callers, of the reader and of the
-- consumers take them.
pub mod Ownership
pub mod Updates
pub mod Preserved
pub mod Failing
pub mod Registering
pub mod Delivering
pub mod Steps
pub mod Terminals
use kim_llm_serving.Prelude.{
  ℕ, ◌≡◌, Bool, true, false, Option, none, some, List, [], ◌∷◌, ◌++◌, if◌then◌else◌,
}
use kim_llm_serving.Protocol.{Status, HelloAck, Terminal, GenerationRequest, ServerMessage}
use kim_llm_serving.Client.Buffer.{get}
use kim_llm_serving.Client.State.{
  RequestState, Client, Outcome, returned, raised, write, state_of, ClientConfig, new_client,
}
use kim_llm_serving.Client.Dispatch.{Actions, dispatch, deliver}
use kim_llm_serving.Client.Requests.{register, unregister, cancel, start_probe, end_probe}
use kim_llm_serving.Client.Fail.{
  fail_locked, failure_terminals, release_probes, may_connect, check_handshake, install,
}

-- `pending` are the Terminals that a thread has taken over from a critical section and will put into
-- a request's buffer outside the lock: the reader at most one, a failing thread a list.
pub record System : Type 0 where
  pub client : Client
  pub pending : List (ℕ × Terminal)

unfoldable pub new_system : ClientConfig → System
new_system config = record { client = new_client config; pending = [] }

to_deliver : Option (ℕ × Terminal) → List (ℕ × Terminal)
to_deliver none = []
to_deliver (some p) = p ∷ []

-- Where `_dispatch` raises, the reader goes on to `_fail`, which is a step of its own.
unfoldable pub after_dispatch : System → Outcome Actions × Client → System
unfolding to_deliver
after_dispatch s (raised e, c) = record s { client = c }
after_dispatch s (returned a, c) = record {
  client = c;
  pending = s.pending ++ to_deliver a.terminal_to_deliver;
}

unfoldable pub fail : System → Status → System
fail s status =
    let c = fail_locked s.client status in
    record { client = c; pending = s.pending ++ failure_terminals c.heap s.client.requests status }

-- `next_event` of the consumer that holds the handle of a request's object.
unfoldable pub consume : Client → ℕ → Client
unfolding write
consume c r = elim (c.heap r) [
  | none ↦ c
  | some st ↦ record c { heap = write c.heap r (record st { events = (get st.events).0 }) }
]

-- The object that `submit` takes out of the dict after its send has failed, if the Worker has accepted
-- it: the id may by then be that of a later request.
unfoldable pub dropped : Client → ℕ → List ℕ
dropped c id = elim (state_of c id) [
  | none ↦ []
  | some (r, st) ↦ if st.accepted then r ∷ [] else []
]

pub data Step (F : Type 0) (s : System) : System → Type 0 where
  registers : (q : GenerationRequest F) → Step F s (record s { client = (register s.client q).1 })
  unregisters : (id : ℕ) → Step F s (record s { client = unregister s.client id })
  dispatches : (m : ServerMessage) → Step F s (after_dispatch s (dispatch s.client m))
  delivers :
      (before later : List (ℕ × Terminal)) (r : ℕ) (t : Terminal)
      → s.pending ≡ before ++ (r, t) ∷ later
      → Step F s (record { client = (deliver s.client r t).1; pending = before ++ later })
  fails : (status : Status) → Step F s (fail s status)
  cancels : (id : ℕ) → Step F s (record s { client = (cancel s.client id).1 })
  starts_probe : Step F s (record s { client = (start_probe s.client).1 })
  ends_probe : (p : ℕ) → Step F s (record s { client = end_probe s.client p })
  releases_probes : (ps : List ℕ) → Step F s (record s { client = release_probes s.client ps })
  connects :
      (connection : ℕ) (ack : HelloAck)
      → may_connect s.client ≡ true
      → check_handshake s.client ack ≡ returned ack
      → Step F s (record s { client = install s.client connection ack })
  reader_exits :
      s.client.connected ≡ false
      → Step F s (record s { client = record s.client { reader_alive = false } })
  consumes : (r : ℕ) → Step F s (record s { client = consume s.client r })

pub data Reach (F : Type 0) (s : System) : System → Type 0 where
  here : Reach F s s
  next : {t u : System} → Reach F s t → Step F t u → Reach F s u

-- The accepted objects that were taken out of the dict on the way, before their Terminal.
unfoldable pub lose : {F : Type 0} {s t : System} → List ℕ → Step F s t → List ℕ
lose {s = s} lost (unregisters id) = dropped s.client id ++ lost
lose lost (registers q) = lost
lose lost (dispatches m) = lost
lose lost (delivers before later r t e) = lost
lose lost (fails status) = lost
lose lost (cancels id) = lost
lose lost starts_probe = lost
lose lost (ends_probe p) = lost
lose lost (releases_probes ps) = lost
lose lost (connects connection ack may checked) = lost
lose lost (reader_exits e) = lost
lose lost (consumes r) = lost

unfoldable pub lost : {F : Type 0} {s t : System} → Reach F s t → List ℕ
unfolding lose
lost here = []
lost (next run step) = lose (lost run) step
