-- ===== src/Lib.antt =====
-- kim-llm-serving: a Gateway (Python) that serves chat completions over HTTP from a Worker (C++) over
-- a Unix socket. This library models the Python side.
--
-- The parts and how they interact:
--   * protocol (clients/python/kim_llm_client/protocol.py): the messages, read strictly from JSON, in
--     frames of a 4-byte length and a payload.
--   * GenerationClient (clients/python/kim_llm_client/generation_client.py): one connection shared by
--     many requests. Callers' threads submit, cancel and probe; a reader thread dispatches what the
--     Worker sends; `_fail` ends everything when the connection breaks. One lock guards the state.
--   * Gateway (gateway/python/kim_llm_gateway/runtime.py): GatewayService admits requests and submits
--     them to the client; a GatewaySession for each pumps the client's events into a bounded buffer of
--     text that the HTTP handler reads; GatewayMetrics counts.
--   * HTTP (gateway/python/kim_llm_gateway/api.py, openai.py, config.py, tokenizer.py): the handler reads
--     a bounded body, the parser checks it, the service submits it, and the answer is streamed or
--     collected from the session; the configuration and the tokenizer are checked at the start.
--
-- Files and code:
--   * Prelude: the shared names; Prelude/Tests (Boolean tests), Prelude/Lists, Prelude/Int (integers),
--     Prelude/Attempt (calls that may raise).
--   * Stream: what a consumer is promised, for both event buffers.
--   * Protocol: the dataclasses. Protocol/Json: what json.loads returns. Protocol/Result: exceptions as
--     values. Protocol/Require and Protocol/Parts: `_require_*` and `_*_from_json`. Protocol/Decode:
--     decode_server_message. Protocol/Frame: encode_frame, _receive_exact, _receive_frame.
--     Protocol/Validate: _validate_manifest, _validate_request. Protocol/Encode: the encode_* functions.
--   * Client/Buffer: _EventBuffer. Client/State: the client's fields; request objects stand on a heap,
--     because the dict, the waiting caller and the handle share them. Client/Dispatch: _dispatch.
--     Client/Requests: submit, cancel, health. Client/Fail: _fail and connect. Client/System: these as
--     steps of one state, taken in any order, each the code under one hold of the lock. The pop after a
--     failed send may come at any time, for any id; `lost` lists the accepted requests that it removes.
--     Client/Collect: GenerationHandle.collect, its reads among what arrives; its deadline is a turn.
--   * Gateway/Metrics, Gateway/Buffer, Gateway/Decoder, Gateway/Ids, Gateway/Error: GatewayMetrics,
--     _AsyncEventBuffer, _IncrementalDecoder, _RequestIdAllocator, gateway_error_from_status.
--     Gateway/Session: GatewaySession, and Gateway/Session/Run its tasks in any order, each step the
--     code between two awaits; Gateway/Session/Drain: _cancel_drain_and_abandon beside those tasks.
--     Gateway/Service: readiness and the dict of sessions; Gateway/Service/Submit: submit, by its parts
--     between awaits; Gateway/Service/Calls: calls of submit in flight with the sessions that they
--     start, and with start, stop and the checks of readiness.
--   * Gateway/Floats: Python's floats. Gateway/Openai and Gateway/Openai/Parse:
--     parse_chat_completion_request; Gateway/Openai/Responses: the response objects. Gateway/Http/Body:
--     _read_bounded_body; Gateway/Http/Stream: _stream_chat_completion as a generator that yields,
--     awaits and is closed; Gateway/Http/Framing its runs, and Gateway/Http/Serving its runs beside the
--     tasks of its session; Gateway/Http/Collect: _collect_non_streaming; Gateway/Http/Chat and
--     Gateway/Http/Readyz: chat_completions, readyz, models. Gateway/Tokenizer: HuggingFaceTokenizer, and
--     Gateway/Tokenizer/Fingerprint the two fingerprints. Gateway/Config, Gateway/Config/Load and
--     Gateway/Config/Runtime: GatewayConfig.load, and the configurations made of it with their checks.
--   * Examples: runs at concrete inputs.
--
-- Numbers are the natural numbers: the int fields of the protocol are checked to be at least 0 on the
-- way in (`priority` is an integer). No field wraps around in Python. Parameters of the model: UTF-8
-- decoding with json.loads, the tokenizer's encode and decode, the floats and their tests, repr, str(int),
-- json.dumps, whether a response can be rendered, SHA-256, pathlib and the files, the transformers
-- library, the web framework, what the Worker sends, the cuts that the socket makes in the stream, and
-- what a client's call answers.
-- A wait is an outcome `blocked`, or a state in which the step is not taken; timeouts of waits are not
-- modelled but for the deadline of `collect`, the polls of the HTTP handlers and the drain's wait for
-- the end of its session, which may all pass at any turn. `receive_loop` takes as fuel one more than
-- the number of bytes wanted, which is enough, because each round that goes on reads at least one byte;
-- no other function has fuel.
--
-- Not modelled: sockets and threads as such (connect up to the handshake's tests, _send_payload, the
-- reader's loop), json.dumps of the encoded messages, the rendering of metrics, the drains that stop
-- gathers; of api.py the routing, the lifespan and /metrics; __main__.py (it parses
-- arguments and starts the server); the benchmarks (measurement scripts); the Worker (C++).
pub mod Prelude
pub mod Stream
pub mod Protocol
pub mod Client
pub mod Gateway
pub mod Examples
