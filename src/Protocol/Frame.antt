-- ===== src/Protocol/Frame.antt =====
-- Frames on the socket: `encode_frame` of clients/python/kim_llm_client/protocol.py, and
-- `_receive_exact` and `_receive_frame` of clients/python/kim_llm_client/generation_client.py.
-- A byte is a number below 256.
pub mod Roundtrip
use kim_llm_serving.Prelude.{
  ℕ, zero, suc, ◌+◌, ◌-◌, ◌*◌, ◌/◌, ◌%◌, ◌^◌, ◌≡◌, refl, Bool, ◌&&◌, not, List, [], ◌∷◌, ◌++◌, leb,
  ltb, length, take, drop, is_empty, if◌then◌else◌, ◌==◌,
}
use kim_llm_serving.Protocol.Result.{
  Result, ok, err, ◌>>=◌, ◌>>◌, require, empty_payload, payload_too_large, length_not_positive,
  length_too_large, disconnected,
}
use kim_llm_serving.Protocol.Require.{u32_max}

-- struct.pack("!I", n): four bytes, the most significant first.
unfoldable pub pack_u32 : ℕ → List ℕ
pack_u32 n = (n / 2 ^ 24 % 256) ∷ (n / 2 ^ 16 % 256) ∷ (n / 2 ^ 8 % 256) ∷ (n % 256) ∷ []

-- struct.unpack("!I", prefix)[0], of four bytes.
unfoldable pub unpack_u32 : List ℕ → ℕ
unpack_u32 (a ∷ b ∷ c ∷ d ∷ []) = a * 2 ^ 24 + b * 2 ^ 16 + c * 2 ^ 8 + d
unpack_u32 _ = 0

unfoldable pub encode_frame : List ℕ → ℕ → Result (List ℕ)
unfolding pack_u32
encode_frame payload max_payload_bytes = do
  require (not (is_empty payload)) empty_payload
  require (leb (length payload) max_payload_bytes && leb (length payload) u32_max) payload_too_large
  ok (pack_u32 (length payload) ++ payload)

-- What the peer has sent and this side has not read, as the pieces that `recv` will see. An empty
-- piece, or the end of the list, is the end of the stream.
abbrev pub Incoming : Type 0
Incoming = List (List ℕ)

-- `connection.recv(size)`: at most `size` bytes, of the first piece.
unfoldable pub recv : ℕ → Incoming → List ℕ × Incoming
recv size [] = ([], [])
recv size (piece ∷ rest) =
    if leb (length piece) size then (piece, rest) else (take size piece, drop size piece ∷ rest)

-- The rounds of the loop: each reads at least one byte, so `size` rounds and the last test do.
unfoldable pub receive_loop : ℕ → ℕ → List ℕ → Incoming → Result (List ℕ × Incoming)
receive_loop zero size received incoming = err disconnected
receive_loop (suc fuel) size received incoming =
    let (chunk, later) = recv (size - length received) incoming in
    let more = receive_loop fuel size (received ++ chunk) later in
    if leb size (length received)
    then ok (received, incoming)
    else if is_empty chunk
    then err disconnected
    else more

unfoldable pub receive_exact : ℕ → Incoming → Result (List ℕ × Incoming)
unfolding receive_loop recv
receive_exact size incoming = receive_loop (suc size) size [] incoming

unfoldable pub receive_frame : ℕ → Incoming → Result (List ℕ × Incoming)
receive_frame max_payload_bytes incoming = do
  (prefix, later) ← receive_exact 4 incoming
  let payload_size = unpack_u32 prefix
  require (not (payload_size == 0)) length_not_positive
  require (leb payload_size max_payload_bytes) length_too_large
  receive_exact payload_size later

abbrev sample : Result (List ℕ × Incoming)
sample = receive_frame 8 ((0 ∷ 0 ∷ []) ∷ (0 ∷ 2 ∷ 7 ∷ []) ∷ (9 ∷ 5 ∷ []) ∷ [])

sample_read : sample ≡ ok (7 ∷ 9 ∷ [], (5 ∷ []) ∷ [])
unfolding receive_frame receive_exact unpack_u32
sample_read = refl
