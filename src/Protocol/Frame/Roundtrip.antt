-- ===== src/Protocol/Frame/Roundtrip.antt =====
-- What `_receive_frame` reads of what `encode_frame` of the peer wrote, however the socket cuts the
-- bytes into pieces.
use mathlib.Core.Path.{subst}
use kim_llm_serving.Prelude.{
  ℕ, zero, suc, ◌+◌, ◌-◌, ◌≤◌, ◌<◌, ◌≡◌, refl, sym, ap, ◌∙◌, false, List, [], ◌∷◌, ◌++◌, arith, leb,
  length, take, drop, is_empty, Bool-cases, inl, inr, All, append_assoc, length-append, length-take,
  length-drop, take-append-drop, take-append_length, drop-append_length, ◌==◌, not,
}
use kim_llm_serving.Protocol.Result.{
  Result, ok, ◌>>◌, require, returned_first, length_not_positive, length_too_large,
}
use kim_llm_serving.Protocol.Require.{u32_max}
use kim_llm_serving.Protocol.Frame.{
  pack_u32, unpack_u32, encode_frame, Incoming, recv, receive_loop, receive_exact, receive_frame,
}

-- All bytes to come.
abbrev pub flat : Incoming → List ℕ
flat [] = []
flat (piece ∷ rest) = piece ++ flat rest

-- The peer has not closed the stream before the end of `incoming`.
abbrev pub IsOpen : Incoming → Type 0
IsOpen = All (λ piece. is_empty piece ≡ false)

pub unpack_u32-pack_u32 : (n : ℕ) → n ≤ u32_max → unpack_u32 (pack_u32 n) ≡ n
unfolding pack_u32 unpack_u32
unpack_u32-pack_u32 n h = omega arith

length-pack_u32 : (n : ℕ) → length (pack_u32 n) ≡ 4
unfolding pack_u32
length-pack_u32 n = refl

not_empty : (xs : List ℕ) → 0 < length xs → is_empty xs ≡ false
not_empty [] h = absurd (omega arith)
not_empty (x ∷ xs) h = refl

length_pos : (xs : List ℕ) → is_empty xs ≡ false → 0 < length xs
length_pos [] h = absurd (cc)
length_pos (x ∷ xs) h = omega arith

recv_at_most : (n : ℕ) (incoming : Incoming) → length (recv n incoming).0 ≤ n
unfolding recv
recv_at_most n [] = omega arith
recv_at_most n (piece ∷ rest) = ground (arith, length-take n piece)

-- One read with bytes to come.
record Reads (n : ℕ) (incoming : Incoming) (chunk : List ℕ) (later : Incoming) : Type 0 where
  split : chunk ++ flat later ≡ flat incoming
  some_bytes : 0 < length chunk
  at_most : length chunk ≤ n
  still_open : IsOpen later

recv-Reads :
    (n : ℕ) (incoming : Incoming)
    → 0 < n
    → 0 < length (flat incoming)
    → IsOpen incoming
    → Reads n incoming (recv n incoming).0 (recv n incoming).1
unfolding recv
recv-Reads n [] hn h o = absurd (omega arith)
recv-Reads n (piece ∷ rest) hn h o = elim (Bool-cases (leb (length piece) n)) [
  | inl e ↦ rw e (record {
    split = refl;
    some_bytes = length_pos piece o.0;
    at_most = ground arith;
    still_open = o.1;
  })
  | inr e ↦ rw e (record {
    split =
        sym (append_assoc (take n piece) (drop n piece) (flat rest))
        ∙ ap (λ xs. xs ++ flat rest) (take-append-drop n piece);
    some_bytes = ground (arith, length-take n piece);
    at_most = omega (arith, length-take n piece);
    still_open = (not_empty (drop n piece) (ground (arith, length-drop n piece)), o.1);
  })
]

-- The result of reading `size` bytes when `bytes` are to come.
pub record Received (size : ℕ) (bytes : List ℕ) (r : Result (List ℕ × Incoming)) : Type 0 where
  pub later : Incoming
  pub is_ok : r ≡ ok (take size bytes, later)
  pub rest : flat later ≡ drop size bytes
  pub still_open : IsOpen later

take_all : (size : ℕ) (xs ys : List ℕ) → size ≡ length xs → take size (xs ++ ys) ≡ xs
take_all size xs ys e = rw e (take-append_length xs ys)

drop_all : (size : ℕ) (xs ys : List ℕ) → size ≡ length xs → drop size (xs ++ ys) ≡ ys
drop_all size xs ys e = rw e (drop-append_length xs ys)

loop-Received :
    (fuel size : ℕ) (received : List ℕ) (incoming : Incoming)
    → size < fuel + length received
    → length received ≤ size
    → size ≤ length received + length (flat incoming)
    → IsOpen incoming
    → Received size (received ++ flat incoming) (receive_loop fuel size received incoming)
unfolding receive_loop
loop-Received zero size received incoming f h e o = absurd (omega arith)
loop-Received (suc fuel) size received incoming f h e o =
    elim (Bool-cases (leb size (length received))) [
      | inl done ↦
          let full : size ≡ length received = ground arith in
          rw done (record {
            later = incoming;
            is_ok = ap (λ xs. ok (xs, incoming)) (sym (take_all size received _ full));
            rest = sym (drop_all size received _ full);
            still_open = o;
          })
      | inr short ↦
          let n = size - length received in
          let chunk = (recv n incoming).0 in
          let later = (recv n incoming).1 in
          let r = recv-Reads n incoming (ground arith) (ground arith) o in
          rw (short, not_empty chunk r.some_bytes)
            (subst (λ bytes. Received size bytes (receive_loop fuel size (received ++ chunk) later))
              (append_assoc received chunk (flat later) ∙ ap (◌++◌ received) r.split)
              (loop-Received fuel size (received ++ chunk) later
                (omega (arith, length-append received chunk, r.some_bytes))
                (omega (arith, length-append received chunk, r.at_most))
                (omega (
                  arith,
                  length-append received chunk,
                  length-append chunk (flat later),
                  ap length r.split,
                ))
                r.still_open))
    ]

-- Reading exactly `size` bytes, when as many are to come.
pub exact-Received :
    (size : ℕ) (incoming : Incoming) (bytes : List ℕ)
    → flat incoming ≡ bytes
    → size ≤ length bytes
    → IsOpen incoming
    → Received size bytes (receive_exact size incoming)
unfolding receive_exact
exact-Received size incoming bytes e h o =
    subst (λ bs. Received size bs (receive_loop (suc size) size [] incoming)) e
      (loop-Received (suc size) size [] incoming (omega arith) (omega arith)
        (omega (arith, ap length e)) o)

record Encoded (payload : List ℕ) (limit : ℕ) (bytes : List ℕ) : Type 0 where
  layout : bytes ≡ pack_u32 (length payload) ++ payload
  some_bytes : 0 < length payload
  in_limit : length payload ≤ limit
  in_u32 : length payload ≤ u32_max

encode_frame-Encoded :
    (payload bytes : List ℕ) (limit : ℕ)
    → encode_frame payload limit ≡ ok bytes
    → Encoded payload limit bytes
unfolding encode_frame
encode_frame-Encoded [] bytes limit h = absurd (cc)
encode_frame-Encoded (x ∷ xs) bytes limit h = record {
  layout = ground arith;
  some_bytes = omega arith;
  in_limit = ground arith;
  in_u32 = ground arith;
}

receive_frame_of_prefix :
    (limit size : ℕ) (prefix : List ℕ) (incoming later : Incoming)
    → receive_exact 4 incoming ≡ ok (prefix, later)
    → unpack_u32 prefix ≡ size
    → 0 < size
    → size ≤ limit
    → receive_frame limit incoming ≡ receive_exact size later
unfolding receive_frame
receive_frame_of_prefix limit size prefix incoming later e u pos le = rw e (rw u (ground arith))

-- A frame that `encode_frame` made is read back whole by `_receive_frame` under the same or a larger
-- limit, however the stream is cut into pieces, and what follows it stays to be read.
pub frame_roundtrip :
    (payload bytes rest : List ℕ) (limit limit' : ℕ) (incoming : Incoming)
    → encode_frame payload limit ≡ ok bytes
    → limit ≤ limit'
    → flat incoming ≡ bytes ++ rest
    → IsOpen incoming
    → (later : Incoming) × (receive_frame limit' incoming ≡ ok (payload, later))
      × (flat later ≡ rest)
      × IsOpen later
frame_roundtrip payload bytes rest limit limit' incoming enc le split o =
    (second.later, is_frame, second.rest ∙ drop_all n payload rest refl, second.still_open)
  where
    n : ℕ
    n = length payload

    e : Encoded payload limit bytes
    e = encode_frame-Encoded payload bytes limit enc

    whole : flat incoming ≡ pack_u32 n ++ (payload ++ rest)
    whole = split ∙ ap (λ xs. xs ++ rest) e.layout ∙ append_assoc (pack_u32 n) payload rest

    size : length (pack_u32 n ++ (payload ++ rest)) ≡ 4 + (n + length rest)
    size = omega (
      arith,
      length-append (pack_u32 n) (payload ++ rest),
      length-pack_u32 n,
      length-append payload rest,
    )

    first : Received 4 (pack_u32 n ++ (payload ++ rest)) (receive_exact 4 incoming)
    first = exact-Received 4 incoming _ whole (omega (arith, size)) o

    tail : flat first.later ≡ payload ++ rest
    tail = first.rest ∙ drop_all 4 (pack_u32 n) (payload ++ rest) (sym (length-pack_u32 n))

    head : receive_exact 4 incoming ≡ ok (pack_u32 n, first.later)
    head =
        first.is_ok
        ∙ ap (λ xs. ok (xs, first.later))
            (take_all 4 (pack_u32 n) (payload ++ rest) (sym (length-pack_u32 n)))

    second : Received n (payload ++ rest) (receive_exact n first.later)
    second =
        exact-Received n first.later (payload ++ rest) tail
          (omega (arith, length-append payload rest)) first.still_open

    is_frame : receive_frame limit' incoming ≡ ok (payload, second.later)
    is_frame =
        receive_frame_of_prefix limit' n (pack_u32 n) incoming first.later head
          (unpack_u32-pack_u32 n e.in_u32) e.some_bytes (omega (arith, e.in_limit))
        ∙ second.is_ok
        ∙ ap (λ xs. ok (xs, second.later)) (take_all n payload rest refl)

loop_length :
    (fuel size : ℕ) (received bytes : List ℕ) (incoming later : Incoming)
    → length received ≤ size
    → receive_loop fuel size received incoming ≡ ok (bytes, later)
    → length bytes ≡ size
unfolding receive_loop
loop_length zero size received bytes incoming later h e = absurd (cc)
loop_length (suc fuel) size received bytes incoming later h e =
    let chunk = (recv (size - length received) incoming).0 in
    let rest = (recv (size - length received) incoming).1 in
    let at_most = recv_at_most (size - length received) incoming in
    ground (
      arith,
      length-append received chunk,
      at_most,
      loop_length fuel size (received ++ chunk) bytes rest later,
    )

exact_length :
    (size : ℕ) (bytes : List ℕ) (incoming later : Incoming)
    → receive_exact size incoming ≡ ok (bytes, later)
    → length bytes ≡ size
unfolding receive_exact
exact_length size bytes incoming later =
    loop_length (suc size) size [] bytes incoming later (omega arith)

-- The part of `_receive_frame` after the prefix.
sized_bounds :
    (limit size : ℕ) (incoming later : Incoming) (payload : List ℕ)
    → (do
      require (not (size == 0)) length_not_positive
      require (leb size limit) length_too_large
      receive_exact size incoming)
      ≡ ok (payload, later)
    → (0 < length payload) × (length payload ≤ limit)
sized_bounds limit size incoming later payload h =
    ground (arith, exact_length size payload incoming later)

-- Whatever the peer sends, a frame that `_receive_frame` returns is not empty and within the limit.
pub receive_frame_bounds :
    (limit : ℕ) (incoming later : Incoming) (payload : List ℕ)
    → receive_frame limit incoming ≡ ok (payload, later)
    → (0 < length payload) × (length payload ≤ limit)
unfolding receive_frame
receive_frame_bounds limit incoming later payload h =
    let ((prefix, rest), e, _) = returned_first (receive_exact 4 incoming) _ h in
    sized_bounds limit (unpack_u32 prefix) rest later payload e
