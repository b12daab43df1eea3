-- ===== src/Gateway/Http/Body.antt =====
-- `_read_bounded_body` of gateway/python/kim_llm_gateway/api.py. A chunk is its bytes; the chunks are
-- those that the framework's `request.stream()` gives.
use kim_llm_serving.Prelude.{
  ℕ, ◌+◌, ◌≤◌, ◌≡◌, ap, sym, ◌∙◌, List, [], ◌∷◌, ◌++◌, arith, ltb, length, is_empty, if◌then◌else◌,
  append_assoc, append-nil, length-append, if_cases,
}
use kim_llm_serving.Prelude.Attempt.{Attempt, raises, gives}
use kim_llm_serving.Gateway.Error.{GatewayError}
use kim_llm_serving.Gateway.Http.{client_error}

abbrev pub too_large : GatewayError
too_large = client_error 413 "request_too_large" "request body exceeds the configured limit"

abbrev pub empty_body : GatewayError
empty_body = client_error 400 "invalid_json" "request body must not be empty"

unfoldable pub end_body : List ℕ → Attempt GatewayError (List ℕ)
end_body [] = raises empty_body
end_body (b ∷ bs) = gives (b ∷ bs)

-- The loop, with `body` so far.
unfoldable pub read_chunks : ℕ → List ℕ → List (List ℕ) → Attempt GatewayError (List ℕ)
unfolding end_body
read_chunks max_bytes body [] = end_body body
read_chunks max_bytes body (chunk ∷ chunks) =
    let rest = read_chunks max_bytes (body ++ chunk) chunks in
    if ltb max_bytes (length body + length chunk) then raises too_large else rest

unfoldable pub read_bounded_body : ℕ → List (List ℕ) → Attempt GatewayError (List ℕ)
unfolding read_chunks
read_bounded_body max_bytes chunks = read_chunks max_bytes [] chunks

abbrev pub joined_bytes : List (List ℕ) → List ℕ
joined_bytes [] = []
joined_bytes (c ∷ cs) = c ++ joined_bytes cs

-- What the body's reader promises of the whole body.
abbrev pub bounded : ℕ → List ℕ → Attempt GatewayError (List ℕ)
bounded max_bytes body =
    if ltb max_bytes (length body)
    then raises too_large
    else if is_empty body
    then raises empty_body
    else gives body

end_body-bounded :
    (max_bytes : ℕ) (body : List ℕ)
    → length body ≤ max_bytes
    → end_body body ≡ bounded max_bytes body
unfolding end_body
end_body-bounded max_bytes [] h = ground arith
end_body-bounded max_bytes (b ∷ bs) h = ground arith

read_chunks-bounded :
    (max_bytes : ℕ) (body : List ℕ) (chunks : List (List ℕ))
    → length body ≤ max_bytes
    → read_chunks max_bytes body chunks ≡ bounded max_bytes (body ++ joined_bytes chunks)
unfolding read_chunks
read_chunks-bounded max_bytes body [] h =
    end_body-bounded max_bytes body h ∙ ap (bounded max_bytes) (sym (append-nil body))
read_chunks-bounded max_bytes body (chunk ∷ chunks) h =
    if_cases (λ r. r ≡ bounded max_bytes (body ++ (chunk ++ joined_bytes chunks)))
      (ltb max_bytes (length body + length chunk))
      (λ over. ground (
        arith,
        length-append body (chunk ++ joined_bytes chunks),
        length-append chunk (joined_bytes chunks),
      ))
      (λ fits.
        read_chunks-bounded max_bytes (body ++ chunk) chunks
          (ground (arith, length-append body chunk))
        ∙ ap (bounded max_bytes) (append_assoc body chunk (joined_bytes chunks)))

-- However the body is cut into chunks, the reader gives the whole body when it has at least one byte
-- and at most `max_bytes`; it raises the 413 error exactly when the whole body is longer than that,
-- and otherwise the 400 error when it is empty.
pub body_is_bounded :
    (max_bytes : ℕ) (chunks : List (List ℕ))
    → read_bounded_body max_bytes chunks ≡ bounded max_bytes (joined_bytes chunks)
unfolding read_bounded_body
body_is_bounded max_bytes chunks = read_chunks-bounded max_bytes [] chunks (omega arith)
