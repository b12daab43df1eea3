-- ===== src/Examples/Protocol.antt =====
-- Frames and messages of clients/python/kim_llm_client/protocol.py at concrete bytes.
use kim_llm_serving.Prelude.{ℕ, ◌≤◌, ◌<◌, ◌≡◌, refl, some, List, [], ◌∷◌, length, arith}
use kim_llm_serving.Prelude.Int.{pos}
use kim_llm_serving.Protocol.Json.{Json, obj, field, end, str, int}
use kim_llm_serving.Protocol.Result.{ok, err, value_error, Post}
use kim_llm_serving.Protocol.Frame.{
  encode_frame, unpack_u32, recv, Incoming, receive_loop, receive_exact, receive_frame,
}
use kim_llm_serving.Protocol.Frame.Roundtrip.{flat, IsOpen, frame_roundtrip, receive_frame_bounds}
use kim_llm_serving.Protocol.Decode.{value, too_many_digits, decode_server_message}
use kim_llm_serving.Protocol.Decode.Sound.{IsMessage, decode_sound}

abbrev pieces : Incoming
pieces = (0 ∷ 0 ∷ []) ∷ (0 ∷ 2 ∷ 7 ∷ []) ∷ (9 ∷ 5 ∷ []) ∷ []

frame_roundtrip_example :
    (later : Incoming) × (receive_frame 16 pieces ≡ ok (7 ∷ 9 ∷ [], later))
    × (flat later ≡ 5 ∷ [])
    × IsOpen later
unfolding encode_frame
frame_roundtrip_example =
    frame_roundtrip (7 ∷ 9 ∷ []) (0 ∷ 0 ∷ 0 ∷ 2 ∷ 7 ∷ 9 ∷ []) (5 ∷ []) 8 16 pieces refl
      (omega arith) refl (refl, (refl, (refl, tt)))

abbrev two_bytes : List ℕ
two_bytes = 7 ∷ 9 ∷ []

receive_frame_bounds_example : (0 < length two_bytes) × (length two_bytes ≤ 8)
unfolding receive_frame receive_exact unpack_u32 receive_loop recv
receive_frame_bounds_example = receive_frame_bounds 8 pieces ((5 ∷ []) ∷ []) two_bytes refl

abbrev accepted_json : Json ℕ
accepted_json = obj (
    field "type" (str "accepted") (
      field "protocol_version" (int (pos 1))
        (field "worker_epoch" (int (pos 7)) (field "request_id" (int (pos 5)) end))))

decode_sound_example :
    Post (IsMessage (some 7)) (decode_server_message (λ _. value accepted_json) [] (some 7))
decode_sound_example = decode_sound (λ _. value accepted_json) [] (some 7)

-- An int with too many digits leaves `_dispatch`'s caller a ValueError.
value_error_escapes :
    decode_server_message {F = ℕ} (λ _. too_many_digits) [] (some 7) ≡ err value_error
unfolding decode_server_message
value_error_escapes = refl
