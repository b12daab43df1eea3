-- ===== src/Gateway/Tokenizer/Normalized.antt =====
-- Which token ids `_normalize_token_ids` of gateway/python/kim_llm_gateway/tokenizer.py returns.
use kim_llm_serving.Prelude.{
  ℕ, ◌≡◌, ◌↔◌, String, false, Option, none, some, List, [], ◌∷◌, arith, is_empty,
}
use kim_llm_serving.Prelude.Int.{ℤ, pos, negsuc}
use kim_llm_serving.Gateway.Service.Submit.{token_ids}
use kim_llm_serving.Gateway.Tokenizer.{
  Value, listed, other, Produced, failed, plain, tensor, some_ids, natural_ids, normalize_produced,
  normalize_token_ids, encode_chat,
}

-- The list of these ints.
abbrev pub ints : List ℕ → List (Option ℤ)
ints [] = []
ints (n ∷ ids) = some (pos n) ∷ ints ids

natural_ids_iff :
    (entries : List (Option ℤ)) (ids : List ℕ)
    → (natural_ids entries ≡ some ids) ↔ (entries ≡ ints ids)
unfolding natural_ids
natural_ids_iff [] [] = ground arith
natural_ids_iff [] (n ∷ ids) = ground arith
natural_ids_iff (some (pos n) ∷ entries) [] = ground (arith, natural_ids_iff entries [])
natural_ids_iff (some (pos n) ∷ entries) (m ∷ ids) = ground (arith, natural_ids_iff entries ids)
natural_ids_iff (some (negsuc n) ∷ entries) [] = ground arith
natural_ids_iff (some (negsuc n) ∷ entries) (m ∷ ids) = ground arith
natural_ids_iff (none ∷ entries) [] = ground arith
natural_ids_iff (none ∷ entries) (m ∷ ids) = ground arith

some_ids_iff :
    (o : Option (List ℕ)) (description : String) (ids : List ℕ)
    → (some_ids o description ≡ token_ids ids) ↔ ((is_empty ids ≡ false) × (o ≡ some ids))
unfolding some_ids
some_ids_iff none description ids = ground arith
some_ids_iff (some []) description ids = ground arith
some_ids_iff (some (n ∷ found)) description ids = ground arith

-- The ids are returned exactly when the value is the list of them, none negative, and there is one.
pub normalize_token_ids_iff :
    (v : Value) (description : String) (ids : List ℕ)
    → (normalize_token_ids v description ≡ token_ids ids)
      ↔ ((is_empty ids ≡ false) × (v ≡ listed (ints ids)))
unfolding normalize_token_ids
normalize_token_ids_iff other description ids = ground arith
normalize_token_ids_iff (listed entries) description ids =
    ground (arith, some_ids_iff (natural_ids entries) description ids, natural_ids_iff entries ids)

produced_given :
    (failure description : String) (p : Produced) (ids : List ℕ)
    → normalize_produced failure description p ≡ token_ids ids
    → is_empty ids ≡ false
produced_given failure description (failed message) ids h = absurd (cc)
produced_given failure description (plain v) ids h =
    ((normalize_token_ids_iff v description ids).0 h).0
produced_given failure description (tensor v) ids h =
    ((normalize_token_ids_iff v description ids).0 h).0

pub encode_chat_given :
    {M : Type 0} (apply_chat_template : List M → Produced) (ms : List M) (ids : List ℕ)
    → encode_chat apply_chat_template ms ≡ token_ids ids
    → is_empty ids ≡ false
unfolding encode_chat
encode_chat_given apply_chat_template ms ids h =
    produced_given "failed to apply chat template: " "chat template" (apply_chat_template ms) ids h
