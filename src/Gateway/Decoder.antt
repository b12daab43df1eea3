-- ===== src/Gateway/Decoder.antt =====
-- `_IncrementalDecoder` of gateway/python/kim_llm_gateway/runtime.py. The tokenizer's `decode` is a
-- parameter: `none` where it raises TokenizerError. A text is the list of its characters.
pub mod Whole
use kim_llm_serving.Prelude.{
  ℕ, ◌≡◌, Bool, true, false, ◌&&◌, Option, none, some, List, [], ◌∷◌, ◌++◌, length, drop, ◌==◌,
  if◌then◌else◌,
}

abbrev pub Text : Type 0
Text = List ℕ

pub record Decoder : Type 0 where
  pub tokens : List ℕ
  pub decoded : Text

abbrev pub new_decoder : Decoder
new_decoder = record { tokens = []; decoded = [] }

-- text.startswith(prefix)
unfoldable pub starts_with : Text → Text → Bool
starts_with text [] = true
starts_with [] (p ∷ prefix) = false
starts_with (t ∷ text) (p ∷ prefix) = t == p && starts_with text prefix

pub data Appended : Type 0 where
  text : Text → Appended
  decode_failed changed_text : Appended

unfoldable pub emit : Decoder → Option Text → Decoder × Appended
emit d none = (d, decode_failed)
emit d (some all) =
    if starts_with all d.decoded
    then (record d { decoded = all }, text (drop (length d.decoded) all))
    else (d, changed_text)

-- The tokens are kept also where the method raises.
unfoldable pub append : (List ℕ → Option Text) → Decoder → List ℕ → Decoder × Appended
unfolding emit
append decode d token_ids =
    let tokens = d.tokens ++ token_ids in emit (record d { tokens = tokens }) (decode tokens)
