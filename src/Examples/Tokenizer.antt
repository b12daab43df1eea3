-- ===== src/Examples/Tokenizer.antt =====
-- The tokenizer's adapter at concrete inputs.
use Prim.Native.Char.{code}
use Prim.Native.String.{[] as empty, ◌∷◌ as ◌∷ₛ◌}
use text.Mathlib.TextEquality.{Char-path}
use kim_llm_serving.Prelude.{
  ℕ, ◌≡◌, ◌↔◌, refl, ap, ◌∙◌, String, false, none, some, List, [], ◌∷◌, ◌++◌, str_eq, is_empty,
  if◌then◌else◌,
}
use kim_llm_serving.Prelude.Int.{pos}
use kim_llm_serving.Prelude.Attempt.{gives}
use kim_llm_serving.Protocol.Frame.{pack_u32}
use kim_llm_serving.Protocol.Json.{contains}
use kim_llm_serving.Gateway.Service.Submit.{token_ids}
use kim_llm_serving.Gateway.Tokenizer.{
  HuggingFaceTokenizer, listed, normalize_token_ids, validate_manifest, matches_manifest_iff,
}
use kim_llm_serving.Gateway.Tokenizer.Normalized.{ints, normalize_token_ids_iff}
use kim_llm_serving.Gateway.Tokenizer.Fingerprint.{
  Directory, digested, assets_of, has_main, all_bytes, asset_bytes, pack_u64,
}
use kim_llm_serving.Gateway.Tokenizer.Fingerprint.Injective.{digested_files_are_same}
use kim_llm_serving.Examples.Service.{manifest}

-- A text's characters, as their numbers.
codes : String → List ℕ
codes empty = []
codes (c ∷ₛ s) = code c ∷ codes s

codes-injective : (x y : String) → codes x ≡ codes y → x ≡ y
unfolding codes
codes-injective empty empty e = refl
codes-injective empty (d ∷ₛ t) e = absurd (cc)
codes-injective (c ∷ₛ s) empty e = absurd (cc)
codes-injective (c ∷ₛ s) (d ∷ₛ t) e =
    let heads : code c ≡ code d = cc in
    let tails : codes s ≡ codes t = cc in
    ap (λ x. x ∷ₛ s) (Char-path c d heads) ∙ ap (λ x. d ∷ₛ x) (codes-injective s t tails)

abbrev directory : Directory
directory name = if str_eq name "spiece.model" then some (1 ∷ 2 ∷ []) else none

-- It has a file that no tokenizer reads besides.
abbrev other_directory : Directory
other_directory name = if str_eq name "README" then some (7 ∷ []) else directory name

digested_files_are_same_example : directory "spiece.model" ≡ other_directory "spiece.model"
unfolding digested assets_of has_main all_bytes asset_bytes pack_u64 pack_u32 contains codes
digested_files_are_same_example =
    digested_files_are_same codes "a" "b" directory other_directory
      (pack_u32 12 ++ (codes "spiece.model" ++ (pack_u64 2 ++ (1 ∷ 2 ∷ [])))) "spiece.model"
      codes-injective refl refl refl

normalize_token_ids_iff_example :
    (normalize_token_ids (listed (some (pos 3) ∷ [])) "text" ≡ token_ids (3 ∷ []))
    ↔ ((is_empty {A = ℕ} (3 ∷ []) ≡ false) × (listed (some (pos 3) ∷ []) ≡ listed (ints (3 ∷ []))))
normalize_token_ids_iff_example =
    normalize_token_ids_iff (listed (some (pos 3) ∷ [])) "text" (3 ∷ [])

abbrev tokenizer : HuggingFaceTokenizer
tokenizer = record {
  eos_token_id = 2;
  pad_token_id = 3;
  tokenizer_fingerprint = "t";
  chat_template_fingerprint = "c";
}

matches_manifest_iff_example :
    (validate_manifest (λ s. s) (λ n. "0") tokenizer manifest ≡ gives tt) ↔ (
      (tokenizer.tokenizer_fingerprint ≡ manifest.tokenizer_fingerprint)
      × (tokenizer.chat_template_fingerprint ≡ manifest.chat_template_fingerprint)
      × (tokenizer.eos_token_id ≡ manifest.eos_token_id)
      × (tokenizer.pad_token_id ≡ manifest.pad_token_id))
matches_manifest_iff_example = matches_manifest_iff (λ s. s) (λ n. "0") tokenizer manifest
