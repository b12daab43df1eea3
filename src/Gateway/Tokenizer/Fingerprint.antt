-- ===== src/Gateway/Tokenizer/Fingerprint.antt =====
-- `fingerprint_tokenizer_assets` and `fingerprint_chat_template` of
-- gateway/python/kim_llm_gateway/tokenizer.py. `sha256` is the hexadecimal digest of bytes, `utf8` a
-- text's encoding; a directory gives the bytes of the file of each name.
pub mod Injective
use kim_llm_serving.Prelude.{
  ℕ, ◌+◌, ◌/◌, ◌%◌, ◌^◌, String, Bool, true, false, not, ◌||◌, Option, none, some, List, [], ◌∷◌,
  ◌++◌, length, ltb, str_eq, str_append,
}
use kim_llm_serving.Prelude.Attempt.{Attempt, raises, gives, ◌>>=◌, ◌>>◌, unless_raise}
use kim_llm_serving.Protocol.Json.{contains}
use kim_llm_serving.Protocol.Frame.{pack_u32}
use kim_llm_serving.Protocol.Require.{u32_max, u64_max}

abbrev pub asset_names : List String
asset_names =
    "tokenizer.json" ∷ "tokenizer.model" ∷ "spiece.model" ∷ "tokenizer_config.json"
    ∷ "special_tokens_map.json" ∷ "added_tokens.json" ∷ []

abbrev pub main_names : List String
main_names = "tokenizer.json" ∷ "tokenizer.model" ∷ "spiece.model" ∷ []

-- root / name, where it is a file.
abbrev pub Directory : Type 0
Directory = String → Option (List ℕ)

pub record Asset : Type 0 where
  pub name : String
  pub content : List ℕ

unfoldable pub assets_of : List String → Directory → List Asset
assets_of [] read = []
assets_of (n ∷ names) read = elim (read n) [
  | none ↦ assets_of names read
  | some content ↦ record { name = n; content = content } ∷ assets_of names read
]

-- any(path.name in main_names for path in assets)
unfoldable pub has_main : List Asset → Bool
has_main [] = false
has_main (a ∷ assets) = contains main_names a.name || has_main assets

pub data FingerprintFailure : Type 0 where
  tokenizer_failure : String → FingerprintFailure
  size_overflow : FingerprintFailure

-- n.to_bytes(8, "big"), of a number below 2 ** 64.
unfoldable pub pack_u64 : ℕ → List ℕ
unfolding pack_u32
pack_u64 n = pack_u32 (n / 2 ^ 32) ++ pack_u32 (n % 2 ^ 32)

-- len(name).to_bytes(4, "big") and st_size.to_bytes(8, "big") raise OverflowError of what they
-- cannot hold.
module _ (utf8 : String → List ℕ) where
  unfoldable pub asset_bytes : Asset → Attempt FingerprintFailure (List ℕ)
  unfolding pack_u64
  asset_bytes a = do
    unless_raise (not (ltb u32_max (length (utf8 a.name)))) size_overflow
    unless_raise (not (ltb u64_max (length a.content))) size_overflow
    gives (
        pack_u32 (length (utf8 a.name))
        ++ (utf8 a.name ++ (pack_u64 (length a.content) ++ a.content)))

  unfoldable pub all_bytes : List Asset → Attempt FingerprintFailure (List ℕ)
  unfolding asset_bytes
  all_bytes [] = gives []
  all_bytes (a ∷ assets) = do bytes ← asset_bytes a; rest ← all_bytes assets; gives (bytes ++ rest)

  -- The bytes that the digest is of, less the version.
  unfoldable pub digested :
      (root : String) → (is_dir : Bool) → Directory → Attempt FingerprintFailure (List ℕ)
  unfolding all_bytes assets_of has_main
  digested root is_dir read = do
    unless_raise is_dir (tokenizer_failure (str_append "Tokenizer directory does not exist: " root))
    let assets = assets_of asset_names read
    unless_raise (has_main assets) (
        tokenizer_failure
          "Tokenizer directory has no tokenizer.json, tokenizer.model, or spiece.model")
    all_bytes assets

  unfoldable pub fingerprint_tokenizer_assets :
      (List ℕ → String)
      → (root : String) → (is_dir : Bool) → Directory
      → Attempt FingerprintFailure String
  unfolding digested
  fingerprint_tokenizer_assets sha256 root is_dir read = do
    bytes ← digested root is_dir read
    gives (str_append "sha256:" (sha256 (utf8 "kim-llm-tokenizer-fingerprint-v1\0" ++ bytes)))

  unfoldable pub fingerprint_chat_template : (List ℕ → String) → String → Attempt String String
  fingerprint_chat_template sha256 chat_template = do
    unless_raise (not (str_eq chat_template "")) "Tokenizer does not define a chat template"
    gives (str_append "sha256:" (sha256 (utf8 "kim-llm-chat-template-v1\0" ++ utf8 chat_template)))
