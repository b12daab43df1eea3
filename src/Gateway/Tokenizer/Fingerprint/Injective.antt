-- ===== src/Gateway/Tokenizer/Fingerprint/Injective.antt =====
-- That the bytes of a tokenizer's fingerprint (gateway/python/kim_llm_gateway/tokenizer.py) tell its
-- files apart.
use mathlib.Core.Path.{subst}
use kim_llm_serving.Prelude.{
  if◌then◌else◌, ℕ, ◌/◌, ◌%◌, ◌^◌, ◌≤◌, ◌≡◌, refl, sym, ap, ◌∙◌, String, Bool, true, not, Option,
  none, some, List, [], ◌∷◌, ◌++◌, arith, length, ltb, str_eq, eq_iff, append_assoc, Option-cases,
  inl, inr,
}
use kim_llm_serving.Prelude.Attempt.{gives, Ends, given, Ends-then, Ends-unless, Ends-gives}
use kim_llm_serving.Protocol.Json.{contains}
use kim_llm_serving.Protocol.Frame.{pack_u32, unpack_u32}
use kim_llm_serving.Protocol.Frame.Roundtrip.{unpack_u32-pack_u32}
use kim_llm_serving.Protocol.Require.{u32_max, u64_max}
use kim_llm_serving.Gateway.Tokenizer.Fingerprint.{
  has_main, asset_names, Directory, Asset, assets_of, pack_u64, asset_bytes, all_bytes, digested,
}

-- Two lists of one length split what they begin.
append-split :
    (xs ys us vs : List ℕ) → length xs ≡ length ys → xs ++ us ≡ ys ++ vs → (xs ≡ ys) × (us ≡ vs)
append-split [] [] us vs l e = (refl, e)
append-split [] (y ∷ ys) us vs l e = absurd (omega (arith, l))
append-split (x ∷ xs) [] us vs l e = absurd (omega (arith, l))
append-split (x ∷ xs) (y ∷ ys) us vs l e =
    let (same, rest) = append-split xs ys us vs (omega (arith, l)) (cc) in
    (ground (arith, same, e), rest)

pack_u64-injective : (a b : ℕ) → a ≤ u64_max → b ≤ u64_max → pack_u64 a ≡ pack_u64 b → a ≡ b
unfolding pack_u64
pack_u64-injective a b ha hb e =
    let (high, low) = append-split (pack_u32 (a / 2 ^ 32)) (pack_u32 (b / 2 ^ 32)) _ _ refl e in
    let h =
      sym (unpack_u32-pack_u32 (a / 2 ^ 32) (omega (arith, ha)))
      ∙ ap unpack_u32 high
      ∙ unpack_u32-pack_u32 (b / 2 ^ 32) (omega (arith, hb)) in
    let l =
      sym (unpack_u32-pack_u32 (a % 2 ^ 32) (omega arith))
      ∙ ap unpack_u32 low
      ∙ unpack_u32-pack_u32 (b % 2 ^ 32) (omega arith) in
    omega (arith, h, l)

pack_u32-injective : (a b : ℕ) → a ≤ u32_max → b ≤ u32_max → pack_u32 a ≡ pack_u32 b → a ≡ b
pack_u32-injective a b ha hb e =
    sym (unpack_u32-pack_u32 a ha) ∙ ap unpack_u32 e ∙ unpack_u32-pack_u32 b hb

module _ (utf8 : String → List ℕ) where
  abbrev Fits : Asset → Type 0
  Fits a = (length (utf8 a.name) ≤ u32_max) × (length a.content ≤ u64_max)

  -- One asset's bytes, and then `rest`.
  abbrev layout : Asset → List ℕ → List ℕ
  layout a rest =
      pack_u32 (length (utf8 a.name))
      ++ (utf8 a.name ++ (pack_u64 (length a.content) ++ (a.content ++ rest)))

  abbrev AreBytes : List Asset → List ℕ → Type 0
  AreBytes [] xs = xs ≡ []
  AreBytes (a ∷ assets) xs =
      Fits a × ((rest : List ℕ) × (xs ≡ layout a rest) × AreBytes assets rest)

  layout-append :
      (a : Asset) (rest : List ℕ)
      → (pack_u32 (length (utf8 a.name))
            ++ (utf8 a.name ++ (pack_u64 (length a.content) ++ a.content)))
          ++ rest
        ≡ layout a rest
  layout-append a rest = ground (
    arith,
    append_assoc (pack_u32 (length (utf8 a.name)))
        (utf8 a.name ++ (pack_u64 (length a.content) ++ a.content)) rest,
    append_assoc (utf8 a.name) (pack_u64 (length a.content) ++ a.content) rest,
    append_assoc (pack_u64 (length a.content)) a.content rest,
  )

  asset_bytes-Ends :
      (a : Asset)
      → Ends
          (λ _. Unit)
          (λ bytes. Fits a × ((rest : List ℕ) → bytes ++ rest ≡ layout a rest))
          (asset_bytes utf8 a)
  unfolding asset_bytes
  asset_bytes-Ends a =
      Ends-then (Ends-unless (not (ltb u32_max (length (utf8 a.name)))) _ tt) λ _ short.
        Ends-then (Ends-unless (not (ltb u64_max (length a.content))) _ tt)
          λ _ small. given ((ground (arith, short), ground (arith, small)), layout-append a)

  all_bytes-Ends :
      (assets : List Asset) → Ends (λ _. Unit) (AreBytes assets) (all_bytes utf8 assets)
  unfolding all_bytes
  all_bytes-Ends [] = given refl
  all_bytes-Ends (a ∷ assets) = Ends-then (asset_bytes-Ends a) λ bytes h.
      Ends-then (all_bytes-Ends assets)
        λ rest hs. given {v = bytes ++ rest} (h.0, (rest, h.1 rest, hs))

  layout-split :
      (a b : Asset) (r s : List ℕ)
      → ((x y : String) → utf8 x ≡ utf8 y → x ≡ y)
      → Fits a
      → Fits b
      → layout a r ≡ layout b s
      → (a ≡ b) × (r ≡ s)
  unfolding pack_u64
  layout-split a b r s injective fa fb e =
      let (sizes, e1) =
        append-split (pack_u32 (length (utf8 a.name))) (pack_u32 (length (utf8 b.name))) _ _ refl
          e in
      let (names, e2) =
        append-split (utf8 a.name) (utf8 b.name) _ _ (pack_u32-injective _ _ fa.0 fb.0 sizes) e1 in
      let (lengths, e3) =
        append-split (pack_u64 (length a.content)) (pack_u64 (length b.content)) _ _ refl e2 in
      let (contents, rests) =
        append-split a.content b.content r s (pack_u64-injective _ _ fa.1 fb.1 lengths) e3 in
      (ground (arith, injective a.name b.name names, contents), rests)

  layout_nonempty : (a : Asset) (rest : List ℕ) → layout a rest ≡ [] → ⊥
  unfolding pack_u32
  layout_nonempty a rest e = cc

  AreBytes-injective :
      (some_assets others : List Asset) (xs : List ℕ)
      → ((x y : String) → utf8 x ≡ utf8 y → x ≡ y)
      → AreBytes some_assets xs
      → AreBytes others xs
      → some_assets ≡ others
  AreBytes-injective [] [] xs injective h k = refl
  AreBytes-injective [] (b ∷ bs) xs injective h (fb, (s, eb, hb)) =
      absurd (layout_nonempty b s (sym eb ∙ h))
  AreBytes-injective (a ∷ assets) [] xs injective (fa, (r, ea, ha)) k =
      absurd (layout_nonempty a r (sym ea ∙ k))
  AreBytes-injective (a ∷ assets) (b ∷ bs) xs injective (fa, (r, ea, ha)) (fb, (s, eb, hb)) =
      let (same, rests) = layout-split a b r s injective fa fb (sym ea ∙ eb) in
      let rest = AreBytes-injective assets bs r injective ha (subst (AreBytes bs) (sym rests) hb) in
      ground (arith, same, rest)

-- The content of the asset of this name.
abbrev found : List Asset → String → Option (List ℕ)
found [] n = none
found (a ∷ assets) n = if str_eq a.name n then some a.content else found assets n

found-assets_of :
    (names : List String) (read : Directory) (n : String)
    → found (assets_of names read) n ≡ (if contains names n then read n else none)
unfolding assets_of contains
found-assets_of [] read n = refl
found-assets_of (m ∷ names) read n = elim (Option-cases (read m)) [
  | inl e ↦ (ground (arith, e, found-assets_of names read n, eq_iff m n))
  | inr (content, e) ↦ (ground (arith, e, found-assets_of names read n, eq_iff m n))
]

digested-Ends :
    (utf8 : String → List ℕ) (root : String) (is_dir : Bool) (read : Directory)
    → Ends (λ _. Unit) (AreBytes utf8 (assets_of asset_names read)) (digested utf8 root is_dir read)
unfolding digested
digested-Ends utf8 root is_dir read = Ends-then (Ends-unless is_dir _ tt) λ _ _.
    Ends-then (Ends-unless (has_main (assets_of asset_names read)) _ tt)
      λ _ _. all_bytes-Ends utf8 (assets_of asset_names read)

-- If the bytes that are digested are the same for two tokenizer directories, then these have the same
-- files, of the same content, under all six names; so two tokenizers that differ in a file share a
-- fingerprint only by a collision of SHA-256.
pub digested_files_are_same :
    (utf8 : String → List ℕ) (first second : String) (r s : Directory) (bytes : List ℕ) (n : String)
    → ((x y : String) → utf8 x ≡ utf8 y → x ≡ y)
    → digested utf8 first true r ≡ gives bytes
    → digested utf8 second true s ≡ gives bytes
    → contains asset_names n ≡ true
    → r n ≡ s n
digested_files_are_same utf8 first second r s bytes n injective hr hs named =
    let same =
      AreBytes-injective utf8 (assets_of asset_names r) (assets_of asset_names s) bytes injective
        (Ends-gives (digested-Ends utf8 first true r) hr)
        (Ends-gives (digested-Ends utf8 second true s) hs) in
    ground (
      arith,
      found-assets_of asset_names r n,
      found-assets_of asset_names s n,
      ap (λ assets. found assets n) same,
    )
