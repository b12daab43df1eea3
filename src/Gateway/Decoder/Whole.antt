-- ===== src/Gateway/Decoder/Whole.antt =====
-- The texts that `_IncrementalDecoder` emits, together, are the text of all the tokens.
use kim_llm_serving.Prelude.{
  ℕ, ◌≡◌, refl, sym, ap, ◌∙◌, true, Option, none, some, List, [], ◌∷◌, ◌++◌, arith, length, drop,
  append_assoc, append-nil, Bool-cases, inl, inr,
}
use kim_llm_serving.Gateway.Decoder.{
  Text, Decoder, new_decoder, starts_with, Appended, text, decode_failed, changed_text, emit,
  append,
}

pub starts_with-drop :
    (all prefix : Text) → starts_with all prefix ≡ true → all ≡ prefix ++ drop (length prefix) all
unfolding starts_with
starts_with-drop all [] h = refl
starts_with-drop [] (p ∷ prefix) h = absurd (cc)
starts_with-drop (t ∷ all) (p ∷ prefix) h = ground (arith, starts_with-drop all prefix)

abbrev emits : Appended → Option (Decoder × Text) → Option (Decoder × Text)
emits (text t) none = none
emits (text t) (some (d, later)) = some (d, t ++ later)
emits decode_failed later = none
emits changed_text later = none

-- `append` on one delta after the other, as long as none fails: the decoder and all emitted text.
unfoldable pub append_all :
    (List ℕ → Option Text) → Decoder → List (List ℕ) → Option (Decoder × Text)
append_all decode d [] = some (d, [])
append_all decode d (ids ∷ rest) =
    let (d', r) = append decode d ids in emits r (append_all decode d' rest)

-- All token ids of the deltas.
abbrev pub all_tokens : List (List ℕ) → List ℕ
all_tokens [] = []
all_tokens (ids ∷ rest) = ids ++ all_tokens rest

record Emitted (decode : List ℕ → Option Text) (d d' : Decoder) (ids : List ℕ) (t : Text)
    : Type 0 where
  tokens : d'.tokens ≡ d.tokens ++ ids
  decodes : decode d'.tokens ≡ some d'.decoded
  extends : d'.decoded ≡ d.decoded ++ t

emit-Emitted :
    (decode : List ℕ → Option Text) (d : Decoder) (ids : List ℕ) (t : Text) (o : Option Text)
    → decode (d.tokens ++ ids) ≡ o
    → (emit (record d { tokens = d.tokens ++ ids }) o).1 ≡ text t
    → Emitted decode d (emit (record d { tokens = d.tokens ++ ids }) o).0 ids t
unfolding emit
emit-Emitted decode d ids t none e h = absurd (cc)
emit-Emitted decode d ids t (some all) e h = elim (Bool-cases (starts_with all d.decoded)) [
  | inr no_prefix ↦ absurd (ground arith)
  | inl prefix ↦ rw prefix (record {
    tokens = refl;
    decodes = e;
    extends = ground (arith, starts_with-drop all d.decoded prefix);
  })
]

-- What the decoder has emitted is the text of its tokens.
abbrev IsCurrent : (List ℕ → Option Text) → Decoder → Type 0
IsCurrent decode d = decode d.tokens ≡ some d.decoded

emits-text :
    (r : Appended) (all : Option (Decoder × Text)) (d : Decoder) (out : Text)
    → emits r all ≡ some (d, out)
    → (t : Text) × (later : Text) × (r ≡ text t) × (all ≡ some (d, later)) × (out ≡ t ++ later)
emits-text (text t) none d out h = absurd (cc)
emits-text (text t) (some (e, later)) d out h = (t, later, refl, cc, cc)
emits-text decode_failed all d out h = absurd (cc)
emits-text changed_text all d out h = absurd (cc)

record Whole (decode : List ℕ → Option Text) (d d' : Decoder) (ids : List ℕ) (out : Text)
    : Type 0 where
  tokens : d'.tokens ≡ d.tokens ++ ids
  extends : d'.decoded ≡ d.decoded ++ out
  current : IsCurrent decode d → IsCurrent decode d'

append_all-Whole :
    (decode : List ℕ → Option Text) (d : Decoder) (chunks : List (List ℕ)) (d' : Decoder)
    (out : Text)
    → append_all decode d chunks ≡ some (d', out)
    → Whole decode d d' (all_tokens chunks) out
unfolding append_all append
append_all-Whole decode d [] d' out h =
    let same : d' ≡ d = cc in
    let nothing : out ≡ [] = cc in
    rw (same, nothing)
      (record {
        tokens = sym (append-nil d.tokens);
        extends = sym (append-nil d.decoded);
        current = λ c. c;
      })
append_all-Whole decode d (ids ∷ rest) d' out h =
    let e = (append decode d ids).0 in
    let (t, later, first, others, whole) =
      emits-text (append decode d ids).1 (append_all decode e rest) d' out h in
    let step = emit-Emitted decode d ids t (decode (d.tokens ++ ids)) refl first in
    let w = append_all-Whole decode e rest d' later others in
    record {
      tokens =
          w.tokens
          ∙ ap (λ ts. ts ++ all_tokens rest) step.tokens
          ∙ append_assoc d.tokens ids (all_tokens rest);
      extends =
          w.extends
          ∙ ap (λ x. x ++ later) step.extends
          ∙ append_assoc d.decoded t later
          ∙ ap (λ x. d.decoded ++ x) (sym whole);
      current = λ _. w.current step.decodes;
    }

-- The first delta makes the decoder current.
append_all-IsCurrent :
    (decode : List ℕ → Option Text) (d : Decoder) (ids : List ℕ) (rest : List (List ℕ))
    (d' : Decoder) (out : Text)
    → append_all decode d (ids ∷ rest) ≡ some (d', out)
    → IsCurrent decode d'
unfolding append_all append
append_all-IsCurrent decode d ids rest d' out h =
    let e = (append decode d ids).0 in
    let (t, later, first, others, whole) =
      emits-text (append decode d ids).1 (append_all decode e rest) d' out h in
    let step = emit-Emitted decode d ids t (decode (d.tokens ++ ids)) refl first in
    (append_all-Whole decode e rest d' later others).current step.decodes

-- Whatever the tokenizer's `decode` does: if a new decoder takes in one or more deltas and none of
-- them fails, then the texts it emitted are, put together, `decode` of all their tokens.
pub emitted_is_whole :
    (decode : List ℕ → Option Text) (ids : List ℕ) (rest : List (List ℕ)) (d : Decoder) (out : Text)
    → append_all decode new_decoder (ids ∷ rest) ≡ some (d, out)
    → decode (all_tokens (ids ∷ rest)) ≡ some out
emitted_is_whole decode ids rest d out h =
    let w = append_all-Whole decode new_decoder (ids ∷ rest) d out h in
    ap decode (sym w.tokens)
    ∙ append_all-IsCurrent decode new_decoder ids rest d out h
    ∙ ap some w.extends
