-- ===== src/Stream.antt =====
-- What a request's consumer is promised: the texts or tokens of one request, then at most one
-- terminal event, and nothing after it. Stated of any kind of events, for both event buffers.
use kim_llm_serving.Prelude.{Bool, true, false, ◌≡◌, refl, List, [], ◌∷◌, ◌++◌}

module _ {ℓ} {E : Type ℓ} (is_end : E → Bool) where
  abbrev AtMostLast : Bool → List E → Type ℓ → Type ℓ
  AtMostLast true rest later = rest ≡ []
  AtMostLast false rest later = later

  -- Only the last event of the list may be an end.
  abbrev pub IsStream : List E → Type ℓ
  IsStream [] = Unit
  IsStream (e ∷ es) = AtMostLast (is_end e) es (IsStream es)

  -- What has been handed out of a stream so far is a stream.
  pub append-IsStream_left : (xs ys : List E) → IsStream (xs ++ ys) → IsStream xs
  append-IsStream_left [] ys h = tt
  append-IsStream_left (x ∷ []) ys h = single (is_end x)
    where
      single : (b : Bool) → AtMostLast b [] Unit
      single true = refl
      single false = tt
  append-IsStream_left (x ∷ y ∷ xs) ys h = go (is_end x) h (append-IsStream_left (y ∷ xs) ys)
    where
      go :
          (b : Bool)
          → AtMostLast b (y ∷ xs ++ ys) (IsStream (y ∷ xs ++ ys))
          → (IsStream (y ∷ xs ++ ys) → IsStream (y ∷ xs))
          → AtMostLast b (y ∷ xs) (IsStream (y ∷ xs))
      go true e k = cc
      go false s k = k s
