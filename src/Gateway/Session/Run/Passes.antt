-- ===== src/Gateway/Session/Run/Passes.antt =====
-- How the texts of a session pass through its buffer (`_AsyncEventBuffer` of
-- gateway/python/kim_llm_gateway/runtime.py), whose rest an `abandon` throws away.
use kim_llm_serving.Prelude.{
  ◌≡◌, refl, ◌∙◌, true, false, List, [], ◌∷◌, ◌++◌, arith, length, drop, Bool-cases, inl, inr,
  append_assoc, append-nil, drop-append_length,
}
use kim_llm_serving.Gateway.Metrics.{Metrics}
use kim_llm_serving.Gateway.Decoder.{Text}
use kim_llm_serving.Gateway.Buffer.{
  AsyncEventBuffer, GatewayEvent, text_delta, terminal_event, put_delta, get, take_first,
  take_terminal, abandon,
}
use kim_llm_serving.Gateway.Buffer.Stream.{handed_of}
use kim_llm_serving.Gateway.Session.Run.Texts.{joined, joined-append, drop-length}

-- The texts among the events.
abbrev pub texts_of : List GatewayEvent → List Text
texts_of [] = []
texts_of (text_delta t ∷ es) = t ∷ texts_of es
texts_of (terminal_event t ∷ es) = texts_of es

pub texts_of-append : (es fs : List GatewayEvent) → texts_of (es ++ fs) ≡ texts_of es ++ texts_of fs
texts_of-append [] fs = refl
texts_of-append (text_delta t ∷ es) fs = ground (arith, texts_of-append es fs)
texts_of-append (terminal_event t ∷ es) fs = texts_of-append es fs

pub joined-passed :
    (ts us vs : List Text) (lost : Text)
    → joined (ts ++ (us ++ vs)) ++ lost ≡ joined ts ++ (joined us ++ (joined vs ++ lost))
joined-passed ts us vs lost = ground (
  arith,
  joined-append ts (us ++ vs),
  joined-append us vs,
  append_assoc (joined ts) (joined us ++ joined vs) lost,
  append_assoc (joined us) (joined vs) lost,
)

-- An abandoned buffer is empty.
abbrev pub IsShut : AsyncEventBuffer → Type 0
IsShut b = b.abandoned ≡ true → b.deltas ≡ []

-- From `b` to `b'` the texts pass in order, and `gone` is what an `abandon` threw away.
pub record Passes (b b' : AsyncEventBuffer) (taken : List Text) (handed : List GatewayEvent)
    : Type 0 where
  pub gone : List Text
  pub fifo : b.deltas ++ taken ≡ texts_of handed ++ (gone ++ b'.deltas)
  pub kept : b'.abandoned ≡ false → gone ≡ []
  pub shut : IsShut b'
  pub over :
      b.abandoned ≡ true
      → (b'.abandoned ≡ true) × (taken ≡ []) × (texts_of handed ≡ []) × (gone ≡ [])

pub Passes-trans :
    (b b' b'' : AsyncEventBuffer) (taken later : List Text) (handed after : List GatewayEvent)
    → Passes b b' taken handed
    → Passes b' b'' later after
    → Passes b b'' (taken ++ later) (handed ++ after)
Passes-trans b b' b'' taken later handed after g h = elim (Bool-cases b'.abandoned) [
  | inl abandoned ↦
      let (still, nothing, unhanded, none_gone) = h.over abandoned in
      record {
        gone = g.gone;
        fifo = ground (
          arith,
          g.fifo,
          h.fifo,
          nothing,
          unhanded,
          none_gone,
          g.shut abandoned,
          h.shut still,
          texts_of-append handed after,
          append-nil taken,
          append-nil (texts_of handed),
        );
        kept = λ e. absurd (cc);
        shut = h.shut;
        over =
            λ e. ground (arith, g.over e, nothing, unhanded, still, texts_of-append handed after);
      }
  | inr kept ↦ record {
    gone = h.gone;
    fifo = ground (
      arith,
      g.fifo,
      h.fifo,
      g.kept kept,
      texts_of-append handed after,
      append_assoc b.deltas taken later,
      append_assoc (texts_of handed) b'.deltas later,
      append_assoc (texts_of handed) (texts_of after) (h.gone ++ b''.deltas),
    );
    kept = h.kept;
    shut = h.shut;
    over = λ e. absurd (ground (arith, g.over e));
  }
]

-- A step that leaves the texts of the buffer alone.
pub same-Passes :
    (b b' : AsyncEventBuffer) (taken : List Text)
    → IsShut b
    → taken ≡ []
    → b'.deltas ≡ b.deltas
    → b'.abandoned ≡ b.abandoned
    → Passes b b' taken []
same-Passes b b' taken shut nothing same flag = record {
  gone = [];
  fifo = ground (arith, same, nothing, append-nil b.deltas);
  kept = λ _. refl;
  shut = ground (arith, same, flag, shut);
  over = λ e. (flag ∙ e, nothing, refl, refl);
}

pub put_delta-Passes :
    (b : AsyncEventBuffer) (m : Metrics) (t : Text)
    → IsShut b
    → let b' = (put_delta b m t).0 in Passes b b' (drop (length b.deltas) b'.deltas) []
unfolding put_delta
put_delta-Passes b m t shut = record {
  gone = [];
  fifo =
      ground
        (arith, append-nil b.deltas, drop-append_length b.deltas (t ∷ []), drop-length b.deltas);
  kept = λ _. refl;
  shut = ground (arith, shut);
  over = λ e. ground (arith, drop-length b.deltas);
}

pub get-Passes :
    (b : AsyncEventBuffer) (m : Metrics)
    → IsShut b
    → let (b', m', got) = get b m in Passes b b' [] (handed_of got)
unfolding get take_first take_terminal
get-Passes b m shut = record {
  gone = [];
  fifo = ground (arith, append-nil b.deltas);
  kept = λ _. refl;
  shut = ground (arith, shut);
  over = λ e. ground (arith, shut e);
}

pub abandon-Passes :
    (b : AsyncEventBuffer) (m : Metrics) → IsShut b → Passes b (abandon b m).0 [] []
unfolding abandon
abandon-Passes b m shut = record {
  gone = b.deltas;
  fifo = ground (arith, append-nil b.deltas);
  kept = λ e. absurd (cc);
  shut = λ _. refl;
  over = λ e. (refl, refl, refl, shut e);
}
