-- ===== src/Protocol/Result.antt =====
-- The errors of clients/python/kim_llm_client/protocol.py as values: `ProtocolError`, one constructor
-- for each message, and the `KeyError` of a subscript.
use mathlib.Core.Path.{subst}
use kim_llm_serving.Prelude.{ℕ, String, ◌≡◌, refl, ap, Bool, true, false, if◌then◌else◌}

pub data Error : Type 0 where
  bad_json not_an_object bad_epoch before_hello_ack : Error
  unexpected_fields bad_string bad_bool bad_int : String → Error
  unsupported_version : ℕ → Error
  unknown_status_code unknown_finish_reason message_not_allowed : String → Error
  manifest_limits_exceed_sequence limit_hierarchy_inconsistent : Error
  rejected_with_ok empty_token_ids ok_without_finish_reason : Error
  ready_inconsistent high_watermark_too_low : Error
  empty_payload payload_too_large length_not_positive length_too_large : Error
  empty_manifest_string empty_input temperature_not_positive top_p_out_of_range : Error
  empty_stop_sequence : Error
  bad_float : String → Error
  -- not a `ProtocolError`
  key_error : String → Error
  overflow_error disconnected value_error recursion_error : Error

-- What a call that may raise does: it raises an exception, or it returns a value.
pub data Result {ℓ} (V : Type ℓ) : Type ℓ where
  err : Error → Result V
  ok : V → Result V

-- if not test: raise e
abbrev pub require : Bool → Error → Result (Unit {0})
require false e = err e
require true e = ok tt

-- `ProtocolError`, and no other exception.
abbrev pub IsProtocolError : Error → Type 0
IsProtocolError (key_error k) = ⊥
IsProtocolError overflow_error = ⊥
IsProtocolError disconnected = ⊥
IsProtocolError value_error = ⊥
IsProtocolError recursion_error = ⊥
IsProtocolError _ = Unit

-- A statement with the rest of the function, which an exception leaves out.
infixl 5 ◌>>=◌
abbrev pub ◌>>=◌ {ℓ κ} : {V : Type ℓ} {W : Type κ} → Result V → (V → Result W) → Result W
err x >>= rest = err x
ok v >>= rest = rest v

-- A call returns a value with `P`, or raises a `ProtocolError`.
pub data Post {ℓ} {A : Type ℓ} (P : A → Type 0) : Result A → Type ℓ where
  returned : {a : A} → P a → Post P (ok a)
  refused : {e : Error} → IsProtocolError e → Post P (err e)

-- The same where the statement's value is not used.
infixl 5 ◌>>◌
abbrev pub ◌>>◌ {ℓ κ} : {V : Type ℓ} {W : Type κ} → Result V → Result W → Result W
first >> rest = first >>= λ _. rest

module _ {ℓ κ} {A : Type ℓ} {B : Type κ} {P : A → Type 0} {Q : B → Type 0} where
  pub Post-bind :
      {m : Result A} {f : A → Result B}
      → Post P m
      → ((a : A) → P a → Post Q (f a))
      → Post Q (m >>= f)
  Post-bind (returned p) k = k _ p
  Post-bind (refused e) k = refused e

pub Post-require : (b : Bool) (e : Error) → IsProtocolError e → Post (λ _. b ≡ true) (require b e)
Post-require true e h = returned refl
Post-require false e h = refused h

abbrev value_or {ℓ} : {A : Type ℓ} → A → Result A → A
value_or d (ok a) = a
value_or d (err e) = d

pub Post-ok {ℓ} : {A : Type ℓ} {P : A → Type 0} {r : Result A} {a : A} → Post P r → r ≡ ok a → P a
Post-ok {P} (returned {a = x} p) e = subst P (ap (value_or x) e) p
Post-ok (refused x) e = cc

module _ {ℓ} {A : Type ℓ} {P : A → Type 0} where
  pub Post-if :
      (b : Bool) {r s : Result A}
      → (b ≡ true → Post P r)
      → (b ≡ false → Post P s)
      → Post P (if b then r else s)
  Post-if true kr ks = kr refl
  Post-if false kr ks = ks refl

  pub Post-weaken : {Q : A → Type 0} {r : Result A} → ((a : A) → P a → Q a) → Post P r → Post Q r
  Post-weaken k (returned p) = returned (k _ p)
  Post-weaken k (refused e) = refused e

-- If the whole returned, then so did its first statement, and the rest with that value.
pub returned_first {ℓ κ} :
    {V : Type ℓ} {W : Type κ} {w : W} (first : Result V) (rest : V → Result W)
    → (first >>= rest) ≡ ok w
    → (v : V) × (rest v ≡ ok w) × (first ≡ ok v)
returned_first (err x) rest h = cc
returned_first (ok v) rest h = (v, h, refl)
