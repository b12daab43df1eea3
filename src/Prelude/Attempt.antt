-- ===== src/Prelude/Attempt.antt =====
-- A call that may raise one of the exceptions `E`, and what it can come to.
use mathlib.Core.Path.{◌≡◌, refl, subst}
use mathlib.Core.Bool.{Bool, true, false}
use mathlib.Core.List.{List, [], ◌∷◌}
use kim_llm_serving.Prelude.Tests.{if◌then◌else◌}
use kim_llm_serving.Prelude.Lists.{All}

pub data Attempt {ℓ} (E : Type 0) (V : Type ℓ) : Type ℓ where
  raises : E → Attempt E V
  gives : V → Attempt E V

infixl 5 ◌>>=◌
abbrev pub ◌>>=◌ {ℓ κ} :
    {E : Type 0} {V : Type ℓ} {W : Type κ} → Attempt E V → (V → Attempt E W) → Attempt E W
raises x >>= rest = raises x
gives v >>= rest = rest v

infixl 5 ◌>>◌
abbrev pub ◌>>◌ {ℓ κ} :
    {E : Type 0} {V : Type ℓ} {W : Type κ} → Attempt E V → Attempt E W → Attempt E W
first >> rest = first >>= λ _. rest

-- if not test: raise x
abbrev pub unless_raise : {E : Type 0} → Bool → E → Attempt E (Unit {0})
unless_raise false x = raises x
unless_raise true x = gives tt

-- [f(x) for x in xs]: the first call that raises ends it.
abbrev pub each {ℓ κ} :
    {E : Type 0} {A : Type ℓ} {V : Type κ} → (A → Attempt E V) → List A → Attempt E (List V)
each f [] = gives []
each f (x ∷ xs) = do v ← f x; vs ← each f xs; gives (v ∷ vs)

abbrev Holds {ℓ} : {E : Type 0} {V : Type ℓ} → (V → Type 0) → Attempt E V → Type 0
Holds P (raises x) = Unit
Holds P (gives v) = P v

-- A call gives a value with `P`, or raises an exception with `Q`.
pub data Ends {ℓ} {E : Type 0} {V : Type ℓ} (Q : E → Type 0) (P : V → Type 0)
    : Attempt E V → Type ℓ where
  given : {v : V} → P v → Ends Q P (gives v)
  raised : {x : E} → Q x → Ends Q P (raises x)

module _ {ℓ κ} {E : Type 0} {V : Type ℓ} {W : Type κ} {Q : E → Type 0} {P : V → Type 0}
    {R : W → Type 0} where
  pub Ends-then :
      {first : Attempt E V} {rest : V → Attempt E W}
      → Ends Q P first
      → ((v : V) → P v → Ends Q R (rest v))
      → Ends Q R (first >>= rest)
  Ends-then (given p) k = k _ p
  Ends-then (raised q) k = raised q

pub Ends-unless :
    {E : Type 0} {Q : E → Type 0} (b : Bool) (x : E)
    → Q x
    → Ends Q (λ _. b ≡ true) (unless_raise b x)
Ends-unless true x q = given refl
Ends-unless false x q = raised q

module _ {ℓ} {E : Type 0} {V : Type ℓ} {Q : E → Type 0} {P : V → Type 0} where
  pub Ends-if :
      (b : Bool) {r s : Attempt E V}
      → (b ≡ true → Ends Q P r)
      → (b ≡ false → Ends Q P s)
      → Ends Q P (if b then r else s)
  Ends-if true kr ks = kr refl
  Ends-if false kr ks = ks refl

  pub Ends-weaken :
      {R : V → Type 0} {r : Attempt E V} → ((v : V) → P v → R v) → Ends Q P r → Ends Q R r
  Ends-weaken k (given p) = given (k _ p)
  Ends-weaken k (raised q) = raised q

  pub Ends-each :
      {A : Type 0} (f : A → Attempt E V) (xs : List A)
      → ((x : A) → Ends Q P (f x))
      → Ends Q (All P) (each f xs)
  Ends-each f [] h = given tt
  Ends-each f (x ∷ xs) h =
      Ends-then (h x) λ v p. Ends-then (Ends-each f xs h) λ vs ps. given (p, ps)

  -- What holds of every value that the call can give holds of the one that it gave.
  pub Ends-gives : {r : Attempt E V} {v : V} → Ends Q P r → r ≡ gives v → P v
  Ends-gives (given p) e = subst (Holds P) e p
  Ends-gives (raised q) e = cc
