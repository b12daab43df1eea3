-- ===== src/Protocol/Json.antt =====
-- The values that `json.loads` returns. `F` is the type of Python's floats. A `dict` is its items in
-- insertion order; its keys are compared as texts.
use kim_llm_serving.Prelude.{
  String, ◌≡◌, inl, inr, Bool-cases, Bool, true, false, ◌&&◌, ◌||◌, Option, none, some, List, [],
  ◌∷◌, arith, str_eq, eq_iff, if◌then◌else◌,
}
use kim_llm_serving.Prelude.Int.{ℤ}

mutual
  pub data Json (F : Type 0) : Type 0 where
    null : Json F
    bool : Bool → Json F
    int : ℤ → Json F
    float : F → Json F
    str : String → Json F
    arr : Items F → Json F
    obj : Fields F → Json F

  pub data Items (F : Type 0) : Type 0 where
    nil : Items F
    cons : Json F → Items F → Items F

  pub data Fields (F : Type 0) : Type 0 where
    end : Fields F
    field : String → Json F → Fields F → Fields F

-- k in ks
unfoldable pub contains : List String → String → Bool
contains [] k = false
contains (j ∷ ks) k = str_eq j k || contains ks k

-- every one of the first list is in the second
unfoldable pub all_in : List String → List String → Bool
unfolding contains
all_in [] ks = true
all_in (j ∷ js) ks = contains ks j && all_in js ks

module _ {F : Type 0} where
  -- set(value)
  unfoldable pub keys : Fields F → List String
  keys end = []
  keys (field k v fs) = k ∷ keys fs

  -- value.get(key)
  unfoldable pub get : Fields F → String → Option (Json F)
  get end k = none
  get (field j v fs) k = if str_eq j k then some v else get fs k

  unfoldable pub to_list : Items F → List (Json F)
  to_list nil = []
  to_list (cons v vs) = v ∷ to_list vs

  pub get_of_contains :
      (fs : Fields F) (k : String)
      → contains (keys fs) k ≡ true
      → (v : Json F) × (get fs k ≡ some v)
  unfolding contains keys get
  get_of_contains end k h = absurd (cc)
  get_of_contains (field j v fs) k h = elim (Bool-cases (str_eq j k)) [
    | inl e ↦ (v, rw e)
    | inr e ↦ rw e (get_of_contains fs k (ground arith))
  ]

pub contains_of_all_in :
    (js ks : List String) (k : String)
    → all_in js ks ≡ true
    → contains js k ≡ true
    → contains ks k ≡ true
unfolding all_in
contains_of_all_in [] ks k h m = absurd (cc)
contains_of_all_in (j ∷ js) ks k h m = ground (arith, contains_of_all_in js ks k, eq_iff j k)
