-- ===== src/Protocol/Require.antt =====
-- The field checks of clients/python/kim_llm_client/protocol.py: `_require_exact_fields` and the
-- other `_require_*` functions, each on a value that `json.loads` returned.
use kim_llm_serving.Prelude.{
  ℕ, ◌-◌, ◌^◌, ◌≤◌, String, ◌≡◌, Bool, true, false, ◌&&◌, Option, none, some, List, arith, leb,
  ◌==◌, str_eq, if◌then◌else◌,
}
use kim_llm_serving.Prelude.Int.{pos}
use kim_llm_serving.Protocol.Json.{
  Json, Fields, null, bool, int, str, obj, keys, get, contains, all_in, get_of_contains,
  contains_of_all_in,
}
use kim_llm_serving.Protocol.Result.{
  Result, ok, err, ◌>>=◌, ◌>>◌, require, Post, returned, refused, Post-bind, Post-require, Post-if,
  Post-weaken, unexpected_fields, bad_string, bad_bool, bad_int, bad_epoch, unsupported_version,
  key_error,
}

abbrev pub protocol_version : ℕ
protocol_version = 1

abbrev pub u31_max : ℕ
u31_max = 2 ^ 31 - 1

abbrev pub u32_max : ℕ
u32_max = 2 ^ 32 - 1

abbrev pub u64_max : ℕ
u64_max = 2 ^ 64 - 1

abbrev pub epoch_matches : Option ℕ → ℕ → Bool
epoch_matches none epoch = true
epoch_matches (some expected) epoch = epoch == expected

module _ {F : Type 0} where
  -- set(value) == expected
  unfoldable pub same_fields : Fields F → List String → Bool
  same_fields fs expected = all_in expected (keys fs) && all_in (keys fs) expected

  unfoldable pub require_exact_fields : Json F → List String → String → Result (Fields F)
  unfolding same_fields
  require_exact_fields (obj fs) expected description =
      if same_fields fs expected then ok fs else err (unexpected_fields description)
  require_exact_fields _ expected description = err (unexpected_fields description)

  -- value[key]
  item_of : Option (Json F) → String → Result (Json F)
  item_of none k = err (key_error k)
  item_of (some v) k = ok v

  unfoldable pub item : Fields F → String → Result (Json F)
  unfolding item_of
  item fs k = item_of (get fs k) k

  unfoldable pub require_string : Json F → String → Bool → Result String
  require_string (str s) description non_empty =
      if non_empty && str_eq s "" then err (bad_string description) else ok s
  require_string _ description non_empty = err (bad_string description)

  unfoldable pub require_bool : Json F → String → Result Bool
  require_bool (bool b) description = ok b
  require_bool _ description = err (bad_bool description)

  -- `_require_int` where the minimum is at least 0: a value that passes is a number.
  unfoldable pub require_int : Json F → String → ℕ → ℕ → Result ℕ
  require_int (int (pos n)) description minimum maximum =
      if leb minimum n && leb n maximum then ok n else err (bad_int description)
  require_int _ description minimum maximum = err (bad_int description)

  unfoldable pub require_protocol : Json F → Result (Unit {0})
  require_protocol v = do
    version ← require_int v "protocol_version" 0 u32_max
    require (version == protocol_version) (unsupported_version version)

  unfoldable pub require_epoch : Json F → Option ℕ → Result ℕ
  require_epoch v expected = do
    epoch ← require_int v "worker_epoch" 1 u64_max
    require (epoch_matches expected epoch) bad_epoch
    ok epoch

  pub HasFields : Fields F → List String → Type 0
  HasFields fs expected = all_in expected (keys fs) ≡ true

  pub require_exact_fields-Post :
      (v : Json F) (expected : List String) (description : String)
      → Post (λ fs. HasFields fs expected) (require_exact_fields v expected description)
  unfolding require_exact_fields HasFields
  require_exact_fields-Post (obj fs) expected description =
      Post-if (same_fields fs expected) (λ e. returned (ground arith)) (λ _. refused tt)
  require_exact_fields-Post _ expected description = refused tt

  pub item-Post :
      (fs : Fields F) (expected : List String) (k : String)
      → HasFields fs expected
      → contains expected k ≡ true
      → Post (λ _. Unit) (item fs k)
  unfolding item HasFields
  item-Post fs expected k h m =
      let (v, e) = get_of_contains fs k (contains_of_all_in expected (keys fs) k h m) in
      rw (e, item_of) (returned tt)

  pub require_string-Post :
      (v : Json F) (d : String) (b : Bool)
      → Post (λ s. b && str_eq s "" ≡ false) (require_string v d b)
  unfolding require_string
  require_string-Post (str s) d b = Post-if (b && str_eq s "") (λ _. refused tt) (λ e. returned e)
  require_string-Post null d b = refused tt
  require_string-Post _ d b = refused tt

  pub require_bool-Post : (v : Json F) (d : String) → Post (λ _. Unit) (require_bool v d)
  unfolding require_bool
  require_bool-Post (bool b) d = returned tt
  require_bool-Post _ d = refused tt

  pub require_int-Post :
      (v : Json F) (d : String) (lo hi : ℕ)
      → Post (λ n. (lo ≤ n) × (n ≤ hi)) (require_int v d lo hi)
  unfolding require_int
  require_int-Post (int (pos n)) d lo hi =
      Post-if (leb lo n && leb n hi) (λ e. returned (ground arith, ground arith)) (λ _. refused tt)
  require_int-Post _ d lo hi = refused tt

  pub require_protocol-Post : (v : Json F) → Post (λ _. Unit) (require_protocol v)
  unfolding require_protocol
  require_protocol-Post v = Post-bind (require_int-Post v _ _ _) λ n _.
      Post-weaken (λ _ _. tt) (Post-require (n == protocol_version) (unsupported_version n) tt)

  pub require_epoch-Post :
      (v : Json F) (expected : Option ℕ)
      → Post (λ e. (1 ≤ e) × (epoch_matches expected e ≡ true)) (require_epoch v expected)
  unfolding require_epoch
  require_epoch-Post v expected = Post-bind (require_int-Post v _ _ _) λ n h.
      Post-bind (Post-require (epoch_matches expected n) bad_epoch tt) λ _ m. returned (h.0, m)
