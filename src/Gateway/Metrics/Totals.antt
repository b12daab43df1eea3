-- ===== src/Gateway/Metrics/Totals.antt =====
-- What a `collections.Counter` of the metrics has counted in all.
use kim_llm_serving.Prelude.{ℕ, ◌+◌, ◌≡◌, refl, String, [], ◌∷◌, arith}
use kim_llm_serving.Gateway.Metrics.{Counter, increment}

unfoldable pub total : Counter → ℕ
total [] = 0
total ((k, n) ∷ c) = n + total c

pub total-increment : (c : Counter) (k : String) → total (increment c k) ≡ total c + 1
unfolding total increment
total-increment [] k = refl
total-increment ((j, n) ∷ c) k = ground (arith, total-increment c k)
