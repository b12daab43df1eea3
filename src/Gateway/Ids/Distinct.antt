-- ===== src/Gateway/Ids/Distinct.antt =====
-- The ids that `_RequestIdAllocator` gives out.
use kim_llm_serving.Prelude.{ℕ, zero, suc, ◌+◌, ◌-◌, ◌%◌, ◌^◌, ◌≤◌, ◌<◌, ◌≡◌, ◌≢◌, arith}
use kim_llm_serving.Gateway.Ids.{next_id}

-- The allocator's state after `k` calls.
unfoldable pub after_calls : ℕ → ℕ → ℕ
after_calls zero start = start
after_calls (suc k) start = (next_id (after_calls k start)).0

-- The id that call `k` (from 0) gives out.
abbrev pub nth_id : ℕ → ℕ → ℕ
nth_id k start = (next_id (after_calls k start)).1

after_calls-mod :
    (k start : ℕ)
    → 1 ≤ start
    → start < 2 ^ 63
    → after_calls k start ≡ (start - 1 + k) % (2 ^ 63 - 1) + 1
unfolding after_calls next_id
after_calls-mod zero start h h' = omega arith
after_calls-mod (suc k) start h h' = ground (arith, after_calls-mod k start)

-- From a first id in range, every id given out is in range, and two ids are equal only if 2^63 - 1
-- calls or more lie between them.
pub ids_distinct :
    (i j start : ℕ)
    → 1 ≤ start
    → start < 2 ^ 63
    → i < j
    → j < i + (2 ^ 63 - 1)
    → (1 ≤ nth_id i start) × (nth_id i start < 2 ^ 63) × (nth_id i start ≢ nth_id j start)
unfolding next_id
ids_distinct i j start h h' lt near = (
  omega (arith, after_calls-mod i start h h'),
  omega (arith, after_calls-mod i start h h'),
  omega (arith, after_calls-mod i start h h', after_calls-mod j start h h'),
)
