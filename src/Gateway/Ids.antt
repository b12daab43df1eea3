-- ===== src/Gateway/Ids.antt =====
-- `_RequestIdAllocator` of gateway/python/kim_llm_gateway/runtime.py. Its first id, drawn at random,
-- is a parameter: secrets.randbits(62) + 1.
pub mod Distinct
use kim_llm_serving.Prelude.{ℕ, ◌+◌, ◌^◌, leb, if◌then◌else◌}

-- The allocator's next id and the id that it gives out.
unfoldable pub next_id : ℕ → ℕ × ℕ
next_id next = (if leb (2 ^ 63) (next + 1) then 1 else next + 1, next)
