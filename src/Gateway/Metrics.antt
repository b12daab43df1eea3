-- ===== src/Gateway/Metrics.antt =====
-- `GatewayMetrics` of gateway/python/kim_llm_gateway/runtime.py. Each method is one critical section.
-- The rendering as Prometheus text is not modelled.
pub mod Totals
use kim_llm_serving.Prelude.{ℕ, ◌+◌, ◌-◌, String, Bool, List, [], ◌∷◌, max, str_eq, if◌then◌else◌}

-- A `collections.Counter` of texts: (key, count).
abbrev pub Counter : Type 0
Counter = List (String × ℕ)

unfoldable pub count_of : Counter → String → ℕ
count_of [] k = 0
count_of ((j, n) ∷ c) k = if str_eq j k then n else count_of c k

-- c[k] += 1
unfoldable pub increment : Counter → String → Counter
increment [] k = (k, 1) ∷ []
increment ((j, n) ∷ c) k =
    let rest = increment c k in if str_eq j k then (j, n + 1) ∷ c else (j, n) ∷ rest

pub record Metrics : Type 0 where
  pub offered : ℕ
  pub accepted : ℕ
  pub active : ℕ
  pub active_high_watermark : ℕ
  pub rejected : Counter
  pub terminals : Counter
  pub disconnect_cancels : ℕ
  pub backpressure_cancels : ℕ
  pub drain_timeouts : ℕ
  pub sse_buffered_events : ℕ
  pub sse_buffer_high_watermark : ℕ

abbrev pub new_metrics : Metrics
new_metrics = record {
  offered = 0;
  accepted = 0;
  active = 0;
  active_high_watermark = 0;
  rejected = [];
  terminals = [];
  disconnect_cancels = 0;
  backpressure_cancels = 0;
  drain_timeouts = 0;
  sse_buffered_events = 0;
  sse_buffer_high_watermark = 0;
}

unfoldable pub count_offered : Metrics → Metrics
count_offered m = record m { offered = m.offered + 1 }

unfoldable pub count_accepted : Metrics → Metrics
count_accepted m = record m {
  accepted = m.accepted + 1;
  active = m.active + 1;
  active_high_watermark = max m.active_high_watermark (m.active + 1);
}

unfoldable pub count_rejected : Metrics → String → Metrics
count_rejected m code = record m { rejected = increment m.rejected code }

-- max(0, active - 1): a number does not fall below 0.
unfoldable pub count_terminal : Metrics → String → Metrics
count_terminal m code = record m { terminals = increment m.terminals code; active = m.active - 1 }

unfoldable pub count_cancel : Metrics → String → Metrics
count_cancel m reason =
    if str_eq reason "http_disconnect"
    then record m { disconnect_cancels = m.disconnect_cancels + 1 }
    else if str_eq reason "sse_backpressure"
    then record m { backpressure_cancels = m.backpressure_cancels + 1 }
    else m

unfoldable pub count_drain_timeout : Metrics → Metrics
count_drain_timeout m = record m { drain_timeouts = m.drain_timeouts + 1 }

unfoldable pub sse_delta_enqueued : Metrics → Metrics
sse_delta_enqueued m = record m {
  sse_buffered_events = m.sse_buffered_events + 1;
  sse_buffer_high_watermark = max m.sse_buffer_high_watermark (m.sse_buffered_events + 1);
}

-- max(0, buffered - count), likewise.
unfoldable pub sse_deltas_released : Metrics → ℕ → Metrics
sse_deltas_released m count = record m { sse_buffered_events = m.sse_buffered_events - count }
