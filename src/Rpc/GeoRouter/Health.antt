-- ===== src/Rpc/GeoRouter/Health.antt =====
-- chainrpc-core/src/geo_routing.rs, `RegionalHealth`. The share of successes is compared exactly, as the
-- quotient is in floating point for counts below 2^53.
use chainkit.Prelude.{
  Bool, if◌then◌else◌, ltb, true, u128, u64, ℕ, ◌*◌, ◌+◌, ◌/◌, ◌==◌, nat_eq, string_eq, pair_eq,
}

-- latencies in microseconds
pub record RegionalHealth : Type 0 where
  pub is_healthy : Bool
  pub avg_latency : ℕ
  pub last_checked : ℕ
  pub success_count : ℕ
  pub failure_count : ℕ
  pub latency_sum_us : ℕ

unfoldable pub new_health : ℕ → RegionalHealth
new_health now = record {
  is_healthy = true;
  avg_latency = 0;
  last_checked = now;
  success_count = 0;
  failure_count = 0;
  latency_sum_us = 0;
}

-- `success_rate() > 0.5`
unfoldable pub mostly_succeeds : ℕ → ℕ → Bool
mostly_succeeds successes failures =
    let total = u64 (successes + failures) in if total == 0 then true else ltb total (2 * successes)

unfoldable pub health_success : RegionalHealth → ℕ → ℕ → RegionalHealth
unfolding mostly_succeeds
health_success h latency now =
    let successes = u64 (h.success_count + 1) in
    let sum = u128 (h.latency_sum_us + latency) in
    let total = u64 (successes + h.failure_count) in
    record h {
      success_count = successes;
      latency_sum_us = sum;
      avg_latency = if ltb 0 total then u64 (sum / total) else h.avg_latency;
      last_checked = now;
      is_healthy = mostly_succeeds successes h.failure_count;
    }

unfoldable pub health_failure : RegionalHealth → ℕ → RegionalHealth
unfolding mostly_succeeds
health_failure h now =
    let failures = u64 (h.failure_count + 1) in
    record h {
      failure_count = failures;
      last_checked = now;
      is_healthy = mostly_succeeds h.success_count failures;
    }
