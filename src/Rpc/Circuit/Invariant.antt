-- ===== src/Rpc/Circuit/Invariant.antt =====
-- What holds of a circuit breaker between two calls.
use chainkit.Prelude.{List, [], arith, none, ◌<◌, ◌∷◌, ◌≡◌, ◌≢◌, ◌⊎◌}
use chainkit.Rpc.Circuit.{
  closed, open_circuit, half_open, CircuitBreaker, CircuitBreakerConfig, Call, ask, success,
  failure, new, step, run,
}

-- A threshold of 0 counts as 1.
pub record IsValid (c : CircuitBreaker) : Type 0 where
  pub closed_below :
      c.state ≡ closed → (c.failure_count < c.config.failure_threshold) ⊎ (c.failure_count ≡ 0)
  pub closed_clear : c.state ≡ closed → (c.success_count ≡ 0) × (c.opened_at ≡ none)
  pub half_below :
      c.state ≡ half_open → (c.success_count < c.config.success_threshold) ⊎ (c.success_count ≡ 0)
  pub open_since : c.state ≢ closed → c.opened_at ≢ none
  pub open_clear : c.state ≡ open_circuit → c.success_count ≡ 0

pub new-IsValid : (config : CircuitBreakerConfig) → IsValid (new config)
unfolding new
new-IsValid config = ground arith

pub step-IsValid : (c : CircuitBreaker) (e : Call) → IsValid c → IsValid (step c e)
unfolding step
step-IsValid c (ask now) v = ground arith
step-IsValid c (success now) v = ground arith
step-IsValid c (failure now) v = ground arith

run_from-IsValid : (c : CircuitBreaker) (es : List Call) → IsValid c → IsValid (run c es)
unfolding run
run_from-IsValid c [] v = v
run_from-IsValid c (e ∷ es) v = run_from-IsValid (step c e) es (step-IsValid c e v)

-- After any calls from the start: while closed, fewer failures are counted than the threshold, or none,
-- and no success is, and no time of an opening is known; while not closed, it is known; while half-open,
-- fewer successes are counted than the threshold, or none; while open, none.
pub run-IsValid : (config : CircuitBreakerConfig) (es : List Call) → IsValid (run (new config) es)
run-IsValid config es = run_from-IsValid (new config) es (new-IsValid config)
