-- ===== src/Rpc/Circuit.antt =====
-- chainrpc-core/src/policy/circuit_breaker.rs. The state behind the lock is a record; a clock reading
-- `now` in nanoseconds is an argument, and `elapsed` stops at 0 as `Instant`'s does.
pub mod Invariant
pub mod Trips
use chainkit.Prelude.{
  Bool, List, Option, [], false, if◌then◌else◌, leb, none, not, some, true, u32, ℕ, ◌+◌, ◌-◌, ◌∷◌,
}

pub data CircuitState : Type 0 where
  closed open_circuit half_open : CircuitState

pub record CircuitBreakerConfig : Type 0 where
  pub failure_threshold : ℕ
  pub open_duration : ℕ
  pub success_threshold : ℕ

pub record CircuitBreaker : Type 0 where
  pub config : CircuitBreakerConfig
  pub state : CircuitState
  pub failure_count : ℕ
  pub success_count : ℕ
  pub opened_at : Option ℕ

-- `CircuitBreakerConfig::default`: 30 s
abbrev pub default_config : CircuitBreakerConfig
default_config = record {
  failure_threshold = 5;
  open_duration = 30_000_000_000;
  success_threshold = 1;
}

unfoldable pub new : CircuitBreakerConfig → CircuitBreaker
new config = record {
  config = config;
  state = closed;
  failure_count = 0;
  success_count = 0;
  opened_at = none;
}

-- `state()`: the transition to half-open once the wait is over
unfoldable pub refresh : CircuitState → CircuitBreaker → ℕ → CircuitBreaker
refresh open_circuit c now = elim c.opened_at [
  | none ↦ c
  | some at ↦
      if leb c.config.open_duration (now - at)
      then record c { state = half_open; success_count = 0 }
      else c
]
refresh _ c now = c

unfoldable pub current : CircuitBreaker → ℕ → CircuitState × CircuitBreaker
unfolding refresh
current c now = let c' = refresh c.state c now in (c'.state, c')

abbrev is_open : CircuitState → Bool
is_open open_circuit = true
is_open _ = false

unfoldable pub is_allowed : CircuitBreaker → ℕ → Bool × CircuitBreaker
unfolding current
is_allowed c now = let (s, c') = current c now in (not (is_open s), c')

on_success : CircuitState → CircuitBreaker → CircuitBreaker
on_success half_open c =
    let n = u32 (c.success_count + 1) in
    if leb c.config.success_threshold n
    then record c { state = closed; failure_count = 0; success_count = 0; opened_at = none }
    else record c { success_count = n }
on_success closed c = record c { failure_count = 0 }
on_success open_circuit c = c

unfoldable pub record_success : CircuitBreaker → CircuitBreaker
unfolding on_success
record_success c = on_success c.state c

on_failure : CircuitState → CircuitBreaker → ℕ → CircuitBreaker
on_failure closed c now =
    let n = u32 (c.failure_count + 1) in
    if leb c.config.failure_threshold n
    then record c { failure_count = n; state = open_circuit; opened_at = some now }
    else record c { failure_count = n }
on_failure half_open c now = record c {
  state = open_circuit;
  opened_at = some now;
  success_count = 0;
}
on_failure open_circuit c now = c

unfoldable pub record_failure : CircuitBreaker → ℕ → CircuitBreaker
unfolding on_failure
record_failure c now = on_failure c.state c now

-- The calls that a client makes, with the time of each.
pub data Call : Type 0 where
  ask success failure : ℕ → Call

unfoldable pub step : CircuitBreaker → Call → CircuitBreaker
unfolding is_allowed record_success record_failure
step c (ask now) = (is_allowed c now).1
step c (success now) = record_success c
step c (failure now) = record_failure c now

unfoldable pub run : CircuitBreaker → List Call → CircuitBreaker
run c [] = c
run c (e ∷ es) = run (step c e) es
