-- ===== src/Rpc/Circuit/Trips.antt =====
-- When a circuit breaker opens, how long it stays open, and how it closes again.
use chainkit.Prelude.{
  All, List, [], ap, arith, false, length, map, none, refl, some, suc, true, ℕ, ◌+◌, ◌-◌, ◌<◌, ◌∙◌,
  ◌∷◌, ◌≡◌, ◌≤◌,
}
use chainkit.Rpc.Circuit.{
  closed, open_circuit, half_open, CircuitBreaker, Call, ask, success, failure, step, run,
  is_allowed,
}

step_failure :
    (c : CircuitBreaker) (k now : ℕ)
    → c.state ≡ closed
    → c.failure_count ≡ k
    → suc k < c.config.failure_threshold
    → c.config.failure_threshold ≤ 4294967295
    → step c (failure now) ≡ record c { failure_count = suc k }
unfolding step
step_failure c k now s f h w = ground arith

step_last_failure :
    (c : CircuitBreaker) (k now : ℕ)
    → c.state ≡ closed
    → c.failure_count ≡ k
    → suc k ≡ c.config.failure_threshold
    → c.config.failure_threshold ≤ 4294967295
    → step c (failure now)
      ≡ record c { failure_count = suc k; state = open_circuit; opened_at = some now }
unfolding step
step_last_failure c k now s f h w = ground arith

failures_from :
    (c : CircuitBreaker) (k : ℕ) (ts : List ℕ)
    → c.state ≡ closed
    → c.failure_count ≡ k
    → k + length ts < c.config.failure_threshold
    → c.config.failure_threshold ≤ 4294967295
    → run c (map failure ts) ≡ record c { failure_count = k + length ts }
unfolding run
failures_from c k [] s f h w = ground arith
failures_from c k (t ∷ ts) s f h w =
    rw (step_failure c k t s f (omega arith) w, run)
      (failures_from (record c { failure_count = suc k }) (suc k) ts s refl (omega arith) w
        ∙ ap (λ n. record c { failure_count = n }) (omega arith))

-- From a closed breaker with no failure counted and a threshold that fits a `u32`, failures in a
-- row, one fewer than the threshold, are counted and leave it closed; one more opens it at the
-- time of that one.
pub opens_at_threshold :
    (c : CircuitBreaker) (ts : List ℕ) (t : ℕ)
    → c.state ≡ closed
    → c.failure_count ≡ 0
    → length ts + 1 ≡ c.config.failure_threshold
    → c.config.failure_threshold ≤ 4294967295
    → (run c (map failure ts) ≡ record c { failure_count = length ts })
      × (step (run c (map failure ts)) (failure t)
          ≡ record c { failure_count = length ts + 1; state = open_circuit; opened_at = some t })
opens_at_threshold c ts t s f h w =
    let counted = failures_from c 0 ts s f (omega arith) w in
    (
      counted ∙ ap (λ n. record c { failure_count = n }) (omega arith),
      ap (λ (d : CircuitBreaker). step d (failure t)) counted
          ∙ step_last_failure (record c { failure_count = 0 + length ts }) (0 + length ts) t s refl
              (omega arith) w
          ∙ ap (λ n. record c { failure_count = n; state = open_circuit; opened_at = some t })
              (omega arith),
    )

-- A success in between starts the count again.
pub success_resets :
    (c : CircuitBreaker) (now : ℕ)
    → c.state ≡ closed
    → step c (success now) ≡ record c { failure_count = 0 }
unfolding step
success_resets c now s = ground arith

abbrev pub time : Call → ℕ
time (ask now) = now
time (success now) = now
time (failure now) = now

step_early :
    (c : CircuitBreaker) (at : ℕ) (e : Call)
    → c.state ≡ open_circuit
    → c.opened_at ≡ some at
    → time e - at < c.config.open_duration
    → step c e ≡ c
unfolding step
step_early c at (ask now) s o h = ground arith
step_early c at (success now) s o h = ground arith
step_early c at (failure now) s o h = ground arith

-- An open breaker is not changed by any calls before its wait is over, late results of requests
-- included, and refuses until then; from then on it allows a probe, half-open with no success counted.
pub open_until :
    (c : CircuitBreaker) (at : ℕ) (es : List Call) (now : ℕ)
    → c.state ≡ open_circuit
    → c.opened_at ≡ some at
    → All (λ e. time e - at < c.config.open_duration) es
    → (run c es ≡ c)
      × (now - at < c.config.open_duration → (is_allowed c now).0 ≡ false)
      × (c.config.open_duration ≤ now - at
          → is_allowed c now ≡ (true, record c { state = half_open; success_count = 0 }))
unfolding run is_allowed
open_until c at [] now s o h = (refl, λ k. ground arith, λ k. ground arith)
open_until c at (e ∷ es) now s o h =
    rw (step_early c at e s o h.0, run) (open_until c at es now s o h.1)

step_probe :
    (c : CircuitBreaker) (k now : ℕ)
    → c.state ≡ half_open
    → c.success_count ≡ k
    → suc k < c.config.success_threshold
    → c.config.success_threshold ≤ 4294967295
    → step c (success now) ≡ record c { success_count = suc k }
unfolding step
step_probe c k now s f h w = ground arith

probes_from :
    (c : CircuitBreaker) (k : ℕ) (ts : List ℕ)
    → c.state ≡ half_open
    → c.success_count ≡ k
    → k + length ts < c.config.success_threshold
    → c.config.success_threshold ≤ 4294967295
    → run c (map success ts) ≡ record c { success_count = k + length ts }
unfolding run
probes_from c k [] s f h w = ground arith
probes_from c k (t ∷ ts) s f h w =
    rw (step_probe c k t s f (omega arith) w, run)
      (probes_from (record c { success_count = suc k }) (suc k) ts s refl (omega arith) w
        ∙ ap (λ n. record c { success_count = n }) (omega arith))

-- A half-open breaker with no success counted, whose threshold fits a `u32`, closes, with its
-- counts cleared, at exactly as many successes in a row as the threshold asks; a failure before
-- that opens it again at once, and its wait starts anew.
pub closes_at_threshold :
    (c : CircuitBreaker) (ts : List ℕ) (t : ℕ)
    → c.state ≡ half_open
    → c.success_count ≡ 0
    → length ts < c.config.success_threshold
    → c.config.success_threshold ≤ 4294967295
    → let probed = run c (map success ts) in
      (probed.state ≡ half_open)
      × (length ts + 1 ≡ c.config.success_threshold
          → step probed (success t)
            ≡ record c { state = closed; failure_count = 0; success_count = 0; opened_at = none })
      × (step probed (failure t)
          ≡ record c { state = open_circuit; opened_at = some t; success_count = 0 })
unfolding step
closes_at_threshold c ts t s f h w =
    rw (probes_from c 0 ts s f (omega arith) w) (s, λ k. ground arith, ground arith)
