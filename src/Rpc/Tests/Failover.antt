-- ===== src/Rpc/Tests/Failover.antt =====
-- A pool of two providers.
use chainkit.Prelude.{All, [], arith, err, length, refl, true, ℕ, ◌<◌, ◌∷◌, ◌≡◌}
use chainkit.Rpc.Error.{timeout, is_retryable}
use chainkit.Rpc.Circuit
use chainkit.Rpc.Circuit.{CircuitBreakerConfig}
use chainkit.Rpc.Selection
use chainkit.Rpc.Selection.{SelectionState, round_robin, select}
use chainkit.Rpc.Pool
use chainkit.Rpc.Pool.{ProviderPool, Attempt, answered, timed_out, allowed_now, next_slot, send}
use chainkit.Rpc.Pool.Picks.{next_slot-select}
use chainkit.Rpc.Pool.Outcomes.{run}
use chainkit.Rpc.Pool.Timeouts.{IsClosed, silence, silent, timeouts_trip_nothing}

abbrev pool : ProviderPool
pool = Pool.new 2 Pool.default_config

abbrev state : SelectionState
state = Selection.new 2

same_cursor : state.rr_cursor ≡ pool.cursor
unfolding Selection.new Pool.new
same_cursor = refl

next_slot-select_example :
    ((next_slot pool 5).0 ≡ (select (λ key. 0) state round_robin (allowed_now 5 pool.slots)).0)
    × ((next_slot pool 5).1.cursor
        ≡ (select (λ key. 0) state round_robin (allowed_now 5 pool.slots)).1.rr_cursor)
next_slot-select_example = next_slot-select (λ key. 0) pool state 5 same_cursor

some_slot : 0 < length pool.slots
unfolding Pool.new
some_slot = omega arith

All-IsClosed : All IsClosed pool.slots
unfolding Pool.new Circuit.new
All-IsClosed = (refl, (refl, tt))

timeouts_trip_nothing_example :
    let q = run {J = ℕ} pool (silent ℕ ((1, 2) ∷ (3, 4) ∷ [])) in
    (q.slots ≡ pool.slots)
    × ((send {J = ℕ} q 5 6 (silence ℕ)).0 ≡ err (timeout pool.config.request_timeout))
    × (is_retryable {J = ℕ} (timeout pool.config.request_timeout) ≡ true)
timeouts_trip_nothing_example =
    timeouts_trip_nothing ℕ pool ((1, 2) ∷ (3, 4) ∷ []) 5 6 some_slot All-IsClosed
