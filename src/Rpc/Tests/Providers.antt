-- ===== src/Rpc/Tests/Providers.antt =====
-- A circuit breaker and a selection over three providers.
use chainkit.Prelude.{
  Bool, List, String, [], arith, count, false, if◌then◌else◌, refl, some, true, ℕ, ◌-◌, ◌<◌, ◌==◌,
  ◌∷◌, ◌≡◌, ◌≤◌, nat_eq, string_eq, pair_eq,
}
use chainkit.Rpc.Circuit.{
  open_circuit, half_open, CircuitBreaker, ask, success, failure, default_config, new, run,
  is_allowed,
}
use chainkit.Rpc.Circuit.Invariant
use chainkit.Rpc.Circuit.Invariant.{run-IsValid}
use chainkit.Rpc.Circuit.Trips.{open_until}
use chainkit.Rpc.Selection.{SelectionState, effective_from}
use chainkit.Rpc.Selection.Rounds.{calls, is_pick, fair_round}

abbrev breaker : CircuitBreaker
breaker = new (record { failure_threshold = 3; open_duration = 100; success_threshold = 2 })

abbrev tripped : CircuitBreaker
tripped = record breaker { state = open_circuit; opened_at = some 7; failure_count = 3 }

abbrev probing : CircuitBreaker
probing = record tripped { state = half_open }

run-IsValid_example :
    Invariant.IsValid (run (new default_config) (failure 1 ∷ success 2 ∷ ask 3 ∷ []))
run-IsValid_example = run-IsValid default_config (failure 1 ∷ success 2 ∷ ask 3 ∷ [])

open_until_example :
    (run tripped (success 8 ∷ failure 9 ∷ []) ≡ tripped)
    × (107 - 7 < 100 → (is_allowed tripped 107).0 ≡ false)
    × (100 ≤ 107 - 7
        → is_allowed tripped 107 ≡ (true, record tripped { state = half_open; success_count = 0 }))
unfolding new
open_until_example =
    open_until tripped 7 (success 8 ∷ failure 9 ∷ []) 107 refl refl (omega arith, (omega arith, tt))

abbrev s : SelectionState
s = record { rr_cursor = 4; latencies = 90 ∷ 0 ∷ 40 ∷ []; wrr_cursor = 0; wrr_counter = 10 }

abbrev free : List Bool
free = true ∷ false ∷ true ∷ []

-- A value for each key stands for its hash.
abbrev hash : String → ℕ
hash key = if key == "alice" then 4 else 0

fair_round_example : count (is_pick 2) (calls 5 s free (2 ∷ 7 ∷ 3 ∷ [])) ≡ 3
unfolding effective_from
fair_round_example = fair_round s free (2 ∷ 7 ∷ 3 ∷ []) 2 (omega arith) (omega arith)
