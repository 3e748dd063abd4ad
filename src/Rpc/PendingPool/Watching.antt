-- ===== src/Rpc/PendingPool/Watching.antt =====
-- Sequences of calls on the monitor.
use chainkit.Prelude.{
  Bool, Bool-cases, List, String, [], arith, contains, count-le-length, false, filter, inl, inr,
  leb, length, length-filter, not, refl, ◌==◌, ◌∷◌, ◌≡◌, ◌≤◌, nat_eq, string_eq, pair_eq,
}
use chainkit.Rpc.PendingPool.{PendingPoolConfig, PendingPoolMonitor, new, watch, unwatch}

pub data Call : Type 0 where
  watches unwatches : String → Call

abbrev pub run : PendingPoolMonitor → List Call → PendingPoolMonitor
run m [] = m
run m (watches h ∷ cs) = run (watch m h).1 cs
run m (unwatches h ∷ cs) = run (unwatch m h) cs

abbrev pub Distinct : List String → Type 0
Distinct [] = Unit
Distinct (h ∷ hs) = (contains hs h ≡ false) × Distinct hs

abbrev pub IsValid : PendingPoolMonitor → Type 0
IsValid m = Distinct m.watched × (length m.watched ≤ m.config.max_monitored)

contains-filter :
    (p : String → Bool) (hs : List String) (h : String)
    → contains hs h ≡ false
    → contains (filter p hs) h ≡ false
contains-filter p [] h e = refl
contains-filter p (j ∷ hs) h e = ground (arith, e, contains-filter p hs h)

filter-Distinct : (p : String → Bool) (hs : List String) → Distinct hs → Distinct (filter p hs)
filter-Distinct p [] d = tt
filter-Distinct p (h ∷ hs) d = elim (Bool-cases (p h)) [
  | inl x ↦ rw x (contains-filter p hs h d.0, filter-Distinct p hs d.1)
  | inr x ↦ rw x (filter-Distinct p hs d.1)
]

watch-IsValid : (m : PendingPoolMonitor) (h : String) → IsValid m → IsValid (watch m h).1
unfolding watch
watch-IsValid m h v = elim (Bool-cases (leb m.config.max_monitored (length m.watched))) [
  | inl x ↦ rw (x, watch) v
  | inr x ↦ elim (Bool-cases (contains m.watched h)) [
    | inl y ↦ rw (x, y, watch) v
    | inr y ↦ rw (x, y, watch) ((y, v.0), ground (arith, x))
  ]
]

unwatch-IsValid : (m : PendingPoolMonitor) (h : String) → IsValid m → IsValid (unwatch m h)
unfolding unwatch
unwatch-IsValid m h v = (
  filter-Distinct _ m.watched v.0,
  omega (
    arith,
    v.1,
    length-filter (λ j. not (j == h)) m.watched,
    count-le-length (λ j. not (j == h)) m.watched,
  ),
)

run_from-IsValid : (m : PendingPoolMonitor) (cs : List Call) → IsValid m → IsValid (run m cs)
run_from-IsValid m [] v = v
run_from-IsValid m (watches h ∷ cs) v = run_from-IsValid (watch m h).1 cs (watch-IsValid m h v)
run_from-IsValid m (unwatches h ∷ cs) v = run_from-IsValid (unwatch m h) cs (unwatch-IsValid m h v)

-- Through any calls, the monitor watches no hash twice and no more hashes than its configuration
-- allows.
pub run_calls-IsValid :
    (config : PendingPoolConfig) (cs : List Call) → IsValid (run (new config) cs)
unfolding new
run_calls-IsValid config cs = run_from-IsValid (new config) cs (tt, omega arith)
