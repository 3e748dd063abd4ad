-- ===== src/Rpc/Selection.antt =====
-- chainrpc-core/src/selection.rs: which provider takes the next request. The atomics and the locked
-- vector are the fields of a record; the standard hasher is an argument, `hash`.
pub mod Cyclic
pub mod Weighted
pub mod Rounds
pub mod Latency
use chainkit.Prelude.{
  Bool, List, Option, String, [], count, false, get_or, if◌then◌else◌, length, ltb, none, set, some,
  suc, u64, u64_max, zero, ℕ, ◌%◌, ◌&&◌, ◌*◌, ◌+◌, ◌-◌, ◌/◌, ◌==◌, ◌∷◌, nat_eq, string_eq, pair_eq,
}

pub data SelectionStrategy : Type 0 where
  round_robin priority latency_based : SelectionStrategy
  weighted_round_robin : List ℕ → SelectionStrategy
  sticky : String → SelectionStrategy

pub record SelectionState : Type 0 where
  pub rr_cursor : ℕ
  pub latencies : List ℕ
  pub wrr_cursor : ℕ
  pub wrr_counter : ℕ

zeros : ℕ → List ℕ
zeros zero = []
zeros (suc n) = 0 ∷ zeros n

unfoldable pub new : ℕ → SelectionState
unfolding zeros
new provider_count = record {
  rr_cursor = 0;
  latencies = zeros provider_count;
  wrr_cursor = 0;
  wrr_counter = 0;
}

-- `allowed[idx]`, which every caller keeps in range
abbrev pub allowed_at : List Bool → ℕ → Bool
allowed_at allowed idx = get_or allowed idx false

-- `for i in i..` for `rounds` rounds, at the index `(start + i) % count`
unfoldable pub probe : ℕ → ℕ → ℕ → List Bool → Option ℕ
probe zero start i allowed = none
probe (suc rounds) start i allowed =
    let rest = probe rounds start (i + 1) allowed in
    let idx = u64 (start + i) % length allowed in if allowed_at allowed idx then some idx else rest

unfoldable pub select_round_robin : SelectionState → List Bool → Option ℕ × SelectionState
unfolding probe
select_round_robin s allowed = (
  probe (length allowed) (s.rr_cursor % length allowed) 0 allowed,
  record s { rr_cursor = u64 (s.rr_cursor + 1) },
)

-- the first allowed index, counted from `idx`
unfoldable pub position : ℕ → List Bool → Option ℕ
position idx [] = none
position idx (allowed ∷ rest) = if allowed then some idx else position (idx + 1) rest

unfoldable pub select_priority : List Bool → Option ℕ
unfolding position
select_priority allowed = position 0 allowed

unfoldable pub effective_from : ℕ → List Bool → List ℕ → List ℕ
effective_from i [] weights = []
effective_from i (free ∷ rest) weights =
    (if free then get_or weights i 1 else 0) ∷ effective_from (i + 1) rest weights

-- `sum` on `u64`
unfoldable pub sum_from : ℕ → List ℕ → ℕ
sum_from acc [] = acc
sum_from acc (w ∷ ws) = sum_from (u64 (acc + w)) ws

-- the loop with the running `cumulative`
unfoldable pub pick : ℕ → ℕ → ℕ → List ℕ → Option ℕ
pick target idx cumulative [] = none
pick target idx cumulative (w ∷ ws) =
    let reached = u64 (cumulative + w) in
    if ltb target reached then some idx else pick target (idx + 1) reached ws

or_else : Option ℕ → Option ℕ → Option ℕ
or_else none d = d
or_else (some i) d = some i

unfoldable pub select_weighted : SelectionState → List Bool → List ℕ → Option ℕ × SelectionState
unfolding effective_from sum_from pick or_else position
select_weighted s allowed weights =
    let effective = effective_from 0 allowed weights in
    let total = sum_from 0 effective in
    if total == 0 then (none, s) else (
      or_else (pick (s.wrr_counter % total) 0 0 effective) (position 0 allowed),
      record s { wrr_counter = u64 (s.wrr_counter + 1) },
    )

-- a provider with no data counts as very fast
abbrev pub effective_latency : List ℕ → ℕ → ℕ
effective_latency latencies idx = let lat = get_or latencies idx 0 in if lat == 0 then 1 else lat

unfoldable pub fastest : List ℕ → ℕ → Option ℕ → ℕ → List Bool → Option ℕ
fastest latencies idx best_idx best_latency [] = best_idx
fastest latencies idx best_idx best_latency (free ∷ rest) =
    let better = free && ltb (effective_latency latencies idx) best_latency in
    fastest latencies (idx + 1) (if better then some idx else best_idx)
      (if better then effective_latency latencies idx else best_latency) rest

unfoldable pub select_latency : SelectionState → List Bool → Option ℕ
unfolding fastest
select_latency s allowed = fastest s.latencies 0 none u64_max allowed

-- The latency in microseconds, as the `u64` that it is cast to.
unfoldable pub record_latency : SelectionState → ℕ → ℕ → SelectionState
record_latency s index sample =
    let old = get_or s.latencies index 0 in
    if ltb index (length s.latencies)
    then record s {
      latencies =
          set s.latencies index
            (if old == 0 then sample else u64 (u64 (sample * 3) + u64 (old * 7)) / 10);
    }
    else s

module _ (hash : String → ℕ) where
  unfoldable pub select_sticky : List Bool → String → Option ℕ
  unfolding probe
  select_sticky allowed key =
      let count = length allowed in
      let preferred = hash key % count in
      if count == 0
      then none
      else if allowed_at allowed preferred
      then some preferred
      else probe (count - 1) preferred 1 allowed

  unfoldable pub select : SelectionState → SelectionStrategy → List Bool → Option ℕ × SelectionState
  unfolding select_round_robin select_priority select_weighted select_latency select_sticky
  select s strategy allowed = if length allowed == 0 then (none, s) else elim strategy [
    | round_robin ↦ select_round_robin s allowed
    | priority ↦ (select_priority allowed, s)
    | weighted_round_robin weights ↦ select_weighted s allowed weights
    | latency_based ↦ (select_latency s allowed, s)
    | sticky key ↦ (select_sticky allowed key, s)
  ]
