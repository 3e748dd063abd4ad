-- ===== src/Index/Backfill/Engine.antt =====
-- chainindex-core/src/backfill.rs: the tasks of a backfill and the state that they share, the retries
-- of a segment, and the merge of what the segments fetched. A task holds the lock of the state for
-- one step at a time, so that the steps of different tasks interleave.
pub mod Totals
pub mod Retries
pub mod Merge
use chainkit.Prelude.{
  Bool, List, Option, Result, String, [], count, err, filter, if◌then◌else◌, leb, length, ltb, map,
  none, ok, set, some, sub64, suc, u64, u64_max, zero, ℕ, ◌&&◌, ◌++◌, ◌+◌, ◌-◌, ◌==◌, ◌||◌, ◌∷◌,
  nat_eq, string_eq, pair_eq,
}
use chainkit.Index.Error.{IndexerError}
use chainkit.Index.Event.{DecodedEvent}
use chainkit.Index.Backfill.{
  BackfillSegment, in_progress, complete, failed, pending, has_status, block_count,
}

pub record EngineState (J : Type 0) : Type 0 where
  pub segments : List BackfillSegment
  pub events : List (List (DecodedEvent J))
  pub processed_blocks : ℕ
  pub total_events : ℕ

pub record BackfillProgress : Type 0 where
  pub total_segments : ℕ
  pub completed_segments : ℕ
  pub failed_segments : ℕ
  pub total_blocks : ℕ
  pub processed_blocks : ℕ
  pub total_events : ℕ

pub record BackfillResult : Type 0 where
  pub segments : List BackfillSegment
  pub total_events : ℕ
  pub failed_segments : List ℕ

-- `eta` in seconds, where it does not depend on the rate: `none` is the division by the rate.
unfoldable pub eta : BackfillProgress → Bool → Option ℕ
eta p no_rate =
    if p.total_blocks - p.processed_blocks == 0
    then some 0
    else if no_rate
    then some u64_max
    else none

-- `guard.segments[seg_id]`, which the tasks keep in range
edit : (BackfillSegment → BackfillSegment) → ℕ → List BackfillSegment → List BackfillSegment
edit f i [] = []
edit f zero (s ∷ ss) = f s ∷ ss
edit f (suc i) (s ∷ ss) = s ∷ edit f i ss

module _ {J : Type 0} where
  no_events : List BackfillSegment → List (List (DecodedEvent J))
  no_events [] = []
  no_events (s ∷ ss) = [] ∷ no_events ss

  -- `EngineState::new`
  unfoldable pub new : List BackfillSegment → EngineState J
  unfolding no_events
  new segments = record {
    segments = segments;
    events = no_events segments;
    processed_blocks = 0;
    total_events = 0;
  }

  unfoldable pub progress : EngineState J → ℕ → BackfillProgress
  progress s total_blocks = record {
    total_segments = length s.segments;
    completed_segments = count (has_status complete) s.segments;
    failed_segments = count (has_status failed) s.segments;
    total_blocks = total_blocks;
    processed_blocks = s.processed_blocks;
    total_events = s.total_events;
  }

  -- a task takes its segment up
  unfoldable pub start : EngineState J → ℕ → EngineState J
  unfolding edit
  start s seg_id = record s {
    segments = edit (λ g. record g { status = in_progress }) seg_id s.segments;
  }

  -- a task succeeds with the events that it collected, after `elapsed`
  unfoldable pub succeed : EngineState J → ℕ → ℕ → ℕ → List (DecodedEvent J) → ℕ → EngineState J
  unfolding edit
  succeed s seg_id from_block to_block collected elapsed = record s {
    segments =
        edit
          (λ g. record g {
            status = complete;
            events_processed = length collected;
            duration = some elapsed;
          })
          seg_id s.segments;
    events = set s.events seg_id collected;
    processed_blocks = u64 (s.processed_blocks + u64 (sub64 to_block from_block + 1));
    total_events = u64 (s.total_events + length collected);
  }

  -- a task gives its segment up
  unfoldable pub give_up : EngineState J → ℕ → Option String → ℕ → EngineState J
  unfolding edit
  give_up s seg_id last_error elapsed = record s {
    segments =
        edit (λ g. record g { status = failed; error = last_error; duration = some elapsed }) seg_id
          s.segments;
  }

  -- what `run` returns once every task is done
  unfoldable pub result : EngineState J → BackfillResult
  result s = record {
    segments = s.segments;
    total_events = s.total_events;
    failed_segments = map (λ g. g.id) (filter (has_status failed) s.segments);
  }

  -- The retries: the outcome of each attempt is an argument, and so is the text of an error.
  unfoldable pub attempts :
      (IndexerError → String)
      → (ℕ → Result (List (DecodedEvent J)) IndexerError)
      → ℕ
      → ℕ
      → Option String
      → Result (List (DecodedEvent J)) (Option String)
  attempts text try zero attempt last_error = err last_error
  attempts text try (suc left) attempt last_error = elim (try attempt) [
    | ok events ↦ ok events
    | err e ↦ attempts text try left (attempt + 1) (some (text e))
  ]

  -- `0..=retry_attempts`
  unfoldable pub run_attempts :
      (IndexerError → String)
      → (ℕ → Result (List (DecodedEvent J)) IndexerError)
      → ℕ
      → Result (List (DecodedEvent J)) (Option String)
  unfolding attempts
  run_attempts text try retry_attempts = attempts text try (suc retry_attempts) 0 none

  -- the order of `(block_number, log_index)`
  abbrev pub key_le : DecodedEvent J → DecodedEvent J → Bool
  key_le a b =
      ltb a.block_number b.block_number
      || a.block_number == b.block_number && leb a.log_index b.log_index

  -- `sort_by_key`, which is stable
  unfoldable pub insert_sorted : DecodedEvent J → List (DecodedEvent J) → List (DecodedEvent J)
  insert_sorted a [] = a ∷ []
  insert_sorted a (b ∷ bs) = if key_le a b then a ∷ b ∷ bs else b ∷ insert_sorted a bs

  unfoldable pub sort_by_key : List (DecodedEvent J) → List (DecodedEvent J)
  unfolding insert_sorted
  sort_by_key [] = []
  sort_by_key (a ∷ rest) = insert_sorted a (sort_by_key rest)

  unfoldable pub completed :
      List BackfillSegment → List (List (DecodedEvent J)) → List (DecodedEvent J)
  completed [] events = []
  completed (s ∷ ss) [] = []
  completed (s ∷ ss) (es ∷ events) =
      (if has_status complete s then es else []) ++ completed ss events

  -- `SegmentMerger::merge`; slices of different lengths panic, `none`
  unfoldable pub merge :
      List BackfillSegment → List (List (DecodedEvent J)) → Option (List (DecodedEvent J))
  unfolding sort_by_key completed
  merge segments events =
      if length segments == length events
      then some (sort_by_key (completed segments events))
      else none
