-- ===== src/Index/Tests/Starting.antt =====
-- A backfill of the blocks 5 to 8 in batches of three, where the handlers refuse nothing.
use chainkit.Prelude.{
  Bool, List, Result, [], arith, false, ok, refl, some, true, ℕ, ◌+◌, ◌-◌, ◌∷◌, ◌≡◌,
}
use chainkit.Prelude.Int.{pos}
use chainkit.Index.Error.{IndexerError}
use chainkit.Index.Checkpoint.{MemoryCheckpoints, memory_store, CheckpointManager}
use chainkit.Index.Backfill.Spans.{span}
use chainkit.Index.Startup.{Source, backfill}
use chainkit.Index.Startup.Batches.{Outcome, backfill-Outcome}

-- Two logs in each block; the second was removed.
abbrev logs_of : ℕ → List (ℕ × Bool)
logs_of b = (b, false) ∷ (b, true) ∷ []

abbrev source : Source (ℕ × Bool)
source = record {
  logs = λ a b. ok (span logs_of a (b + 1 - a));
  is_removed = λ log. log.1;
  dispatch_event = λ log. ok tt;
  now = λ n. pos n;
}

abbrev manager : CheckpointManager MemoryCheckpoints
manager = record {
  store = [];
  chain_id = "ethereum";
  indexer_id = "usdc";
  save_interval = 4;
  counter = 0;
}

backfill-Outcome_example :
    (r : Result (Unit {0}) IndexerError) × (m : CheckpointManager MemoryCheckpoints) × (backfill
        memory_store source 3 8 5 manager 5
      ≡ some (r, m))
    × Outcome memory_store source 3 8 logs_of 5 r
backfill-Outcome_example =
    backfill-Outcome memory_store source 3 8 logs_of 5 manager 5 (λ a b h. refl) (omega arith)
      (omega arith) (omega arith) (omega arith)
