-- ===== src/Index/Tests/Ranges.antt =====
-- A backfill of the blocks 5 to 11 in segments of three.
use chainkit.Prelude.{
  All, List, Result, [], arith, count, if◌then◌else◌, leb, ok, refl, some, true, ℕ, ◌&&◌, ◌+◌, ◌-◌,
  ◌==◌, ◌∷◌, ◌≡◌, nat_eq, string_eq, pair_eq,
}
use chainkit.Index.Error.{IndexerError}
use chainkit.Index.Event.{DecodedEvent}
use chainkit.Index.Backfill.{
  has_status, in_progress, BackfillConfig, BackfillSegment, segments, pending, complete, failed,
  segment,
}
use chainkit.Index.Backfill.Segments.{Tiles, holds, segments_tile}
use chainkit.Index.Backfill.Spans.{span}
use chainkit.Index.Backfill.Engine
use chainkit.Index.Backfill.Engine.{EngineState, start, succeed, run_attempts, merge}
use chainkit.Index.Backfill.Engine.Totals.{
  Accounts, Reachable, begin, after, starts, succeeds, interleavings-Accounts,
}
use chainkit.Index.Backfill.Engine.Merge.{Sorted, complete_count, merge_lem}

abbrev config : BackfillConfig
config = record {
  from_block = 5;
  to_block = 11;
  concurrency = 2;
  segment_size = 3;
  batch_size = 2;
  retry_attempts = 1;
  retry_delay = 1;
}

segments_tile_example :
    (ss : List BackfillSegment) × (segments 10 config ≡ some ss)
    × Tiles 11 3 5 0 ss
    × ((b : ℕ) → count (holds b) ss ≡ (if leb 5 b && leb b 11 then 1 else 0))
segments_tile_example =
    segments_tile config 10 (omega arith) (omega arith) (omega arith) (omega arith)

abbrev event : ℕ → ℕ → DecodedEvent ℕ
event block_number log_index = record {
  chain = "ethereum";
  schema = "Transfer";
  address = "0xdead";
  tx_hash = "0x1";
  block_number = block_number;
  log_index = log_index;
  fields_json = 7;
}

abbrev events_of : ℕ → List (DecodedEvent ℕ)
events_of b = event b 0 ∷ event b 1 ∷ []

abbrev provider : ℕ → ℕ → Result (List (DecodedEvent ℕ)) IndexerError
provider a b = ok (span events_of a (b + 1 - a))

abbrev two : List BackfillSegment
two = segment 0 5 7 ∷ segment 1 8 10 ∷ []

abbrev begun : EngineState ℕ
begun = start (start (Engine.new two) 0) 1

abbrev done : EngineState ℕ
done = succeed begun 1 8 10 (events_of 9) 4

reached : Reachable two done
unfolding segment Engine.new start
reached =
    after
      (after (after begin (starts (Engine.new two) 0 (segment 0 5 7) refl refl))
        (starts (start (Engine.new two) 0) 1 (segment 1 8 10) refl refl))
      (succeeds begun 1 (record (segment 1 8 10) { status = in_progress }) (events_of 9) 4 refl
        refl)

pending_two : All (λ (g : BackfillSegment). has_status pending g ≡ true) two
unfolding segment
pending_two = (refl, (refl, tt))

interleavings-Accounts_example : Accounts done
interleavings-Accounts_example = interleavings-Accounts two pending_two reached

abbrev finished : List BackfillSegment
finished =
    record (segment 0 5 7) { status = complete }
    ∷ record (segment 1 8 10) { status = failed }
    ∷ record (segment 2 11 11) { status = complete }
    ∷ []

abbrev slots : List (List (DecodedEvent ℕ))
slots = (event 7 0 ∷ event 5 1 ∷ []) ∷ [] ∷ events_of 11 ∷ []

merge_lem_example :
    (merged : List (DecodedEvent ℕ)) × (merge finished slots ≡ some merged)
    × Sorted merged
    × (count (λ e. e.log_index == 0) merged ≡ complete_count (λ e. e.log_index == 0) finished slots)
merge_lem_example = merge_lem (λ e. e.log_index == 0) finished slots refl
